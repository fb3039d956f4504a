-- ===== src/Scheduler/Switch.antt =====
-- The switch of processes: the registers of a process over two switches.
use kokos.Shared.{ℕ, ◌+◌, ◌≡◌, ◌≢◌, refl, ap, ◌∙◌, true, false, arith, ◌==◌}
use kokos.Scheduler.Defs.{
  InterruptFrame, Process, Cpu, timer_interval, store_process, save, restore, switch_process,
  handle_interrupt,
}

-- The states after the timer when there is another process, at `next`.
abbrev pub switched : ℕ → InterruptFrame → Cpu → Cpu
switched next stack cpu = record cpu {
  process =
      store_process cpu.current_process (save stack (cpu.process cpu.current_process)) cpu.process;
  cr3 = (cpu.process next).level4_table;
  current_process = next;
  interrupts_ended = cpu.interrupts_ended + 1;
  timer_initial_count = timer_interval;
}

module _ (stack : InterruptFrame) (cpu : Cpu) {next : ℕ}
    (at_next : (cpu.process cpu.current_process).next ≡ next)
    (other : cpu.current_process ≢ next) where
  pub handle_interrupt_switch :
      handle_interrupt stack cpu ≡ (restore (cpu.process next) stack, switched next stack cpu)
  unfolding handle_interrupt switch_process
  handle_interrupt_switch =
      let away : (cpu.current_process == next) ≡ false = ground arith in
      let behind : (next == cpu.current_process) ≡ false = ground arith in
      rw (at_next, away, behind) refl

-- With two different processes that come after each other, the timer switches to the other one, and
-- the next timer gives the first one back the registers, the place, the stack pointer and the flags
-- that it was interrupted with, whatever state the other one is in; each time the page table of the
-- process is in use, and two interrupts are ended.
pub resume :
    (stack stack' : InterruptFrame) (cpu : Cpu) (other : ℕ)
    → (cpu.process cpu.current_process).next ≡ other
    → (cpu.process other).next ≡ cpu.current_process
    → cpu.current_process ≢ other
    → (first : Cpu) × (back : InterruptFrame) × (second : Cpu) × (handle_interrupt stack cpu
        ≡ (restore (cpu.process other) stack, first))
      × (first.current_process ≡ other)
      × (first.cr3 ≡ (cpu.process other).level4_table)
      × (handle_interrupt stack' first ≡ (back, second))
      × (back.registers ≡ stack.registers)
      × (back.instruction_pointer ≡ stack.instruction_pointer)
      × (back.stack_pointer ≡ stack.stack_pointer)
      × (back.rflags ≡ stack.rflags)
      × (second.current_process ≡ cpu.current_process)
      × (second.cr3 ≡ (cpu.process cpu.current_process).level4_table)
      × (second.interrupts_ended ≡ cpu.interrupts_ended + 2)
unfolding save restore
resume stack stack' cpu other there here apart =
    let first : Cpu = switched other stack cpu in
    let away : (other == cpu.current_process) ≡ false = ground arith in
    let home : (cpu.current_process == cpu.current_process) ≡ true = ground arith in
    let kept : (first.process other) ≡ cpu.process other = rw away refl in
    let saved : first.process cpu.current_process ≡ save stack (cpu.process cpu.current_process) =
      rw home refl in
    (
      first,
      restore (first.process cpu.current_process) stack',
      switched cpu.current_process stack' first,
      handle_interrupt_switch stack cpu there apart,
      refl,
      refl,
      handle_interrupt_switch stack' first (ap (λ (p : Process). p.next) kept ∙ here)
          (λ e. apart (ground arith)),
      ap (λ (p : Process). p.saved_registers) saved,
      ap (λ (p : Process). p.saved_instruction_pointer) saved,
      ap (λ (p : Process). p.saved_stack_pointer) saved,
      ap (λ (p : Process). p.saved_rflags) saved,
      refl,
      ap (λ (p : Process). p.level4_table) saved,
      omega arith,
    )
