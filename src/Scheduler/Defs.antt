-- ===== src/Scheduler/Defs.antt =====
-- The processes and the timer's handler of src/common/scheduler.c. A process is at an address, and
-- the memory of the processes is a function from addresses; 0 is the null pointer. The registers of
-- the controller and of the processor that the handler writes are fields of the processor.
use kokos.Shared.{ℕ, ◌+◌, not, ◌==◌, if◌then◌else◌}

pub record SavedRegisters : Type 0 where
  pub r11 : ℕ
  pub r10 : ℕ
  pub r9 : ℕ
  pub r8 : ℕ
  pub rsi : ℕ
  pub rdi : ℕ
  pub rdx : ℕ
  pub rcx : ℕ
  pub rbx : ℕ
  pub rax : ℕ
  pub rbp : ℕ

-- `struct scheduler_interrupt_frame`, with the fields of its `base`
pub record InterruptFrame : Type 0 where
  pub registers : SavedRegisters
  pub instruction_pointer : ℕ
  pub code_segment : ℕ
  pub rflags : ℕ
  pub stack_pointer : ℕ
  pub stack_segment : ℕ

pub record Process : Type 0 where
  pub id : ℕ
  pub next : ℕ
  pub previous : ℕ
  pub level4_table : ℕ
  pub saved_rflags : ℕ
  pub saved_instruction_pointer : ℕ
  pub saved_stack_pointer : ℕ
  pub saved_registers : SavedRegisters

pub record Cpu : Type 0 where
  pub current_process : ℕ
  pub process : ℕ → Process
  pub cr3 : ℕ
  pub interrupts_ended : ℕ
  pub timer_initial_count : ℕ

abbrev pub timer_interval : ℕ
timer_interval = 10000

abbrev pub store_process : ℕ → Process → (ℕ → Process) → ℕ → Process
store_process address p process a = if a == address then p else process a

-- `Save current registers`, `Restore next process registers`
unfoldable pub save : InterruptFrame → Process → Process
save stack p = record p {
  saved_rflags = stack.rflags;
  saved_instruction_pointer = stack.instruction_pointer;
  saved_stack_pointer = stack.stack_pointer;
  saved_registers = stack.registers;
}

unfoldable pub restore : Process → InterruptFrame → InterruptFrame
restore p stack = record stack {
  instruction_pointer = p.saved_instruction_pointer;
  stack_pointer = p.saved_stack_pointer;
  rflags = p.saved_rflags;
  registers = p.saved_registers;
}

unfoldable pub switch_process : ℕ → InterruptFrame → Cpu → InterruptFrame × Cpu
unfolding save restore
switch_process next stack cpu =
    let saved =
      store_process cpu.current_process (save stack (cpu.process cpu.current_process))
        cpu.process in
    (
      restore (saved next) stack,
      record cpu { process = saved; cr3 = (saved next).level4_table; current_process = next },
    )

unfoldable pub handle_interrupt : InterruptFrame → Cpu → InterruptFrame × Cpu
unfolding switch_process
handle_interrupt stack cpu =
    let ended : Cpu = record cpu { interrupts_ended = cpu.interrupts_ended + 1 } in
    let next = (cpu.process cpu.current_process).next in
    let (stack', cpu') =
      if not (cpu.current_process == next)
      then switch_process next stack ended
      else (stack, ended) in
    (stack', record cpu' { timer_initial_count = timer_interval })

-- The end of `scheduler_execute`: the new process at `address` goes into the list.
unfoldable pub insert_process : ℕ → Cpu → Cpu
insert_process address cpu =
    if not (cpu.current_process == 0)
    then (let added =
          store_process address
            (record (cpu.process address) {
              next = (cpu.process cpu.current_process).next;
              previous = cpu.current_process;
            })
            cpu.process in
        record cpu {
          process =
              store_process cpu.current_process
                (record (added cpu.current_process) { next = address }) added;
        })
    else record cpu {
      process =
          store_process address
            (record (cpu.process address) { next = address; previous = address }) cpu.process;
      current_process = address;
    }
