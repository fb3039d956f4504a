-- ===== src/Scheduler/Examples.antt =====
-- The theorems about scheduler.c at two processes, and at a third that is new.
use kokos.Shared.{ℕ, ◌+◌, ◌≡◌, refl, [], ◌∷◌, ◌++◌, arith, ◌==◌, if◌then◌else◌}
use kokos.Scheduler.Defs.{
  SavedRegisters, InterruptFrame, Process, Cpu, restore, handle_interrupt, insert_process,
}
use kokos.Scheduler.Switch.{resume}
use kokos.Scheduler.Ring.{IsRing, insert_process-IsRing, handle_interrupt-IsRing}

abbrev registers : ℕ → SavedRegisters
registers n = record {
  r11 = n;
  r10 = n + 1;
  r9 = n;
  r8 = n;
  rsi = n;
  rdi = n;
  rdx = n;
  rcx = n;
  rbx = n;
  rax = n + 2;
  rbp = n;
}

abbrev frame : ℕ → InterruptFrame
frame n = record {
  registers = registers n;
  instruction_pointer = n + 100;
  code_segment = 8;
  rflags = 2;
  stack_pointer = n + 200;
  stack_segment = 16;
}

abbrev process_of : ℕ → ℕ → ℕ → Process
process_of id next previous = record {
  id = id;
  next = next;
  previous = previous;
  level4_table = 0x1000 + id;
  saved_rflags = 0x246;
  saved_instruction_pointer = 7;
  saved_stack_pointer = 9;
  saved_registers = registers 0;
}

-- The processes at 10 and 20 take turns.
abbrev two : Cpu
two = record {
  current_process = 10;
  process = λ a. if a == 10 then process_of 0 20 20 else process_of 1 10 10;
  cr3 = 0x1000;
  interrupts_ended = 0;
  timer_initial_count = 0;
}

two-IsRing : IsRing two (20 ∷ [])
two-IsRing = record { leads = (refl, refl); once = ((λ e. absurd (omega arith), _), (_, _)) }

resume_example :
    (first : Cpu) × (back : InterruptFrame) × (second : Cpu) × (handle_interrupt (frame 1) two
      ≡ (restore (process_of 1 10 10) (frame 1), first))
    × (first.current_process ≡ 20)
    × (first.cr3 ≡ 0x1001)
    × (handle_interrupt (frame 2) first ≡ (back, second))
    × (back.registers ≡ registers 1)
    × (back.instruction_pointer ≡ 101)
    × (back.stack_pointer ≡ 201)
    × (back.rflags ≡ 2)
    × (second.current_process ≡ 10)
    × (second.cr3 ≡ 0x1000)
    × (second.interrupts_ended ≡ 0 + 2)
resume_example = resume (frame 1) (frame 2) two 20 refl refl (λ e. absurd (omega arith))

insert_process-IsRing_example : IsRing (insert_process 30 two) (30 ∷ 20 ∷ [])
insert_process-IsRing_example =
    insert_process-IsRing 30 two (20 ∷ []) (λ e. absurd (omega arith)) (λ e. absurd (omega arith))
      (λ e. absurd (omega arith), _) two-IsRing

-- The process after the new one still has the current one as its `previous`.
previous_test : ((insert_process 30 two).process 20).previous ≡ 10
unfolding insert_process
previous_test = refl

handle_interrupt-IsRing_example :
    (stack' : InterruptFrame) × (cpu' : Cpu) × (handle_interrupt (frame 1) two ≡ (stack', cpu'))
    × (cpu'.current_process ≡ 20)
    × IsRing cpu' ([] ++ (10 ∷ []))
handle_interrupt-IsRing_example = handle_interrupt-IsRing (frame 1) two 20 [] two-IsRing
