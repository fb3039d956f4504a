-- ===== src/Interrupt/Initialize.antt =====
-- `idt_initialize` of src/common/idt.c: the handlers and their vectors.
use kokos.Shared.{ℕ, zero, suc, ◌+◌, ◌-◌, List, [], ◌∷◌, ◌++◌}
use kokos.Console.Calls.{ConsoleCall}
use kokos.Interrupt.Defs.{
  IdtEntry, Table, gate_type_interrupt, gate_type_trap, stack_type_current, stack_type_double_fault,
  register_interrupt,
}

-- The functions `idt_handle_…`
pub data Handler : Type 0 where
  divide_by_zero : Handler
  debug : Handler
  non_maskable_interrupt : Handler
  breakpoint : Handler
  overflow : Handler
  bound_range : Handler
  invalid_opcode : Handler
  device_not_available : Handler
  invalid_double_fault : Handler
  segment_overrun : Handler
  invalid_tss : Handler
  segment_not_present : Handler
  stack : Handler
  general_protection : Handler
  page_fault : Handler
  float_exception : Handler
  alignment_check : Handler
  machine_check : Handler
  simd_float_exception : Handler
  spurious : Handler

-- The arguments of one call of `idt_register_interrupt`.
pub record Registration : Type 0 where
  pub vector : ℕ
  pub handler : Handler
  pub interrupt_type : ℕ
  pub ist : ℕ

abbrev trap : ℕ → Handler → Registration
trap vector handler = record {
  vector = vector;
  handler = handler;
  interrupt_type = gate_type_trap;
  ist = stack_type_current;
}

-- The loop over the last vectors.
unfoldable pub spurious_registrations : ℕ → ℕ → List Registration
spurious_registrations zero i = []
spurious_registrations (suc rounds) i = trap i spurious ∷ spurious_registrations rounds (i + 1)

-- The calls in their order. The loop from `0xff - 17` up to `0xff` has 18 rounds.
unfoldable pub registrations : List Registration
unfolding spurious_registrations
registrations =
    (trap 0 divide_by_zero
      ∷ trap 1 debug
      ∷ record {
        vector = 2;
        handler = non_maskable_interrupt;
        interrupt_type = gate_type_interrupt;
        ist = stack_type_current;
      }
      ∷ trap 3 breakpoint
      ∷ trap 4 overflow
      ∷ trap 5 bound_range
      ∷ trap 6 invalid_opcode
      ∷ trap 7 device_not_available
      ∷ record {
        vector = 8;
        handler = invalid_double_fault;
        interrupt_type = gate_type_interrupt;
        ist = stack_type_double_fault;
      }
      ∷ trap 9 segment_overrun
      ∷ trap 10 invalid_tss
      ∷ trap 11 segment_not_present
      ∷ trap 12 stack
      ∷ trap 13 general_protection
      ∷ trap 14 page_fault
      ∷ trap 16 float_exception
      ∷ trap 17 alignment_check
      ∷ trap 18 machine_check
      ∷ trap 19 simd_float_exception
      ∷ [])
    ++ spurious_registrations 18 (0xff - 17)

unfoldable pub register_all : (Handler → ℕ) → List Registration → Table → List ConsoleCall × Table
register_all address [] table = ([], table)
register_all address (r ∷ rest) table =
    let (warning, table') =
      register_interrupt r.vector (address r.handler) r.interrupt_type r.ist table in
    let (warnings, table'') = register_all address rest table' in (warning ++ warnings, table'')

-- `memory_zero` on the page of the table.
abbrev pub zero_entry : IdtEntry
zero_entry = record {
  offset1 = 0;
  code_segment = 0;
  interrupt_stack = 0;
  gate_type = 0;
  unused1 = 0;
  privilege_level = 0;
  present = 0;
  offset2 = 0;
  offset3 = 0;
  unused = 0;
}

unfoldable pub idt_initialize : (Handler → ℕ) → List ConsoleCall × Table
unfolding register_all registrations
idt_initialize address = register_all address registrations (λ vector. zero_entry)
