-- ===== src/Interrupt/Defs.antt =====
-- src/common/idt.c: the interrupt descriptor table of a processor. The functions that handle the
-- interrupts are named, and their addresses are a parameter.

use kokos.Shared.{
  ℕ, zero, suc, ◌+◌, ◌-◌, ◌*◌, ◌/◌, ◌^◌, bit_and, bit_or, List, [], ◌∷◌, ◌++◌, ◌==◌, if◌then◌else◌,
}
use kokos.Console.Calls.{ConsoleCall, print_call, print_u64_call, print_i32_call, new_line_call}

-- `struct idt_entry`
pub record IdtEntry : Type 0 where
  pub offset1 : ℕ
  pub code_segment : ℕ
  pub interrupt_stack : ℕ
  pub gate_type : ℕ
  pub unused1 : ℕ
  pub privilege_level : ℕ
  pub present : ℕ
  pub offset2 : ℕ
  pub offset3 : ℕ
  pub unused : ℕ

-- `enum idt_gate_type`
abbrev pub gate_type_interrupt : ℕ
gate_type_interrupt = 0b1110

abbrev pub gate_type_trap : ℕ
gate_type_trap = 0b1111

-- `enum idt_stack_type`
abbrev pub stack_type_current : ℕ
stack_type_current = 0

abbrev pub stack_type_double_fault : ℕ
stack_type_double_fault = 1

abbrev pub kernel_code_segment : ℕ
kernel_code_segment = 0x8

-- The table has 256 entries, and a vector is an `unsigned char`.
abbrev pub Table : Type 0
Table = ℕ → IdtEntry

abbrev pub set_entry : ℕ → IdtEntry → Table → Table
set_entry vector entry table i = if i == vector then entry else table i

unfoldable pub disable_interrupt : ℕ → Table → Table
disable_interrupt vector table = set_entry vector (record (table vector) { present = 0 }) table

unfoldable pub enable_interrupt : ℕ → Table → Table
enable_interrupt vector table = set_entry vector (record (table vector) { present = 1 }) table

-- The fields that `idt_register_interrupt` writes.
unfoldable pub registered_entry : ℕ → ℕ → ℕ → IdtEntry → IdtEntry
registered_entry function_pointer interrupt_type ist entry = record entry {
  offset1 = bit_and function_pointer 0xFFFF;
  code_segment = kernel_code_segment;
  interrupt_stack = bit_and ist 0b111;
  gate_type = bit_and interrupt_type 0xF;
  present = 1;
  offset2 = bit_and (function_pointer / 2 ^ 16) 0xFFFF;
  offset3 = bit_and (function_pointer / 2 ^ 32) 0xFFFFFFFF;
}

-- The new table, and what is printed when the vector was in use.
unfoldable pub register_interrupt : ℕ → ℕ → ℕ → ℕ → Table → List ConsoleCall × Table
unfolding registered_entry
register_interrupt vector function_pointer interrupt_type ist table = (
  (if (table vector).present == 0
      then []
      else print_call "warning: overwriting interrupt vector #"
        ∷ print_i32_call vector 10
        ∷ new_line_call
        ∷ []),
  set_entry vector (registered_entry function_pointer interrupt_type ist (table vector)) table,
)

-- The address that `idt_debug` puts together.
unfoldable pub offset : IdtEntry → ℕ
offset entry = bit_or (bit_or entry.offset1 (entry.offset2 * 2 ^ 16)) (entry.offset3 * 2 ^ 32)

-- The loop of `idt_debug`.
unfoldable idt_debug_loop : ℕ → ℕ → Table → List ConsoleCall
unfolding offset
idt_debug_loop zero i table = []
idt_debug_loop (suc rounds) i table =
    let entry = table i in
    (if entry.present == 0
      then []
      else print_call "[idt] entry #"
        ∷ print_u64_call i 10
        ∷ print_call " offset=0x"
        ∷ print_u64_call (offset entry) 16
        ∷ print_call " code_segment="
        ∷ print_u64_call entry.code_segment 10
        ∷ print_call " type=0b"
        ∷ print_u64_call entry.gate_type 2
        ∷ print_call " level="
        ∷ print_u64_call entry.privilege_level 10
        ∷ print_call " ist="
        ∷ print_u64_call entry.interrupt_stack 10
        ∷ new_line_call
        ∷ [])
    ++ idt_debug_loop rounds (i + 1) table

unfoldable idt_debug : Table → List ConsoleCall
unfolding idt_debug_loop
idt_debug = idt_debug_loop (256 - 17) 0
