-- ===== src/Interrupt/Examples.antt =====
-- The theorems about idt.c at small tables, and tests of the operations.
use kokos.Shared.{ℕ, ◌≡◌, ◌≢◌, refl, [], arith}
use kokos.Interrupt.Defs.{
  Table, register_interrupt, registered_entry, disable_interrupt, enable_interrupt,
}
use kokos.Interrupt.Initialize.{Handler, registrations, zero_entry, idt_initialize}
use kokos.Interrupt.Gates.{
  IsGate, Installed, last_for, is_some, in_use, register_interrupt-IsGate, idt_initialize-Installed,
}

abbrev empty_table : Table
empty_table vector = zero_entry

abbrev handler_address : Handler → ℕ
handler_address h = 0x123456

register_interrupt-IsGate_example :
    (registered : Table) × (registered
      ≡ (register_interrupt 33 0xFFFF_8000_1234_5678 15 9 empty_table).1)
    × IsGate 0xFFFF_8000_1234_5678 15 9 (registered 33)
    × ((i : ℕ) → i ≢ 33 → registered i ≡ empty_table i)
    × ((disable_interrupt 33 registered 33).present ≡ 0)
    × ((i : ℕ) → enable_interrupt 33 (disable_interrupt 33 registered) i ≡ registered i)
register_interrupt-IsGate_example =
    register_interrupt-IsGate 33 0xFFFF_8000_1234_5678 15 9 empty_table (omega arith)

idt_initialize-Installed_example :
    Installed handler_address
      (last_for 8 registrations)
      zero_entry
      ((idt_initialize handler_address).1 8)
    × (is_some (last_for 8 registrations) ≡ in_use 8)
idt_initialize-Installed_example =
    idt_initialize-Installed handler_address (λ h. omega arith) 8 (omega arith)

-- Nothing is registered twice, so no warning is printed.
no_warning_test : (idt_initialize handler_address).0 ≡ []
unfolding idt_initialize registered_entry register_interrupt
no_warning_test = refl

-- A double fault has a stack of its own.
double_fault_test : ((idt_initialize handler_address).1 8).interrupt_stack ≡ 1
unfolding idt_initialize registered_entry register_interrupt
double_fault_test = refl
