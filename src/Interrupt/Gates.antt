-- ===== src/Interrupt/Gates.antt =====
-- The entries of the interrupt table: those of single registrations, and the whole table behind
-- `idt_initialize`.
use kokos.Shared.{
  ℕ, ◌/◌, ◌%◌, ◌^◌, ◌<◌, ◌≡◌, ◌≢◌, refl, ap, sym, ◌∙◌, inl, inr, List, [], ◌∷◌, Option, none, some,
  Bool, true, false, not, ◌&&◌, ◌||◌, arith, ◌==◌, ==_iff, if◌then◌else◌, leb, Bool-cases,
}
use kokos.Word.Bits.{bit_and-low_mask, every_below, every_below_at}
use kokos.Word.Join.{join-split}
use kokos.Interrupt.Defs.{
  IdtEntry, Table, set_entry, offset, registered_entry, register_interrupt, disable_interrupt,
  enable_interrupt, kernel_code_segment,
}
use kokos.Interrupt.Initialize.{
  Handler, Registration, registrations, spurious_registrations, register_all, zero_entry,
  idt_initialize,
}

-- An entry that leads to an address.
pub record IsGate (function_pointer interrupt_type ist : ℕ) (entry : IdtEntry) : Type 0 where
  pub leads : offset entry ≡ function_pointer
  pub kind : entry.gate_type ≡ interrupt_type % 16
  pub on_stack : entry.interrupt_stack ≡ ist % 8
  pub in_kernel : entry.code_segment ≡ kernel_code_segment
  pub is_present : entry.present ≡ 1

registered_entry-IsGate :
    (function_pointer interrupt_type ist : ℕ) (entry : IdtEntry)
    → function_pointer < 2 ^ 64
    → IsGate function_pointer interrupt_type ist
        (registered_entry function_pointer interrupt_type ist entry)
unfolding registered_entry offset
registered_entry-IsGate function_pointer interrupt_type ist entry fits = record {
  leads =
      rw
        (
          bit_and-low_mask 16 function_pointer,
          bit_and-low_mask 16 (function_pointer / 2 ^ 16),
          bit_and-low_mask 32 (function_pointer / 2 ^ 32),
        )
        (join-split function_pointer fits);
  kind = bit_and-low_mask 4 interrupt_type;
  on_stack = bit_and-low_mask 3 ist;
  in_kernel = refl;
  is_present = refl;
}

set_entry_self :
    (vector : ℕ) (entry : IdtEntry) (table : Table) → set_entry vector entry table vector ≡ entry
set_entry_self vector entry table =
    let same : (vector == vector) ≡ true = ground arith in rw same refl

set_entry_ne :
    {vector i : ℕ} (entry : IdtEntry) (table : Table)
    → i ≢ vector
    → set_entry vector entry table i ≡ table i
set_entry_ne {vector} {i} entry table ne =
    let other : (i == vector) ≡ false = ground arith in rw other refl

-- Disabling and enabling a vector that is present gives back every entry.
enable-disable :
    (vector : ℕ) (table : Table)
    → (table vector).present ≡ 1
    → (i : ℕ) → enable_interrupt vector (disable_interrupt vector table) i ≡ table i
unfolding disable_interrupt enable_interrupt
enable-disable vector table on i = elim (Bool-cases (i == vector)) [
  | inl same ↦ rw same (
      rw (set_entry_self vector (record (table vector) { present = 0 }) table, sym on)
        (ap table (sym ((==_iff i vector).0 same))))
  | inr other ↦ rw other refl
]

-- For a function with an address of 64 bits, a registration makes the entry of its vector one that
-- leads to the function, of the kind and on the stack that were asked for, and leaves the other
-- entries alone. Disabling the vector clears the present bit, and enabling it again gives back the
-- table.
pub register_interrupt-IsGate :
    (vector function_pointer interrupt_type ist : ℕ) (table : Table)
    → function_pointer < 2 ^ 64
    → (registered : Table) × (registered
        ≡ (register_interrupt vector function_pointer interrupt_type ist table).1)
      × IsGate function_pointer interrupt_type ist (registered vector)
      × ((i : ℕ) → i ≢ vector → registered i ≡ table i)
      × ((disable_interrupt vector registered vector).present ≡ 0)
      × ((i : ℕ) → enable_interrupt vector (disable_interrupt vector registered) i ≡ registered i)
unfolding register_interrupt registered_entry disable_interrupt enable_interrupt
register_interrupt-IsGate vector function_pointer interrupt_type ist table fits =
    let entry = registered_entry function_pointer interrupt_type ist (table vector) in
    let here : set_entry vector entry table vector ≡ entry = set_entry_self vector entry table in
    (
      set_entry vector entry table,
      refl,
      rw here (registered_entry-IsGate function_pointer interrupt_type ist (table vector) fits),
      (λ i ne. set_entry_ne entry table ne),
      ap (λ (e : IdtEntry). e.present)
          (set_entry_self vector (record (set_entry vector entry table vector) { present = 0 })
            (set_entry vector entry table)),
      enable-disable vector (set_entry vector entry table) (ap (λ (e : IdtEntry). e.present) here),
    )

-- The entry of a vector behind some registrations.
entry_after : (Handler → ℕ) → ℕ → List Registration → IdtEntry → IdtEntry
entry_after address vector [] entry = entry
entry_after address vector (r ∷ rest) entry = entry_after address vector rest (
    if vector == r.vector
    then registered_entry (address r.handler) r.interrupt_type r.ist entry
    else entry)

-- The last registration of a vector.
unfoldable pub last_for : ℕ → List Registration → Option Registration
last_for vector [] = none
last_for vector (r ∷ rest) = elim (last_for vector rest) [
  | some s ↦ some s
  | none ↦ if vector == r.vector then some r else none
]

-- What an entry is behind the last registration of its vector, or without one.
abbrev pub Installed : (Handler → ℕ) → Option Registration → IdtEntry → IdtEntry → Type 0
Installed address none before after = after ≡ before
Installed address (some r) before after = IsGate (address r.handler) r.interrupt_type r.ist after

Installed-step :
    (address : Handler → ℕ) (o : Option Registration) (hit : Bool) (r : Registration)
    (before after : IdtEntry)
    → address r.handler < 2 ^ 64
    → Installed address o
        (if hit then registered_entry (address r.handler) r.interrupt_type r.ist before else before)
        after
    → Installed address
        (elim o [ some s ↦ some s | none ↦ if hit then some r else none ])
        before
        after
Installed-step address (some s) hit r before after fits is = is
Installed-step address none false r before after fits is = is
Installed-step address none true r before after fits is =
    rw is (registered_entry-IsGate (address r.handler) r.interrupt_type r.ist before fits)

entry_after-Installed :
    (address : Handler → ℕ) (vector : ℕ) (rs : List Registration) (before : IdtEntry)
    → ((h : Handler) → address h < 2 ^ 64)
    → Installed address (last_for vector rs) before (entry_after address vector rs before)
unfolding last_for entry_after
entry_after-Installed address vector [] before fits = refl
entry_after-Installed address vector (r ∷ rest) before fits =
    Installed-step address (last_for vector rest) (vector == r.vector) r before _ (fits r.handler)
      (entry_after-Installed address vector rest _ fits)

set_entry-mapped :
    (at i : ℕ) (f : IdtEntry → IdtEntry) (table : Table)
    → set_entry at (f (table at)) table i ≡ (if i == at then f (table i) else table i)
set_entry-mapped at i f table = elim (Bool-cases (i == at)) [
  | inl same ↦ rw same (ap (λ (k : ℕ). f (table k)) (sym ((==_iff i at).0 same)))
  | inr other ↦ rw other refl
]

register_all-entry_after :
    (address : Handler → ℕ) (vector : ℕ) (rs : List Registration) (table : Table)
    → (register_all address rs table).1 vector ≡ entry_after address vector rs (table vector)
unfolding register_all entry_after register_interrupt
register_all-entry_after address vector [] table = refl
register_all-entry_after address vector (r ∷ rest) table =
    register_all-entry_after address vector rest _
    ∙ ap (entry_after address vector rest) (
        set_entry-mapped r.vector vector
          (registered_entry (address r.handler) r.interrupt_type r.ist) table)

-- The vectors of the table: those of the exceptions but the reserved one, and the last 18.
abbrev pub in_use : ℕ → Bool
in_use vector = (leb vector 19 && not (vector == 15)) || leb 238 vector

abbrev pub is_some : Option Registration → Bool
is_some none = false
is_some (some r) = true

abbrev same_bool : Bool → Bool → Bool
same_bool true b = b
same_bool false b = not b

vectors_table :
    every_below (λ v. same_bool (is_some (last_for v registrations)) (in_use v)) 256 ≡ true
unfolding every_below registrations spurious_registrations last_for
vectors_table = refl

same_bool-eq : (a b : Bool) → same_bool a b ≡ true → a ≡ b
same_bool-eq true b h = sym h
same_bool-eq false b h = ground arith

module _ (address : Handler → ℕ) (fits : (h : Handler) → address h < 2 ^ 64) where
  -- When the handlers have addresses of 64 bits, `idt_initialize` leaves for each vector the entry
  -- of its last registration, which leads to the handler, has its kind and stack and is present, or
  -- an empty entry when the vector has none; those with one are 0 to 19 without 15, and 238 to 255.
  pub idt_initialize-Installed :
      (vector : ℕ)
      → vector < 256
      → Installed address
          (last_for vector registrations)
          zero_entry
          ((idt_initialize address).1 vector)
        × (is_some (last_for vector registrations) ≡ in_use vector)
  unfolding idt_initialize
  idt_initialize-Installed vector small = (
    rw (register_all-entry_after address vector registrations (λ v. zero_entry))
        (entry_after-Installed address vector registrations zero_entry fits),
    same_bool-eq (is_some (last_for vector registrations)) (in_use vector) (
        every_below_at (λ v. same_bool (is_some (last_for v registrations)) (in_use v)) vector small
          vectors_table),
  )
