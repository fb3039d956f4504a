-- ===== src/Acpi/Printed.antt =====
-- The printing of a MADT that its entries fill, and of a root table that lists such ones.
use kokos.Shared.{
  ℕ, zero, suc, ◌+◌, ◌%◌, ◌^◌, ◌<◌, ◌≡◌, refl, List, [], ◌∷◌, ◌++◌, Outcome, ok, ◌>>=◌, ◌==◌,
  ==_iff, Bool-cases, inl, inr, arith, true, false, ltb, length,
}
use mathlib.Core.Path.{subst}
use kokos.Word.Bytes.{load, byte_address, byte_address-add}
use kokos.Console.Calls.{ConsoleCall, print_call}
use kokos.Acpi.Defs.{
  sdt_length, sdt_signature, madt_signature, int_rounds, rsdt_entry_count, rsdt_table,
}
use kokos.Acpi.Madt.{madt_size, entry_length}
use kokos.Acpi.Entries.{Entries, filled, entry, Entries-le}
use kokos.Acpi.Print.{
  labelled, print_entry, print_entries, print_first, print_madt, print_sdt, print_tables,
  print_rsdt,
}

-- The calls for a list of entries.
unfoldable entry_calls : (ℕ → ℕ) → List ℕ → List ConsoleCall
entry_calls memory [] = []
entry_calls memory (e ∷ entries) = print_entry memory e ++ entry_calls memory entries

module _ (memory : ℕ → ℕ) (madt : ℕ) (small : sdt_length memory madt < 2 ^ 31)
    (inside : madt + sdt_length memory madt < 2 ^ 64) where
  print_entries-Entries :
      (rounds i : ℕ) (entries : List ℕ)
      → length entries < rounds
      → Entries memory (madt + sdt_length memory madt) (madt + i) entries
      → print_entries rounds memory madt i ≡ ok (entry_calls memory entries)
  unfolding print_entries entry_calls print_first
  print_entries-Entries zero i entries enough e = absurd (omega arith)
  print_entries-Entries (suc rounds) i [] enough (filled e) =
      let over : ltb i (sdt_length memory madt) ≡ false = ground arith in
      rw (print_entries, over) refl
  print_entries-Entries (suc rounds) i (at ∷ rest) enough (entry positive behind) =
      let le = Entries-le behind in
      let more : ltb i (sdt_length memory madt) ≡ true = ground arith in
      let here : byte_address madt i ≡ madt + i =
        byte_address-add madt i (omega arith) (omega arith) in
      let next : (i + entry_length memory (madt + i)) % 2 ^ 32
          ≡ i + entry_length memory (madt + i) =
        omega arith in
      let e : madt + i + entry_length memory (madt + i)
          ≡ madt + (i + entry_length memory (madt + i)) =
        omega arith in
      let later =
        print_entries-Entries rounds (i + entry_length memory (madt + i)) rest (omega arith)
          (subst (λ x. Entries memory (madt + sdt_length memory madt) x rest) e behind) in
      rw (print_entries, more, here, next, later) refl

  -- With more rounds than entries, printing a MADT that its entries fill shows the address of the
  -- local controller and then each of the entries once, in their order.
  print_madt-Entries :
      (rounds : ℕ) (entries : List ℕ)
      → length entries < rounds
      → Entries memory (madt + sdt_length memory madt) (madt + madt_size) entries
      → print_madt rounds memory madt
        ≡ ok (
            labelled "madt.local_apic_address = 0x"
              (load 4 memory (madt + 36))
              16
              (print_call "\n" ∷ entry_calls memory entries))
  unfolding print_madt
  print_madt-Entries rounds entries enough e =
      rw (print_entries-Entries rounds madt_size entries enough e) refl

-- Each MADT among the tables that a root table lists is filled by fewer entries than there are
-- rounds, is shorter than 2^31 bytes and ends in the address space.
pub record IsPrintable (rounds : ℕ) (memory : ℕ → ℕ) (rsdt : ℕ) : Type 0 where
  pub filled_table :
      (i : ℕ)
      → i < int_rounds (rsdt_entry_count memory rsdt)
      → sdt_signature memory (rsdt_table memory rsdt i) ≡ madt_signature
      → (entries : List ℕ) × (length entries < rounds)
        × (sdt_length memory (rsdt_table memory rsdt i) < 2 ^ 31)
        × (rsdt_table memory rsdt i + sdt_length memory (rsdt_table memory rsdt i) < 2 ^ 64)
        × Entries memory
            (rsdt_table memory rsdt i + sdt_length memory (rsdt_table memory rsdt i))
            (rsdt_table memory rsdt i + madt_size)
            entries

-- What is put together from the result of a call that ends.
ends_then {ℓ κ} :
    {A : Type ℓ} {B : Type κ} {m : Outcome A} (f : A → B)
    → (a : A) × (m ≡ ok a)
    → (b : B) × ((m >>= λ x. ok (f x)) ≡ ok b)
ends_then f (a, run) = (f a, rw (run, ◌>>=◌) refl)

print_sdt-ends :
    (rounds : ℕ) (memory : ℕ → ℕ) (sdt : ℕ)
    → (sdt_signature memory sdt ≡ madt_signature
        → (entries : List ConsoleCall) × (print_madt rounds memory sdt ≡ ok entries))
    → (calls : List ConsoleCall) × (print_sdt rounds memory sdt ≡ ok calls)
unfolding print_sdt
print_sdt-ends rounds memory sdt ends =
    ends_then _ (elim (Bool-cases (sdt_signature memory sdt == madt_signature)) [
      | inl same ↦ let (entries, run) = ends ((==_iff _ _).0 same) in (entries, rw same run)
      | inr other ↦ ([], rw other refl)
    ])

print_tables-ends :
    (entry_rounds : ℕ) (memory table_address : ℕ → ℕ) (rounds i : ℕ)
    → ((k : ℕ)
        → k < i + rounds
        → (table : List ConsoleCall) × (print_sdt entry_rounds memory (table_address k) ≡ ok table))
    → (calls : List ConsoleCall) × (print_tables entry_rounds memory table_address rounds i
        ≡ ok calls)
unfolding print_tables
print_tables-ends entry_rounds memory table_address zero i each = ([], refl)
print_tables-ends entry_rounds memory table_address (suc rounds) i each =
    let (table, first) = each i (omega arith) in
    let (others, rest) =
      print_tables-ends entry_rounds memory table_address rounds (i + 1)
        (λ k lt. each k (omega arith)) in
    (table ++ others, rw (print_tables, first, ◌>>=◌, rest) refl)

-- Printing a root table that lists such tables ends.
pub print_rsdt-ends :
    (rounds : ℕ) (memory : ℕ → ℕ) (rsdt : ℕ)
    → IsPrintable rounds memory rsdt
    → (calls : List ConsoleCall) × (print_rsdt rounds memory rsdt ≡ ok calls)
unfolding print_rsdt
print_rsdt-ends rounds memory rsdt is =
    print_tables-ends rounds memory (rsdt_table memory rsdt)
      (int_rounds (rsdt_entry_count memory rsdt)) 0
      (λ k lt. print_sdt-ends rounds memory (rsdt_table memory rsdt k) (λ same.
        let (entries, enough, small, inside, fill) = is.filled_table k (omega arith) same in
        (
          _,
          print_madt-Entries memory (rsdt_table memory rsdt k) small inside rounds entries enough
              fill,
        )))
