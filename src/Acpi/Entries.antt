-- ===== src/Acpi/Entries.antt =====
-- The walk of acpi.c over the entries of a MADT, for one that its entries fill.
use kokos.Shared.{
  ℕ, zero, suc, ◌+◌, ◌%◌, ◌^◌, ◌≤◌, ◌<◌, ◌≡◌, ◌≢◌, refl, ◌∙◌, List, [], ◌∷◌, ok, spin, arith, true,
  false, leb, ◌==◌, inl, inr, Bool-cases, length, if◌then◌else◌,
}
use kokos.Acpi.Defs.{sdt_length}
use kokos.Acpi.Madt.{
  madt_size, entry_type, entry_length, madt_iterate, find_type, madt_iterate_type,
}

-- The entries that fill the memory from `at` to `end`, none of them with the length 0.
pub data Entries (memory : ℕ → ℕ) (end : ℕ) : ℕ → List ℕ → Type 0 where
  filled : {at : ℕ} → at ≡ end → Entries memory end at []
  entry :
      {at : ℕ} {rest : List ℕ}
      → 0 < entry_length memory at
      → Entries memory end (at + entry_length memory at) rest
      → Entries memory end at (at ∷ rest)

-- The first of the entries with the type, or null.
unfoldable pub first_of_type : (ℕ → ℕ) → ℕ → List ℕ → ℕ
first_of_type memory type [] = 0
first_of_type memory type (e ∷ entries) =
    if entry_type memory e == type then e else first_of_type memory type entries

pub Entries-le :
    {memory : ℕ → ℕ} {end at : ℕ} {entries : List ℕ} → Entries memory end at entries → at ≤ end
Entries-le (filled e) = omega (arith, e)
Entries-le (entry positive rest) = omega (arith, Entries-le rest)

module _ (memory : ℕ → ℕ) (madt type : ℕ) (inside : madt + sdt_length memory madt < 2 ^ 64) where
  iterate-end :
      (at : ℕ)
      → 0 < at
      → at + entry_length memory at ≡ madt + sdt_length memory madt
      → madt_iterate memory madt at ≡ 0
  unfolding madt_iterate
  iterate-end at nonnull e =
      let some : (at == 0) ≡ false = ground arith in
      let over : leb ((madt + sdt_length memory madt) % 2 ^ 64)
            ((at + entry_length memory at) % 2 ^ 64)
          ≡ true =
        ground arith in
      rw (madt_iterate, some, over) refl

  iterate-next :
      (at : ℕ)
      → 0 < at
      → at + entry_length memory at < madt + sdt_length memory madt
      → madt_iterate memory madt at ≡ at + entry_length memory at
  unfolding madt_iterate
  iterate-next at nonnull lt =
      let some : (at == 0) ≡ false = ground arith in
      let within : leb ((madt + sdt_length memory madt) % 2 ^ 64)
            ((at + entry_length memory at) % 2 ^ 64)
          ≡ false =
        ground arith in
      rw (madt_iterate, some, within) (omega arith)

  -- The loop at an entry, when the rest of it behind that entry is known.
  find_type-entry :
      (rounds at : ℕ) (rest : List ℕ)
      → 0 < at
      → find_type rounds memory madt (madt_iterate memory madt at) type
        ≡ ok (first_of_type memory type rest)
      → find_type (suc rounds) memory madt at type ≡ ok (first_of_type memory type (at ∷ rest))
  unfolding find_type first_of_type
  find_type-entry rounds at rest nonnull later =
      let some : (at == 0) ≡ false = ground arith in
      elim (Bool-cases (entry_type memory at == type)) [
        | inl same ↦ rw (find_type, some, same) refl
        | inr other ↦ rw (find_type, some, other) later
      ]

  -- With more rounds than entries behind it, the walk from an entry ends, and gives the first entry
  -- behind it that has the type, or null when none has.
  pub madt_iterate_type-next :
      (rounds at : ℕ) (rest : List ℕ)
      → length rest < rounds
      → 0 < at
      → Entries memory (madt + sdt_length memory madt) (at + entry_length memory at) rest
      → madt_iterate_type rounds memory madt at type ≡ ok (first_of_type memory type rest)
  unfolding madt_iterate_type find_type first_of_type
  madt_iterate_type-next zero at rest enough nonnull entries = absurd (omega arith)
  madt_iterate_type-next (suc rounds) at [] enough nonnull (filled e) =
      rw (iterate-end at nonnull e) refl
  madt_iterate_type-next (suc rounds) at (next ∷ rest) enough nonnull (entry positive behind) =
      let le = Entries-le behind in
      rw (iterate-next at nonnull (omega arith)) (
        find_type-entry rounds (at + entry_length memory at) rest (omega arith) (
          madt_iterate_type-next rounds (at + entry_length memory at) rest (omega arith)
            (omega arith) behind))

  -- With more rounds than entries, the walk from the start of a MADT that its entries fill, at
  -- least one of them, and that ends in the address space, gives the first entry with the type, or
  -- null when none has it.
  pub madt_iterate_type-first :
      (rounds at : ℕ) (rest : List ℕ)
      → length (at ∷ rest) < rounds
      → Entries memory (madt + sdt_length memory madt) (madt + madt_size) (at ∷ rest)
      → madt_iterate_type rounds memory madt 0 type ≡ ok (first_of_type memory type (at ∷ rest))
  unfolding madt_iterate_type madt_iterate
  madt_iterate_type-first zero at rest enough entries = absurd (omega arith)
  madt_iterate_type-first (suc rounds) at rest enough (entry positive behind) =
      let le = Entries-le behind in
      let start : (madt + madt_size) % 2 ^ 64 ≡ madt + madt_size = omega arith in
      rw start (
        find_type-entry rounds (madt + madt_size) rest (omega arith) (
          madt_iterate_type-next rounds (madt + madt_size) rest (omega arith) (omega arith) behind))

  -- An entry of the length 0 that is not of the type holds the walk behind it for ever.
  madt_iterate_type-spin :
      (rounds at : ℕ)
      → 0 < at
      → at < madt + sdt_length memory madt
      → entry_length memory at ≡ 0
      → entry_type memory at ≢ type
      → madt_iterate_type rounds memory madt at type ≡ spin
  unfolding madt_iterate_type find_type
  madt_iterate_type-spin rounds at nonnull lt empty other =
      let stays : madt_iterate memory madt at ≡ at =
        iterate-next at nonnull (omega arith) ∙ omega arith in
      rw stays (stuck rounds stays)
    where
      stuck :
          (rounds : ℕ)
          → madt_iterate memory madt at ≡ at
          → find_type rounds memory madt at type ≡ spin
      stuck zero stays = refl
      stuck (suc rounds) stays =
          let some : (at == 0) ≡ false = ground arith in
          let differs : (entry_type memory at == type) ≡ false = ground arith in
          rw (find_type, some, differs, stays) (stuck rounds stays)
