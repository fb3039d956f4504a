-- ===== src/Acpi/Madt.antt =====
-- src/common/acpi.c: the walk over the entries of the MADT. An entry is its address; its type is the
-- byte there, and its length the byte behind it.
use kokos.Shared.{ℕ, zero, suc, ◌+◌, ◌%◌, ◌^◌, true, false, Outcome, ok, spin, leb, ◌==◌}
use kokos.Acpi.Defs.{sdt_length}

abbrev pub madt_size : ℕ
madt_size = 44

abbrev pub entry_type : (ℕ → ℕ) → ℕ → ℕ
entry_type memory entry = memory entry

abbrev pub entry_length : (ℕ → ℕ) → ℕ → ℕ
entry_length memory entry = memory (entry + 1)

unfoldable pub madt_iterate : (ℕ → ℕ) → ℕ → ℕ → ℕ
madt_iterate memory madt previous = elim (previous == 0) [
  | true ↦ (madt + madt_size) % 2 ^ 64
  | false ↦
      elim (leb ((madt + sdt_length memory madt) % 2 ^ 64)
        ((previous + entry_length memory previous) % 2 ^ 64)) [
          | true ↦ 0
          | false ↦ (previous + entry_length memory previous) % 2 ^ 64
        ]
]

-- The loop of `madt_iterate_type`, from the entry that a call of `madt_iterate` returned on.
unfoldable pub find_type : ℕ → (ℕ → ℕ) → ℕ → ℕ → ℕ → Outcome ℕ
find_type zero memory madt entry type = spin
find_type (suc rounds) memory madt entry type = elim (entry == 0) [
  | true ↦ ok 0
  | false ↦ elim (entry_type memory entry == type) [
    | true ↦ ok entry
    | false ↦ find_type rounds memory madt (madt_iterate memory madt entry) type
  ]
]

unfoldable pub madt_iterate_type : ℕ → (ℕ → ℕ) → ℕ → ℕ → ℕ → Outcome ℕ
unfolding find_type
madt_iterate_type rounds memory madt previous type =
    find_type rounds memory madt (madt_iterate memory madt previous) type
