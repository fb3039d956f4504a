-- ===== src/Paging/Defs.antt =====
-- The tables and the context of src/common/paging.c. Physical memory is mapped at its own
-- addresses, so a table is read by its physical address; `entry table i` is the entry at `i`. The
-- pages that `memory_physical_allocate` will return are given in advance, in order; where none is
-- left, it does not return. What goes to the console is left out.
use kokos.Shared.{
  ℕ, ◌/◌, ◌%◌, ◌^◌, bit_and, bit_or, Bool, true, false, not, ◌&&◌, List, [], ◌∷◌, Outcome, ok, spin,
  ◌>>=◌, ◌==◌, if◌then◌else◌,
}

abbrev pub address_mask : ℕ
address_mask = 0x7FFF_FFFF_FFFF_F000

abbrev pub entry_flag_present : ℕ
entry_flag_present = 1

abbrev pub entry_flag_writable : ℕ
entry_flag_writable = 2

abbrev pub entry_flag_everyone_access : ℕ
entry_flag_everyone_access = 4

abbrev pub entry_flag_size : ℕ
entry_flag_size = 128

abbrev pub flag_write : ℕ
flag_write = 2

abbrev pub flag_user : ℕ
flag_user = 8

abbrev pub flag_1gb : ℕ
flag_1gb = 16

abbrev pub flag_2mb : ℕ
flag_2mb = 32

abbrev pub flag_replace : ℕ
flag_replace = 64

-- `a & b` as a condition
abbrev pub has : ℕ → ℕ → Bool
has a b = not (bit_and a b == 0)

pub record Memory : Type 0 where
  pub entry : ℕ → ℕ → ℕ
  pub fresh : List ℕ
  pub used_virtual_pages : ℕ
  pub hugepages_supported : Bool

-- `struct paging_context`
pub record Context : Type 0 where
  pub level4_table : ℕ
  pub level3_table : ℕ
  pub level2_table : ℕ
  pub level1_table : ℕ
  pub level4_index : ℕ
  pub level3_index : ℕ
  pub level2_index : ℕ
  pub level1_index : ℕ

abbrev pub store : ℕ → ℕ → ℕ → (ℕ → ℕ → ℕ) → ℕ → ℕ → ℕ
store table index value entry t i = if t == table && i == index then value else entry t i

-- `memory_zero(table, 4096)`
abbrev pub clear : ℕ → (ℕ → ℕ → ℕ) → ℕ → ℕ → ℕ
clear table entry t i = if t == table then 0 else entry t i

-- `table = memory_physical_allocate(); memory_zero(table, 4096);
-- parent[index] = table | PAGING_ENTRY_FLAG_WRITABLE | PAGING_ENTRY_FLAG_PRESENT;`
unfoldable pub new_table : ℕ → ℕ → Memory → Outcome (ℕ × Memory)
new_table parent index m = elim m.fresh [
  | [] ↦ spin
  | table ∷ rest ↦ ok (
    table,
    record m {
      entry =
          store parent index (bit_or table (bit_or entry_flag_writable entry_flag_present))
            (clear table m.entry);
      fresh = rest;
    },
  )
]

-- The table to which the entry at `index` leads; where it leads to none, a new one, whose address
-- goes to the entry at `target`.
unfoldable pub next_table : ℕ → ℕ → ℕ → Memory → Outcome (ℕ × Memory)
unfolding new_table
next_table parent index target m =
    let table = bit_and (m.entry parent index) address_mask in
    if table == 0 then new_table parent target m else ok (table, m)

-- `(address >> shift) & 0b111111111`
abbrev pub table_index : ℕ → ℕ → ℕ
table_index address shift = address / 2 ^ shift % 512

unfoldable pub convert_flags : ℕ → ℕ
convert_flags flags =
    let writable =
      if has flags flag_write
      then bit_or entry_flag_present (bit_or entry_flag_writable entry_flag_present)
      else entry_flag_present in
    if has flags flag_user then bit_or writable entry_flag_everyone_access else writable

-- The level 1 table is entered into the level 2 table at `level3_index`, as the source has it.
unfoldable pub virtual_address_to_index :
    ℕ → ℕ → Context → Memory → Outcome (Bool × Context × Memory)
unfolding next_table
virtual_address_to_index virtual_address flags c m =
    let l4 = table_index virtual_address 39 in
    next_table c.level4_table l4 l4 m >>= λ (table3, m3).
    let l3 = table_index virtual_address 30 in
    let c3 : Context = record c { level4_index = l4; level3_table = table3; level3_index = l3 } in
    if has flags flag_1gb
    then (if virtual_address % 2 ^ 30 == 0
        then ok (
          true,
          record c3 { level2_table = 0; level2_index = 0; level1_table = 0; level1_index = 0 },
          m3,
        )
        else ok (false, c3, m3))
    else (next_table table3 l3 l3 m3 >>= λ (table2, m2).
        let l2 = table_index virtual_address 21 in
        let c2 : Context = record c3 { level2_table = table2; level2_index = l2 } in
        if has flags flag_2mb
        then (if virtual_address % 2 ^ 21 == 0
            then ok (true, record c2 { level1_table = 0; level1_index = 0 }, m2)
            else ok (false, c2, m2))
        else (next_table table2 l2 l3 m2 >>= λ (table1, m1). ok (
          virtual_address % 2 ^ 12 == 0,
          record c2 { level1_table = table1; level1_index = table_index virtual_address 12 },
          m1,
        )))
