-- ===== src/Boot/Memory.antt =====
-- `kernel_main` of src/common/main.c, from the map of the memory to the reservations: the size of the
-- memory, the place of the allocator's table, and the ranges that are taken out of use.
use kokos.Shared.{
  ℕ, zero, suc, ◌+◌, ◌*◌, ◌/◌, ◌%◌, ◌^◌, true, false, ◌&&◌, List, [], ◌∷◌, Option, none, some,
  Outcome, ok, spin, ◌>>=◌, ltb, leb, ◌==◌, if◌then◌else◌,
}
use kokos.Word.Bytes.{load}
use kokos.MemoryPhysical.Defs.{MemoryPhysical, initialize, reserve}

abbrev pub kernel_base_address : ℕ
kernel_base_address = 0x100000

abbrev pub kernel_size : ℕ
kernel_size = 0x100000

-- `struct multiboot_tag_memory_map_entry`
pub record MemoryMapEntry : Type 0 where
  pub address : ℕ
  pub length : ℕ
  pub type : ℕ

abbrev load_entry : (ℕ → ℕ) → ℕ → MemoryMapEntry
load_entry memory at = record {
  address = load 8 memory at;
  length = load 8 memory (at + 8);
  type = load 4 memory (at + 16);
}

-- The entries that the loops visit: `for (i = 0; i * entry_size < base.size; i++)`, where
-- `entries[i]` goes by the 24 bytes of the structure behind the 16 of the tag.
unfoldable pub map_entries : ℕ → (ℕ → ℕ) → ℕ → ℕ → Outcome (List MemoryMapEntry)
map_entries zero memory tag i = spin
map_entries (suc rounds) memory tag i =
    elim (ltb (i * load 4 memory (tag + 8) % 2 ^ 32) (load 4 memory (tag + 4))) [
      | true ↦ map_entries rounds memory tag (i + 1) >>= λ rest.
          ok (load_entry memory (tag + 16 + 24 * i) ∷ rest)
      | false ↦ ok []
    ]

abbrev pub end_of : MemoryMapEntry → ℕ
end_of entry = (entry.address + entry.length) % 2 ^ 64

-- The loop for `usable_memory` and `max_memory_address`.
unfoldable pub find_memory : List MemoryMapEntry → ℕ → ℕ → ℕ × ℕ
find_memory [] usable_memory max_memory_address = (usable_memory, max_memory_address)
find_memory (entry ∷ entries) usable_memory max_memory_address =
    if entry.type == 1
    then find_memory entries ((usable_memory + entry.length) % 2 ^ 64)
        (if ltb max_memory_address (end_of entry) then end_of entry else max_memory_address)
    else find_memory entries usable_memory max_memory_address

-- The value that stands for no place.
abbrev pub no_place : ℕ
no_place = 0xFFFFFFFF

-- The loop for the place of the table.
unfoldable pub find_table : ℕ → List MemoryMapEntry → ℕ
find_table allocation_table_size [] = no_place
find_table allocation_table_size (entry ∷ entries) =
    if entry.type == 1 && leb allocation_table_size entry.length && leb 0x00100000 entry.address
    then (if leb kernel_base_address ((entry.address + allocation_table_size) % 2 ^ 64)
          && ltb entry.address (kernel_base_address + kernel_size)
        then (if leb (end_of entry) (kernel_base_address + kernel_size)
            then find_table allocation_table_size entries
            else kernel_base_address + kernel_size)
        else entry.address)
    else find_table allocation_table_size entries

-- The loop that reserves the ranges that are not usable.
unfoldable pub reserve_unusable : List MemoryMapEntry → MemoryPhysical → Outcome MemoryPhysical
reserve_unusable [] m = ok m
reserve_unusable (entry ∷ entries) m =
    if entry.type == 1
    then reserve_unusable entries m
    else (reserve entry.address entry.length m >>= reserve_unusable entries)

-- The steps in their order; none when there is no place for the table. `words_at` gives the memory
-- from an address on, in words, where the table is made.
unfoldable pub start_memory :
    (ℕ → List ℕ) → List MemoryMapEntry → MemoryPhysical → Outcome (Option MemoryPhysical)
unfolding find_memory find_table reserve_unusable
start_memory words_at entries m =
    let max_memory_address = (find_memory entries 0 0).1 in
    let allocation_table_size = max_memory_address / 4096 / 8 in
    let allocation_table_start = find_table allocation_table_size entries in
    if allocation_table_start == no_place then ok none else (do
      m1 ← initialize (words_at allocation_table_start) max_memory_address m
      m2 ← reserve allocation_table_start allocation_table_size m1
      m3 ← reserve 0 0x000FFFFF m2
      m4 ← reserve kernel_base_address kernel_size m3
      m5 ← reserve_unusable entries m4
      ok (some m5))
