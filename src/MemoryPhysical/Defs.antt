-- ===== src/MemoryPhysical/Defs.antt =====
-- The state and the functions of src/common/memory_physical.c. An address is a number, and a
-- function that has an effect returns the new state. A table is the list of its words, and an access
-- outside of it is a fault. The warnings that go to the console are values.
use kokos.Shared.{
  ℕ, zero, suc, ◌+◌, ◌-◌, ◌*◌, ◌/◌, ◌%◌, ◌^◌, bit_and, true, false, ◌&&◌, Option, none, some, List,
  [], ◌∷◌, Outcome, ok, fault, spin, ◌>>=◌, read, write, ltb, leb, ◌==◌, if◌then◌else◌,
}
use kokos.Word.Shift.{set_bits, clear_bits, has_bits}

-- The static variables.
pub record MemoryPhysical : Type 0 where
  pub allocation_table : List ℕ
  pub allocation_index : ℕ
  pub allocation_table_length : ℕ
  pub used_physical_pages : ℕ
  pub memory_lock : ℕ

pub data Warning : Type 0 where
  invalid_free : Warning
  already_freed : ℕ → Warning
  invalid_allocated : ℕ → Warning
  no_bit_found : ℕ → Warning

abbrev pub full_word : ℕ
full_word = 0xFFFF_FFFF_FFFF_FFFF

-- `lock_acquire` where no other processor runs: a lock that is taken stays taken.
unfoldable pub acquire : MemoryPhysical → Outcome MemoryPhysical
acquire m = if m.memory_lock == 0 then ok (record m { memory_lock = 1 }) else spin

unfoldable pub release : MemoryPhysical → MemoryPhysical
release m = record m { memory_lock = 0 }

-- `for (i = 0; i < count; i++) table[i] = 0;`, which makes the first `count` words the table.
unfoldable pub clear_table : ℕ → List ℕ → Outcome (List ℕ)
clear_table zero table = ok []
clear_table (suc count) [] = fault
clear_table (suc count) (x ∷ table) = clear_table count table >>= λ rest. ok (0 ∷ rest)

-- `location` is the memory from `allocation_table_location` on, in words.
unfoldable pub initialize : List ℕ → ℕ → MemoryPhysical → Outcome MemoryPhysical
unfolding clear_table
initialize location total_memory m =
    let length = total_memory / 4096 / 64 in
    clear_table length location >>= λ table.
    ok (record m {
      allocation_table = table;
      allocation_index = 0;
      allocation_table_length = length;
    })

-- `unsigned int byte = index >> 6` and `unsigned char bit = index & 0b111111`
abbrev pub byte_of : ℕ → ℕ
byte_of index = index / 64 % 2 ^ 32

abbrev pub bit_of : ℕ → ℕ
bit_of index = index % 64

-- One round of the loop of `memory_physical_reserve`, behind its test for the end of the table.
unfoldable pub reserve_page : ℕ → MemoryPhysical → Outcome MemoryPhysical
reserve_page index m = read m.allocation_table (byte_of index) >>= λ word.
    if has_bits word (bit_of index)
    then ok m
    else (write m.allocation_table (byte_of index) (set_bits word (bit_of index)) >>= λ table.
        ok (record m {
          allocation_table = table;
          used_physical_pages = (m.used_physical_pages + 1) % 2 ^ 64;
        }))

unfoldable pub reserve_loop : ℕ → ℕ → ℕ → MemoryPhysical → Outcome MemoryPhysical
unfolding reserve_page
reserve_loop zero index stop m = spin
reserve_loop (suc rounds) index stop m =
    elim (ltb index stop && ltb index m.allocation_table_length) [
      | true ↦ reserve_page index m >>= reserve_loop rounds (index + 1) stop
      | false ↦ ok m
    ]

-- `((bytes - 1) >> 12) + 1` in 64 bits
abbrev pub page_count : ℕ → ℕ
page_count bytes = (bytes + 2 ^ 64 - 1) % 2 ^ 64 / 4096 + 1

-- The loop stops at the end of the table at the latest, so the table's length bounds its rounds.
unfoldable pub reserve : ℕ → ℕ → MemoryPhysical → Outcome MemoryPhysical
unfolding reserve_loop acquire release
reserve physical_address bytes m = acquire m >>= λ m.
    let start_index = physical_address / 4096 in
    let total = (bytes + bit_and physical_address 0b111111111111) % 2 ^ 64 in
    reserve_loop (m.allocation_table_length + 1) start_index (start_index + page_count total) m
    >>= λ m. ok (release m)

unfoldable pub free : ℕ → MemoryPhysical → Outcome (MemoryPhysical × Option Warning)
unfolding acquire release
free physical_address m = acquire m >>= λ m.
    let index = physical_address / 4096 in
    if leb m.allocation_table_length (byte_of index)
    then ok (release m, some invalid_free)
    else (read m.allocation_table (byte_of index) >>= λ word.
        if has_bits word (bit_of index)
        then (write m.allocation_table (byte_of index) (clear_bits word (bit_of index)) >>= λ table.
            ok (
              release (record m {
                allocation_table = table;
                used_physical_pages = (m.used_physical_pages + 2 ^ 64 - 1) % 2 ^ 64;
              }),
              none,
            ))
        else ok (release m, some (already_freed physical_address)))

-- `while (allocation_table[spot] == 0xFFFFFFFFFFFFFFFFull) …`
unfoldable pub find_spot : ℕ → List ℕ → ℕ → ℕ → Outcome ℕ
find_spot zero table length spot = spin
find_spot (suc rounds) table length spot = read table spot >>= λ word. elim (word == full_word) [
  | true ↦ find_spot rounds table length (if leb length (spot + 1) then 0 else spot + 1)
  | false ↦ ok spot
]

-- `while (bits & 0b1) { bit++; bits >>= 1; }`
unfoldable pub find_bit : ℕ → ℕ → ℕ → Outcome ℕ
find_bit zero bits bit = spin
find_bit (suc rounds) bits bit = elim (bit_and bits 1 == 0) [
  | true ↦ ok bit
  | false ↦ find_bit rounds (bits / 2) (bit + 1)
]

-- `rounds` bounds the first loop, which runs for ever when no page is free. A word has 64 bits, so
-- 65 rounds end the second one.
unfoldable pub allocate : ℕ → MemoryPhysical → Outcome (MemoryPhysical × ℕ × Option Warning)
unfolding acquire release find_spot find_bit
allocate rounds m = acquire m >>= λ m.
    find_spot rounds m.allocation_table m.allocation_table_length m.allocation_index >>= λ spot.
    read m.allocation_table spot >>= λ word. find_bit 65 word 0 >>= λ bit.
    if leb 64 bit
    then ok (release m, 0, some (no_bit_found word))
    else (write m.allocation_table spot (set_bits word bit) >>= λ table. ok (
      release (record m {
        allocation_table = table;
        allocation_index = spot;
        used_physical_pages = (m.used_physical_pages + 1) % 2 ^ 64;
      }),
      (spot * 64 + bit) * 4096 % 2 ^ 64,
      none,
    ))

-- The search of `memory_physical_allocate_consecutive` for `chunk_count` free words in a row.
unfoldable pub find_chunk : ℕ → List ℕ → ℕ → ℕ → ℕ → ℕ → Outcome ℕ
find_chunk zero table length chunk_count spot consecutive = spin
find_chunk (suc rounds) table length chunk_count spot consecutive = read table spot >>= λ word.
    let counted = if word == 0 then (consecutive + 1) % 2 ^ 32 else 0 in
    elim (word == 0 && leb chunk_count counted) [
      | true ↦ ok ((spot + 2 ^ 64 - (counted + 2 ^ 32 - 1) % 2 ^ 32) % 2 ^ 64)
      | false ↦
          let wrapped = leb length (spot + 1) in
          find_chunk rounds table length chunk_count (if wrapped then 0 else spot + 1)
            (if wrapped then 0 else counted)
    ]

-- `for (i = 0; i < chunk_count; i++) allocation_table[spot + i] = 0xFFFFFFFFFFFFFFFFull;`
unfoldable pub take_chunk : ℕ → ℕ → List ℕ → Outcome (List ℕ)
take_chunk zero spot table = ok table
take_chunk (suc count) spot table =
    write table spot full_word >>= λ table. take_chunk count (spot + 1) table

unfoldable pub allocate_consecutive : ℕ → ℕ → MemoryPhysical → Outcome (MemoryPhysical × ℕ)
unfolding acquire release find_chunk take_chunk
allocate_consecutive rounds pages m = acquire m >>= λ m.
    let chunk_count = pages / 64 in
    find_chunk rounds m.allocation_table m.allocation_table_length chunk_count m.allocation_index 0
    >>= λ spot. take_chunk chunk_count spot m.allocation_table >>= λ table. ok (
      record (release (record m { allocation_table = table })) {
        allocation_index = (spot + chunk_count) % 2 ^ 64;
      },
      spot * 64 * 4096 % 2 ^ 64,
    )

-- The page's word is read at `index`, not at the page's byte.
unfoldable pub allocated : ℕ → MemoryPhysical → Outcome (ℕ × Option Warning)
allocated physical_address m =
    let index = physical_address / 4096 in
    if leb m.allocation_table_length index
    then ok (1, some (invalid_allocated physical_address))
    else (read m.allocation_table index >>= λ word. ok (bit_and (word / 2 ^ bit_of index) 1, none))

unfoldable pub used_pages : MemoryPhysical → ℕ
used_pages m = m.used_physical_pages
