-- ===== src/MemoryPhysical/Query.antt =====
-- `memory_physical_initialize`, `memory_physical_allocated`, and a full table.
use kokos.Shared.{
  ℕ, zero, suc, ◌+◌, ◌*◌, ◌/◌, ◌%◌, ◌^◌, ◌≤◌, ◌<◌, ◌≡◌, refl, sym, ◌∙◌, ap, true, false, none, some,
  List, [], ◌∷◌, ok, spin, read-ok, length, get_or, arith, leb, ltb, if◌then◌else◌,
}
use native.Mathlib.Decide.{dec_lt}
use kokos.Word.Bits.{bit_at-zero, shift-bit_and_one}
use kokos.MemoryPhysical.Defs.{
  MemoryPhysical, full_word, invalid_allocated, find_spot, clear_table, initialize, allocate,
  allocated,
}
use kokos.MemoryPhysical.Scan.{find_spot-spin}
use kokos.MemoryPhysical.Valid.{IsWord, IsValid, page_bit}

abbrev zeros : ℕ → List ℕ
zeros zero = []
zeros (suc n) = 0 ∷ zeros n

clear_table-zeros : (n : ℕ) (table : List ℕ) → n ≤ length table → clear_table n table ≡ ok (zeros n)
unfolding clear_table
clear_table-zeros zero table h = refl
clear_table-zeros (suc n) [] h = absurd (omega arith)
clear_table-zeros (suc n) (x ∷ table) h = rw (clear_table-zeros n table (omega arith)) refl

length-zeros : (n : ℕ) → length (zeros n) ≡ n
length-zeros zero = refl
length-zeros (suc n) = ap suc (length-zeros n)

get_or-zeros : (n i : ℕ) → get_or (zeros n) i 0 ≡ 0
get_or-zeros zero i = refl
get_or-zeros (suc n) zero = refl
get_or-zeros (suc n) (suc i) = get_or-zeros n i

IsWord-zero : IsWord 0
IsWord-zero = record { fits = omega arith; top = λ j lo hi. bit_at-zero j ∙ sym (bit_at-zero 31) }

-- With at least one word of pages, at most 2^32 words, room for the table and a free lock,
-- `initialize` returns a state in order whose table has the length computed from the memory and in
-- which every page is free.
pub initialize-IsValid :
    (location : List ℕ) (total_memory : ℕ) (m : MemoryPhysical)
    → total_memory / 4096 / 64 ≤ length location
    → 0 < total_memory / 4096 / 64
    → total_memory / 4096 / 64 ≤ 2 ^ 32
    → m.memory_lock ≡ 0
    → (m' : MemoryPhysical) × (initialize location total_memory m ≡ ok m')
      × IsValid m'
      × (m'.allocation_table_length ≡ total_memory / 4096 / 64)
      × ((p : ℕ) → page_bit m'.allocation_table p ≡ 0)
unfolding initialize
initialize-IsValid location total_memory m room some_words few free =
    let n = total_memory / 4096 / 64 in
    (
      record m { allocation_table = zeros n; allocation_index = 0; allocation_table_length = n },
      rw (clear_table-zeros n location room) refl,
      record {
        sized = length-zeros n;
        cursor = some_words;
        words = λ i. rw (get_or-zeros n i) IsWord-zero;
        small = few;
        unlocked = free;
      },
      refl,
      λ p. rw (get_or-zeros n (p / 64)) (bit_at-zero (p % 64)),
    )

module _ {m : MemoryPhysical} (v : IsValid m) where
  -- From a state in order, what `allocated` says of a page below the length of the table in words
  -- is the bit at 64 times its number and its place in the word; from that length on it is 1 with a
  -- warning.
  allocated-page_bit :
      (page offset : ℕ)
      → offset < 4096
      → allocated (page * 4096 + offset) m ≡ (
          if ltb page m.allocation_table_length
          then ok (page_bit m.allocation_table (page * 64 + page % 64), none)
          else ok (1, some (invalid_allocated (page * 4096 + offset))))
  unfolding allocated
  allocated-page_bit page offset h =
      let number : (page * 4096 + offset) / 4096 ≡ page = omega arith in
      let word : (page * 64 + page % 64) / 64 ≡ page = omega arith in
      let bit : (page * 64 + page % 64) % 64 ≡ page % 64 = omega arith in
      rw (number, word, bit)
        (elim (dec_lt page m.allocation_table_length) [
          | yes lt ↦
              let below : ltb page m.allocation_table_length ≡ true = ground arith in
              let above : leb m.allocation_table_length page ≡ false = ground arith in
              rw
                (
                  below,
                  above,
                  read-ok m.allocation_table page 0 (omega (arith, v.sized)),
                  shift-bit_and_one (page % 64) (get_or m.allocation_table page 0),
                )
                refl
          | no ge ↦
              let below : ltb page m.allocation_table_length ≡ false = ground arith in
              let above : leb m.allocation_table_length page ≡ true = ground arith in
              rw (below, above) refl
        ])

  -- From a state in order in which every word of the table is full, `allocate` does not return in
  -- any number of rounds.
  allocate-spin :
      (rounds : ℕ)
      → ((i : ℕ) → i < m.allocation_table_length → get_or m.allocation_table i 0 ≡ full_word)
      → allocate rounds m ≡ spin
  unfolding allocate
  allocate-spin rounds full =
      let e : find_spot rounds m.allocation_table m.allocation_table_length m.allocation_index
          ≡ spin =
        rw (← v.sized) (
          find_spot-spin rounds m.allocation_table m.allocation_index
            (λ i h. full i (omega (arith, v.sized))) (omega (arith, v.sized, v.cursor))) in
      rw (v.unlocked, e) refl
