-- ===== src/MemoryPhysical/Examples.antt =====
-- The theorems about memory_physical.c at an allocator of 128 pages whose first page is taken.
use kokos.Shared.{
  ℕ, zero, suc, ◌+◌, ◌*◌, ◌/◌, ◌%◌, ◌^◌, ◌≤◌, ◌<◌, ◌≡◌, refl, true, false, ◌||◌, none, [], ◌∷◌, ok,
  read, write, get_or, arith, ltb, ◌==◌, if◌then◌else◌,
}
use kokos.Word.Bits.{bit_at, every_below, every_below_at, complement}
use kokos.Word.Shift.{shl_one, set_bits, clear_bits, has_bits}
use kokos.MemoryPhysical.Defs.{
  MemoryPhysical, full_word, initialize, page_count, reserve, free, allocate,
}
use kokos.MemoryPhysical.Scan.{LowestFree, FreeSpot}
use kokos.MemoryPhysical.Valid.{IsWord, IsValid, page_bit, reaches}
use kokos.MemoryPhysical.Allocate.{HandsOut, take_bit, take_bit-HandsOut, allocate-HandsOut}
use kokos.MemoryPhysical.Free.{drop_page, free-drop_page, free-allocate}
use kokos.MemoryPhysical.ReserveRange.{visits, reserve-Takes}
use kokos.MemoryPhysical.Query.{initialize-IsValid}

abbrev small : MemoryPhysical
small = record {
  allocation_table = 1 ∷ 0 ∷ [];
  allocation_index = 0;
  allocation_table_length = 2;
  used_physical_pages = 1;
  memory_lock = 0;
}

abbrev full : MemoryPhysical
full = record small { allocation_table = full_word ∷ full_word ∷ []; used_physical_pages = 128 }

-- A word whose bits from 31 on agree with bit 31.
IsWord-test :
    (w : ℕ)
    → w < 2 ^ 64
    → every_below (λ j. ltb j 31 || bit_at j w == bit_at 31 w) 64 ≡ true
    → IsWord w
IsWord-test w h test = record {
  fits = h;
  top = λ j lo hi.
      ground (arith, every_below_at (λ j. ltb j 31 || bit_at j w == bit_at 31 w) j hi test);
}

zero-IsWord : IsWord 0
unfolding every_below bit_at
zero-IsWord = IsWord-test 0 (omega arith) refl

one-IsWord : IsWord 1
unfolding every_below bit_at
one-IsWord = IsWord-test 1 (omega arith) refl

full-IsWord : IsWord full_word
unfolding every_below bit_at
full-IsWord = IsWord-test full_word (omega arith) refl

small_words : (i : ℕ) → IsWord (get_or small.allocation_table i 0)
small_words zero = one-IsWord
small_words (suc zero) = zero-IsWord
small_words (suc (suc i)) = zero-IsWord

full_words : (i : ℕ) → IsWord (get_or full.allocation_table i 0)
full_words zero = full-IsWord
full_words (suc zero) = full-IsWord
full_words (suc (suc i)) = zero-IsWord

small-IsValid : IsValid small
small-IsValid = record {
  sized = refl;
  cursor = omega arith;
  words = small_words;
  small = omega arith;
  unlocked = refl;
}

full-IsValid : IsValid full
full-IsValid = record {
  sized = refl;
  cursor = omega arith;
  words = full_words;
  small = omega arith;
  unlocked = refl;
}

second_word_free : FreeSpot small.allocation_table 1
second_word_free = record { inside = omega arith; not_full = λ e. absurd (omega arith) }

second_bit_free : LowestFree 64 1 1
unfolding bit_at
second_bit_free = record { below = omega arith; is_free = refl; taken_before = before }
  where
    before : (j : ℕ) → j < 1 → bit_at j 1 ≡ 1
    before zero h = refl
    before (suc j) h = absurd (omega arith)

second_page : HandsOut small (take_bit small 0 1) 1
second_page = take_bit-HandsOut small-IsValid 0 1 1 refl refl (omega arith) second_bit_free

first_page_taken : page_bit small.allocation_table 0 ≡ 1
unfolding bit_at
first_page_taken = refl

second_page_free : page_bit small.allocation_table 1 ≡ 0
unfolding bit_at
second_page_free = refl

all_full : (i : ℕ) → i < 2 → get_or full.allocation_table i 0 ≡ full_word
all_full zero h = refl
all_full (suc zero) h = refl
all_full (suc (suc i)) h = absurd (omega arith)

-- Tests: the first free page is handed out, and taken back.
allocate_test :
    allocate 3 small
    ≡ ok (record small { allocation_table = 3 ∷ 0 ∷ []; used_physical_pages = 2 }, 4096, none)
unfolding allocate read write set_bits shl_one
allocate_test = refl

free_test :
    free 5 small
    ≡ ok (record small { allocation_table = 0 ∷ 0 ∷ []; used_physical_pages = 0 }, none)
unfolding free read write has_bits shl_one clear_bits complement
free_test = refl

-- A test: page 32 is taken to be page 0 when it is reserved.
reserve_test :
    reserve 0x20000 4096 (record small { allocation_table_length = 64 })
    ≡ ok (record small { allocation_table_length = 64 })
unfolding reserve read write has_bits set_bits shl_one
reserve_test = refl

allocate-HandsOut_example :
    (m' : MemoryPhysical) × (page : ℕ) × (allocate 3 small ≡ ok (m', page * 4096, none))
    × HandsOut small m' page
allocate-HandsOut_example = allocate-HandsOut small-IsValid 3 1 second_word_free (omega arith)

free-allocate_example :
    (m'' : MemoryPhysical) × (free (1 * 4096) (take_bit small 0 1) ≡ ok (m'', none))
    × (m''.allocation_table ≡ small.allocation_table)
    × (m''.used_physical_pages ≡ small.used_physical_pages)
    × IsValid m''
free-allocate_example = free-allocate small-IsValid 1 second_page (omega arith)

free-drop_page_example :
    (free (0 * 4096 + 5) small ≡ ok (drop_page small 0, none))
    × ((p : ℕ)
        → page_bit (drop_page small 0).allocation_table p
          ≡ (if reaches 0 p then 0 else page_bit small.allocation_table p))
    × IsValid (drop_page small 0)
free-drop_page_example =
    free-drop_page small-IsValid 0 5 (omega arith) (omega arith) (omega arith) first_page_taken

reserve-Takes_example :
    (m' : MemoryPhysical) × (reserve 4096 100 small ≡ ok m')
    × IsValid m'
    × ((i : ℕ)
        → visits small 1 (1 + page_count 100) i ≡ true
        → i % 64 ≤ 31
        → page_bit m'.allocation_table i ≡ 1)
    × ((p : ℕ) → page_bit small.allocation_table p ≡ 1 → page_bit m'.allocation_table p ≡ 1)
    × ((p : ℕ)
        → ((i : ℕ) → visits small 1 (1 + page_count 100) i ≡ true → reaches i p ≡ false)
        → page_bit m'.allocation_table p ≡ page_bit small.allocation_table p)
reserve-Takes_example = reserve-Takes small-IsValid 4096 100

initialize-IsValid_example :
    (m' : MemoryPhysical) × (initialize (7 ∷ 8 ∷ 9 ∷ []) 0x80000 full ≡ ok m')
    × IsValid m'
    × (m'.allocation_table_length ≡ 0x80000 / 4096 / 64)
    × ((p : ℕ) → page_bit m'.allocation_table p ≡ 0)
initialize-IsValid_example =
    initialize-IsValid (7 ∷ 8 ∷ 9 ∷ []) 0x80000 full (omega arith) (omega arith) (omega arith) refl
