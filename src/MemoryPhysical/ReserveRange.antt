-- ===== src/MemoryPhysical/ReserveRange.antt =====
-- The loop of `memory_physical_reserve` over a range of pages, and what the call as a whole takes.
use kokos.Shared.{
  ℕ, zero, suc, ◌+◌, ◌-◌, ◌/◌, ◌%◌, ◌^◌, ◌≤◌, ◌<◌, ◌≡◌, refl, ◌∙◌, inl, inr, Bool, true, false,
  ◌&&◌, ok, arith, leb, ltb, ◌==◌, Bool-cases, if◌then◌else◌,
}
use kokos.Word.Bits.{bit_and-low_mask}
use kokos.MemoryPhysical.Defs.{
  MemoryPhysical, page_count, release, reserve_page, reserve_loop, reserve,
}
use kokos.MemoryPhysical.Valid.{IsValid, page_bit, reaches}
use kokos.MemoryPhysical.Reserve.{
  IsTable, OnlySets, OnlySets-trans, OnlySets-refl, reserve_page-reaches,
}

-- The page `i` is one over which the loop from `start` to `stop` goes: its number is compared with
-- the length of the table in words.
abbrev pub visits : MemoryPhysical → ℕ → ℕ → ℕ → Bool
visits m start stop i = leb start i && (ltb i stop && ltb i m.allocation_table_length)

-- What the pages from `start` up to `stop` are like after the loop.
pub record Takes (m m' : MemoryPhysical) (start stop : ℕ) : Type 0 where
  pub only : OnlySets m m'
  pub taken :
      (i : ℕ) → visits m start stop i ≡ true → i % 64 ≤ 31 → page_bit m'.allocation_table i ≡ 1
  pub untouched :
      (p : ℕ)
      → ((i : ℕ) → visits m start stop i ≡ true → reaches i p ≡ false)
      → page_bit m'.allocation_table p ≡ page_bit m.allocation_table p

Takes-nil :
    {m : MemoryPhysical} (start stop : ℕ)
    → IsTable m
    → (ltb start stop && ltb start m.allocation_table_length) ≡ false
    → Takes m m start stop
Takes-nil {m} start stop v over = record {
  only = OnlySets-refl v;
  taken = λ i h le. absurd (ground (arith));
  untouched = λ p h. refl;
}

Takes-suc :
    {m a m' : MemoryPhysical} (start stop : ℕ)
    → (ltb start stop && ltb start m.allocation_table_length) ≡ true
    → OnlySets m a
    → ((p : ℕ)
        → page_bit a.allocation_table p
          ≡ (if reaches start p then 1 else page_bit m.allocation_table p))
    → Takes a m' (start + 1) stop
    → Takes m m' start stop
Takes-suc {m} {a} {m'} start stop more only one rest = record {
  only = OnlySets-trans only rest.only;
  taken = λ i h le. elim (Bool-cases (i == start)) [
    | inl here ↦ rest.only.kept i (ground (arith, one i))
    | inr later ↦ rest.taken i (ground (arith, only.same_length)) le
  ];
  untouched = λ p h.
      rest.untouched p (λ i w. h i (ground (arith, only.same_length)))
      ∙ ground (arith, one p, h start);
}

reserve_loop_more :
    (rounds : ℕ) (m : MemoryPhysical) {a : MemoryPhysical} (start stop : ℕ)
    → (ltb start stop && ltb start m.allocation_table_length) ≡ true
    → reserve_page start m ≡ ok a
    → reserve_loop (suc rounds) start stop m ≡ reserve_loop rounds (start + 1) stop a
unfolding reserve_loop
reserve_loop_more rounds m start stop more run = rw (more, reserve_loop) (rw run refl)

reserve_loop_over :
    (rounds : ℕ) (m : MemoryPhysical) (start stop : ℕ)
    → (ltb start stop && ltb start m.allocation_table_length) ≡ false
    → reserve_loop (suc rounds) start stop m ≡ ok m
unfolding reserve_loop
reserve_loop_over rounds m start stop over = rw (over, reserve_loop) refl

reserve_loop-Takes :
    (rounds : ℕ) {m : MemoryPhysical} (start stop : ℕ)
    → IsTable m
    → m.allocation_table_length - start < rounds
    → (m' : MemoryPhysical) × (reserve_loop rounds start stop m ≡ ok m') × Takes m m' start stop
reserve_loop-Takes zero start stop v h = absurd (omega arith)
reserve_loop-Takes (suc rounds) {m} start stop v h =
    elim (Bool-cases (ltb start stop && ltb start m.allocation_table_length)) [
      | inl more ↦
          let (a, run, only, one) = reserve_page-reaches v start (ground arith) in
          let (m', rest, takes) =
            reserve_loop-Takes rounds {m = a} (start + 1) stop only.IsTable_after
              (ground (arith, only.same_length)) in
          (
            m',
            reserve_loop_more rounds m start stop more run ∙ rest,
            Takes-suc start stop more only one takes,
          )
      | inr over ↦ (m, reserve_loop_over rounds m start stop over, Takes-nil start stop v over)
    ]

-- The number of pages that hold the bytes, where neither sum wraps.
page_count-lt : (bytes : ℕ) → page_count bytes ≤ 2 ^ 52
page_count-lt bytes = omega arith

module _ {m : MemoryPhysical} (v : IsValid m) (physical_address bytes : ℕ) where
  abbrev first : ℕ
  first = physical_address / 4096

  abbrev past : ℕ
  past = first + page_count ((bytes + physical_address % 4096) % 2 ^ 64)

  abbrev locked : MemoryPhysical
  locked = record m { memory_lock = 1 }

  locked-IsTable : IsTable locked
  locked-IsTable = record { sized = v.sized; words = v.words; small = v.small }

  -- With the length of the table as well, which stays.
  pub reserve-all :
      (m' : MemoryPhysical) × (reserve physical_address bytes m ≡ ok m')
      × IsValid m'
      × (m'.allocation_table_length ≡ m.allocation_table_length)
      × ((i : ℕ) → visits m first past i ≡ true → i % 64 ≤ 31 → page_bit m'.allocation_table i ≡ 1)
      × ((p : ℕ) → page_bit m.allocation_table p ≡ 1 → page_bit m'.allocation_table p ≡ 1)
      × ((p : ℕ)
          → ((i : ℕ) → visits m first past i ≡ true → reaches i p ≡ false)
          → page_bit m'.allocation_table p ≡ page_bit m.allocation_table p)
  unfolding reserve
  reserve-all =
      let (a, run, takes) =
        reserve_loop-Takes (m.allocation_table_length + 1) {m = locked} first past locked-IsTable
          (omega arith) in
      let done = takes.only in
      let table = done.IsTable_after in
      (
        release a,
        rw (v.unlocked, bit_and-low_mask 12 physical_address, run) refl,
        record {
          sized = table.sized;
          cursor = omega (arith, v.cursor, done.same_index, done.same_length);
          words = table.words;
          small = table.small;
          unlocked = refl;
        },
        done.same_length,
        takes.taken,
        done.kept,
        takes.untouched,
      )

  -- From a state in order, `reserve` returns with the lock free and a state in order. Each page of
  -- the range below the length of the table in words that is among the first 32 of its word is
  -- taken afterwards; no page is freed; and a page that `1 << bit` reaches from none of them is as
  -- before.
  pub reserve-Takes :
      (m' : MemoryPhysical) × (reserve physical_address bytes m ≡ ok m')
      × IsValid m'
      × ((i : ℕ) → visits m first past i ≡ true → i % 64 ≤ 31 → page_bit m'.allocation_table i ≡ 1)
      × ((p : ℕ) → page_bit m.allocation_table p ≡ 1 → page_bit m'.allocation_table p ≡ 1)
      × ((p : ℕ)
          → ((i : ℕ) → visits m first past i ≡ true → reaches i p ≡ false)
          → page_bit m'.allocation_table p ≡ page_bit m.allocation_table p)
  reserve-Takes =
      let (m', run, is, _, taken, kept, same) = reserve-all in (m', run, is, taken, kept, same)

  -- From a state in order, a range that starts at a page number of at least the length of the table
  -- in words is not reserved at all: `reserve` returns, and the bit of every page is as before.
  reserve-ignores :
      m.allocation_table_length ≤ first
      → (m' : MemoryPhysical) × (reserve physical_address bytes m ≡ ok m')
        × ((p : ℕ) → page_bit m'.allocation_table p ≡ page_bit m.allocation_table p)
  reserve-ignores beyond =
      let (m', run, _, _, _, same) = reserve-Takes in
      (m', run, λ p. same p (λ i w. absurd (ground arith)))
