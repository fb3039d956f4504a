-- ===== src/Boot/Start.antt =====
-- The set-up of the memory by `kernel_main` as a whole: the size of the memory, the place of the
-- table, and the pages of the kernel.
use kokos.Shared.{
  ℕ, ◌+◌, ◌/◌, ◌%◌, ◌^◌, ◌<◌, ◌≤◌, ◌≡◌, ◌≢◌, refl, sym, List, [], ◌∷◌, some, ok, ◌>>=◌, true, false,
  inl, inr, arith, ltb, leb, ◌==◌, ◌&&◌, if◌then◌else◌, length, Bool-cases,
}
use mathlib.Core.Path.{subst}
use kokos.MemoryPhysical.Defs.{MemoryPhysical, initialize, reserve}
use kokos.MemoryPhysical.Valid.{IsValid, page_bit}
use kokos.MemoryPhysical.ReserveRange.{reserve-all, visits}
use kokos.MemoryPhysical.Query.{initialize-IsValid}
use kokos.Boot.Memory.{
  MemoryMapEntry, end_of, find_memory, find_table, reserve_unusable, no_place, start_memory,
  kernel_base_address, kernel_size,
}

-- Every usable range ends at `top` or before.
unfoldable Covers : ℕ → List MemoryMapEntry → Type 0
Covers top [] = Unit
Covers top (entry ∷ entries) = (entry.type ≡ 1 → end_of entry ≤ top) × Covers top entries

find_memory-ge :
    (entries : List MemoryMapEntry) (usable top : ℕ) → top ≤ (find_memory entries usable top).1
unfolding find_memory
find_memory-ge [] usable top = omega arith
find_memory-ge (entry ∷ entries) usable top = elim (Bool-cases (entry.type == 1)) [
  | inl same ↦
      rw (find_memory, same)
        (elim (Bool-cases (ltb top (end_of entry))) [
          | inl more ↦ rw more (
              let h = find_memory-ge entries ((usable + entry.length) % 2 ^ 64) (end_of entry) in
              ground arith)
          | inr less ↦ rw less (find_memory-ge entries ((usable + entry.length) % 2 ^ 64) top)
        ])
  | inr other ↦ rw (find_memory, other) (find_memory-ge entries usable top)
]

-- The address that the kernel takes for the end of the memory is not before the end of any usable
-- range, nor below the number it starts from.
find_memory-Covers :
    (entries : List MemoryMapEntry) (usable top : ℕ)
    → Covers (find_memory entries usable top).1 entries
unfolding find_memory Covers
find_memory-Covers [] usable top = tt
find_memory-Covers (entry ∷ entries) usable top = elim (Bool-cases (entry.type == 1)) [
  | inl same ↦
      let usable' = (usable + entry.length) % 2 ^ 64 in
      let top' = if ltb top (end_of entry) then end_of entry else top in
      let e : (find_memory (entry ∷ entries) usable top).1 ≡ (find_memory entries usable' top').1 =
        rw (find_memory, same) refl in
      let grown : end_of entry ≤ top' = ground arith in
      let kept = find_memory-ge entries usable' top' in
      (
        (λ is. rw e (omega arith)),
        subst (λ t. Covers t entries) (sym e) (find_memory-Covers entries usable' top'),
      )
  | inr other ↦
      let e : (find_memory (entry ∷ entries) usable top).1 ≡ (find_memory entries usable top).1 =
        rw (find_memory, other) refl in
      (
        (λ is. absurd (ground arith)),
        subst (λ t. Covers t entries) (sym e) (find_memory-Covers entries usable top),
      )
]

-- Where the table is placed.
pub data Placed (size result : ℕ) : List MemoryMapEntry → Type 0 where
  nowhere : result ≡ no_place → Placed size result []
  at_start :
      {entry : MemoryMapEntry} {rest : List MemoryMapEntry}
      → entry.type ≡ 1
      → size ≤ entry.length
      → kernel_base_address + kernel_size ≤ entry.address
      → result ≡ entry.address
      → Placed size result (entry ∷ rest)
  behind_kernel :
      {entry : MemoryMapEntry} {rest : List MemoryMapEntry}
      → entry.type ≡ 1
      → entry.address < kernel_base_address + kernel_size
      → kernel_base_address + kernel_size < end_of entry
      → result ≡ kernel_base_address + kernel_size
      → Placed size result (entry ∷ rest)
  later :
      {entry : MemoryMapEntry} {rest : List MemoryMapEntry}
      → Placed size result rest
      → Placed size result (entry ∷ rest)

-- The ranges end in the address space.
unfoldable pub Inside : List MemoryMapEntry → Type 0
Inside [] = Unit
Inside (entry ∷ entries) = (entry.address + entry.length < 2 ^ 64) × Inside entries

place_in :
    (size : ℕ) (entry : MemoryMapEntry) (entries : List MemoryMapEntry)
    → entry.type ≡ 1
    → size ≤ entry.length
    → 0x00100000 ≤ entry.address
    → entry.address + entry.length < 2 ^ 64
    → Placed size (find_table size entries) entries
    → Placed size (find_table size (entry ∷ entries)) (entry ∷ entries)
unfolding find_table
place_in size entry entries usable fits high inside rest =
    let candidate : (entry.type == 1 && leb size entry.length && leb 0x00100000 entry.address)
        ≡ true =
      ground arith in
    let above : leb kernel_base_address ((entry.address + size) % 2 ^ 64) ≡ true = ground arith in
    elim (Bool-cases (ltb entry.address (kernel_base_address + kernel_size))) [
      | inl low ↦ elim (Bool-cases (leb (end_of entry) (kernel_base_address + kernel_size))) [
        | inl short ↦ rw (find_table, candidate, above, low, short) (later rest)
        | inr long ↦
            rw (find_table, candidate, above, low, long)
              (behind_kernel usable (ground arith) (ground arith) refl)
      ]
      | inr behind ↦
          rw (find_table, candidate, above, behind) (at_start usable fits (ground arith) refl)
    ]

-- When the ranges end in the address space, the table is placed at the start of a usable range that
-- is long enough and lies behind the kernel, at the end of the kernel in a usable range that goes
-- on there, or nowhere.
pub find_table-Placed :
    (size : ℕ) (entries : List MemoryMapEntry)
    → Inside entries
    → Placed size (find_table size entries) entries
unfolding find_table Inside
find_table-Placed size [] inside = nowhere refl
find_table-Placed size (entry ∷ entries) (here, inside) =
    elim (Bool-cases (entry.type == 1 && leb size entry.length && leb 0x00100000 entry.address)) [
      | inl candidate ↦
          place_in size entry entries (ground arith) (ground arith) (ground arith) here
            (find_table-Placed size entries inside)
      | inr other ↦ rw (find_table, other) (later (find_table-Placed size entries inside))
    ]

-- So it is behind the kernel in any case.
Placed-behind :
    {size result : ℕ} {entries : List MemoryMapEntry}
    → Placed size result entries
    → kernel_base_address + kernel_size ≤ result
Placed-behind (nowhere e) = omega arith
Placed-behind (at_start _ _ high e) = omega arith
Placed-behind (behind_kernel _ _ _ e) = omega arith
Placed-behind (later rest) = Placed-behind rest

reserve_unusable-IsValid :
    (entries : List MemoryMapEntry) {m : MemoryPhysical}
    → IsValid m
    → (m' : MemoryPhysical) × (reserve_unusable entries m ≡ ok m')
      × IsValid m'
      × ((p : ℕ) → page_bit m.allocation_table p ≡ 1 → page_bit m'.allocation_table p ≡ 1)
unfolding reserve_unusable
reserve_unusable-IsValid [] {m} v = (m, refl, v, λ p h. h)
reserve_unusable-IsValid (entry ∷ entries) {m} v = elim (Bool-cases (entry.type == 1)) [
  | inl usable ↦ rw usable (reserve_unusable-IsValid entries v)
  | inr other ↦
      let (m1, run, v1, _, _, kept, _) = reserve-all v entry.address entry.length in
      let (m2, run2, v2, kept2) = reserve_unusable-IsValid entries v1 in
      (m2, rw (other, run, ◌>>=◌) run2, v2, λ p h. kept2 p (kept p h))
]

-- The pages of the first 2 MiB behind their two reservations.
low_taken :
    (m2 m3 m4 : MemoryPhysical) (p : ℕ)
    → ((i : ℕ) → visits m2 0 256 i ≡ true → i % 64 ≤ 31 → page_bit m3.allocation_table i ≡ 1)
    → ((i : ℕ) → visits m3 256 512 i ≡ true → i % 64 ≤ 31 → page_bit m4.allocation_table i ≡ 1)
    → ((i : ℕ) → page_bit m3.allocation_table i ≡ 1 → page_bit m4.allocation_table i ≡ 1)
    → m3.allocation_table_length ≡ m2.allocation_table_length
    → p < 512
    → p < m2.allocation_table_length
    → p % 64 ≤ 31
    → page_bit m4.allocation_table p ≡ 1
low_taken m2 m3 m4 p first_mib kernel kept same below short low = elim (Bool-cases (ltb p 256)) [
  | inl in_first ↦ kept p (first_mib p (ground arith) low)
  | inr behind ↦ kernel p (ground arith) low
]

reserve_low-IsValid :
    {m2 : MemoryPhysical}
    → IsValid m2
    → (m3 : MemoryPhysical) × (m4 : MemoryPhysical) × (reserve 0 0x000FFFFF m2 ≡ ok m3)
      × (reserve kernel_base_address kernel_size m3 ≡ ok m4)
      × IsValid m4
      × ((p : ℕ)
          → p < 512
          → p < m2.allocation_table_length
          → p % 64 ≤ 31
          → page_bit m4.allocation_table p ≡ 1)
reserve_low-IsValid {m2} v2 =
    let (m3, run3, v3, same3, taken3, _, _) = reserve-all v2 0 0x000FFFFF in
    let (m4, run4, v4, _, taken4, kept4, _) = reserve-all v3 kernel_base_address kernel_size in
    (
      m3,
      m4,
      run3,
      run4,
      v4,
      λ p below short low. low_taken m2 m3 m4 p taken3 taken4 kept4 same3 below short low,
    )

start_memory-runs :
    (words_at : ℕ → List ℕ) (entries : List MemoryMapEntry) (m m1 m2 m3 m4 m5 : MemoryPhysical)
    (top table : ℕ)
    → (find_memory entries 0 0).1 ≡ top
    → find_table (top / 4096 / 8) entries ≡ table
    → table ≢ no_place
    → initialize (words_at table) top m ≡ ok m1
    → reserve table (top / 4096 / 8) m1 ≡ ok m2
    → reserve 0 0x000FFFFF m2 ≡ ok m3
    → reserve kernel_base_address kernel_size m3 ≡ ok m4
    → reserve_unusable entries m4 ≡ ok m5
    → start_memory words_at entries m ≡ ok (some m5)
unfolding start_memory
start_memory-runs words_at entries m m1 m2 m3 m4 m5 top table is_top is_table placed r1 r2 r3 r4
      r5 =
    let there : (table == no_place) ≡ false = ground arith in
    rw (is_top, is_table, there, r1, ◌>>=◌, r2, r3, r4, r5) refl

-- With a place for the table, memory there for one to 2^32 words of the table, and a free lock, the
-- set-up returns an allocator in order. In it each page of the first 2 MiB, where the kernel is, is
-- taken, if its number is below the length of the table in words and it is one of the first 32 of
-- its word.
pub start_memory-IsValid :
    (words_at : ℕ → List ℕ) (entries : List MemoryMapEntry) (m : MemoryPhysical) (top table : ℕ)
    → (find_memory entries 0 0).1 ≡ top
    → find_table (top / 4096 / 8) entries ≡ table
    → table ≢ no_place
    → top / 4096 / 64 ≤ length (words_at table)
    → 0 < top / 4096 / 64
    → top / 4096 / 64 ≤ 2 ^ 32
    → m.memory_lock ≡ 0
    → (m' : MemoryPhysical) × (start_memory words_at entries m ≡ ok (some m'))
      × IsValid m'
      × ((p : ℕ) → p < 512 → p < top / 4096 / 64 → p % 64 ≤ 31 → page_bit m'.allocation_table p ≡ 1)
start_memory-IsValid words_at entries m top table is_top is_table placed room some_words few free =
    let (m1, run1, v1, len1, _) =
      initialize-IsValid (words_at table) top m room some_words few free in
    let (m2, run2, v2, len2, _, _, _) = reserve-all v1 table (top / 4096 / 8) in
    let (m3, m4, run3, run4, v4, low4) = reserve_low-IsValid v2 in
    let (m5, run5, v5, kept5) = reserve_unusable-IsValid entries v4 in
    (
      m5,
      start_memory-runs words_at entries m m1 m2 m3 m4 m5 top table is_top is_table placed run1 run2
          run3 run4 run5,
      v5,
      λ p below short low. kept5 p (low4 p below (omega (arith, len1, len2)) low),
    )
