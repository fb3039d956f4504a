-- ===== src/MemoryPhysical/Allocate.antt =====
-- `memory_physical_allocate`: the page that it hands out, and the state behind it.
use kokos.Shared.{
  ℕ, ◌+◌, ◌*◌, ◌/◌, ◌%◌, ◌^◌, ◌≤◌, ◌<◌, ◌≡◌, refl, false, none, ok, read-ok, write-ok, length,
  length-set, get_or, set, arith, leb, if◌then◌else◌, ◌∙◌, ap,
}
use native.Mathlib.Decide.{dec_le}
use native.Mathlib.Nat.{mod-eq_of_lt}
use kokos.Word.Shift.{set_bits}
use kokos.MemoryPhysical.Defs.{MemoryPhysical, find_spot, find_bit, allocate}
use kokos.MemoryPhysical.Scan.{LowestFree, FreeSpot, find_bit-LowestFree, find_spot-FreeSpot}
use kokos.MemoryPhysical.Valid.{
  IsValid, page_bit, reaches, set_bits-IsWord, set-IsWord, page_bit-set_bits,
}

-- The call that turns `m` into `m'` hands out the page `page`, which was free.
pub record HandsOut (m m' : MemoryPhysical) (page : ℕ) : Type 0 where
  pub inside : page < 64 * m.allocation_table_length
  pub low : page % 64 ≤ 31
  pub was_free : page_bit m.allocation_table page ≡ 0
  pub taken :
      (p : ℕ)
      → page_bit m'.allocation_table p
        ≡ (if reaches page p then 1 else page_bit m.allocation_table p)
  pub same_length : m'.allocation_table_length ≡ m.allocation_table_length
  pub counted : m'.used_physical_pages ≡ (m.used_physical_pages + 1) % 2 ^ 64
  pub IsValid_after : IsValid m'

-- The state that `allocate` leaves when it takes the bit `bit` of the word at `spot`.
abbrev pub take_bit : MemoryPhysical → ℕ → ℕ → MemoryPhysical
take_bit m spot bit = record m {
  allocation_table = set m.allocation_table spot (set_bits (get_or m.allocation_table spot 0) bit);
  allocation_index = spot;
  used_physical_pages = (m.used_physical_pages + 1) % 2 ^ 64;
  memory_lock = 0;
}

module _ {m : MemoryPhysical} (v : IsValid m) where
  LowestFree-le :
      (spot : ℕ) {bit : ℕ} → LowestFree 64 (get_or m.allocation_table spot 0) bit → bit ≤ 31
  LowestFree-le spot {bit} f = elim (dec_le bit 31) [
    | yes h ↦ h
    | no h ↦ absurd (
        omega (
          arith,
          f.is_free,
          f.below,
          f.taken_before 31 (omega arith),
          (v.words spot).top bit (omega arith) f.below,
        ))
  ]

  pub take_bit-HandsOut :
      (spot bit page : ℕ)
      → page / 64 ≡ spot
      → page % 64 ≡ bit
      → spot < m.allocation_table_length
      → LowestFree 64 (get_or m.allocation_table spot 0) bit
      → HandsOut m (take_bit m spot bit) page
  take_bit-HandsOut spot bit page es eb lt f = record {
    inside = omega arith;
    low = omega (arith, LowestFree-le spot f);
    was_free = rw (es, eb) f.is_free;
    taken = rw (← es, ← eb) (page_bit-set_bits m.allocation_table page (omega (arith, v.sized)));
    same_length = refl;
    counted = refl;
    IsValid_after = record {
      sized = length-set m.allocation_table spot _ ∙ v.sized;
      cursor = lt;
      words =
          set-IsWord m.allocation_table spot (omega (arith, v.sized)) _ v.words
            (set_bits-IsWord _ bit (v.words spot));
      small = v.small;
      unlocked = refl;
    };
  }

  address_fits :
      {spot bit : ℕ}
      → spot < m.allocation_table_length
      → bit < 64
      → (spot * 64 + bit) * 4096 < 2 ^ 64
  address_fits lt lb = omega (arith, v.small)

  allocate_run :
      (rounds spot bit : ℕ)
      → find_spot rounds m.allocation_table m.allocation_table_length m.allocation_index ≡ ok spot
      → find_bit 65 (get_or m.allocation_table spot 0) 0 ≡ ok bit
      → spot < m.allocation_table_length
      → bit < 64
      → allocate rounds m ≡ ok (take_bit m spot bit, (spot * 64 + bit) * 4096, none)
  unfolding allocate
  allocate_run rounds spot bit es eb lt lb =
      let inside : spot < length m.allocation_table = omega (arith, v.sized) in
      let short : leb 64 bit ≡ false = ground arith in
      rw
        (
          v.unlocked,
          es,
          read-ok m.allocation_table spot 0 inside,
          eb,
          short,
          write-ok m.allocation_table spot (set_bits (get_or m.allocation_table spot 0) bit) inside,
          mod-eq_of_lt (address_fits lt lb),
        )
        refl

  -- From a state in order in which some word of the table is not full, and with more rounds than
  -- the table has words, `allocate` returns without a warning. The page that it hands out lies in
  -- the table, is among the first 32 of its word and was free; afterwards the pages that `1 << bit`
  -- reaches from it are taken and all others are as before, the count is one higher (in 64 bits),
  -- and the state is in order again.
  pub allocate-HandsOut :
      (rounds goal : ℕ)
      → FreeSpot m.allocation_table goal
      → m.allocation_table_length < rounds
      → (m' : MemoryPhysical) × (page : ℕ) × (allocate rounds m ≡ ok (m', page * 4096, none))
        × HandsOut m m' page
  allocate-HandsOut rounds goal g h =
      let (spot, es, free) =
        find_spot-FreeSpot rounds m.allocation_table goal m.allocation_index g
          (omega (arith, v.sized, v.cursor)) (ground (arith, v.sized, v.cursor, g.inside)) in
      let (bit, eb, low) =
        find_bit-LowestFree 64 65 (get_or m.allocation_table spot 0) 0 (omega arith)
          ((v.words spot).fits) free.not_full in
      let lt : spot < m.allocation_table_length = omega (arith, v.sized, free.inside) in
      (
        take_bit m spot bit,
        spot * 64 + bit,
        allocate_run rounds spot bit (rw (← v.sized) es) (eb ∙ ap ok (omega arith)) lt low.below,
        take_bit-HandsOut spot bit (spot * 64 + bit) (omega (arith, low.below))
            (omega (arith, low.below)) lt low,
      )
