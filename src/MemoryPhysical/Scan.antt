-- ===== src/MemoryPhysical/Scan.antt =====
-- The two searches of `memory_physical_allocate`: for a word that is not full, and in it for the
-- lowest bit that is 0.
use kokos.Shared.{
  ℕ, zero, suc, ◌+◌, ◌-◌, ◌/◌, ◌%◌, ◌^◌, ◌<◌, bit_and, ◌≡◌, refl, ◌≢◌, inl, inr, List, ok, spin,
  ◌>>=◌, read-ok, length, get_or, arith, leb, ◌==◌, Bool-cases, if◌then◌else◌,
}
use native.Mathlib.Nat.{pow-suc, one-le-pow}
use kokos.Word.Bits.{bit_at, bit_and_halves, bit_and-zero}
use kokos.MemoryPhysical.Defs.{full_word, find_spot, find_bit}

-- `bit` is the lowest bit of `w` that is 0, and it lies below `k`.
pub record LowestFree (k w bit : ℕ) : Type 0 where
  pub below : bit < k
  pub is_free : bit_at bit w ≡ 0
  pub taken_before : (j : ℕ) → j < bit → bit_at j w ≡ 1

lowest_bit : (w : ℕ) → bit_and w 1 ≡ w % 2
lowest_bit w = omega (arith, bit_and_halves w 1, bit_and-zero (w / 2))

LowestFree-suc :
    {k w bit : ℕ} → w % 2 ≡ 1 → LowestFree k (w / 2) bit → LowestFree (suc k) w (suc bit)
unfolding bit_at
LowestFree-suc {k} {w} {bit} odd f = record {
  below = omega (arith, f.below);
  is_free = f.is_free;
  taken_before = before;
}
  where
    before : (j : ℕ) → j < suc bit → bit_at j w ≡ 1
    before zero h = odd
    before (suc j) h = f.taken_before j (omega arith)

-- In a number below 2^k that is not 2^k - 1 and with more than k rounds, `find_bit` returns the
-- start plus the place of the lowest bit that is 0, which is below k, with a 1 at every lower
-- place.
pub find_bit-LowestFree :
    (k rounds w start : ℕ)
    → k < rounds
    → w < 2 ^ k
    → w ≢ 2 ^ k - 1
    → (bit : ℕ) × (find_bit rounds w start ≡ ok (start + bit)) × LowestFree k w bit
unfolding find_bit bit_at
find_bit-LowestFree zero rounds w start h lt ne = absurd (ne (omega arith))
find_bit-LowestFree (suc k) zero w start h lt ne = absurd (omega arith)
find_bit-LowestFree (suc k) (suc rounds) w start h lt ne = elim (Bool-cases (bit_and w 1 == 0)) [
  | inl even ↦ (
    0,
    rw (even, find_bit) (ground arith),
    record {
      below = omega arith;
      is_free = ground (arith, lowest_bit w);
      taken_before = λ j q. absurd (omega arith);
    },
  )
  | inr odd ↦
      let one : w % 2 ≡ 1 = ground (arith, lowest_bit w) in
      let (bit, found, free) =
        find_bit-LowestFree k rounds (w / 2) (start + 1) (omega arith) (omega (arith, pow-suc 2 k))
          (λ e. ne (omega (arith, pow-suc 2 k, one-le-pow k 2 (omega arith)))) in
      (suc bit, rw (odd, find_bit) (ground arith), LowestFree-suc one free)
]

-- How many rounds lead from `spot` to `goal`, through the end of the table if need be.
abbrev pub distance : ℕ → ℕ → ℕ → ℕ
distance length spot goal = if leb spot goal then goal - spot else length - spot + goal

pub record FreeSpot (table : List ℕ) (spot : ℕ) : Type 0 where
  pub inside : spot < length table
  pub not_full : get_or table spot 0 ≢ full_word

-- The search ends at a word that is not full, if there is one within its rounds.
pub find_spot-FreeSpot :
    (rounds : ℕ) (table : List ℕ) (goal spot : ℕ)
    → FreeSpot table goal
    → spot < length table
    → distance (length table) spot goal < rounds
    → (r : ℕ) × (find_spot rounds table (length table) spot ≡ ok r) × FreeSpot table r
unfolding find_spot
find_spot-FreeSpot zero table goal spot g h d = absurd (omega arith)
find_spot-FreeSpot (suc rounds) table goal spot g h d =
    rw (read-ok table spot 0 h, ◌>>=◌)
      (elim (Bool-cases (get_or table spot 0 == full_word)) [
        | inl full ↦ rw full (
            find_spot-FreeSpot rounds table goal
              (if leb (length table) (spot + 1) then 0 else spot + 1) g (ground arith)
              (ground arith))
        | inr free ↦ rw free (spot, refl, record { inside = h; not_full = ground arith })
      ])

-- With every word full the search goes on for ever.
pub find_spot-spin :
    (rounds : ℕ) (table : List ℕ) (spot : ℕ)
    → ((i : ℕ) → i < length table → get_or table i 0 ≡ full_word)
    → spot < length table
    → find_spot rounds table (length table) spot ≡ spin
unfolding find_spot
find_spot-spin zero table spot all h = refl
find_spot-spin (suc rounds) table spot all h =
    rw (read-ok table spot 0 h, all spot h)
      (find_spot-spin rounds table (if leb (length table) (spot + 1) then 0 else spot + 1) all
        (ground arith))
