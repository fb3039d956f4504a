-- ===== src/MemoryPhysical/Valid.antt =====
-- The states that the allocator is meant to be in between two calls, and the pages that are taken.
use kokos.Shared.{
  ℕ, suc, ◌+◌, ◌/◌, ◌%◌, ◌^◌, ◌≤◌, ◌<◌, ◌≡◌, refl, Bool, true, false, ◌&&◌, List, [], ◌∷◌, length,
  get_or, get_or-set, set, inl, inr, Bool-cases, arith, leb, ◌==◌, if◌then◌else◌,
}
use mathlib.Core.Path.{ap₂}
use kokos.Word.Bits.{bit_at, bit_at-le-one, eq_of_bits}
use kokos.Word.Shift.{
  has_bits, has_bits-true, has_bits-false, covers, set_bits, clear_bits, bit_at-set_bits,
  bit_at-clear_bits, set_bits-lt, clear_bits-lt,
}
use kokos.MemoryPhysical.Defs.{MemoryPhysical}

-- `1 << bit` sets the bits 31 to 63 of a word together or not at all, so they agree.
pub record IsWord (w : ℕ) : Type 0 where
  pub fits : w < 2 ^ 64
  pub top : (j : ℕ) → 31 ≤ j → j < 64 → bit_at j w ≡ bit_at 31 w

pub record IsValid (m : MemoryPhysical) : Type 0 where
  pub sized : length m.allocation_table ≡ m.allocation_table_length
  pub cursor : m.allocation_index < m.allocation_table_length
  pub words : (i : ℕ) → IsWord (get_or m.allocation_table i 0)
  pub small : m.allocation_table_length ≤ 2 ^ 32
  pub unlocked : m.memory_lock ≡ 0

-- The bit of a page in the table: 1 when it is taken.
abbrev pub page_bit : List ℕ → ℕ → ℕ
page_bit table page = bit_at (page % 64) (get_or table (page / 64) 0)

-- The pages whose bits `1 << bit` reaches when it is applied to the word of `page`.
abbrev pub reaches : ℕ → ℕ → Bool
reaches page p = p / 64 == page / 64 && covers (page % 64) (p % 64)

-- On such a word the test `w & (1 << bit)` reads the bit at `bit % 32`.
pub has_bits-IsWord :
    (w bit : ℕ) → IsWord w → has_bits w bit ≡ (if bit_at (bit % 32) w == 0 then false else true)
has_bits-IsWord w bit v = elim (Bool-cases (bit_at (bit % 32) w == 0)) [
  | inl none ↦ rw none (
      has_bits-false w bit v.fits (λ i h c. elim (Bool-cases (leb 31 i)) [
        | inl above ↦ ground (arith, v.top i, v.top (bit % 32))
        | inr under ↦ ground arith
      ]))
  | inr some ↦ rw some (
      has_bits-true w bit (bit % 32) (omega arith) (ground arith)
        (ground (arith, bit_at-le-one (bit % 32) w)))
]

pub set_bits-IsWord : (w bit : ℕ) → IsWord w → IsWord (set_bits w bit)
set_bits-IsWord w bit v = record {
  fits = set_bits-lt w bit v.fits;
  top = λ j lo hi.
      ground
        (arith, bit_at-set_bits w bit j hi, bit_at-set_bits w bit 31 (omega arith), v.top j lo hi);
}

pub clear_bits-IsWord : (w bit : ℕ) → IsWord w → IsWord (clear_bits w bit)
clear_bits-IsWord w bit v = record {
  fits = clear_bits-lt w bit v.fits;
  top = λ j lo hi. ground (
    arith,
    bit_at-clear_bits w bit j hi,
    bit_at-clear_bits w bit 31 (omega arith),
    v.top j lo hi,
  );
}

module _ (table : List ℕ) (spot : ℕ) (inside : spot < length table) where
  pub set-IsWord :
      (v : ℕ)
      → ((i : ℕ) → IsWord (get_or table i 0))
      → IsWord v
      → (i : ℕ) → IsWord (get_or (set table spot v) i 0)
  set-IsWord v all is i =
      rw (get_or-set table spot i v 0 inside)
        (elim (Bool-cases (i == spot)) [ inl same ↦ rw same is | inr other ↦ rw other (all i) ])

module _ (table : List ℕ) (page : ℕ) (inside : page / 64 < length table) where
  abbrev word : ℕ
  word = get_or table (page / 64) 0

  pub page_bit-set_bits :
      (p : ℕ)
      → page_bit (set table (page / 64) (set_bits word (page % 64))) p
        ≡ (if reaches page p then 1 else page_bit table p)
  page_bit-set_bits p =
      rw (get_or-set table (page / 64) (p / 64) (set_bits word (page % 64)) 0 inside)
        (ground (arith, bit_at-set_bits word (page % 64) (p % 64) (omega arith)))

  pub page_bit-clear_bits :
      (p : ℕ)
      → page_bit (set table (page / 64) (clear_bits word (page % 64))) p
        ≡ (if reaches page p then 0 else page_bit table p)
  page_bit-clear_bits p =
      rw (get_or-set table (page / 64) (p / 64) (clear_bits word (page % 64)) 0 inside)
        (ground (arith, bit_at-clear_bits word (page % 64) (p % 64) (omega arith)))

-- Tables of one length that agree in the bit of every page are equal.
pub eq_of_page_bits :
    (xs ys : List ℕ)
    → length xs ≡ length ys
    → ((i : ℕ) → IsWord (get_or xs i 0))
    → ((i : ℕ) → IsWord (get_or ys i 0))
    → ((p : ℕ) → page_bit xs p ≡ page_bit ys p)
    → xs ≡ ys
eq_of_page_bits [] [] e ws vs same = refl
eq_of_page_bits [] (y ∷ ys) e ws vs same = absurd (omega arith)
eq_of_page_bits (x ∷ xs) [] e ws vs same = absurd (omega arith)
eq_of_page_bits (x ∷ xs) (y ∷ ys) e ws vs same =
    ap₂ ◌∷◌ (eq_of_bits 64 x y (ws 0).fits (vs 0).fits (λ i h. first i h))
      (eq_of_page_bits xs ys (omega arith) (λ i. ws (suc i)) (λ i. vs (suc i)) rest)
  where
    first : (i : ℕ) → i < 64 → bit_at i x ≡ bit_at i y
    first i h =
        let lo : i % 64 ≡ i = omega arith in
        let hi : i / 64 ≡ 0 = omega arith in rw (lo, hi) at (same i)

    rest : (p : ℕ) → page_bit xs p ≡ page_bit ys p
    rest p =
        let lo : (p + 64) % 64 ≡ p % 64 = omega arith in
        let hi : (p + 64) / 64 ≡ suc (p / 64) = omega arith in rw (lo, hi) at (same (p + 64))
