-- ===== src/Word/Shift.antt =====
-- `1 << bit` where the left operand is an `int` and the result meets an `unsigned long`: the
-- Makefile builds for x86-64 with no optimisation, where the instruction `shl` reads the count
-- modulo 32 (C leaves counts from 32 on undefined), and the 32-bit result is sign-extended.
use kokos.Shared.{
  ℕ, ◌-◌, ◌%◌, ◌^◌, ◌<◌, bit_and, bit_or, ◌≡◌, refl, Bool, true, false, inl, inr, Bool-cases, ap,
  arith, ltb, leb, ◌==◌, ==_iff, if◌then◌else◌,
}
use native.Mathlib.Nat.{one-le-pow}
use kokos.Word.Bits.{
  bit_at, complement, bit_at-two_pow, bit_at-bit_or, bit_at-bit_and, bit_at-complement,
  bit_at-le-one, bit_at-zero, eq_of_bits, bit_or-lt, bit_and-le, bit_and-two_pow, every_below,
  every_below_at,
}

unfoldable pub shl_one : ℕ → ℕ
shl_one bit = if bit % 32 == 31 then 2 ^ 64 - 2 ^ 31 else 2 ^ (bit % 32)

-- The bits that `1 << bit` has as an `unsigned long`.
abbrev pub covers : ℕ → ℕ → Bool
covers bit i = if bit % 32 == 31 then leb 31 i else i == bit % 32

abbrev sign_bits : ℕ → ℕ
sign_bits i = if leb 31 i then 1 else 0

sign_table : every_below (λ i. bit_at i (2 ^ 64 - 2 ^ 31) == sign_bits i) 64 ≡ true
unfolding every_below bit_at
sign_table = refl

bit_at-sign : (i : ℕ) → i < 64 → bit_at i (2 ^ 64 - 2 ^ 31) ≡ sign_bits i
bit_at-sign i h =
    (==_iff _ (sign_bits i)).0
      (every_below_at (λ i. bit_at i (2 ^ 64 - 2 ^ 31) == sign_bits i) i h sign_table)

pub bit_at-shl_one : (bit i : ℕ) → i < 64 → bit_at i (shl_one bit) ≡ (if covers bit i then 1 else 0)
unfolding shl_one
bit_at-shl_one bit i h = ground (arith, bit_at-sign i h, bit_at-two_pow i (bit % 32))

power_table : every_below (λ k. ltb (2 ^ k) (2 ^ 32)) 32 ≡ true
unfolding every_below
power_table = refl

pub shl_one-lt : (bit : ℕ) → shl_one bit < 2 ^ 64
unfolding shl_one
shl_one-lt bit =
    ground (arith, every_below_at (λ k. ltb (2 ^ k) (2 ^ 32)) (bit % 32) (omega arith) power_table)

-- `w |= 1 << bit`
unfoldable pub set_bits : ℕ → ℕ → ℕ
set_bits w bit = bit_or w (shl_one bit)

-- `w &= ~(1 << bit)`
unfoldable pub clear_bits : ℕ → ℕ → ℕ
clear_bits w bit = bit_and w (complement 64 (shl_one bit))

-- `w & (1 << bit)`, as a condition
unfoldable pub has_bits : ℕ → ℕ → Bool
has_bits w bit = if bit_and w (shl_one bit) == 0 then false else true

pub bit_at-set_bits :
    (w bit i : ℕ) → i < 64 → bit_at i (set_bits w bit) ≡ (if covers bit i then 1 else bit_at i w)
unfolding set_bits
bit_at-set_bits w bit i h =
    ground (arith, bit_at-bit_or i w (shl_one bit), bit_at-shl_one bit i h, bit_at-le-one i w)

pub bit_at-clear_bits :
    (w bit i : ℕ) → i < 64 → bit_at i (clear_bits w bit) ≡ (if covers bit i then 0 else bit_at i w)
unfolding clear_bits
bit_at-clear_bits w bit i h = ground (
  arith,
  bit_at-bit_and i w (complement 64 (shl_one bit)),
  bit_at-complement 64 i (shl_one bit) (shl_one-lt bit) h,
  bit_at-shl_one bit i h,
  bit_at-le-one i w,
)

pub set_bits-lt : (w bit : ℕ) → w < 2 ^ 64 → set_bits w bit < 2 ^ 64
unfolding set_bits
set_bits-lt w bit h = bit_or-lt 64 w (shl_one bit) h (shl_one-lt bit)

pub clear_bits-lt : (w bit : ℕ) → w < 2 ^ 64 → clear_bits w bit < 2 ^ 64
unfolding clear_bits
clear_bits-lt w bit h = omega (arith, bit_and-le 64 w (complement 64 (shl_one bit)) h)

-- Below 31 the test reads the one bit that it names.
pub has_bits-bit_at :
    (w bit : ℕ) → bit < 31 → has_bits w bit ≡ (if bit_at bit w == 0 then false else true)
unfolding has_bits shl_one
has_bits-bit_at w bit h =
    let e : bit % 32 ≡ bit = omega arith in
    rw e
      (ground (arith, bit_and-two_pow bit w, bit_at-le-one bit w, one-le-pow bit 2 (omega arith)))

-- The test passes when one of the bits that it reads is 1, and fails when all of them are 0.
pub has_bits-true :
    (w bit i : ℕ) → i < 64 → covers bit i ≡ true → bit_at i w ≡ 1 → has_bits w bit ≡ true
unfolding has_bits
has_bits-true w bit i h c one = elim (Bool-cases (bit_and w (shl_one bit) == 0)) [
  | inl none ↦
      let e : bit_and w (shl_one bit) ≡ 0 = (==_iff _ 0).0 none in
      let set_here : bit_at i (bit_and w (shl_one bit)) ≡ 1 =
        ground (arith, bit_at-bit_and i w (shl_one bit), bit_at-shl_one bit i h) in
      absurd (omega (arith, set_here, ap (bit_at i) e, bit_at-zero i))
  | inr some ↦ rw some
]

pub has_bits-false :
    (w bit : ℕ)
    → w < 2 ^ 64
    → ((i : ℕ) → i < 64 → covers bit i ≡ true → bit_at i w ≡ 0)
    → has_bits w bit ≡ false
unfolding has_bits
has_bits-false w bit fits zeros =
    let e : bit_and w (shl_one bit) ≡ 0 =
      eq_of_bits 64 _ 0 (omega (arith, bit_and-le 64 w (shl_one bit) fits)) (omega arith) (λ i h.
        ground (
          arith,
          bit_at-bit_and i w (shl_one bit),
          bit_at-shl_one bit i h,
          bit_at-zero i,
          zeros i h,
        )) in
    rw e
