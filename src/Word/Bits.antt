-- ===== src/Word/Bits.antt =====
-- The bits of a number, lowest first, and the operators of C on them.
use Prim.Native.Nat.{digits, bit_and-bitwise, bit_or-bitwise}
use native.Mathlib.Nat.{
  pow-suc, one-le-pow, div-div-eq-div-mul, div-add-mod', mul-add-mod_self_right, mod-eq_of_lt,
  mod-lt,
}
use kokos.Shared.{
  ℕ, zero, suc, ◌+◌, ◌-◌, ◌*◌, ◌/◌, ◌%◌, ◌^◌, ◌≤◌, ◌<◌, min, max, bit_and, bit_or, ◌≡◌, refl, ap,
  sym, ◌∙◌, Bool, true, false, arith, ◌==◌, if◌then◌else◌,
}

-- `(a >> i) & 1`
unfoldable pub bit_at : ℕ → ℕ → ℕ
bit_at zero a = a % 2
bit_at (suc i) a = bit_at i (a / 2)

-- The count of digits does not matter once it reaches the first number.
digits_fuel :
    (z : ℕ → ℕ) (f : ℕ → ℕ → ℕ) (n m a b : ℕ) → a ≤ n → a ≤ m → digits z f n a b ≡ digits z f m a b
digits_fuel z f zero zero a b p q = refl
digits_fuel z f zero (suc m) zero b p q = refl
digits_fuel z f zero (suc m) (suc a) b p q = absurd (omega arith)
digits_fuel z f (suc n) zero zero b p q = refl
digits_fuel z f (suc n) zero (suc a) b p q = absurd (omega arith)
digits_fuel z f (suc n) (suc m) zero b p q = refl
digits_fuel z f (suc n) (suc m) (suc a) b p q =
    ap (λ (t : ℕ). t * 2 + f (suc a % 2) (b % 2))
      (digits_fuel z f n m (suc a / 2) (b / 2) (omega arith) (omega arith))

pub bit_or_halves : (a b : ℕ) → bit_or a b ≡ bit_or (a / 2) (b / 2) * 2 + max (a % 2) (b % 2)
bit_or_halves zero b = omega (arith, bit_or-bitwise 0 b, bit_or-bitwise 0 (b / 2))
bit_or_halves (suc a) b = omega (
  arith,
  bit_or-bitwise (suc a) b,
  bit_or-bitwise (suc a / 2) (b / 2),
  digits_fuel (λ b. b) max a (suc a / 2) (suc a / 2) (b / 2) (omega arith) (omega arith),
)

pub bit_and_halves : (a b : ℕ) → bit_and a b ≡ bit_and (a / 2) (b / 2) * 2 + min (a % 2) (b % 2)
bit_and_halves zero b = omega (arith, bit_and-bitwise 0 b, bit_and-bitwise 0 (b / 2))
bit_and_halves (suc a) b = omega (
  arith,
  bit_and-bitwise (suc a) b,
  bit_and-bitwise (suc a / 2) (b / 2),
  digits_fuel (λ b. 0) min a (suc a / 2) (suc a / 2) (b / 2) (omega arith) (omega arith),
)

pub bit_at-le-one : (i a : ℕ) → bit_at i a ≤ 1
unfolding bit_at
bit_at-le-one zero a = omega arith
bit_at-le-one (suc i) a = bit_at-le-one i (a / 2)

pub bit_at-zero : (i : ℕ) → bit_at i 0 ≡ 0
unfolding bit_at
bit_at-zero zero = refl
bit_at-zero (suc i) = bit_at-zero i

pub bit_at-bit_or : (i a b : ℕ) → bit_at i (bit_or a b) ≡ max (bit_at i a) (bit_at i b)
unfolding bit_at
bit_at-bit_or zero a b = omega (arith, bit_or_halves a b)
bit_at-bit_or (suc i) a b =
    let e : bit_or a b / 2 ≡ bit_or (a / 2) (b / 2) = omega (arith, bit_or_halves a b) in
    rw e (bit_at-bit_or i (a / 2) (b / 2))

pub bit_at-bit_and : (i a b : ℕ) → bit_at i (bit_and a b) ≡ min (bit_at i a) (bit_at i b)
unfolding bit_at
bit_at-bit_and zero a b = omega (arith, bit_and_halves a b)
bit_at-bit_and (suc i) a b =
    let e : bit_and a b / 2 ≡ bit_and (a / 2) (b / 2) = omega (arith, bit_and_halves a b) in
    rw e (bit_at-bit_and i (a / 2) (b / 2))

-- `1 << k`
pub bit_at-two_pow : (i k : ℕ) → bit_at i (2 ^ k) ≡ (if i == k then 1 else 0)
unfolding bit_at
bit_at-two_pow zero zero = refl
bit_at-two_pow zero (suc k) = ground (arith, pow-suc 2 k)
bit_at-two_pow (suc i) zero = ground (arith, bit_at-zero i)
bit_at-two_pow (suc i) (suc k) =
    let e : 2 ^ suc k / 2 ≡ 2 ^ k = omega (arith, pow-suc 2 k) in
    rw e (rw (bit_at-two_pow i k) (ground arith))

-- `~a` in a word of `w` bits
unfoldable pub complement : ℕ → ℕ → ℕ
complement w a = 2 ^ w - 1 - a

pub bit_at-complement : (w i a : ℕ) → a < 2 ^ w → i < w → bit_at i (complement w a) ≡ 1 - bit_at i a
unfolding bit_at complement
bit_at-complement zero i a h k = absurd (omega arith)
bit_at-complement (suc w) zero a h k = omega (arith, pow-suc 2 w)
bit_at-complement (suc w) (suc i) a h k =
    let e : (2 ^ suc w - 1 - a) / 2 ≡ 2 ^ w - 1 - a / 2 = omega (arith, pow-suc 2 w) in
    rw e (bit_at-complement w i (a / 2) (omega (arith, pow-suc 2 w)) (omega arith))

-- Two words are equal when their bits are.
pub eq_of_bits :
    (w a b : ℕ) → a < 2 ^ w → b < 2 ^ w → ((i : ℕ) → i < w → bit_at i a ≡ bit_at i b) → a ≡ b
unfolding bit_at
eq_of_bits zero a b p q h = omega arith
eq_of_bits (suc w) a b p q h = omega (
  arith,
  pow-suc 2 w,
  h 0 (omega arith),
  eq_of_bits w (a / 2) (b / 2) (omega (arith, pow-suc 2 w)) (omega (arith, pow-suc 2 w))
      (λ i k. h (suc i) (omega arith)),
)

pub bit_or-lt : (w a b : ℕ) → a < 2 ^ w → b < 2 ^ w → bit_or a b < 2 ^ w
bit_or-lt zero a b p q =
    let ea : a ≡ 0 = omega arith in let eb : b ≡ 0 = omega arith in rw (ea, eb) (omega arith)
bit_or-lt (suc w) a b p q = omega (
  arith,
  pow-suc 2 w,
  bit_or_halves a b,
  bit_or-lt w (a / 2) (b / 2) (omega (arith, pow-suc 2 w)) (omega (arith, pow-suc 2 w)),
)

pub bit_and-le : (w a b : ℕ) → a < 2 ^ w → bit_and a b ≤ a
bit_and-le zero a b p = let e : a ≡ 0 = omega arith in rw e (omega (arith, bit_and-bitwise 0 b))
bit_and-le (suc w) a b p = omega (
  arith,
  pow-suc 2 w,
  bit_and_halves a b,
  bit_and-le w (a / 2) (b / 2) (omega (arith, pow-suc 2 w)),
)

pub bit_and-zero : (a : ℕ) → bit_and a 0 ≡ 0
bit_and-zero a = below a a (omega arith)
  where
    below : (n a : ℕ) → a ≤ n → bit_and a 0 ≡ 0
    below n zero h = bit_and-bitwise 0 0
    below zero (suc a) h = absurd (omega arith)
    below (suc n) (suc a) h =
        omega (arith, bit_and_halves (suc a) 0, below n (suc a / 2) (omega arith))

-- `a & (1 << k)` is the bit at `k`, in its place.
pub bit_and-two_pow : (k a : ℕ) → bit_and a (2 ^ k) ≡ bit_at k a * 2 ^ k
unfolding bit_at
bit_and-two_pow zero a = omega (arith, bit_and_halves a 1, bit_and-zero (a / 2))
bit_and-two_pow (suc k) a =
    let e : 2 ^ suc k / 2 ≡ 2 ^ k = omega (arith, pow-suc 2 k) in
    omega (
      arith,
      pow-suc 2 k,
      bit_and_halves a (2 ^ suc k),
      ap (λ (t : ℕ). bit_and (a / 2) t) e,
      bit_and-two_pow k (a / 2),
      ap (λ (t : ℕ). bit_at k (a / 2) * t) (pow-suc 2 k),
    )

-- `(a >> k) & 1` is the bit at `k`.
pub shift-bit_and_one : (k a : ℕ) → bit_and (a / 2 ^ k) 1 ≡ bit_at k a
unfolding bit_at
shift-bit_and_one zero a = omega (arith, bit_and_halves (a / 1) 1, bit_and-zero (a / 1 / 2))
shift-bit_and_one (suc k) a =
    let e : a / 2 ^ suc k ≡ a / 2 / 2 ^ k =
      ap (λ (t : ℕ). a / t) (omega (arith, pow-suc 2 k)) ∙ sym (div-div-eq-div-mul a 2 (2 ^ k)) in
    rw e (shift-bit_and_one k (a / 2))

mod_of_halves :
    (k q r b : ℕ) → r < 2 ^ k → b < 2 → ((q * 2 ^ k + r) * 2 + b) % 2 ^ suc k ≡ r * 2 + b
mod_of_halves k q r b hr hb =
    let fits : r * 2 + b < 2 ^ suc k = omega (arith, pow-suc 2 k) in
    let e : (q * 2 ^ k + r) * 2 + b ≡ q * 2 ^ suc k + (r * 2 + b) =
      omega (arith, ap (λ (t : ℕ). q * t) (pow-suc 2 k)) in
    rw e (mul-add-mod_self_right q (2 ^ suc k) (r * 2 + b) ∙ mod-eq_of_lt fits)

-- The lowest bit of a remainder by `2 ^ suc k`, and the rest of it.
pub mod-two_pow_suc : (a k : ℕ) → a % 2 ^ suc k ≡ a / 2 % 2 ^ k * 2 + a % 2
mod-two_pow_suc a k =
    let e : (a / 2 / 2 ^ k * 2 ^ k + a / 2 % 2 ^ k) * 2 + a % 2 ≡ a =
      omega (arith, div-add-mod' (a / 2) (2 ^ k)) in
    ap (λ (t : ℕ). t % 2 ^ suc k) (sym e)
    ∙ mod_of_halves k (a / 2 / 2 ^ k) (a / 2 % 2 ^ k) (a % 2)
        (mod-lt (a / 2) (one-le-pow k 2 (omega arith))) (omega arith)

-- `a & 0b1…1` with `k` ones is the remainder by `2 ^ k`.
pub bit_and-low_mask : (k a : ℕ) → bit_and a (2 ^ k - 1) ≡ a % 2 ^ k
bit_and-low_mask zero a = omega (arith, bit_and-zero a)
bit_and-low_mask (suc k) a =
    let e : (2 ^ suc k - 1) / 2 ≡ 2 ^ k - 1 =
      omega (arith, pow-suc 2 k, one-le-pow k 2 (omega arith)) in
    omega (
      arith,
      pow-suc 2 k,
      one-le-pow k 2 (omega arith),
      bit_and_halves a (2 ^ suc k - 1),
      ap (λ (t : ℕ). bit_and (a / 2) t) e,
      bit_and-low_mask k (a / 2),
      mod-two_pow_suc a k,
    )

-- A test that holds of each of the first numbers, and the use of it at one of them.
unfoldable pub every_below : (ℕ → Bool) → ℕ → Bool
every_below test zero = true
every_below test (suc k) = elim (test k) [ true ↦ every_below test k | false ↦ false ]

pub every_below_at :
    (test : ℕ → Bool) (i : ℕ) {k : ℕ} → i < k → every_below test k ≡ true → test i ≡ true
unfolding every_below
every_below_at test i {k = zero} lt all = absurd (omega arith)
every_below_at test i {k = suc k} lt all = ground (arith, every_below_at test i {k = k})

-- A number below `2 ^ k` has no bit from `k` on, and a multiple of `2 ^ k` none below.
pub bit_at_high : (i k a : ℕ) → a < 2 ^ k → k ≤ i → bit_at i a ≡ 0
unfolding bit_at
bit_at_high i zero a h q = let e : a ≡ 0 = omega arith in rw e (bit_at-zero i)
bit_at_high zero (suc k) a h q = absurd (omega arith)
bit_at_high (suc i) (suc k) a h q =
    bit_at_high i k (a / 2) (omega (arith, pow-suc 2 k)) (omega arith)

pub bit_at_low : (i k a : ℕ) → a % 2 ^ k ≡ 0 → i < k → bit_at i a ≡ 0
unfolding bit_at
bit_at_low i zero a h q = absurd (omega arith)
bit_at_low zero (suc k) a h q = omega (arith, mod-two_pow_suc a k)
bit_at_low (suc i) (suc k) a h q =
    bit_at_low i k (a / 2) (omega (arith, mod-two_pow_suc a k)) (omega arith)
