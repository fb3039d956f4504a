-- ===== src/Word/Join.antt =====
-- Words put together by `|` from parts that do not overlap, and taken apart by `>>` and a mask.
use Prim.Native.Nat.{bit_or-bitwise}
use native.Mathlib.Nat.{pow-suc}
use kokos.Shared.{
  ℕ, zero, suc, ◌+◌, ◌*◌, ◌/◌, ◌%◌, ◌^◌, ◌<◌, ◌≤◌, inl, inr, ◌==◌, Bool-cases, bit_or, bit_and, ◌≡◌,
  refl, ap, ◌∙◌, arith,
}
use kokos.Word.Bits.{bit_or_halves, bit_and_halves, bit_and-zero}

-- `a | (b << k)` for an `a` of `k` bits is a sum.
pub bit_or-add : (k a b : ℕ) → a < 2 ^ k → bit_or a (b * 2 ^ k) ≡ a + b * 2 ^ k
bit_or-add zero a b h =
    let e : a ≡ 0 = omega arith in rw e (omega (arith, bit_or-bitwise 0 (b * 1)))
bit_or-add (suc k) a b h =
    let shifted : b * 2 ^ suc k ≡ b * 2 ^ k * 2 =
      omega (arith, ap (λ (t : ℕ). b * t) (pow-suc 2 k)) in
    let half : b * 2 ^ suc k / 2 ≡ b * 2 ^ k = omega arith in
    omega (
      arith,
      bit_or_halves a (b * 2 ^ suc k),
      ap (λ (t : ℕ). bit_or (a / 2) t) half,
      bit_or-add k (a / 2) b (omega (arith, pow-suc 2 k)),
    )

bit_or-zero : (k n : ℕ) → n ≤ k → bit_or n 0 ≡ n
bit_or-zero zero n h = let e : n ≡ 0 = omega arith in rw e refl
bit_or-zero (suc k) n h = elim (Bool-cases (n == 0)) [
  | inl null ↦ let e : n ≡ 0 = ground arith in rw e refl
  | inr more ↦ ground (arith, bit_or_halves n 0, bit_or-zero k (n / 2) (ground arith))
]

-- The same with the parts in the other order.
pub bit_or-add_high : (k a b : ℕ) → a < 2 ^ k → bit_or (b * 2 ^ k) a ≡ a + b * 2 ^ k
bit_or-add_high zero a b h =
    let e : a ≡ 0 = omega arith in
    rw e (omega (arith, bit_or-zero (b * 2 ^ 0) (b * 2 ^ 0) (omega arith)))
bit_or-add_high (suc k) a b h =
    let shifted : b * 2 ^ suc k ≡ b * 2 ^ k * 2 =
      omega (arith, ap (λ (t : ℕ). b * t) (pow-suc 2 k)) in
    let half : b * 2 ^ suc k / 2 ≡ b * 2 ^ k = omega arith in
    omega (
      arith,
      bit_or_halves (b * 2 ^ suc k) a,
      ap (λ (t : ℕ). bit_or t (a / 2)) half,
      bit_or-add_high k (a / 2) b (omega (arith, pow-suc 2 k)),
    )

-- A 64-bit address from its parts of 16, 16 and 32 bits.
pub join-split :
    (a : ℕ)
    → a < 2 ^ 64
    → bit_or (bit_or (a % 2 ^ 16) (a / 2 ^ 16 % 2 ^ 16 * 2 ^ 16)) (a / 2 ^ 32 % 2 ^ 32 * 2 ^ 32) ≡ a
join-split a h =
    let low : bit_or (a % 2 ^ 16) (a / 2 ^ 16 % 2 ^ 16 * 2 ^ 16)
        ≡ a % 2 ^ 16 + a / 2 ^ 16 % 2 ^ 16 * 2 ^ 16 =
      bit_or-add 16 (a % 2 ^ 16) (a / 2 ^ 16 % 2 ^ 16) (omega arith) in
    rw low (
      bit_or-add 32 (a % 2 ^ 16 + a / 2 ^ 16 % 2 ^ 16 * 2 ^ 16) (a / 2 ^ 32 % 2 ^ 32) (omega arith)
      ∙ omega arith)

-- A mask on a word put together from two parts.
pub bit_and-join :
    (k a b m n : ℕ)
    → a < 2 ^ k
    → m < 2 ^ k
    → bit_and (a + b * 2 ^ k) (m + n * 2 ^ k) ≡ bit_and a m + bit_and b n * 2 ^ k
bit_and-join zero a b m n small small' =
    let ea : a ≡ 0 = omega arith in
    let em : m ≡ 0 = omega arith in
    let left : a + b * 2 ^ 0 ≡ b = omega arith in
    let right : m + n * 2 ^ 0 ≡ n = omega arith in
    rw (left, right, ea, em) (omega (arith, bit_and-zero 0))
bit_and-join (suc k) a b m n small small' =
    let two : 2 ^ suc k ≡ 2 ^ k * 2 = omega (arith, pow-suc 2 k) in
    let high : b * 2 ^ suc k ≡ b * 2 ^ k * 2 = omega (arith, ap (λ (t : ℕ). b * t) two) in
    let high' : n * 2 ^ suc k ≡ n * 2 ^ k * 2 = omega (arith, ap (λ (t : ℕ). n * t) two) in
    let half : (a + b * 2 ^ suc k) / 2 ≡ a / 2 + b * 2 ^ k = omega arith in
    let half' : (m + n * 2 ^ suc k) / 2 ≡ m / 2 + n * 2 ^ k = omega arith in
    let bits : bit_and b n * 2 ^ suc k ≡ bit_and b n * 2 ^ k * 2 =
      omega (arith, ap (λ (t : ℕ). bit_and b n * t) two) in
    omega (
      arith,
      bit_and_halves (a + b * 2 ^ suc k) (m + n * 2 ^ suc k),
      ap (λ (t : ℕ). bit_and t ((m + n * 2 ^ suc k) / 2)) half,
      ap (λ (t : ℕ). bit_and (a / 2 + b * 2 ^ k) t) half',
      bit_and_halves a m,
      bit_and-join k (a / 2) b (m / 2) n (omega arith) (omega arith),
    )
