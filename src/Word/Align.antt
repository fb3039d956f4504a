-- ===== src/Word/Align.antt =====
-- The macro `ALIGN_TO_NEXT` of src/include/kokos/util.h, for multiples of 8.
use kokos.Shared.{ℕ, ◌+◌, ◌-◌, ◌*◌, ◌/◌, ◌%◌, ◌^◌, ◌<◌, ◌≤◌, ◌≡◌, bit_and, arith}
use kokos.Word.Bits.{bit_and_halves, bit_and-low_mask}

-- `ALIGN_TO_NEXT(n, 8)` of an `unsigned int`
unfoldable pub align_to_next : ℕ → ℕ
align_to_next n = (bit_and ((n + 2 ^ 32 - 1) % 2 ^ 32) (2 ^ 32 - 8) + 8) % 2 ^ 32

-- `a & -8` in 32 bits
bit_and-eights : (a : ℕ) → a < 2 ^ 32 → bit_and a (2 ^ 32 - 8) ≡ a - a % 8
bit_and-eights a fits = omega (
  arith,
  bit_and_halves a (2 ^ 32 - 8),
  bit_and_halves (a / 2) (2 ^ 31 - 4),
  bit_and_halves (a / 2 / 2) (2 ^ 30 - 2),
  bit_and-low_mask 29 (a / 2 / 2 / 2),
)

-- Sizes up to 2^32 - 8 are rounded up to a multiple of 8, and 0 stays 0.
pub align_to_next-rounds : (n : ℕ) → n ≤ 2 ^ 32 - 8 → align_to_next n ≡ (n + 7) / 8 * 8
unfolding align_to_next
align_to_next-rounds n small =
    omega (arith, bit_and-eights ((n + 2 ^ 32 - 1) % 2 ^ 32) (omega arith))
