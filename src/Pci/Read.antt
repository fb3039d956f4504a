-- ===== src/Pci/Read.antt =====
-- The reads of 8 and of 16 bits of a configuration register against the one of 32 bits.
use kokos.Shared.{ℕ, ◌+◌, ◌*◌, ◌/◌, ◌%◌, ◌^◌, ◌≡◌, refl, ap, ◌∙◌, ◌⊎◌, inl, inr, bit_and, arith}
use kokos.Word.Bits.{bit_and-low_mask, bit_and_halves, bit_and-two_pow, bit_at}
use kokos.Pci.Defs.{config_address, config_read32, config_read16, config_read8}

-- The two bytes of a word of 16 bits are in the register of the first of them.
same_register :
    (bus slot function offset : ℕ)
    → offset % 2 ≡ 0
    → config_address bus slot function (offset + 1) ≡ config_address bus slot function offset
unfolding config_address
same_register bus slot function offset even =
    let half : (offset + 1) / 2 ≡ offset / 2 = omega arith in
    let masked : bit_and (offset + 1) 0b11111100 ≡ bit_and offset 0b11111100 = omega (
      arith,
      bit_and_halves offset 0b11111100,
      bit_and_halves (offset + 1) 0b11111100,
      ap (λ (t : ℕ). bit_and t (0b11111100 / 2)) half,
    ) in
    rw masked refl

-- The bytes of a word of 32 bits from an even place on.
bytes_of :
    (word place : ℕ)
    → (place ≡ 0) ⊎ (place ≡ 2)
    → bit_and (word / 2 ^ (place * 8)) 0xffff
      ≡ bit_and (word / 2 ^ (place * 8)) 0xff + 256 * bit_and (word / 2 ^ ((place + 1) * 8)) 0xff
bytes_of word place (inl e) = rw e (
    omega (
      arith,
      bit_and-low_mask 16 (word / 2 ^ 0),
      bit_and-low_mask 8 (word / 2 ^ 0),
      bit_and-low_mask 8 (word / 2 ^ 8),
    ))
bytes_of word place (inr e) = rw e (
    omega (
      arith,
      bit_and-low_mask 16 (word / 2 ^ 16),
      bit_and-low_mask 8 (word / 2 ^ 16),
      bit_and-low_mask 8 (word / 2 ^ 24),
    ))

-- The bytes that the masks of an even offset select.
places :
    (offset : ℕ)
    → offset % 2 ≡ 0
    → (bit_and offset 0x2 ≡ offset % 4)
      × (bit_and offset 0x3 ≡ offset % 4)
      × (bit_and (offset + 1) 0x3 ≡ offset % 4 + 1)
      × ((offset % 4 ≡ 0) ⊎ (offset % 4 ≡ 2))
unfolding bit_at
places offset even = (
  omega (arith, bit_and-two_pow 1 offset),
  bit_and-low_mask 2 offset,
  bit_and-low_mask 2 (offset + 1) ∙ omega arith,
  omega arith,
)

-- At an even offset the read of 16 bits gives the two bytes there, the lower one first.
config_read16-bytes :
    (register : ℕ → ℕ) (bus slot function offset : ℕ)
    → offset % 2 ≡ 0
    → config_read16 register bus slot function offset
      ≡ config_read8 register bus slot function offset
        + 256 * config_read8 register bus slot function (offset + 1)
unfolding config_read16 config_read8 config_read32
config_read16-bytes register bus slot function offset even =
    let (two, at, at', place) = places offset even in
    rw (same_register bus slot function offset even, two, at, at')
      (bytes_of (register (config_address bus slot function offset)) (offset % 4) place)
