-- ===== src/Paging/Entry.antt =====
-- The fields of a page table entry: the address of a page or table, and the flags below it.
use kokos.Shared.{
  ℕ, ◌%◌, ◌^◌, ◌≤◌, ◌<◌, ◌≡◌, ◌≢◌, refl, ap, bit_and, bit_or, true, ◌&&◌, arith, ltb, leb, ◌==◌,
  ==_iff, if◌then◌else◌,
}
use kokos.Word.Bits.{
  bit_at, bit_at-le-one, bit_at-bit_or, bit_at-bit_and, bit_at_high, bit_at_low, eq_of_bits,
  bit_or-lt, bit_and-le, every_below, every_below_at,
}
use kokos.Paging.Defs.{address_mask, convert_flags}
use kokos.Paging.Translate.{page_mask}

-- The address of a page: a multiple of 4096 in 52 bits.
pub record IsPage (address : ℕ) : Type 0 where
  pub aligned : address % 2 ^ 12 ≡ 0
  pub fits : address < 2 ^ 52

-- A mask has the bits from 12 up to `top`.
abbrev mask_bit : ℕ → ℕ → ℕ
mask_bit top i = if leb 12 i && ltb i top then 1 else 0

address_mask_table : every_below (λ i. bit_at i address_mask == mask_bit 63 i) 64 ≡ true
unfolding every_below bit_at
address_mask_table = refl

page_mask_table : every_below (λ i. bit_at i page_mask == mask_bit 52 i) 64 ≡ true
unfolding every_below bit_at
page_mask_table = refl

bit_at-address_mask : (i : ℕ) → i < 64 → bit_at i address_mask ≡ mask_bit 63 i
bit_at-address_mask i h =
    (==_iff _ (mask_bit 63 i)).0
      (every_below_at (λ i. bit_at i address_mask == mask_bit 63 i) i h address_mask_table)

bit_at-page_mask : (i : ℕ) → i < 64 → bit_at i page_mask ≡ mask_bit 52 i
bit_at-page_mask i h =
    (==_iff _ (mask_bit 52 i)).0
      (every_below_at (λ i. bit_at i page_mask == mask_bit 52 i) i h page_mask_table)

module _ {address : ℕ} (p : IsPage address) where
  page_bits : (i : ℕ) → (i < 12 → bit_at i address ≡ 0) × (52 ≤ i → bit_at i address ≡ 0)
  page_bits i = (bit_at_low i 12 address p.aligned, bit_at_high i 52 address p.fits)

  small : address < 2 ^ 64
  small = omega (arith, p.fits)

  -- A mask that keeps the bits from 12 to 51 keeps the address and drops the flags.
  mask_keeps :
      (mask flags top : ℕ)
      → flags < 2 ^ 12
      → 52 ≤ top
      → ((i : ℕ) → i < 64 → bit_at i mask ≡ mask_bit top i)
      → bit_and (bit_or address flags) mask ≡ address
  mask_keeps mask flags top fits high bits =
      eq_of_bits 64 _ _ (omega (arith, bit_and-le 64 (bit_or address flags) mask whole, whole))
        small
        (λ i h. ground (
          arith,
          bit_at-bit_and i (bit_or address flags) mask,
          bit_at-bit_or i address flags,
          bits i h,
          (page_bits i).0,
          (page_bits i).1,
          bit_at_high i 12 flags fits,
          bit_at-le-one i address,
        ))
    where
      whole : bit_or address flags < 2 ^ 64
      whole = bit_or-lt 64 address flags small (omega arith)

  pub address_of_entry :
      (flags : ℕ) → flags < 2 ^ 12 → bit_and (bit_or address flags) address_mask ≡ address
  address_of_entry flags fits =
      mask_keeps address_mask flags 63 fits (omega arith) bit_at-address_mask

  pub page_of_entry :
      (flags : ℕ) → flags < 2 ^ 12 → bit_and (bit_or address flags) page_mask ≡ address
  page_of_entry flags fits = mask_keeps page_mask flags 52 fits (omega arith) bit_at-page_mask

  pub address_masked : bit_and address address_mask ≡ address
  address_masked =
      eq_of_bits 64 _ _ (omega (arith, bit_and-le 64 address address_mask small, small)) small
        (λ i h. ground (
          arith,
          bit_at-bit_and i address address_mask,
          bit_at-address_mask i h,
          (page_bits i).0,
          (page_bits i).1,
          bit_at-le-one i address,
        ))

-- The flags that `paging_convert_flags` makes always have the bit for a present page.
pub convert_flags_range : (flags : ℕ) → (convert_flags flags < 8) × (convert_flags flags % 2 ≡ 1)
unfolding convert_flags
convert_flags_range flags = ground arith

pub entry-ne-zero : (address flags : ℕ) → flags % 2 ≡ 1 → bit_or address flags ≢ 0
unfolding bit_at
entry-ne-zero address flags odd e =
    absurd (omega (arith, bit_at-bit_or 0 address flags, ap (bit_at 0) e))
