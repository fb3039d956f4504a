-- ===== src/Acpi/Checksum.antt =====
-- The checksums of acpi.c and the sum of the bytes modulo 256.
use kokos.Shared.{
  ℕ, zero, suc, ◌+◌, ◌%◌, ◌^◌, ◌≤◌, ◌<◌, ◌≡◌, ◌≢◌, refl, ap, ◌∙◌, arith, inl, inr, ◌⊎◌, ==_iff,
  ◌==◌, if◌then◌else◌, Bool-cases,
}
use kokos.Word.Bits.{bit_and-low_mask}
use kokos.Word.Bytes.{load-agrees, byte_address, byte_address-add}
use kokos.Acpi.Defs.{
  sdt_length, sum_int, sum_char, validate_rsdt_pointer, validate_xsdt_pointer, validate_sdt,
}

-- The sum of the bytes from an address on.
unfoldable byte_sum : ℕ → (ℕ → ℕ) → ℕ → ℕ
byte_sum zero memory a = 0
byte_sum (suc size) memory a = memory a + byte_sum size memory (a + 1)

sum_int-byte_sum :
    (rounds : ℕ) (memory : ℕ → ℕ) (pointer i sum : ℕ)
    → sum_int rounds memory pointer i sum % 256 ≡ (sum + byte_sum rounds memory (pointer + i)) % 256
unfolding sum_int byte_sum
sum_int-byte_sum zero memory pointer i sum = omega arith
sum_int-byte_sum (suc rounds) memory pointer i sum =
    let e : pointer + (i + 1) ≡ pointer + i + 1 = omega arith in
    sum_int-byte_sum rounds memory pointer (i + 1) ((sum + memory (pointer + i)) % 2 ^ 32)
    ∙ rw e (omega arith)

sum_char-byte_sum :
    (rounds : ℕ) (memory : ℕ → ℕ) (pointer i sum : ℕ)
    → sum < 256
    → i + rounds ≤ 2 ^ 31
    → pointer + i + rounds ≤ 2 ^ 64
    → sum_char rounds memory pointer i sum ≡ (sum + byte_sum rounds memory (pointer + i)) % 256
unfolding sum_char byte_sum
sum_char-byte_sum zero memory pointer i sum lt small inside = omega arith
sum_char-byte_sum (suc rounds) memory pointer i sum lt small inside =
    let e : pointer + (i + 1) ≡ pointer + i + 1 = omega arith in
    let at : byte_address pointer i ≡ pointer + i =
      byte_address-add pointer i (omega arith) (omega arith) in
    rw at (
      sum_char-byte_sum rounds memory pointer (i + 1) ((sum + memory (pointer + i)) % 2 ^ 8)
        (omega arith) (omega arith) (omega arith)
      ∙ rw e (omega arith))

-- Of a table with fewer than 2^31 bytes that ends in the address space, the checksum is the sum of
-- its bytes modulo 256, and so are those of the two root pointers with their 20 and 36 bytes.
validate-byte_sum :
    (memory : ℕ → ℕ) (a : ℕ)
    → sdt_length memory a < 2 ^ 31
    → a + sdt_length memory a ≤ 2 ^ 64
    → (validate_rsdt_pointer memory a ≡ byte_sum 20 memory a % 256)
      × (validate_xsdt_pointer memory a ≡ byte_sum 36 memory a % 256)
      × (validate_sdt memory a ≡ byte_sum (sdt_length memory a) memory a % 256)
unfolding validate_rsdt_pointer validate_xsdt_pointer validate_sdt
validate-byte_sum memory a small inside =
    let start : a + 0 ≡ a = omega arith in
    (
      bit_and-low_mask 8 (sum_int 20 memory a 0 0)
          ∙ sum_int-byte_sum 20 memory a 0 0
          ∙ rw start (omega arith),
      bit_and-low_mask 8 (sum_int 36 memory a 0 0)
          ∙ sum_int-byte_sum 36 memory a 0 0
          ∙ rw start (omega arith),
      sum_char-byte_sum (sdt_length memory a) memory a 0 0 (omega arith) (omega arith) (omega arith)
          ∙ rw start (omega arith),
    )

-- One byte of memory has another value.
abbrev pub change_byte : ℕ → ℕ → (ℕ → ℕ) → ℕ → ℕ
change_byte at value memory a = if a == at then value else memory a

change_byte_ne :
    (at value : ℕ) (memory : ℕ → ℕ) (a : ℕ) → a ≢ at → change_byte at value memory a ≡ memory a
change_byte_ne at value memory a other = ground arith

byte_sum-outside :
    (size at value : ℕ) (memory : ℕ → ℕ) (a : ℕ)
    → at < a
    → byte_sum size (change_byte at value memory) a ≡ byte_sum size memory a
unfolding byte_sum
byte_sum-outside zero at value memory a before = refl
byte_sum-outside (suc size) at value memory a before = omega (
  arith,
  change_byte_ne at value memory a (λ e. absurd (omega arith)),
  byte_sum-outside size at value memory (a + 1) (omega arith),
)

byte_sum-change :
    (size at value : ℕ) (memory : ℕ → ℕ) (a : ℕ)
    → a ≤ at
    → at < a + size
    → byte_sum size (change_byte at value memory) a + memory at ≡ byte_sum size memory a + value
unfolding byte_sum
byte_sum-change zero at value memory a from to = absurd (omega arith)
byte_sum-change (suc size) at value memory a from to = elim (Bool-cases (a == at)) [
  | inl here ↦
      let e : a ≡ at = (==_iff a at).0 here in
      let new : change_byte at value memory a ≡ value = ground arith in
      omega (arith, new, ap memory e, byte_sum-outside size at value memory (a + 1) (omega arith))
  | inr other ↦
      let ne : a ≢ at = ground arith in
      omega (
        arith,
        change_byte_ne at value memory a ne,
        byte_sum-change size at value memory (a + 1) (omega (arith, ne)) (omega arith),
      )
]

-- A table of fewer than 2^31 bytes in the address space whose checksum is right, and in which one
-- byte, not one of its length, gets another value, is found to be invalid.
pub validate_sdt-detects :
    (memory : ℕ → ℕ) (a at value : ℕ)
    → sdt_length memory a < 2 ^ 31
    → a + sdt_length memory a ≤ 2 ^ 64
    → validate_sdt memory a ≡ 0
    → a ≤ at
    → at < a + sdt_length memory a
    → (at < a + 4) ⊎ (a + 8 ≤ at)
    → memory at < 256
    → value < 256
    → value ≢ memory at
    → validate_sdt (change_byte at value memory) a ≢ 0
validate_sdt-detects memory a at value small inside valid from to apart old new ne =
    let changed = change_byte at value memory in
    let same : sdt_length changed a ≡ sdt_length memory a =
      load-agrees 4 changed memory (a + 4)
        (λ k h. change_byte_ne at value memory (a + 4 + k) (outside a at apart k h)) in
    let before : validate_sdt memory a ≡ byte_sum (sdt_length memory a) memory a % 256 =
      (validate-byte_sum memory a small inside).2 in
    let after : validate_sdt changed a ≡ byte_sum (sdt_length memory a) changed a % 256 =
      (validate-byte_sum changed a (omega arith) (omega arith)).2
      ∙ ap (λ (n : ℕ). byte_sum n changed a % 256) same in
    λ zero. ne (omega (arith, byte_sum-change (sdt_length memory a) at value memory a from to))
  where
    outside : (a at : ℕ) → (at < a + 4) ⊎ (a + 8 ≤ at) → (k : ℕ) → k < 4 → a + 4 + k ≢ at
    outside a at (inl before) k h e = absurd (omega arith)
    outside a at (inr behind) k h e = absurd (omega arith)
