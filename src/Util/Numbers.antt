-- ===== src/Util/Numbers.antt =====
-- `string_from_u32`, `string_from_u64`, `string_from_i32` and `string_from_i64`. The destination is
-- the list of its bytes, and a write behind its end is a fault. A signed number is given by its bit
-- pattern.
use kokos.Shared.{
  ℕ, zero, suc, ◌+◌, ◌-◌, ◌/◌, ◌%◌, ◌^◌, Bool, true, false, List, Outcome, ok, fault, spin, ◌>>=◌,
  write, ltb, leb, ◌==◌, if◌then◌else◌,
}
use kokos.Util.Strings.{string_reverse}

-- `digit > 9 ? 'A' + digit - 10 : '0' + digit`, as a `char`
unfoldable pub digit_char : ℕ → ℕ
digit_char digit = if ltb 9 digit then (b'A' + digit - 10) % 256 else b'0' + digit

-- The same expression for the digit `-digit`, which is at most 0.
unfoldable pub negative_char : ℕ → ℕ
negative_char digit = (b'0' + 256 - digit) % 256

-- The `do … while` loop. `char_of` gives the character of `num % base`.
unfoldable pub digits_loop : (ℕ → ℕ) → ℕ → ℕ → List ℕ → ℕ → ℕ → Outcome (List ℕ × ℕ)
digits_loop char_of base zero destination i num = spin
digits_loop char_of base (suc rounds) destination i num =
    write destination i (char_of (num % base)) >>= λ destination'. elim (num / base == 0) [
      | true ↦ ok (destination', i + 1)
      | false ↦ digits_loop char_of base rounds destination' (i + 1) (num / base)
    ]

-- `string_reverse(destination, i); destination[i] = '\0'; return i;`
unfoldable pub finish : List ℕ → ℕ → Outcome (List ℕ × ℕ)
finish destination i = do
  reversed ← string_reverse destination i
  ended ← write reversed i 0
  ok (ended, i)

-- A division by zero is a fault.
unfoldable pub string_from_unsigned : ℕ → List ℕ → ℕ → ℕ → Outcome (List ℕ × ℕ)
unfolding digits_loop finish
string_from_unsigned width destination num base = elim (base == 0) [
  | true ↦ fault
  | false ↦
      digits_loop digit_char base (width + 1) destination 0 num >>= λ (written, i). finish written i
]

unfoldable pub string_from_u32 : List ℕ → ℕ → ℕ → Outcome (List ℕ × ℕ)
unfolding string_from_unsigned
string_from_u32 = string_from_unsigned 32

unfoldable pub string_from_u64 : List ℕ → ℕ → ℕ → Outcome (List ℕ × ℕ)
unfolding string_from_unsigned
string_from_u64 = string_from_unsigned 64

-- `-num` of the least number is that number: its digits stay negative.
abbrev pub is_negative : ℕ → ℕ → Bool
is_negative width num = leb (2 ^ (width - 1)) num

abbrev pub magnitude : ℕ → ℕ → ℕ
magnitude width num = if is_negative width num then 2 ^ width - num else num

abbrev pub signed_digit_char : ℕ → ℕ → ℕ → ℕ
signed_digit_char width num = if num == 2 ^ (width - 1) then negative_char else digit_char

unfoldable pub add_sign : Bool → List ℕ → ℕ → Outcome (List ℕ × ℕ)
add_sign true destination i = write destination i b'-' >>= λ destination'. ok (destination', i + 1)
add_sign false destination i = ok (destination, i)

unfoldable pub string_from_signed : ℕ → List ℕ → ℕ → ℕ → Outcome (List ℕ × ℕ)
unfolding digits_loop add_sign finish
string_from_signed width destination num base = elim (base == 0) [
  | true ↦ fault
  | false ↦ do
    (written, i) ←
        digits_loop (signed_digit_char width num) base (width + 1) destination 0
          (magnitude width num)
    (signed, i') ← add_sign (is_negative width num) written i
    finish signed i'
]

unfoldable pub string_from_i32 : List ℕ → ℕ → ℕ → Outcome (List ℕ × ℕ)
unfolding string_from_signed
string_from_i32 = string_from_signed 32

unfoldable pub string_from_i64 : List ℕ → ℕ → ℕ → Outcome (List ℕ × ℕ)
unfolding string_from_signed
string_from_i64 = string_from_signed 64
