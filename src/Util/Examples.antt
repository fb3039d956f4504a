-- ===== src/Util/Examples.antt =====
-- The theorems about util.c at small texts and numbers, and tests of the operations.
use kokos.Shared.{
  ℕ, ◌-◌, read, write, ◌^◌, ◌≤◌, ◌≡◌, refl, List, [], ◌∷◌, ok, fault, arith, ◌↔◌, ◌++◌, drop,
}
use kokos.Shared.Int.{ℤ, pos, ◌-ℤ◌}
use kokos.Util.Strings.{string_length, string_compare, string_reverse}
use kokos.Util.Numbers.{
  string_from_u32, digit_char, negative_char, string_from_unsigned, string_from_i32,
}
use kokos.Util.Compare.{none, char, ended, string_compare_iff}
use kokos.Util.Format.{string_format, parse_directive, convert}
use kokos.Util.Plain.{IsPlain, plain, string_format-plain}
use kokos.Util.Print.{text_value, IsText, string_from_unsigned-IsText}

abbrev four_bytes : List ℕ
four_bytes = 0 ∷ 0 ∷ 0 ∷ 0 ∷ []

abbrev twelve_bytes : List ℕ
twelve_bytes = 9 ∷ 9 ∷ 9 ∷ 9 ∷ 9 ∷ 9 ∷ 9 ∷ 9 ∷ 9 ∷ 9 ∷ 9 ∷ 9 ∷ []

string_reverse_test : string_reverse (1 ∷ 2 ∷ 3 ∷ 4 ∷ []) 3 ≡ ok (3 ∷ 2 ∷ 1 ∷ 4 ∷ [])
unfolding string_reverse read write
string_reverse_test = refl

string_length_test : string_length (b'a' ∷ b'b' ∷ 0 ∷ []) ≡ ok 2
unfolding string_length
string_length_test = refl

string_compare_test : string_compare (b'a' ∷ 0 ∷ []) (b'b' ∷ 0 ∷ []) ≡ ok (pos 1)
unfolding string_compare ◌-ℤ◌
string_compare_test = refl

string_from_i32_test :
    string_from_i32 four_bytes (2 ^ 32 - 12) 10 ≡ ok (b'-' ∷ b'1' ∷ b'2' ∷ 0 ∷ [], 3)
unfolding string_from_i32 string_reverse read write digit_char negative_char
string_from_i32_test = refl

-- Of the least number the digits are taken from the characters below `'0'`, and with the sign and
-- the end it needs 12 bytes.
least_number_test :
    string_from_i32 twelve_bytes (2 ^ 31) 10
    ≡ ok (b'-' ∷ 46 ∷ 47 ∷ 44 ∷ 41 ∷ 44 ∷ 40 ∷ 45 ∷ 42 ∷ 44 ∷ 40 ∷ 0 ∷ [], 11)
unfolding string_from_i32 string_reverse read write digit_char negative_char
least_number_test = refl

string_from_unsigned-IsText_example :
    (text : List ℕ) × (count : ℕ) × (string_from_unsigned 32 four_bytes 255 16 ≡ ok (text, count))
    × (count ≤ 2)
    × IsText 16 255 count text
    × (text_value 16 text count ≡ 255)
string_from_unsigned-IsText_example =
    string_from_unsigned-IsText 32 1 four_bytes 255 16 (omega arith) (omega arith) (omega arith)
      (omega arith) (omega arith)

string_compare_iff_example :
    (r : ℤ) × (string_compare (ended (b'a' ∷ []) []) (ended (b'b' ∷ []) []) ≡ ok r)
    × ((r ≡ pos 0) ↔ (◌≡◌ {A = List ℕ} (b'a' ∷ []) (b'b' ∷ [])))
string_compare_iff_example =
    string_compare_iff (b'a' ∷ []) (b'b' ∷ []) [] [] (char (omega arith) (omega arith) none)
      (char (omega arith) (omega arith) none)

string_format-plain_example :
    string_format 3 four_bytes ((b'h' ∷ b'i' ∷ []) ++ 0 ∷ []) []
    ≡ ok ((b'h' ∷ b'i' ∷ []) ++ drop 2 four_bytes)
string_format-plain_example =
    string_format-plain 3 (b'h' ∷ b'i' ∷ []) [] four_bytes []
      (plain (λ e. absurd (omega arith)) (λ e. absurd (omega arith))
        (plain (λ e. absurd (omega arith)) (λ e. absurd (omega arith)) IsPlain.none))
      (omega arith) (omega arith)

-- "%uhi" of 255, and "%" as the last character, behind which the loop reads on.
hexadecimal_test :
    string_format 9 four_bytes (b'%' ∷ b'u' ∷ b'h' ∷ b'i' ∷ 0 ∷ []) (255 ∷ [])
    ≡ ok (b'F' ∷ b'F' ∷ 0 ∷ 0 ∷ [])
unfolding string_format parse_directive convert string_reverse read write digit_char string_from_u32
hexadecimal_test = refl

percent_test : string_format 9 four_bytes (b'%' ∷ 0 ∷ []) [] ≡ fault
unfolding string_format parse_directive convert
percent_test = refl
