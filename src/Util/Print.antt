-- ===== src/Util/Print.antt =====
-- The conversions as a whole: the text of a number, and reading it.
use kokos.Shared.{
  ℕ, zero, suc, ◌+◌, ◌-◌, ◌*◌, ◌/◌, ◌%◌, ◌^◌, ◌≤◌, ◌<◌, ◌≡◌, refl, sym, ap, ◌∙◌, ◌⊎◌, false, List,
  ok, ◌>>=◌, write-ok, length, length-set, set, get_or, get_or-set, arith, leb, ◌==◌, if◌then◌else◌,
}
use native.Mathlib.Nat.{pow-suc, pow-zero, div-eq_of_lt, div-div-eq-div-mul, div-add-mod', mod-lt}
use kokos.Util.Numbers.{digit_char, digits_loop, finish, string_from_unsigned}
use kokos.Util.Digits.{digits_loop-Digits}
use kokos.Util.Reverse.{mirror, string_reverse-Mirrors}

-- The value of a digit's character, and of the first `n` characters of a text.
unfoldable pub digit_value : ℕ → ℕ
digit_value c = if leb c b'9' then c - b'0' else c - b'A' + 10

unfoldable pub text_value : ℕ → List ℕ → ℕ → ℕ
text_value base text zero = 0
text_value base text (suc n) = text_value base text n * base + digit_value (get_or text n 0)

digit_value-digit_char : (d : ℕ) → d < 36 → digit_value (digit_char d) ≡ d
unfolding digit_value digit_char
digit_value-digit_char d h = ground arith

-- The text of `num` in its first `count` bytes, the highest digit first, and a zero byte behind.
pub record IsText (base num count : ℕ) (text : List ℕ) : Type 0 where
  pub some_digit : 0 < count
  pub enough : num < base ^ count
  pub no_leading_zero : (count ≡ 1) ⊎ (base ^ (count - 1) ≤ num)
  pub digit :
      (k : ℕ) → k < count → get_or text (count - 1 - k) 0 ≡ digit_char (num / base ^ k % base)
  pub inside : count < length text
  pub ended : get_or text count 0 ≡ 0

-- The first `n` characters stand for the number without its last `count - n` digits.
text_value_prefix :
    (base num count n : ℕ) (text : List ℕ)
    → 1 < base
    → base ≤ 36
    → IsText base num count text
    → n ≤ count
    → text_value base text n ≡ num / base ^ (count - n)
unfolding text_value
text_value_prefix base num count zero text lo hi t h =
    let all : count - 0 ≡ count = omega arith in rw all (sym (div-eq_of_lt t.enough))
text_value_prefix base num count (suc n) text lo hi t h =
    let k : ℕ = count - suc n in
    let last : get_or text n 0 ≡ digit_char (num / base ^ k % base) =
      ap (λ j. get_or text j 0) (omega arith) ∙ t.digit k (omega arith) in
    let one : digit_value (get_or text n 0) ≡ num / base ^ k % base =
      ap digit_value last
      ∙ digit_value-digit_char _
          (omega (arith, mod-lt (num / base ^ k) {m = base} (omega arith))) in
    let up : num / base ^ (count - n) ≡ num / base ^ k / base =
      ap (λ (e : ℕ). num / base ^ e) (omega arith)
      ∙ ap (λ (e : ℕ). num / e) (pow-suc base k)
      ∙ sym (div-div-eq-div-mul num (base ^ k) base) in
    rw (text_value_prefix base num count n text lo hi t (omega arith), one, up)
      (div-add-mod' (num / base ^ k) base)

-- Reading the text of a number gives the number back.
pub text_value-IsText :
    (base num count : ℕ) (text : List ℕ)
    → 1 < base
    → base ≤ 36
    → IsText base num count text
    → text_value base text count ≡ num
text_value-IsText base num count text lo hi t =
    text_value_prefix base num count count text lo hi t (omega arith)
    ∙ ap (λ (e : ℕ). num / base ^ e) (omega arith)
    ∙ ap (λ (e : ℕ). num / e) (pow-zero base)
    ∙ omega arith

-- The reversal and the end of the string, behind the loop.
finish-Mirrors :
    (written : List ℕ) (count : ℕ)
    → count < length written
    → (text : List ℕ) × (finish written count ≡ ok (text, count))
      × ((k : ℕ) → k < count → get_or text (count - 1 - k) 0 ≡ get_or written k 0)
      × (get_or text count 0 ≡ 0)
      × (count < length text)
unfolding finish
finish-Mirrors written count h =
    let (reversed, run, m) = string_reverse-Mirrors written count (omega arith) in
    let room : count < length reversed = omega (arith, m.same_length) in
    (
      set reversed count 0,
      rw (run, ◌>>=◌, write-ok reversed count 0 room) refl,
      (λ k lt.
          ground (arith, get_or-set reversed count (count - 1 - k) 0 0 room, m.byte (count - 1 - k))
          ∙ ap (λ j. get_or written j 0) (back k lt)),
      ground (arith, get_or-set reversed count count 0 0 room),
      omega (arith, length-set reversed count 0),
    )
  where
    back : (k : ℕ) → k < count → mirror count 0 (count - 1 - k) ≡ k
    back k lt = ground arith

string_from_unsigned_run :
    (width : ℕ) (destination : List ℕ) (num base : ℕ) {written : List ℕ} {i : ℕ}
    → 1 < base
    → digits_loop digit_char base (width + 1) destination 0 num ≡ ok (written, i)
    → string_from_unsigned width destination num base ≡ finish written i
unfolding string_from_unsigned
string_from_unsigned_run width destination num base lo run =
    let some_base : (base == 0) ≡ false = ground arith in
    rw (some_base, string_from_unsigned) (rw (run, ◌>>=◌) refl)

-- In a base from 2 to 36, a number of at most `room + 1` digits, with `room` at most the width, is
-- converted into a buffer of more than `room + 1` bytes without a fault: the result is its digits,
-- the highest first and with no leading zero, with a zero byte behind, of at most `room + 1`
-- characters, and reading it gives the number back.
pub string_from_unsigned-IsText :
    (width room : ℕ) (destination : List ℕ) (num base : ℕ)
    → 1 < base
    → base ≤ 36
    → num < base ^ suc room
    → room ≤ width
    → suc room < length destination
    → (text : List ℕ) × (count : ℕ) × (string_from_unsigned width destination num base
        ≡ ok (text, count))
      × (count ≤ suc room)
      × IsText base num count text
      × (text_value base text count ≡ num)
string_from_unsigned-IsText width room destination num base lo hi fits enough space =
    let (written, count, run, le, d) =
      digits_loop-Digits digit_char base room (width + 1) destination 0 num lo fits (omega arith)
        (omega arith) in
    let (text, done, digits, end, room) =
      finish-Mirrors written count (omega (arith, d.same_length)) in
    let is : IsText base num count text = record {
      some_digit = d.some_digit;
      enough = d.enough;
      no_leading_zero = d.no_more;
      digit = λ k lt. digits k lt ∙ ap (λ j. get_or written j 0) (omega arith) ∙ d.digit k lt;
      inside = room;
      ended = end;
    } in
    (
      text,
      count,
      string_from_unsigned_run width destination num base lo run
          ∙ ap (finish written) (omega arith)
          ∙ done,
      le,
      is,
      text_value-IsText base num count text lo hi is,
    )
