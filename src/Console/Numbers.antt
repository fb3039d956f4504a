-- ===== src/Console/Numbers.antt =====
-- `console_print_u32`, `console_print_u64` and their kin, and `console_format`. The array on the
-- stack is given by its bytes.
use kokos.Shared.{ℕ, ◌^◌, ◌≤◌, ◌<◌, ◌≡◌, List, Outcome, ok, ◌>>=◌, arith, length}
use native.Mathlib.Nat.{pow-le-pow_left}
use kokos.Util.Numbers.{
  string_from_unsigned, string_from_u32, string_from_u64, string_from_i32, string_from_i64,
}
use kokos.Util.Format.{string_format_args}
use kokos.Util.Print.{IsText, string_from_unsigned-IsText}
use kokos.Console.Defs.{Console, print}
use kokos.Console.Cursor.{IsCursor, Returns, print-IsCursor}

unfoldable pub print_u32 : List ℕ → ℕ → ℕ → Console → Outcome Console
print_u32 dest num base c = string_from_u32 dest num base >>= λ (text, _). print text c

unfoldable pub print_u64 : List ℕ → ℕ → ℕ → Console → Outcome Console
print_u64 dest num base c = string_from_u64 dest num base >>= λ (text, _). print text c

unfoldable pub print_i32 : List ℕ → ℕ → ℕ → Console → Outcome Console
print_i32 dest num base c = string_from_i32 dest num base >>= λ (text, _). print text c

unfoldable pub print_i64 : List ℕ → ℕ → ℕ → Console → Outcome Console
print_i64 dest num base c = string_from_i64 dest num base >>= λ (text, _). print text c

-- `dest` has 256 bytes. Nothing ends the text in it: `print` reads on in what was there.
unfoldable pub console_format : ℕ → List ℕ → List ℕ → List ℕ → Console → Outcome Console
console_format rounds dest format args c =
    string_format_args rounds dest format args >>= λ text. print text c

-- A text in its array is printed.
print_text :
    {base num count : ℕ} {text : List ℕ} (r : Outcome (List ℕ × ℕ)) (c : Console)
    → r ≡ ok (text, count)
    → IsText base num count text
    → IsCursor c
    → Returns (r >>= λ (text, _). print text c)
print_text {count} {text} r c run is v =
    let (c', printed, w) = print-IsCursor text count c is.inside is.ended v in
    (c', rw (run, ◌>>=◌) printed, w)

module _ (dest : List ℕ) (num base : ℕ) (c : Console) (lo : 1 < base) (hi : base ≤ 36)
    (v : IsCursor c) where
  -- With the cursor in the history, the 33 bytes of the array are enough to print every 32-bit
  -- number in every base from 2 to 36, and the call returns with the cursor in the history.
  pub print_u32-IsCursor : length dest ≡ 33 → num < 2 ^ 32 → Returns (print_u32 dest num base c)
  unfolding print_u32 string_from_u32
  print_u32-IsCursor size fits =
      let (text, count, run, le, is, _) =
        string_from_unsigned-IsText 32 31 dest num base lo hi
          (omega (arith, fits, pow-le-pow_left {n = 2} {m = base} lo 32)) (omega arith)
          (omega arith) in
      print_text (string_from_unsigned 32 dest num base) c run is v

  -- With the cursor in the history, the 65 bytes of the array are enough to print every 64-bit
  -- number in every base from 2 to 36, and the call returns with the cursor in the history.
  print_u64-IsCursor : length dest ≡ 65 → num < 2 ^ 64 → Returns (print_u64 dest num base c)
  unfolding print_u64 string_from_u64
  print_u64-IsCursor size fits =
      let (text, count, run, le, is, _) =
        string_from_unsigned-IsText 64 63 dest num base lo hi
          (omega (arith, fits, pow-le-pow_left {n = 2} {m = base} lo 64)) (omega arith)
          (omega arith) in
      print_text (string_from_unsigned 64 dest num base) c run is v
