-- ===== src/Util/Plain.antt =====
-- `string_format` of a text without directives.
use kokos.Shared.{
  ℕ, zero, suc, ◌≤◌, ◌<◌, ◌≡◌, ◌≢◌, refl, List, [], ◌∷◌, ◌++◌, ok, ◌>>=◌, arith, false, ◌==◌,
  length, drop,
}
use kokos.Util.Format.{format_loop, copy_char, string_format}

-- Characters of a format that are copied.
pub data IsPlain : List ℕ → Type 0 where
  none : IsPlain []
  plain : {c : ℕ} {text : List ℕ} → c ≢ 0 → c ≢ b'%' → IsPlain text → IsPlain (c ∷ text)

format_loop-plain :
    (rounds : ℕ) (text behind destination args : List ℕ)
    → IsPlain text
    → length text < rounds
    → length text ≤ length destination
    → format_loop rounds destination (text ++ 0 ∷ behind) args
      ≡ ok (text ++ drop (length text) destination)
unfolding format_loop copy_char
format_loop-plain zero text behind destination args is enough room = absurd (omega arith)
format_loop-plain (suc rounds) [] behind destination args none enough room = refl
format_loop-plain (suc rounds) (c ∷ text) behind [] args (plain n0 np is) enough room =
    absurd (omega arith)
format_loop-plain (suc rounds) (c ∷ text) behind (d ∷ destination) args (plain n0 np is) enough
      room =
    let more : (c == 0) ≡ false = ground arith in
    let copied : (c == b'%') ≡ false = ground arith in
    rw
      (
        format_loop,
        more,
        copied,
        ◌>>=◌,
        format_loop-plain rounds text behind destination args is (omega arith) (omega arith),
      )
      refl

-- With room for it and more rounds than characters, a text without zero bytes and `%` is copied,
-- and the bytes of the destination behind it stay as they were.
pub string_format-plain :
    (rounds : ℕ) (text behind destination args : List ℕ)
    → IsPlain text
    → length text < rounds
    → length text ≤ length destination
    → string_format rounds destination (text ++ 0 ∷ behind) args
      ≡ ok (text ++ drop (length text) destination)
unfolding string_format
string_format-plain = format_loop-plain
