-- ===== src/Keyboard/Echo.antt =====
-- The code of the pressed key on the first line of the screen, and the keys for shift.
use kokos.Shared.{
  ℕ, zero, suc, ◌+◌, ◌-◌, ◌/◌, ◌%◌, ◌^◌, ◌≤◌, ◌<◌, ◌≡◌, refl, sym, ◌∙◌, ap, ◌≢◌, List, ok, ◌>>=◌,
  arith, get_or, length,
}
use native.Mathlib.Nat.{mod-lt}
use kokos.Util.Numbers.{digit_char, string_from_u32}
use kokos.Util.Print.{IsText, string_from_unsigned-IsText}
use kokos.Console.Defs.{Console, set_cursor, get_cursor}
use kokos.Console.Cursor.{IsCursor}
use kokos.Console.Stays.{Stays, Stays-IsCursor, print-Stays}
use kokos.Console.Numbers.{print_u32}
use kokos.Keyboard.Defs.{text, show_key}

digit_char_ne : (d : ℕ) → d < 36 → digit_char d ≢ b'\n'
unfolding digit_char
digit_char_ne d h e = ground arith

IsText-char :
    {num count : ℕ} {str : List ℕ}
    → IsText 16 num count str
    → (k : ℕ) → k < count
    → get_or str k 0 ≢ b'\n'
IsText-char {num} {count} {str} t k h e =
    digit_char_ne (num / 16 ^ (count - 1 - k) % 16)
      (omega (arith, mod-lt (num / 16 ^ (count - 1 - k)) {m = 16} (omega arith)))
      (sym (ap (λ i. get_or str i 0) (omega arith) ∙ t.digit (count - 1 - k) (omega arith)) ∙ e)

-- A number of one byte in base 16 has at most two digits.
print_u32-Stays :
    (dest : List ℕ) (num : ℕ) (c : Console)
    → length dest ≡ 33
    → num < 256
    → c.x + 2 < 80
    → IsCursor c
    → (m : ℕ) × (c' : Console) × (print_u32 dest num 16 c ≡ ok c') × (m ≤ 2) × Stays m c c'
unfolding print_u32 string_from_u32
print_u32-Stays dest num c size small fits v =
    let (str, count, run, le, is, _) =
      string_from_unsigned-IsText 32 1 dest num 16 (omega arith) (omega arith) (omega arith)
        (omega arith) (omega arith) in
    let (m, c', printed, short, s) =
      print-Stays str count c is.inside is.ended (IsText-char is) (omega arith) v in
    (m, c', rw (run, ◌>>=◌) printed, omega arith, s)

-- The bytes of a string constant hold no end of a line before the zero byte.
label_ne : (k : ℕ) → k < 6 → get_or (text "key=0x") k 0 ≢ b'\n'
label_ne zero h e = absurd (omega arith)
label_ne (suc zero) h e = absurd (omega arith)
label_ne (suc (suc zero)) h e = absurd (omega arith)
label_ne (suc (suc (suc zero))) h e = absurd (omega arith)
label_ne (suc (suc (suc (suc zero)))) h e = absurd (omega arith)
label_ne (suc (suc (suc (suc (suc zero))))) h e = absurd (omega arith)
label_ne (suc (suc (suc (suc (suc (suc k)))))) h e = absurd (omega arith)

-- The cursor and the scroll position are what they were.
pub record SameCursor (c c' : Console) : Type 0 where
  pub same_x : c'.x ≡ c.x
  pub same_y : c'.y ≡ c.y
  pub same_scroll : c'.scroll ≡ c.scroll

pub SameCursor-IsCursor : {c c' : Console} → SameCursor c c' → IsCursor c → IsCursor c'
SameCursor-IsCursor s v = record {
  in_row = omega (arith, v.in_row, s.same_x);
  in_history = omega (arith, v.in_history, s.same_y);
  room = omega (arith, v.room, s.same_scroll);
}

first_line-IsCursor : (c : Console) → IsCursor c → IsCursor (set_cursor 70 0 c)
unfolding set_cursor
first_line-IsCursor c v = record {
  in_row = omega arith;
  in_history = omega (arith, v.room);
  room = v.room;
}

back-SameCursor :
    (c a : Console)
    → IsCursor c
    → a.scroll ≡ c.scroll
    → SameCursor c (set_cursor (get_cursor c).0 (get_cursor c).1 a)
unfolding set_cursor get_cursor
back-SameCursor c a v e = record {
  same_x = refl;
  same_y = omega (arith, v.in_history, v.room);
  same_scroll = e;
}

at_first_line :
    (c : Console) → ((set_cursor 70 0 c).x ≡ 70) × ((set_cursor 70 0 c).scroll ≡ c.scroll)
unfolding set_cursor
at_first_line c = (refl, refl)

-- With an array of 33 bytes, a code of one byte and the cursor in the history, showing the code of
-- the key returns with the cursor and the scroll position as they were.
pub show_key-SameCursor :
    (dest : List ℕ) (input : ℕ) (c : Console)
    → length dest ≡ 33
    → input < 256
    → IsCursor c
    → (c' : Console) × (show_key dest input c ≡ ok c') × SameCursor c c'
unfolding show_key
show_key-SameCursor dest input c size small v =
    let start = first_line-IsCursor c v in
    let (x, s) = at_first_line c in
    let (n, a, run_a, le_a, sa) =
      print-Stays (text "key=0x") 6 (set_cursor 70 0 c) (omega arith) refl label_ne (omega arith)
        start in
    let (m, b, run_b, le_b, sb) =
      print_u32-Stays dest input a size small (omega (arith, sa.right))
        (Stays-IsCursor sa start (omega arith)) in
    (
      set_cursor (get_cursor c).0 (get_cursor c).1 b,
      rw (run_a, ◌>>=◌, run_b) refl,
      back-SameCursor c b v (sb.same_scroll ∙ sa.same_scroll ∙ s),
    )
