-- ===== src/Console/Stays.antt =====
-- Printing within a row: the cursor, the line and the scroll position.
use kokos.Shared.{
  ℕ, zero, suc, ◌+◌, ◌%◌, ◌^◌, ◌≤◌, ◌<◌, ◌≡◌, refl, ◌∙◌, ◌≢◌, inl, inr, false, List, [], ◌∷◌, ok,
  arith, leb, ◌==◌, Bool-cases, get_or, length,
}
use kokos.Console.Defs.{buffer_width, Console, print_char, print}
use kokos.Console.Cursor.{
  IsCursor, with_char, with_char_same, put_char-ok, move_right, print_char_other, print_more,
}

pub record Stays (n : ℕ) (c c' : Console) : Type 0 where
  pub right : c'.x ≡ c.x + n
  pub same_y : c'.y ≡ c.y
  pub same_scroll : c'.scroll ≡ c.scroll

pub Stays-IsCursor :
    {n : ℕ} {c c' : Console} → Stays n c c' → IsCursor c → c.x + n < buffer_width → IsCursor c'
Stays-IsCursor s v h = record {
  in_row = omega (arith, s.right);
  in_history = omega (arith, v.in_history, s.same_y);
  room = omega (arith, v.room, s.same_scroll);
}

print_char-Stays :
    (char : ℕ) (c : Console)
    → IsCursor c
    → char ≢ b'\n'
    → c.x + 1 < buffer_width
    → (c' : Console) × (print_char char c ≡ ok c') × Stays 1 c c'
print_char-Stays char c v ne h =
    let (same_x, same_y, same_scroll) = with_char_same char c in
    let other : (char == b'\n') ≡ false = ground arith in
    let more : leb buffer_width (((with_char char c).x + 1) % 2 ^ 32) ≡ false = ground arith in
    (
      move_right (with_char char c),
      print_char_other char c other (put_char-ok char c v) ∙ rw more refl,
      record { right = omega (arith, same_x); same_y = same_y; same_scroll = same_scroll },
    )

-- A string of at most `n` characters, none of them the end of a line, that fits in the row.
pub print-Stays :
    (str : List ℕ) (n : ℕ) (c : Console)
    → n < length str
    → get_or str n 0 ≡ 0
    → ((k : ℕ) → k < n → get_or str k 0 ≢ b'\n')
    → c.x + n < buffer_width
    → IsCursor c
    → (m : ℕ) × (c' : Console) × (print str c ≡ ok c') × (m ≤ n) × Stays m c c'
unfolding print
print-Stays [] n c h e ne fits v = absurd (omega arith)
print-Stays (char ∷ str) zero c h e ne fits v = (
  0,
  c,
  rw e refl,
  omega arith,
  record { right = omega arith; same_y = refl; same_scroll = refl },
)
print-Stays (char ∷ str) (suc n) c h e ne fits v = elim (Bool-cases (char == 0)) [
  | inl end ↦ (
    0,
    c,
    rw (end, print) refl,
    omega arith,
    record { right = omega arith; same_y = refl; same_scroll = refl },
  )
  | inr more ↦
      let (a, run, s) = print_char-Stays char c v (ne 0 (omega arith)) (omega arith) in
      let (m, c', rest, le, t) =
        print-Stays str n a (omega arith) e (λ k q. ne (suc k) (omega arith))
          (omega (arith, s.right)) (Stays-IsCursor s v (omega arith)) in
      (
        suc m,
        c',
        print_more char str c more run ∙ rest,
        omega arith,
        record {
          right = omega (arith, s.right, t.right);
          same_y = t.same_y ∙ s.same_y;
          same_scroll = t.same_scroll ∙ s.same_scroll;
        },
      )
]
