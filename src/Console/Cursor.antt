-- ===== src/Console/Cursor.antt =====
-- Printing from a console whose cursor is in the history.
use kokos.Shared.{
  ℕ, zero, suc, ◌+◌, ◌-◌, ◌*◌, ◌%◌, ◌^◌, ◌≤◌, ◌<◌, ◌≡◌, refl, ◌∙◌, inl, inr, true, false, ◌&&◌,
  List, [], ◌∷◌, Outcome, ok, ◌>>=◌, arith, ltb, leb, ◌==◌, Bool-cases, if◌then◌else◌, get_or,
  length,
}
use kokos.Console.Defs.{
  visible_height, buffer_width, buffer_height, history_size, VideoChar, Console, update,
  update_screen, console_clear, new_line, put_char, print_char, print,
}
use kokos.Console.Screen.{Shows, update_screen-Shows}
use kokos.Console.Clear.{console_clear-IsCleared}

pub record IsCursor (c : Console) : Type 0 where
  pub in_row : c.x < buffer_width
  pub in_history : c.y < buffer_height
  pub room : c.scroll + visible_height ≤ buffer_height

-- The call returns with the cursor in the history.
abbrev pub Returns : Outcome Console → Type 0
Returns r = (c : Console) × (r ≡ ok c) × IsCursor c

Shows-IsCursor : {a b : ℕ} {c c' : Console} → Shows a b c c' → IsCursor c → IsCursor c'
Shows-IsCursor s v = record {
  in_row = omega (arith, v.in_row, s.same_x);
  in_history = omega (arith, v.in_history, s.same_y);
  room = omega (arith, v.room, s.same_scroll);
}

-- What `new_line` does behind its test for the end of the history.
unfoldable end_line : Console → Outcome Console
end_line c =
    let home : Console = record c { x = 0 } in
    if leb (c.scroll + visible_height) c.y && ltb c.scroll (buffer_height - 1)
    then update_screen (record home { scroll = c.scroll + 1 })
    else ok home

end_line-IsCursor :
    (c : Console)
    → c.y < buffer_height
    → c.scroll + visible_height ≤ buffer_height
    → Returns (end_line c)
unfolding end_line
end_line-IsCursor c h r =
    elim (Bool-cases (leb (c.scroll + visible_height) c.y && ltb c.scroll (buffer_height - 1))) [
      | inl down ↦
          let moved : Console = record c { x = 0; scroll = c.scroll + 1 } in
          let valid : IsCursor moved = record {
            in_row = omega arith;
            in_history = h;
            room = ground arith;
          } in
          let (c', run, s) = update_screen-Shows moved valid.room in
          (c', rw (down) run, Shows-IsCursor s valid)
      | inr stay ↦ (
        record c { x = 0 },
        rw stay refl,
        record { in_row = omega arith; in_history = h; room = r },
      )
    ]

new_line_clear :
    (c : Console) {c' : Console}
    → leb buffer_height ((c.y + 1) % 2 ^ 32) ≡ true
    → console_clear (record c { y = (c.y + 1) % 2 ^ 32 }) ≡ ok c'
    → new_line c ≡ end_line c'
unfolding new_line end_line
new_line_clear c full run = rw (full, run, ◌>>=◌) refl

new_line_next :
    (c : Console)
    → leb buffer_height ((c.y + 1) % 2 ^ 32) ≡ false
    → new_line c ≡ end_line (record c { y = (c.y + 1) % 2 ^ 32 })
unfolding new_line end_line
new_line_next c room = rw (room, ◌>>=◌) refl

-- From a cursor on the last line the console is cleared; else it goes to the next line, and the
-- screen goes down by one line if it is below.
pub new_line-IsCursor :
    (c : Console)
    → c.y < buffer_height
    → c.scroll + visible_height ≤ buffer_height
    → Returns (new_line c)
new_line-IsCursor c h r = elim (Bool-cases (leb buffer_height ((c.y + 1) % 2 ^ 32))) [
  | inl full ↦
      let (a, run, z) = console_clear-IsCleared (record c { y = (c.y + 1) % 2 ^ 32 }) in
      let (c', end, v) = end_line-IsCursor a (omega (arith, z.at_y)) (omega (arith, z.at_top)) in
      (c', new_line_clear c full run ∙ end, v)
  | inr room ↦
      let (c', end, v) = end_line-IsCursor (record c { y = (c.y + 1) % 2 ^ 32 }) (ground arith) r in
      (c', new_line_next c room ∙ end, v)
]

-- The cell that `put_char` writes, and the console that it leaves.
abbrev pub cell_of : ℕ → Console → VideoChar
cell_of char c = record { charater = char; color = c.current_console_color }

abbrev pub with_char : ℕ → Console → Console
with_char char c =
    if leb c.scroll c.y && ltb c.y (c.scroll + buffer_height)
    then record c {
      history = update c.history ((c.x + c.y * buffer_width) % 2 ^ 32) (cell_of char c);
      video_memory =
          update c.video_memory ((c.x + (c.y - c.scroll) * buffer_width) % 2 ^ 32) (cell_of char c);
    }
    else record c {
      history = update c.history ((c.x + c.y * buffer_width) % 2 ^ 32) (cell_of char c);
    }

pub put_char-ok : (char : ℕ) (c : Console) → IsCursor c → put_char char c ≡ ok (with_char char c)
unfolding put_char
put_char-ok char c v =
    let inside : ltb ((c.x + c.y * 80) % 2 ^ 32) history_size ≡ true =
      ground (arith, v.in_row, v.in_history) in
    rw (inside, ◌>>=◌) (ground arith)

pub with_char_same :
    (char : ℕ) (c : Console)
    → ((with_char char c).x ≡ c.x)
      × ((with_char char c).y ≡ c.y)
      × ((with_char char c).scroll ≡ c.scroll)
with_char_same char c = elim (Bool-cases (leb c.scroll c.y && ltb c.y (c.scroll + buffer_height))) [
  | inl e ↦ rw e (refl, refl, refl)
  | inr e ↦ rw e (refl, refl, refl)
]

abbrev pub move_right : Console → Console
move_right c = record c { x = (c.x + 1) % 2 ^ 32 }

pub print_char_other :
    (char : ℕ) (c : Console) {a : Console}
    → (char == b'\n') ≡ false
    → put_char char c ≡ ok a
    → print_char char c ≡ (
        if leb buffer_width ((a.x + 1) % 2 ^ 32)
        then new_line (move_right a)
        else ok (move_right a))
unfolding print_char
print_char_other char c other run = rw (other, run, ◌>>=◌) refl

print_char_line : (char : ℕ) (c : Console) → (char == b'\n') ≡ true → print_char char c ≡ new_line c
unfolding print_char
print_char_line char c line = rw line refl

-- Printing any character from a cursor in the history returns, with the cursor in the history.
pub print_char-IsCursor : (char : ℕ) (c : Console) → IsCursor c → Returns (print_char char c)
print_char-IsCursor char c v = elim (Bool-cases (char == b'\n')) [
  | inl line ↦
      let (c', run, w) = new_line-IsCursor c v.in_history v.room in
      (c', print_char_line char c line ∙ run, w)
  | inr other ↦
      let a : Console = with_char char c in
      let (same_x, same_y, same_scroll) = with_char_same char c in
      elim (Bool-cases (leb buffer_width ((a.x + 1) % 2 ^ 32))) [
        | inl end ↦
            let (c', run, w) =
              new_line-IsCursor (move_right a) (omega (arith, v.in_history, same_y))
                (omega (arith, v.room, same_scroll)) in
            (c', print_char_other char c other (put_char-ok char c v) ∙ rw end run, w)
        | inr more ↦ (
          move_right a,
          print_char_other char c other (put_char-ok char c v) ∙ rw more refl,
          record {
            in_row = ground arith;
            in_history = omega (arith, v.in_history, same_y);
            room = omega (arith, v.room, same_scroll);
          },
        )
      ]
]

pub print_more :
    (char : ℕ) (str : List ℕ) (c : Console) {a : Console}
    → (char == 0) ≡ false
    → print_char char c ≡ ok a
    → print (char ∷ str) c ≡ print str a
unfolding print
print_more char str c more run = rw (more, print) (rw (run, ◌>>=◌) refl)

-- From a console with its cursor in the history and room for a screen below the scroll position,
-- printing a string that has a zero byte returns, and the console is again such.
pub print-IsCursor :
    (str : List ℕ) (n : ℕ) (c : Console)
    → n < length str
    → get_or str n 0 ≡ 0
    → IsCursor c
    → Returns (print str c)
unfolding print
print-IsCursor [] n c h e v = absurd (omega arith)
print-IsCursor (char ∷ str) zero c h e v = (c, rw e refl, v)
print-IsCursor (char ∷ str) (suc n) c h e v = elim (Bool-cases (char == 0)) [
  | inl end ↦ (c, rw (end, print) refl, v)
  | inr more ↦
      let (a, run, w) = print_char-IsCursor char c v in
      let (c', rest, u) = print-IsCursor str n a (omega arith) e w in
      (c', print_more char str c more run ∙ rest, u)
]
