-- ===== src/Console/Clear.antt =====
-- `console_clear`, and `console_update_screen` behind the end of the history.
use kokos.Shared.{
  ℕ, zero, suc, ◌+◌, ◌*◌, ◌/◌, ◌%◌, ◌≤◌, ◌<◌, ◌≡◌, refl, ap, ◌∙◌, inl, inr, true, false, ok, fault,
  ◌>>=◌, arith, ltb, ◌==◌, Bool-cases, ==_iff,
}
use native.Mathlib.Decide.{dec_lt}
use kokos.Console.Defs.{
  visible_height, buffer_width, buffer_height, history_size, screen_size, VideoChar, blank, Console,
  update, copy_row, copy_rows, update_screen, clear_column, clear_columns, console_clear,
}
use kokos.Console.Screen.{copy_row-Shows, update_screen-Shows}

-- Cells of the history were blanked, and nothing else has changed.
pub record Blanks (c c' : Console) : Type 0 where
  pub same_color : c'.current_console_color ≡ c.current_console_color
  pub same_screen : c'.video_memory ≡ c.video_memory
  pub kept : (j : ℕ) → c.history j ≡ blank → c'.history j ≡ blank

Blanks-refl : (c : Console) → Blanks c c
Blanks-refl c = record { same_color = refl; same_screen = refl; kept = λ j h. h }

Blanks-trans : {a b c : Console} → Blanks a b → Blanks b c → Blanks a c
Blanks-trans f g = record {
  same_color = g.same_color ∙ f.same_color;
  same_screen = g.same_screen ∙ f.same_screen;
  kept = λ j h. g.kept j (f.kept j h);
}

Blanks-one : (i : ℕ) (c : Console) → Blanks c (record c { history = update c.history i blank })
Blanks-one i c = record { same_color = refl; same_screen = refl; kept = λ j h. ground arith }

clear_column-Blanks :
    (rounds ix iy : ℕ) (c : Console)
    → ix < buffer_width
    → iy + rounds ≤ buffer_height
    → (c' : Console) × (clear_column rounds ix iy c ≡ ok c')
      × Blanks c c'
      × ((k : ℕ) → iy ≤ k → k < iy + rounds → c'.history (ix + k * buffer_width) ≡ blank)
unfolding clear_column
clear_column-Blanks zero ix iy c h e = (c, refl, Blanks-refl c, λ k p q. absurd (omega arith))
clear_column-Blanks (suc rounds) ix iy c h e =
    let inside : ltb (ix + iy * 80) history_size ≡ true = ground arith in
    let one : Console = record c { history = update c.history (ix + iy * 80) blank } in
    let (c', run, rest, all) = clear_column-Blanks rounds ix (iy + 1) one h (omega arith) in
    (
      c',
      rw (inside, ◌>>=◌) run,
      Blanks-trans (Blanks-one (ix + iy * 80) c) rest,
      λ k p q. elim (Bool-cases (k == iy)) [
        | inl here ↦
            rest.kept (ix + k * 80) (let e : k ≡ iy = (==_iff k iy).0 here in rw e (ground arith))
        | inr other ↦ all k (ground arith) (omega arith)
      ],
    )

clear_columns-Blanks :
    (rounds ix : ℕ) (c : Console)
    → ix + rounds ≤ buffer_width
    → (c' : Console) × (clear_columns buffer_height rounds ix c ≡ ok c')
      × Blanks c c'
      × ((i k : ℕ)
          → ix ≤ i
          → i < ix + rounds
          → k < buffer_height
          → c'.history (i + k * buffer_width) ≡ blank)
unfolding clear_columns
clear_columns-Blanks zero ix c e = (c, refl, Blanks-refl c, λ i k p q r. absurd (omega arith))
clear_columns-Blanks (suc rounds) ix c e =
    let (a, run, column, here) =
      clear_column-Blanks buffer_height ix 0 c (omega arith) (omega arith) in
    let (c', rest_run, rest, all) = clear_columns-Blanks rounds (ix + 1) a (omega arith) in
    (
      c',
      rw (run, ◌>>=◌) rest_run,
      Blanks-trans column rest,
      λ i k p q r. elim (Bool-cases (i == ix)) [
        | inl same ↦
            rest.kept (i + k * 80)
              (let e : i ≡ ix = (==_iff i ix).0 same in rw e (here k (omega arith) (omega arith)))
        | inr other ↦ all i k (ground arith) (omega arith) r
      ],
    )

-- After `console_clear` every cell of the history and of the screen is blank, and the cursor and
-- the scroll position are 0.
pub record IsCleared (c c' : Console) : Type 0 where
  pub same_color : c'.current_console_color ≡ c.current_console_color
  pub at_x : c'.x ≡ 0
  pub at_y : c'.y ≡ 0
  pub at_top : c'.scroll ≡ 0
  pub no_history : (i : ℕ) → i < history_size → c'.history i ≡ blank
  pub no_screen : (i : ℕ) → i < screen_size → c'.video_memory i ≡ blank

-- `console_clear` returns from every console: every cell of the history and of the screen is then
-- blank, the cursor and the scroll position are 0, and the colour is kept.
pub console_clear-IsCleared :
    (c : Console) → (c' : Console) × (console_clear c ≡ ok c') × IsCleared c c'
unfolding console_clear
console_clear-IsCleared c =
    let (a, run, b, all) = clear_columns-Blanks 80 0 c (omega arith) in
    let (c', draw, s) = update_screen-Shows (record a { x = 0; y = 0; scroll = 0 }) (omega arith) in
    let blank_history : (i : ℕ) → i < 200000 → a.history i ≡ blank = λ i h.
      ap a.history (omega arith)
      ∙ all (i % 80) (i / 80) (omega arith) (omega arith) (omega arith) in
    (
      c',
      rw (run, ◌>>=◌) draw,
      record {
        same_color = s.same_color ∙ b.same_color;
        at_x = s.same_x;
        at_y = s.same_y;
        at_top = s.same_scroll;
        no_history = λ i h. ap (λ (f : ℕ → VideoChar). f i) s.same_history ∙ blank_history i h;
        no_screen = λ i h. ground (arith, s.cell i, blank_history (i + 0 * 80) (omega arith));
      },
    )

copy_row-fault :
    (rounds ix iy : ℕ) (c : Console)
    → buffer_height ≤ iy + c.scroll
    → copy_row (suc rounds) ix iy c ≡ fault
unfolding copy_row
copy_row-fault rounds ix iy c h =
    let outside : ltb (ix + (iy + c.scroll) * 80) history_size ≡ false = ground arith in
    rw (outside, ◌>>=◌) refl

module _ (rounds iy : ℕ) (c : Console) where
  copy_rows_first : buffer_height ≤ iy + c.scroll → copy_rows (suc rounds) iy c ≡ fault
  unfolding copy_rows
  copy_rows_first h = rw (copy_row-fault 79 0 iy c h, ◌>>=◌) refl

  copy_rows_next :
      {a : Console}
      → copy_row buffer_width 0 iy c ≡ ok a
      → copy_rows (suc rounds) iy c ≡ copy_rows rounds (iy + 1) a
  unfolding copy_rows
  copy_rows_next run = rw (run, ◌>>=◌) refl

copy_rows-fault :
    (rounds iy : ℕ) (c : Console)
    → iy + suc rounds ≡ visible_height
    → buffer_height < iy + suc rounds + c.scroll
    → copy_rows (suc rounds) iy c ≡ fault
copy_rows-fault zero iy c e h = copy_rows_first 0 iy c (omega arith)
copy_rows-fault (suc rounds) iy c e h = elim (dec_lt (iy + c.scroll) 2500) [
  | yes lt ↦
      let (a, run, row) = copy_row-Shows 80 0 iy c refl lt in
      copy_rows_next (suc rounds) iy c run
      ∙ copy_rows-fault rounds (iy + 1) a (omega arith) (omega (arith, row.same_scroll))
  | no ge ↦ copy_rows_first (suc rounds) iy c (omega arith)
]

-- With fewer than 25 lines of the history below the scroll position, `update_screen` reads behind
-- the end of the history.
update_screen-fault :
    (c : Console) → buffer_height < c.scroll + visible_height → update_screen c ≡ fault
unfolding update_screen
update_screen-fault c h = copy_rows-fault 24 0 c refl (omega arith)
