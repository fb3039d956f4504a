-- ===== src/Console/Screen.antt =====
-- `console_update_screen` and `console_clear`: the loops over the cells, as a whole.
use kokos.Shared.{
  ℕ, zero, suc, ◌+◌, ◌*◌, ◌≤◌, ◌<◌, ◌≡◌, refl, ◌∙◌, inl, inr, true, ◌&&◌, ok, ◌>>=◌, arith, ltb,
  leb, ◌==◌, Bool-cases, ==_iff, if◌then◌else◌,
}
use kokos.Console.Defs.{
  visible_height, buffer_width, buffer_height, history_size, screen_size, Console, update, copy_row,
  copy_rows, update_screen,
}

-- Only the cells of the screen from `first` up to `past` have changed: they show the history.
pub record Shows (first past : ℕ) (c c' : Console) : Type 0 where
  pub same_color : c'.current_console_color ≡ c.current_console_color
  pub same_x : c'.x ≡ c.x
  pub same_y : c'.y ≡ c.y
  pub same_scroll : c'.scroll ≡ c.scroll
  pub same_history : c'.history ≡ c.history
  pub cell :
      (i : ℕ)
      → c'.video_memory i ≡ (
          if leb first i && ltb i past
          then c.history (i + c.scroll * buffer_width)
          else c.video_memory i)

Shows-nil : (first : ℕ) (c : Console) → Shows first first c c
Shows-nil first c = record {
  same_color = refl;
  same_x = refl;
  same_y = refl;
  same_scroll = refl;
  same_history = refl;
  cell = λ i. ground arith;
}

Shows-join :
    (a b d : ℕ) {c c' c'' : Console}
    → a ≤ b
    → b ≤ d
    → Shows a b c c'
    → Shows b d c' c''
    → Shows a d c c''
Shows-join a b d {c} {c'} {c''} p q f g = record {
  same_color = g.same_color ∙ f.same_color;
  same_x = g.same_x ∙ f.same_x;
  same_y = g.same_y ∙ f.same_y;
  same_scroll = g.same_scroll ∙ f.same_scroll;
  same_history = g.same_history ∙ f.same_history;
  cell = λ i. g.cell i ∙ joined i;
}
  where
    joined :
        (i : ℕ)
        → (if leb b i && ltb i d
            then c'.history (i + c'.scroll * buffer_width)
            else c'.video_memory i)
          ≡ (if leb a i && ltb i d
              then c.history (i + c.scroll * buffer_width)
              else c.video_memory i)
    joined i = rw (f.same_history, f.same_scroll) (ground (arith, f.cell i))

Shows-one :
    (i : ℕ) (c : Console)
    → Shows i (i + 1) c (record c {
      video_memory = update c.video_memory i (c.history (i + c.scroll * buffer_width));
    })
Shows-one i c = record {
  same_color = refl;
  same_x = refl;
  same_y = refl;
  same_scroll = refl;
  same_history = refl;
  cell = λ j. elim (Bool-cases (i == j)) [
    | inl here ↦ rw here (let e : i ≡ j = (==_iff i j).0 here in rw e (ground arith))
    | inr other ↦ rw other (ground arith)
  ];
}

history_index : (ix iy s : ℕ) → ix + (iy + s) * 80 ≡ ix + iy * 80 + s * 80
history_index ix iy s = omega arith

pub copy_row-Shows :
    (rounds ix iy : ℕ) (c : Console)
    → ix + rounds ≡ buffer_width
    → iy + c.scroll < buffer_height
    → (c' : Console) × (copy_row rounds ix iy c ≡ ok c')
      × Shows (ix + iy * buffer_width) (buffer_width + iy * buffer_width) c c'
unfolding copy_row
copy_row-Shows zero ix iy c e h =
    let done : ix ≡ 80 = omega arith in (c, refl, rw done (Shows-nil (80 + iy * 80) c))
copy_row-Shows (suc rounds) ix iy c e h =
    let inside : ltb (ix + iy * 80 + c.scroll * 80) history_size ≡ true = ground arith in
    let cell = c.history (ix + iy * 80 + c.scroll * 80) in
    let (c', run, rest) =
      copy_row-Shows rounds (ix + 1) iy
        (record c { video_memory = update c.video_memory (ix + iy * buffer_width) cell })
        (omega arith) h in
    let up : ix + 1 + iy * 80 ≡ ix + iy * 80 + 1 = omega arith in
    (
      c',
      rw (history_index ix iy c.scroll, inside, ◌>>=◌) run,
      Shows-join (ix + iy * 80) (ix + iy * 80 + 1) (80 + iy * 80) (omega arith) (omega arith)
          (Shows-one (ix + iy * 80) c) (rw up at rest),
    )

copy_rows-Shows :
    (rounds iy : ℕ) (c : Console)
    → iy + rounds ≡ visible_height
    → c.scroll + visible_height ≤ buffer_height
    → (c' : Console) × (copy_rows rounds iy c ≡ ok c') × Shows (iy * buffer_width) screen_size c c'
unfolding copy_rows
copy_rows-Shows zero iy c e h =
    let done : iy * 80 ≡ 2000 = omega arith in (c, refl, rw done (Shows-nil 2000 c))
copy_rows-Shows (suc rounds) iy c e h =
    let (a, run, row) = copy_row-Shows 80 0 iy c refl (omega arith) in
    let (c', rest_run, rest) =
      copy_rows-Shows rounds (iy + 1) a (omega arith) (omega (arith, row.same_scroll)) in
    let from : 0 + iy * 80 ≡ iy * 80 = omega arith in
    let to : (iy + 1) * 80 ≡ 80 + iy * 80 = omega arith in
    (
      c',
      rw (run, ◌>>=◌) rest_run,
      Shows-join (iy * 80) (80 + iy * 80) 2000 (omega arith) (omega arith) (rw from at row)
          (rw to at rest),
    )

-- While at least 25 lines of the history lie below the scroll position, `update_screen` returns;
-- the cells of the screen then show the history from the scroll position on, and nothing else
-- changes.
pub update_screen-Shows :
    (c : Console)
    → c.scroll + visible_height ≤ buffer_height
    → (c' : Console) × (update_screen c ≡ ok c') × Shows 0 screen_size c c'
unfolding update_screen
update_screen-Shows c h = copy_rows-Shows 25 0 c refl h
