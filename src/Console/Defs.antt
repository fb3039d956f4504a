-- ===== src/Console/Defs.antt =====
-- The state and the functions of src/common/console.c. A read or a write outside of `history` is a
-- fault. `video_memory` is a bare address: an index from `screen_size` on lies behind the screen.
-- `scroll` is a natural number: `console_scroll` cuts it off at 0.
use kokos.Shared.{
  ℕ, zero, suc, ◌+◌, ◌-◌, ◌*◌, ◌%◌, ◌^◌, bit_and, bit_or, true, false, ◌&&◌, List, [], ◌∷◌, Outcome,
  ok, fault, ◌>>=◌, ltb, leb, ◌==◌, if◌then◌else◌,
}
use kokos.Shared.Int.{ℤ, pos, negsuc}

abbrev pub visible_height : ℕ
visible_height = 25

abbrev pub buffer_width : ℕ
buffer_width = 80

abbrev pub buffer_height : ℕ
buffer_height = 2500

abbrev pub history_size : ℕ
history_size = 200000

abbrev pub screen_size : ℕ
screen_size = 2000

-- `ConsoleVideoChar`
pub record VideoChar : Type 0 where
  pub charater : ℕ
  pub color : ℕ

abbrev pub blank : VideoChar
blank = record { charater = 0; color = 0 }

pub record Console : Type 0 where
  pub current_console_color : ℕ
  pub x : ℕ
  pub y : ℕ
  pub scroll : ℕ
  pub history : ℕ → VideoChar
  pub video_memory : ℕ → VideoChar

abbrev pub update : (ℕ → VideoChar) → ℕ → VideoChar → ℕ → VideoChar
update f i v j = if i == j then v else f j

abbrev pub history_at : ℕ → Console → Outcome VideoChar
history_at i c = if ltb i history_size then ok (c.history i) else fault

abbrev pub set_history : ℕ → VideoChar → Console → Outcome Console
set_history i v c =
    if ltb i history_size then ok (record c { history = update c.history i v }) else fault

-- The loop over `ix` of `console_update_screen`.
unfoldable pub copy_row : ℕ → ℕ → ℕ → Console → Outcome Console
copy_row zero ix iy c = ok c
copy_row (suc rounds) ix iy c = history_at (ix + (iy + c.scroll) * buffer_width) c >>= λ cell.
    copy_row rounds (ix + 1) iy
      (record c { video_memory = update c.video_memory (ix + iy * buffer_width) cell })

-- The loop over `iy`.
unfoldable pub copy_rows : ℕ → ℕ → Console → Outcome Console
copy_rows zero iy c = ok c
copy_rows (suc rounds) iy c = copy_row buffer_width 0 iy c >>= copy_rows rounds (iy + 1)

unfoldable pub update_screen : Console → Outcome Console
update_screen = copy_rows visible_height 0

unfoldable pub set_color : ℕ → ℕ → Console → Console
set_color foreground background c = record c {
  current_console_color = bit_or (bit_and foreground 0xF) (bit_and background 0xF * 16);
}

-- The loop over `iy` of `console_clear`, and the one over `ix` round it.
unfoldable pub clear_column : ℕ → ℕ → ℕ → Console → Outcome Console
clear_column zero ix iy c = ok c
clear_column (suc rounds) ix iy c =
    set_history (ix + iy * buffer_width) blank c >>= clear_column rounds ix (iy + 1)

unfoldable pub clear_columns : ℕ → ℕ → ℕ → Console → Outcome Console
clear_columns height zero ix c = ok c
clear_columns height (suc rounds) ix c =
    clear_column height ix 0 c >>= clear_columns height rounds (ix + 1)

unfoldable pub console_clear : Console → Outcome Console
console_clear c = clear_columns buffer_height buffer_width 0 c >>= λ c.
    update_screen (record c { x = 0; y = 0; scroll = 0 })

unfoldable pub new_line : Console → Outcome Console
new_line c =
    let below = (c.y + 1) % 2 ^ 32 in
    (if leb buffer_height below
      then console_clear (record c { y = below })
      else ok (record c { y = below }))
    >>= λ c.
        let home : Console = record c { x = 0 } in
        if leb (c.scroll + visible_height) c.y && ltb c.scroll (buffer_height - 1)
        then update_screen (record home { scroll = c.scroll + 1 })
        else ok home

-- The cell of the history, and the cell of the screen where the test lets it through.
unfoldable pub put_char : ℕ → Console → Outcome Console
put_char char c =
    let cell : VideoChar = record { charater = char; color = c.current_console_color } in
    set_history ((c.x + c.y * buffer_width) % 2 ^ 32) cell c >>= λ c. ok (
      if leb c.scroll c.y && ltb c.y (c.scroll + buffer_height)
      then record c {
        video_memory =
            update c.video_memory ((c.x + (c.y - c.scroll) * buffer_width) % 2 ^ 32) cell;
      }
      else c)

unfoldable pub print_char : ℕ → Console → Outcome Console
unfolding new_line put_char
print_char char c =
    if char == b'\n'
    then new_line c
    else (put_char char c >>= λ c.
        let right : Console = record c { x = (c.x + 1) % 2 ^ 32 } in
        if leb buffer_width right.x then new_line right else ok right)

unfoldable pub set_cursor : ℕ → ℕ → Console → Console
set_cursor new_x new_y c = record c { x = new_x; y = (new_y + c.scroll) % 2 ^ 32 }

unfoldable pub get_cursor : Console → ℕ × ℕ
get_cursor c = (c.x, (c.y + 2 ^ 32 - c.scroll) % 2 ^ 32)

-- A string is the list of its bytes up to the one that is 0; without one the loop runs out of it.
unfoldable pub print : List ℕ → Console → Outcome Console
print [] c = fault
print (char ∷ str) c = elim (char == 0) [ true ↦ ok c | false ↦ print_char char c >>= print str ]

unfoldable pub print_length : List ℕ → ℕ → Console → Outcome Console
print_length str zero c = ok c
print_length [] (suc length) c = fault
print_length (char ∷ str) (suc length) c = print_char char c >>= print_length str length

unfoldable pub scroll_by : ℤ → ℕ → ℕ
scroll_by (pos n) scroll = if leb buffer_height (scroll + n) then buffer_height - 1 else scroll + n
scroll_by (negsuc n) scroll = scroll - suc n

unfoldable pub console_scroll : ℤ → Console → Outcome Console
unfolding scroll_by
console_scroll amount c = update_screen (record c { scroll = scroll_by amount c.scroll })
