-- ===== src/Keyboard/Examples.antt =====
-- The theorems about keyboard.c at single keys, and tests of the handler.

use kokos.Shared.{ℕ, ◌+◌, ◌≡◌, ◌>>=◌, refl, true, false, List, [], ◌∷◌, ok, arith}
use kokos.Console.Defs.{Console, blank}
use kokos.Console.Cursor.{IsCursor}
use kokos.Keyboard.Normal.{scancodes_normal}
use kokos.Keyboard.Shifted.{scancodes_shift}
use kokos.Keyboard.Defs.{Keyboard, interrupt_handle_keyboard}
use kokos.Keyboard.Echo.{SameCursor}
use kokos.Keyboard.Shift.{shift_held}
use kokos.Keyboard.Keys.{key_text}

abbrev screen : Console
screen = record {
  current_console_color = 15;
  x = 12;
  y = 30;
  scroll = 6;
  history = λ _. blank;
  video_memory = λ _. blank;
}

abbrev idle : Keyboard
idle = record {
  console = screen;
  releasing = false;
  shift = false;
  caps_lock = true;
  extended = false;
  sent = [];
  handled = 0;
}

abbrev array : List ℕ
array =
    1 ∷ 1 ∷ 1 ∷ 1 ∷ 1 ∷ 1 ∷ 1 ∷ 1 ∷ 1 ∷ 1 ∷ 1 ∷ 1 ∷ 1 ∷ 1 ∷ 1 ∷ 1 ∷ 1 ∷ 1 ∷ 1 ∷ 1 ∷ 1 ∷ 1 ∷ 1 ∷ 1
    ∷ 1 ∷ 1 ∷ 1 ∷ 1 ∷ 1 ∷ 1 ∷ 1 ∷ 1 ∷ 1 ∷ []

screen-IsCursor : IsCursor screen
screen-IsCursor = record { in_row = omega arith; in_history = omega arith; room = omega arith }

-- The key `1` prints the same with shift.
key_one_test : key_text scancodes_shift 0x16 ≡ key_text scancodes_normal 0x16
unfolding scancodes_normal scancodes_shift
key_one_test = refl

extended_test :
    interrupt_handle_keyboard array 0xE0 idle ≡ ok (record idle { extended = true; handled = 1 })
unfolding interrupt_handle_keyboard
extended_test = refl

key_a_text : key_text scancodes_normal 0x1C ≡ b'a' ∷ 0 ∷ []
unfolding scancodes_normal
key_a_text = refl

shift_held_example :
    (held : Keyboard) × (after : Keyboard) × (interrupt_handle_keyboard array 0x12 idle ≡ ok held)
    × (held.shift ≡ true)
    × (held.caps_lock ≡ true)
    × SameCursor screen held.console
    × ((interrupt_handle_keyboard array 0xF0 held >>= interrupt_handle_keyboard array 0x12)
        ≡ ok after)
    × (after.shift ≡ false)
    × (after.releasing ≡ false)
    × (after.extended ≡ false)
    × (after.console ≡ held.console)
    × (after.handled ≡ 0 + 3)
shift_held_example = shift_held array 0x12 refl idle refl refl screen-IsCursor
