-- ===== src/Console/Examples.antt =====
-- The theorems about console.c at an empty console, and tests of the operations.
use kokos.Shared.{ℕ, zero, suc, ◌≡◌, refl, List, [], ◌∷◌, ok, arith}
use kokos.Shared.Int.{negsuc}
use kokos.Console.Defs.{
  screen_size, blank, Console, update_screen, set_color, set_cursor, get_cursor, print,
  print_length, scroll_by,
}
use kokos.Console.Screen.{Shows, update_screen-Shows}
use kokos.Console.Cursor.{IsCursor, Returns, print-IsCursor}
use kokos.Console.Numbers.{print_u32, print_u32-IsCursor}

abbrev empty : Console
empty = record {
  current_console_color = 7;
  x = 0;
  y = 3;
  scroll = 0;
  history = λ i. record { charater = i; color = 7 };
  video_memory = λ _. blank;
}

-- The last line of the history is on the screen's first line.
abbrev scrolled : Console
scrolled = record empty { scroll = 2499 }

empty-IsCursor : IsCursor empty
empty-IsCursor = record { in_row = omega arith; in_history = omega arith; room = omega arith }

abbrev bytes : ℕ → List ℕ
bytes zero = []
bytes (suc n) = 1 ∷ bytes n

cursor_test : get_cursor (set_cursor 4 5 scrolled) ≡ (4, 5)
unfolding get_cursor set_cursor
cursor_test = refl

set_color_test : (set_color 0x1F 2 empty).current_console_color ≡ 0x2F
unfolding set_color
set_color_test = refl

scroll_by_test : scroll_by (negsuc 4) 3 ≡ 0
unfolding scroll_by
scroll_by_test = refl

print_length_test : print_length (b'a' ∷ []) 0 empty ≡ ok empty
unfolding print_length
print_length_test = refl

update_screen-Shows_example :
    (c' : Console) × (update_screen empty ≡ ok c') × Shows 0 screen_size empty c'
update_screen-Shows_example = update_screen-Shows empty (omega arith)

print-IsCursor_example : Returns (print (b'h' ∷ b'i' ∷ b'\n' ∷ 0 ∷ []) empty)
print-IsCursor_example =
    print-IsCursor (b'h' ∷ b'i' ∷ b'\n' ∷ 0 ∷ []) 3 empty (omega arith) refl empty-IsCursor

print_u32-IsCursor_example : Returns (print_u32 (bytes 33) 4294967295 2 empty)
print_u32-IsCursor_example =
    print_u32-IsCursor (bytes 33) 4294967295 2 empty (omega arith) (omega arith) empty-IsCursor refl
      (omega arith)
