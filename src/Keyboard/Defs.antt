-- ===== src/Keyboard/Defs.antt =====
-- The state and the interrupt handler of src/common/keyboard.c. What the port of the keyboard gives
-- is the argument `input`; a byte that goes to the keyboard is added to `sent`. The waits for the
-- controller to be ready are left out, as is what it answers, which the handler does not use.
use Prim.Native.Char.{code}
use Prim.Native.String.{String}
use kokos.Shared.{
  ℕ, ◌+◌, ◌-◌, Bool, true, false, not, ◌&&◌, ◌||◌, none, some, List, [], ◌∷◌, ◌++◌, Outcome, ok,
  ◌>>=◌, read, ltb, ◌==◌, if◌then◌else◌,
}
use kokos.Shared.Int.{pos, negsuc}
use kokos.Console.Defs.{
  Console, set_cursor, get_cursor, print, print_char, new_line, console_clear, console_scroll,
}
use kokos.Console.Numbers.{print_u32}
use kokos.Keyboard.Normal.{scancodes_normal}
use kokos.Keyboard.Shifted.{scancodes_shift}

-- The flags are the static variables; `handled` counts the writes to `end_of_interrupt`.
pub record Keyboard : Type 0 where
  pub console : Console
  pub releasing : Bool
  pub shift : Bool
  pub caps_lock : Bool
  pub extended : Bool
  pub sent : List ℕ
  pub handled : ℕ

-- The bytes of a string constant, with the zero byte at its end.
abbrev pub text : String → List ℕ
text String.[] = 0 ∷ []
text (String.◌∷◌ c s) = code c ∷ text s

abbrev pub on_console : (Console → Outcome Console) → Keyboard → Outcome Keyboard
on_console f k = f k.console >>= λ c. ok (record k { console = c })

abbrev pub is_shift : ℕ → Bool
is_shift input = input == 0x12 || input == 0x59

-- The code of the key on the first line. `dest` is the array of `console_print_u32`.
unfoldable pub show_key : List ℕ → ℕ → Console → Outcome Console
show_key dest input c =
    let (x, y) = get_cursor c in
    print (text "key=0x") (set_cursor 70 0 c) >>= λ c.
    print_u32 dest input 16 c >>= λ c. ok (set_cursor x y c)

unfoldable pub press_caps_lock : Keyboard → Outcome Keyboard
press_caps_lock k =
    let caps_lock = not k.caps_lock in
    let (x, y) = get_cursor k.console in
    print (text (if caps_lock then "CAPSLOCK" else "        ")) (set_cursor 70 1 k.console) >>= λ c.
    ok (record k {
      caps_lock = caps_lock;
      sent = k.sent ++ (0xED ∷ (if caps_lock then 4 else 0) ∷ []);
      console = set_cursor x y c;
    })

unfoldable pub press_enter : Bool → Console → Outcome Console
press_enter shift c =
    if shift
    then (print_char b' ' c >>= λ c. console_clear c >>= λ c. ok (set_cursor 0 0 c))
    else (print_char b' ' c >>= new_line)

unfoldable pub press_backspace : Console → Outcome Console
press_backspace c =
    let (x, y) = get_cursor c in
    if ltb 0 x
    then (print_char b' ' c >>= λ c.
        print_char b' ' (set_cursor (x - 1) y c) >>= λ c. ok (set_cursor (x - 1) y c))
    else (if ltb 0 y then (print_char b' ' c >>= λ c. ok (set_cursor 79 (y - 1) c)) else ok c)

unfoldable pub print_key : ℕ → Keyboard → Outcome Keyboard
unfolding press_enter press_backspace
print_key input k =
    let scancodes = if k.shift || k.caps_lock then scancodes_shift else scancodes_normal in
    read scancodes input >>= λ entry. elim entry [
      | none ↦ ok k
      | some key ↦
          on_console
            (if input == 0x5A
              then press_enter k.shift
              else (if input == 0x66 then press_backspace else print (text key)))
            k
    ]

unfoldable pub press : List ℕ → ℕ → Keyboard → Outcome Keyboard
unfolding show_key press_caps_lock print_key
press dest input k = on_console (show_key dest input) k >>= λ k.
    if is_shift input
    then ok (record k { shift = true })
    else (if k.extended && input == 0x75
        then on_console (console_scroll (negsuc 0)) k
        else (if k.extended && input == 0x72
            then on_console (console_scroll (pos 1)) k
            else (if input == 0x58 then press_caps_lock k else print_key input k)))

unfoldable pub release_key : ℕ → Keyboard → Keyboard
release_key input k = record k {
  shift = if is_shift input then false else k.shift;
  releasing = false;
}

unfoldable pub interrupt_handle_keyboard : List ℕ → ℕ → Keyboard → Outcome Keyboard
unfolding press release_key
interrupt_handle_keyboard dest input k =
    (if input == 0xF0
      then ok (record k { releasing = true })
      else (if input == 0xE0 || input == 0xE1 || input == 0xE2
          then ok (record k { extended = true })
          else ((if k.releasing then ok (release_key input k) else press dest input k) >>= λ k.
              ok (record k { extended = false }))))
    >>= λ k. ok (record k { handled = k.handled + 1 })
