-- ===== src/Keyboard/Normal.antt =====
-- The table `scancodes_normal` of src/include/kokos/keyboard.h: the text of each key without
-- shift, by its scan code.
use Prim.Native.String.{String}
use kokos.Shared.{Option, none, some, List, [], ◌∷◌}

unfoldable pub scancodes_normal : List (Option String)
scancodes_normal =
    none
    ∷ some "F9"
    ∷ none
    ∷ some "F5"
    ∷ some "F3"
    ∷ some "F1"
    ∷ some "F2"
    ∷ some "F12"
    ∷ none
    ∷ some "F10"
    ∷ some "F8"
    ∷ some "F6"
    ∷ some "F4"
    ∷ some "Tab"
    ∷ some "`"
    ∷ none
    ∷ none
    ∷ some "LeftAlt"
    ∷ some "LeftShift"
    ∷ none
    ∷ some "LeftControl"
    ∷ some "q"
    ∷ some "1"
    ∷ none
    ∷ none
    ∷ none
    ∷ some "z"
    ∷ some "s"
    ∷ some "a"
    ∷ some "w"
    ∷ some "2"
    ∷ none
    ∷ none
    ∷ some "c"
    ∷ some "x"
    ∷ some "d"
    ∷ some "e"
    ∷ some "4"
    ∷ some "3"
    ∷ none
    ∷ none
    ∷ some " "
    ∷ some "v"
    ∷ some "f"
    ∷ some "t"
    ∷ some "r"
    ∷ some "5"
    ∷ none
    ∷ none
    ∷ some "n"
    ∷ some "b"
    ∷ some "h"
    ∷ some "g"
    ∷ some "y"
    ∷ some "6"
    ∷ none
    ∷ none
    ∷ none
    ∷ some "m"
    ∷ some "j"
    ∷ some "u"
    ∷ some "7"
    ∷ some "8"
    ∷ none
    ∷ none
    ∷ some ","
    ∷ some "k"
    ∷ some "i"
    ∷ some "o"
    ∷ some "0"
    ∷ some "9"
    ∷ none
    ∷ none
    ∷ some "."
    ∷ some "/"
    ∷ some "l"
    ∷ some ";"
    ∷ some "p"
    ∷ some "-"
    ∷ none
    ∷ none
    ∷ none
    ∷ some "'"
    ∷ none
    ∷ some "["
    ∷ some "="
    ∷ none
    ∷ none
    ∷ some "CapsLock"
    ∷ some "RightShift"
    ∷ some "Enter"
    ∷ some "]"
    ∷ none
    ∷ some "\\"
    ∷ none
    ∷ none
    ∷ none
    ∷ none
    ∷ none
    ∷ none
    ∷ none
    ∷ none
    ∷ some "Backspace"
    ∷ none
    ∷ none
    ∷ none
    ∷ none
    ∷ none
    ∷ none
    ∷ none
    ∷ none
    ∷ none
    ∷ none
    ∷ none
    ∷ none
    ∷ none
    ∷ none
    ∷ none
    ∷ some "Escape"
    ∷ none
    ∷ some "F11"
    ∷ none
    ∷ none
    ∷ none
    ∷ none
    ∷ none
    ∷ some "ScrollLock"
    ∷ none
    ∷ none
    ∷ none
    ∷ none
    ∷ some "F7"
    ∷ none
    ∷ none
    ∷ none
    ∷ none
    ∷ none
    ∷ none
    ∷ none
    ∷ none
    ∷ none
    ∷ none
    ∷ none
    ∷ none
    ∷ none
    ∷ none
    ∷ none
    ∷ none
    ∷ none
    ∷ none
    ∷ none
    ∷ none
    ∷ none
    ∷ none
    ∷ none
    ∷ none
    ∷ none
    ∷ none
    ∷ none
    ∷ none
    ∷ none
    ∷ none
    ∷ none
    ∷ none
    ∷ none
    ∷ none
    ∷ none
    ∷ none
    ∷ none
    ∷ none
    ∷ none
    ∷ none
    ∷ none
    ∷ none
    ∷ none
    ∷ none
    ∷ none
    ∷ none
    ∷ none
    ∷ none
    ∷ none
    ∷ none
    ∷ none
    ∷ none
    ∷ none
    ∷ none
    ∷ none
    ∷ none
    ∷ none
    ∷ none
    ∷ none
    ∷ none
    ∷ none
    ∷ none
    ∷ none
    ∷ none
    ∷ none
    ∷ none
    ∷ none
    ∷ none
    ∷ none
    ∷ none
    ∷ none
    ∷ none
    ∷ none
    ∷ none
    ∷ none
    ∷ none
    ∷ none
    ∷ none
    ∷ none
    ∷ none
    ∷ none
    ∷ none
    ∷ none
    ∷ none
    ∷ none
    ∷ none
    ∷ none
    ∷ none
    ∷ none
    ∷ none
    ∷ none
    ∷ none
    ∷ none
    ∷ none
    ∷ none
    ∷ none
    ∷ none
    ∷ none
    ∷ none
    ∷ none
    ∷ none
    ∷ none
    ∷ none
    ∷ none
    ∷ none
    ∷ none
    ∷ none
    ∷ none
    ∷ none
    ∷ none
    ∷ none
    ∷ none
    ∷ none
    ∷ none
    ∷ none
    ∷ none
    ∷ none
    ∷ none
    ∷ none
    ∷ none
    ∷ none
    ∷ none
    ∷ none
    ∷ none
    ∷ []
