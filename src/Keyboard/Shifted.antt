-- ===== src/Keyboard/Shifted.antt =====
-- The table `scancodes_shift` of src/include/kokos/keyboard.h: the text of each key with
-- shift, by its scan code.
use Prim.Native.String.{String}
use kokos.Shared.{Option, none, some, List, [], ◌∷◌}

unfoldable pub scancodes_shift : List (Option String)
scancodes_shift =
    none
    ∷ some "Shift+F9"
    ∷ none
    ∷ some "Shift+F5"
    ∷ some "Shift+F3"
    ∷ some "Shift+F1"
    ∷ some "Shift+F2"
    ∷ some "Shift+F12"
    ∷ none
    ∷ some "Shift+F10"
    ∷ some "Shift+F8"
    ∷ some "Shift+F6"
    ∷ some "Shift+F4"
    ∷ some "Shift+Tab"
    ∷ some "~"
    ∷ none
    ∷ none
    ∷ some "Shift+LeftAlt"
    ∷ some "Shift+LeftShift"
    ∷ none
    ∷ some "Shift+LeftControl"
    ∷ some "Q"
    ∷ some "1"
    ∷ none
    ∷ none
    ∷ none
    ∷ some "Z"
    ∷ some "S"
    ∷ some "A"
    ∷ some "W"
    ∷ some "@"
    ∷ none
    ∷ none
    ∷ some "C"
    ∷ some "X"
    ∷ some "D"
    ∷ some "E"
    ∷ some "$"
    ∷ some "#"
    ∷ none
    ∷ none
    ∷ some "Shift+Space"
    ∷ some "V"
    ∷ some "F"
    ∷ some "T"
    ∷ some "R"
    ∷ some "%"
    ∷ none
    ∷ none
    ∷ some "N"
    ∷ some "B"
    ∷ some "H"
    ∷ some "G"
    ∷ some "Y"
    ∷ some "^"
    ∷ none
    ∷ none
    ∷ none
    ∷ some "M"
    ∷ some "J"
    ∷ some "U"
    ∷ some "&"
    ∷ some "*"
    ∷ none
    ∷ none
    ∷ some "<"
    ∷ some "K"
    ∷ some "I"
    ∷ some "O"
    ∷ some ")"
    ∷ some "("
    ∷ none
    ∷ none
    ∷ some ">"
    ∷ some "?"
    ∷ some "L"
    ∷ some ":"
    ∷ some "P"
    ∷ some "_"
    ∷ none
    ∷ none
    ∷ none
    ∷ some "\""
    ∷ none
    ∷ some "{"
    ∷ some "+"
    ∷ none
    ∷ none
    ∷ some "Shift+CapsLock"
    ∷ some "Shift+RightShift"
    ∷ some "Shift+Enter"
    ∷ some "}"
    ∷ none
    ∷ some "|"
    ∷ none
    ∷ none
    ∷ none
    ∷ none
    ∷ none
    ∷ none
    ∷ none
    ∷ none
    ∷ some "Shift+Backspace"
    ∷ none
    ∷ none
    ∷ none
    ∷ none
    ∷ none
    ∷ none
    ∷ none
    ∷ none
    ∷ none
    ∷ none
    ∷ none
    ∷ none
    ∷ none
    ∷ none
    ∷ none
    ∷ some "Shift+Escape"
    ∷ none
    ∷ some "Shift+F11"
    ∷ none
    ∷ none
    ∷ none
    ∷ none
    ∷ none
    ∷ some "Shift+ScrollLock"
    ∷ none
    ∷ none
    ∷ none
    ∷ none
    ∷ some "Shift+F7"
    ∷ none
    ∷ none
    ∷ none
    ∷ none
    ∷ none
    ∷ none
    ∷ none
    ∷ none
    ∷ none
    ∷ none
    ∷ none
    ∷ none
    ∷ none
    ∷ none
    ∷ none
    ∷ none
    ∷ none
    ∷ none
    ∷ none
    ∷ none
    ∷ none
    ∷ none
    ∷ none
    ∷ none
    ∷ none
    ∷ none
    ∷ none
    ∷ none
    ∷ none
    ∷ none
    ∷ none
    ∷ none
    ∷ none
    ∷ none
    ∷ none
    ∷ none
    ∷ none
    ∷ none
    ∷ none
    ∷ none
    ∷ none
    ∷ none
    ∷ none
    ∷ none
    ∷ none
    ∷ none
    ∷ none
    ∷ none
    ∷ none
    ∷ none
    ∷ none
    ∷ none
    ∷ none
    ∷ none
    ∷ none
    ∷ none
    ∷ none
    ∷ none
    ∷ none
    ∷ none
    ∷ none
    ∷ none
    ∷ none
    ∷ none
    ∷ none
    ∷ none
    ∷ none
    ∷ none
    ∷ none
    ∷ none
    ∷ none
    ∷ none
    ∷ none
    ∷ none
    ∷ none
    ∷ none
    ∷ none
    ∷ none
    ∷ none
    ∷ none
    ∷ none
    ∷ none
    ∷ none
    ∷ none
    ∷ none
    ∷ none
    ∷ none
    ∷ none
    ∷ none
    ∷ none
    ∷ none
    ∷ none
    ∷ none
    ∷ none
    ∷ none
    ∷ none
    ∷ none
    ∷ none
    ∷ none
    ∷ none
    ∷ none
    ∷ none
    ∷ none
    ∷ none
    ∷ none
    ∷ none
    ∷ none
    ∷ none
    ∷ none
    ∷ none
    ∷ none
    ∷ none
    ∷ none
    ∷ none
    ∷ none
    ∷ none
    ∷ none
    ∷ none
    ∷ none
    ∷ none
    ∷ none
    ∷ none
    ∷ none
    ∷ none
    ∷ []
