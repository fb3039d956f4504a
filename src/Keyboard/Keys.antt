-- ===== src/Keyboard/Keys.antt =====
-- The two tables of the keys, against each other.
use Prim.Native.String.{String}
use kokos.Shared.{
  ℕ, zero, suc, ◌-◌, ◌≤◌, ◌<◌, ◌≡◌, refl, ap, Bool, true, false, not, ◌&&◌, ◌||◌, Option, none,
  some, List, [], ◌∷◌, ok, read, read-ok, arith, leb, ◌==◌, if◌then◌else◌, get_or, length,
}
use kokos.Word.Bits.{every_below, every_below_at}
use kokos.Keyboard.Normal.{scancodes_normal}
use kokos.Keyboard.Shifted.{scancodes_shift}
use kokos.Keyboard.Defs.{text}

-- The bytes that are printed for a key, none for one without an entry.
abbrev pub bytes_of : Option String → List ℕ
bytes_of none = []
bytes_of (some key) = text key

abbrev pub key_text : List (Option String) → ℕ → List ℕ
key_text table input = bytes_of (get_or table input none)

abbrev pub has_entry : Option String → Bool
has_entry none = false
has_entry (some key) = true

abbrev is_char : ℕ → List ℕ → Bool
is_char c (d ∷ zero ∷ []) = c == d
is_char c _ = false

abbrev is_upper : List ℕ → List ℕ → Bool
is_upper (c ∷ zero ∷ []) shifted =
    if leb b'a' c && leb c b'z' then is_char (c - 32) shifted else true
is_upper _ shifted = true

is_char_lem : (c : ℕ) (str : List ℕ) → is_char c str ≡ true → str ≡ c ∷ 0 ∷ []
is_char_lem c [] h = absurd (ground arith)
is_char_lem c (d ∷ []) h = absurd (ground arith)
is_char_lem c (d ∷ zero ∷ e ∷ str) h = absurd (ground arith)
is_char_lem c (d ∷ suc e ∷ str) h = absurd (ground arith)
is_char_lem c (d ∷ zero ∷ []) h = ap (λ (e : ℕ). e ∷ 0 ∷ []) (ground arith)

is_upper_table :
    every_below (λ i. is_upper (key_text scancodes_normal i) (key_text scancodes_shift i)) 256
    ≡ true
unfolding every_below scancodes_normal scancodes_shift
is_upper_table = refl

entry_table :
    every_below
      (λ i.
        has_entry (get_or scancodes_normal i none) && has_entry (get_or scancodes_shift i none)
        || not (has_entry (get_or scancodes_normal i none))
          && not (has_entry (get_or scancodes_shift i none)))
      256
    ≡ true
unfolding every_below scancodes_normal scancodes_shift
entry_table = refl

lengths : (length scancodes_normal ≡ 256) × (length scancodes_shift ≡ 256)
unfolding scancodes_normal scancodes_shift
lengths = (refl, refl)

-- For every code below 256 both tables of the keys have an entry, and both or neither of the two
-- have a text.
same_keys :
    (input : ℕ)
    → input < 256
    → (normal : Option String) × (shifted : Option String) × (read scancodes_normal input
        ≡ ok normal)
      × (read scancodes_shift input ≡ ok shifted)
      × (has_entry normal ≡ has_entry shifted)
same_keys input h = (
  get_or scancodes_normal input none,
  get_or scancodes_shift input none,
  read-ok scancodes_normal input none (omega (arith, lengths.0)),
  read-ok scancodes_shift input none (omega (arith, lengths.1)),
  ground (
    arith,
    every_below_at
        (λ i.
          has_entry (get_or scancodes_normal i none) && has_entry (get_or scancodes_shift i none)
          || not (has_entry (get_or scancodes_normal i none))
            && not (has_entry (get_or scancodes_shift i none)))
        input h entry_table,
  ),
)

is_upper_letter :
    (letter : ℕ) (shifted : List ℕ)
    → b'a' ≤ letter
    → letter ≤ b'z'
    → is_upper (letter ∷ 0 ∷ []) shifted ≡ true
    → shifted ≡ (letter - 32) ∷ 0 ∷ []
is_upper_letter letter shifted lo hi h =
    let from : leb b'a' letter ≡ true = ground arith in
    let to : leb letter b'z' ≡ true = ground arith in
    is_char_lem (letter - 32) shifted (rw (from, to) at h)

-- For every code below 256 whose text without shift is one lower-case letter, the text with shift
-- is the upper-case letter.
letters_shift :
    (input letter : ℕ)
    → input < 256
    → key_text scancodes_normal input ≡ letter ∷ 0 ∷ []
    → b'a' ≤ letter
    → letter ≤ b'z'
    → key_text scancodes_shift input ≡ (letter - 32) ∷ 0 ∷ []
letters_shift input letter h key lo hi =
    is_upper_letter letter (key_text scancodes_shift input) lo hi (
      rw key at (
        every_below_at (λ i. is_upper (key_text scancodes_normal i) (key_text scancodes_shift i))
          input h is_upper_table))
