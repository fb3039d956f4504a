-- ===== src/Util/Strings.antt =====
-- `string_length`, `string_compare` and `string_reverse`. A pointer into memory is the list of the
-- bytes from there on, and a read behind its end is a fault.
use kokos.Shared.{
  ℕ, zero, suc, ◌+◌, ◌-◌, ◌/◌, true, false, List, [], ◌∷◌, Outcome, ok, fault, ◌>>=◌, read, write,
  ltb, ◌==◌, if◌then◌else◌,
}
use kokos.Shared.Int.{ℤ, pos, negsuc, ◌-ℤ◌}

unfoldable pub string_length : List ℕ → Outcome ℕ
string_length [] = fault
string_length (c ∷ str) = elim (c == 0) [
  | true ↦ ok 0
  | false ↦ string_length str >>= λ i. ok (i + 1)
]

-- A `char` is a signed byte.
abbrev pub signed_char : ℕ → ℤ
signed_char c = if ltb c 128 then pos c else negsuc (255 - c)

-- `*b - *a`, and behind equal characters 0 at the end of both.
unfoldable pub string_compare : List ℕ → List ℕ → Outcome ℤ
string_compare [] b = fault
string_compare (x ∷ a) [] = fault
string_compare (x ∷ a) (y ∷ b) = elim (x == y) [
  | true ↦ elim (x == 0) [ true ↦ ok (pos 0) | false ↦ string_compare a b ]
  | false ↦ ok (signed_char y -ℤ signed_char x)
]

-- One round of the loop of `string_reverse`.
unfoldable pub swap : List ℕ → ℕ → ℕ → Outcome (List ℕ)
swap buffer i j = do
  t ← read buffer i
  u ← read buffer j
  buffer' ← write buffer i u
  write buffer' j t

unfoldable pub reverse_loop : ℕ → List ℕ → ℕ → ℕ → Outcome (List ℕ)
unfolding swap
reverse_loop zero buffer size j = ok buffer
reverse_loop (suc rounds) buffer size j =
    swap buffer j (size - j - 1) >>= λ buffer'. reverse_loop rounds buffer' size (j + 1)

-- The rounds are `size / 2`, from `j = 0` on.
unfoldable pub string_reverse : List ℕ → ℕ → Outcome (List ℕ)
unfolding reverse_loop
string_reverse buffer size = reverse_loop (size / 2) buffer size 0
