-- ===== src/Util/Format.antt =====
-- `string_format_args` of src/common/util.c. The destination is the list of the bytes from the
-- pointer on, and so is the format; reading or writing behind an end is a fault. The arguments are
-- the words of 64 bits that `va_arg` takes one after the other, an `int` by the lower half.
use kokos.Shared.{
  ℕ, zero, suc, ◌%◌, ◌^◌, Bool, true, false, List, [], ◌∷◌, ◌++◌, Outcome, ok, fault, spin, ◌>>=◌,
  ◌==◌, if◌then◌else◌, take, drop,
}
use kokos.Util.Numbers.{string_from_u32, string_from_u64, string_from_i32, string_from_i64}

-- What stands between `%` and the rest of the format.
pub record Directive : Type 0 where
  pub unsign : Bool
  pub base : ℕ
  pub conversion : ℕ
  pub rest : List ℕ

-- The `switch` reads the character, and the loop goes on behind it.
unfoldable parse_conversion : Bool → ℕ → List ℕ → Outcome Directive
parse_conversion unsign base [] = fault
parse_conversion unsign base (c ∷ format) =
    ok (record { unsign = unsign; base = base; conversion = c; rest = format })

unfoldable parse_base : Bool → List ℕ → Outcome Directive
unfolding parse_conversion
parse_base unsign [] = fault
parse_base unsign (c ∷ format) =
    if c == b'b'
    then parse_conversion unsign 2 format
    else if c == b'h'
    then parse_conversion unsign 16 format
    else if c == b'o'
    then parse_conversion unsign 8 format
    else parse_conversion unsign 10 (c ∷ format)

unfoldable pub parse_directive : List ℕ → Outcome Directive
unfolding parse_base
parse_directive [] = fault
parse_directive (c ∷ format) =
    if c == b'u' then parse_base true format else parse_base false (c ∷ format)

-- What a directive wrote, the destination behind it, and the arguments that are left.
pub record Converted : Type 0 where
  pub written : List ℕ
  pub destination : List ℕ
  pub args : List ℕ

-- `destination += string_from_…(destination, i, base)`
unfoldable convert_number :
    (List ℕ → ℕ → ℕ → Outcome (List ℕ × ℕ)) → ℕ → List ℕ → List ℕ → Outcome Converted
convert_number string_from base destination [] = fault
convert_number string_from base destination (i ∷ args) =
    string_from destination i base >>= λ (text, count).
    ok (record { written = take count text; destination = drop count text; args = args })

unfoldable pub copy_char : ℕ → List ℕ → List ℕ → Outcome Converted
copy_char c [] args = fault
copy_char c (d ∷ destination) args =
    ok (record { written = c ∷ []; destination = destination; args = args })

-- The `switch`.
unfoldable pub convert : Directive → List ℕ → List ℕ → Outcome Converted
unfolding convert_number copy_char
convert d destination args =
    if d.conversion == b'i'
    then (if d.unsign
        then convert_number (λ text i. string_from_u32 text (i % 2 ^ 32)) d.base destination args
        else convert_number (λ text i. string_from_i32 text (i % 2 ^ 32)) d.base destination args)
    else if d.conversion == b'l'
    then (if d.unsign
        then convert_number string_from_u64 d.base destination args
        else convert_number string_from_i64 d.base destination args)
    else if d.conversion == b'p'
    then convert_number string_from_u64 16 destination args
    else if d.conversion == b'%'
    then copy_char b'%' destination args
    else ok (record { written = []; destination = destination; args = args })

-- The loop over the format, with the bytes from the pointer to the destination on as its result.
unfoldable pub format_loop : ℕ → List ℕ → List ℕ → List ℕ → Outcome (List ℕ)
unfolding parse_directive convert copy_char
format_loop zero destination format args = spin
format_loop (suc rounds) destination [] args = fault
format_loop (suc rounds) destination (c ∷ format) args = elim (c == 0) [
  | true ↦ ok destination
  | false ↦ elim (c == b'%') [
    | true ↦ parse_directive format >>= λ d. convert d destination args >>= λ r.
        format_loop rounds r.destination d.rest r.args >>= λ rest. ok (r.written ++ rest)
    | false ↦ copy_char c destination args >>= λ r.
        format_loop rounds r.destination format r.args >>= λ rest. ok (r.written ++ rest)
  ]
]

unfoldable pub string_format_args : ℕ → List ℕ → List ℕ → List ℕ → Outcome (List ℕ)
unfolding format_loop
string_format_args = format_loop

unfoldable pub string_format : ℕ → List ℕ → List ℕ → List ℕ → Outcome (List ℕ)
unfolding string_format_args
string_format = string_format_args
