-- ===== src/Util/Reverse.antt =====
-- `string_reverse`: where each of the first `size` bytes of the buffer goes.
use kokos.Shared.{
  ℕ, zero, suc, ◌+◌, ◌-◌, ◌/◌, ◌≤◌, ◌<◌, ◌≡◌, refl, sym, ap, ◌∙◌, ◌&&◌, List, ok, ◌>>=◌, read-ok,
  write-ok, length, length-set, set, get_or, get_or-set, arith, ltb, leb, ◌==◌, if◌then◌else◌,
}
use kokos.Util.Strings.{swap, reverse_loop, string_reverse}

-- The byte at `k` when the bytes from `j` up to `size - j` are turned round.
abbrev pub mirror : ℕ → ℕ → ℕ → ℕ
mirror size j k = if leb j k && ltb (k + j) size then size - 1 - k else k

pub record Mirrors (size j : ℕ) (before after : List ℕ) : Type 0 where
  pub same_length : length after ≡ length before
  pub byte : (k : ℕ) → get_or after k 0 ≡ get_or before (mirror size j k) 0

abbrev swapped : List ℕ → ℕ → ℕ → List ℕ
swapped b i j = set (set b i (get_or b j 0)) j (get_or b i 0)

swap-ok : (b : List ℕ) (i j : ℕ) → i < length b → j < length b → swap b i j ≡ ok (swapped b i j)
unfolding swap
swap-ok b i j hi hj =
    let hj' : j < length (set b i (get_or b j 0)) = omega (arith, length-set b i (get_or b j 0)) in
    rw
      (
        read-ok b i 0 hi,
        ◌>>=◌,
        read-ok b j 0 hj,
        write-ok b i (get_or b j 0) hi,
        write-ok (set b i (get_or b j 0)) j (get_or b i 0) hj',
      )
      refl

swapped_byte :
    (b : List ℕ) (i j k : ℕ)
    → i < length b
    → j < length b
    → get_or (swapped b i j) k 0
      ≡ (if k == j then get_or b i 0 else (if k == i then get_or b j 0 else get_or b k 0))
swapped_byte b i j k hi hj =
    let hj' : j < length (set b i (get_or b j 0)) = omega (arith, length-set b i (get_or b j 0)) in
    rw (
      get_or-set (set b i (get_or b j 0)) j k (get_or b i 0) 0 hj',
      get_or-set b i k (get_or b j 0) 0 hi,
    )

reverse_loop-Mirrors :
    (rounds : ℕ) (b : List ℕ) (size j : ℕ)
    → j + rounds ≡ size / 2
    → size ≤ length b
    → (after : List ℕ) × (reverse_loop rounds b size j ≡ ok after) × Mirrors size j b after
unfolding reverse_loop
reverse_loop-Mirrors zero b size j e h =
    (b, refl, record { same_length = refl; byte = λ k. middle k })
  where
    middle : (k : ℕ) → get_or b k 0 ≡ get_or b (mirror size j k) 0
    middle k = let stays : mirror size j k ≡ k = ground arith in ap (λ t. get_or b t 0) (sym stays)
reverse_loop-Mirrors (suc rounds) b size j e h =
    let hi : j < length b = omega arith in
    let hj : size - j - 1 < length b = omega arith in
    let same : length (swapped b j (size - j - 1)) ≡ length b =
      length-set (set b j (get_or b (size - j - 1) 0)) (size - j - 1) _ ∙ length-set b j _ in
    let (after, run, rest) =
      reverse_loop-Mirrors rounds (swapped b j (size - j - 1)) size (j + 1) (omega arith)
        (omega (arith, same)) in
    (
      after,
      rw (swap-ok b j (size - j - 1) hi hj, ◌>>=◌) run,
      record {
        same_length = rest.same_length ∙ same;
        byte = λ k.
            rest.byte k ∙ swapped_byte b j (size - j - 1) (mirror size (j + 1) k) hi hj ∙ outer k;
      },
    )
  where
    outer :
        (k : ℕ)
        → (if mirror size (j + 1) k == size - j - 1
            then get_or b j 0
            else (if mirror size (j + 1) k == j
                then get_or b (size - j - 1) 0
                else get_or b (mirror size (j + 1) k) 0))
          ≡ get_or b (mirror size j k) 0
    outer k = ground arith

-- For a size of at most the length of the buffer, `string_reverse` returns a buffer of the same
-- length with byte `size - 1 - k` at every `k` below the size, and the bytes from the size on as
-- they were.
pub string_reverse-Mirrors :
    (buffer : List ℕ) (size : ℕ)
    → size ≤ length buffer
    → (after : List ℕ) × (string_reverse buffer size ≡ ok after) × Mirrors size 0 buffer after
unfolding string_reverse
string_reverse-Mirrors buffer size h = reverse_loop-Mirrors (size / 2) buffer size 0 (omega arith) h
