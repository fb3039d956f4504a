-- ===== src/Util/Compare.antt =====
-- `string_compare` on two texts.
use kokos.Shared.{
  ℕ, ◌<◌, ◌≡◌, ◌≢◌, ◌↔◌, refl, ap, ◌∙◌, List, [], ◌∷◌, ◌++◌, ok, arith, true, false, ◌==◌, ==_iff,
  inl, inr, Bool-cases, length, drop, get_or,
}
use mathlib.Core.Path.{ap₂}
use kokos.Shared.Int.{ℤ, pos, ◌-ℤ◌}
use kokos.Util.Strings.{string_compare, signed_char}

-- The characters of a text: bytes that are not 0.
pub data IsChars : List ℕ → Type 0 where
  none : IsChars []
  char : {c : ℕ} {text : List ℕ} → 0 < c → c < 256 → IsChars text → IsChars (c ∷ text)

-- The bytes of a text in memory.
abbrev pub ended : List ℕ → List ℕ → List ℕ
ended text behind = text ++ 0 ∷ behind

different : (x y : ℕ) → x < 256 → y < 256 → signed_char y -ℤ signed_char x ≡ pos 0 → x ≡ y
unfolding ◌-ℤ◌
different x y small small' e = ground arith

compare-differs :
    (x y : ℕ) (a b : List ℕ)
    → x ≢ y
    → x < 256
    → y < 256
    → (r : ℤ) × (string_compare (x ∷ a) (y ∷ b) ≡ ok r) × (r ≢ pos 0)
unfolding string_compare
compare-differs x y a b ne small small' =
    let other : (x == y) ≡ false = ground arith in
    (
      signed_char y -ℤ signed_char x,
      rw (string_compare, other) refl,
      (λ e. ne (different x y small small' e)),
    )

compare-same :
    (x y : ℕ) (a b : List ℕ) → x ≡ y → 0 < x → string_compare (x ∷ a) (y ∷ b) ≡ string_compare a b
unfolding string_compare
compare-same x y a b e positive =
    let same : (x == y) ≡ true = ground arith in
    let more : (x == 0) ≡ false = ground arith in rw (string_compare, same, more) refl

-- On two texts of characters, with anything behind their ends, the comparison returns, and it
-- returns 0 exactly when they are equal.
pub string_compare_iff :
    (a b behind behind' : List ℕ)
    → IsChars a
    → IsChars b
    → (r : ℤ) × (string_compare (ended a behind) (ended b behind') ≡ ok r) × ((r ≡ pos 0) ↔ (a ≡ b))
unfolding string_compare
string_compare_iff [] [] behind behind' none none = (pos 0, refl, ((λ e. refl), (λ e. refl)))
string_compare_iff [] (y ∷ b) behind behind' none (char ny sy _) =
    let (r, run, ne) =
      compare-differs 0 y behind (ended b behind') (λ e. absurd (omega arith)) (omega arith) sy in
    (r, run, ((λ e. absurd (ne e)), (λ e. absurd (omega (arith, ap length e)))))
string_compare_iff (x ∷ a) [] behind behind' (char nx sx _) none =
    let (r, run, ne) =
      compare-differs x 0 (ended a behind) behind' (λ e. absurd (omega arith)) sx (omega arith) in
    (r, run, ((λ e. absurd (ne e)), (λ e. absurd (omega (arith, ap length e)))))
string_compare_iff (x ∷ a) (y ∷ b) behind behind' (char nx sx cs) (char ny sy cs') =
    elim (Bool-cases (x == y)) [
      | inl same ↦
          let e : x ≡ y = (==_iff x y).0 same in
          let (r, run, equal) = string_compare_iff a b behind behind' cs cs' in
          (
            r,
            compare-same x y (ended a behind) (ended b behind') e nx ∙ run,
            ((λ z. ap₂ (λ h t. h ∷ t) e (equal.0 z)), (λ l. equal.1 (ap (drop 1) l))),
          )
      | inr other ↦
          let (r, run, ne) =
            compare-differs x y (ended a behind) (ended b behind') (ground arith) sx sy in
          (r, run, ((λ e. absurd (ne e)), (λ l. absurd (ground (arith, ap (λ t. get_or t 0 0) l)))))
    ]
