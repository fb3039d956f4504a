-- ===== src/Util/Digits.antt =====
-- The digits that the loop of the conversions writes, and those of the number.
use kokos.Shared.{
  ℕ, zero, suc, ◌+◌, ◌-◌, ◌*◌, ◌/◌, ◌%◌, ◌^◌, ◌≤◌, ◌<◌, ◌≡◌, refl, sym, ap, ◌∙◌, ◌⊎◌, inl, inr,
  false, List, ok, ◌>>=◌, ◌≢◌, write-ok, length, length-set, set, get_or, get_or-set_self,
  get_or-set_ne, arith, ◌==◌,
}
use native.Mathlib.Decide.{dec_lt}
use native.Mathlib.Nat.{
  div-eq_of_lt, pow-zero, pow-suc, pow-succ', div-div-eq-div-mul, div-lt_iff_lt-mul,
  le-div_iff_mul-le,
}
use kokos.Util.Numbers.{digits_loop}

-- From `i` on `count` characters of `after` are the digits of `num`, lowest first; `before` is as it was
-- elsewhere below. The number has `count` digits: none is a leading 0, but for 0 itself.
pub record Digits (char_of : ℕ → ℕ) (base num i count : ℕ) (before after : List ℕ) : Type 0 where
  pub some_digit : 0 < count
  pub enough : num < base ^ count
  pub no_more : (count ≡ 1) ⊎ (base ^ (count - 1) ≤ num)
  pub same_length : length after ≡ length before
  pub digit : (k : ℕ) → k < count → get_or after (i + k) 0 ≡ char_of (num / base ^ k % base)
  pub below : (j : ℕ) → j < i → get_or after j 0 ≡ get_or before j 0

module _ (char_of : ℕ → ℕ) (base : ℕ) where
  div_pow-zero : (num : ℕ) → num / base ^ 0 ≡ num
  div_pow-zero num = ap (λ (t : ℕ). num / t) (pow-zero base) ∙ omega arith

  pow_one : base ^ 1 ≡ base
  pow_one = pow-suc base 0 ∙ ap (λ (t : ℕ). t * base) (pow-zero base) ∙ omega arith

  pow_pred : (n : ℕ) → 0 < n → base ^ n ≡ base ^ (n - 1) * base
  pow_pred zero h = absurd (omega arith)
  pow_pred (suc n) h = pow-suc base n ∙ ap (λ (t : ℕ). base ^ t * base) (omega arith)

  Digits-one :
      (num i : ℕ) (before : List ℕ)
      → i < length before
      → num < base
      → Digits char_of base num i 1 before (set before i (char_of (num % base)))
  Digits-one num i before h lt = record {
    some_digit = omega arith;
    enough = omega (arith, pow_one);
    no_more = inl refl;
    same_length = length-set before i _;
    digit = first;
    below = λ j q. get_or-set_ne before i j _ 0 (omega arith);
  }
    where
      first :
          (k : ℕ)
          → k < 1
          → get_or (set before i (char_of (num % base))) (i + k) 0 ≡ char_of (num / base ^ k % base)
      first zero q =
          ap (λ j. get_or (set before i (char_of (num % base))) j 0) (omega arith)
          ∙ get_or-set_self before i _ 0 h
          ∙ ap (λ (t : ℕ). char_of (t % base)) (sym (div_pow-zero num))
      first (suc k) q = absurd (omega arith)

  Digits-suc :
      (num i count : ℕ) (before after : List ℕ)
      → i < length before
      → 0 < base
      → base ≤ num
      → Digits char_of base (num / base) (i + 1) count (set before i (char_of (num % base))) after
      → Digits char_of base num i (suc count) before after
  Digits-suc num i count before after h pos ge d = record {
    some_digit = omega arith;
    enough = omega (arith, (div-lt_iff_lt-mul pos).0 d.enough, pow-suc base count);
    no_more = inr (let e : suc count - 1 ≡ count = omega arith in rw e more);
    same_length = d.same_length ∙ length-set before i _;
    digit = each;
    below = λ j q. d.below j (omega arith) ∙ get_or-set_ne before i j _ 0 (omega arith);
  }
    where
      each : (k : ℕ) → k < suc count → get_or after (i + k) 0 ≡ char_of (num / base ^ k % base)
      each zero q =
          ap (λ j. get_or after j 0) (omega arith)
          ∙ d.below i (omega arith)
          ∙ get_or-set_self before i _ 0 h
          ∙ ap (λ (t : ℕ). char_of (t % base)) (sym (div_pow-zero num))
      each (suc k) q =
          ap (λ j. get_or after j 0) (omega arith)
          ∙ d.digit k (omega arith)
          ∙ ap (λ (t : ℕ). char_of (t % base))
              (div-div-eq-div-mul num base (base ^ k)
                ∙ ap (λ (t : ℕ). num / t) (sym (pow-succ' base k)))

      more : base ^ count ≤ num
      more = elim d.no_more [
        | inl one ↦ rw one (omega (arith, pow_one))
        | inr le ↦ omega (arith, (le-div_iff_mul-le pos).0 le, pow_pred count d.some_digit)
      ]

  div_pos : (num : ℕ) → ¬ (num < base) → 0 < base → num / base ≢ 0
  div_pos num ge pos e =
      absurd (omega (arith, (le-div_iff_mul-le {x = 1} {y = num} pos).1 (omega arith)))

  module _ (rounds : ℕ) (destination : List ℕ) (i num : ℕ) (inside : i < length destination) where
    digits_loop_last :
        num / base ≡ 0
        → digits_loop char_of base (suc rounds) destination i num
          ≡ ok (set destination i (char_of (num % base)), i + 1)
    unfolding digits_loop
    digits_loop_last e = rw (write-ok destination i (char_of (num % base)) inside, ◌>>=◌, e) refl

    digits_loop_more :
        num / base ≢ 0
        → digits_loop char_of base (suc rounds) destination i num
          ≡ digits_loop char_of base rounds
              (set destination i (char_of (num % base)))
              (i + 1)
              (num / base)
    unfolding digits_loop
    digits_loop_more ne =
        let test : (num / base == 0) ≡ false = ground arith in
        rw (write-ok destination i (char_of (num % base)) inside, ◌>>=◌, test) refl

  -- A number below `base ^ suc room` is written within `room + 1` bytes and rounds.
  pub digits_loop-Digits :
      (room rounds : ℕ) (destination : List ℕ) (i num : ℕ)
      → 1 < base
      → num < base ^ suc room
      → room < rounds
      → i + room < length destination
      → (after : List ℕ) × (count : ℕ) × (digits_loop char_of base rounds destination i num
          ≡ ok (after, i + count))
        × (count ≤ suc room)
        × Digits char_of base num i count destination after
  digits_loop-Digits room zero destination i num big fits enough space = absurd (omega arith)
  digits_loop-Digits zero (suc rounds) destination i num big fits enough space =
      let lt : num < base = omega (arith, pow_one) in
      (
        set destination i (char_of (num % base)),
        1,
        digits_loop_last rounds destination i num (omega arith) (div-eq_of_lt lt),
        omega arith,
        Digits-one num i destination (omega arith) lt,
      )
  digits_loop-Digits (suc room) (suc rounds) destination i num big fits enough space =
      elim (dec_lt num base) [
        | yes lt ↦ (
          set destination i (char_of (num % base)),
          1,
          digits_loop_last rounds destination i num (omega arith) (div-eq_of_lt lt),
          omega arith,
          Digits-one num i destination (omega arith) lt,
        )
        | no ge ↦
            let (after, count, run, le, d) =
              digits_loop-Digits room rounds (set destination i (char_of (num % base))) (i + 1)
                (num / base) big
                ((div-lt_iff_lt-mul (omega arith)).1 (omega (arith, pow-suc base (suc room))))
                (omega arith) (omega (arith, length-set destination i (char_of (num % base)))) in
            (
              after,
              suc count,
              digits_loop_more rounds destination i num (omega arith) (div_pos num ge (omega arith))
                  ∙ run
                  ∙ ap (λ (j : ℕ). ok (after, j)) (omega arith),
              omega arith,
              Digits-suc num i count destination after (omega arith) (omega arith) (omega arith) d,
            )
      ]
