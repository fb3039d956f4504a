-- ===== src/Shared/Run.antt =====
-- What a call of a C function does: it returns, it accesses memory outside an object (a fault), or
-- a loop of it is still running when the rounds that it was given are over (it spins).
use Prim.Native.Nat.{ℕ, zero, suc, ◌<◌}
use mathlib.Core.Path.{◌≡◌, refl, ap, ◌∙◌}
use mathlib.Core.Logic.{◌≢◌, inl, inr}
use mathlib.Core.List.{List, [], ◌∷◌}
use native.Mathlib.Omega.{arith}
use package.kokos.Shared.Tests.{◌==◌, ==_iff, Bool-cases, if◌then◌else◌}
use package.kokos.Shared.Lists.{length, get_or, set}

pub data Outcome {ℓ} (A : Type ℓ) : Type ℓ where
  ok : A → Outcome A
  fault : Outcome A
  spin : Outcome A

infixl 5 ◌>>=◌ ◌>>◌
abbrev pub ◌>>=◌ {ℓ κ} : {A : Type ℓ} {B : Type κ} → Outcome A → (A → Outcome B) → Outcome B
ok a >>= f = f a
fault >>= f = fault
spin >>= f = spin

abbrev pub ◌>>◌ {ℓ} : {B : Type ℓ} → Outcome (Unit {0}) → Outcome B → Outcome B
m >> k = m >>= λ _. k

-- `array[i]` and `array[i] = v`
module _ {ℓ} {A : Type ℓ} where
  unfoldable pub read : List A → ℕ → Outcome A
  read [] i = fault
  read (x ∷ xs) zero = ok x
  read (x ∷ xs) (suc i) = read xs i

module _ {ℓ} {A : Type ℓ} where
  unfoldable pub write : List A → ℕ → A → Outcome (List A)
  write [] i v = fault
  write (x ∷ xs) zero v = ok (v ∷ xs)
  write (x ∷ xs) (suc i) v = write xs i v >>= λ ys. ok (x ∷ ys)

module _ {ℓ} {A : Type ℓ} where
  pub read-ok : (xs : List A) (i : ℕ) (d : A) → i < length xs → read xs i ≡ ok (get_or xs i d)
  unfolding read
  read-ok [] i d h = absurd (omega arith)
  read-ok (x ∷ xs) zero d h = refl
  read-ok (x ∷ xs) (suc i) d h = read-ok xs i d (omega arith)

  pub write-ok : (xs : List A) (i : ℕ) (v : A) → i < length xs → write xs i v ≡ ok (set xs i v)
  unfolding write
  write-ok [] i v h = absurd (omega arith)
  write-ok (x ∷ xs) zero v h = refl
  write-ok (x ∷ xs) (suc i) v h = cc (write-ok xs i v (omega arith))

  pub get_or-set_self :
      (xs : List A) (i : ℕ) (v d : A) → i < length xs → get_or (set xs i v) i d ≡ v
  get_or-set_self [] i v d h = absurd (omega arith)
  get_or-set_self (x ∷ xs) zero v d h = refl
  get_or-set_self (x ∷ xs) (suc i) v d h = get_or-set_self xs i v d (omega arith)

  pub get_or-set_ne :
      (xs : List A) (i j : ℕ) (v d : A) → i ≢ j → get_or (set xs i v) j d ≡ get_or xs j d
  get_or-set_ne [] i j v d h = refl
  get_or-set_ne (x ∷ xs) zero zero v d h = absurd (h refl)
  get_or-set_ne (x ∷ xs) zero (suc j) v d h = refl
  get_or-set_ne (x ∷ xs) (suc i) zero v d h = refl
  get_or-set_ne (x ∷ xs) (suc i) (suc j) v d h = get_or-set_ne xs i j v d (λ e. h (ap suc e))

  pub get_or-set :
      (xs : List A) (i j : ℕ) (v d : A)
      → i < length xs
      → get_or (set xs i v) j d ≡ (if j == i then v else get_or xs j d)
  get_or-set xs i j v d h = elim (Bool-cases (j == i)) [
    | inl same ↦
        rw same
          (ap (λ k. get_or (set xs i v) k d) ((==_iff j i).0 same) ∙ get_or-set_self xs i v d h)
    | inr other ↦ rw other (get_or-set_ne xs i j v d (ground arith))
  ]
