-- ===== src/Lock/Exclusion.antt =====
-- Who owns the lock, and the word of the lock, in the states that are reached.
use kokos.Shared.{ℕ, ◌≡◌, refl, ap, ◌≢◌, ◌≤◌, ◌⊎◌, ◌↔◌, inl, inr, true, false, arith, Bool-cases}
use native.Mathlib.Decide.{ℕ_discrete}
use kokos.Lock.Defs.{
  try_acquire, Pc, outside, trying, acquiring, pausing, holding, releasing, Move, call_try,
  call_acquire, try_won, try_lost, acquire_won, acquire_lost, still_taken, seen_free, call_release,
  store_zero, System, update, Step, turn, Reach, start, later, owns,
}

pub record IsLock (s : System) : Type 0 where
  pub one : s.word ≤ 1
  pub unique : (i j : ℕ) → owns (s.pc i) ≡ true → owns (s.pc j) ≡ true → i ≡ j
  pub free : s.word ≡ 0 → (i : ℕ) → owns (s.pc i) ≡ false
  pub taken : s.word ≡ 1 → (i : ℕ) × (owns (s.pc i) ≡ true)

try_acquire_won : (word : ℕ) → (try_acquire word).1 ≡ true → (word ≡ 0) × ((try_acquire word).0 ≡ 1)
unfolding try_acquire
try_acquire_won word h = ground arith

try_acquire_lost :
    (word : ℕ) → (try_acquire word).1 ≡ false → (word ≢ 0) × ((try_acquire word).0 ≡ word)
unfolding try_acquire
try_acquire_lost word h = ground arith

try_acquire_free : (word : ℕ) → word ≡ 0 → (try_acquire word).1 ≡ true
unfolding try_acquire
try_acquire_free word h = ground arith

owner_at : (p : Pc) → owns p ≡ true → (p ≡ holding) ⊎ (p ≡ releasing)
owner_at p h = ground arith

module _ {s : System} (inv : IsLock s) (i : ℕ) where
  -- A step that leaves the word and who owns it.
  IsLock-same :
      (p p' : Pc)
      → s.pc i ≡ p
      → owns p' ≡ owns p
      → IsLock (record { word = s.word; pc = update s.pc i p' })
  IsLock-same p p' e same = record {
    one = inv.one;
    unique = λ a b qa qb. inv.unique a b (back a qa) (back b qb);
    free = λ z a. ground (arith, inv.free z a, inv.free z i);
    taken = λ t. let (o, owner) = inv.taken t in (o, ground arith);
  }
    where
      back : (a : ℕ) → owns (update s.pc i p' a) ≡ true → owns (s.pc a) ≡ true
      back a q = ground arith

  -- The step that takes a free lock.
  IsLock-won : s.word ≡ 0 → IsLock (record { word = 1; pc = update s.pc i holding })
  IsLock-won z = record {
    one = omega arith;
    unique = λ a b qa qb. ground (arith, inv.free z a, inv.free z b);
    free = λ q. absurd (omega arith);
    taken = λ t. (i, ground arith);
  }

  -- The store of the owner.
  IsLock-released : s.pc i ≡ releasing → IsLock (record { word = 0; pc = update s.pc i outside })
  IsLock-released e = record {
    one = omega arith;
    unique = λ a b qa qb. inv.unique a b (ground arith) (ground arith);
    free = λ z a. others a;
    taken = λ t. absurd (omega arith);
  }
    where
      others : (a : ℕ) → owns (update s.pc i outside a) ≡ false
      others a = elim (Bool-cases (owns (s.pc a))) [
        | inl q ↦ ground (arith, inv.unique i a (ground arith) q)
        | inr q ↦ ground arith
      ]

Move-IsLock :
    {s : System} {word : ℕ} {p p' : Pc} (i : ℕ)
    → IsLock s
    → Move s.word p word p'
    → s.pc i ≡ p
    → IsLock (record { word = word; pc = update s.pc i p' })
Move-IsLock i inv call_try e = IsLock-same inv i outside trying e refl
Move-IsLock i inv call_acquire e = IsLock-same inv i outside acquiring e refl
Move-IsLock {s} i inv (try_won w) e =
    let (z, o) = try_acquire_won s.word w in rw o (IsLock-won inv i z)
Move-IsLock {s} i inv (try_lost l) e =
    rw ((try_acquire_lost s.word l).1) (IsLock-same inv i trying outside e refl)
Move-IsLock {s} i inv (acquire_won w) e =
    let (z, o) = try_acquire_won s.word w in rw o (IsLock-won inv i z)
Move-IsLock {s} i inv (acquire_lost l) e =
    rw ((try_acquire_lost s.word l).1) (IsLock-same inv i acquiring pausing e refl)
Move-IsLock i inv (still_taken t) e = IsLock-same inv i pausing pausing e refl
Move-IsLock i inv (seen_free z) e = IsLock-same inv i pausing acquiring e refl
Move-IsLock i inv call_release e = IsLock-same inv i holding releasing e refl
Move-IsLock i inv store_zero e = IsLock-released inv i e

Step-IsLock : {s t : System} → Step s t → IsLock s → IsLock t
Step-IsLock (turn i mv) inv = Move-IsLock i inv mv refl

Reach-IsLock : {s : System} → Reach s → IsLock s
Reach-IsLock start = record {
  one = omega arith;
  unique = λ i j p q. cc;
  free = λ z i. refl;
  taken = λ t. absurd (omega arith);
}
Reach-IsLock (later r st) = Step-IsLock st (Reach-IsLock r)

-- In every state that any interleaving of the processors' steps reaches, two processors that own
-- the lock are the same processor.
pub mutual_exclusion :
    {s : System} → Reach s → (i j : ℕ) → owns (s.pc i) ≡ true → owns (s.pc j) ≡ true → i ≡ j
mutual_exclusion r = (Reach-IsLock r).unique

-- In every reachable state the word of the lock is 0 exactly when no processor owns the lock.
word_iff_free : {s : System} → Reach s → (s.word ≡ 0) ↔ ((i : ℕ) → owns (s.pc i) ≡ false)
word_iff_free {s} r = (inv.free, λ none. nobody none)
  where
    inv : IsLock s
    inv = Reach-IsLock r

    nobody : ((i : ℕ) → owns (s.pc i) ≡ false) → s.word ≡ 0
    nobody none = elim (ℕ_discrete s.word 0) [
      | yes z ↦ z
      | no n ↦ let (o, owner) = inv.taken (omega (arith, inv.one)) in cc (none o)
    ]

-- Some more steps of any processors.
pub data Steps (s : System) : System → Type 0 where
  here : Steps s s
  next : {t u : System} → Steps s t → Step t u → Steps s u

holds_after :
    {s t : System} (i : ℕ)
    → Steps s t
    → t.word ≡ 0
    → t.pc i ≡ pausing
    → (u : System) × Steps s u × (u.pc i ≡ holding)
holds_after {t} i st z e =
    let retry : System = record { word = t.word; pc = update t.pc i acquiring } in
    let ready : retry.pc i ≡ acquiring = ground arith in
    let won : System = record { word = (try_acquire t.word).0; pc = update retry.pc i holding } in
    (
      won,
      next (next st (turn i {word = t.word} {p = acquiring} (rw e (seen_free z)))) (
          turn i {word = won.word} {p = holding}
            (rw ready (acquire_won (try_acquire_free t.word z)))),
      ground arith,
    )

-- From every reachable state in which a processor waits in the inner loop of `lock_acquire`, some
-- steps of the processors lead to a state in which it holds the lock.
pub waiting_may_hold :
    {s : System}
    → Reach s
    → (i : ℕ) → s.pc i ≡ pausing
    → (t : System) × Steps s t × (t.pc i ≡ holding)
waiting_may_hold {s} r i e = elim (ℕ_discrete s.word 0) [
  | yes z ↦ holds_after i here z e
  | no n ↦
      let (o, owner) = (Reach-IsLock r).taken (omega (arith, (Reach-IsLock r).one)) in
      owner_leaves o owner
]
  where
    left : System → ℕ → System
    left t o = record { word = 0; pc = update t.pc o outside }

    after_release :
        (t : System) (o : ℕ)
        → Steps s t
        → t.pc o ≡ releasing
        → t.pc i ≡ pausing
        → (u : System) × Steps s u × (u.pc i ≡ holding)
    after_release t o st at_store waits =
        let ne : o ≢ i = λ q. ground (arith, ap t.pc q) in
        holds_after {t = left t o} i (next st (turn o {p = outside} (rw at_store store_zero))) refl
          (ground arith)

    owner_leaves : (o : ℕ) → owns (s.pc o) ≡ true → (u : System) × Steps s u × (u.pc i ≡ holding)
    owner_leaves o owner = elim (owner_at (s.pc o) owner) [
      | inl holds ↦
          let called : System = record { word = s.word; pc = update s.pc o releasing } in
          after_release called o (next here (turn o {p = releasing} (rw holds call_release)))
            (ground arith) (ground (arith, ap s.pc {x = o} {y = i}))
      | inr stores ↦ after_release s o here stores e
    ]
