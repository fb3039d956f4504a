-- ===== src/Lock/Defs.antt =====
-- The functions of src/common/lock.c as steps between two accesses to the word of the lock. The
-- instruction `lock cmpxchg` is atomic; it is the one thing that the C code leaves to the processor.
use native.Mathlib.Decide.{ℕ_discrete}
use mathlib.Core.Logic.{ite}
use kokos.Shared.{ℕ, ◌≡◌, ◌≢◌, Bool, true, false, ◌==◌, if◌then◌else◌}

-- `lock cmpxchg`: the accumulator and the word afterwards.
unfoldable pub compare_exchange : ℕ → ℕ → ℕ → ℕ × ℕ
compare_exchange accumulator new word =
    if word == accumulator then (accumulator, new) else (word, word)

-- The word after `lock_try_acquire`, and what that returns.
unfoldable pub try_acquire : ℕ → ℕ × Bool
unfolding compare_exchange
try_acquire word =
    let (compare_value, word') = compare_exchange 0 1 word in (word', compare_value == 0)

-- Where a processor stands.
pub data Pc : Type 0 where
  outside : Pc  -- holds no lock, and calls nothing
  trying : Pc  -- in `lock_try_acquire`, before the compare-exchange
  acquiring : Pc  -- in `lock_acquire`, before the compare-exchange
  pausing : Pc  -- in the inner loop of `lock_acquire`, before the test
  holding : Pc  -- has acquired the lock
  releasing : Pc  -- in `lock_release`, before the store

-- One step of one processor, and what it does to the word.
pub data Move (word : ℕ) : Pc → ℕ → Pc → Type 0 where
  call_try : Move word outside word trying
  call_acquire : Move word outside word acquiring
  try_won : (try_acquire word).1 ≡ true → Move word trying (try_acquire word).0 holding
  try_lost : (try_acquire word).1 ≡ false → Move word trying (try_acquire word).0 outside
  acquire_won : (try_acquire word).1 ≡ true → Move word acquiring (try_acquire word).0 holding
  acquire_lost : (try_acquire word).1 ≡ false → Move word acquiring (try_acquire word).0 pausing
  still_taken : word ≢ 0 → Move word pausing word pausing
  seen_free : word ≡ 0 → Move word pausing word acquiring
  call_release : Move word holding word releasing
  store_zero : Move word releasing 0 outside

pub record System : Type 0 where
  pub word : ℕ
  pub pc : ℕ → Pc

abbrev pub update : (ℕ → Pc) → ℕ → Pc → ℕ → Pc
update f i p j = ite (ℕ_discrete i j) p (f j)

pub data Step (s : System) : System → Type 0 where
  turn :
      (cpu : ℕ) {word : ℕ} {p : Pc}
      → Move s.word (s.pc cpu) word p
      → Step s (record { word = word; pc = update s.pc cpu p })

abbrev pub init : System
init = record { word = 0; pc = λ _. outside }

pub data Reach : System → Type 0 where
  start : Reach init
  later : {s t : System} → Reach s → Step s t → Reach t

-- Between the return of an acquisition and the store of the release.
abbrev pub owns : Pc → Bool
owns holding = true
owns releasing = true
owns _ = false
