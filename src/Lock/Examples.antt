-- ===== src/Lock/Examples.antt =====
-- The theorems about lock.c at runs of two processors.
use kokos.Shared.{ℕ, ◌≡◌, refl, true, false}
use native.Mathlib.Decide.{ℕ_discrete}
use kokos.Lock.Defs.{
  try_acquire, acquiring, pausing, holding, call_acquire, acquire_won, acquire_lost, System, turn,
  update, init, Reach, start, later,
}
use kokos.Lock.Exclusion.{mutual_exclusion, Steps, waiting_may_hold}

won : (try_acquire 0).1 ≡ true
unfolding try_acquire
won = refl

lost : (try_acquire (try_acquire 0).0).1 ≡ false
unfolding try_acquire
lost = refl

abbrev zero_cpu : ℕ
zero_cpu = 0

-- Processor 0 holds the lock and processor 1 waits for it.
abbrev contended : System
contended = record {
  word = (try_acquire (try_acquire 0).0).0;
  pc = update (update (update (update init.pc 0 acquiring) 0 holding) 1 acquiring) 1 pausing;
}

contended-Reach : Reach contended
unfolding ℕ_discrete
contended-Reach =
    later
      (later (later (later start (turn 0 call_acquire)) (turn 0 (acquire_won won)))
        (turn 1 call_acquire))
      (turn 1 (acquire_lost lost))

mutual_exclusion_example : zero_cpu ≡ 0
unfolding ℕ_discrete
mutual_exclusion_example = mutual_exclusion contended-Reach 0 0 refl refl

waiting_may_hold_example : (t : System) × Steps contended t × (t.pc 1 ≡ holding)
unfolding ℕ_discrete
waiting_may_hold_example = waiting_may_hold contended-Reach 1 refl
