-- ===== src/Cpu/Wait.antt =====
-- The waits by the time stamp counter, on one that goes on.
use kokos.Shared.{
  ℕ, zero, suc, ◌+◌, ◌-◌, ◌%◌, ◌^◌, ◌<◌, ◌≤◌, ◌≡◌, refl, inl, inr, ok, arith, ltb, Bool-cases,
}
use kokos.Cpu.Defs.{wait_loop, cpu_wait_microsecond, cpu_wait_millisecond}

-- The counter goes on between any two reads, by less than half of its range, and may wrap around:
-- `elapsed` is what it counted since the first read.
record IsCounter (timestamp elapsed : ℕ → ℕ) : Type 0 where
  begins : elapsed 0 ≡ 0
  first : timestamp 0 < 2 ^ 64
  shows : (k : ℕ) → timestamp k ≡ (timestamp 0 + elapsed k) % 2 ^ 64
  goes_on : (k : ℕ) → elapsed k < elapsed (k + 1)
  steps : (k : ℕ) → elapsed (k + 1) < elapsed k + 2 ^ 63

module _ (timestamp elapsed : ℕ → ℕ) (counter : IsCounter timestamp elapsed) (ticks : ℕ)
    (short : ticks < 2 ^ 63) where
  wait_loop-waits :
      (rounds k : ℕ)
      → 0 < rounds
      → elapsed k < 2 ^ 64
      → ticks < elapsed k + rounds
      → (n : ℕ) × (wait_loop rounds ticks timestamp (timestamp 0) (timestamp k) (k + 1)
          ≡ ok (n + 1))
        × (ticks ≤ elapsed n)
  unfolding wait_loop
  wait_loop-waits zero k some few enough = absurd (omega arith)
  wait_loop-waits (suc rounds) k some few enough =
      let same : (timestamp k + (2 ^ 64 - timestamp 0)) % 2 ^ 64 ≡ elapsed k =
        omega (arith, counter.shows k, counter.first) in
      elim (Bool-cases (ltb (elapsed k) ticks)) [
        | inl early ↦
            let (n, run, long) =
              wait_loop-waits rounds (k + 1) (ground arith) (ground (arith, counter.steps k))
                (ground (arith, counter.goes_on k)) in
            (n, rw (wait_loop, same, early) run, long)
        | inr late ↦ (k, rw (wait_loop, same, late) refl, ground arith)
      ]

-- When the counter goes on between any two reads, by less than half of its range, both waits end,
-- after at most one read more than the ticks of the wait, and by then the counter went on by these
-- ticks since its first read, also where it wraps around.
cpu_wait-waits :
    (timestamp elapsed : ℕ → ℕ)
    → IsCounter timestamp elapsed
    → ((n : ℕ) × (cpu_wait_microsecond 10001 timestamp ≡ ok (n + 1)) × (10000 ≤ elapsed n))
      × ((n : ℕ) × (cpu_wait_millisecond 10000001 timestamp ≡ ok (n + 1)) × (10000000 ≤ elapsed n))
unfolding cpu_wait_microsecond cpu_wait_millisecond
cpu_wait-waits timestamp elapsed counter = (
  wait_loop-waits timestamp elapsed counter 10000 (omega arith) 10001 0 (omega arith)
      (omega (arith, counter.begins)) (omega arith),
  wait_loop-waits timestamp elapsed counter 10000000 (omega arith) 10000001 0 (omega arith)
      (omega (arith, counter.begins)) (omega arith),
)
