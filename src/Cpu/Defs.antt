-- ===== src/Cpu/Defs.antt =====
-- src/common/cpu.c: the waits by the time stamp counter, and the model specific registers. What the
-- counter shows at each of its reads is a parameter; a register is its two halves.
use kokos.Shared.{
  ℕ, zero, suc, ◌+◌, ◌-◌, ◌*◌, ◌/◌, ◌%◌, ◌^◌, bit_or, true, false, Outcome, ok, spin, ltb, ◌==◌,
  if◌then◌else◌,
}

-- The halves that `rdtsc` gives, the lower one first.
unfoldable pub cpu_timestamp : ℕ × ℕ → ℕ
cpu_timestamp (lower, upper) = bit_or lower (upper * 2 ^ 32 % 2 ^ 64)

-- The loop of both waits, with the number of the next read. It returns how many reads there were.
unfoldable pub wait_loop : ℕ → ℕ → (ℕ → ℕ) → ℕ → ℕ → ℕ → Outcome ℕ
wait_loop zero ticks timestamp start current next = spin
wait_loop (suc rounds) ticks timestamp start current next =
    elim (ltb ((current + (2 ^ 64 - start)) % 2 ^ 64) ticks) [
      | true ↦ wait_loop rounds ticks timestamp start (timestamp next) (next + 1)
      | false ↦ ok next
    ]

unfoldable pub cpu_wait_microsecond : ℕ → (ℕ → ℕ) → Outcome ℕ
unfolding wait_loop
cpu_wait_microsecond rounds timestamp =
    wait_loop rounds 10000 timestamp (timestamp 0) (timestamp 0) 1

unfoldable pub cpu_wait_millisecond : ℕ → (ℕ → ℕ) → Outcome ℕ
unfolding wait_loop
cpu_wait_millisecond rounds timestamp =
    wait_loop rounds 10000000 timestamp (timestamp 0) (timestamp 0) 1

-- The lower and the upper half of each register.
unfoldable pub cpu_read_msr : ℕ → (ℕ → ℕ × ℕ) → ℕ
cpu_read_msr register_index registers =
    let (lower, upper) = registers register_index in bit_or (upper * 2 ^ 32 % 2 ^ 64) lower

unfoldable pub cpu_write_msr : ℕ → ℕ → (ℕ → ℕ × ℕ) → ℕ → ℕ × ℕ
cpu_write_msr register_index value registers r =
    if r == register_index then (value % 2 ^ 32, value / 2 ^ 32 % 2 ^ 32) else registers r
