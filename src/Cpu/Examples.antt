-- ===== src/Cpu/Examples.antt =====
-- Tests of the waits and of the registers.
use kokos.Shared.{ℕ, ◌+◌, ◌-◌, ◌*◌, ◌%◌, ◌^◌, ◌≡◌, refl, ok}
use kokos.Cpu.Defs.{cpu_timestamp, cpu_wait_microsecond, wait_loop, cpu_read_msr, cpu_write_msr}

-- A counter that wraps around behind its first read.
abbrev wrapping : ℕ → ℕ
wrapping k = (2 ^ 64 - 1 + k * 5000) % 2 ^ 64

wrapping_test : cpu_wait_microsecond 10001 wrapping ≡ ok 3
unfolding cpu_wait_microsecond wait_loop
wrapping_test = refl

timestamp_test : cpu_timestamp (0xDDCCBBAA, 0x11) ≡ 0x11_DDCC_BBAA
unfolding cpu_timestamp
timestamp_test = refl

register_test : cpu_read_msr 0x1B (cpu_write_msr 0x1B 0xFEE0_0900 (λ r. (0, 0))) ≡ 0xFEE0_0900
unfolding cpu_read_msr cpu_write_msr
register_test = refl
