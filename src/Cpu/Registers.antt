-- ===== src/Cpu/Registers.antt =====
-- Writing and reading the model specific registers.
use kokos.Shared.{ℕ, ◌*◌, ◌/◌, ◌%◌, ◌^◌, ◌<◌, ◌≡◌, ◌≢◌, refl, ◌∙◌, arith, false, true, ◌==◌, ==_iff}
use kokos.Word.Join.{bit_or-add_high}
use kokos.Cpu.Defs.{cpu_read_msr, cpu_write_msr}

-- A value of 64 bits that is written to a register is read from it, and every other register is read
-- as before.
cpu_write_msr-reads :
    (register_index value : ℕ) (registers : ℕ → ℕ × ℕ)
    → value < 2 ^ 64
    → (cpu_read_msr register_index (cpu_write_msr register_index value registers) ≡ value)
      × ((r : ℕ)
          → r ≢ register_index
          → cpu_read_msr r (cpu_write_msr register_index value registers)
            ≡ cpu_read_msr r registers)
unfolding cpu_read_msr cpu_write_msr
cpu_write_msr-reads register_index value registers fits =
    let here : (register_index == register_index) ≡ true =
      (==_iff register_index register_index).1 refl in
    let upper : value / 2 ^ 32 % 2 ^ 32 * 2 ^ 32 % 2 ^ 64 ≡ value / 2 ^ 32 * 2 ^ 32 = omega arith in
    (
      rw (here, upper)
          (bit_or-add_high 32 (value % 2 ^ 32) (value / 2 ^ 32) (omega arith) ∙ omega arith),
      λ r ne. let there : (r == register_index) ≡ false = ground arith in rw there refl,
    )
