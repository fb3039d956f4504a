-- ===== src/Processors/Defs.antt =====
-- The part of `kernel_main` in src/common/main.c that starts the other processors, by the entries
-- of the MADT. What it sends to the local controller of the boot processor is a list. What it reads
-- from `cpu_startup_increment` while it waits, which the other processors count up, is a parameter:
-- `increment entry read` is the value at that read of the wait for the processor of that entry.
use kokos.Shared.{
  ℕ, zero, suc, ◌+◌, ◌*◌, ◌/◌, ◌%◌, ◌^◌, bit_and, bit_or, true, false, List, [], ◌∷◌, ◌++◌, Outcome,
  ok, spin, ◌>>=◌, ltb, ◌==◌, if◌then◌else◌,
}
use kokos.Word.Bytes.{load}
use kokos.Acpi.Madt.{madt_iterate_type}

pub data ApicCall : Type 0 where
  interrupt_command1 : ℕ → ApicCall
  interrupt_command0 : ℕ → ApicCall
  wait_millisecond : ApicCall
  -- `cpu_startup_increment = 0`, and that the wait for it to change is over
  reset_startup : ApicCall
  startup_counted : ApicCall
  -- the messages for a processor that is left out
  skip_disabled : ApicCall
  skip_boot : ApicCall
  -- the message for code that no processor can start at, before the `return`
  code_too_high : ApicCall

-- `ACPI_MADT_TYPE_LOCAL_APIC`
abbrev pub type_local_apic : ℕ
type_local_apic = 0

-- Fields of `struct acpi_madt_entry_local_apic`.
abbrev apic_id_of : (ℕ → ℕ) → ℕ → ℕ
apic_id_of memory entry = memory (entry + 3)

abbrev flags_of : (ℕ → ℕ) → ℕ → ℕ
flags_of memory entry = load 4 memory (entry + 4)

-- The interrupts INIT, SIPI and SIPI again.
unfoldable pub send_startup : ℕ → ℕ → List ApicCall
send_startup cpu_startup_vector apic_id =
    reset_startup
    ∷ interrupt_command1 (apic_id * 2 ^ 24 % 2 ^ 32)
    ∷ interrupt_command0 (bit_or (1 * 2 ^ 14) (0b101 * 2 ^ 8))
    ∷ wait_millisecond
    ∷ interrupt_command1 (apic_id * 2 ^ 24 % 2 ^ 32)
    ∷ interrupt_command0 (bit_or (bit_or (1 * 2 ^ 14) (0b110 * 2 ^ 8)) cpu_startup_vector)
    ∷ wait_millisecond
    ∷ interrupt_command1 (apic_id * 2 ^ 24 % 2 ^ 32)
    ∷ interrupt_command0 (bit_or (bit_or (1 * 2 ^ 14) (0b110 * 2 ^ 8)) cpu_startup_vector)
    ∷ []

-- `while (!cpu_startup_increment)`, from a read on. It returns the read that ended it.
unfoldable pub wait_startup : ℕ → (ℕ → ℕ) → ℕ → Outcome ℕ
wait_startup zero increment read = spin
wait_startup (suc rounds) increment read = elim (increment read == 0) [
  | true ↦ wait_startup rounds increment (read + 1)
  | false ↦ ok read
]

-- The body of the loop.
unfoldable pub start_processor : ℕ → (ℕ → ℕ) → ℕ → ℕ → (ℕ → ℕ → ℕ) → ℕ → Outcome (List ApicCall)
unfolding send_startup wait_startup
start_processor wait_rounds memory boot_apic_id cpu_startup_vector increment processor =
    if bit_and (flags_of memory processor) 0b1 == 0
    then ok (skip_disabled ∷ [])
    else if apic_id_of memory processor == boot_apic_id
    then ok (skip_boot ∷ [])
    else (wait_startup wait_rounds (increment processor) 0 >>= λ _.
        ok (send_startup cpu_startup_vector (apic_id_of memory processor) ++ startup_counted ∷ []))

-- `while (current = acpi_madt_iterate_type(madt, current, …))`, where each call of the iteration
-- has `entry_rounds` rounds.
unfoldable pub start_loop :
    ℕ → ℕ → (ℕ → Outcome (List ApicCall)) → (ℕ → ℕ) → ℕ → ℕ → Outcome (List ApicCall)
start_loop zero entry_rounds body memory madt current = spin
start_loop (suc rounds) entry_rounds body memory madt current =
    madt_iterate_type entry_rounds memory madt current type_local_apic >>= λ next.
    elim (next == 0) [
      | true ↦ ok []
      | false ↦ body next >>= λ calls.
          start_loop rounds entry_rounds body memory madt next >>= λ others. ok (calls ++ others)
    ]

-- From the address `cpu_startup16` of the code at which the processors start.
unfoldable pub start_processors :
    ℕ → ℕ → (ℕ → ℕ) → ℕ → ℕ → ℕ → (ℕ → ℕ → ℕ) → Outcome (List ApicCall)
unfolding start_loop start_processor
start_processors rounds wait_rounds memory madt boot_apic_id cpu_startup16 increment =
    let cpu_startup_vector = cpu_startup16 / 2 ^ 12 % 2 ^ 32 in
    if ltb 255 cpu_startup_vector
    then ok (code_too_high ∷ [])
    else start_loop rounds rounds
        (start_processor wait_rounds memory boot_apic_id cpu_startup_vector increment) memory madt 0
