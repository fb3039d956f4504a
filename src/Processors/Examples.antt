-- ===== src/Processors/Examples.antt =====
-- The theorem about the start of the processors at a small MADT.
use kokos.Shared.{ℕ, ◌≡◌, refl, [], ◌∷◌, ◌++◌, ok, spin, ◌/◌, replicate}
use kokos.Word.Bytes.{load, bytes_from}
use kokos.Acpi.Madt.{madt_iterate, madt_iterate_type, find_type}
use kokos.Acpi.Entries.{Entries}
use kokos.Processors.Defs.{
  start_processor, start_processors, start_loop, wait_startup, send_startup, skip_boot,
  startup_counted,
}
use kokos.Processors.Startup.{Started}

-- The boot processor with the number 4, an I/O controller and a processor with the number 6.
abbrev memory : ℕ → ℕ
memory = bytes_from 0x1000 (
    (0x41 ∷ 0x50 ∷ 0x49 ∷ 0x43 ∷ 72 ∷ [])
    ++ replicate 39 0
    ++ (0 ∷ 8 ∷ 3 ∷ 4 ∷ 1 ∷ 0 ∷ 0 ∷ 0 ∷ [])
    ++ (1 ∷ 12 ∷ 2 ∷ 0 ∷ 0 ∷ 0 ∷ 0xC0 ∷ 0xFE ∷ 0 ∷ 0 ∷ 0 ∷ 0 ∷ [])
    ++ (0 ∷ 8 ∷ 5 ∷ 6 ∷ 1 ∷ 0 ∷ 0 ∷ 0 ∷ []))

-- Every processor counts up before the third read.
abbrev counts : ℕ → ℕ → ℕ
counts processor read = read / 2

second_processor_test :
    start_processors 4 3 memory 0x1000 4 0x8000 counts
    ≡ ok (skip_boot ∷ send_startup 8 6 ++ startup_counted ∷ [])
unfolding start_processors start_loop start_processor wait_startup send_startup load
    madt_iterate_type madt_iterate find_type
second_processor_test = refl

-- A processor that never counts up holds the boot processor.
no_answer_test : start_processors 4 3 memory 0x1000 4 0x8000 (λ processor read. 0) ≡ spin
unfolding start_processors start_loop start_processor wait_startup send_startup load
    madt_iterate_type madt_iterate find_type
no_answer_test = refl
