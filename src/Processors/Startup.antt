-- ===== src/Processors/Startup.antt =====
-- One processor: what is to be sent for it, and what the body of the loop does.
use kokos.Shared.{
  ℕ, zero, suc, ◌+◌, ◌*◌, ◌%◌, ◌^◌, ◌<◌, ◌≡◌, ◌≢◌, refl, ap, sym, ◌∙◌, inl, inr, List, [], ◌∷◌,
  ◌++◌, ok, spin, ◌>>=◌, true, bit_and, bit_or, arith, ◌==◌, ==_iff, Bool-cases,
}
use kokos.Word.Bits.{bit_and-low_mask}
use kokos.Word.Bytes.{load}
use kokos.Word.Join.{bit_or-add_high}
use kokos.Acpi.Madt.{entry_type}
use kokos.Processors.Defs.{
  ApicCall, interrupt_command1, interrupt_command0, wait_millisecond, reset_startup,
  startup_counted, skip_disabled, skip_boot, send_startup, wait_startup, start_processor,
}

-- The bit of the flags of a processor that says that it is enabled.
abbrev enabled : (ℕ → ℕ) → ℕ → ℕ
enabled memory e = load 4 memory (e + 4) % 2

-- INIT, and twice SIPI with the page number of the code, each behind the number of the processor.
abbrev startup : ℕ → ℕ → List ApicCall → List ApicCall
startup page apic_id calls =
    reset_startup
    ∷ interrupt_command1 (apic_id * 0x01000000 % 2 ^ 32)
    ∷ interrupt_command0 0x4500
    ∷ wait_millisecond
    ∷ interrupt_command1 (apic_id * 0x01000000 % 2 ^ 32)
    ∷ interrupt_command0 (0x4600 + page)
    ∷ wait_millisecond
    ∷ interrupt_command1 (apic_id * 0x01000000 % 2 ^ 32)
    ∷ interrupt_command0 (0x4600 + page)
    ∷ startup_counted
    ∷ calls

-- What is to be sent for the entries of a MADT: nothing for one of another type, a message for a
-- processor that is not enabled or is the boot processor, and a start for each other processor.
pub data Started (memory : ℕ → ℕ) (boot_apic_id page : ℕ) : List ℕ → List ApicCall → Type 0 where
  none : Started memory boot_apic_id page [] []
  no_processor :
      {e : ℕ} {entries : List ℕ} {calls : List ApicCall}
      → entry_type memory e ≢ 0
      → Started memory boot_apic_id page entries calls
      → Started memory boot_apic_id page (e ∷ entries) calls
  disabled :
      {e : ℕ} {entries : List ℕ} {calls : List ApicCall}
      → entry_type memory e ≡ 0
      → enabled memory e ≡ 0
      → Started memory boot_apic_id page entries calls
      → Started memory boot_apic_id page (e ∷ entries) (skip_disabled ∷ calls)
  boot :
      {e : ℕ} {entries : List ℕ} {calls : List ApicCall}
      → entry_type memory e ≡ 0
      → enabled memory e ≡ 1
      → memory (e + 3) ≡ boot_apic_id
      → Started memory boot_apic_id page entries calls
      → Started memory boot_apic_id page (e ∷ entries) (skip_boot ∷ calls)
  started :
      {e : ℕ} {entries : List ℕ} {calls : List ApicCall}
      → entry_type memory e ≡ 0
      → enabled memory e ≡ 1
      → memory (e + 3) ≢ boot_apic_id
      → Started memory boot_apic_id page entries calls
      → Started memory boot_apic_id page (e ∷ entries) (startup page (memory (e + 3)) calls)

-- A processor that is to be started counts up within the given number of reads.
pub record Answers (wait_rounds : ℕ) (memory : ℕ → ℕ) (boot_apic_id : ℕ) (increment : ℕ → ℕ → ℕ)
    : Type 0 where
  pub answer :
      (e : ℕ)
      → entry_type memory e ≡ 0
      → enabled memory e ≡ 1
      → memory (e + 3) ≢ boot_apic_id
      → (k : ℕ) × (k < wait_rounds) × (increment e k ≢ 0)

-- The wait ends when one of its reads gives a number that is not 0; while all give 0 it goes on.
wait_startup-ends :
    (rounds read k : ℕ) (increment : ℕ → ℕ)
    → k < rounds
    → increment (read + k) ≢ 0
    → (last : ℕ) × (wait_startup rounds increment read ≡ ok last)
unfolding wait_startup
wait_startup-ends zero read k increment enough some = absurd (omega arith)
wait_startup-ends (suc rounds) read k increment enough some =
    elim (Bool-cases (increment read == 0)) [
      | inl null ↦
          let (last, run) =
            behind k (λ k lt more. wait_startup-ends rounds (read + 1) k increment lt more) enough
              some ((==_iff (increment read) 0).0 null) in
          (last, rw (wait_startup, null) run)
      | inr counted ↦ (read, rw (wait_startup, counted) refl)
    ]
  where
    behind :
        (k : ℕ)
        → ((k : ℕ)
            → k < rounds
            → increment (read + 1 + k) ≢ 0
            → (last : ℕ) × (wait_startup rounds increment (read + 1) ≡ ok last))
        → k < suc rounds
        → increment (read + k) ≢ 0
        → increment read ≡ 0
        → (last : ℕ) × (wait_startup rounds increment (read + 1) ≡ ok last)
    behind zero later enough some null =
        let e : read ≡ read + 0 = omega arith in absurd (some (ap increment (sym e) ∙ null))
    behind (suc k) later enough some null =
        let e : read + 1 + k ≡ read + suc k = omega arith in
        later k (omega arith) (λ z. some (ap increment (sym e) ∙ z))

wait_startup-spin :
    (rounds read : ℕ) (increment : ℕ → ℕ)
    → ((k : ℕ) → increment k ≡ 0)
    → wait_startup rounds increment read ≡ spin
unfolding wait_startup
wait_startup-spin zero read increment never = refl
wait_startup-spin (suc rounds) read increment never =
    let null : (increment read == 0) ≡ true = ground (arith, never read) in
    rw (wait_startup, null) (wait_startup-spin rounds (read + 1) increment never)

send_startup-startup :
    (page apic_id : ℕ) (calls : List ApicCall)
    → page < 256
    → send_startup page apic_id ++ startup_counted ∷ calls ≡ startup page apic_id calls
unfolding send_startup
send_startup-startup page apic_id calls small =
    let vector : bit_or 0x4600 page ≡ 0x4600 + page =
      bit_or-add_high 9 page 35 (omega arith) ∙ omega arith in
    rw vector refl

-- What the body does for one processor, in front of what is done for the others.
pub start_processor-Started :
    {memory : ℕ → ℕ} {wait_rounds boot_apic_id page : ℕ} {increment : ℕ → ℕ → ℕ} (e : ℕ)
    → page < 256
    → entry_type memory e ≡ 0
    → Answers wait_rounds memory boot_apic_id increment
    → (calls : List ApicCall) × (start_processor wait_rounds memory boot_apic_id page increment e
        ≡ ok calls)
      × ((entries : List ℕ) (others : List ApicCall)
          → Started memory boot_apic_id page entries others
          → Started memory boot_apic_id page (e ∷ entries) (calls ++ others))
unfolding start_processor
start_processor-Started {memory} {wait_rounds} {boot_apic_id} {page} {increment} e small local
      answers =
    let flag : bit_and (load 4 memory (e + 4)) 1 ≡ enabled memory e =
      bit_and-low_mask 1 (load 4 memory (e + 4)) in
    elim (Bool-cases (enabled memory e == 0)) [
      | inl off ↦ (
        skip_disabled ∷ [],
        rw (flag, off) refl,
        λ entries others rest. disabled local ((==_iff (enabled memory e) 0).0 off) rest,
      )
      | inr on ↦
          let one : enabled memory e ≡ 1 = ground arith in
          elim (Bool-cases (memory (e + 3) == boot_apic_id)) [
            | inl same ↦ (
              skip_boot ∷ [],
              rw (flag, on, same) refl,
              λ entries others rest.
                  boot local one ((==_iff (memory (e + 3)) boot_apic_id).0 same) rest,
            )
            | inr other ↦
                let differs : memory (e + 3) ≢ boot_apic_id = ground arith in
                let (k, enough, counts) = answers.answer e local one differs in
                let (last, over) =
                  wait_startup-ends wait_rounds 0 k (increment e) enough (
                    let z : 0 + k ≡ k = omega arith in
                    λ n. counts (ap (increment e) (sym z) ∙ n)) in
                (
                  startup page (memory (e + 3)) [],
                  rw (flag, on, other, over, ◌>>=◌)
                      (ap ok (send_startup-startup page (memory (e + 3)) [] small)),
                  λ entries others rest. started local one differs rest,
                )
          ]
    ]
