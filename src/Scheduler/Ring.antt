-- ===== src/Scheduler/Ring.antt =====
-- The list of processes as a ring: who comes after whom.
use kokos.Shared.{
  ℕ, ◌≡◌, ◌≢◌, refl, sym, ◌∙◌, inl, inr, true, false, List, [], ◌∷◌, ◌++◌, arith, ◌==◌, Bool-cases,
}
use kokos.Scheduler.Defs.{
  InterruptFrame, Process, Cpu, store_process, insert_process, save, restore, handle_interrupt,
}
use kokos.Scheduler.Switch.{switched, handle_interrupt_switch}

-- The `next` pointers lead from `a` through the processes of the list to `z`.
abbrev pub Leads : (ℕ → Process) → ℕ → List ℕ → ℕ → Type 0
Leads process a [] z = (process a).next ≡ z
Leads process a (b ∷ bs) z = ((process a).next ≡ b) × Leads process b bs z

-- None of the list is `a`.
abbrev pub Misses : ℕ → List ℕ → Type 0
Misses a [] = Unit {0}
Misses a (b ∷ bs) = (b ≢ a) × Misses a bs

abbrev pub Distinct : List ℕ → Type 0
Distinct [] = Unit {0}
Distinct (a ∷ bs) = Misses a bs × Distinct bs

-- The current process and the ones that come after it, in order, each once.
pub record IsRing (cpu : Cpu) (others : List ℕ) : Type 0 where
  pub leads : Leads cpu.process cpu.current_process others cpu.current_process
  pub once : Distinct (cpu.current_process ∷ others)

-- A change of the pointers of one process, off the way.
Leads-store :
    (process : ℕ → Process) (address : ℕ) (p : Process) (a : ℕ) (bs : List ℕ) (z : ℕ)
    → a ≢ address
    → Misses address bs
    → Leads process a bs z
    → Leads (store_process address p process) a bs z
Leads-store process address p a [] z ne away h =
    let test : (a == address) ≡ false = ground arith in rw test h
Leads-store process address p a (b ∷ bs) z ne away h =
    let test : (a == address) ≡ false = ground arith in
    (rw test (h.0), Leads-store process address p b bs z away.0 away.1 h.1)

-- The way depends on the first process only by its `next`.
Leads-from :
    (process : ℕ → Process) (a b : ℕ) (bs : List ℕ) (z : ℕ)
    → (process b).next ≡ (process a).next
    → Leads process a bs z
    → Leads process b bs z
Leads-from process a b [] z e h = e ∙ h
Leads-from process a b (x ∷ xs) z e h = (e ∙ h.0, h.1)

Leads-same :
    (process process' : ℕ → Process) (a : ℕ) (bs : List ℕ) (z : ℕ)
    → ((i : ℕ) → (process' i).next ≡ (process i).next)
    → Leads process a bs z
    → Leads process' a bs z
Leads-same process process' a [] z e h = e a ∙ h
Leads-same process process' a (x ∷ xs) z e h = (e a ∙ h.0, Leads-same process process' x xs z e h.1)

Leads-snoc :
    (process : ℕ → Process) (a : ℕ) (bs : List ℕ) (c z : ℕ)
    → Leads process a bs c
    → (process c).next ≡ z
    → Leads process a (bs ++ (c ∷ [])) z
Leads-snoc process a [] c z h e = (h, e)
Leads-snoc process a (x ∷ xs) c z h e = (h.0, Leads-snoc process x xs c z h.1 e)

Misses-snoc : (a : ℕ) (bs : List ℕ) (c : ℕ) → Misses a bs → c ≢ a → Misses a (bs ++ (c ∷ []))
Misses-snoc a [] c h ne = (ne, _)
Misses-snoc a (b ∷ bs) c h ne = (h.0, Misses-snoc a bs c h.1 ne)

Distinct-snoc : (bs : List ℕ) (c : ℕ) → Distinct bs → Misses c bs → Distinct (bs ++ (c ∷ []))
Distinct-snoc [] c d h = (_, _)
Distinct-snoc (b ∷ bs) c d h =
    (Misses-snoc b bs c d.0 (λ e. h.0 (sym e)), Distinct-snoc bs c d.1 h.1)

module _ (address : ℕ) (cpu : Cpu) where
  abbrev current : ℕ
  current = cpu.current_process

  -- The processes with the pointers of the new one set, and then with that of the current one.
  abbrev added : ℕ → Process
  added =
      store_process address
        (record (cpu.process address) { next = (cpu.process current).next; previous = current })
        cpu.process

  abbrev linked : ℕ → Process
  linked = store_process current (record (added current) { next = address }) added

  insert_process_run : current ≢ 0 → insert_process address cpu ≡ record cpu { process = linked }
  unfolding insert_process
  insert_process_run some = let test : (current == 0) ≡ false = ground arith in rw test refl

  -- When there is a current process and it and the others form a ring, a process that is none of
  -- them goes in right behind the current one, and the others keep their order.
  pub insert_process-IsRing :
      (others : List ℕ)
      → current ≢ 0
      → address ≢ current
      → Misses address others
      → IsRing cpu others
      → IsRing (insert_process address cpu) (address ∷ others)
  insert_process-IsRing others some new away ring =
      let here : (current == current) ≡ true = ground arith in
      let there : (address == address) ≡ true = ground arith in
      let apart : (current == address) ≡ false = ground arith in
      let same : (added address).next ≡ (added current).next = rw (there, apart) refl in
      let after : Leads linked address others current =
        Leads-store added current (record (added current) { next = address }) address others current
          new ring.once.0
          (Leads-from added current address others current same (
            Leads-store cpu.process address
              (record (cpu.process address) {
                next = (cpu.process current).next;
                previous = current;
              })
              current others current (λ e. new (sym e)) away ring.leads)) in
      let first : (linked current).next ≡ address = rw here refl in
      rw (insert_process_run some)
        (record { leads = (first, after); once = ((new, ring.once.0), (away, ring.once.1)) })

-- When the current process and the others form a ring with another process next, the timer makes
-- the next process the current one, and the ring then has the one that was current at its end and
-- the others in their order.
pub handle_interrupt-IsRing :
    (stack : InterruptFrame) (cpu : Cpu) (next : ℕ) (others : List ℕ)
    → IsRing cpu (next ∷ others)
    → (stack' : InterruptFrame) × (cpu' : Cpu) × (handle_interrupt stack cpu ≡ (stack', cpu'))
      × (cpu'.current_process ≡ next)
      × IsRing cpu' (others ++ (cpu.current_process ∷ []))
unfolding save
handle_interrupt-IsRing stack cpu next others ring =
    let cpu' : Cpu = switched next stack cpu in
    (
      restore (cpu.process next) stack,
      cpu',
      handle_interrupt_switch stack cpu ring.leads.0 (λ e. ring.once.0.0 (sym e)),
      refl,
      record {
        leads =
            Leads-same cpu.process cpu'.process next (others ++ (cpu.current_process ∷ [])) next
              same_next
              (Leads-snoc cpu.process next others cpu.current_process next ring.leads.1
                ring.leads.0);
        once = (
          Misses-snoc next others cpu.current_process ring.once.1.0 (λ e. ring.once.0.0 (sym e)),
          Distinct-snoc others cpu.current_process ring.once.1.1 ring.once.0.1,
        );
      },
    )
  where
    same_next : (i : ℕ) → ((switched next stack cpu).process i).next ≡ (cpu.process i).next
    same_next i = elim (Bool-cases (i == cpu.current_process)) [
      | inl same ↦ let at : i ≡ cpu.current_process = ground arith in rw (same, at) refl
      | inr other ↦ rw other refl
    ]
