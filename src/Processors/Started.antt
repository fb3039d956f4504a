-- ===== src/Processors/Started.antt =====
-- The loop of `kernel_main` that starts the processors, as a whole.
use kokos.Shared.{ℕ, ◌+◌, ◌<◌, ◌≡◌, ◌⊎◌, List, [], ◌∷◌, length}
use kokos.Acpi.Madt.{entry_type, entry_length}
use kokos.Acpi.Entries.{Entries, first_of_type}
use kokos.Processors.Defs.{ApicCall, type_local_apic}
use kokos.Processors.Startup.{Started}

-- The first processor among some entries, with the entries behind it; or that there is none.
NextOf : (ℕ → ℕ) → ℕ → ℕ → ℕ → List ℕ → Type 0
NextOf memory boot_apic_id page end entries =
    ((first_of_type memory type_local_apic entries ≡ 0)
      × Started memory boot_apic_id page entries [])
    ⊎ ((e : ℕ) × (behind : List ℕ) × (first_of_type memory type_local_apic entries ≡ e)
        × (0 < e)
        × (entry_type memory e ≡ 0)
        × ((calls : List ApicCall)
            → Started memory boot_apic_id page (e ∷ behind) calls
            → Started memory boot_apic_id page entries calls)
        × Entries memory end (e + entry_length memory e) behind
        × (length behind < length entries))
