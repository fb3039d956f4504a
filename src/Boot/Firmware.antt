-- ===== src/Boot/Firmware.antt =====
-- `kernel_main` of src/common/main.c from the root pointer of the firmware to the MADT, with its
-- early returns. What it prints is left out, but not whether the printing of the root table ends: its
-- loop over the entries of a MADT has `rounds` rounds.
use kokos.Shared.{ℕ, ◌+◌, Bool, true, false, not, Outcome, ok, ◌>>=◌, ◌==◌}
use kokos.Word.Bytes.{load}
use kokos.Acpi.Defs.{
  find_rsdt_pointer, validate_rsdt_pointer, validate_sdt, rsdt_get_table, madt_signature,
}
use kokos.Acpi.Print.{print_rsdt}
use kokos.Apic.Defs.{check_supported}

-- The messages before each `return`.
pub data Failure : Type 0 where
  rsdp_not_found : Failure
  rsdp_checksum : Failure
  rsdt_checksum : Failure
  fadt_not_found : Failure
  fadt_not_valid : Failure
  dsdt_not_found : Failure
  dsdt_not_valid : Failure
  madt_not_found : Failure
  madt_not_valid : Failure
  apic_not_supported : Failure

pub data Found : Type 0 where
  failed : Failure → Found
  found : ℕ → Found

-- "FACP"
abbrev pub fadt_signature : ℕ
fadt_signature = 0x50434146

-- `if (test) { …; return; }`
unfoldable pub guard : Bool → Failure → Outcome Found → Outcome Found
guard true failure rest = ok (failed failure)
guard false failure rest = rest

abbrev pub invalid : ℕ → Bool
invalid checksum = not (checksum == 0)

-- From the MADT on. `edx` is the word of the features of the processor.
unfoldable pub check_madt : (ℕ → ℕ) → ℕ → ℕ → Outcome Found
unfolding guard
check_madt memory edx madt = guard (madt == 0) madt_not_found (
    guard (invalid (validate_sdt memory madt)) madt_not_valid
      (guard (check_supported edx == 0) apic_not_supported (ok (found madt))))

-- From the FADT on.
unfoldable pub check_fadt : (ℕ → ℕ) → ℕ → ℕ → ℕ → Outcome Found
unfolding check_madt
check_fadt memory edx rsdt fadt = guard (fadt == 0) fadt_not_found (
    guard (invalid (validate_sdt memory fadt)) fadt_not_valid (
      let dsdt = load 4 memory (fadt + 40) in
      guard (dsdt == 0) dsdt_not_found (
        guard (invalid (validate_sdt memory dsdt)) dsdt_not_valid
          (check_madt memory edx (rsdt_get_table memory rsdt madt_signature)))))

unfoldable pub check_rsdt : ℕ → (ℕ → ℕ) → ℕ → ℕ → Outcome Found
unfolding check_fadt
check_rsdt rounds memory edx rsdt = guard (invalid (validate_sdt memory rsdt)) rsdt_checksum (
    print_rsdt rounds memory rsdt >>= λ _.
    check_fadt memory edx rsdt (rsdt_get_table memory rsdt fadt_signature))

unfoldable pub check_rsdtp : ℕ → (ℕ → ℕ) → ℕ → ℕ → Outcome Found
unfolding check_rsdt
check_rsdtp rounds memory edx rsdtp = guard (rsdtp == 0) rsdp_not_found (
    guard (invalid (validate_rsdt_pointer memory rsdtp)) rsdp_checksum
      (check_rsdt rounds memory edx (load 4 memory (rsdtp + 16))))

unfoldable pub find_madt : ℕ → (ℕ → ℕ) → ℕ → Outcome Found
unfolding check_rsdtp
find_madt rounds memory edx =
    find_rsdt_pointer memory >>= λ rsdtp. check_rsdtp rounds memory edx rsdtp
