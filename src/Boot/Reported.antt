-- ===== src/Boot/Reported.antt =====
-- The way of `kernel_main` to the MADT: its end and its messages.
use kokos.Shared.{ℕ, ◌+◌, ◌*◌, ◌<◌, ◌≡◌, ◌≢◌, Outcome, ok, fault, spin}
use kokos.Word.Bytes.{load}
use kokos.Acpi.Defs.{
  rsdtp_signature, validate_rsdt_pointer, validate_sdt, rsdt_get_table, madt_signature,
}
use kokos.Acpi.First.{First}
use kokos.Apic.Defs.{check_supported}
use kokos.Boot.Firmware.{
  Failure, rsdp_not_found, rsdp_checksum, rsdt_checksum, fadt_not_found, fadt_not_valid,
  dsdt_not_found, dsdt_not_valid, madt_not_found, madt_not_valid, apic_not_supported, Found, failed,
  found, fadt_signature,
}

-- What the kernel goes on with: a root pointer and a root table that are right, and a table that is
-- there, has the signature of a MADT and the right checksum.
pub record IsUsable (memory : ℕ → ℕ) (edx rsdtp madt : ℕ) : Type 0 where
  pub pointer : load 8 memory rsdtp ≡ rsdtp_signature
  pub pointer_valid : validate_rsdt_pointer memory rsdtp ≡ 0
  pub root_valid : validate_sdt memory (load 4 memory (rsdtp + 16)) ≡ 0
  pub nonnull : madt ≢ 0
  pub valid : validate_sdt memory madt ≡ 0
  pub signed : load 4 memory madt ≡ madt_signature
  pub supported : check_supported edx ≢ 0

-- The tables by their signatures, and the one that the FADT names.
abbrev table_at : (ℕ → ℕ) → ℕ → ℕ → ℕ
table_at memory rsdtp signature = rsdt_get_table memory (load 4 memory (rsdtp + 16)) signature

abbrev dsdt_at : (ℕ → ℕ) → ℕ → ℕ
dsdt_at memory rsdtp = load 4 memory (table_at memory rsdtp fadt_signature + 40)

-- What is wrong with the tables when a message is shown.
abbrev pub Reason : (ℕ → ℕ) → ℕ → ℕ → Failure → Type 0
Reason memory edx rsdtp rsdp_not_found =
    (k : ℕ) → k < 32768 → load 8 memory (0x80000 + 16 * k) ≢ rsdtp_signature
Reason memory edx rsdtp rsdp_checksum = validate_rsdt_pointer memory rsdtp ≢ 0
Reason memory edx rsdtp rsdt_checksum = validate_sdt memory (load 4 memory (rsdtp + 16)) ≢ 0
Reason memory edx rsdtp fadt_not_found = table_at memory rsdtp fadt_signature ≡ 0
Reason memory edx rsdtp fadt_not_valid =
    validate_sdt memory (table_at memory rsdtp fadt_signature) ≢ 0
Reason memory edx rsdtp dsdt_not_found = dsdt_at memory rsdtp ≡ 0
Reason memory edx rsdtp dsdt_not_valid = validate_sdt memory (dsdt_at memory rsdtp) ≢ 0
Reason memory edx rsdtp madt_not_found = table_at memory rsdtp madt_signature ≡ 0
Reason memory edx rsdtp madt_not_valid =
    validate_sdt memory (table_at memory rsdtp madt_signature) ≢ 0
Reason memory edx rsdtp apic_not_supported = check_supported edx ≡ 0

pub data Reported (memory : ℕ → ℕ) (edx rsdtp : ℕ) : Found → Type 0 where
  stopped :
      (failure : Failure)
      → Reason memory edx rsdtp failure
      → Reported memory edx rsdtp (failed failure)
  usable : (madt : ℕ) → IsUsable memory edx rsdtp madt → Reported memory edx rsdtp (found madt)

value_of : Outcome ℕ → ℕ
value_of (ok n) = n
value_of fault = 0
value_of spin = 0
