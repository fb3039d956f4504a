-- ===== src/Acpi/Examples.antt =====
-- The theorems about acpi.c at small tables, and tests of the operations.
use kokos.Shared.{
  ℕ, ◌≡◌, ◌≢◌, refl, ◌+◌, ◌-◌, ◌*◌, ◌/◌, List, [], ◌∷◌, ◌++◌, inr, ok, spin, arith, replicate, ◌==◌,
}
use kokos.Word.Bytes.{load, byte_address, bytes_from}
use kokos.Acpi.Defs.{
  find_rsdt_pointer, rsdtp_signature, rsdt_get_table, xsdt_get_table, rsdt_entry_count,
  validate_sdt, madt_signature, sum_char, first_table, entry_count,
}
use kokos.Acpi.Madt.{madt_iterate, madt_iterate_type}
use kokos.Acpi.First.{First, scanned, find_rsdt_pointer-First, get_table-First}
use kokos.Acpi.Checksum.{change_byte, validate_sdt-detects}
use kokos.Acpi.Entries.{Entries, filled, entry, first_of_type, madt_iterate_type-first}

-- A MADT with a processor and an I/O controller. Its 64 bytes add up to a multiple of 256.
abbrev madt_bytes : List ℕ
madt_bytes =
    (0x41 ∷ 0x50 ∷ 0x49 ∷ 0x43 ∷ 64 ∷ 0 ∷ 0 ∷ 0 ∷ 1 ∷ 197 ∷ [])
    ++ replicate 34 0
    ++ (0 ∷ 8 ∷ 3 ∷ 4 ∷ 1 ∷ 0 ∷ 0 ∷ 0 ∷ [])
    ++ (1 ∷ 12 ∷ 2 ∷ 0 ∷ 0 ∷ 0 ∷ 0xC0 ∷ 0xFE ∷ 0 ∷ 0 ∷ 0 ∷ 0 ∷ [])

abbrev madt_memory : ℕ → ℕ
madt_memory = bytes_from 0x1000 madt_bytes

-- The same with a root table behind it, which lists its own address and then that of the MADT.
abbrev listed_memory : ℕ → ℕ
listed_memory = bytes_from 0x1000 (
    madt_bytes
    ++ (0x52 ∷ 0x53 ∷ 0x44 ∷ 0x54 ∷ 44 ∷ [])
    ++ replicate 31 0
    ++ (0x40 ∷ 0x10 ∷ 0 ∷ 0 ∷ 0 ∷ 0x10 ∷ 0 ∷ 0 ∷ []))

-- One whose first entry has the length 0.
abbrev stuck_memory : ℕ → ℕ
stuck_memory = change_byte 0x102D 0 madt_memory

-- A root table at 0x2000 that lists the address 0x1000.
abbrev root_memory : ℕ → ℕ
root_memory =
    bytes_from 0x2000 ((0x52 ∷ 0x53 ∷ 0x44 ∷ 0x54 ∷ 40 ∷ []) ++ replicate 31 0 ++ (0 ∷ 0x10 ∷ []))

checksum_test : validate_sdt madt_memory 0x1000 ≡ 0
unfolding validate_sdt sum_char byte_address load
checksum_test = refl

io_apic_test : madt_iterate_type 3 madt_memory 0x1000 0 1 ≡ ok 0x1034
unfolding madt_iterate_type madt_iterate load
io_apic_test = refl

-- Of a table with no entries the first entry is the memory behind the table.
empty_table_test : madt_iterate (bytes_from 0x1000 (0 ∷ 0 ∷ 0 ∷ 0 ∷ 44 ∷ [])) 0x1000 0 ≡ 0x102C
unfolding madt_iterate load
empty_table_test = refl

madt-Entries : Entries madt_memory 0x1040 0x102C (0x102C ∷ 0x1034 ∷ [])
madt-Entries = entry (omega arith) (entry (omega arith) (filled refl))

madt_iterate_type-first_example :
    madt_iterate_type 3 madt_memory 0x1000 0 1
    ≡ ok (first_of_type madt_memory 1 (0x102C ∷ 0x1034 ∷ []))
unfolding load
madt_iterate_type-first_example =
    madt_iterate_type-first madt_memory 0x1000 1 (omega arith) 3 0x102C (0x1034 ∷ []) (omega arith)
      madt-Entries

validate_sdt-detects_example : validate_sdt (change_byte 0x1009 7 madt_memory) 0x1000 ≢ 0
unfolding load
validate_sdt-detects_example =
    validate_sdt-detects madt_memory 0x1000 0x1009 7 (omega arith) (omega arith) checksum_test
      (omega arith) (omega arith) (inr (omega arith)) (omega arith) (omega arith)
      (λ e. absurd (omega arith))

find_rsdt_pointer-First_example :
    (r : ℕ) × (find_rsdt_pointer root_memory ≡ ok r)
    × First scanned (λ a. load 8 root_memory a == rsdtp_signature) 32768 r
find_rsdt_pointer-First_example = find_rsdt_pointer-First root_memory

get_table-First_example :
    First
      (λ i. load 4 listed_memory (0x1040 + 36 + 4 * i))
      (λ table. load 4 listed_memory table == madt_signature)
      ((load 4 listed_memory (0x1040 + 4) - 36) / 4)
      (rsdt_get_table listed_memory 0x1040 madt_signature)
    × First
        (λ i. load 8 listed_memory (0x1040 + 36 + 8 * i))
        (λ table. load 4 listed_memory table == madt_signature)
        ((load 4 listed_memory (0x1040 + 4) - 36) / 8)
        (xsdt_get_table listed_memory 0x1040 madt_signature)
unfolding load
get_table-First_example = get_table-First listed_memory 0x1040 madt_signature (omega arith)

second_table_test : rsdt_get_table listed_memory 0x1040 madt_signature ≡ 0x1000
unfolding rsdt_get_table first_table rsdt_entry_count entry_count load
second_table_test = refl

stuck_test : madt_iterate_type 9 stuck_memory 0x1000 0 1 ≡ spin
unfolding madt_iterate_type madt_iterate load
stuck_test = refl
