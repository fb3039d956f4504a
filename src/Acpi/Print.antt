-- ===== src/Acpi/Print.antt =====
-- src/common/acpi.c: what the printing of the tables sends to the console.
use Prim.Native.String.{String}
use kokos.Shared.{
  ℕ, zero, suc, ◌+◌, ◌%◌, ◌^◌, true, false, List, [], ◌∷◌, ◌++◌, Outcome, ok, spin, ◌>>=◌, ltb,
  ◌==◌, if◌then◌else◌,
}
use kokos.Word.Bytes.{load, byte_address}
use kokos.Console.Calls.{
  ConsoleCall, print_call, print_length_call, print_u32_call, print_u64_call, new_line_call,
}
use kokos.Acpi.Defs.{
  sdt_signature, sdt_length, madt_signature, validate_sdt, int_rounds, rsdt_entry_count,
  xsdt_entry_count, rsdt_table, xsdt_table,
}
use kokos.Acpi.Madt.{madt_size, entry_type, entry_length}

-- The `size` bytes of an array of characters.
unfoldable characters : ℕ → (ℕ → ℕ) → ℕ → List ℕ
characters zero memory a = []
characters (suc size) memory a = memory a ∷ characters size memory (a + 1)

-- A text and the number behind it.
unfoldable pub labelled : String → ℕ → ℕ → List ConsoleCall → List ConsoleCall
labelled label num base calls = print_call label ∷ print_u32_call num base ∷ calls

-- The `switch` over the type of an entry. The address in an entry of type 5 is cut to 32 bits.
unfoldable pub print_entry : (ℕ → ℕ) → ℕ → List ConsoleCall
unfolding labelled
print_entry memory entry =
    let type = entry_type memory entry in
    if type == 0
    then labelled " - found local processor with id " (memory (entry + 2)) 10 (
        labelled " and apic id " (memory (entry + 3)) 10
          (labelled " and flags " (load 4 memory (entry + 4)) 2 (new_line_call ∷ [])))
    else if type == 1
    then labelled " - found io apic with address 0x" (load 4 memory (entry + 4)) 16 (
        labelled " and id " (memory (entry + 2)) 10
          (labelled " and base " (load 4 memory (entry + 8)) 10 (new_line_call ∷ [])))
    else if type == 2
    then labelled " - found io apic source with bus " (memory (entry + 2)) 10 (
        labelled " and irq " (memory (entry + 3)) 10 (
          labelled " and global system interrupt " (load 4 memory (entry + 4)) 10
            (new_line_call ∷ [])))
    else if type == 3
    then labelled " - found io apic non maskable with source " (memory (entry + 2)) 10 (
        labelled " and global system interrupt " (load 4 memory (entry + 6)) 10
          (new_line_call ∷ []))
    else if type == 4
    then labelled " - found local apic non maskable with processor target " (memory (entry + 2)) 10
        (labelled " and local interrupt " (memory (entry + 5)) 10 (new_line_call ∷ []))
    else if type == 5
    then labelled " - local apic 64 bit address 0x" (load 8 memory (entry + 4) % 2 ^ 32) 16
        (new_line_call ∷ [])
    else if type == 9
    then labelled " - found local processor with id " (load 4 memory (entry + 4)) 10
        (labelled " and x2apic id " (load 4 memory (entry + 12)) 10 (new_line_call ∷ []))
    else labelled " - madt entry of unknown type " type 10 (new_line_call ∷ [])

-- Some calls, and then the others.
unfoldable pub print_first :
    List ConsoleCall → Outcome (List ConsoleCall) → Outcome (List ConsoleCall)
print_first calls rest = rest >>= λ others. ok (calls ++ others)

-- The loop over the offset `i`, an `int` that is compared as an `unsigned int`.
unfoldable pub print_entries : ℕ → (ℕ → ℕ) → ℕ → ℕ → Outcome (List ConsoleCall)
unfolding print_entry print_first
print_entries zero memory madt i = spin
print_entries (suc rounds) memory madt i = elim (ltb i (sdt_length memory madt)) [
  | true ↦
      print_first (print_entry memory (byte_address madt i)) (
        print_entries rounds memory madt ((i + entry_length memory (byte_address madt i)) % 2 ^ 32))
  | false ↦ ok []
]

unfoldable pub print_madt : ℕ → (ℕ → ℕ) → ℕ → Outcome (List ConsoleCall)
unfolding print_entries labelled
print_madt rounds memory madt = print_entries rounds memory madt madt_size >>= λ calls. ok (
    labelled "madt.local_apic_address = 0x" (load 4 memory (madt + 36)) 16
      (print_call "\n" ∷ calls))

unfoldable pub print_sdt : ℕ → (ℕ → ℕ) → ℕ → Outcome (List ConsoleCall)
unfolding print_madt labelled characters
print_sdt rounds memory sdt = do
  entries ←
      if sdt_signature memory sdt == madt_signature then print_madt rounds memory sdt else ok []
  ok (
      (if validate_sdt memory sdt == 0 then [] else print_call "!!INVALID!! " ∷ [])
      ++ print_call "acpi table "
        ∷ print_length_call (characters 4 memory sdt)
        ∷ labelled " 0x" (sdt_signature memory sdt) 16
            (entries ++ print_call " at 0x" ∷ print_u64_call sdt 16 ∷ new_line_call ∷ []))

-- The loop over the tables of a root table.
unfoldable pub print_tables : ℕ → (ℕ → ℕ) → (ℕ → ℕ) → ℕ → ℕ → Outcome (List ConsoleCall)
unfolding print_sdt
print_tables entry_rounds memory table_address zero i = ok []
print_tables entry_rounds memory table_address (suc rounds) i = do
  table ← print_sdt entry_rounds memory (table_address i)
  others ← print_tables entry_rounds memory table_address rounds (i + 1)
  ok (table ++ others)

unfoldable pub print_rsdt : ℕ → (ℕ → ℕ) → ℕ → Outcome (List ConsoleCall)
unfolding print_tables
print_rsdt entry_rounds memory rsdt =
    print_tables entry_rounds memory (rsdt_table memory rsdt)
      (int_rounds (rsdt_entry_count memory rsdt)) 0

unfoldable print_xsdt : ℕ → (ℕ → ℕ) → ℕ → Outcome (List ConsoleCall)
unfolding print_tables
print_xsdt entry_rounds memory xsdt =
    print_tables entry_rounds memory (xsdt_table memory xsdt)
      (int_rounds (xsdt_entry_count memory xsdt)) 0

unfoldable print_rsdtp : (ℕ → ℕ) → ℕ → List ConsoleCall
unfolding labelled characters
print_rsdtp memory rsdtp =
    print_call "acpi rsdtp address: 0x"
    ∷ print_u64_call rsdtp 16
    ∷ new_line_call
    ∷ labelled "acpi rsdtp revision: " (memory (rsdtp + 15)) 10 (
        new_line_call
        ∷ labelled "acpi rsdt address: 0x" (load 4 memory (rsdtp + 16)) 16 (
            new_line_call
            ∷ print_call "acpi rsdtp oem: "
            ∷ print_length_call (characters 6 memory (rsdtp + 9))
            ∷ new_line_call
            ∷ []))
