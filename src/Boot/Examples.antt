-- ===== src/Boot/Examples.antt =====
-- The theorems about the boot information and the tables of the firmware at small ones, and tests.
use kokos.Shared.{
  length, ℕ, ◌%◌, ◌≤◌, ◌<◌, ◌≡◌, refl, List, [], ◌∷◌, ◌++◌, ok, some, true, arith, replicate,
}
use kokos.Word.Bytes.{load, bytes_from, byte_address}
use kokos.MemoryPhysical.Defs.{MemoryPhysical}
use kokos.MemoryPhysical.Valid.{IsValid, page_bit}
use kokos.Boot.Tags.{multiboot2_info_get, multiboot2_info_available}
use kokos.Boot.Find.{Tags, ended, tag, first_tag, multiboot2_info_get-first}
use kokos.Boot.Memory.{MemoryMapEntry, find_memory, find_table, map_entries, start_memory}
use kokos.Boot.Firmware.{found, guard, check_madt, check_fadt, check_rsdt, check_rsdtp, find_madt}
use kokos.Boot.Reported.{Reported}
use kokos.Acpi.Print.{print_rsdt, print_tables, print_sdt, print_madt, print_entries, print_first}
use kokos.Acpi.Entries.{Entries}
use kokos.Acpi.Defs.{
  find_rsdt_pointer, find_rsdt_from, validate_rsdt_pointer, validate_sdt, sum_int, sum_char,
  rsdt_get_table, first_table, rsdt_entry_count, entry_count,
}
use kokos.Apic.Defs.{check_supported}
use kokos.Boot.Start.{Inside, Placed, find_table-Placed, start_memory-IsValid}

-- A command line of 9 bytes, a map of the memory with one range, and the end.
abbrev information : ℕ → ℕ
information = bytes_from 0x1000 (
    (72 ∷ 0 ∷ 0 ∷ 0 ∷ 0 ∷ 0 ∷ 0 ∷ 0 ∷ [])
    ++ (1 ∷ 0 ∷ 0 ∷ 0 ∷ 9 ∷ 0 ∷ 0 ∷ 0 ∷ [])
    ++ replicate 8 0
    ++ (6 ∷ 0 ∷ 0 ∷ 0 ∷ 40 ∷ 0 ∷ 0 ∷ 0 ∷ 24 ∷ 0 ∷ 0 ∷ 0 ∷ 0 ∷ 0 ∷ 0 ∷ 0 ∷ [])
    ++ (0 ∷ 0 ∷ 0x10 ∷ 0 ∷ 0 ∷ 0 ∷ 0 ∷ 0 ∷ 0 ∷ 0 ∷ 0xF0 ∷ 0 ∷ 0 ∷ 0 ∷ 0 ∷ 0 ∷ 1 ∷ []))

available_test : multiboot2_info_available information 0x1000 ≡ true
unfolding multiboot2_info_available load
available_test = refl

information-Tags : Tags information 0x1008 (0x1008 ∷ 0x1018 ∷ [])
unfolding load
information-Tags =
    tag (λ e. absurd (omega arith)) (omega arith) (omega arith)
      (tag (λ e. absurd (omega arith)) (omega arith) (omega arith) (ended refl))

multiboot2_info_get-first_example :
    multiboot2_info_get 3 information 0x1000 6 ≡ ok (first_tag information 6 (0x1008 ∷ 0x1018 ∷ []))
multiboot2_info_get-first_example =
    multiboot2_info_get-first 3 information 0x1000 6 (0x1008 ∷ 0x1018 ∷ []) (omega arith)
      information-Tags

-- 15 MiB from 1 MiB on.
abbrev usable : MemoryMapEntry
usable = record { address = 0x100000; length = 0xF00000; type = 1 }

-- The loop over the tag of 40 bytes goes by 24 of them and so visits a second entry behind the tag.
two_entries_test :
    map_entries 3 information 0x1018 0
    ≡ ok (usable ∷ record { address = 0; length = 0; type = 0 } ∷ [])
unfolding map_entries load
two_entries_test = refl

find_table-Placed_example : Placed 512 (find_table 512 (usable ∷ [])) (usable ∷ [])
unfolding Inside
find_table-Placed_example = find_table-Placed 512 (usable ∷ []) (omega arith, tt)

-- Behind the kernel there may be less room than the table needs.
no_room_test :
    find_table 0x1000 (record { address = 0x100000; length = 0x100001; type = 1 } ∷ []) ≡ 0x200000
unfolding find_table
no_room_test = refl

abbrev unset : MemoryPhysical
unset = record {
  allocation_table = [];
  allocation_index = 0;
  allocation_table_length = 0;
  used_physical_pages = 0;
  memory_lock = 0;
}

abbrev words_at : ℕ → List ℕ
words_at address = replicate 64 7

start_memory-IsValid_example :
    (m' : MemoryPhysical) × (start_memory words_at (usable ∷ []) unset ≡ ok (some m'))
    × IsValid m'
    × ((p : ℕ) → p < 512 → p < 64 → p % 64 ≤ 31 → page_bit m'.allocation_table p ≡ 1)
unfolding find_memory find_table
start_memory-IsValid_example =
    start_memory-IsValid words_at (usable ∷ []) unset 0x1000000 0x200000 refl refl
      (λ e. absurd (omega arith)) (omega arith) (omega arith) (omega arith) refl

-- The root pointer, which refers to the table behind it.
abbrev root_pointer : List ℕ
root_pointer =
    (82 ∷ 83 ∷ 68 ∷ 32 ∷ 80 ∷ 84 ∷ 82 ∷ 32 ∷ 30 ∷ 75 ∷ 79 ∷ 75 ∷ 79 ∷ 83 ∷ 32 ∷ 0 ∷ 20 ∷ 0 ∷ 8 ∷ 0
      ∷ [])

-- The list of the tables: an FADT and a MADT.
abbrev root_table : List ℕ
root_table =
    (82 ∷ 83 ∷ 68 ∷ 84 ∷ 44 ∷ 0 ∷ 0 ∷ 0 ∷ 1 ∷ 182 ∷ [])
    ++ replicate 26 0
    ++ (64 ∷ 0 ∷ 8 ∷ 0 ∷ 144 ∷ 0 ∷ 8 ∷ 0 ∷ [])

-- An FADT that names the DSDT.
abbrev fadt : List ℕ
fadt =
    (70 ∷ 65 ∷ 67 ∷ 80 ∷ 44 ∷ 0 ∷ 0 ∷ 0 ∷ 1 ∷ 69 ∷ []) ++ replicate 30 0 ++ (108 ∷ 0 ∷ 8 ∷ 0 ∷ [])

-- A DSDT without code.
abbrev dsdt : List ℕ
dsdt = (68 ∷ 83 ∷ 68 ∷ 84 ∷ 36 ∷ 0 ∷ 0 ∷ 0 ∷ 1 ∷ 172 ∷ []) ++ replicate 26 0

-- A MADT with one processor.
abbrev madt : List ℕ
madt =
    (65 ∷ 80 ∷ 73 ∷ 67 ∷ 52 ∷ 0 ∷ 0 ∷ 0 ∷ 1 ∷ 198 ∷ [])
    ++ replicate 28 0
    ++ (224 ∷ 254 ∷ 1 ∷ 0 ∷ 0 ∷ 0 ∷ 0 ∷ 8 ∷ 0 ∷ 0 ∷ 1 ∷ 0 ∷ 0 ∷ 0 ∷ [])

abbrev firmware : ℕ → ℕ
firmware = bytes_from 0x80000 (root_pointer ++ root_table ++ fadt ++ dsdt ++ madt)

find_madt_test : find_madt 2 firmware 0x100 ≡ ok (found 0x80090)
unfolding find_madt check_rsdtp check_rsdt check_fadt check_madt guard find_rsdt_pointer
    find_rsdt_from validate_rsdt_pointer validate_sdt sum_int sum_char rsdt_get_table first_table
    rsdt_entry_count entry_count check_supported load byte_address print_rsdt print_tables print_sdt
    print_madt print_entries print_first
find_madt_test = refl
