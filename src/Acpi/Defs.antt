-- ===== src/Acpi/Defs.antt =====
-- src/common/acpi.c: the search for the root pointer, the checksums, and the search for a table.
-- Memory is mapped at its own addresses and is given by its bytes; a structure is its address.
use kokos.Shared.{
  ℕ, zero, suc, ◌+◌, ◌-◌, ◌*◌, ◌/◌, ◌%◌, ◌^◌, bit_and, Bool, true, false, Outcome, ok, spin, ltb,
  ◌==◌, if◌then◌else◌,
}
use kokos.Word.Bytes.{load, byte_address}

-- "RSD PTR "
abbrev pub rsdtp_signature : ℕ
rsdtp_signature = 0x2052545020445352

-- "APIC"
abbrev pub madt_signature : ℕ
madt_signature = 0x43495041

abbrev pub sdt_size : ℕ
sdt_size = 36

-- The fields of `struct acpi_sdt` that the code reads.
abbrev pub sdt_signature : (ℕ → ℕ) → ℕ → ℕ
sdt_signature memory sdt = load 4 memory sdt

abbrev pub sdt_length : (ℕ → ℕ) → ℕ → ℕ
sdt_length memory sdt = load 4 memory (sdt + 4)

-- A null pointer is 0.
unfoldable pub find_rsdt_from : ℕ → (ℕ → ℕ) → ℕ → Outcome ℕ
find_rsdt_from zero memory a = spin
find_rsdt_from (suc rounds) memory a = elim (ltb a 0x000FFFFF) [
  | true ↦ elim (load 8 memory a == rsdtp_signature) [
    | true ↦ ok a
    | false ↦ find_rsdt_from rounds memory (a + 16)
  ]
  | false ↦ ok 0
]

unfoldable pub find_rsdt_pointer : (ℕ → ℕ) → Outcome ℕ
find_rsdt_pointer memory = find_rsdt_from 32769 memory 0x00080000

-- The loop that adds up bytes in an `unsigned int`.
unfoldable pub sum_int : ℕ → (ℕ → ℕ) → ℕ → ℕ → ℕ → ℕ
sum_int zero memory pointer i sum = sum
sum_int (suc rounds) memory pointer i sum =
    sum_int rounds memory pointer (i + 1) ((sum + memory (pointer + i)) % 2 ^ 32)

unfoldable pub validate_rsdt_pointer : (ℕ → ℕ) → ℕ → ℕ
unfolding sum_int
validate_rsdt_pointer memory rsdp = bit_and (sum_int 20 memory rsdp 0 0) 0xff

unfoldable pub validate_xsdt_pointer : (ℕ → ℕ) → ℕ → ℕ
unfolding sum_int
validate_xsdt_pointer memory rsdp = bit_and (sum_int 36 memory rsdp 0 0) 0xff

-- The loop that adds up bytes in an `unsigned char`. Its `int i` wraps around.
unfoldable pub sum_char : ℕ → (ℕ → ℕ) → ℕ → ℕ → ℕ → ℕ
sum_char zero memory pointer i sum = sum
sum_char (suc rounds) memory pointer i sum =
    sum_char rounds memory pointer (i + 1) ((sum + memory (byte_address pointer i)) % 2 ^ 8)

unfoldable pub validate_sdt : (ℕ → ℕ) → ℕ → ℕ
unfolding sum_char
validate_sdt memory sdt = sum_char (sdt_length memory sdt) memory sdt 0 0

-- The subtraction is one of 64 bits, and the result is cut to an `int`.
unfoldable pub entry_count : ℕ → (ℕ → ℕ) → ℕ → ℕ
entry_count size memory root_table =
    (2 ^ 64 + sdt_length memory root_table - sdt_size) % 2 ^ 64 / size % 2 ^ 32

unfoldable pub rsdt_entry_count : (ℕ → ℕ) → ℕ → ℕ
unfolding entry_count
rsdt_entry_count = entry_count 4

unfoldable pub xsdt_entry_count : (ℕ → ℕ) → ℕ → ℕ
unfolding entry_count
xsdt_entry_count = entry_count 8

-- The rounds of `for (int i = 0; i < count; i++)`: none for a negative count.
abbrev pub int_rounds : ℕ → ℕ
int_rounds count = if ltb count (2 ^ 31) then count else 0

-- The loop of the two functions below it.
unfoldable pub first_table : (ℕ → ℕ) → (ℕ → Bool) → ℕ → ℕ → ℕ
first_table table_address matches zero i = 0
first_table table_address matches (suc rounds) i = elim (matches (table_address i)) [
  | true ↦ table_address i
  | false ↦ first_table table_address matches rounds (i + 1)
]

abbrev pub rsdt_table : (ℕ → ℕ) → ℕ → ℕ → ℕ
rsdt_table memory root_table i = load 4 memory (root_table + sdt_size + 4 * i)

abbrev pub xsdt_table : (ℕ → ℕ) → ℕ → ℕ → ℕ
xsdt_table memory root_table i = load 8 memory (root_table + sdt_size + 8 * i)

abbrev pub has_signature : (ℕ → ℕ) → ℕ → ℕ → Bool
has_signature memory table_signature table = sdt_signature memory table == table_signature

unfoldable pub rsdt_get_table : (ℕ → ℕ) → ℕ → ℕ → ℕ
unfolding first_table
rsdt_get_table memory root_table table_signature =
    first_table (rsdt_table memory root_table) (has_signature memory table_signature)
      (int_rounds (rsdt_entry_count memory root_table)) 0

unfoldable pub xsdt_get_table : (ℕ → ℕ) → ℕ → ℕ → ℕ
unfolding first_table
xsdt_get_table memory root_table table_signature =
    first_table (xsdt_table memory root_table) (has_signature memory table_signature)
      (int_rounds (xsdt_entry_count memory root_table)) 0
