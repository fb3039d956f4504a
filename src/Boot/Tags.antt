-- ===== src/Boot/Tags.antt =====
-- src/common/multiboot2.c: the boot information, a header of 8 bytes and then the tags.
use kokos.Shared.{
  ℕ, zero, suc, ◌+◌, ◌%◌, ◌^◌, Bool, true, false, not, ◌&&◌, Outcome, ok, spin, ltb, leb, ◌==◌,
}
use kokos.Word.Align.{align_to_next}
use kokos.Word.Bytes.{load}

abbrev pub tag_type : (ℕ → ℕ) → ℕ → ℕ
tag_type memory tag = load 4 memory tag

abbrev pub tag_size : (ℕ → ℕ) → ℕ → ℕ
tag_size memory tag = load 4 memory (tag + 4)

abbrev tag_type_end : ℕ
tag_type_end = 0

abbrev tag_type_memory_map : ℕ
tag_type_memory_map = 6

unfoldable pub find_tag : ℕ → (ℕ → ℕ) → ℕ → ℕ → Outcome ℕ
unfolding align_to_next
find_tag zero memory type address = spin
find_tag (suc rounds) memory type address = elim (tag_type memory address == tag_type_end) [
  | true ↦ ok 0
  | false ↦ elim (tag_type memory address == type) [
    | true ↦ ok address
    | false ↦
        find_tag rounds memory type ((address + align_to_next (tag_size memory address)) % 2 ^ 64)
  ]
]

unfoldable pub multiboot2_info_get : ℕ → (ℕ → ℕ) → ℕ → ℕ → Outcome ℕ
unfolding find_tag
multiboot2_info_get rounds memory multiboot2_info type =
    find_tag rounds memory type (multiboot2_info + 8)

unfoldable pub multiboot2_info_available : (ℕ → ℕ) → ℕ → Bool
multiboot2_info_available memory multiboot2_info =
    not (multiboot2_info == 0)
    && load 4 memory (multiboot2_info + 4) == 0
    && ltb (load 4 memory multiboot2_info) 100000
    && leb 8 (load 4 memory multiboot2_info)
