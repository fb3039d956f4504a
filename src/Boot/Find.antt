-- ===== src/Boot/Find.antt =====
-- The search for a tag of the boot information, and the tags in their order.
use kokos.Shared.{
  ℕ, zero, suc, ◌+◌, ◌-◌, ◌*◌, ◌/◌, ◌%◌, ◌^◌, ◌<◌, ◌≤◌, ◌≡◌, ◌≢◌, refl, List, [], ◌∷◌, ok, true,
  false, inl, inr, arith, ◌==◌, if◌then◌else◌, length, Bool-cases,
}
use kokos.Word.Align.{align_to_next, align_to_next-rounds}
use kokos.Boot.Tags.{tag_type, tag_size, find_tag, multiboot2_info_get}

-- The tags from an address on, up to the one that ends them.
pub data Tags (memory : ℕ → ℕ) : ℕ → List ℕ → Type 0 where
  ended : {at : ℕ} → tag_type memory at ≡ 0 → Tags memory at []
  tag :
      {at : ℕ} {rest : List ℕ}
      → tag_type memory at ≢ 0
      → tag_size memory at ≤ 2 ^ 32 - 8
      → at + (tag_size memory at + 7) / 8 * 8 < 2 ^ 64
      → Tags memory (at + (tag_size memory at + 7) / 8 * 8) rest
      → Tags memory at (at ∷ rest)

-- The first of the tags with the type, or null.
unfoldable pub first_tag : (ℕ → ℕ) → ℕ → List ℕ → ℕ
first_tag memory type [] = 0
first_tag memory type (t ∷ tags) =
    if tag_type memory t == type then t else first_tag memory type tags

find_tag-first :
    (rounds : ℕ) (memory : ℕ → ℕ) (type at : ℕ) (tags : List ℕ)
    → length tags < rounds
    → Tags memory at tags
    → find_tag rounds memory type at ≡ ok (first_tag memory type tags)
unfolding find_tag first_tag
find_tag-first zero memory type at tags enough t = absurd (omega arith)
find_tag-first (suc rounds) memory type at [] enough (ended e) =
    let end : (tag_type memory at == 0) ≡ true = ground arith in rw (find_tag, end) refl
find_tag-first (suc rounds) memory type at (at' ∷ rest) enough (tag ne small inside behind) =
    let more : (tag_type memory at == 0) ≡ false = ground arith in
    let next : (at + align_to_next (tag_size memory at)) % 2 ^ 64
        ≡ at + (tag_size memory at + 7) / 8 * 8 =
      omega (arith, align_to_next-rounds (tag_size memory at) small) in
    elim (Bool-cases (tag_type memory at == type)) [
      | inl same ↦ rw (find_tag, more, same) refl
      | inr other ↦
          rw (find_tag, more, other, next)
            (find_tag-first rounds memory type _ rest (omega arith) behind)
    ]

-- With more rounds than tags before the end, the search ends and gives the first tag of the type,
-- or null when none has it.
pub multiboot2_info_get-first :
    (rounds : ℕ) (memory : ℕ → ℕ) (multiboot2_info type : ℕ) (tags : List ℕ)
    → length tags < rounds
    → Tags memory (multiboot2_info + 8) tags
    → multiboot2_info_get rounds memory multiboot2_info type ≡ ok (first_tag memory type tags)
unfolding multiboot2_info_get
multiboot2_info_get-first rounds memory multiboot2_info type tags enough t =
    find_tag-first rounds memory type (multiboot2_info + 8) tags enough t
