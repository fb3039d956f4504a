-- ===== src/MemoryPhysical/Reserve.antt =====
-- `memory_physical_reserve` of one page.
use kokos.Shared.{
  ℕ, ◌+◌, ◌/◌, ◌%◌, ◌^◌, ◌≤◌, ◌<◌, ◌≡◌, refl, ◌∙◌, inl, inr, true, ok, read-ok, write-ok, length,
  length-set, get_or, set, arith, Bool-cases, if◌then◌else◌,
}
use kokos.Word.Bits.{bit_at-le-one}
use kokos.Word.Shift.{set_bits, has_bits}
use kokos.MemoryPhysical.Defs.{MemoryPhysical, reserve_page}
use kokos.MemoryPhysical.Valid.{
  IsWord, page_bit, reaches, has_bits-IsWord, set_bits-IsWord, set-IsWord, page_bit-set_bits,
}

-- What stays true of the state inside the lock while pages are taken.
pub record IsTable (m : MemoryPhysical) : Type 0 where
  pub sized : length m.allocation_table ≡ m.allocation_table_length
  pub words : (i : ℕ) → IsWord (get_or m.allocation_table i 0)
  pub small : m.allocation_table_length ≤ 2 ^ 32

-- From `m` to `m'` bits were only set, and nothing but the table and the count has changed.
pub record OnlySets (m m' : MemoryPhysical) : Type 0 where
  pub IsTable_after : IsTable m'
  pub same_index : m'.allocation_index ≡ m.allocation_index
  pub same_length : m'.allocation_table_length ≡ m.allocation_table_length
  pub same_lock : m'.memory_lock ≡ m.memory_lock
  pub kept : (p : ℕ) → page_bit m.allocation_table p ≡ 1 → page_bit m'.allocation_table p ≡ 1

pub OnlySets-trans : {a b c : MemoryPhysical} → OnlySets a b → OnlySets b c → OnlySets a c
OnlySets-trans f g = record {
  IsTable_after = g.IsTable_after;
  same_index = g.same_index ∙ f.same_index;
  same_length = g.same_length ∙ f.same_length;
  same_lock = g.same_lock ∙ f.same_lock;
  kept = λ p h. g.kept p (f.kept p h);
}

pub OnlySets-refl : {m : MemoryPhysical} → IsTable m → OnlySets m m
OnlySets-refl v = record {
  IsTable_after = v;
  same_index = refl;
  same_length = refl;
  same_lock = refl;
  kept = λ p h. h;
}

module _ {m : MemoryPhysical} (v : IsTable m) (index : ℕ)
    (inside : index / 64 < m.allocation_table_length) where
  abbrev word : ℕ
  word = get_or m.allocation_table (index / 64) 0

  abbrev marked : MemoryPhysical
  marked = record m {
    allocation_table = set m.allocation_table (index / 64) (set_bits word (index % 64));
    used_physical_pages = (m.used_physical_pages + 1) % 2 ^ 64;
  }

  byte_inside : index / 64 < length m.allocation_table
  byte_inside = omega (arith, v.sized)

  reserve_page_run : reserve_page index m ≡ (if has_bits word (index % 64) then ok m else ok marked)
  unfolding reserve_page
  reserve_page_run =
      let small : index / 64 % 2 ^ 32 ≡ index / 64 = omega (arith, v.small) in
      rw
        (
          small,
          read-ok m.allocation_table (index / 64) 0 byte_inside,
          write-ok m.allocation_table (index / 64) (set_bits word (index % 64)) byte_inside,
        )
        refl

  marked-OnlySets : OnlySets m marked
  marked-OnlySets = record {
    IsTable_after = record {
      sized = length-set m.allocation_table (index / 64) _ ∙ v.sized;
      words =
          set-IsWord m.allocation_table (index / 64) byte_inside _ v.words
            (set_bits-IsWord word (index % 64) (v.words (index / 64)));
      small = v.small;
    };
    same_index = refl;
    same_length = refl;
    same_lock = refl;
    kept = λ p h. ground (arith, page_bit-set_bits m.allocation_table index byte_inside p);
  }

  -- One round takes the pages that `1 << bit` reaches, and no other.
  pub reserve_page-reaches :
      (m' : MemoryPhysical) × (reserve_page index m ≡ ok m')
      × OnlySets m m'
      × ((p : ℕ)
          → page_bit m'.allocation_table p
            ≡ (if reaches index p then 1 else page_bit m.allocation_table p))
  reserve_page-reaches = elim (Bool-cases (has_bits word (index % 64))) [
    | inl old ↦ (
      m,
      rw (reserve_page_run, old),
      OnlySets-refl v,
      λ p. elim (Bool-cases (reaches index p)) [
        | inl near ↦ rw near (taken old p near)
        | inr far ↦ rw far
      ],
    )
    | inr new ↦ (
      marked,
      rw (reserve_page_run, new),
      marked-OnlySets,
      page_bit-set_bits m.allocation_table index byte_inside,
    )
  ]
    where
      taken :
          has_bits word (index % 64) ≡ true
          → (p : ℕ) → reaches index p ≡ true
          → page_bit m.allocation_table p ≡ 1
      taken old p near =
          let same : p / 64 ≡ index / 64 = ground arith in
          rw same (
            ground (
              arith,
              has_bits-IsWord word (index % 64) (v.words (index / 64)),
              (v.words (index / 64)).top (p % 64),
              bit_at-le-one (index % 64 % 32) word,
            ))
