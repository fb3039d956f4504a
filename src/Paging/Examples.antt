-- ===== src/Paging/Examples.antt =====
-- The theorems about paging.c at tables that are linked one to the next.
use kokos.Shared.{
  ◌≤◌, ◌-◌, ◌&&◌, List, ◌≢◌, length, get_or, zero, suc, ◌⊎◌, inl, ℕ, ◌+◌, ◌*◌, ◌^◌, ◌<◌, ◌≡◌, refl,
  true, bit_or, [], ◌∷◌, ok, arith, ◌==◌, ◌%◌, if◌then◌else◌,
}
use kokos.Paging.Defs.{Memory, Context, table_index, virtual_address_to_index}
use kokos.Paging.Map.{pages_of, map_index_physical, map_physical_at}
use kokos.Paging.Translate.{get_physical_address}
use kokos.Paging.Run.{IsLinked, address_of}
use kokos.Paging.MapRun.{map_index_physical-translates}
use kokos.Paging.MapPhysical.{map_physical_at-translates}
use kokos.Paging.Entry.{IsPage}
use kokos.Paging.Spot.{index_find_spot}
use kokos.Paging.SpotRun.{FirstUnused, index_find_spot-FirstUnused}
use kokos.Paging.Current.{map_index_current}
use kokos.Paging.CurrentRun.{map_index_current-translates}
use kokos.Paging.Unmap.{unmap_pages, unmap}
use kokos.Paging.UnmapRun.{unmap-Cleared}
use kokos.Paging.MapAt.{Reaches, index-misplaces_table}

-- The tables of level 4, 3, 2 and 1 are at the pages 1 to 4, and lead to each other at the index 0.
abbrev linked_entry : ℕ → ℕ → ℕ
linked_entry table index =
    if index == 0
    then (if table == 0x1000
        then 0x2003
        else (if table == 0x2000 then 0x3003 else (if table == 0x3000 then 0x4003 else 0)))
    else 0

abbrev memory : Memory
memory = record {
  entry = linked_entry;
  fresh = 0x5000 ∷ 0x6000 ∷ [];
  used_virtual_pages = 0;
  hugepages_supported = true;
}

abbrev context : Context
context = record {
  level4_table = 0x1000;
  level3_table = 0x2000;
  level2_table = 0x3000;
  level1_table = 0x4000;
  level4_index = 0;
  level3_index = 0;
  level2_index = 0;
  level1_index = 7;
}

context-IsLinked : IsLinked context memory
context-IsLinked = record {
  leads3 = refl;
  leads2 = refl;
  leads1 = refl;
  used4 = λ e. absurd (omega arith);
  used3 = λ e. absurd (omega arith);
  used2 = λ e. absurd (omega arith);
  small3 = refl;
  small2 = refl;
  apart4 = λ e. absurd (omega arith);
  apart3 = λ e. absurd (omega arith);
  apart2 = λ e. absurd (omega arith);
  in4 = omega arith;
  in3 = omega arith;
  in2 = omega arith;
}

-- The address 0x200000 has the index 1 in the table of level 2, which is empty there.
address_reached : Reaches context 0x200000 memory 0x2000 0x3000
address_reached = record {
  leads3 = refl;
  leads2 = refl;
  some3 = λ e. absurd (omega arith);
  some2 = λ e. absurd (omega arith);
  used4 = λ e. absurd (omega arith);
  used3 = λ e. absurd (omega arith);
  small3 = refl;
}

map_index_physical-translates_example :
    (c' : Context) × (m' : Memory) × (map_index_physical 0x9000 5000 2 context memory
      ≡ ok (true, c', m'))
    × (m'.used_virtual_pages ≡ (0 + pages_of 5000 12) % 2 ^ 64)
    × ((k offset : ℕ)
        → k < pages_of 5000 12
        → offset < 2 ^ 12
        → get_physical_address context (address_of context + k * 2 ^ 12 + offset) m'
          ≡ 0x9000 + k * 2 ^ 12 + offset)
map_index_physical-translates_example =
    map_index_physical-translates context-IsLinked 0x9000 5000 2 refl refl
      (λ e. absurd (omega arith)) refl (omega arith) (omega arith) (omega arith)

map_physical_at-translates_example :
    (m' : Memory) × (map_physical_at context 0x9000 0x7000 5000 2 context memory ≡ ok (0x7000, m'))
    × ((k offset : ℕ)
        → k < pages_of 5000 12
        → offset < 2 ^ 12
        → get_physical_address context (0x7000 + k * 2 ^ 12 + offset) m'
          ≡ 0x9000 + k * 2 ^ 12 + offset)
map_physical_at-translates_example =
    map_physical_at-translates 0x7000 context-IsLinked (λ e. absurd (omega arith))
      (λ e. absurd (omega arith)) (λ e. absurd (omega arith)) context context 0x9000 5000 2 refl
      refl (omega arith) (omega arith) refl refl (λ e. absurd (omega arith)) refl (omega arith)
      (omega arith) (omega arith)

index-misplaces_table_example :
    (c' : Context) × (m' : Memory) × (virtual_address_to_index 0x200000 2 context memory
      ≡ ok (0x200000 % 2 ^ 12 == 0, c', m'))
    × (c'.level1_table ≡ 0x5000)
    × (m'.entry 0x3000 (table_index 0x200000 30) ≡ bit_or 0x5000 3)
    × (get_physical_address c' 0x200000 m' ≡ 0)
index-misplaces_table_example =
    index-misplaces_table address_reached 2 refl refl 0x5000 (0x6000 ∷ []) refl refl
      (λ e. absurd (omega arith)) (λ e. absurd (omega arith)) (λ e. absurd (omega arith))
      (λ e. absurd (omega arith)) (λ e. absurd (omega arith))

abbrev two_pages : List ℕ
two_pages = 0x5000 ∷ 0x6000 ∷ []

two_pages-IsPage : (k : ℕ) → k < length two_pages → IsPage (get_or two_pages k 0)
two_pages-IsPage zero h = record { aligned = refl; fits = omega arith }
two_pages-IsPage (suc zero) h = record { aligned = refl; fits = omega arith }
two_pages-IsPage (suc (suc k)) h = absurd (omega arith)

map_index_current-translates_example :
    (c' : Context) × (m' : Memory) × (map_index_current 5000 2 context memory ≡ ok (true, c', m'))
    × (m'.fresh ≡ [])
    × (m'.used_virtual_pages ≡ (0 + length two_pages) % 2 ^ 64)
    × ((k offset : ℕ)
        → k < length two_pages
        → offset < 2 ^ 12
        → get_physical_address context (address_of context + k * 2 ^ 12 + offset) m'
          ≡ get_or two_pages k 0 + offset)
map_index_current-translates_example =
    map_index_current-translates context-IsLinked 5000 2 two_pages [] refl refl
      (λ e. absurd (omega arith)) refl refl refl two_pages-IsPage (omega arith)

-- The level 1 table has one unused entry left, and two pages are asked for.
abbrev last_entry : Context
last_entry = record context { level1_index = 511 }

index_find_spot-FirstUnused_example :
    (j : ℕ) × (c' : Context) × (m' : Memory) × (index_find_spot 3 last_entry 5000 2 memory
      ≡ ok (true, c', m'))
    × FirstUnused last_entry memory j
    × (c' ≡ record last_entry { level2_index = j; level1_index = 0; level1_table = 0x5000 })
    × (m'.entry 0x3000 j ≡ bit_or 0x5000 3)
    × ((i : ℕ) → m'.entry 0x5000 i ≡ 0)
    × ((table i : ℕ)
        → table ≢ 0x5000
        → (table ≢ 0x3000) ⊎ (i ≢ j)
        → m'.entry table i ≡ memory.entry table i)
    × (m'.fresh ≡ 0x6000 ∷ [])
index_find_spot-FirstUnused_example =
    index_find_spot-FirstUnused last_entry memory 3 5000 2 1 0x5000 (0x6000 ∷ [])
      (λ e. absurd (omega arith)) (omega arith) (λ e. absurd (omega arith)) (inl (omega arith)) refl
      refl (omega arith) (omega arith) refl (omega arith) refl (λ e. absurd (omega arith))

-- The page 0x9000 is mapped at the entry 7 of the level 1 table.
abbrev mapped : Memory
mapped = record memory {
  entry = λ table index. if table == 0x4000 && index == 7 then 0x9003 else linked_entry table index;
  used_virtual_pages = 3;
}

mapped-IsLinked : IsLinked context mapped
mapped-IsLinked = record {
  leads3 = refl;
  leads2 = refl;
  leads1 = refl;
  used4 = λ e. absurd (omega arith);
  used3 = λ e. absurd (omega arith);
  used2 = λ e. absurd (omega arith);
  small3 = refl;
  small2 = refl;
  apart4 = λ e. absurd (omega arith);
  apart3 = λ e. absurd (omega arith);
  apart2 = λ e. absurd (omega arith);
  in4 = omega arith;
  in3 = omega arith;
  in2 = omega arith;
}

unmap-Cleared_example :
    (m' : Memory) × (unmap context (address_of context) 4096 mapped ≡ (true, m'))
    × (m'.used_virtual_pages ≡ (3 + 2 ^ 64 - unmap_pages 4096 12) % 2 ^ 64)
    × ((k offset : ℕ)
        → k < unmap_pages 4096 12
        → offset < 2 ^ 12
        → get_physical_address context (address_of context + k * 2 ^ 12 + offset) m' ≡ 0)
    × ((t j : ℕ)
        → (t ≢ 0x4000) ⊎ ((j < 7) ⊎ (7 + unmap_pages 4096 12 ≤ j))
        → m'.entry t j ≡ mapped.entry t j)
unmap-Cleared_example = unmap-Cleared mapped-IsLinked 4096 (λ e. absurd (omega arith)) (omega arith)
