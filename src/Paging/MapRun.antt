-- ===== src/Paging/MapRun.antt =====
-- `paging_map_index_physical` with pages of 4 KiB against `paging_get_physical_address`.
use kokos.Shared.{
  ℕ, ◌+◌, ◌*◌, ◌%◌, ◌^◌, ◌≤◌, ◌<◌, ◌≡◌, ◌≢◌, refl, ap, ◌∙◌, bit_and, bit_or, true, false, arith, ok,
  ◌>>=◌, ◌==◌,
}
use native.Mathlib.Nat.{mod-eq_of_lt}
use kokos.Paging.Defs.{Memory, Context, flag_1gb, flag_2mb, has, convert_flags}
use kokos.Paging.Map.{page_entry, map_4kb_loop, count_pages, pages_of, map_index_physical}
use kokos.Paging.Translate.{get_physical_address}
use kokos.Paging.Entry.{IsPage, page_of_entry, address_masked, convert_flags_range, entry-ne-zero}
use kokos.Paging.Run.{IsLinked, address_of, Written, map_4kb_loop-Written, run_indices, walk}

pub entry_of_page :
    {address : ℕ} (flags : ℕ)
    → IsPage address
    → page_entry address (convert_flags flags) ≡ bit_or address (convert_flags flags)
entry_of_page {address} flags p =
    ap (λ (t : ℕ). bit_or t (convert_flags flags))
      (ap (λ (t : ℕ). bit_and t 0x7FFF_FFFF_FFFF_F000) (mod-eq_of_lt (omega (arith, p.fits)))
        ∙ address_masked p)

module _ {c : Context} {m : Memory} (l : IsLinked c m) (physical_address bytes flags : ℕ) where
  abbrev pages : ℕ
  pages = pages_of bytes 12

  -- Each page of the run is translated to its own part of the physical range.
  Written-translates :
      (m' : Memory)
      → Written pages 0 physical_address (convert_flags flags) c m m'
      → physical_address % 2 ^ 12 ≡ 0
      → physical_address + 2 ^ 12 * pages ≤ 2 ^ 52
      → c.level1_index + pages < 512
      → (k offset : ℕ) → k < pages
      → offset < 2 ^ 12
      → get_physical_address c (address_of c + k * 2 ^ 12 + offset) m'
        ≡ physical_address + k * 2 ^ 12 + offset
  Written-translates m' w aligned fits room k offset hk ho =
      let (e4, e3, e2, e1, e0) =
        run_indices c.level4_index c.level3_index c.level2_index c.level1_index k offset l.in3 l.in2
          (omega arith) ho l.in4 in
      let page : IsPage (physical_address + 2 ^ 12 * (0 + k)) = record {
        aligned = omega arith;
        fits = omega arith;
      } in
      let (below, odd) = convert_flags_range flags in
      let entry = ap (m'.entry c.level1_table) e1 ∙ w.inside k hk ∙ entry_of_page flags page in
      walk l m' (address_of c + k * 2 ^ 12 + offset) _ w.other e4 e3 e2 entry
        (entry-ne-zero _ (convert_flags flags) odd)
      ∙ (rw (page_of_entry page (convert_flags flags) (omega arith)) (omega arith))

  map_index_physical_run :
      has flags flag_1gb ≡ false
      → has flags flag_2mb ≡ false
      → bytes ≢ 0
      → m.entry c.level1_table c.level1_index ≡ 0
      → physical_address % 2 ^ 12 ≡ 0
      → map_index_physical physical_address bytes flags c m
        ≡ (map_4kb_loop pages 0 physical_address (convert_flags flags) c m >>= count_pages pages)
  unfolding map_index_physical
  map_index_physical_run g2 g1 some unused aligned =
      let bytes_test : (bytes == 0) ≡ false = ground arith in
      rw (bytes_test, l.small3, g2, l.small2, g1, unused, aligned) refl

  -- With a context whose four tables are linked, neither 1 GiB nor 2 MiB asked for, some bytes, an
  -- aligned physical range below 2^52, an unused first entry and a run that ends before the last
  -- entry of its level 1 table, `map_index_physical` succeeds, adds the pages to the count, and the
  -- translation of each address of the run is the physical address at the same distance.
  pub map_index_physical-translates :
      has flags flag_1gb ≡ false
      → has flags flag_2mb ≡ false
      → bytes ≢ 0
      → m.entry c.level1_table c.level1_index ≡ 0
      → physical_address % 2 ^ 12 ≡ 0
      → physical_address + 2 ^ 12 * pages ≤ 2 ^ 52
      → c.level1_index + pages < 512
      → (c' : Context) × (m' : Memory) × (map_index_physical physical_address bytes flags c m
          ≡ ok (true, c', m'))
        × (m'.used_virtual_pages ≡ (m.used_virtual_pages + pages) % 2 ^ 64)
        × ((k offset : ℕ)
            → k < pages
            → offset < 2 ^ 12
            → get_physical_address c (address_of c + k * 2 ^ 12 + offset) m'
              ≡ physical_address + k * 2 ^ 12 + offset)
  unfolding count_pages get_physical_address
  map_index_physical-translates g2 g1 some unused aligned fits room =
      let (c', a, run, w) =
        map_4kb_loop-Written physical_address (convert_flags flags) pages 0 c m room in
      (
        c',
        record a { used_virtual_pages = (a.used_virtual_pages + pages) % 2 ^ 64 },
        map_index_physical_run g2 g1 some unused aligned ∙ (rw (run, ◌>>=◌) refl),
        omega (arith, w.same_used),
        Written-translates a w aligned fits room,
      )
