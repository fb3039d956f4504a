-- ===== src/Paging/CurrentRun.antt =====
-- `paging_map_index_current` for a run of pages in one level 1 table.
use kokos.Shared.{
  ℕ, zero, suc, ◌+◌, ◌*◌, ◌%◌, ◌^◌, ◌<◌, ◌≡◌, ◌≢◌, refl, ap, ◌∙◌, true, false, arith, List, [], ◌∷◌,
  ◌++◌, ok, ◌>>=◌, leb, ◌==◌, length, get_or,
}
use kokos.Paging.Defs.{Memory, Context, flag_1gb, flag_2mb, has, store, convert_flags}
use kokos.Paging.Map.{next_level1, page_entry, count_pages, pages_of}
use kokos.Paging.Translate.{get_physical_address}
use kokos.Paging.Entry.{IsPage, page_of_entry, convert_flags_range, entry-ne-zero}
use kokos.Paging.Run.{IsLinked, address_of, run_indices, walk}
use kokos.Paging.MapRun.{entry_of_page}
use kokos.Paging.Current.{map_current_loop, map_index_current}

-- The entries from the level 1 index on are those of the pages, which the allocator has given out.
pub record Takes (pages rest : List ℕ) (entry_flags : ℕ) (c : Context) (m m' : Memory)
    : Type 0 where
  pub inside :
      (k : ℕ)
      → k < length pages
      → m'.entry c.level1_table (c.level1_index + k) ≡ page_entry (get_or pages k 0) entry_flags
  pub before : (j : ℕ) → j < c.level1_index → m'.entry c.level1_table j ≡ m.entry c.level1_table j
  pub other : (t j : ℕ) → t ≢ c.level1_table → m'.entry t j ≡ m.entry t j
  pub given_out : m'.fresh ≡ rest
  pub same_used : m'.used_virtual_pages ≡ m.used_virtual_pages

module _ (entry_flags : ℕ) (rest : List ℕ) where
  take_entry : ℕ → List ℕ → Context → Memory → Memory
  take_entry page fresh c m = record m {
    entry = store c.level1_table c.level1_index (page_entry page entry_flags) m.entry;
    fresh = fresh;
  }

  right : Context → Context
  right c = record c { level1_index = c.level1_index + 1 }

  map_current_step :
      (pages page : ℕ) (fresh : List ℕ) (c : Context) (m : Memory)
      → m.fresh ≡ page ∷ fresh
      → c.level1_index + 1 < 512
      → map_current_loop (suc pages) entry_flags c m
        ≡ map_current_loop pages entry_flags (right c) (take_entry page fresh c m)
  unfolding map_current_loop next_level1 take_entry right
  map_current_step pages page fresh c m e h =
      let more : leb 512 (c.level1_index + 1) ≡ false = ground arith in rw (e, more, ◌>>=◌) refl

  map_current_none :
      (c : Context) (m : Memory) → map_current_loop 0 entry_flags c m ≡ ok (true, c, m)
  unfolding map_current_loop
  map_current_none c m = refl

  pub map_current_loop-Takes :
      (pages : List ℕ) (c : Context) (m : Memory)
      → m.fresh ≡ pages ++ rest
      → c.level1_index + length pages < 512
      → (c' : Context) × (m' : Memory) × (map_current_loop (length pages) entry_flags c m
          ≡ ok (true, c', m'))
        × Takes pages rest entry_flags c m m'
  unfolding take_entry right
  map_current_loop-Takes [] c m e h = (
    c,
    m,
    map_current_none c m,
    record {
      inside = λ k q. absurd (omega arith);
      before = λ j q. refl;
      other = λ t j q. refl;
      given_out = e;
      same_used = refl;
    },
  )
  map_current_loop-Takes (page ∷ pages) c m e h =
      let (c', m', run, w) =
        map_current_loop-Takes pages (right c) (take_entry page (pages ++ rest) c m) refl
          (omega arith) in
      (
        c',
        m',
        map_current_step (length pages) page (pages ++ rest) c m e (omega arith) ∙ run,
        record {
          inside = inner m' w;
          before = λ j q. w.before j (omega arith) ∙ ground arith;
          other = λ t j q. w.other t j q ∙ ground arith;
          given_out = w.given_out;
          same_used = w.same_used;
        },
      )
    where
      inner :
          (m' : Memory)
          → Takes pages rest entry_flags (right c) (take_entry page (pages ++ rest) c m) m'
          → (k : ℕ) → k < length (page ∷ pages)
          → m'.entry c.level1_table (c.level1_index + k)
            ≡ page_entry (get_or (page ∷ pages) k 0) entry_flags
      inner m' w zero q =
          ap (m'.entry c.level1_table) (omega arith)
          ∙ w.before c.level1_index (omega arith)
          ∙ ground arith
      inner m' w (suc k) q = ap (m'.entry c.level1_table) (omega arith) ∙ w.inside k (omega arith)

module _ {c : Context} {m : Memory} (l : IsLinked c m) (bytes flags : ℕ) (pages rest : List ℕ) where
  -- Each page of the run is translated to the page that the allocator gave for it.
  Takes-translates :
      (m' : Memory)
      → Takes pages rest (convert_flags flags) c m m'
      → ((k : ℕ) → k < length pages → IsPage (get_or pages k 0))
      → c.level1_index + length pages < 512
      → (k offset : ℕ) → k < length pages
      → offset < 2 ^ 12
      → get_physical_address c (address_of c + k * 2 ^ 12 + offset) m' ≡ get_or pages k 0 + offset
  Takes-translates m' w are room k offset hk ho =
      let (e4, e3, e2, e1, e0) =
        run_indices c.level4_index c.level3_index c.level2_index c.level1_index k offset l.in3 l.in2
          (omega arith) ho l.in4 in
      let (below, odd) = convert_flags_range flags in
      let entry =
        ap (m'.entry c.level1_table) e1 ∙ w.inside k hk ∙ entry_of_page flags (are k hk) in
      walk l m' (address_of c + k * 2 ^ 12 + offset) _ w.other e4 e3 e2 entry
        (entry-ne-zero _ (convert_flags flags) odd)
      ∙ (rw (page_of_entry (are k hk) (convert_flags flags) (omega arith)) (omega arith))

  map_index_current_run :
      has flags flag_1gb ≡ false
      → has flags flag_2mb ≡ false
      → bytes ≢ 0
      → m.entry c.level1_table c.level1_index ≡ 0
      → map_index_current bytes flags c m ≡ (
          map_current_loop (pages_of bytes 12) (convert_flags flags) c m
          >>= count_pages (pages_of bytes 12))
  unfolding map_index_current
  map_index_current_run g2 g1 some unused =
      let bytes_test : (bytes == 0) ≡ false = ground arith in
      rw (bytes_test, l.small3, g2, l.small2, g1, unused) refl

  -- With a context whose four tables are linked, neither 1 GiB nor 2 MiB asked for, some bytes, an
  -- unused first entry, an allocator that has as many pages as the bytes need (each aligned and
  -- below 2^52), and a run that ends before the last entry of its level 1 table,
  -- `map_index_current` succeeds, leaves the allocator the rest and adds the pages to the count,
  -- and each address of the run is translated into the page that was given for it, in order.
  pub map_index_current-translates :
      has flags flag_1gb ≡ false
      → has flags flag_2mb ≡ false
      → bytes ≢ 0
      → m.entry c.level1_table c.level1_index ≡ 0
      → m.fresh ≡ pages ++ rest
      → length pages ≡ pages_of bytes 12
      → ((k : ℕ) → k < length pages → IsPage (get_or pages k 0))
      → c.level1_index + length pages < 512
      → (c' : Context) × (m' : Memory) × (map_index_current bytes flags c m ≡ ok (true, c', m'))
        × (m'.fresh ≡ rest)
        × (m'.used_virtual_pages ≡ (m.used_virtual_pages + length pages) % 2 ^ 64)
        × ((k offset : ℕ)
            → k < length pages
            → offset < 2 ^ 12
            → get_physical_address c (address_of c + k * 2 ^ 12 + offset) m'
              ≡ get_or pages k 0 + offset)
  unfolding count_pages get_physical_address
  map_index_current-translates g2 g1 some unused has_pages enough are room =
      let (c', a, run, w) =
        map_current_loop-Takes (convert_flags flags) rest pages c m has_pages room in
      (
        c',
        record a { used_virtual_pages = (a.used_virtual_pages + length pages) % 2 ^ 64 },
        map_index_current_run g2 g1 some unused ∙ (rw (← enough) (rw (run, ◌>>=◌) refl)),
        w.given_out,
        omega (arith, w.same_used),
        Takes-translates a w are room,
      )
