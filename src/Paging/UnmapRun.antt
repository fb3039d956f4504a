-- ===== src/Paging/UnmapRun.antt =====
-- `paging_unmap` of a run of 4 KiB pages in one level 1 table.
use kokos.Shared.{
  some, ℕ, zero, suc, ◌+◌, ◌-◌, ◌*◌, ◌%◌, ◌^◌, ◌≤◌, ◌<◌, ◌≡◌, ◌≢◌, refl, ap, ◌∙◌, ◌⊎◌, true, false,
  arith, leb, ◌==◌,
}
use kokos.Paging.Defs.{Memory, Context, table_index}
use kokos.Paging.Translate.{get_physical_address}
use kokos.Paging.Run.{IsLinked, address_of, run_indices}
use kokos.Paging.Unmap.{unmap_next1, without, unmap_4kb_loop, unmap_pages, uncount_pages, unmap}

-- Only the entries of the run have changed: they are 0.
pub record Cleared (pages : ℕ) (c : Context) (m m' : Memory) : Type 0 where
  pub inside : (k : ℕ) → k < pages → m'.entry c.level1_table (c.level1_index + k) ≡ 0
  pub before : (j : ℕ) → j < c.level1_index → m'.entry c.level1_table j ≡ m.entry c.level1_table j
  pub behind :
      (j : ℕ) → c.level1_index + pages ≤ j → m'.entry c.level1_table j ≡ m.entry c.level1_table j
  pub other : (t j : ℕ) → t ≢ c.level1_table → m'.entry t j ≡ m.entry t j
  pub same_used : m'.used_virtual_pages ≡ m.used_virtual_pages

abbrev next : Context → Context
next c = record c { level1_index = c.level1_index + 1 }

unmap_next1_right :
    (c : Context) (m : Memory) → c.level1_index + 1 < 512 → unmap_next1 c m ≡ some (next c)
unfolding unmap_next1
unmap_next1_right c m h =
    let more : leb 512 (c.level1_index + 1) ≡ false = ground arith in rw more refl

unmap_4kb_step :
    (pages : ℕ) (c : Context) (m : Memory)
    → c.level1_index + 1 < 512
    → unmap_4kb_loop (suc pages) c m
      ≡ unmap_4kb_loop pages (next c) (without c.level1_table c.level1_index m)
unfolding unmap_4kb_loop
unmap_4kb_step pages c m h =
    rw (unmap_4kb_loop, unmap_next1_right c (without c.level1_table c.level1_index m) h) refl

unmap_4kb_none : (c : Context) (m : Memory) → unmap_4kb_loop 0 c m ≡ (true, m)
unfolding unmap_4kb_loop
unmap_4kb_none c m = refl

unmap_4kb_loop-Cleared :
    (pages : ℕ) (c : Context) (m : Memory)
    → c.level1_index + pages < 512
    → (m' : Memory) × (unmap_4kb_loop pages c m ≡ (true, m')) × Cleared pages c m m'
unmap_4kb_loop-Cleared zero c m h = (
  m,
  unmap_4kb_none c m,
  record {
    inside = λ k q. absurd (omega arith);
    before = λ j q. refl;
    behind = λ j q. refl;
    other = λ t j q. refl;
    same_used = refl;
  },
)
unmap_4kb_loop-Cleared (suc pages) c m h =
    let (m', run, w) =
      unmap_4kb_loop-Cleared pages (next c) (without c.level1_table c.level1_index m)
        (omega arith) in
    (
      m',
      unmap_4kb_step pages c m (omega arith) ∙ run,
      record {
        inside = inner m' w;
        before = λ j q. w.before j (omega arith) ∙ ground arith;
        behind = λ j q. w.behind j (omega arith) ∙ ground arith;
        other = λ t j q. w.other t j q ∙ ground arith;
        same_used = w.same_used;
      },
    )
  where
    inner :
        (m' : Memory)
        → Cleared pages (next c) (without c.level1_table c.level1_index m) m'
        → (k : ℕ) → k < suc pages
        → m'.entry c.level1_table (c.level1_index + k) ≡ 0
    inner m' w zero q =
        ap (m'.entry c.level1_table) (omega arith)
        ∙ w.before c.level1_index (omega arith)
        ∙ ground arith
    inner m' w (suc k) q = ap (m'.entry c.level1_table) (omega arith) ∙ w.inside k (omega arith)

module _ {c : Context} {m : Memory} (l : IsLinked c m) where
  some4 : (m.entry c.level4_table c.level4_index == 0) ≡ false
  some4 = ground (arith, l.used4)

  some3 : (m.entry c.level3_table c.level3_index == 0) ≡ false
  some3 = ground (arith, l.used3)

  some2 : (m.entry c.level2_table c.level2_index == 0) ≡ false
  some2 = ground (arith, l.used2)

  -- An address whose last entry is 0 has no translation.
  walk_none :
      (m' : Memory) (address : ℕ)
      → ((t j : ℕ) → t ≢ c.level1_table → m'.entry t j ≡ m.entry t j)
      → table_index address 39 ≡ c.level4_index
      → table_index address 30 ≡ c.level3_index
      → table_index address 21 ≡ c.level2_index
      → m'.entry c.level1_table (table_index address 12) ≡ 0
      → get_physical_address c address m' ≡ 0
  unfolding get_physical_address
  walk_none m' address same e4 e3 e2 e1 =
      rw
        (
          e4,
          e3,
          e2,
          same c.level4_table c.level4_index l.apart4,
          some4,
          l.leads3,
          same c.level3_table c.level3_index l.apart3,
          some3,
          l.small3,
          l.leads2,
          same c.level2_table c.level2_index l.apart2,
          some2,
          l.small2,
          l.leads1,
          e1,
        )
        refl

  unmap_run :
      (bytes : ℕ)
      → c.level1_index < 512
      → m.entry c.level1_table c.level1_index ≢ 0
      → unmap c (address_of c) bytes m
        ≡ uncount_pages (unmap_pages bytes 12) (unmap_4kb_loop (unmap_pages bytes 12) c m)
  unfolding unmap
  unmap_run bytes room mapped =
      let (e4, e3, e2, e1, e0) =
        run_indices c.level4_index c.level3_index c.level2_index c.level1_index 0 0 l.in3 l.in2
          (omega arith) (omega arith) l.in4 in
      let a4 : table_index (address_of c) 39 ≡ c.level4_index =
        omega (arith, l.in4, l.in3, l.in2) in
      let a3 : table_index (address_of c) 30 ≡ c.level3_index =
        omega (arith, l.in4, l.in3, l.in2) in
      let a2 : table_index (address_of c) 21 ≡ c.level2_index =
        omega (arith, l.in4, l.in3, l.in2) in
      let a1 : table_index (address_of c) 12 ≡ c.level1_index =
        omega (arith, l.in4, l.in3, l.in2) in
      let a0 : (address_of c % 2 ^ 12 == 0) ≡ true = ground arith in
      let some1 : (m.entry c.level1_table c.level1_index == 0) ≡ false = ground arith in
      rw
        (
          a4, some4, l.leads3, a3, some3, l.small3, l.leads2, a2, some2, l.small2, l.leads1, a1,
          some1, a0,
        )
        refl

  -- With a context whose four tables are linked, a first page that is mapped and a run that ends
  -- before the last entry of its level 1 table, `unmap` of the address of the context succeeds and
  -- takes the pages off the count (in 64 bits). Afterwards no address of the run has a translation,
  -- and no entry outside the run has changed.
  pub unmap-Cleared :
      (bytes : ℕ)
      → m.entry c.level1_table c.level1_index ≢ 0
      → c.level1_index + unmap_pages bytes 12 < 512
      → (m' : Memory) × (unmap c (address_of c) bytes m ≡ (true, m'))
        × (m'.used_virtual_pages ≡ (m.used_virtual_pages + 2 ^ 64 - unmap_pages bytes 12) % 2 ^ 64)
        × ((k offset : ℕ)
            → k < unmap_pages bytes 12
            → offset < 2 ^ 12
            → get_physical_address c (address_of c + k * 2 ^ 12 + offset) m' ≡ 0)
        × ((t j : ℕ)
            → (t ≢ c.level1_table)
              ⊎ ((j < c.level1_index) ⊎ (c.level1_index + unmap_pages bytes 12 ≤ j))
            → m'.entry t j ≡ m.entry t j)
  unfolding uncount_pages get_physical_address
  unmap-Cleared bytes mapped room =
      let (a, run, w) = unmap_4kb_loop-Cleared (unmap_pages bytes 12) c m room in
      (
        record a {
          used_virtual_pages = (a.used_virtual_pages + 2 ^ 64 - unmap_pages bytes 12) % 2 ^ 64;
        },
        unmap_run bytes (omega arith) mapped ∙ rw run refl,
        omega (arith, w.same_used),
        λ k offset hk ho.
            let (e4, e3, e2, e1, e0) =
              run_indices c.level4_index c.level3_index c.level2_index c.level1_index k offset l.in3
                l.in2 (omega arith) ho l.in4 in
            walk_none a (address_of c + k * 2 ^ 12 + offset) w.other e4 e3 e2
              (ap (a.entry c.level1_table) e1 ∙ w.inside k hk),
        λ t j away. kept a w t j away,
      )
    where
      kept :
          (a : Memory)
          → Cleared (unmap_pages bytes 12) c m a
          → (t j : ℕ)
          → (t ≢ c.level1_table)
            ⊎ ((j < c.level1_index) ⊎ (c.level1_index + unmap_pages bytes 12 ≤ j))
          → a.entry t j ≡ m.entry t j
      kept a w t j away = ground (arith, w.other t j, w.before j, w.behind j)
