-- ===== src/Paging/Run.antt =====
-- A run of pages of 4 KiB in one level 1 table, as `paging_map_index_physical` writes it and as it is
-- translated.
use kokos.Shared.{
  ℕ, zero, suc, ◌+◌, ◌*◌, ◌%◌, ◌^◌, ◌<◌, ◌≡◌, ◌≢◌, refl, ap, ◌∙◌, bit_and, true, false, arith, ok,
  ◌>>=◌, leb, ◌==◌,
}
use kokos.Paging.Defs.{Memory, Context, address_mask, entry_flag_size, has, store, table_index}
use kokos.Paging.Map.{next_level1, page_entry, map_4kb_loop}
use kokos.Paging.Translate.{page_mask, get_physical_address}

-- The tables of the context are those to which its indices lead.
pub record IsLinked (c : Context) (m : Memory) : Type 0 where
  pub leads3 : bit_and (m.entry c.level4_table c.level4_index) address_mask ≡ c.level3_table
  pub leads2 : bit_and (m.entry c.level3_table c.level3_index) address_mask ≡ c.level2_table
  pub leads1 : bit_and (m.entry c.level2_table c.level2_index) address_mask ≡ c.level1_table
  pub used4 : m.entry c.level4_table c.level4_index ≢ 0
  pub used3 : m.entry c.level3_table c.level3_index ≢ 0
  pub used2 : m.entry c.level2_table c.level2_index ≢ 0
  pub small3 : has (m.entry c.level3_table c.level3_index) entry_flag_size ≡ false
  pub small2 : has (m.entry c.level2_table c.level2_index) entry_flag_size ≡ false
  pub apart4 : c.level4_table ≢ c.level1_table
  pub apart3 : c.level3_table ≢ c.level1_table
  pub apart2 : c.level2_table ≢ c.level1_table
  pub in4 : c.level4_index < 512
  pub in3 : c.level3_index < 512
  pub in2 : c.level2_index < 512

-- The virtual address at which a context stands.
abbrev pub address_of : Context → ℕ
address_of c =
    c.level4_index * 2 ^ 39
    + c.level3_index * 2 ^ 30
    + c.level2_index * 2 ^ 21
    + c.level1_index * 2 ^ 12

-- What the loop leaves: the entries from the level 1 index on are those of the pages from `i` on.
pub record Written (pages i physical_address entry_flags : ℕ) (c : Context) (m m' : Memory)
    : Type 0 where
  pub inside :
      (k : ℕ)
      → k < pages
      → m'.entry c.level1_table (c.level1_index + k)
        ≡ page_entry (physical_address + 2 ^ 12 * (i + k)) entry_flags
  pub before : (j : ℕ) → j < c.level1_index → m'.entry c.level1_table j ≡ m.entry c.level1_table j
  pub other : (t j : ℕ) → t ≢ c.level1_table → m'.entry t j ≡ m.entry t j
  pub same_used : m'.used_virtual_pages ≡ m.used_virtual_pages

module _ (physical_address entry_flags : ℕ) where
  next_entry : ℕ → Context → Memory → Memory
  next_entry i c m = record m {
    entry =
        store c.level1_table c.level1_index (page_entry (physical_address + 2 ^ 12 * i) entry_flags)
          m.entry;
  }

  step : Context → Context
  step c = record c { level1_index = c.level1_index + 1 }

  map_4kb_step :
      (pages i : ℕ) (c : Context) (m : Memory)
      → c.level1_index + 1 < 512
      → map_4kb_loop (suc pages) i physical_address entry_flags c m
        ≡ map_4kb_loop pages (i + 1) physical_address entry_flags (step c) (next_entry i c m)
  unfolding map_4kb_loop next_level1 next_entry step
  map_4kb_step pages i c m h =
      let more : leb 512 (c.level1_index + 1) ≡ false = ground arith in rw (more, ◌>>=◌) refl

  map_4kb_none :
      (i : ℕ) (c : Context) (m : Memory)
      → map_4kb_loop 0 i physical_address entry_flags c m ≡ ok (true, c, m)
  unfolding map_4kb_loop
  map_4kb_none i c m = refl

  pub map_4kb_loop-Written :
      (pages i : ℕ) (c : Context) (m : Memory)
      → c.level1_index + pages < 512
      → (c' : Context) × (m' : Memory) × (map_4kb_loop pages i physical_address entry_flags c m
          ≡ ok (true, c', m'))
        × Written pages i physical_address entry_flags c m m'
  unfolding next_entry step
  map_4kb_loop-Written zero i c m h = (
    c,
    m,
    map_4kb_none i c m,
    record {
      inside = λ k q. absurd (omega arith);
      before = λ j q. refl;
      other = λ t j q. refl;
      same_used = refl;
    },
  )
  map_4kb_loop-Written (suc pages) i c m h =
      let (c', m', run, w) =
        map_4kb_loop-Written pages (i + 1) (step c) (next_entry i c m) (omega arith) in
      (
        c',
        m',
        map_4kb_step pages i c m (omega arith) ∙ run,
        record {
          inside = inner m' w;
          before = λ j q. w.before j (omega arith) ∙ ground arith;
          other = λ t j q. w.other t j q ∙ ground arith;
          same_used = w.same_used;
        },
      )
    where
      inner :
          (m' : Memory)
          → Written pages (i + 1) physical_address entry_flags (step c) (next_entry i c m) m'
          → (k : ℕ) → k < suc pages
          → m'.entry c.level1_table (c.level1_index + k)
            ≡ page_entry (physical_address + 2 ^ 12 * (i + k)) entry_flags
      inner m' w zero q =
          ap (m'.entry c.level1_table) (omega arith)
          ∙ w.before c.level1_index (omega arith)
          ∙ (let same : i + zero ≡ i = omega arith in rw same (ground arith))
      inner m' w (suc k) q =
          ap (m'.entry c.level1_table) (omega arith)
          ∙ w.inside k (omega arith)
          ∙ ap (λ (t : ℕ). page_entry (physical_address + 2 ^ 12 * t) entry_flags) (omega arith)

-- The indices of an address in the run.
module _ (l4 l3 l2 l1 k offset : ℕ) (h3 : l3 < 512) (h2 : l2 < 512) (h1 : l1 + k < 512)
    (h0 : offset < 4096) where
  abbrev run_address : ℕ
  run_address = l4 * 2 ^ 39 + l3 * 2 ^ 30 + l2 * 2 ^ 21 + l1 * 2 ^ 12 + k * 2 ^ 12 + offset

  pub run_indices :
      l4 < 512
      → (table_index run_address 39 ≡ l4)
        × (table_index run_address 30 ≡ l3)
        × (table_index run_address 21 ≡ l2)
        × (table_index run_address 12 ≡ l1 + k)
        × (run_address % 2 ^ 12 ≡ offset)
  run_indices h4 = (omega arith, omega arith, omega arith, omega arith, omega arith)

module _ {c : Context} {m : Memory} (l : IsLinked c m) where
  -- The walk of an address that leads through the tables of the context.
  pub walk :
      (m' : Memory) (address value : ℕ)
      → ((t j : ℕ) → t ≢ c.level1_table → m'.entry t j ≡ m.entry t j)
      → table_index address 39 ≡ c.level4_index
      → table_index address 30 ≡ c.level3_index
      → table_index address 21 ≡ c.level2_index
      → m'.entry c.level1_table (table_index address 12) ≡ value
      → value ≢ 0
      → get_physical_address c address m' ≡ bit_and value page_mask + address % 2 ^ 12
  unfolding get_physical_address
  walk m' address value same e4 e3 e2 e1 ne =
      let some4 : (m.entry c.level4_table c.level4_index == 0) ≡ false = ground (arith, l.used4) in
      let some3 : (m.entry c.level3_table c.level3_index == 0) ≡ false = ground (arith, l.used3) in
      let some2 : (m.entry c.level2_table c.level2_index == 0) ≡ false = ground (arith, l.used2) in
      let some1 : (value == 0) ≡ false = ground arith in
      rw
        (
          e4,
          e3,
          e2,
          same c.level4_table c.level4_index l.apart4,
          some4,
          l.leads3,
          same c.level3_table c.level3_index l.apart3,
          some3,
          l.small3,
          l.leads2,
          same c.level2_table c.level2_index l.apart2,
          some2,
          l.small2,
          l.leads1,
          e1,
          some1,
        )
        refl
