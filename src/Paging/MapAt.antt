-- ===== src/Paging/MapAt.antt =====
-- `paging_virtual_address_to_index`, the first step of `paging_map_physical_at`, where the level 1
-- table is missing.
use kokos.Shared.{
  ℕ, ◌%◌, ◌^◌, ◌≡◌, ◌≢◌, refl, ap, bit_and, bit_or, false, arith, List, ◌∷◌, ok, ◌>>=◌, ◌==◌,
}
use kokos.Paging.Defs.{
  Memory, Context, address_mask, entry_flag_size, flag_1gb, flag_2mb, has, store, clear,
  table_index, next_table, virtual_address_to_index,
}
use kokos.Paging.Translate.{get_physical_address}

-- The level 3 and level 2 tables on the way to an address.
pub record Reaches (c : Context) (address : ℕ) (m : Memory) (t3 t2 : ℕ) : Type 0 where
  pub leads3 : bit_and (m.entry c.level4_table (table_index address 39)) address_mask ≡ t3
  pub leads2 : bit_and (m.entry t3 (table_index address 30)) address_mask ≡ t2
  pub some3 : t3 ≢ 0
  pub some2 : t2 ≢ 0
  pub used4 : m.entry c.level4_table (table_index address 39) ≢ 0
  pub used3 : m.entry t3 (table_index address 30) ≢ 0
  pub small3 : has (m.entry t3 (table_index address 30)) entry_flag_size ≡ false

-- The context of an address, with the tables to which it leads.
abbrev pub context_of : ℕ → ℕ → ℕ → ℕ → ℕ → Context
context_of t4 t3 t2 t1 address = record {
  level4_table = t4;
  level3_table = t3;
  level2_table = t2;
  level1_table = t1;
  level4_index = table_index address 39;
  level3_index = table_index address 30;
  level2_index = table_index address 21;
  level1_index = table_index address 12;
}

pub next_table_there :
    (parent index target : ℕ) (m : Memory) {t : ℕ}
    → bit_and (m.entry parent index) address_mask ≡ t
    → t ≢ 0
    → next_table parent index target m ≡ ok (t, m)
unfolding next_table
next_table_there parent index target m {t} e ne =
    let some : (t == 0) ≡ false = ground arith in rw (e, some) refl

next_table_missing :
    (parent index target : ℕ) (m : Memory) {t : ℕ} {rest : List ℕ}
    → bit_and (m.entry parent index) address_mask ≡ 0
    → m.fresh ≡ t ∷ rest
    → next_table parent index target m
      ≡ ok
          (t, record m { entry = store parent target (bit_or t 3) (clear t m.entry); fresh = rest })
unfolding next_table
next_table_missing parent index target m e f = rw (e, f) refl

module _ {c : Context} {address : ℕ} {m : Memory} {t3 t2 : ℕ} (r : Reaches c address m t3 t2)
    (flags : ℕ) (no_1gb : has flags flag_1gb ≡ false) (no_2mb : has flags flag_2mb ≡ false) where
  to_index_run :
      {t1 : ℕ} {m1 : Memory}
      → next_table t2 (table_index address 21) (table_index address 30) m ≡ ok (t1, m1)
      → virtual_address_to_index address flags c m
        ≡ ok (address % 2 ^ 12 == 0, context_of c.level4_table t3 t2 t1 address, m1)
  unfolding virtual_address_to_index
  to_index_run run =
      rw
        (
          next_table_there c.level4_table (table_index address 39) (table_index address 39) m
              r.leads3 r.some3,
          ◌>>=◌,
          no_1gb,
          next_table_there t3 (table_index address 30) (table_index address 30) m r.leads2 r.some2,
          no_2mb,
          run,
        )
        refl

  -- Where the level 4 and level 3 tables lead to the tables t3 and t2, t2 has a 0 at the index of
  -- level 2, the indices of the levels 2 and 3 differ, the next free page is none of the tables
  -- above and t2 is neither the level 4 table nor t3, and neither 1 GiB nor 2 MiB is asked for,
  -- `virtual_address_to_index` enters the new level 1 table into t2 at the index of level 3, and
  -- the address stays without a translation.
  pub index-misplaces_table :
      (t : ℕ) (rest : List ℕ)
      → m.fresh ≡ t ∷ rest
      → m.entry t2 (table_index address 21) ≡ 0
      → table_index address 21 ≢ table_index address 30
      → t ≢ c.level4_table
      → t ≢ t3
      → t2 ≢ c.level4_table
      → t2 ≢ t3
      → (c' : Context) × (m' : Memory) × (virtual_address_to_index address flags c m
          ≡ ok (address % 2 ^ 12 == 0, c', m'))
        × (c'.level1_table ≡ t)
        × (m'.entry t2 (table_index address 30) ≡ bit_or t 3)
        × (get_physical_address c' address m' ≡ 0)
  unfolding get_physical_address
  index-misplaces_table t rest fresh missing differ n4 n3 a4 a3 =
      let m' : Memory = record m {
        entry = store t2 (table_index address 30) (bit_or t 3) (clear t m.entry);
        fresh = rest;
      } in
      let e4 : m'.entry c.level4_table (table_index address 39)
          ≡ m.entry c.level4_table (table_index address 39) =
        ground arith in
      let e3 : m'.entry t3 (table_index address 30) ≡ m.entry t3 (table_index address 30) =
        ground arith in
      let e2 : m'.entry t2 (table_index address 21) ≡ 0 = ground arith in
      let u4 : (m.entry c.level4_table (table_index address 39) == 0) ≡ false =
        ground (arith, r.used4) in
      let u3 : (m.entry t3 (table_index address 30) == 0) ≡ false = ground (arith, r.used3) in
      (
        context_of c.level4_table t3 t2 t address,
        m',
        to_index_run (
            next_table_missing t2 (table_index address 21) (table_index address 30) m
              (ap (λ (e : ℕ). bit_and e address_mask) missing) fresh),
        refl,
        ground arith,
        rw (e4, u4, r.leads3, e3, u3, r.small3, r.leads2, e2) refl,
      )
