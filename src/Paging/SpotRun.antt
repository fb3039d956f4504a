-- ===== src/Paging/SpotRun.antt =====
-- `paging_index_find_spot` for a request that fits in one level 1 table, where the level 2 table has
-- an unused entry.
use kokos.Shared.{
  ℕ, zero, suc, ◌+◌, ◌-◌, ◌*◌, ◌≤◌, ◌<◌, ◌≡◌, ◌≢◌, refl, ap, ◌∙◌, ◌⊎◌, inl, inr, bit_or, true,
  false, ◌||◌, arith, List, ◌∷◌, ok, ◌>>=◌, leb, ltb, ◌==◌, Bool-cases,
}
use kokos.Paging.Defs.{Memory, Context, flag_1gb, flag_2mb, has, store, clear, new_table}
use kokos.Paging.Map.{pages_of}
use kokos.Paging.Spot.{spot_level2, search_level2, add_level1, index_find_spot}

-- `j` is the first entry from the current one on that is 0.
pub record FirstUnused (c : Context) (m : Memory) (j : ℕ) : Type 0 where
  pub from : c.level2_index ≤ j
  pub inside : j < 512
  pub unused : m.entry c.level2_table j ≡ 0
  pub used_before : (i : ℕ) → c.level2_index ≤ i → i < j → m.entry c.level2_table i ≢ 0

abbrev pub at_level2 : Context → ℕ → Context
at_level2 c j = record c { level2_index = j }

search_here :
    (rounds : ℕ) (c : Context) (m : Memory)
    → m.entry c.level2_table c.level2_index ≡ 0
    → search_level2 (suc rounds) c m ≡ ok (c, m)
unfolding search_level2
search_here rounds c m e = rw (search_level2, e) refl

search_more :
    (rounds : ℕ) (c : Context) (m : Memory)
    → m.entry c.level2_table c.level2_index ≢ 0
    → c.level2_index + 1 < 512
    → search_level2 (suc rounds) c m ≡ search_level2 rounds (at_level2 c (c.level2_index + 1)) m
unfolding search_level2 spot_level2
search_more rounds c m ne h =
    let used : (m.entry c.level2_table c.level2_index == 0) ≡ false = ground arith in
    let more : leb 512 (c.level2_index + 1) ≡ false = ground arith in
    rw (search_level2, used, spot_level2, more) refl

search_level2-FirstUnused :
    (rounds : ℕ) (c : Context) (m : Memory) (goal : ℕ)
    → c.level2_index ≤ goal
    → goal < 512
    → m.entry c.level2_table goal ≡ 0
    → goal - c.level2_index < rounds
    → (j : ℕ) × (search_level2 rounds c m ≡ ok (at_level2 c j, m)) × FirstUnused c m j
search_level2-FirstUnused zero c m goal lo hi e h = absurd (omega arith)
search_level2-FirstUnused (suc rounds) c m goal lo hi e h =
    elim (Bool-cases (m.entry c.level2_table c.level2_index == 0)) [
      | inl here ↦ (
        c.level2_index,
        search_here rounds c m (ground arith),
        record {
          from = omega arith;
          inside = omega arith;
          unused = ground arith;
          used_before = λ i p q. absurd (omega arith);
        },
      )
      | inr used ↦
          let ne : m.entry c.level2_table c.level2_index ≢ 0 = ground arith in
          let past : c.level2_index + 1 ≤ goal = later used in
          let (j, run, first) =
            search_level2-FirstUnused rounds (at_level2 c (c.level2_index + 1)) m goal past hi e
              (omega arith) in
          (
            j,
            search_more rounds c m ne (omega arith) ∙ run,
            record {
              from = omega (arith, first.from);
              inside = first.inside;
              unused = first.unused;
              used_before = λ i p q. elim (Bool-cases (i == c.level2_index)) [
                | inl same ↦ let at : i ≡ c.level2_index = ground arith in rw at ne
                | inr other ↦ first.used_before i (ground arith) q
              ];
            },
          )
    ]
  where
    later : (m.entry c.level2_table c.level2_index == 0) ≡ false → c.level2_index + 1 ≤ goal
    later used = elim (Bool-cases (c.level2_index == goal)) [
      | inl same ↦ absurd (
          let at : c.level2_index ≡ goal = ground arith in
          ground (arith, ap (m.entry c.level2_table) at))
      | inr other ↦ ground arith
    ]

-- The memory after a new table at `t` has gone to the entry `j` of the level 2 table.
abbrev pub with_table : Context → ℕ → ℕ → List ℕ → Memory → Memory
with_table c j t rest m = record m {
  entry = store c.level2_table j (bit_or t 3) (clear t m.entry);
  fresh = rest;
}

add_level1_run :
    (flags : ℕ) (c : Context) (m : Memory) {t : ℕ} {rest : List ℕ}
    → has flags flag_2mb ≡ false
    → m.fresh ≡ t ∷ rest
    → add_level1 flags c m
      ≡ ok (record c { level1_index = 0; level1_table = t }, with_table c c.level2_index t rest m)
unfolding add_level1 new_table
add_level1_run flags c m small fresh = rw (small, fresh) refl

module _ (c : Context) (m : Memory) (rounds bytes flags : ℕ) where
  -- For some bytes that fit in one level 1 table, a level 2 table but no room in the level 1 table,
  -- neither 1 GiB nor 2 MiB asked for, an unused entry of the level 2 table not before the current
  -- one, rounds enough to reach it and a fresh page that is not that table, `index_find_spot`
  -- succeeds: the first unused entry leads to the fresh page, which is empty and becomes the
  -- current table from its first entry on, and no other entry changes.
  pub index_find_spot-FirstUnused :
      (goal t : ℕ) (rest : List ℕ)
      → bytes ≢ 0
      → bytes ≤ 512 * 4096
      → c.level2_table ≢ 0
      → (512 < c.level1_index + pages_of bytes 12) ⊎ (c.level1_table ≡ 0)
      → has flags flag_1gb ≡ false
      → has flags flag_2mb ≡ false
      → c.level2_index ≤ goal
      → goal < 512
      → m.entry c.level2_table goal ≡ 0
      → goal - c.level2_index < rounds
      → m.fresh ≡ t ∷ rest
      → t ≢ c.level2_table
      → (j : ℕ) × (c' : Context) × (m' : Memory) × (index_find_spot rounds c bytes flags m
          ≡ ok (true, c', m'))
        × FirstUnused c m j
        × (c' ≡ record c { level2_index = j; level1_index = 0; level1_table = t })
        × (m'.entry c.level2_table j ≡ bit_or t 3)
        × ((i : ℕ) → m'.entry t i ≡ 0)
        × ((table i : ℕ)
            → table ≢ t
            → (table ≢ c.level2_table) ⊎ (i ≢ j)
            → m'.entry table i ≡ m.entry table i)
        × (m'.fresh ≡ rest)
  unfolding index_find_spot
  index_find_spot-FirstUnused goal t rest some small there full no_1gb no_2mb lo hi unused enough
        fresh apart =
      let (j, run, first) = search_level2-FirstUnused rounds c m goal lo hi unused enough in
      let bytes_test : (bytes == 0) ≡ false = ground arith in
      let fits : leb bytes (512 * 4096) ≡ true = ground arith in
      let table_test : (c.level2_table == 0) ≡ false = ground arith in
      let full_test : (ltb 512 (c.level1_index + pages_of bytes 12) || c.level1_table == 0) ≡ true =
        ground arith in
      (
        j,
        record c { level2_index = j; level1_index = 0; level1_table = t },
        with_table c j t rest m,
        rw
            (
              bytes_test,
              fits,
              table_test,
              no_1gb,
              full_test,
              run,
              ◌>>=◌,
              add_level1_run flags (at_level2 c j) m no_2mb fresh,
            )
            refl,
        first,
        refl,
        ground arith,
        λ i. ground arith,
        λ table i ne other. ground arith,
        refl,
      )
