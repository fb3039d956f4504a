-- ===== src/Paging/Spot.antt =====
-- `paging_index_find_spot`: the search for unused entries. `rounds` bounds its loops.
use kokos.Shared.{
  ℕ, zero, suc, ◌+◌, ◌*◌, Bool, true, false, not, ◌&&◌, ◌||◌, Outcome, ok, spin, ◌>>=◌, leb, ltb,
  ◌==◌, if◌then◌else◌,
}
use kokos.Paging.Defs.{Memory, Context, flag_1gb, flag_2mb, has, new_table, next_table}
use kokos.Paging.Map.{pages_of}

-- On to the next level 3 entry, from the last one of all to the first.
unfoldable pub spot_level3 : Context → Memory → Outcome (Context × Memory)
spot_level3 c m =
    if leb 512 (c.level3_index + 1)
    then (let l4 = if leb 512 (c.level4_index + 1) then 0 else c.level4_index + 1 in
        next_table c.level4_table l4 l4 m >>= λ (table, m).
        ok (record c { level4_index = l4; level3_index = 0; level3_table = table }, m))
    else ok (record c { level3_index = c.level3_index + 1 }, m)

unfoldable pub spot_level2 : Context → Memory → Outcome (Context × Memory)
unfolding spot_level3
spot_level2 c m =
    if leb 512 (c.level2_index + 1)
    then (spot_level3 c m >>= λ (d, m).
        next_table d.level3_table d.level3_index d.level3_index m >>= λ (table, m).
        ok (record d { level2_index = 0; level2_table = table }, m))
    else ok (record c { level2_index = c.level2_index + 1 }, m)

-- The three loops, `while (table[index])`.
unfoldable pub search_level2 : ℕ → Context → Memory → Outcome (Context × Memory)
unfolding spot_level2
search_level2 zero c m = spin
search_level2 (suc rounds) c m = elim (m.entry c.level2_table c.level2_index == 0) [
  | true ↦ ok (c, m)
  | false ↦ spot_level2 c m >>= λ (c, m). search_level2 rounds c m
]

unfoldable pub search_level3 : ℕ → Context → Memory → Outcome (Context × Memory)
unfolding spot_level3
search_level3 zero c m = spin
search_level3 (suc rounds) c m = elim (m.entry c.level3_table c.level3_index == 0) [
  | true ↦ ok (c, m)
  | false ↦ spot_level3 c m >>= λ (c, m). search_level3 rounds c m
]

unfoldable pub search_level4 : ℕ → Context → Memory → Outcome Context
search_level4 zero c m = spin
search_level4 (suc rounds) c m = elim (m.entry c.level4_table c.level4_index == 0) [
  | true ↦ ok c
  | false ↦
      search_level4 rounds
        (record c { level4_index = if leb 512 (c.level4_index + 1) then 0 else c.level4_index + 1 })
        m
]

-- A new table at the current entry of the table above, as far as the flags ask for one.
unfoldable pub add_level1 : ℕ → Context → Memory → Outcome (Context × Memory)
unfolding new_table
add_level1 flags c m =
    if has flags flag_2mb
    then ok (c, m)
    else (new_table c.level2_table c.level2_index m >>= λ (table, m).
        ok (record c { level1_index = 0; level1_table = table }, m))

unfoldable pub add_level2 : ℕ → Context → Memory → Outcome (Context × Memory)
unfolding new_table add_level1
add_level2 flags c m =
    if has flags flag_1gb
    then ok (c, m)
    else (new_table c.level3_table c.level3_index m >>= λ (table, m).
        add_level1 flags (record c { level2_index = 0; level2_table = table }) m)

unfoldable pub add_level3 : ℕ → Context → Memory → Outcome (Context × Memory)
unfolding new_table add_level2
add_level3 flags c m = new_table c.level4_table c.level4_index m >>= λ (table, m).
    add_level2 flags (record c { level3_index = 0; level3_table = table }) m

abbrev pub found : Context × Memory → Outcome (Bool × Context × Memory)
found (c, m) = ok (true, c, m)

unfoldable pub index_find_spot : ℕ → Context → ℕ → ℕ → Memory → Outcome (Bool × Context × Memory)
unfolding search_level2 search_level3 search_level4 add_level1 add_level2 add_level3
index_find_spot rounds c bytes flags m =
    if bytes == 0
    then ok (false, c, m)
    else (if leb bytes (512 * 4096) && not (c.level2_table == 0) && not (has flags flag_1gb)
        then (if ltb 512 (c.level1_index + pages_of bytes 12) || c.level1_table == 0
            then (search_level2 rounds c m >>= λ (c, m). add_level1 flags c m >>= found)
            else ok (true, c, m))
        else (if leb bytes (512 * 512 * 4096) && not (c.level3_table == 0)
            then (if ltb 512 (c.level2_index + pages_of bytes 21) || c.level2_table == 0
                then (search_level3 rounds c m >>= λ (c, m). add_level2 flags c m >>= found)
                else ok (true, c, m))
            else (if leb bytes (512 * 512 * 512 * 4096)
                then (if ltb 512 (c.level3_index + pages_of bytes 30) || c.level3_table == 0
                    then (search_level4 rounds c m >>= λ c. add_level3 flags c m >>= found)
                    else ok (true, c, m))
                else ok (not (ltb 512 (c.level4_index + pages_of bytes 39)), c, m))))
