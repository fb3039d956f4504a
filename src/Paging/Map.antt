-- ===== src/Paging/Map.antt =====
-- `paging_map_index_physical`, `paging_map_physical_at` and the steps from entry to entry.
use kokos.Shared.{
  ℕ, zero, suc, ◌+◌, ◌-◌, ◌*◌, ◌/◌, ◌%◌, ◌^◌, bit_and, bit_or, Bool, true, false, not, ◌&&◌, ◌||◌,
  Outcome, ok, ◌>>=◌, leb, ◌==◌, if◌then◌else◌,
}
use kokos.Paging.Defs.{
  Memory, Context, address_mask, entry_flag_size, flag_1gb, flag_2mb, flag_replace, has, store,
  new_table, next_table, convert_flags, virtual_address_to_index,
}

-- `level4_index` goes on, at the end of the address space no further; the level 3 table is then the
-- next one. `raw` takes the entry as the table's address with its flags, as the loop for 1 GiB does.
unfoldable pub next_level4 : Bool → Context → Memory → Outcome (Bool × Context × Memory)
next_level4 raw c m =
    let l4 = c.level4_index + 1 in
    if leb 512 l4
    then ok (false, record c { level4_index = l4 }, m)
    else (let entry = m.entry c.level4_table l4 in
        (if raw
          then (if entry == 0 then new_table c.level4_table l4 m else ok (entry, m))
          else next_table c.level4_table l4 l4 m)
        >>= λ (table, m).
            ok (true, record c { level4_index = l4; level3_index = 0; level3_table = table }, m))

unfoldable pub next_level3 : Bool → Context → Memory → Outcome (Bool × Context × Memory)
unfolding next_level4
next_level3 raw c m =
    let next : Context = record c { level3_index = c.level3_index + 1 } in
    if leb 512 (c.level3_index + 1) then next_level4 raw next m else ok (true, next, m)

unfoldable pub next_level2 : Context → Memory → Outcome (Bool × Context × Memory)
unfolding next_level3
next_level2 c m =
    let next : Context = record c { level2_index = c.level2_index + 1 } in
    if leb 512 (c.level2_index + 1)
    then (next_level3 false next m >>= λ (more, d, m).
        if more
        then (next_table d.level3_table d.level3_index d.level3_index m >>= λ (table, m).
            ok (true, record d { level2_index = 0; level2_table = table }, m))
        else ok (false, d, m))
    else ok (true, next, m)

unfoldable pub next_level1 : Context → Memory → Outcome (Bool × Context × Memory)
unfolding next_level2
next_level1 c m =
    let next : Context = record c { level1_index = c.level1_index + 1 } in
    if leb 512 (c.level1_index + 1)
    then (next_level2 next m >>= λ (more, d, m).
        if more
        then (next_table d.level2_table d.level2_index d.level2_index m >>= λ (table, m).
            ok (true, record d { level1_index = 0; level1_table = table }, m))
        else ok (false, d, m))
    else ok (true, next, m)

-- The masked address with the flags, which the loop for 4 KiB writes as it is.
abbrev pub page_entry : ℕ → ℕ → ℕ
page_entry address entry_flags = bit_or (bit_and (address % 2 ^ 64) address_mask) entry_flags

-- The three loops over the pages, from the page `i` on.
unfoldable pub map_1gb_loop : ℕ → ℕ → ℕ → ℕ → Context → Memory → Outcome (Bool × Context × Memory)
unfolding next_level3
map_1gb_loop zero i physical_address entry_flags c m = ok (true, c, m)
map_1gb_loop (suc pages) i physical_address entry_flags c m =
    let value = bit_or (page_entry (physical_address + 2 ^ 30 * i) entry_flags) entry_flag_size in
    next_level3 true c (record m { entry = store c.level3_table c.level3_index value m.entry })
    >>= λ (more, c, m). elim more [
      | true ↦ map_1gb_loop pages (i + 1) physical_address entry_flags c m
      | false ↦ ok (false, c, m)
    ]

unfoldable pub map_2mb_loop : ℕ → ℕ → ℕ → ℕ → Context → Memory → Outcome (Bool × Context × Memory)
unfolding next_level2
map_2mb_loop zero i physical_address entry_flags c m = ok (true, c, m)
map_2mb_loop (suc pages) i physical_address entry_flags c m =
    let value = bit_or (page_entry (physical_address + 2 ^ 21 * i) entry_flags) entry_flag_size in
    next_level2 c (record m { entry = store c.level2_table c.level2_index value m.entry })
    >>= λ (more, c, m). elim more [
      | true ↦ map_2mb_loop pages (i + 1) physical_address entry_flags c m
      | false ↦ ok (false, c, m)
    ]

unfoldable pub map_4kb_loop : ℕ → ℕ → ℕ → ℕ → Context → Memory → Outcome (Bool × Context × Memory)
unfolding next_level1
map_4kb_loop zero i physical_address entry_flags c m = ok (true, c, m)
map_4kb_loop (suc pages) i physical_address entry_flags c m =
    let value = page_entry (physical_address + 2 ^ 12 * i) entry_flags in
    next_level1 c (record m { entry = store c.level1_table c.level1_index value m.entry })
    >>= λ (more, c, m). elim more [
      | true ↦ map_4kb_loop pages (i + 1) physical_address entry_flags c m
      | false ↦ ok (false, c, m)
    ]

-- The pages are counted when all of them are mapped.
unfoldable pub count_pages : ℕ → Bool × Context × Memory → Outcome (Bool × Context × Memory)
count_pages pages (true, c, m) =
    ok (true, c, record m { used_virtual_pages = (m.used_virtual_pages + pages) % 2 ^ 64 })
count_pages pages (false, c, m) = ok (false, c, m)

-- `((bytes - 1) >> shift) + 1`, for bytes that are not 0
abbrev pub pages_of : ℕ → ℕ → ℕ
pages_of bytes shift = (bytes - 1) / 2 ^ shift + 1

unfoldable pub map_index_physical : ℕ → ℕ → ℕ → Context → Memory → Outcome (Bool × Context × Memory)
unfolding map_1gb_loop map_2mb_loop map_4kb_loop count_pages convert_flags
map_index_physical physical_address bytes flags c m =
    let entry_flags = convert_flags flags in
    let level3_entry = m.entry c.level3_table c.level3_index in
    let level2_entry = m.entry c.level2_table c.level2_index in
    let level1_entry = m.entry c.level1_table c.level1_index in
    if bytes == 0
    then ok (false, c, m)
    else (if has level3_entry entry_flag_size || has flags flag_1gb
        then (if not m.hugepages_supported
            then ok (false, c, m)
            else (if not (physical_address % 2 ^ 30 == 0)
                then ok (false, c, m)
                else (if not (level3_entry == 0) && not (has flags flag_replace)
                    then ok (false, c, m)
                    else (map_1gb_loop (pages_of bytes 30) 0 physical_address entry_flags c m
                        >>= count_pages (pages_of bytes 30 * 512 * 512)))))
        else (if has level2_entry entry_flag_size || has flags flag_2mb
            then (if not (physical_address % 2 ^ 21 == 0)
                then ok (false, c, m)
                else (if not (level2_entry == 0) && not (has flags flag_replace)
                    then ok (false, c, m)
                    else (map_2mb_loop (pages_of bytes 21) 0 physical_address entry_flags c m
                        >>= count_pages (pages_of bytes 21 * 512))))
            else (if not (level1_entry == 0)
                then ok (false, c, m)
                else (if not (physical_address % 2 ^ 12 == 0)
                    then ok (false, c, m)
                    else (map_4kb_loop (pages_of bytes 12) 0 physical_address entry_flags c m
                        >>= count_pages (pages_of bytes 12))))))

-- The fields of the new context that are not set yet are what lies on the stack: `stack` gives them.
unfoldable pub map_physical_at : Context → ℕ → ℕ → ℕ → ℕ → Context → Memory → Outcome (ℕ × Memory)
unfolding virtual_address_to_index map_index_physical
map_physical_at context physical_address virtual_address bytes flags stack m =
    virtual_address_to_index virtual_address flags
      (record stack { level4_table = context.level4_table }) m
    >>= λ (found, index, m).
        if found
        then (map_index_physical physical_address bytes (flags % 2 ^ 16) index m >>= λ (done, _, m).
            ok (if done then virtual_address else 0, m))
        else ok (0, m)
