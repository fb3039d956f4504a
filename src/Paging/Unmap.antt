-- ===== src/Paging/Unmap.antt =====
-- `paging_unmap`, with what it does at the end of the tables and at a table that is missing.
use kokos.Shared.{
  ℕ, zero, suc, ◌+◌, ◌-◌, ◌*◌, ◌/◌, ◌%◌, ◌^◌, bit_and, Bool, true, false, not, Option, none, some,
  leb, ◌==◌, if◌then◌else◌,
}
use kokos.Paging.Defs.{Memory, Context, address_mask, entry_flag_size, has, store, table_index}

-- The local variables of the walk are those of a context. A step that gives up has no next one.
-- `table = (entry & PAGING_ADDRESS_MASK); if (!table) …`
abbrev pub enter : ℕ → (ℕ → Context) → Option Context
enter entry walk =
    let table = bit_and entry address_mask in if table == 0 then none else some (walk table)

unfoldable pub unmap_next3 : Context → Memory → Option Context
unmap_next3 c m =
    if leb 512 (c.level3_index + 1)
    then (if leb 512 (c.level4_index + 1)
        then none
        else enter (m.entry c.level4_table (c.level4_index + 1)) (λ table. record c {
          level4_index = c.level4_index + 1;
          level3_index = 0;
          level3_table = table;
        }))
    else some (record c { level3_index = c.level3_index + 1 })

unfoldable pub unmap_next2 : Context → Memory → Option Context
unfolding unmap_next3
unmap_next2 c m =
    if leb 512 (c.level2_index + 1)
    then (elim (unmap_next3 c m) [
      | none ↦ none
      | some d ↦
          enter (m.entry d.level3_table d.level3_index)
            (λ table. record d { level2_index = 0; level2_table = table })
    ])
    else some (record c { level2_index = c.level2_index + 1 })

unfoldable pub unmap_next1 : Context → Memory → Option Context
unfolding unmap_next2
unmap_next1 c m =
    if leb 512 (c.level1_index + 1)
    then (elim (unmap_next2 c m) [
      | none ↦ none
      | some d ↦
          enter (m.entry d.level2_table d.level2_index)
            (λ table. record d { level1_index = 0; level1_table = table })
    ])
    else some (record c { level1_index = c.level1_index + 1 })

abbrev pub without : ℕ → ℕ → Memory → Memory
without table index m = record m { entry = store table index 0 m.entry }

-- The three loops.
unfoldable pub unmap_1gb_loop : ℕ → Context → Memory → Bool × Memory
unfolding unmap_next3
unmap_1gb_loop zero c m = (true, m)
unmap_1gb_loop (suc pages) c m =
    let m' = without c.level3_table c.level3_index m in
    elim (unmap_next3 c m') [ none ↦ (false, m') | some d ↦ unmap_1gb_loop pages d m' ]

unfoldable pub unmap_2mb_loop : ℕ → Context → Memory → Bool × Memory
unfolding unmap_next2
unmap_2mb_loop zero c m = (true, m)
unmap_2mb_loop (suc pages) c m =
    let m' = without c.level2_table c.level2_index m in
    elim (unmap_next2 c m') [ none ↦ (false, m') | some d ↦ unmap_2mb_loop pages d m' ]

unfoldable pub unmap_4kb_loop : ℕ → Context → Memory → Bool × Memory
unfolding unmap_next1
unmap_4kb_loop zero c m = (true, m)
unmap_4kb_loop (suc pages) c m =
    let m' = without c.level1_table c.level1_index m in
    elim (unmap_next1 c m') [ none ↦ (false, m') | some d ↦ unmap_4kb_loop pages d m' ]

-- `((bytes - 1) >> shift) + 1` in 64 bits: here no test keeps out 0 bytes.
abbrev pub unmap_pages : ℕ → ℕ → ℕ
unmap_pages bytes shift = (bytes + 2 ^ 64 - 1) % 2 ^ 64 / 2 ^ shift + 1

unfoldable pub uncount_pages : ℕ → Bool × Memory → Bool × Memory
uncount_pages pages (true, m) =
    (true, record m { used_virtual_pages = (m.used_virtual_pages + 2 ^ 64 - pages) % 2 ^ 64 })
uncount_pages pages (false, m) = (false, m)

unfoldable pub unmap : Context → ℕ → ℕ → Memory → Bool × Memory
unfolding unmap_1gb_loop unmap_2mb_loop unmap_4kb_loop uncount_pages
unmap context address bytes m =
    let i4 = table_index address 39 in
    let i3 = table_index address 30 in
    let i2 = table_index address 21 in
    let i1 = table_index address 12 in
    let level4_entry = m.entry context.level4_table i4 in
    let t3 = bit_and level4_entry address_mask in
    let level3_entry = m.entry t3 i3 in
    let t2 = bit_and level3_entry address_mask in
    let level2_entry = m.entry t2 i2 in
    let t1 = bit_and level2_entry address_mask in
    let walk : Context = record {
      level4_table = context.level4_table;
      level3_table = t3;
      level2_table = t2;
      level1_table = t1;
      level4_index = i4;
      level3_index = i3;
      level2_index = i2;
      level1_index = i1;
    } in
    if level4_entry == 0
    then (false, m)
    else (if level3_entry == 0
        then (false, m)
        else (if has level3_entry entry_flag_size
            then (if not (address % 2 ^ 30 == 0)
                then (false, m)
                else uncount_pages (unmap_pages bytes 30 * 512 * 512 % 2 ^ 64)
                    (unmap_1gb_loop (unmap_pages bytes 30) walk m))
            else (if level2_entry == 0
                then (false, m)
                else (if has level2_entry entry_flag_size
                    then (if not (address % 2 ^ 21 == 0)
                        then (false, m)
                        else uncount_pages (unmap_pages bytes 21 * 512 % 2 ^ 64)
                            (unmap_2mb_loop (unmap_pages bytes 21) walk m))
                    else (if m.entry t1 i1 == 0
                        then (false, m)
                        else (if not (address % 2 ^ 12 == 0)
                            then (false, m)
                            else uncount_pages (unmap_pages bytes 12)
                                (unmap_4kb_loop (unmap_pages bytes 12) walk m)))))))
