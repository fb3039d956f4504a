-- ===== src/Paging/Current.antt =====
-- `paging_map_index_current`, which maps pages from the allocator, and the functions that search for
-- an address or take pages: `paging_map_physical`, `paging_map`, `paging_map_at`. The context is
-- changed in place, so it is returned.
use kokos.Shared.{
  ℕ, zero, suc, ◌*◌, ◌%◌, ◌^◌, bit_or, Bool, true, false, not, ◌||◌, [], ◌∷◌, Outcome, ok, spin,
  ◌>>=◌, ◌==◌, if◌then◌else◌,
}
use kokos.Paging.Defs.{
  Memory, Context, entry_flag_size, flag_1gb, flag_2mb, has, store, convert_flags,
  virtual_address_to_index,
}
use kokos.Paging.Map.{next_level1, page_entry, count_pages, pages_of, map_index_physical}
use kokos.Paging.Spot.{index_find_spot}

-- The loop for 4 KiB: each page comes from `memory_physical_allocate`.
unfoldable pub map_current_loop : ℕ → ℕ → Context → Memory → Outcome (Bool × Context × Memory)
unfolding next_level1
map_current_loop zero entry_flags c m = ok (true, c, m)
map_current_loop (suc pages) entry_flags c m = elim m.fresh [
  | [] ↦ spin
  | page ∷ rest ↦
      next_level1 c (record m {
        entry = store c.level1_table c.level1_index (page_entry page entry_flags) m.entry;
        fresh = rest;
      })
      >>= λ (more, c, m). elim more [
        | true ↦ map_current_loop pages entry_flags c m
        | false ↦ ok (false, c, m)
      ]
]

-- The pages of 1 GiB and 2 MiB are not implemented: their loops give up in the first round.
unfoldable pub map_index_current : ℕ → ℕ → Context → Memory → Outcome (Bool × Context × Memory)
unfolding map_current_loop count_pages convert_flags
map_index_current bytes flags c m =
    if bytes == 0
    then ok (false, c, m)
    else (if has (m.entry c.level3_table c.level3_index) entry_flag_size || has flags flag_1gb
        then ok (false, c, m)
        else (if has (m.entry c.level2_table c.level2_index) entry_flag_size || has flags flag_2mb
            then ok (false, c, m)
            else (if not (m.entry c.level1_table c.level1_index == 0)
                then ok (false, c, m)
                else (map_current_loop (pages_of bytes 12) (convert_flags flags) c m
                    >>= count_pages (pages_of bytes 12)))))

-- `(level1_index << 12) | (level2_index << 21) | (level3_index << 30) | (level4_index << 39)`
abbrev pub virtual_address : Context → ℕ
virtual_address c =
    bit_or
      (bit_or (bit_or (c.level1_index * 2 ^ 12) (c.level2_index * 2 ^ 21))
        (c.level3_index * 2 ^ 30))
      (c.level4_index * 2 ^ 39)

unfoldable pub map_physical : ℕ → Context → ℕ → ℕ → ℕ → Memory → Outcome (ℕ × Context × Memory)
unfolding index_find_spot map_index_physical
map_physical rounds context physical_address bytes flags m =
    index_find_spot rounds context bytes flags m >>= λ (found, c, m).
    if found
    then (map_index_physical physical_address bytes (flags % 2 ^ 16) c m >>= λ (done, d, m).
        ok (if done then virtual_address c else 0, d, m))
    else ok (0, c, m)

unfoldable pub map_pages : ℕ → Context → ℕ → ℕ → Memory → Outcome (ℕ × Context × Memory)
unfolding index_find_spot map_index_current
map_pages rounds context bytes flags m =
    index_find_spot rounds context bytes flags m >>= λ (found, c, m).
    if found
    then (map_index_current bytes (flags % 2 ^ 16) c m >>= λ (done, d, m).
        ok (if done then virtual_address c else 0, d, m))
    else ok (0, c, m)

-- The fields of the new context that are not set yet are what lies on the stack: `stack` gives them.
unfoldable pub map_at : Context → ℕ → ℕ → ℕ → Context → Memory → Outcome (ℕ × Memory)
unfolding virtual_address_to_index map_index_current
map_at context address bytes flags stack m =
    virtual_address_to_index address flags (record stack { level4_table = context.level4_table }) m
    >>= λ (found, index, m).
        if found
        then (map_index_current bytes (flags % 2 ^ 16) index m >>= λ (done, _, m).
            ok (if done then address else 0, m))
        else ok (0, m)
