-- ===== src/Paging/Translate.antt =====
-- `paging_get_physical_address`.
use kokos.Shared.{ℕ, ◌+◌, ◌%◌, ◌^◌, bit_and, ◌==◌, if◌then◌else◌}
use kokos.Paging.Defs.{Memory, Context, address_mask, entry_flag_size, has, table_index}

-- The mask of the address in the last entry, `0xFFFFFFFFFF000ul`.
abbrev pub page_mask : ℕ
page_mask = 0x000F_FFFF_FFFF_F000

-- A 0 stands for a page that is not mapped.
unfoldable pub get_physical_address : Context → ℕ → Memory → ℕ
get_physical_address c address m =
    let level4_entry = m.entry c.level4_table (table_index address 39) in
    if level4_entry == 0
    then 0
    else (let level3_entry = m.entry (bit_and level4_entry address_mask) (table_index address 30) in
        if level3_entry == 0
        then 0
        else (if has level3_entry entry_flag_size
            then bit_and level3_entry page_mask + address % 2 ^ 30
            else (let level2_entry =
                  m.entry (bit_and level3_entry address_mask) (table_index address 21) in
                if level2_entry == 0
                then 0
                else (if has level2_entry entry_flag_size
                    then bit_and level2_entry page_mask + address % 2 ^ 21
                    else (let level1_entry =
                          m.entry (bit_and level2_entry address_mask) (table_index address 12) in
                        if level1_entry == 0
                        then 0
                        else bit_and level1_entry page_mask + address % 2 ^ 12)))))
