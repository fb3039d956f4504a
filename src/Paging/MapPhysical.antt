-- ===== src/Paging/MapPhysical.antt =====
-- `paging_map_physical_at` where the tables of the address are in place.
use kokos.Shared.{
  ℕ, ◌+◌, ◌*◌, ◌%◌, ◌^◌, ◌≤◌, ◌<◌, ◌≡◌, ◌≢◌, refl, ap, ◌∙◌, true, false, arith, ok, ◌>>=◌, ◌==◌,
  ==_iff,
}
use kokos.Paging.Defs.{
  Memory, Context, flag_1gb, flag_2mb, has, table_index, virtual_address_to_index,
}
use kokos.Paging.Map.{pages_of, map_physical_at}
use kokos.Paging.Translate.{get_physical_address}
use kokos.Paging.Run.{IsLinked, address_of}
use kokos.Paging.MapRun.{map_index_physical-translates}
use kokos.Paging.MapAt.{context_of, next_table_there}

module _ {t4 t3 t2 t1 : ℕ} (virtual_address : ℕ) {m : Memory}
    (l : IsLinked (context_of t4 t3 t2 t1 virtual_address) m) (some3 : t3 ≢ 0) (some2 : t2 ≢ 0)
    (some1 : t1 ≢ 0) where
  to_index-there :
      (flags : ℕ) (c : Context)
      → c.level4_table ≡ t4
      → has flags flag_1gb ≡ false
      → has flags flag_2mb ≡ false
      → virtual_address_to_index virtual_address flags c m
        ≡ ok (virtual_address % 2 ^ 12 == 0, context_of t4 t3 t2 t1 virtual_address, m)
  unfolding virtual_address_to_index
  to_index-there flags c at no_1gb no_2mb =
      rw
        (
          at,
          next_table_there t4 (table_index virtual_address 39) (table_index virtual_address 39) m
              l.leads3 some3,
          ◌>>=◌,
          no_1gb,
          next_table_there t3 (table_index virtual_address 30) (table_index virtual_address 30) m
              l.leads2 some2,
          no_2mb,
          next_table_there t2 (table_index virtual_address 21) (table_index virtual_address 30) m
              l.leads1 some1,
        )
        refl

  -- Where the tables of all four levels are in place on the way to an aligned virtual address below
  -- 2^48, with flags of 16 bits that ask for neither 1 GiB nor 2 MiB, some bytes, an aligned
  -- physical range below 2^52, an unused first entry and a run that ends before the last entry of
  -- its level 1 table, `map_physical_at` gives back the virtual address, and the translation of
  -- each address of the run from there on is the physical address at the same distance.
  pub map_physical_at-translates :
      (context stack : Context) (physical_address bytes flags : ℕ)
      → context.level4_table ≡ t4
      → virtual_address % 2 ^ 12 ≡ 0
      → virtual_address < 2 ^ 48
      → flags < 2 ^ 16
      → has flags flag_1gb ≡ false
      → has flags flag_2mb ≡ false
      → bytes ≢ 0
      → m.entry t1 (table_index virtual_address 12) ≡ 0
      → physical_address % 2 ^ 12 ≡ 0
      → physical_address + 2 ^ 12 * pages_of bytes 12 ≤ 2 ^ 52
      → table_index virtual_address 12 + pages_of bytes 12 < 512
      → (m' : Memory) × (map_physical_at context physical_address virtual_address bytes flags stack
            m
          ≡ ok (virtual_address, m'))
        × ((k offset : ℕ)
            → k < pages_of bytes 12
            → offset < 2 ^ 12
            → get_physical_address
                (context_of t4 t3 t2 t1 virtual_address)
                (virtual_address + k * 2 ^ 12 + offset)
                m'
              ≡ physical_address + k * 2 ^ 12 + offset)
  unfolding map_physical_at
  map_physical_at-translates context stack physical_address bytes flags at aligned low word no_1gb
        no_2mb some unused aligned' fits room =
      let (c', m', run, _, translated) =
        map_index_physical-translates l physical_address bytes flags no_1gb no_2mb some unused
          aligned' fits room in
      let found : (virtual_address % 2 ^ 12 == 0) ≡ true =
        (==_iff (virtual_address % 2 ^ 12) 0).1 aligned in
      let cut : flags % 2 ^ 16 ≡ flags = omega arith in
      let start : address_of (context_of t4 t3 t2 t1 virtual_address) ≡ virtual_address =
        omega arith in
      (
        m',
        rw
            (
              to_index-there flags (record stack { level4_table = context.level4_table }) at no_1gb
                  no_2mb,
              ◌>>=◌,
              found,
              cut,
              run,
            )
            refl,
        λ k offset hk ho.
            let e : virtual_address + k * 2 ^ 12 + offset
                ≡ address_of (context_of t4 t3 t2 t1 virtual_address) + k * 2 ^ 12 + offset =
              omega arith in
            ap (λ a. get_physical_address (context_of t4 t3 t2 t1 virtual_address) a m') e
            ∙ translated k offset hk ho,
      )
