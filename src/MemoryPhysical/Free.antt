-- ===== src/MemoryPhysical/Free.antt =====
-- `memory_physical_free`, also of a page that `memory_physical_allocate` handed out.
use kokos.Shared.{
  ℕ, ◌+◌, ◌-◌, ◌*◌, ◌/◌, ◌%◌, ◌^◌, ◌≤◌, ◌<◌, ◌≡◌, refl, sym, ◌∙◌, ap, inl, inr, true, false, none,
  some, ok, read-ok, write-ok, length, length-set, get_or, set, arith, leb, Bool-cases,
  if◌then◌else◌,
}
use kokos.Word.Shift.{clear_bits, has_bits, has_bits-true}
use kokos.MemoryPhysical.Defs.{MemoryPhysical, already_freed, release, free}
use kokos.MemoryPhysical.Valid.{
  IsValid, has_bits-IsWord, eq_of_page_bits, page_bit, reaches, clear_bits-IsWord, set-IsWord,
  page_bit-clear_bits,
}
use kokos.MemoryPhysical.Allocate.{HandsOut}

-- The state that `free` leaves when it clears the bit of `page`.
abbrev pub drop_page : MemoryPhysical → ℕ → MemoryPhysical
drop_page m page = record m {
  allocation_table =
      set m.allocation_table (page / 64)
        (clear_bits (get_or m.allocation_table (page / 64) 0) (page % 64));
  used_physical_pages = (m.used_physical_pages + 2 ^ 64 - 1) % 2 ^ 64;
  memory_lock = 0;
}

module _ {m : MemoryPhysical} (v : IsValid m) (page offset : ℕ) (low : offset < 4096) where
  page_of : (page * 4096 + offset) / 4096 ≡ page
  page_of = omega arith

  module _ (inside : page < 64 * m.allocation_table_length) where
    byte_inside : page / 64 < length m.allocation_table
    byte_inside = omega (arith, v.sized)

    byte_small : page / 64 % 2 ^ 32 ≡ page / 64
    byte_small = omega (arith, v.small)

    before_end : leb m.allocation_table_length (page / 64) ≡ false
    before_end = ground arith

    free_run : free (page * 4096 + offset) m ≡ (
        if has_bits (get_or m.allocation_table (page / 64) 0) (page % 64)
        then ok (drop_page m page, none)
        else ok (record m { memory_lock = 0 }, some (already_freed (page * 4096 + offset))))
    unfolding free
    free_run =
        rw
          (
            v.unlocked,
            page_of,
            byte_small,
            before_end,
            read-ok m.allocation_table (page / 64) 0 byte_inside,
            write-ok m.allocation_table (page / 64)
                (clear_bits (get_or m.allocation_table (page / 64) 0) (page % 64)) byte_inside,
          )
          refl

    -- From a state in order, freeing any address in a page that lies in the table, is among the
    -- first 32 of its word and is taken succeeds without a warning: the bits that `1 << bit`
    -- reaches from the page are cleared and all others kept, and the state is in order.
    pub free-drop_page :
        page % 64 ≤ 31
        → page_bit m.allocation_table page ≡ 1
        → (free (page * 4096 + offset) m ≡ ok (drop_page m page, none))
          × ((p : ℕ)
              → page_bit (drop_page m page).allocation_table p
                ≡ (if reaches page p then 0 else page_bit m.allocation_table p))
          × IsValid (drop_page m page)
    free-drop_page le taken = (
      rw
          (
            free_run,
            has_bits-true (get_or m.allocation_table (page / 64) 0) (page % 64) (page % 64)
                (omega arith) (ground arith) taken,
          )
          refl,
      page_bit-clear_bits m.allocation_table page byte_inside,
      record {
        sized = length-set m.allocation_table (page / 64) _ ∙ v.sized;
        cursor = v.cursor;
        words =
            set-IsWord m.allocation_table (page / 64) byte_inside _ v.words
              (clear_bits-IsWord _ (page % 64) (v.words (page / 64)));
        small = v.small;
        unlocked = refl;
      },
    )

    -- From a state in order, freeing any address in a page that lies in the table, is among the
    -- first 32 of its word and is free gives the warning `already_freed` with that address, and
    -- changes nothing but that the lock is free.
    free-already_freed :
        page % 64 ≤ 31
        → page_bit m.allocation_table page ≡ 0
        → free (page * 4096 + offset) m
          ≡ ok (release m, some (already_freed (page * 4096 + offset)))
    unfolding release
    free-already_freed le unused =
        let same : page % 64 % 32 ≡ page % 64 = omega arith in
        let clear : has_bits (get_or m.allocation_table (page / 64) 0) (page % 64) ≡ false =
          rw (has_bits-IsWord _ (page % 64) (v.words (page / 64)), same, unused) refl in
        rw (free_run, clear) refl

module _ {m m' : MemoryPhysical} (v : IsValid m) (page : ℕ) (h : HandsOut m m' page) where
  taken_page : page_bit m'.allocation_table page ≡ 1
  taken_page = ground (arith, h.taken page, h.low)

  inside_after : page < 64 * m'.allocation_table_length
  inside_after = omega (arith, h.inside, h.same_length)

  free_before : (p : ℕ) → reaches page p ≡ true → page_bit m.allocation_table p ≡ 0
  free_before p near =
      let word : p / 64 ≡ page / 64 = ground arith in
      rw word (ground (arith, h.was_free, h.low, (v.words (page / 64)).top (p % 64)))

  restored :
      (p : ℕ) → page_bit (drop_page m' page).allocation_table p ≡ page_bit m.allocation_table p
  restored p =
      let cleared =
        (free-drop_page h.IsValid_after page 0 (omega arith) inside_after h.low taken_page).1 p in
      elim (Bool-cases (reaches page p)) [
        | inl near ↦ rw near at cleared ∙ sym (free_before p near)
        | inr far ↦ rw far at cleared ∙ (rw far at (h.taken p))
      ]

  -- When a call has handed out a page from a state in order with a page count below 2^64, freeing
  -- that page succeeds without a warning and gives back the table and the page count of before the
  -- call, in a state in order.
  pub free-allocate :
      m.used_physical_pages < 2 ^ 64
      → (m'' : MemoryPhysical) × (free (page * 4096) m' ≡ ok (m'', none))
        × (m''.allocation_table ≡ m.allocation_table)
        × (m''.used_physical_pages ≡ m.used_physical_pages)
        × IsValid m''
  free-allocate fits =
      let (run, _, valid) =
        free-drop_page h.IsValid_after page 0 (omega arith) inside_after h.low taken_page in
      (
        drop_page m' page,
        ap (λ a. free a m') (omega arith) ∙ run,
        eq_of_page_bits _ _ (omega (arith, valid.sized, v.sized, h.same_length)) valid.words v.words
            restored,
        omega (arith, h.counted),
        valid,
      )
