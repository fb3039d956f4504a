-- ===== src/Acpi/First.antt =====
-- The searches of acpi.c: for the root pointer among the addresses of the scan, and for a table among
-- the addresses that a root table lists.
use kokos.Shared.{
  ℕ, zero, suc, ◌+◌, ◌*◌, ◌≤◌, ◌<◌, ◌≡◌, refl, inl, inr, Bool, true, false, ok, arith, ltb, ◌==◌,
  Bool-cases, sym, ap, ◌∙◌, ◌^◌, ◌-◌, ◌/◌,
}
use mathlib.Core.Path.{subst}
use kokos.Word.Bytes.{load}
use kokos.Acpi.Defs.{
  rsdtp_signature, sdt_length, sdt_size, entry_count, find_rsdt_from, find_rsdt_pointer,
  first_table, rsdt_table, xsdt_table, has_signature, int_rounds, rsdt_entry_count,
  xsdt_entry_count, rsdt_get_table, xsdt_get_table,
}

-- `result` is the first of the places that passes the test, or null when none of them does.
pub data First (place : ℕ → ℕ) (test : ℕ → Bool) (places result : ℕ) : Type 0 where
  nowhere :
      result ≡ 0 → ((k : ℕ) → k < places → test (place k) ≡ false) → First place test places result
  somewhere :
      (k : ℕ)
      → k < places
      → place k ≡ result
      → test result ≡ true
      → ((j : ℕ) → j < k → test (place j) ≡ false)
      → First place test places result

-- One place more in front of the others.
First-later :
    {place : ℕ → ℕ} {test : ℕ → Bool} {places result : ℕ}
    → test (place 0) ≡ false
    → First (λ k. place (suc k)) test places result
    → First place test (suc places) result
First-later {place} {test} {places} miss (nowhere null none_of) = nowhere null all
  where
    all : (k : ℕ) → k < suc places → test (place k) ≡ false
    all zero h = miss
    all (suc k) h = none_of k (omega arith)
First-later {place} {test} miss (somewhere k inside at hit before) =
    somewhere (suc k) (omega arith) at hit earlier
  where
    earlier : (j : ℕ) → j < suc k → test (place j) ≡ false
    earlier zero h = miss
    earlier (suc j) h = before j (omega arith)

-- The places are those from round `i` on.
first_table-First :
    (table_address place : ℕ → ℕ) (matches : ℕ → Bool) (rounds i : ℕ)
    → ((k : ℕ) → table_address (i + k) ≡ place k)
    → First place matches rounds (first_table table_address matches rounds i)
unfolding first_table
first_table-First table_address place matches zero i at = nowhere refl (λ k h. absurd (omega arith))
first_table-First table_address place matches (suc rounds) i at =
    let here : table_address i ≡ place 0 =
      let e : i ≡ i + 0 = omega arith in ap table_address e ∙ at 0 in
    elim (Bool-cases (matches (table_address i))) [
      | inl hit ↦
          rw (first_table, hit)
            (somewhere 0 (omega arith) (sym here) hit (λ j h. absurd (omega arith)))
      | inr miss ↦
          rw (first_table, miss)
            (First-later (ap matches (sym here) ∙ miss) (
              first_table-First table_address (λ k. place (suc k)) matches rounds (i + 1)
                (λ k.
                  let e : i + 1 + k ≡ i + suc k = omega arith in ap table_address e ∙ at (suc k))))
    ]

find_rsdt_from-First :
    (rounds places a : ℕ) (memory place : ℕ → ℕ)
    → places ≤ rounds
    → ((k : ℕ) → a + 16 * k ≡ place k)
    → ((k : ℕ) → k < places → a + 16 * k < 0x000FFFFF)
    → 0x000FFFFF ≤ a + 16 * places
    → (r : ℕ) × (find_rsdt_from (suc rounds) memory a ≡ ok r)
      × First place (λ a. load 8 memory a == rsdtp_signature) places r
unfolding find_rsdt_from
find_rsdt_from-First rounds zero a memory place le at inside end =
    let over : ltb a 0x000FFFFF ≡ false = ground arith in
    (0, rw (find_rsdt_from, over) refl, nowhere refl (λ k h. absurd (omega arith)))
find_rsdt_from-First zero (suc places) a memory place le at inside end = absurd (omega arith)
find_rsdt_from-First (suc rounds) (suc places) a memory place le at inside end =
    let within : ltb a 0x000FFFFF ≡ true = let h = inside 0 (omega arith) in ground arith in
    let here : a ≡ place 0 = omega (arith, at 0) in
    elim (Bool-cases (load 8 memory a == rsdtp_signature)) [
      | inl hit ↦ (
        a,
        rw (find_rsdt_from, within, hit) refl,
        somewhere 0 (omega arith) (sym here) hit (λ j h. absurd (omega arith)),
      )
      | inr miss ↦
          let (r, found, first) =
            find_rsdt_from-First rounds places (a + 16) memory (λ k. place (suc k)) (omega arith)
              (λ k. omega (arith, at (suc k))) (λ k h. omega (arith, inside (suc k) (omega arith)))
              (omega arith) in
          (r, rw (find_rsdt_from, within, miss) found, First-later (rw (sym here) miss) first)
    ]

-- The address that the search for the root pointer tries in a round.
abbrev pub scanned : ℕ → ℕ
scanned k = 0x00080000 + 16 * k

-- The search for the root pointer ends within its rounds, with the first of the 32768 addresses
-- from 0x80000 on in steps of 16 at which the signature stands, or with null when it stands at
-- none.
pub find_rsdt_pointer-First :
    (memory : ℕ → ℕ)
    → (r : ℕ) × (find_rsdt_pointer memory ≡ ok r)
      × First scanned (λ a. load 8 memory a == rsdtp_signature) 32768 r
unfolding find_rsdt_pointer
find_rsdt_pointer-First memory =
    find_rsdt_from-First 32768 32768 0x00080000 memory scanned (omega arith) (λ k. refl)
      (λ k h. omega arith) (omega arith)

zero_add : (k : ℕ) → 0 + k ≡ k
zero_add k = omega arith

module _ (memory : ℕ → ℕ) (root_table table_signature : ℕ) where
  -- The searches among as many addresses as the code counts.
  pub get_table-counted :
      First
        (rsdt_table memory root_table)
        (has_signature memory table_signature)
        (int_rounds (rsdt_entry_count memory root_table))
        (rsdt_get_table memory root_table table_signature)
      × First
          (xsdt_table memory root_table)
          (has_signature memory table_signature)
          (int_rounds (xsdt_entry_count memory root_table))
          (xsdt_get_table memory root_table table_signature)
  unfolding rsdt_get_table xsdt_get_table
  get_table-counted = (
    first_table-First (rsdt_table memory root_table) (rsdt_table memory root_table)
        (has_signature memory table_signature) (int_rounds (rsdt_entry_count memory root_table)) 0
        (λ k. ap (rsdt_table memory root_table) (zero_add k)),
    first_table-First (xsdt_table memory root_table) (xsdt_table memory root_table)
        (has_signature memory table_signature) (int_rounds (xsdt_entry_count memory root_table)) 0
        (λ k. ap (xsdt_table memory root_table) (zero_add k)),
  )

-- A root table with room for `n` addresses has the count `n`; one that is shorter than its header has
-- a negative count, so that no table is looked at.
entry_count-rounds :
    (memory : ℕ → ℕ) (root_table : ℕ)
    → sdt_length memory root_table < 2 ^ 32
    → (int_rounds (rsdt_entry_count memory root_table)
        ≡ (sdt_length memory root_table - sdt_size) / 4)
      × (int_rounds (xsdt_entry_count memory root_table)
          ≡ (sdt_length memory root_table - sdt_size) / 8)
unfolding rsdt_entry_count xsdt_entry_count entry_count
entry_count-rounds memory root_table fits = (ground arith, ground arith)

-- In a root table whose length is a word of 32 bits, the addresses of 4 bytes (`rsdt_get_table`) or
-- of 8 bytes (`xsdt_get_table`) fill the room behind the header of 36 bytes, none when it is
-- shorter than that. Each search returns the first of these addresses at which a table with the
-- signature stands, or null when there is none.
pub get_table-First :
    (memory : ℕ → ℕ) (root_table table_signature : ℕ)
    → load 4 memory (root_table + 4) < 2 ^ 32
    → First
        (λ i. load 4 memory (root_table + 36 + 4 * i))
        (λ table. load 4 memory table == table_signature)
        ((load 4 memory (root_table + 4) - 36) / 4)
        (rsdt_get_table memory root_table table_signature)
      × First
          (λ i. load 8 memory (root_table + 36 + 8 * i))
          (λ table. load 4 memory table == table_signature)
          ((load 4 memory (root_table + 4) - 36) / 8)
          (xsdt_get_table memory root_table table_signature)
get_table-First memory root_table table_signature fits =
    let (counted, counted') = get_table-counted memory root_table table_signature in
    let (count, count') = entry_count-rounds memory root_table fits in
    (
      subst
          (λ n.
            First (rsdt_table memory root_table) (has_signature memory table_signature) n
              (rsdt_get_table memory root_table table_signature))
          count counted,
      subst
          (λ n.
            First (xsdt_table memory root_table) (has_signature memory table_signature) n
              (xsdt_get_table memory root_table table_signature))
          count' counted',
    )
