-- ===== src/Heap/Bytes.antt =====
-- Setting, copying and comparing ranges of bytes.
use kokos.Shared.{
  ℕ, zero, suc, ◌+◌, ◌<◌, ◌^◌, ◌≤◌, ◌≡◌, ◌⊎◌, refl, ap, sym, ◌∙◌, inl, inr, true, false, arith,
  ◌==◌, Bool-cases,
}
use kokos.Heap.Defs.{set_loop, memory_compare, copy_loop, copy_rounds, memory_copy}

-- Ranges of the same size that do not overlap.
abbrev Apart : ℕ → ℕ → ℕ → Type 0
Apart a b size = (a + size ≤ b) ⊎ (b + size ≤ a)

set_loop-outside :
    (rounds address i value : ℕ) (memory : ℕ → ℕ) (a : ℕ)
    → (a < address + i) ⊎ (address + i + rounds ≤ a)
    → set_loop rounds address i value memory a ≡ memory a
unfolding set_loop
set_loop-outside zero address i value memory a out = refl
set_loop-outside (suc rounds) address i value memory a out =
    let other : (a == address + i) ≡ false = ground arith in
    set_loop-outside rounds address (i + 1) value _ a (omega arith) ∙ rw other refl

set_loop-inside :
    (rounds address i value : ℕ) (memory : ℕ → ℕ) (a : ℕ)
    → address + i ≤ a
    → a < address + i + rounds
    → set_loop rounds address i value memory a ≡ value
unfolding set_loop
set_loop-inside zero address i value memory a lo hi = absurd (omega arith)
set_loop-inside (suc rounds) address i value memory a lo hi = elim (Bool-cases (a == address + i)) [
  | inl here ↦ set_loop-outside rounds address (i + 1) value _ a (ground arith) ∙ rw here refl
  | inr behind ↦ set_loop-inside rounds address (i + 1) value _ a (ground arith) (omega arith)
]

copy_loop-outside :
    (rounds from to i : ℕ) (memory : ℕ → ℕ) (a : ℕ)
    → (a < to + i) ⊎ (to + i + rounds ≤ a)
    → copy_loop rounds from to i memory a ≡ memory a
unfolding copy_loop
copy_loop-outside zero from to i memory a out = refl
copy_loop-outside (suc rounds) from to i memory a out =
    let other : (a == to + i) ≡ false = ground arith in
    copy_loop-outside rounds from to (i + 1) _ a (omega arith) ∙ rw other refl

copy_loop-inside :
    (rounds from to i k : ℕ) (memory : ℕ → ℕ)
    → (from + i + rounds ≤ to + i) ⊎ (to + i + rounds ≤ from + i)
    → i ≤ k
    → k < i + rounds
    → copy_loop rounds from to i memory (to + k) ≡ memory (from + k)
unfolding copy_loop
copy_loop-inside zero from to i k memory apart lo hi = absurd (omega arith)
copy_loop-inside (suc rounds) from to i k memory apart lo hi =
    elim (Bool-cases (to + k == to + i)) [
      | inl here ↦
          let e : i ≡ k = ground arith in
          copy_loop-outside rounds from to (i + 1) _ (to + k) (ground arith)
          ∙ rw here (ap (λ (j : ℕ). memory (from + j)) e)
      | inr behind ↦
          let other : (from + k == to + i) ≡ false = ground arith in
          copy_loop-inside rounds from to (i + 1) k _ (omega arith) (ground arith) (omega arith)
          ∙ rw other refl
    ]

memory_compare-equal :
    (size a b : ℕ) (memory : ℕ → ℕ)
    → ((k : ℕ) → k < size → memory (a + k) ≡ memory (b + k))
    → memory_compare a b size memory ≡ 1
unfolding memory_compare
memory_compare-equal zero a b memory same = refl
memory_compare-equal (suc size) a b memory same =
    let ea : a + 0 ≡ a = omega arith in
    let eb : b + 0 ≡ b = omega arith in
    let first : memory a ≡ memory b = ap memory (sym ea) ∙ same 0 (omega arith) ∙ ap memory eb in
    let hit : (memory a == memory b) ≡ true = ground arith in
    rw (memory_compare, hit) (memory_compare-equal size (a + 1) (b + 1) memory next)
  where
    next : (k : ℕ) → k < size → memory (a + 1 + k) ≡ memory (b + 1 + k)
    next k lt =
        let ea : a + 1 + k ≡ a + suc k = omega arith in
        let eb : b + 1 + k ≡ b + suc k = omega arith in rw (ea, eb) (same (suc k) (omega arith))

-- The size of a copy, when it is not negative as an `int`.
copy_rounds-small : (size : ℕ) → size < 2 ^ 31 → copy_rounds size ≡ size
unfolding copy_rounds
copy_rounds-small size small = ground arith

-- A range of fewer than 2^31 bytes that is copied to one that it does not overlap, both in the
-- address space, compares as equal to the copy, and no byte behind or in front of the copy changes.
pub memory_compare-copy :
    (from to size : ℕ) (memory : ℕ → ℕ)
    → size < 2 ^ 31
    → from + size ≤ 2 ^ 64
    → to + size ≤ 2 ^ 64
    → Apart from to size
    → (memory_compare from to size (memory_copy from to size memory) ≡ 1)
      × ((a : ℕ) → (a < to) ⊎ (to + size ≤ a) → memory_copy from to size memory a ≡ memory a)
unfolding memory_copy
memory_compare-copy from to size memory small source target apart =
    rw (copy_rounds-small size small) (
      memory_compare-equal size from to (copy_loop size from to 0 memory) same,
      (λ a out. copy_loop-outside size from to 0 memory a (omega arith)),
    )
  where
    same :
        (k : ℕ)
        → k < size
        → copy_loop size from to 0 memory (from + k) ≡ copy_loop size from to 0 memory (to + k)
    same k lt =
        copy_loop-outside size from to 0 memory (from + k) (omega arith)
        ∙ sym (copy_loop-inside size from to 0 k memory (omega arith) (omega arith) (omega arith))
