-- ===== src/Heap/Examples.antt =====
-- The theorems about memory.c at a small heap, and tests.
use kokos.Shared.{
  ℕ, ◌+◌, ◌*◌, ◌/◌, ◌≤◌, ◌<◌, ◌≡◌, ◌⊎◌, refl, List, [], ◌∷◌, ok, inl, arith, ◌==◌, if◌then◌else◌,
}
use kokos.Heap.Defs.{
  Chunks, chunk_size, memory_allocate, memory_free, memory_compare, memory_copy, copy_loop,
  copy_rounds,
}
use kokos.Heap.Chain.{Chain, last, linked}
use kokos.Heap.Allocate.{Allocated, here, memory_allocate-Allocated}
use kokos.Heap.Free.{Freed, memory_free-Freed}
use kokos.Heap.Bytes.{memory_compare-copy}

-- The root at 0x1000 with no bytes of its own, and chunks of 16 bytes at 0x1018 and at 0x1100.
abbrev chunks : Chunks
chunks at =
    if at == 0x1000
    then record { next = 0x1018; previous = 0; size = 0 }
    else if at == 0x1018
    then record { next = 0x1100; previous = 0x1000; size = 16 }
    else record { next = 0; previous = 0x1018; size = 16 }

chunks-Chain : Chain 0x2000 chunks 0 0x1000 (0x1000 ∷ 0x1018 ∷ 0x1100 ∷ [])
chunks-Chain = linked {next = 0x1018} (omega arith) refl refl (omega arith) (
    linked {next = 0x1100} (omega arith) refl refl (omega arith)
      (last (omega arith) refl refl (omega arith)))

memory_allocate-Allocated_example :
    (new : ℕ) × (chunks' : Chunks) × (l' : List ℕ) × (memory_allocate 3 0x1000 20 chunks
      ≡ ok (new + chunk_size, chunks'))
    × Allocated 0x2000
        ((20 + 7) / 8 * 8)
        0
        0x1000
        new
        chunks
        chunks'
        (0x1000 ∷ 0x1018 ∷ 0x1100 ∷ [])
        l'
memory_allocate-Allocated_example =
    memory_allocate-Allocated 3 0x2000 0x1000 20 chunks (0x1000 ∷ 0x1018 ∷ 0x1100 ∷ [])
      (omega arith) (omega arith) (omega arith) chunks-Chain

memory_free-Freed_example :
    Freed 0x2000 0 0x1000 chunks (memory_free (0x1018 + chunk_size) chunks) (0x1000 ∷ 0x1100 ∷ [])
memory_free-Freed_example =
    memory_free-Freed 0x2000 0x1000 0x1018 chunks (0x1000 ∷ 0x1018 ∷ 0x1100 ∷ [])
      (0x1000 ∷ 0x1100 ∷ []) chunks-Chain here

abbrev numbers : ℕ → ℕ
numbers a = a

memory_compare-copy_example :
    (memory_compare 10 20 5 (memory_copy 10 20 5 numbers) ≡ 1)
    × ((a : ℕ) → (a < 20) ⊎ (20 + 5 ≤ a) → memory_copy 10 20 5 numbers a ≡ numbers a)
memory_compare-copy_example =
    memory_compare-copy 10 20 5 numbers (omega arith) (omega arith) (omega arith)
      (inl (omega arith))

-- A size that is negative as an `int` copies nothing.
negative_size_test : memory_copy 10 20 0xFFFFFFFF numbers ≡ numbers
unfolding memory_copy copy_loop copy_rounds
negative_size_test = refl
