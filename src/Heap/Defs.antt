-- ===== src/Heap/Defs.antt =====
-- src/common/memory.c: the helpers on bytes, and the heap, a doubly linked list of chunks with
-- their headers in front of them. The headers are kept apart from the bytes. Addresses are numbers
-- below 2^64.
use kokos.Shared.{
  ℕ, zero, suc, ◌+◌, ◌-◌, ◌%◌, ◌^◌, Bool, true, false, ◌||◌, Outcome, ok, spin, ◌>>=◌, ltb, leb,
  ◌==◌, if◌then◌else◌,
}
use kokos.Word.Align.{align_to_next}

-- `struct memory_chunk`, of 24 bytes.
pub record MemoryChunk : Type 0 where
  pub next : ℕ
  pub previous : ℕ
  pub size : ℕ

abbrev pub chunk_size : ℕ
chunk_size = 24

abbrev pub Chunks : Type 0
Chunks = ℕ → MemoryChunk

abbrev pub put : ℕ → MemoryChunk → Chunks → Chunks
put at header chunks a = if a == at then header else chunks a

-- The loop of `memory_set`, and of `memory_zero` with the value 0.
unfoldable pub set_loop : ℕ → ℕ → ℕ → ℕ → (ℕ → ℕ) → ℕ → ℕ
set_loop zero address i value memory = memory
set_loop (suc rounds) address i value memory =
    set_loop rounds address (i + 1) value (λ a. if a == address + i then value else memory a)

unfoldable memory_set : ℕ → ℕ → ℕ → (ℕ → ℕ) → ℕ → ℕ
unfolding set_loop
memory_set address size value memory = set_loop size address 0 value memory

unfoldable memory_zero : ℕ → ℕ → (ℕ → ℕ) → ℕ → ℕ
unfolding set_loop
memory_zero address size memory = set_loop size address 0 0 memory

unfoldable pub memory_compare : ℕ → ℕ → ℕ → (ℕ → ℕ) → ℕ
memory_compare a b zero memory = 1
memory_compare a b (suc size) memory = elim (memory a == memory b) [
  | true ↦ memory_compare (a + 1) (b + 1) size memory
  | false ↦ 0
]

-- The bytes are copied from the first to the last, each after those before it.
unfoldable pub copy_loop : ℕ → ℕ → ℕ → ℕ → (ℕ → ℕ) → ℕ → ℕ
copy_loop zero from to i memory = memory
copy_loop (suc rounds) from to i memory =
    copy_loop rounds from to (i + 1) (λ a. if a == to + i then memory (from + i) else memory a)

-- The rounds of `for (int i = 0; i < size; i++)`, for the bits of an `int size`: none when it is
-- negative.
unfoldable pub copy_rounds : ℕ → ℕ
copy_rounds size = if ltb (size % 2 ^ 32) (2 ^ 31) then size % 2 ^ 32 else 0

-- The size is an `int`, given by its bits; a larger number is cut to 32 bits.
unfoldable pub memory_copy : ℕ → ℕ → ℕ → (ℕ → ℕ) → ℕ → ℕ
unfolding copy_loop copy_rounds
memory_copy from to size memory = copy_loop (copy_rounds size) from to 0 memory

-- The test for a gap behind a chunk, in 64 bits.
unfoldable pub has_gap : ℕ → ℕ → Chunks → Bool
has_gap bytes chk chunks =
    (chunks chk).next == 0
    || ltb (bytes + chunk_size + chunk_size)
        (((chunks chk).next + 2 ^ 64 - (chk + (chunks chk).size)) % 2 ^ 64)

-- `if (next) { next->previous = previous; }` and `if (previous) { previous->next = next; }`
unfoldable pub set_previous : ℕ → ℕ → Chunks → Chunks
set_previous next previous chunks =
    if next == 0 then chunks else put next (record (chunks next) { previous = previous }) chunks

unfoldable pub set_next : ℕ → ℕ → Chunks → Chunks
set_next previous next chunks =
    if previous == 0 then chunks else put previous (record (chunks previous) { next = next }) chunks

-- The insertion of a chunk behind `chk`.
unfoldable pub insert_chunk : ℕ → ℕ → Chunks → Chunks
unfolding set_previous
insert_chunk bytes chk chunks =
    let next = (chunks chk).next in
    let new_chunk = chk + chunk_size + (chunks chk).size in
    let header : MemoryChunk = record { next = next; previous = chk; size = bytes } in
    let chunks' = set_previous next new_chunk (put new_chunk header chunks) in
    put chk (record (chunks' chk) { next = new_chunk }) chunks'

-- The loop of `memory_allocate`, behind the rounding of the size. The result is the address behind
-- the new header, or null.
unfoldable pub allocate_loop : ℕ → ℕ → ℕ → Chunks → Outcome (ℕ × Chunks)
unfolding has_gap insert_chunk
allocate_loop zero bytes chk chunks = spin
allocate_loop (suc rounds) bytes chk chunks = elim (chk == 0) [
  | true ↦ ok (0, chunks)
  | false ↦ elim (has_gap bytes chk chunks) [
    | true ↦ ok (chk + chunk_size + (chunks chk).size + chunk_size, insert_chunk bytes chk chunks)
    | false ↦ allocate_loop rounds bytes (chunks chk).next chunks
  ]
]

-- `root` is the static `memory_chunk`.
unfoldable pub memory_allocate : ℕ → ℕ → ℕ → Chunks → Outcome (ℕ × Chunks)
unfolding allocate_loop
memory_allocate rounds root bytes chunks = allocate_loop rounds (align_to_next bytes) root chunks

unfoldable pub unlink : ℕ → Chunks → Chunks
unfolding set_previous set_next
unlink header chunks =
    let chunks' = set_next (chunks header).previous (chunks header).next chunks in
    set_previous (chunks' header).next (chunks' header).previous chunks'

unfoldable pub memory_free : ℕ → Chunks → Chunks
unfolding unlink
memory_free pointer chunks = unlink (pointer - chunk_size) chunks

unfoldable memory_resize : ℕ → ℕ → ℕ → ℕ → Chunks → (ℕ → ℕ) → Outcome (ℕ × Chunks × (ℕ → ℕ))
unfolding memory_allocate memory_copy memory_free
memory_resize rounds root pointer bytes chunks memory =
    let size = align_to_next bytes in
    let header = pointer - chunk_size in
    if (chunks header).next == 0 || leb (chunks header).next (header + (chunks header).size)
    then ok (pointer, put header (record (chunks header) { size = size }) chunks, memory)
    else (memory_allocate rounds root size chunks >>= λ (new_pointer, chunks').
        ok (new_pointer, memory_free pointer chunks', memory_copy pointer new_pointer size memory))
