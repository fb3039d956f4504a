-- ===== src/Heap/Allocate.antt =====
-- `memory_allocate` and the list of chunks.
use kokos.Shared.{
  ℕ, zero, suc, ◌+◌, ◌-◌, ◌*◌, ◌/◌, ◌^◌, ◌<◌, ◌≤◌, ◌≡◌, ◌≢◌, refl, ap, sym, ◌∙◌, List, [], ◌∷◌, ok,
  arith, true, false, inl, inr, ◌==◌, length, Bool-cases,
}
use mathlib.Core.Path.{subst}
use kokos.Word.Align.{align_to_next-rounds}
use kokos.Heap.Defs.{
  MemoryChunk, Chunks, chunk_size, put, set_previous, has_gap, insert_chunk, allocate_loop,
  memory_allocate,
}
use kokos.Heap.Chain.{
  Chain, last, linked, Chain-le, Chain-relink, put_self, put_ne, set_previous_self, set_previous_ne,
}

-- One element more, behind one that was there.
pub data Inserted (new : ℕ) : List ℕ → List ℕ → Type 0 where
  here : {a : ℕ} {rest : List ℕ} → Inserted new (a ∷ rest) (a ∷ new ∷ rest)
  later :
      {a : ℕ} {rest rest' : List ℕ} → Inserted new rest rest' → Inserted new (a ∷ rest) (a ∷ rest')

-- What an allocation leaves behind the chunk at which it starts.
pub record Allocated (limit bytes previous at new : ℕ) (chunks chunks' : Chunks) (l l' : List ℕ)
    : Type 0 where
  pub chain : Chain (limit + chunk_size + bytes) chunks' previous at l'
  pub inserted : Inserted new l l'
  pub sized : (chunks' new).size ≡ bytes
  pub before : (a : ℕ) → 0 < a → a < at → chunks' a ≡ chunks a

-- The headers behind an insertion, where the new one is at `new`.
module _ (bytes at new : ℕ) (chunks : Chunks) (is : at + chunk_size + (chunks at).size ≡ new) where
  abbrev header : MemoryChunk
  header = record { next = (chunks at).next; previous = at; size = bytes }

  abbrev between : Chunks
  between = set_previous (chunks at).next new (put new header chunks)

  apart_at : at ≢ new
  apart_at e = absurd (omega arith)

  insert-at :
      at ≢ (chunks at).next → insert_chunk bytes at chunks at ≡ record (chunks at) { next = new }
  unfolding insert_chunk
  insert-at apart = rw is (
      put_self at (record (between at) { next = new }) between
      ∙ ap (λ (h : MemoryChunk). record h { next = new })
          (set_previous_ne new (put new header chunks) apart ∙ put_ne header chunks apart_at))

  insert-new : new ≢ (chunks at).next → insert_chunk bytes at chunks new ≡ header
  unfolding insert_chunk
  insert-new apart = rw is (
      put_ne (record (between at) { next = new }) between (λ (e : new ≡ at). absurd (omega arith))
      ∙ set_previous_ne new (put new header chunks) apart
      ∙ put_self new header chunks)

  insert-next :
      new < (chunks at).next
      → insert_chunk bytes at chunks (chunks at).next
        ≡ record (chunks (chunks at).next) { previous = new }
  unfolding insert_chunk
  insert-next apart = rw is (
      put_ne (record (between at) { next = new }) between
        (λ (e : (chunks at).next ≡ at). absurd (omega arith))
      ∙ set_previous_self (chunks at).next new (put new header chunks) (omega arith)
      ∙ ap (λ (h : MemoryChunk). record h { previous = new })
          (put_ne header chunks (λ (e : (chunks at).next ≡ new). absurd (omega arith))))

  insert-other :
      (a : ℕ) → a ≢ at → a ≢ new → a ≢ (chunks at).next → insert_chunk bytes at chunks a ≡ chunks a
  unfolding insert_chunk
  insert-other a n1 n2 n3 = rw is (
      put_ne (record (between at) { next = new }) between n1
      ∙ set_previous_ne new (put new header chunks) n3
      ∙ put_ne header chunks n2)

module _ (limit bytes at : ℕ) (chunks : Chunks) where
  abbrev new_at : ℕ
  new_at = at + chunk_size + (chunks at).size

  abbrev after : Chunks
  after = insert_chunk bytes at chunks

  insert-last :
      {previous : ℕ}
      → 0 < at
      → (chunks at).previous ≡ previous
      → (chunks at).next ≡ 0
      → new_at ≤ limit
      → Allocated limit bytes previous at new_at chunks after (at ∷ []) (at ∷ new_at ∷ [])
  insert-last positive back end fits =
      let e_at = insert-at bytes at new_at chunks refl (λ e. absurd (omega arith)) in
      let e_new = insert-new bytes at new_at chunks refl (λ e. absurd (omega arith)) in
      let new_size : (after new_at).size ≡ bytes = ap (λ (h : MemoryChunk). h.size) e_new in
      record {
        chain =
            linked positive (ap (λ (h : MemoryChunk). h.previous) e_at ∙ back)
              (ap (λ (h : MemoryChunk). h.next) e_at)
              (omega (arith, ap (λ (h : MemoryChunk). h.size) e_at))
              (last (omega arith) (ap (λ (h : MemoryChunk). h.previous) e_new)
                (ap (λ (h : MemoryChunk). h.next) e_new ∙ end) (omega (arith, new_size)));
        inserted = here;
        sized = new_size;
        before = λ a some lt.
            insert-other bytes at new_at chunks refl a (λ e. absurd (omega arith))
              (λ e. absurd (omega arith)) (λ e. absurd (omega arith));
      }

  insert-linked :
      {previous : ℕ} {rest : List ℕ}
      → 0 < at
      → (chunks at).previous ≡ previous
      → new_at + chunk_size + bytes < (chunks at).next
      → Chain limit chunks at (chunks at).next rest
      → Allocated limit bytes previous at new_at chunks after (at ∷ rest) (at ∷ new_at ∷ rest)
  insert-linked positive back room rest =
      let e_at = insert-at bytes at new_at chunks refl (λ e. absurd (omega arith)) in
      let e_new = insert-new bytes at new_at chunks refl (λ e. absurd (omega arith)) in
      let new_size : (after new_at).size ≡ bytes = ap (λ (h : MemoryChunk). h.size) e_new in
      record {
        chain =
            linked positive (ap (λ (h : MemoryChunk). h.previous) e_at ∙ back)
              (ap (λ (h : MemoryChunk). h.next) e_at)
              (omega (arith, ap (λ (h : MemoryChunk). h.size) e_at))
              (linked (omega arith) (ap (λ (h : MemoryChunk). h.previous) e_new)
                (ap (λ (h : MemoryChunk). h.next) e_new) (omega (arith, new_size))
                (Chain-relink (omega arith) (insert-next bytes at new_at chunks refl (omega arith))
                  (λ a gt.
                    insert-other bytes at new_at chunks refl a (λ e. absurd (omega arith))
                      (λ e. absurd (omega arith)) (λ e. absurd (omega arith)))
                  rest));
        inserted = here;
        sized = new_size;
        before = λ a some lt.
            insert-other bytes at new_at chunks refl a (λ e. absurd (omega arith))
              (λ e. absurd (omega arith)) (λ e. absurd (omega arith));
      }

-- The loop from a chunk of the list on.
abbrev Returned : ℕ → ℕ → ℕ → ℕ → ℕ → Chunks → List ℕ → Type 0
Returned rounds limit bytes previous at chunks l =
    (new : ℕ) × (chunks' : Chunks) × (l' : List ℕ) × (allocate_loop rounds bytes at chunks
      ≡ ok (new + chunk_size, chunks'))
    × Allocated limit bytes previous at new chunks chunks' l l'

has_gap-last :
    (bytes at : ℕ) (chunks : Chunks) → (chunks at).next ≡ 0 → has_gap bytes at chunks ≡ true
unfolding has_gap
has_gap-last bytes at chunks end =
    let null : ((chunks at).next == 0) ≡ true = ground arith in rw (has_gap, null) refl

has_gap-room :
    (bytes at next : ℕ) (chunks : Chunks)
    → (chunks at).next ≡ next
    → 0 < next
    → next < 2 ^ 64
    → at + chunk_size + (chunks at).size ≤ next
    → has_gap bytes at chunks ≡ true
    → at + chunk_size + (chunks at).size + chunk_size + bytes < next
unfolding has_gap
has_gap-room bytes at next chunks e positive fits apart gap = ground arith

allocate_loop-Allocated :
    (rounds limit bytes previous at : ℕ) (chunks : Chunks) (l : List ℕ)
    → length l ≤ rounds
    → limit < 2 ^ 64
    → Chain limit chunks previous at l
    → Returned rounds limit bytes previous at chunks l
unfolding allocate_loop
allocate_loop-Allocated zero limit bytes previous at chunks l enough fits (last _ _ _ _) =
    absurd (omega arith)
allocate_loop-Allocated zero limit bytes previous at chunks l enough fits (linked _ _ _ _ _) =
    absurd (omega arith)
allocate_loop-Allocated (suc rounds) limit bytes previous at chunks l enough fits
      (last positive back end inside) =
    let some : (at == 0) ≡ false = ground arith in
    (
      _,
      _,
      _,
      rw (allocate_loop, some, has_gap-last bytes at chunks end) refl,
      insert-last limit bytes at chunks positive back end inside,
    )
allocate_loop-Allocated (suc rounds) limit bytes previous at chunks l enough fits
      (linked {next} {rest = tail} positive back e apart rest) =
    let some : (at == 0) ≡ false = ground arith in
    let le = Chain-le rest in
    elim (Bool-cases (has_gap bytes at chunks)) [
      | inl gap ↦ (
        _,
        _,
        _,
        rw (allocate_loop, some, gap) refl,
        insert-linked limit bytes at chunks positive back
            (rw e (has_gap-room bytes at next chunks e (omega arith) (omega arith) apart gap))
            (subst (λ n. Chain limit chunks at n tail) (sym e) rest),
      )
      | inr none ↦
          let (new, chunks', l', run, a) =
            allocate_loop-Allocated rounds limit bytes at next chunks tail (omega arith) fits
              rest in
          let kept : chunks' at ≡ chunks at = a.before at positive (omega arith) in
          (
            new,
            chunks',
            at ∷ l',
            rw (allocate_loop, some, none, e) run,
            record {
              chain =
                  linked positive (ap (λ (h : MemoryChunk). h.previous) kept ∙ back)
                    (ap (λ (h : MemoryChunk). h.next) kept ∙ e)
                    (omega (arith, apart, ap (λ (h : MemoryChunk). h.size) kept)) a.chain;
              inserted = later a.inserted;
              sized = a.sized;
              before = λ b some lt. a.before b some (omega arith);
            },
          )
    ]

-- With a round for each chunk, up to 2^31 - 8 bytes and a heap that ends in the address space, an
-- allocation returns the address behind the header of a new chunk, which has the number of bytes
-- rounded up to a multiple of 8. Afterwards the chunks with the new one among them are in order, do
-- not overlap and are linked both ways.
pub memory_allocate-Allocated :
    (rounds limit root bytes : ℕ) (chunks : Chunks) (l : List ℕ)
    → length l ≤ rounds
    → limit < 2 ^ 64
    → bytes ≤ 2 ^ 31 - 8
    → Chain limit chunks 0 root l
    → (new : ℕ) × (chunks' : Chunks) × (l' : List ℕ) × (memory_allocate rounds root bytes chunks
        ≡ ok (new + chunk_size, chunks'))
      × Allocated limit ((bytes + 7) / 8 * 8) 0 root new chunks chunks' l l'
unfolding memory_allocate
memory_allocate-Allocated rounds limit root bytes chunks l enough fits small chain =
    rw (align_to_next-rounds bytes (omega arith))
      (allocate_loop-Allocated rounds limit ((bytes + 7) / 8 * 8) 0 root chunks l enough fits chain)
