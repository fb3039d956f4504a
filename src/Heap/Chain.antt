-- ===== src/Heap/Chain.antt =====
-- The list of chunks in order: the predicate `Chain`, by which each chunk ends where the next one
-- begins or before, and its lemmas.
use kokos.Shared.{
  ℕ, ◌+◌, ◌<◌, ◌≤◌, ◌≡◌, ◌≢◌, refl, ap, ◌∙◌, List, [], ◌∷◌, arith, true, false, ◌==◌, Bool-cases,
  inl, inr,
}
use kokos.Heap.Defs.{MemoryChunk, Chunks, chunk_size, put, set_previous, set_next}

-- The chunks from one on, in order and linked both ways, with the last one ending at `limit` or
-- before.
pub data Chain (limit : ℕ) (chunks : Chunks) : ℕ → ℕ → List ℕ → Type 0 where
  last :
      {previous at : ℕ}
      → 0 < at
      → (chunks at).previous ≡ previous
      → (chunks at).next ≡ 0
      → at + chunk_size + (chunks at).size ≤ limit
      → Chain limit chunks previous at (at ∷ [])
  linked :
      {previous at next : ℕ} {rest : List ℕ}
      → 0 < at
      → (chunks at).previous ≡ previous
      → (chunks at).next ≡ next
      → at + chunk_size + (chunks at).size ≤ next
      → Chain limit chunks at next rest
      → Chain limit chunks previous at (at ∷ rest)

pub Chain-le :
    {limit : ℕ} {chunks : Chunks} {previous at : ℕ} {l : List ℕ}
    → Chain limit chunks previous at l
    → at + chunk_size ≤ limit
Chain-le (last _ _ _ fits) = omega (arith, fits)
Chain-le (linked _ _ _ fits rest) = omega (arith, fits, Chain-le rest)

Chain-positive :
    {limit : ℕ} {chunks : Chunks} {previous at : ℕ} {l : List ℕ}
    → Chain limit chunks previous at l
    → 0 < at
Chain-positive (last positive _ _ _) = positive
Chain-positive (linked positive _ _ _ _) = positive

-- The headers from the first of the chunks on are all that matters, and a higher limit is one too.
Chain-frame :
    {limit limit' : ℕ} {chunks chunks' : Chunks} {previous at : ℕ} {l : List ℕ}
    → limit ≤ limit'
    → ((a : ℕ) → at ≤ a → chunks' a ≡ chunks a)
    → Chain limit chunks previous at l
    → Chain limit' chunks' previous at l
Chain-frame {chunks} {chunks'} {at} le same (last positive previous next fits) =
    let e : chunks' at ≡ chunks at = same at (omega arith) in
    last positive (ap (λ (h : MemoryChunk). h.previous) e ∙ previous)
      (ap (λ (h : MemoryChunk). h.next) e ∙ next)
      (omega (arith, fits, ap (λ (h : MemoryChunk). h.size) e))
Chain-frame {chunks} {chunks'} {at} le same (linked positive previous next fits rest) =
    let e : chunks' at ≡ chunks at = same at (omega arith) in
    linked positive (ap (λ (h : MemoryChunk). h.previous) e ∙ previous)
      (ap (λ (h : MemoryChunk). h.next) e ∙ next)
      (omega (arith, fits, ap (λ (h : MemoryChunk). h.size) e))
      (Chain-frame le (λ a h. same a (omega (arith, fits))) rest)

-- Another header in front of the first chunk.
pub Chain-relink :
    {limit limit' : ℕ} {chunks chunks' : Chunks} {previous previous' at : ℕ} {l : List ℕ}
    → limit ≤ limit'
    → chunks' at ≡ record (chunks at) { previous = previous' }
    → ((a : ℕ) → at < a → chunks' a ≡ chunks a)
    → Chain limit chunks previous at l
    → Chain limit' chunks' previous' at l
Chain-relink {chunks} {chunks'} {at} le e same (last positive previous next fits) =
    last positive (ap (λ (h : MemoryChunk). h.previous) e)
      (ap (λ (h : MemoryChunk). h.next) e ∙ next)
      (omega (arith, fits, ap (λ (h : MemoryChunk). h.size) e))
Chain-relink {chunks} {chunks'} {at} le e same (linked positive previous next fits rest) =
    linked positive (ap (λ (h : MemoryChunk). h.previous) e)
      (ap (λ (h : MemoryChunk). h.next) e ∙ next)
      (omega (arith, fits, ap (λ (h : MemoryChunk). h.size) e))
      (Chain-frame le (λ a h. same a (omega (arith, fits))) rest)

pub put_self : (at : ℕ) (header : MemoryChunk) (chunks : Chunks) → put at header chunks at ≡ header
put_self at header chunks = let same : (at == at) ≡ true = ground arith in rw same refl

pub put_ne :
    {at a : ℕ} (header : MemoryChunk) (chunks : Chunks) → a ≢ at → put at header chunks a ≡ chunks a
put_ne {at} {a} header chunks ne = let other : (a == at) ≡ false = ground arith in rw other refl

pub set_previous_self :
    (next previous : ℕ) (chunks : Chunks)
    → 0 < next
    → set_previous next previous chunks next ≡ record (chunks next) { previous = previous }
unfolding set_previous
set_previous_self next previous chunks positive =
    let some : (next == 0) ≡ false = ground arith in
    rw (set_previous, some) (put_self next (record (chunks next) { previous = previous }) chunks)

pub set_previous_ne :
    {next a : ℕ} (previous : ℕ) (chunks : Chunks)
    → a ≢ next
    → set_previous next previous chunks a ≡ chunks a
unfolding set_previous
set_previous_ne {next} {a} previous chunks ne = elim (Bool-cases (next == 0)) [
  | inl null ↦ rw (set_previous, null) refl
  | inr some ↦
      rw (set_previous, some) (put_ne (record (chunks next) { previous = previous }) chunks ne)
]

pub set_next_self :
    (previous next : ℕ) (chunks : Chunks)
    → 0 < previous
    → set_next previous next chunks previous ≡ record (chunks previous) { next = next }
unfolding set_next
set_next_self previous next chunks positive =
    let some : (previous == 0) ≡ false = ground arith in
    rw (set_next, some) (put_self previous (record (chunks previous) { next = next }) chunks)

pub set_next_ne :
    {previous a : ℕ} (next : ℕ) (chunks : Chunks)
    → a ≢ previous
    → set_next previous next chunks a ≡ chunks a
unfolding set_next
set_next_ne {previous} {a} next chunks ne = elim (Bool-cases (previous == 0)) [
  | inl null ↦ rw (set_next, null) refl
  | inr some ↦ rw (set_next, some) (put_ne (record (chunks previous) { next = next }) chunks ne)
]
