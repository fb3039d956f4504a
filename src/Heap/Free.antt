-- ===== src/Heap/Free.antt =====
-- `memory_free` and the list of chunks.
use kokos.Shared.{ℕ, ◌+◌, ◌-◌, ◌<◌, ◌≤◌, ◌≡◌, ◌≢◌, refl, ap, ◌∙◌, List, [], ◌∷◌, arith}
use kokos.Heap.Defs.{MemoryChunk, Chunks, chunk_size, set_previous, set_next, unlink, memory_free}
use kokos.Heap.Chain.{
  Chain, last, linked, Chain-relink, set_previous_self, set_previous_ne, set_next_self, set_next_ne,
}
use kokos.Heap.Allocate.{Inserted, here, later}

-- What is left from the chunk at `at` on.
pub record Freed (limit previous at : ℕ) (chunks chunks' : Chunks) (l : List ℕ) : Type 0 where
  pub chain : Chain limit chunks' previous at l
  pub before : (a : ℕ) → 0 < a → a < at → chunks' a ≡ chunks a

-- The headers behind taking out the chunk `h` between `p` and `n`.
module _ (h p n : ℕ) (chunks : Chunks) (back : (chunks h).previous ≡ p)
    (front : (chunks h).next ≡ n) (positive : 0 < p) (apart : p < h) where
  unlink-eq : unlink h chunks ≡ set_previous n p (set_next p n chunks)
  unfolding unlink
  unlink-eq =
      let same : set_next p n chunks h ≡ chunks h =
        set_next_ne n chunks (λ (e : h ≡ p). absurd (omega arith)) in
      rw (back, front, same, back, front) refl

  unlink-previous : p ≢ n → unlink h chunks p ≡ record (chunks p) { next = n }
  unlink-previous ne =
      rw unlink-eq (set_previous_ne p (set_next p n chunks) ne ∙ set_next_self p n chunks positive)

  unlink-next : p < n → unlink h chunks n ≡ record (chunks n) { previous = p }
  unlink-next lt = rw unlink-eq (
      set_previous_self n p (set_next p n chunks) (omega arith)
      ∙ ap (λ (c : MemoryChunk). record c { previous = p })
          (set_next_ne n chunks (λ (e : n ≡ p). absurd (omega arith))))

  unlink-other : (a : ℕ) → a ≢ p → a ≢ n → unlink h chunks a ≡ chunks a
  unlink-other a n1 n2 =
      rw unlink-eq (set_previous_ne p (set_next p n chunks) n2 ∙ set_next_ne n chunks n1)

-- The chunk behind the first one goes.
unlink-second :
    (limit previous p g h : ℕ) (chunks : Chunks) (rest : List ℕ)
    → 0 < p
    → (chunks p).previous ≡ previous
    → p + chunk_size + (chunks p).size ≤ g
    → Chain limit chunks p g (h ∷ rest)
    → Freed limit previous p chunks (unlink h chunks) (p ∷ rest)
unlink-second limit previous p g h chunks [] positive back fits (last some hback end inside) =
    let e =
      unlink-previous h p 0 chunks hback end positive (omega (arith, fits))
        (λ e. absurd (omega arith)) in
    record {
      chain =
          last positive (ap (λ (c : MemoryChunk). c.previous) e ∙ back)
            (ap (λ (c : MemoryChunk). c.next) e)
            (omega (arith, fits, inside, ap (λ (c : MemoryChunk). c.size) e));
      before = λ a some' lt.
          unlink-other h p 0 chunks hback end positive (omega (arith, fits)) a
            (λ e. absurd (omega arith)) (λ e. absurd (omega arith));
    }
unlink-second limit previous p g h chunks rest positive back fits
      (linked {next} some hback front apart tail) =
    let lt : p < h = omega (arith, fits) in
    let e =
      unlink-previous h p next chunks hback front positive lt
        (λ (e : p ≡ next). absurd (omega (arith, apart))) in
    record {
      chain =
          linked positive (ap (λ (c : MemoryChunk). c.previous) e ∙ back)
            (ap (λ (c : MemoryChunk). c.next) e)
            (omega (arith, fits, apart, ap (λ (c : MemoryChunk). c.size) e))
            (Chain-relink (omega arith)
              (unlink-next h p next chunks hback front positive lt (omega (arith, apart)))
              (λ a gt.
                unlink-other h p next chunks hback front positive lt a
                  (λ (e : a ≡ p). absurd (omega (arith, apart)))
                  (λ (e : a ≡ next). absurd (omega arith)))
              tail);
      before = λ a some' below.
          unlink-other h p next chunks hback front positive lt a
            (λ (e : a ≡ p). absurd (omega arith)) (λ (e : a ≡ next). absurd (omega (arith, apart)));
    }

unlink-Freed :
    (limit h : ℕ) (chunks : Chunks) (previous at : ℕ) (l l' : List ℕ)
    → Chain limit chunks previous at l
    → Inserted h l' l
    → Freed limit previous at chunks (unlink h chunks) l'
unlink-Freed limit h chunks previous at l l' (last _ _ _ _) (later none) = elim none [ ]
unlink-Freed limit h chunks previous at l l' (linked {next} positive back e fits tail)
      (here {rest}) =
    unlink-second limit previous at next h chunks rest positive back fits tail
unlink-Freed limit h chunks previous at l l'
      (linked {next} {rest = tail} positive back e fits chain) (later {rest = left} inserted) =
    let f = unlink-Freed limit h chunks at next tail left chain inserted in
    let kept : unlink h chunks at ≡ chunks at = f.before at positive (omega (arith, fits)) in
    record {
      chain =
          linked positive (ap (λ (c : MemoryChunk). c.previous) kept ∙ back)
            (ap (λ (c : MemoryChunk). c.next) kept ∙ e)
            (omega (arith, fits, ap (λ (c : MemoryChunk). c.size) kept)) f.chain;
      before = λ a some lt. f.before a some (omega (arith, fits));
    }

-- When the chunks are in order and linked both ways, freeing one that is not the first leaves the
-- others so.
pub memory_free-Freed :
    (limit root h : ℕ) (chunks : Chunks) (l l' : List ℕ)
    → Chain limit chunks 0 root l
    → Inserted h l' l
    → Freed limit 0 root chunks (memory_free (h + chunk_size) chunks) l'
unfolding memory_free
memory_free-Freed limit root h chunks l l' chain inserted =
    let e : h + chunk_size - chunk_size ≡ h = omega arith in
    rw e (unlink-Freed limit h chunks 0 root l l' chain inserted)
