-- ===== src/Lockbased/Deque/Pop.antt =====
-- What the critical sections of the two pops do to the heap of a deque.
use data_structure_benchmark.Base.{
  ◌≡◌, refl, ◌≢◌, Option, none, some, [], ◌∷◌, ◌++◌, arith, subst, sym,
}
use mathlib.Core.List.{append-nil, append_assoc}
use data_structure_benchmark.Base.Int.{ℤ, pos, minus_one}
use data_structure_benchmark.Heap.{Ptr, null, node, Heap, write, done, load, set_next, set_prev}
use data_structure_benchmark.Heap.Chain.{
  Cells, first, last, Linked, Distinct, SameOutside, has-append, Distinct-middle,
}
use data_structure_benchmark.Heap.Finishes
use data_structure_benchmark.Heap.Finishes.{Finishes, finishes}
use data_structure_benchmark.Heap.Splice
use data_structure_benchmark.Lockbased.Deque.{Deque, pop_front_locked, pop_back_locked}
use data_structure_benchmark.Lockbased.Deque.Shape.{
  nodes, IsDeque, IsOwn, front_view, back_view_from,
}

-- What a pop of the node `m` does: the chain `after` is left, the node is alive and outside it.
abbrev Popped : Heap ℤ → Ptr → ℤ → Cells ℤ → ℤ × Option Ptr → Heap ℤ → Type 0
Popped h m w after r g =
    (r ≡ (w, some m))
    × Linked g null null after
    × Distinct after
    × IsOwn g m w after
    × SameOutside after h g

module _ (h : Heap ℤ) (d : Deque) (m : Ptr) (w : ℤ) where
  pop_front_at :
      (c : Ptr) (vc : ℤ) (ys : Cells ℤ)
      → Linked h null null ((d.head, pos 0) ∷ (m, w) ∷ (c, vc) ∷ ys)
      → Distinct ((d.head, pos 0) ∷ (m, w) ∷ (c, vc) ∷ ys)
      → m ≢ d.tail
      → Finishes (Popped h m w ((d.head, pos 0) ∷ (c, vc) ∷ ys)) (pop_front_locked d h)
  unfolding pop_front_locked load set_next set_prev write
  pop_front_at c vc ys l s ne =
      let t = Splice.trio h null null [] d.head (pos 0) m w c vc ys l s in
      let g : Heap ℤ =
        write (write h d.head (some (node (pos 0) c null))) c
          (some (node vc (first null ys) d.head)) in
      let runs : pop_front_locked d h ≡ done (w, some m) g =
        ground (arith, t.at_a, t.at_m, t.at_c, t.c_ne_a, t.m_ne_a) in
      let l' =
        Splice.remove h null null [] d.head (pos 0) m w c vc ys g l s (λ p q r t. ground arith)
          (ground (arith, t.c_ne_a)) (ground arith) in
      let own : IsOwn g m w ((d.head, pos 0) ∷ (c, vc) ∷ ys) = record {
        holds = (c, d.head, ground (arith, t.at_m, t.m_ne_a, t.c_ne_m));
        ne_null = s.2.0;
        out = t.m_gone;
      } in
      rw runs (finishes (refl, l', t.apart, own, λ p o. ground arith))

  pop_back_at :
      (xs : Cells ℤ) (a : Ptr) (va : ℤ)
      → Linked h null null (xs ++ (a, va) ∷ (m, w) ∷ (d.tail, pos 0) ∷ [])
      → Distinct (xs ++ (a, va) ∷ (m, w) ∷ (d.tail, pos 0) ∷ [])
      → m ≢ d.head
      → m ≢ null
      → Finishes (Popped h m w (xs ++ (a, va) ∷ (d.tail, pos 0) ∷ [])) (pop_back_locked d h)
  unfolding pop_back_locked load set_next set_prev write
  pop_back_at xs a va l s ne nn =
      let t = Splice.trio h null null xs a va m w d.tail (pos 0) [] l s in
      let g : Heap ℤ =
        write (write h d.tail (some (node (pos 0) null a))) a
          (some (node va d.tail (last null xs))) in
      let runs : pop_back_locked d h ≡ done (w, some m) g =
        ground (arith, t.at_a, t.at_m, t.at_c, t.c_ne_a, t.m_ne_a, t.c_ne_m) in
      let l' =
        Splice.remove h null null xs a va m w d.tail (pos 0) [] g l s (λ p q r t. ground arith)
          (ground arith) (ground (arith, t.c_ne_a)) in
      let own : IsOwn g m w (xs ++ (a, va) ∷ (d.tail, pos 0) ∷ []) = record {
        holds = (d.tail, a, ground (arith, t.at_m, t.m_ne_a, t.c_ne_m));
        ne_null = nn;
        out = t.m_gone;
      } in
      rw runs (
        finishes (
          refl,
          l',
          t.apart,
          own,
          λ p o. ground (arith, has-append p xs ((a, va) ∷ (d.tail, pos 0) ∷ [])),
        ))

  -- The critical section of `pop_front` takes the first node out, returns its value, leaves the rest
  -- and writes to no node outside what is left.
  pub pop_front_locked_lem :
      (xs : Cells ℤ)
      → IsDeque h d ((m, w) ∷ xs)
      → Finishes
          (λ r g.
            (r ≡ (w, some m))
            × IsDeque g d xs
            × IsOwn g m w (nodes d xs)
            × SameOutside (nodes d xs) h g)
          (pop_front_locked d h)
  pop_front_locked_lem xs is =
      let (c, vc, ys, eq) = front_view d xs in
      let ne : m ≢ d.tail =
        ground (arith, is.distinct.2.1, has-append m xs ((d.tail, pos 0) ∷ [])) in
      Finishes.weaken
        (pop_front_at c vc ys
          (subst (λ z. Linked h null null ((d.head, pos 0) ∷ (m, w) ∷ z)) eq is.linked)
          (subst (λ z. Distinct ((d.head, pos 0) ∷ (m, w) ∷ z)) eq is.distinct) ne)
        λ r g p.
          let (e, l, s, own, o) = subst (λ z. Popped h m w ((d.head, pos 0) ∷ z) r g) (sym eq) p in
          (e, record { linked = l; distinct = s }, own, o)

  pub pop_back_locked_lem :
      (xs : Cells ℤ)
      → IsDeque h d (xs ++ (m, w) ∷ [])
      → Finishes
          (λ r g.
            (r ≡ (w, some m))
            × IsDeque g d xs
            × IsOwn g m w (nodes d xs)
            × SameOutside (nodes d xs) h g)
          (pop_back_locked d h)
  pop_back_locked_lem xs is =
      let (zs, a, va, eq) = back_view_from (d.head, pos 0) d xs in
      let here : nodes d xs ≡ zs ++ (a, va) ∷ (d.tail, pos 0) ∷ [] = rw append-nil at (eq []) in
      let mid =
        Distinct-middle ((d.head, pos 0) ∷ xs) m w ((d.tail, pos 0) ∷ [])
          (rw append_assoc at is.distinct) in
      Finishes.weaken
        (pop_back_at zs a va (subst (Linked h null null) (eq ((m, w) ∷ [])) is.linked)
          (subst Distinct (eq ((m, w) ∷ [])) is.distinct) (ground (arith, mid.before)) mid.ne_null)
        λ r g p.
          let (e, l, s, own, o) = subst (λ z. Popped h m w z r g) (sym here) p in
          (e, record { linked = l; distinct = s }, own, o)

-- On an empty deque both return -1 and change nothing.
pub pop_locked_empty :
    (h : Heap ℤ) (d : Deque)
    → IsDeque h d []
    → (pop_front_locked d h ≡ done (minus_one, none) h)
      × (pop_back_locked d h ≡ done (minus_one, none) h)
unfolding pop_front_locked pop_back_locked load
pop_locked_empty h d is = (ground (arith, is.linked.0), ground (arith, is.linked.1.0))
