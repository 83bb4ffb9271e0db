-- ===== src/Lockbased/Deque/Push.antt =====
-- What the critical sections of the two pushes do to the heap of a deque.
use data_structure_benchmark.Base.{◌≡◌, some, [], ◌∷◌, ◌++◌, arith, subst, sym}
use mathlib.Core.List.{append-nil}
use data_structure_benchmark.Base.Int.{ℤ, pos}
use data_structure_benchmark.Heap.{Ptr, null, node, Heap, write, done, load, set_next, set_prev}
use data_structure_benchmark.Heap.Chain.{
  Cells, first, last, Linked, Distinct, SameOutside, has-append,
}
use data_structure_benchmark.Heap.Finishes
use data_structure_benchmark.Heap.Finishes.{Finishes, finishes}
use data_structure_benchmark.Heap.Splice
use data_structure_benchmark.Lockbased.Deque.{Deque, push_front_locked, push_back_locked}
use data_structure_benchmark.Lockbased.Deque.Shape.{
  nodes, IsDeque, IsOwn, front_view, back_view_from,
}

-- What a push does to the nodes `before`: a new node at `n`, and nothing outside touched.
abbrev Pushed : Heap ℤ → Ptr → ℤ → Cells ℤ → Heap ℤ → Type 0
Pushed h n v after g = Linked g null null after × Distinct after × SameOutside after h g

module _ (h : Heap ℤ) (d : Deque) (n : Ptr) (v : ℤ) where
  push_front_at :
      (c : Ptr) (vc : ℤ) (ys : Cells ℤ)
      → Linked h null null ((d.head, pos 0) ∷ (c, vc) ∷ ys)
      → Distinct ((d.head, pos 0) ∷ (c, vc) ∷ ys)
      → IsOwn h n v ((d.head, pos 0) ∷ (c, vc) ∷ ys)
      → Finishes
          (λ _. Pushed h n v ((d.head, pos 0) ∷ (n, v) ∷ (c, vc) ∷ ys))
          (push_front_locked d n h)
  unfolding push_front_locked load set_next set_prev write
  push_front_at c vc ys l s own =
      let at = Splice.neighbours h null null [] d.head (pos 0) c vc ys l s in
      let (x, y, hn) = own.holds in
      let g : Heap ℤ =
        write
          (write (write (write h n (some (node v c y))) n (some (node v c d.head))) c
            (some (node vc (first null ys) n)))
          d.head (some (node (pos 0) n null)) in
      let runs : push_front_locked d n h ≡ done tt g =
        ground (arith, at.at_a, at.at_c, at.ne, own.out) in
      let (l', s') =
        Splice.insert h null null [] d.head (pos 0) c vc ys g n v l s own.ne_null own.out
          (λ p q r t. ground arith) (ground (arith, own.out)) (ground arith)
          (ground (arith, own.out, at.ne)) in
      rw runs (finishes (l', s', λ p o. ground arith))

  push_back_at :
      (xs : Cells ℤ) (a : Ptr) (va : ℤ)
      → Linked h null null (xs ++ (a, va) ∷ (d.tail, pos 0) ∷ [])
      → Distinct (xs ++ (a, va) ∷ (d.tail, pos 0) ∷ [])
      → IsOwn h n v (xs ++ (a, va) ∷ (d.tail, pos 0) ∷ [])
      → Finishes
          (λ _. Pushed h n v (xs ++ (a, va) ∷ (n, v) ∷ (d.tail, pos 0) ∷ []))
          (push_back_locked d n h)
  unfolding push_back_locked load set_next set_prev write
  push_back_at xs a va l s own =
      let at = Splice.neighbours h null null xs a va d.tail (pos 0) [] l s in
      let (x, y, hn) = own.holds in
      let g : Heap ℤ =
        write
          (write (write (write h n (some (node v d.tail y))) n (some (node v d.tail a))) a
            (some (node va n (last null xs))))
          d.tail (some (node (pos 0) null n)) in
      let out = has-append n xs ((a, va) ∷ (d.tail, pos 0) ∷ []) in
      let runs : push_back_locked d n h ≡ done tt g =
        ground (arith, at.at_a, at.at_c, at.ne, own.out, out) in
      let (l', s') =
        Splice.insert h null null xs a va d.tail (pos 0) [] g n v l s own.ne_null own.out
          (λ p q r t. ground arith) (ground (arith, own.out, out)) (ground (arith, at.ne))
          (ground arith) in
      rw runs (
        finishes (
          l',
          s',
          λ p o. ground (arith, has-append p xs ((a, va) ∷ (n, v) ∷ (d.tail, pos 0) ∷ [])),
        ))

  -- The critical section of `push_front` puts the caller's node in front, and writes to no node
  -- outside the deque.
  pub push_front_locked_lem :
      (xs : Cells ℤ)
      → IsDeque h d xs
      → IsOwn h n v (nodes d xs)
      → Finishes
          (λ _ g. IsDeque g d ((n, v) ∷ xs) × SameOutside (nodes d ((n, v) ∷ xs)) h g)
          (push_front_locked d n h)
  push_front_locked_lem xs is own =
      let (c, vc, ys, eq) = front_view d xs in
      Finishes.weaken
        (push_front_at c vc ys (subst (λ z. Linked h null null ((d.head, pos 0) ∷ z)) eq is.linked)
          (subst (λ z. Distinct ((d.head, pos 0) ∷ z)) eq is.distinct)
          (subst (λ z. IsOwn h n v ((d.head, pos 0) ∷ z)) eq own))
        λ _ g p.
          let (l, s, o) = subst (λ z. Pushed h n v ((d.head, pos 0) ∷ (n, v) ∷ z) g) (sym eq) p in
          (record { linked = l; distinct = s }, o)

  pub push_back_locked_lem :
      (xs : Cells ℤ)
      → IsDeque h d xs
      → IsOwn h n v (nodes d xs)
      → Finishes
          (λ _ g. IsDeque g d (xs ++ (n, v) ∷ []) × SameOutside (nodes d (xs ++ (n, v) ∷ [])) h g)
          (push_back_locked d n h)
  push_back_locked_lem xs is own =
      let (zs, a, va, eq) = back_view_from (d.head, pos 0) d xs in
      let here : nodes d xs ≡ zs ++ (a, va) ∷ (d.tail, pos 0) ∷ [] = rw append-nil at (eq []) in
      Finishes.weaken
        (push_back_at zs a va (subst (Linked h null null) here is.linked)
          (subst Distinct here is.distinct) (subst (IsOwn h n v) here own))
        λ _ g p.
          let (l, s, o) = subst (λ z. Pushed h n v z g) (sym (eq ((n, v) ∷ []))) p in
          (record { linked = l; distinct = s }, o)
