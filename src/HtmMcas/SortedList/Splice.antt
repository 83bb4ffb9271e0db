-- ===== src/HtmMcas/SortedList/Splice.antt =====
-- `insert_before` at a place of a sorted list.
use data_structure_benchmark.Base.{
  ℕ, suc, ◌≡◌, ◌≢◌, refl, subst, true, false, some, [], ◌∷◌, ◌++◌, arith, ◌==◌,
}
use data_structure_benchmark.Base.Int.{ℤ}
use data_structure_benchmark.Heap.{Ptr, null, Node, node, Heap, ◌>>◌, set_next, set_prev}
use data_structure_benchmark.Heap.Chain.{
  Cells, has, first, last, Linked, Distinct, SameOutside, has-append,
}
use data_structure_benchmark.Heap.Finishes
use data_structure_benchmark.Heap.Finishes.{Finishes, finishes}
use data_structure_benchmark.Heap.Splice
use data_structure_benchmark.Linked.Shape.{nodes, Holds, Own, cell_at, around}
use data_structure_benchmark.Linked.Link.{link_node_lem}
use data_structure_benchmark.Lockbased.SortedList.Shape.{hd, tl}
use data_structure_benchmark.HtmMcas.Links.{splice_before}
use data_structure_benchmark.HtmMcas.Links.Splice.{
  set_next_same, set_prev_same, splice_before-link_node,
}
use data_structure_benchmark.HtmMcas.SortedList.{SortedList, insert_before}

-- What a place of the list, the last sentinel included, holds, and that it is not the first one.
has-first : (tl : Ptr × ℤ) (us vs : Cells ℤ) → has (first tl.0 vs) ((us ++ vs) ++ tl ∷ []) ≡ true
has-first tl us [] = ground (arith, has-append tl.0 (us ++ []) (tl ∷ []))
has-first tl us ((q, w) ∷ ys) =
    ground (arith, has-append q (us ++ (q, w) ∷ ys) (tl ∷ []), has-append q us ((q, w) ∷ ys))

ne_of_out : (a n : Ptr) (xs : Cells ℤ) → has a xs ≡ true → has n xs ≡ false → a ≢ n
ne_of_out a n xs i o e = cc

place_at :
    (h : Heap ℤ) (hd tl : Ptr × ℤ) (us vs : Cells ℤ)
    → Holds h hd tl (us ++ vs)
    → ((x : Node ℤ) × (h (first tl.0 vs) ≡ some x) × (x.prev ≡ last hd.0 us))
      × ((first tl.0 vs == hd.0) ≡ false)
place_at h hd tl us vs is =
    let (zs, va, vc, ws, eq) = around hd tl us vs in
    let at =
      Splice.neighbours h null null zs (last hd.0 us) va (first tl.0 vs) vc ws
        (subst (Linked h null null) (eq []) is.linked) (subst Distinct (eq []) is.distinct) in
    (
      (node vc (first null ws) (last hd.0 us), at.at_c, refl),
      ground (
        arith,
        ne_of_out (first tl.0 vs) hd.0 ((us ++ vs) ++ tl ∷ []) (has-first tl us vs) is.distinct.1,
      ),
    )

-- what puts the node `n` in between `us` and `vs`
abbrev pub Spliced : Heap ℤ → SortedList → Ptr → ℤ → Cells ℤ → Cells ℤ → Heap ℤ → Type 0
Spliced h l n v us vs g =
    Holds g (hd l) (tl l) (us ++ (n, v) ∷ vs)
    × SameOutside (nodes (hd l) (tl l) (us ++ (n, v) ∷ vs)) h g

module _ (h : Heap ℤ) (l : SortedList) (n : Ptr) (v : ℤ) (us vs : Cells ℤ)
    (is : Holds h (hd l) (tl l) (us ++ vs)) (own : Own h n v (nodes (hd l) (tl l) (us ++ vs))) where
  splice_before-Spliced :
      Finishes
        (λ b g. (b ≡ last l.head us) × Spliced h l n v us vs g)
        (splice_before (first l.tail vs) n h)
  splice_before-Spliced =
      let ((x, at, prev), ne) = place_at h (hd l) (tl l) us vs is in
      let (p, q, live) = own.holds in
      let apart : first l.tail vs ≢ n =
        ne_of_out (first l.tail vs) n ((us ++ vs) ++ tl l ∷ []) (has-first (tl l) us vs)
          (ground (arith, own.out)) in
      rw (splice_before-link_node h (first l.tail vs) n x (node v p q) at live apart, prev)
        (Finishes.chain (link_node_lem h n v (hd l) (tl l) us vs is own)
          λ _ g post. finishes (refl, post))

  -- The assignments that stand there twice change nothing.
  twice_same :
      (b : Ptr) (g : Heap ℤ)
      → (b ≡ last l.head us) × Spliced h l n v us vs g
      → Finishes (λ _. Spliced h l n v us vs) ((set_next n (first l.tail vs) >> set_prev n b) g)
  twice_same b g (e, post) =
      let at = cell_at g (hd l) (tl l) us n v vs post.0 in
      rw
        (
          e,
          set_next_same g n v (first l.tail vs) (last l.head us) at,
          set_prev_same g n v (first l.tail vs) (last l.head us) at,
        )
        (finishes post)

  -- `insert_before` at a place of the list puts the node in.
  pub insert_before-Spliced :
      (k : ℕ)
      → Finishes (λ _. Spliced h l n v us vs) (insert_before (suc k) l (first l.tail vs) n h)
  unfolding insert_before
  insert_before-Spliced k =
      rw (place_at h (hd l) (tl l) us vs is).1 (Finishes.chain splice_before-Spliced twice_same)
