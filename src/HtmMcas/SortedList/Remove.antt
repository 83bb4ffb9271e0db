-- ===== src/HtmMcas/SortedList/Remove.antt =====
-- `remove` on a sorted list.
use data_structure_benchmark.Base.{
  ℕ, ◌-◌, ◌<◌, ◌≡◌, refl, sym, ap, subst, ◌∙◌, Bool-cases, true, false, inl, inr, [], ◌∷◌, ◌++◌,
  arith, ◌==◌, if◌then◌else◌, eq_refl,
}
use data_structure_benchmark.Base.Int.{ℤ, eq_int, eq_int_iff}
use data_structure_benchmark.Base.Lists.{length}
use data_structure_benchmark.Heap.{Ptr, Heap}
use data_structure_benchmark.Heap.Access.{load_ok}
use data_structure_benchmark.Heap.Chain.{
  Cells, first, values, values-append, SameOutside, has-append,
}
use data_structure_benchmark.Heap.Finishes
use data_structure_benchmark.Heap.Finishes.{Finishes, finishes}
use data_structure_benchmark.Linked.Shape.{nodes, Holds, head_at, cell_at, cell_ne_tail}
use data_structure_benchmark.Linked.Walk.{passed, left, passed-append-left}
use data_structure_benchmark.Lockbased.SortedList.Order.{
  IsSorted, occurrences, below, IsSorted-drop, Missing, occurrences-Missing,
}
use data_structure_benchmark.Lockbased.SortedList.Shape.{hd, tl, IsList, occurrences-insert}
use data_structure_benchmark.HtmMcas.Links.{delete_node}
use data_structure_benchmark.HtmMcas.Links.Walk.{walk_to_lem}
use data_structure_benchmark.HtmMcas.Links.Splice.{delete_node_lem}
use data_structure_benchmark.HtmMcas.SortedList.{SortedList, remove_at, remove_section}

-- What a place of the list, the last sentinel included, holds, and that it is not the first one.

-- What a removal of `v` leaves: a sorted list with one `v` less, if there was one. The node taken out stays
-- as it was, like the memory outside.
abbrev pub Taken : SortedList → ℤ → Cells ℤ → Heap ℤ → Heap ℤ → Type 0
Taken l v xs h g =
    (ys : Cells ℤ) × IsList g l ys
    × ((w : ℤ)
        → occurrences w (values ys) ≡ occurrences w (values xs) - (if eq_int v w then 1 else 0))
    × SameOutside (nodes (hd l) (tl l) ys) h g

Taken-nothing :
    (h : Heap ℤ) (l : SortedList) (v : ℤ) (xs : Cells ℤ)
    → IsList h l xs
    → occurrences v (values xs) ≡ 0
    → Taken l v xs h h
Taken-nothing h l v xs is zero_times = (
  xs,
  is,
  λ w. elim (Bool-cases (eq_int v w)) [
    | inl e ↦ rw (e, ← (eq_int_iff v w).0 e) (omega (arith, zero_times))
    | inr e ↦ rw e (omega arith)
  ],
  λ a out. refl,
)

-- A node of the list is not its first sentinel.
cell_ne_head :
    (h : Heap ℤ) (hd tl : Ptr × ℤ) (us : Cells ℤ) (c : Ptr) (u : ℤ) (ys : Cells ℤ)
    → Holds h hd tl (us ++ (c, u) ∷ ys)
    → (c == hd.0) ≡ false
cell_ne_head h hd tl us c u ys is = ground (
  arith,
  is.distinct.1,
  has-append hd.0 (us ++ (c, u) ∷ ys) (tl ∷ []),
  has-append hd.0 us ((c, u) ∷ ys),
)

delete_node-Taken :
    (h : Heap ℤ) (l : SortedList) (v : ℤ) (us : Cells ℤ) (c : Ptr) (u : ℤ) (ys : Cells ℤ)
    → IsList h l (us ++ (c, u) ∷ ys)
    → eq_int u v ≡ true
    → Finishes (λ _. Taken l v (us ++ (c, u) ∷ ys) h) (delete_node l.head l.tail c h)
delete_node-Taken h l v us c u ys is e =
    let sorted =
      IsSorted-drop u (values us) (values ys)
        (subst IsSorted (values-append us ((c, u) ∷ ys)) is.sorted) in
    Finishes.weaken
      (delete_node_lem h c u (hd l) (tl l) us ys is.held
        (cell_ne_head h (hd l) (tl l) us c u ys is.held)
        (cell_ne_tail h (hd l) (tl l) us c u ys is.held))
      λ _ g post. (
        us ++ ys,
        record { held = post.0; sorted = subst IsSorted (sym (values-append us ys)) sorted },
        λ w. rw (occurrences-insert u w c us ys, (eq_int_iff u v).0 e) (omega arith),
        post.2,
      )

remove_at-Taken :
    (h : Heap ℤ) (l : SortedList) (v : ℤ) (us vs : Cells ℤ)
    → IsList h l (us ++ vs)
    → (Missing v vs → occurrences v (values (us ++ vs)) ≡ 0)
    → Finishes (λ _. Taken l v (us ++ vs) h) (remove_at l v (first l.tail vs) h)
unfolding remove_at
remove_at-Taken h l v us [] is absent =
    rw (eq_refl l.tail) (finishes (Taken-nothing h l v (us ++ []) is (absent tt)))
remove_at-Taken h l v us ((c, u) ∷ ys) is absent =
    rw
      (
        cell_ne_tail h (hd l) (tl l) us c u ys is.held,
        load_ok h c (cell_at h (hd l) (tl l) us c u ys is.held),
      )
      (elim (Bool-cases (eq_int u v)) [
        | inl e ↦ rw e (delete_node-Taken h l v us c u ys is e)
        | inr e ↦ rw e (finishes (Taken-nothing h l v (us ++ (c, u) ∷ ys) is (absent e)))
      ])

pub remove_section-Taken :
    (h : Heap ℤ) (l : SortedList) (v : ℤ) (xs : Cells ℤ) (fuel : ℕ)
    → IsList h l xs
    → length xs < fuel
    → Finishes (λ _. Taken l v xs h) (remove_section fuel l v h)
unfolding remove_section
remove_section-Taken h l v xs fuel is enough =
    let parts = passed-append-left (below v) xs in
    rw
      (
        load_ok h l.head (head_at h (hd l) (tl l) xs is.held),
        walk_to_lem (below v) h (hd l) (tl l) fuel xs is.held enough,
      )
      (subst
        (λ z. Finishes (λ _. Taken l v z h) (remove_at l v (first l.tail (left (below v) xs)) h))
        parts
        (remove_at-Taken h l v (passed (below v) xs) (left (below v) xs)
          (subst (IsList h l) (sym parts) is)
          λ m. ap (λ z. occurrences v (values z)) parts ∙ occurrences-Missing v xs is.sorted m))
