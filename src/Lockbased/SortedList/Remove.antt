-- ===== src/Lockbased/SortedList/Remove.antt =====
-- `remove`: order, contents and memory.
use data_structure_benchmark.Base.{
  ℕ, ◌-◌, ◌<◌, ◌≡◌, sym, ap, subst, ◌∙◌, Bool-cases, true, false, none, some, [], ◌∷◌, ◌++◌, arith,
  inl, inr, if◌then◌else◌, eq_refl,
}
use data_structure_benchmark.Base.Int.{ℤ, eq_int, eq_int_iff}
use data_structure_benchmark.Base.Lists.{length}
use data_structure_benchmark.Heap.{Ptr, Heap, write, pure, ◌>>◌}
use data_structure_benchmark.Heap.Access.{load_ok, delete_ok}
use data_structure_benchmark.Heap.Chain.{Cells, has, first, values, values-append}
use data_structure_benchmark.Heap.Finishes
use data_structure_benchmark.Heap.Finishes.{Finishes, finishes}
use data_structure_benchmark.Linked.{unlink_node}
use data_structure_benchmark.Linked.Shape.{
  nodes, head_at, cell_at, cell_ne_tail, has_cell, Holds-fresh,
}
use data_structure_benchmark.Linked.Walk.{passed, left, passed-append-left, walk_lem}
use data_structure_benchmark.Linked.Link.{unlink_node_lem}
use data_structure_benchmark.Lockbased.SortedList.{
  SortedList, remove_locked, remove_at, dispose, remove,
}
use data_structure_benchmark.Lockbased.SortedList.Order.{
  IsSorted, occurrences, below, IsSorted-drop, Missing, occurrences-Missing,
}
use data_structure_benchmark.Lockbased.SortedList.Shape.{hd, tl, IsList, occurrences-insert}

-- What a removal of `v` leaves: a sorted list with one `v` less, if there was one, its node deleted,
-- and the memory outside as it was.
abbrev pub Removed : SortedList → ℤ → Cells ℤ → Heap ℤ → Heap ℤ → Type 0
Removed l v xs h g =
    (ys : Cells ℤ) × IsList g l ys
    × ((w : ℤ)
        → occurrences w (values ys) ≡ occurrences w (values xs) - (if eq_int v w then 1 else 0))
    × ((a : Ptr)
        → has a (nodes (hd l) (tl l) ys) ≡ false
        → g a ≡ (if has a (nodes (hd l) (tl l) xs) then none else h a))

Removed-nothing :
    (h : Heap ℤ) (l : SortedList) (v : ℤ) (xs : Cells ℤ)
    → IsList h l xs
    → occurrences v (values xs) ≡ 0
    → Removed l v xs h h
Removed-nothing h l v xs is zero_times = (
  xs,
  is,
  λ w. elim (Bool-cases (eq_int v w)) [
    | inl e ↦ rw (e, ← (eq_int_iff v w).0 e) (omega (arith, zero_times))
    | inr e ↦ rw e (omega arith)
  ],
  λ a out. ground arith,
)

Removed-cell :
    (h : Heap ℤ) (l : SortedList) (v : ℤ) (us : Cells ℤ) (c : Ptr) (u : ℤ) (ys : Cells ℤ)
    → IsList h l (us ++ (c, u) ∷ ys)
    → eq_int u v ≡ true
    → Finishes
        (λ r g. Finishes (λ _. Removed l v (us ++ (c, u) ∷ ys) h) (dispose r g))
        ((unlink_node c >> pure (some c)) h)
unfolding dispose write
Removed-cell h l v us c u ys is e =
    Finishes.chain (unlink_node_lem h c u (hd l) (tl l) us ys is.held) λ _ g post.
      let (held, own, same) = post in
      let (x, y, at) = own.holds in
      let sorted =
        IsSorted-drop u (values us) (values ys)
          (subst IsSorted (values-append us ((c, u) ∷ ys)) is.sorted) in
      finishes (
        rw (delete_ok g c at) (
          finishes (
            us ++ ys,
            record {
              held = Holds-fresh g (hd l) (tl l) (us ++ ys) c none held own.out;
              sorted = subst IsSorted (sym (values-append us ys)) sorted;
            },
            λ w. rw (occurrences-insert u w c us ys, (eq_int_iff u v).0 e) (omega arith),
            λ a out. ground (arith, same a, has_cell (hd l) (tl l) us c u ys a),
          )))

remove_at-Removed :
    (h : Heap ℤ) (l : SortedList) (v : ℤ) (us vs : Cells ℤ)
    → IsList h l (us ++ vs)
    → (Missing v vs → occurrences v (values (us ++ vs)) ≡ 0)
    → Finishes
        (λ r g. Finishes (λ _. Removed l v (us ++ vs) h) (dispose r g))
        (remove_at l v (first l.tail vs) h)
unfolding remove_at dispose
remove_at-Removed h l v us [] is absent =
    rw (eq_refl l.tail) (finishes (finishes (Removed-nothing h l v (us ++ []) is (absent tt))))
remove_at-Removed h l v us ((c, u) ∷ ys) is absent =
    rw
      (
        cell_ne_tail h (hd l) (tl l) us c u ys is.held,
        load_ok h c (cell_at h (hd l) (tl l) us c u ys is.held),
      )
      (elim (Bool-cases (eq_int u v)) [
        | inl e ↦ rw e (Removed-cell h l v us c u ys is e)
        | inr e ↦
            rw e (finishes (finishes (Removed-nothing h l v (us ++ (c, u) ∷ ys) is (absent e))))
      ])

-- `remove`, with fuel for every node, finishes; the list stays sorted, it holds the value once less if
-- it held it at all, and all others as often; the node taken out is deleted, and no other outside the
-- list changes.
pub remove-Removed :
    (h : Heap ℤ) (l : SortedList) (v : ℤ) (xs : Cells ℤ) (fuel : ℕ)
    → IsList h l xs
    → length xs < fuel
    → Finishes (λ _. Removed l v xs h) (remove fuel l v h)
unfolding remove remove_locked
remove-Removed h l v xs fuel is enough =
    let parts = passed-append-left (below v) xs in
    rw
      (
        load_ok h l.head (head_at h (hd l) (tl l) xs is.held),
        walk_lem (below v) h (hd l) (tl l) fuel xs is.held enough,
      )
      (Finishes.chain
        (remove_at-Removed h l v (passed (below v) xs) (left (below v) xs)
          (subst (IsList h l) (sym parts) is)
          λ m. ap (λ z. occurrences v (values z)) parts ∙ occurrences-Missing v xs is.sorted m)
        λ r g post. subst (λ z. Finishes (λ _. Removed l v z h) (dispose r g)) parts post)
