-- ===== src/Lockbased/SortedList/Insert.antt =====
-- `insert`: order, contents and memory.
use data_structure_benchmark.Base.{
  ℕ, ◌+◌, ◌<◌, ◌≡◌, ◌≢◌, sym, ap, subst, ◌∙◌, none, some, ◌∷◌, ◌++◌, arith, if◌then◌else◌,
}
use data_structure_benchmark.Base.Int.{ℤ, pos, eq_int}
use data_structure_benchmark.Base.Lists.{length}
use data_structure_benchmark.Heap.{Ptr, null, node, Heap, write, done, load, set_payload, new_node}
use data_structure_benchmark.Heap.Access.{load_ok}
use data_structure_benchmark.Heap.Chain.{Cells, values, SameOutside}
use data_structure_benchmark.Heap.Finishes
use data_structure_benchmark.Heap.Finishes.{Finishes, finishes}
use data_structure_benchmark.Linked.Shape.{
  nodes, Holds, Own, not_has_of_unused, head_at, has_cell, Holds-fresh,
}
use data_structure_benchmark.Linked.Walk.{passed, left, passed-append-left, walk_lem}
use data_structure_benchmark.Linked.Link.{link_node_lem}
use data_structure_benchmark.Lockbased.SortedList.{SortedList, make_node, insert_locked, insert}
use data_structure_benchmark.Lockbased.SortedList.Order.{occurrences, below, IsSorted-insert}
use data_structure_benchmark.Lockbased.SortedList.Shape.{hd, tl, IsList, occurrences-insert}

-- What an insertion of `v` leaves: a list with one more `v`, sorted, and the memory outside as it was.
abbrev pub Inserted : SortedList → ℤ → Cells ℤ → Heap ℤ → Heap ℤ → Type 0
Inserted l v xs h g =
    (ys : Cells ℤ) × IsList g l ys
    × ((w : ℤ)
        → occurrences w (values ys) ≡ (if eq_int v w then 1 else 0) + occurrences w (values xs))
    × SameOutside (nodes (hd l) (tl l) ys) h g

insert_locked_lem :
    (h : Heap ℤ) (l : SortedList) (v : ℤ) (n : Ptr) (xs : Cells ℤ) (fuel : ℕ)
    → IsList h l xs
    → Own h n v (nodes (hd l) (tl l) xs)
    → length xs < fuel
    → Finishes
        (λ _ g.
          IsList g l (passed (below v) xs ++ (n, v) ∷ left (below v) xs)
          × SameOutside
              (nodes (hd l) (tl l) (passed (below v) xs ++ (n, v) ∷ left (below v) xs))
              h
              g)
        (insert_locked fuel l v n h)
unfolding insert_locked
insert_locked_lem h l v n xs fuel is own enough =
    let us = passed (below v) xs in
    let vs = left (below v) xs in
    let parts = sym (passed-append-left (below v) xs) in
    rw
      (
        load_ok h l.head (head_at h (hd l) (tl l) xs is.held),
        walk_lem (below v) h (hd l) (tl l) fuel xs is.held enough,
      )
      (Finishes.weaken
        (link_node_lem h n v (hd l) (tl l) us vs (subst (Holds h (hd l) (tl l)) parts is.held)
          (subst (λ z. Own h n v (nodes (hd l) (tl l) z)) parts own))
        λ _ g p. (record { held = p.0; sorted = IsSorted-insert v n xs is.sorted }, p.1))

-- the heap that `make_node` leaves
abbrev made : Heap ℤ → ℤ → Ptr → Heap ℤ
made h v fresh =
    write (write h fresh (some (node (pos 0) null null))) fresh (some (node v null null))

make_node_lem : (h : Heap ℤ) (v : ℤ) (fresh : Ptr) → make_node v fresh h ≡ done tt (made h v fresh)
unfolding make_node new_node set_payload load write
make_node_lem h v fresh = ground arith

-- `insert`, on a fresh node and with fuel for every node, finishes; the list stays sorted, it holds
-- the value once more than before and all others as often, and no node outside changes.
pub insert-Inserted :
    (h : Heap ℤ) (l : SortedList) (v : ℤ) (fresh : Ptr) (xs : Cells ℤ) (fuel : ℕ)
    → IsList h l xs
    → fresh ≢ null
    → h fresh ≡ none
    → length xs < fuel
    → Finishes (λ _. Inserted l v xs h) (insert fuel l v fresh h)
unfolding insert write
insert-Inserted h l v fresh xs fuel is p q enough =
    let out = not_has_of_unused h (hd l) (tl l) xs fresh is.held q in
    let held =
      Holds-fresh (write h fresh _) (hd l) (tl l) xs fresh (some (node v null null))
        (Holds-fresh h (hd l) (tl l) xs fresh (some (node (pos 0) null null)) is.held out) out in
    let us = passed (below v) xs in
    let vs = left (below v) xs in
    rw (make_node_lem h v fresh) (
      Finishes.weaken
        (insert_locked_lem (made h v fresh) l v fresh xs fuel
          (record { held = held; sorted = is.sorted })
          (record { holds = (null, null, ground arith); ne_null = p; out = out }) enough)
        λ _ g post. (
          us ++ (fresh, v) ∷ vs,
          post.0,
          λ w.
              occurrences-insert v w fresh us vs
              ∙ ap (λ z. (if eq_int v w then 1 else 0) + occurrences w (values z))
                  (passed-append-left (below v) xs),
          λ a o. ground (arith, post.1 a, has_cell (hd l) (tl l) us fresh v vs a),
        ))
