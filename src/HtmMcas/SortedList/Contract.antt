-- ===== src/HtmMcas/SortedList/Contract.antt =====
-- The methods on a sorted list.
use data_structure_benchmark.Base.{
  ℕ, zero, suc, ◌+◌, ◌≤◌, ◌<◌, ◌≡◌, ◌≢◌, sym, ap, subst, fun_ext, ◌∙◌, none, some, ◌∷◌, ◌++◌, arith,
  if◌then◌else◌,
}
use data_structure_benchmark.Base.Int.{ℤ, pos, eq_int}
use data_structure_benchmark.Base.Lists.{length}
use data_structure_benchmark.Heap.{
  Ptr, null, node, Heap, write, done, load, new_node, set_payload, set_next, set_prev,
}
use data_structure_benchmark.Heap.Access.{load_ok}
use data_structure_benchmark.Heap.Chain.{Cells, values}
use data_structure_benchmark.Heap.Finishes
use data_structure_benchmark.Heap.Finishes.{Finishes, finishes}
use data_structure_benchmark.Linked.Shape.{
  nodes, Holds, Own, not_has_of_unused, head_at, has_cell, Holds-fresh,
}
use data_structure_benchmark.Linked.Walk.{passed, left, passed-append-left}
use data_structure_benchmark.Lockbased.SortedList as Locked
use data_structure_benchmark.Lockbased.SortedList.Order.{occurrences, below, IsSorted-insert}
use data_structure_benchmark.Lockbased.SortedList.Shape.{hd, tl, IsList, occurrences-insert}
use data_structure_benchmark.Lockbased.SortedList.Insert.{Inserted}
use data_structure_benchmark.Lockbased.SortedList.Count.{count-occurrences}
use data_structure_benchmark.Tm.{Answers, undecided, begin}
use data_structure_benchmark.HtmLock.{atomically_runs}
use data_structure_benchmark.HtmMcas.Links.Walk.{walk_to_lem}
use data_structure_benchmark.HtmMcas.SortedList.{
  SortedList, make_node, insert_section, remove_section, count_section, insert, remove, count,
}
-- What a place of the list, the last sentinel included, holds, and that it is not the first one.
use data_structure_benchmark.HtmMcas.SortedList.Splice.{Spliced, insert_before-Spliced}
use data_structure_benchmark.HtmMcas.SortedList.Remove.{Taken, remove_section-Taken}

make_node_lem :
    (h : Heap ℤ) (v : ℤ) (fresh : Ptr)
    → make_node v fresh h ≡ done tt (write h fresh (some (node v null null)))
unfolding make_node new_node set_payload set_next set_prev load write
make_node_lem h v fresh =
    let g : Heap ℤ =
      write
        (write
          (write (write h fresh (some (node (pos 0) null null))) fresh (some (node v null null)))
          fresh (some (node v null null)))
        fresh (some (node v null null)) in
    let runs : make_node v fresh h ≡ done tt g = ground arith in
    let same : g ≡ write h fresh (some (node v null null)) = fun_ext λ a. ground arith in
    runs ∙ ap (λ z. done tt z) same

insert_section-Spliced :
    (h : Heap ℤ) (l : SortedList) (v : ℤ) (n : Ptr) (xs : Cells ℤ) (fuel : ℕ)
    → IsList h l xs
    → Own h n v (nodes (hd l) (tl l) xs)
    → length xs < fuel
    → Finishes
        (λ _. Spliced h l n v (passed (below v) xs) (left (below v) xs))
        (insert_section fuel l v n h)
unfolding insert_section
insert_section-Spliced h l v n xs zero is own enough = absurd (omega arith)
insert_section-Spliced h l v n xs (suc k) is own enough =
    let parts = sym (passed-append-left (below v) xs) in
    rw
      (
        load_ok h l.head (head_at h (hd l) (tl l) xs is.held),
        walk_to_lem (below v) h (hd l) (tl l) (suc k) xs is.held enough,
      )
      (insert_before-Spliced h l n v (passed (below v) xs) (left (below v) xs)
        (subst (Holds h (hd l) (tl l)) parts is.held)
        (subst (λ z. Own h n v (nodes (hd l) (tl l) z)) parts own) k)

insert-Inserts :
    (h : Heap ℤ) (l : SortedList) (v : ℤ) (fresh : Ptr) (xs : Cells ℤ) (fuel : ℕ) (tries : Answers)
    → IsList h l xs
    → fresh ≢ null
    → h fresh ≡ none
    → length xs < fuel
    → begin tries ≢ undecided
    → Finishes (λ _. Inserted l v xs h) (insert tries fuel l v fresh h)
unfolding insert write
insert-Inserts h l v fresh xs fuel tries is p q enough decided =
    let out = not_has_of_unused h (hd l) (tl l) xs fresh is.held q in
    let g = write h fresh (some (node v null null)) in
    let held = Holds-fresh h (hd l) (tl l) xs fresh (some (node v null null)) is.held out in
    let us = passed (below v) xs in
    let vs = left (below v) xs in
    rw (make_node_lem h v fresh, atomically_runs tries (insert_section fuel l v fresh) decided)
      (Finishes.weaken
        (insert_section-Spliced g l v fresh xs fuel (record { held = held; sorted = is.sorted })
          (record { holds = (null, null, ground arith); ne_null = p; out = out }) enough)
        λ _ g' post. (
          us ++ (fresh, v) ∷ vs,
          record { held = post.0; sorted = IsSorted-insert v fresh xs is.sorted },
          λ w.
              occurrences-insert v w fresh us vs
              ∙ ap (λ z. (if eq_int v w then 1 else 0) + occurrences w (values z))
                  (passed-append-left (below v) xs),
          λ a o. ground (arith, post.1 a, has_cell (hd l) (tl l) us fresh v vs a),
        ))

-- The methods of the sorted list of htm-mcas, on a sorted list, once `TM_BEGIN` has returned and with fuel
-- for every node, finish: `insert` of a fresh node leaves a sorted list with the value once more, `remove`
-- one with the value once less if it was there, all other values as often, and no node outside the list
-- changed; `count` returns how often the value occurs and changes nothing. That number is to be an `int`.
pub list_methods-Keep :
    (tries : Answers) (h : Heap ℤ) (l : SortedList) (v : ℤ) (fresh : Ptr) (xs : Cells ℤ) (fuel : ℕ)
    → IsList h l xs
    → fresh ≢ null
    → h fresh ≡ none
    → length xs < fuel
    → begin tries ≢ undecided
    → occurrences v (values xs) ≤ Locked.int_max
    → Finishes (λ _. Inserted l v xs h) (insert tries fuel l v fresh h)
      × Finishes (λ _. Taken l v xs h) (remove tries fuel l v h)
      × (count tries fuel l v h ≡ done (occurrences v (values xs)) h)
unfolding remove count count_section Locked.count
list_methods-Keep tries h l v fresh xs fuel is p q enough decided small = (
  insert-Inserts h l v fresh xs fuel tries is p q enough decided,
  rw (atomically_runs tries (remove_section fuel l v) decided)
      (remove_section-Taken h l v xs fuel is enough),
  ap (λ z. z h) (atomically_runs tries (count_section fuel l v) decided)
      ∙ count-occurrences h l v xs fuel is enough small,
)
