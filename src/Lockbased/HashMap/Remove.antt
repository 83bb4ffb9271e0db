-- ===== src/Lockbased/HashMap/Remove.antt =====
-- `remove`: contents and memory.
use data_structure_benchmark.Base.{
  ℕ, ◌<◌, ◌≡◌, refl, Bool-cases, inl, inr, true, none, some, [], ◌∷◌, ◌++◌, arith, eq_refl,
  if◌then◌else◌, sym, subst, ap, ◌∙◌,
}
use mathlib.Core.List.{append-nil}
use data_structure_benchmark.Base.Int.{ℤ, eq_int, eq_int_iff}
use data_structure_benchmark.Base.Lists.{length}
use data_structure_benchmark.Heap.{Ptr, Heap, write, pure, ◌>>◌}
use data_structure_benchmark.Heap.Access.{load_ok, delete_ok}
use data_structure_benchmark.Heap.Chain.{Cells, first}
use data_structure_benchmark.Heap.Finishes
use data_structure_benchmark.Heap.Finishes.{Finishes, finishes}
use data_structure_benchmark.Linked.{unlink_node}
use data_structure_benchmark.Linked.Shape.{Holds, head_at, cell_ne_tail, has_cell, Holds-fresh}
use data_structure_benchmark.Linked.Walk.{passed, left, passed-append-left, walk_lem}
use data_structure_benchmark.Linked.Link.{unlink_node_lem}
use data_structure_benchmark.Lockbased.HashMap.{
  HashMap, Entry, other_key, index, remove_at, remove_locked, dispose, remove,
}
use data_structure_benchmark.Lockbased.HashMap.Table.{hd, tl, lookup, Unique, IsTable, Changes}
use data_structure_benchmark.Lockbased.HashMap.Effect.{value_at, index_bound, Effect, Effect-put}
use data_structure_benchmark.Lockbased.HashMap.Keys.{
  lookup-passed, Found, left-Found, lookup-drop, Unique-drop,
}

-- The bucket `i` now holds nothing at the key, and what it held at all others.
abbrev RemovedAt : HashMap → ℕ → ℤ → Cells Entry → Heap Entry → Heap Entry → Type 0
RemovedAt m i key xs h g =
    (ys : Cells Entry) × Changes h g m i xs ys
    × ((k : ℤ) → lookup k ys ≡ (if eq_int key k then none else lookup k xs))

module _ (h : Heap Entry) (m : HashMap) (i : ℕ) (key : ℤ) where
  RemovedAt-nothing :
      (xs : Cells Entry)
      → Holds h (hd m i) (tl m i) xs
      → Unique xs
      → lookup key xs ≡ none
      → RemovedAt m i key xs h h
  RemovedAt-nothing xs is u a = (
    xs,
    record {
      held = is;
      unique = u;
      keeps = λ b o o'. refl;
      grows = λ b o. inl o;
      frees = λ b o o'. absurd (ground arith);
    },
    λ k. elim (Bool-cases (eq_int key k)) [
      | inl e ↦ rw e (subst (λ z. lookup z xs ≡ none) ((eq_int_iff key k).0 e) a)
      | inr e ↦ rw e refl
    ],
  )

  RemovedAt-cell :
      (us : Cells Entry) (c : Ptr) (e : Entry) (ys : Cells Entry)
      → Holds h (hd m i) (tl m i) (us ++ (c, e) ∷ ys)
      → Unique (us ++ (c, e) ∷ ys)
      → lookup key us ≡ none
      → eq_int e.key key ≡ true
      → Finishes
          (λ r g. Finishes (λ _. RemovedAt m i key (us ++ (c, e) ∷ ys) h) (dispose r g))
          ((unlink_node c >> pure (some c)) h)
  unfolding dispose write
  RemovedAt-cell us c e ys is u a q =
      Finishes.chain (unlink_node_lem h c e (hd m i) (tl m i) us ys is) λ _ g post.
        let (held, own, same) = post in
        let (x, y, at) = own.holds in
        finishes (
          rw (delete_ok g c at) (
            finishes (
              us ++ ys,
              record {
                held = Holds-fresh g (hd m i) (tl m i) (us ++ ys) c none held own.out;
                unique = Unique-drop us c e ys u;
                keeps = λ b o o'. ground (arith, same b, has_cell (hd m i) (tl m i) us c e ys b);
                grows = λ b o. inl (ground (arith, has_cell (hd m i) (tl m i) us c e ys b));
                frees = λ b o o'. ground (arith, has_cell (hd m i) (tl m i) us c e ys b);
              },
              λ k. lookup-drop key k us c e ys a q u,
            )))

  remove_at-RemovedAt :
      (us vs : Cells Entry)
      → Holds h (hd m i) (tl m i) (us ++ vs)
      → Unique (us ++ vs)
      → lookup key us ≡ none
      → Found key vs
      → Finishes
          (λ r g. Finishes (λ _. RemovedAt m i key (us ++ vs) h) (dispose r g))
          (remove_at (m.bucket_tails i) (first (m.bucket_tails i) vs) h)
  unfolding remove_at dispose
  remove_at-RemovedAt us [] is u a f =
      let absent = ap (λ z. lookup key z) (append-nil us) ∙ a in
      rw (eq_refl (m.bucket_tails i))
        (finishes (finishes (RemovedAt-nothing (us ++ []) is u absent)))
  remove_at-RemovedAt us ((c, e) ∷ vs) is u a f =
      rw (cell_ne_tail h (hd m i) (tl m i) us c e vs is) (RemovedAt-cell us c e vs is u a f)

-- `remove`, with fuel for every node of the key's bucket, finishes; the table holds nothing at the key
-- and what it held at all others; a node that it loses is deleted, and nothing outside its nodes
-- changes.
pub remove-Effect :
    (hash : ℤ → ℕ) (h : Heap Entry) (m : HashMap) (key : ℤ) (cells : ℕ → Cells Entry) (fuel : ℕ)
    → IsTable h m cells
    → length (cells (index hash key)) < fuel
    → Finishes
        (λ _ g. Effect hash h g m cells λ k. if eq_int key k then none else value_at hash cells k)
        (remove hash fuel m key h)
unfolding remove remove_locked
remove-Effect hash h m key cells fuel is enough =
    let i = index hash key in
    let small = index_bound hash key in
    let xs = cells i in
    let held = is.held i small in
    let parts = passed-append-left (other_key key) xs in
    rw
      (
        load_ok h (m.bucket_heads i) (head_at h (hd m i) (tl m i) xs held),
        walk_lem (other_key key) h (hd m i) (tl m i) fuel xs held enough,
      )
      (Finishes.chain
        (remove_at-RemovedAt h m i key (passed (other_key key) xs) (left (other_key key) xs)
          (subst (Holds h (hd m i) (tl m i)) (sym parts) held)
          (subst Unique (sym parts) (is.unique i small)) (lookup-passed key xs) (left-Found key xs))
        λ r g post.
          Finishes.weaken
            (subst (λ z. Finishes (λ _. RemovedAt m i key z h) (dispose r g)) parts post)
            λ _ g' end. Effect-put hash h g' m cells key end.0 none is end.1 end.2)
