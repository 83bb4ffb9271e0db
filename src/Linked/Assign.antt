-- ===== src/Linked/Assign.antt =====
-- The payload of a node of the list changes.
use mathlib.Core.List.{append_assoc}
use data_structure_benchmark.Base.{◌≡◌, ap, ◌≢◌, some, [], ◌∷◌, ◌++◌, arith, subst, sym}
use data_structure_benchmark.Heap.{Ptr, node, null, Heap, write, set_payload}
use data_structure_benchmark.Heap.Access.{set_payload_ok}
use data_structure_benchmark.Heap.Chain.{
  Cells, first, last, Linked, Distinct, frame, has-append, Linked-append, Linked-split,
  first-append, Distinct-middle, Distinct-insert,
}
use data_structure_benchmark.Heap.Finishes.{Finishes, finishes}
use data_structure_benchmark.Linked.Shape.{nodes, Holds, cell_at}

module _ {ℓ} {A : Type ℓ} (h g : Heap A) (n : Ptr) (v w : A) where
  Linked-relabel :
      (b e : Ptr) (xs ys : Cells A)
      → Linked h b e (xs ++ (n, v) ∷ ys)
      → Distinct (xs ++ (n, v) ∷ ys)
      → g n ≡ some (node w (first e ys) (last b xs))
      → ((a : Ptr) → a ≢ n → g a ≡ h a)
      → Linked g b e (xs ++ (n, w) ∷ ys)
  Linked-relabel b e xs ys l d gn same =
      let (front, back) = Linked-split h b e xs ((n, v) ∷ ys) l in
      let mid = Distinct-middle xs n v ys d in
      Linked-append g b e xs ((n, w) ∷ ys)
        (frame h g b n xs front λ a i. same a (ground (arith, mid.before)))
        (gn, frame h g n e ys back.1 λ a i. same a (ground (arith, mid.behind)))

  Distinct-relabel : (xs ys : Cells A) → Distinct (xs ++ (n, v) ∷ ys) → Distinct (xs ++ (n, w) ∷ ys)
  Distinct-relabel xs ys d =
      let mid = Distinct-middle xs n v ys d in
      Distinct-insert xs n w ys mid.ne_null
        (ground (arith, has-append n xs ys, mid.before, mid.behind)) mid.rest

module _ {ℓ} {A : Type ℓ} (hd tl : Ptr × A) (xs : Cells A) (n : Ptr) (ys : Cells A) where
  nodes_around : (v : A) → nodes hd tl (xs ++ (n, v) ∷ ys) ≡ (hd ∷ xs) ++ (n, v) ∷ (ys ++ tl ∷ [])
  nodes_around v = ap (λ z. hd ∷ z) (append_assoc xs ((n, v) ∷ ys) (tl ∷ []))

  -- An assignment to the payload of a node of the list leaves the list with the new payload, and
  -- writes to no other node.
  pub set_payload_lem :
      (h : Heap A) (v w : A)
      → Holds h hd tl (xs ++ (n, v) ∷ ys)
      → Finishes
          (λ _ g. Holds g hd tl (xs ++ (n, w) ∷ ys) × ((a : Ptr) → a ≢ n → g a ≡ h a))
          (set_payload n w h)
  unfolding write
  set_payload_lem h v w is =
      let at = cell_at h hd tl xs n v ys is in
      let l = subst (Linked h null null) (nodes_around v) is.linked in
      let d = subst Distinct (nodes_around v) is.distinct in
      let g : Heap A = write h n (some (node w (first tl.0 ys) (last hd.0 xs))) in
      let same : (a : Ptr) → a ≢ n → g a ≡ h a = λ a ne. ground arith in
      let gn : g n ≡ some (node w (first null (ys ++ tl ∷ [])) (last hd.0 xs)) =
        ground (arith, first-append null ys (tl ∷ [])) in
      rw (set_payload_ok h n at w) (
        finishes (
          record {
            linked =
                subst (Linked g null null) (sym (nodes_around w))
                  (Linked-relabel h g n v w null null (hd ∷ xs) (ys ++ tl ∷ []) l d gn same);
            distinct =
                subst Distinct (sym (nodes_around w))
                  (Distinct-relabel h g n v w (hd ∷ xs) (ys ++ tl ∷ []) d);
          },
          same,
        ))
