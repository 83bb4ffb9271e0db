-- ===== src/HtmMcas/Links/Splice.antt =====
-- The assignments come to those of the other lists.
use data_structure_benchmark.Base.{
  ◌≡◌, ◌≢◌, ap, sym, subst, fun_ext, ◌∙◌, false, some, [], ◌∷◌, ◌++◌, arith, ◌==◌, Option,
}
use data_structure_benchmark.Heap.{
  Ptr, null, Node, node, Heap, write, done, pure, ◌>>◌, load, set_next, set_prev,
}
use data_structure_benchmark.Heap.Access.{set_next_ok, set_prev_ok}
use data_structure_benchmark.Heap.Chain.{Cells, first, last, Linked, Distinct, SameOutside}
use data_structure_benchmark.Heap.Finishes.{Finishes}
use data_structure_benchmark.Heap.Splice
use data_structure_benchmark.Linked.{link_node, unlink_node}
use data_structure_benchmark.Linked.Shape.{nodes, Holds, Own, around}
use data_structure_benchmark.Linked.Link.{unlink_node_lem}
use data_structure_benchmark.HtmMcas.Links.{splice_before, detach, delete_node}

module _ {ℓ} {A : Type ℓ} (h : Heap A) where
  -- A write of what is there changes nothing.
  write_same : (p : Ptr) (c : Option (Node A)) → h p ≡ c → write h p c ≡ h
  unfolding write
  write_same p c e = fun_ext λ a. ground arith

  pub set_next_same :
      (p : Ptr) (v : A) (q b : Ptr) → h p ≡ some (node v q b) → set_next p q h ≡ done tt h
  set_next_same p v q b e = set_next_ok h p e q ∙ ap (λ z. done tt z) (write_same p _ e)

  pub set_prev_same :
      (p : Ptr) (v : A) (q b : Ptr) → h p ≡ some (node v q b) → set_prev p b h ≡ done tt h
  set_prev_same p v q b e = set_prev_ok h p e b ∙ ap (λ z. done tt z) (write_same p _ e)

  pub splice_before-link_node :
      (next new : Ptr) (x y : Node A)
      → h next ≡ some x
      → h new ≡ some y
      → next ≢ new
      → splice_before next new h ≡ (link_node new x.prev next >> pure x.prev) h
  unfolding splice_before link_node set_next set_prev load write
  splice_before-link_node next new x y at own ne = ground arith

  -- The two orders of the assignments, at a node between two neighbours.
  detach-unlink_at :
      (n : Ptr) (v : A) (zs : Cells A) (a : Ptr) (va : A) (c : Ptr) (vc : A) (us : Cells A)
      → Linked h null null (zs ++ (a, va) ∷ (n, v) ∷ (c, vc) ∷ us)
      → Distinct (zs ++ (a, va) ∷ (n, v) ∷ (c, vc) ∷ us)
      → detach n h ≡ unlink_node n h
  unfolding detach unlink_node load set_next set_prev write
  detach-unlink_at n v zs a va c vc us l s =
      let t = Splice.trio h null null zs a va n v c vc us l s in
      let g : Heap A =
        write (write h c (some (node vc (first null us) a))) a (some (node va c (last null zs))) in
      let g' : Heap A =
        write (write h a (some (node va c (last null zs)))) c (some (node vc (first null us) a)) in
      let runs : unlink_node n h ≡ done tt g =
        ground (arith, t.at_a, t.at_m, t.at_c, t.c_ne_a, t.m_ne_a, t.c_ne_m) in
      let runs' : detach n h ≡ done tt g' =
        ground (arith, t.at_a, t.at_m, t.at_c, t.c_ne_a, t.m_ne_a, t.c_ne_m) in
      let same : g' ≡ g = fun_ext λ p. ground (arith, t.c_ne_a) in
      runs' ∙ ap (λ z. done tt z) same ∙ sym runs

  -- `delete_node` takes a node of the list out, leaves it alive, and writes to no node outside what remains.
  pub delete_node_lem :
      (n : Ptr) (v : A) (hd tl : Ptr × A) (xs ys : Cells A)
      → Holds h hd tl (xs ++ (n, v) ∷ ys)
      → (n == hd.0) ≡ false
      → (n == tl.0) ≡ false
      → Finishes
          (λ _ g.
            Holds g hd tl (xs ++ ys)
            × Own g n v (nodes hd tl (xs ++ ys))
            × SameOutside (nodes hd tl (xs ++ ys)) h g)
          (delete_node hd.0 tl.0 n h)
  unfolding delete_node
  delete_node_lem n v hd tl xs ys is e f =
      let (zs, va, vc, us, eq) = around hd tl xs ys in
      let agree =
        detach-unlink_at n v zs (last hd.0 xs) va (first tl.0 ys) vc us
          (subst (Linked h null null) (eq ((n, v) ∷ [])) is.linked)
          (subst Distinct (eq ((n, v) ∷ [])) is.distinct) in
      rw (e, f, agree) (unlink_node_lem h n v hd tl xs ys is)
