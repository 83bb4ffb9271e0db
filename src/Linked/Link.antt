-- ===== src/Linked/Link.antt =====
-- A node enters the list at a place, or leaves it.
use mathlib.Core.List.{append_assoc}
use data_structure_benchmark.Base.{◌≡◌, ap, ◌≢◌, some, [], ◌∷◌, ◌++◌, arith, subst, sym}
use data_structure_benchmark.Heap.{Ptr, node, null, Heap, write, done, load, set_next, set_prev}
use data_structure_benchmark.Heap.Chain.{
  Cells, first, last, Linked, Distinct, SameOutside, has-append, Distinct-middle,
}
use data_structure_benchmark.Heap.Finishes
use data_structure_benchmark.Heap.Finishes.{Finishes, finishes}
use data_structure_benchmark.Heap.Splice
use data_structure_benchmark.Linked.{link_node, unlink_node}
use data_structure_benchmark.Linked.Shape.{nodes, Holds, Own, around}

module _ {ℓ} {A : Type ℓ} (h : Heap A) (n : Ptr) (v : A) where
  abbrev Changed : Cells A → Heap A → Type ℓ
  Changed after g = Linked g null null after × Distinct after × SameOutside after h g

  link_at :
      (zs : Cells A) (a : Ptr) (va : A) (c : Ptr) (vc : A) (us : Cells A)
      → Linked h null null (zs ++ (a, va) ∷ (c, vc) ∷ us)
      → Distinct (zs ++ (a, va) ∷ (c, vc) ∷ us)
      → Own h n v (zs ++ (a, va) ∷ (c, vc) ∷ us)
      → Finishes (λ _. Changed (zs ++ (a, va) ∷ (n, v) ∷ (c, vc) ∷ us)) (link_node n a c h)
  unfolding link_node load set_next set_prev write
  link_at zs a va c vc us l s own =
      let at = Splice.neighbours h null null zs a va c vc us l s in
      let (x, y, hn) = own.holds in
      let out = has-append n zs ((a, va) ∷ (c, vc) ∷ us) in
      let g : Heap A =
        write
          (write (write (write h n (some (node v c y))) n (some (node v c a))) a
            (some (node va n (last null zs))))
          c (some (node vc (first null us) n)) in
      let runs : link_node n a c h ≡ done tt g =
        ground (arith, at.at_a, at.at_c, at.ne, own.out, out) in
      let (l', s') =
        Splice.insert h null null zs a va c vc us g n v l s own.ne_null own.out
          (λ p q r t. ground arith) (ground (arith, own.out, out)) (ground (arith, at.ne))
          (ground arith) in
      rw runs (
        finishes (l', s', λ p o. ground (arith, has-append p zs ((a, va) ∷ (n, v) ∷ (c, vc) ∷ us))))

  -- At any place of the list, `link_node` puts the caller's node in, and writes to no node outside.
  pub link_node_lem :
      (hd tl : Ptr × A) (xs ys : Cells A)
      → Holds h hd tl (xs ++ ys)
      → Own h n v (nodes hd tl (xs ++ ys))
      → Finishes
          (λ _ g.
            Holds g hd tl (xs ++ (n, v) ∷ ys) × SameOutside (nodes hd tl (xs ++ (n, v) ∷ ys)) h g)
          (link_node n (last hd.0 xs) (first tl.0 ys) h)
  link_node_lem hd tl xs ys is own =
      let (zs, va, vc, us, eq) = around hd tl xs ys in
      Finishes.weaken
        (link_at zs (last hd.0 xs) va (first tl.0 ys) vc us
          (subst (Linked h null null) (eq []) is.linked) (subst Distinct (eq []) is.distinct)
          (subst (Own h n v) (eq []) own))
        λ _ g p.
          let (l, s, o) = subst (λ z. Changed z g) (sym (eq ((n, v) ∷ []))) p in
          (record { linked = l; distinct = s }, o)

  unlink_at :
      (zs : Cells A) (a : Ptr) (va : A) (c : Ptr) (vc : A) (us : Cells A)
      → Linked h null null (zs ++ (a, va) ∷ (n, v) ∷ (c, vc) ∷ us)
      → Distinct (zs ++ (a, va) ∷ (n, v) ∷ (c, vc) ∷ us)
      → n ≢ null
      → Finishes
          (λ _ g.
            Changed (zs ++ (a, va) ∷ (c, vc) ∷ us) g × Own g n v (zs ++ (a, va) ∷ (c, vc) ∷ us))
          (unlink_node n h)
  unfolding unlink_node load set_next set_prev write
  unlink_at zs a va c vc us l s nn =
      let t = Splice.trio h null null zs a va n v c vc us l s in
      let g : Heap A =
        write (write h c (some (node vc (first null us) a))) a (some (node va c (last null zs))) in
      let runs : unlink_node n h ≡ done tt g =
        ground (arith, t.at_a, t.at_m, t.at_c, t.c_ne_a, t.m_ne_a, t.c_ne_m) in
      let l' =
        Splice.remove h null null zs a va n v c vc us g l s (λ p q r t. ground arith) (ground arith)
          (ground (arith, t.c_ne_a)) in
      let own : Own g n v (zs ++ (a, va) ∷ (c, vc) ∷ us) = record {
        holds = (c, a, ground (arith, t.at_m, t.m_ne_a, t.c_ne_m));
        ne_null = nn;
        out = t.m_gone;
      } in
      let same : SameOutside (zs ++ (a, va) ∷ (c, vc) ∷ us) h g =
        λ p o. ground (arith, has-append p zs ((a, va) ∷ (c, vc) ∷ us)) in
      rw runs (finishes ((l', t.apart, same), own))

  -- `unlink_node` takes a node of the list out, leaves it alive, and writes to no node outside what
  -- remains.
  pub unlink_node_lem :
      (hd tl : Ptr × A) (xs ys : Cells A)
      → Holds h hd tl (xs ++ (n, v) ∷ ys)
      → Finishes
          (λ _ g.
            Holds g hd tl (xs ++ ys)
            × Own g n v (nodes hd tl (xs ++ ys))
            × SameOutside (nodes hd tl (xs ++ ys)) h g)
          (unlink_node n h)
  unlink_node_lem hd tl xs ys is =
      let (zs, va, vc, us, eq) = around hd tl xs ys in
      let mid =
        Distinct-middle (hd ∷ xs) n v (ys ++ tl ∷ []) (
          subst Distinct (ap (λ z. hd ∷ z) (append_assoc xs ((n, v) ∷ ys) (tl ∷ [])))
            is.distinct) in
      Finishes.weaken
        (unlink_at zs (last hd.0 xs) va (first tl.0 ys) vc us
          (subst (Linked h null null) (eq ((n, v) ∷ [])) is.linked)
          (subst Distinct (eq ((n, v) ∷ [])) is.distinct) mid.ne_null)
        λ _ g p.
          let (changed, own) = subst (λ z. Changed z g × Own g n v z) (sym (eq [])) p in
          (record { linked = changed.0; distinct = changed.1 }, own, changed.2)
