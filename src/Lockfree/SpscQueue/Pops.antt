-- ===== src/Lockfree/SpscQueue/Pops.antt =====
-- The consumer's commands.
use data_structure_benchmark.Base.{
  ℕ, ◌≡◌, refl, ◌≢◌, Bool-cases, inl, inr, none, some, [], ◌∷◌, arith, ap, sym, subst, ◌∙◌, ◌==◌,
  zero, suc, ◌+◌, ◌<◌, ◌≤◌,
}
use data_structure_benchmark.Base.Int.{eq_int_refl}
use data_structure_benchmark.Heap.{Ptr}
use data_structure_benchmark.Lockfree.SpscQueue.{
  Nodes, Node, put, System, popped, found_empty, replay, Producer, Consumer, resting, load_tail,
  store_data, store_next, store_tail, waiting, test_tail, load_next, store_head, load_data,
  delete_node,
}
use data_structure_benchmark.Lockfree.SpscQueue.Order.{
  Order, len, In, Fresh, Produces, Consumes, Inv, contents, After,
}

positive : (k : ℕ) → 0 < k → (m : ℕ) × (k ≡ suc m)
positive zero l = absurd (omega arith)
positive (suc m) l = (m, refl)

-- What the producer knows does not depend on the nodes in front of the tail.
module _ (h g : Nodes) (o : Order) (b f m : ℕ) (same_len : f + m ≡ len o) (le : o.base ≤ b)
    (end_same : g (o.seq (len o)) ≡ h (o.seq (len o)))
    (fresh_same : (p : Ptr) → Fresh h o p → g p ≡ h p) where
  end_keep : (c : Node) → h (o.seq (len o)) ≡ some c → g (o.seq (f + m)) ≡ some c
  end_keep c at = ap (λ z. g (o.seq z)) same_len ∙ end_same ∙ at

  Fresh-keep : (p : Ptr) → Fresh h o p → Fresh g (record o { base = b; from = f; k = m }) p
  Fresh-keep p fresh = record {
    holds = fresh_same p fresh ∙ fresh.holds;
    out = λ i (l, r). fresh.out i (omega arith, omega arith);
  }

  Produces-keep :
      (t : Producer) → Produces h o t → Produces g (record o { base = b; from = f; k = m }) t
  Produces-keep resting k = end_keep _ k
  Produces-keep (load_tail p v) (k, fresh) = (end_keep _ k, Fresh-keep p fresh)
  Produces-keep (store_data p v old) (k, fresh, e) =
      (end_keep _ k, Fresh-keep p fresh, e ∙ ap o.seq (sym same_len))
  Produces-keep (store_next p v old) (k, fresh, e) =
      (end_keep _ k, Fresh-keep p fresh, e ∙ ap o.seq (sym same_len))
  Produces-keep (store_tail p v old) (k, fresh, e) =
      (end_keep _ k, Fresh-keep p fresh, e ∙ ap o.seq (sym same_len))

module _ (σ : System) (o : Order) (inv : Inv σ o) where
  pub consumer_at : (t : Consumer) → σ.consumer ≡ t → Consumes σ.head o t
  consumer_at t e = subst (Consumes σ.head o) e inv.consumes

  -- A command of the consumer that writes nothing.
  pub consumes-Inv :
      (hd : Ptr) (t : Consumer) → Consumes hd o t → Inv (record σ { head = hd; consumer = t }) o
  consumes-Inv hd t k = record {
    held = inv.held;
    inj = inv.inj;
    tail_is = inv.tail_is;
    produces = inv.produces;
    consumes = k;
    base_le = inv.base_le;
  }

  pub finds_empty-After :
      (old : Ptr)
      → σ.consumer ≡ test_tail old
      → old ≡ σ.tail
      → After (record σ { consumer = waiting }) (found_empty ∷ []) (contents o)
  unfolding replay
  finds_empty-After old e same =
      let (a, b, c) = consumer_at (test_tail old) e in
      let at : o.base ≡ len o =
        inv.inj o.base (len o) (omega arith, omega arith) (omega (arith, inv.base_le), omega arith)
          (sym c ∙ same ∙ inv.tail_is) in
      let nothing : o.k ≡ 0 = omega arith in
      record { order = o; inv = consumes-Inv σ.head waiting (a, b); agrees = rw nothing refl }

  pub finds_node-Inv :
      (old : Ptr)
      → σ.consumer ≡ test_tail old
      → old ≢ σ.tail
      → Inv (record σ { consumer = load_next old }) o
  finds_node-Inv old e ne =
      let (a, b, c) = consumer_at (test_tail old) e in
      consumes-Inv σ.head (load_next old) (
        a,
        b,
        c,
        elim (Bool-cases (o.k == 0)) [
          | inl z ↦ absurd (ne (c ∙ ap o.seq (ground arith) ∙ sym inv.tail_is))
          | inr p ↦ ground arith
        ],
      )

  pub loads_next-Inv :
      (old : Ptr) (x : Node)
      → σ.consumer ≡ load_next old
      → σ.nodes old ≡ some x
      → Inv (record σ { consumer = store_head old x.next }) o
  loads_next-Inv old x e at =
      let (a, b, c, d) = consumer_at (load_next old) e in
      consumes-Inv σ.head (store_head old x.next)
        (a, c, ground (arith, inv.held o.base (omega arith) (omega arith)), d)

  pub loads_data-After :
      (old : Ptr) (x : Node)
      → σ.consumer ≡ load_data old
      → σ.nodes old ≡ some x
      → After (record σ { consumer = delete_node old }) (popped x.data_ ∷ []) (contents o)
  unfolding replay
  loads_data-After old x e at =
      let (a, b, c, d) = consumer_at (load_data old) e in
      let (m, k_is) = positive o.k d in
      let data_is : x.data_ ≡ some (o.val o.base) =
        ground (arith, inv.held o.base (omega arith) (omega arith)) in
      let same_len : suc o.from + m ≡ len o = omega arith in
      record {
        order = record o { from = suc o.from; k = m };
        inv = record {
          held = λ i l r. inv.held i l (omega arith);
          inj = λ i j (l, r) (l', r'). inv.inj i j (l, omega arith) (l', omega arith);
          tail_is = inv.tail_is ∙ ap o.seq (sym same_len);
          produces =
              Produces-keep σ.nodes σ.nodes o o.base (suc o.from) m same_len (omega arith) refl
                (λ p fresh. refl) σ.producer inv.produces;
          consumes = (ap suc a, b, c);
          base_le = omega arith;
        };
        agrees = rw (data_is, k_is, a, eq_int_refl (o.val o.base)) refl;
      }

  pub deletes-Inv :
      (old : Ptr)
      → σ.consumer ≡ delete_node old
      → Inv
          (record σ { nodes = put σ.nodes old none; consumer = waiting })
          (record o { base = suc o.base })
  unfolding put
  deletes-Inv old e =
      let (a, b, c) = consumer_at (delete_node old) e in
      let base_in : In o o.base = (omega arith, omega arith) in
      let end_ne : o.seq (len o) ≢ o.seq o.base =
        λ same. ground (arith, a, inv.inj (len o) o.base (omega arith, omega arith) base_in same) in
      record {
        held = λ i l r.
            let apart : o.seq i ≢ o.seq o.base =
              λ same. ground (arith, inv.inj i o.base (omega arith, omega arith) base_in same) in
            ground (arith, inv.held i (omega arith) r, apart);
        inj = λ i j (l, r) (l', r'). inv.inj i j (omega arith, r) (omega arith, r');
        tail_is = inv.tail_is;
        produces =
            Produces-keep σ.nodes (put σ.nodes old none) o (suc o.base) o.from o.k refl
              (omega arith) (ground arith) (λ p fresh. ground (arith, fresh.out o.base base_in))
              σ.producer inv.produces;
        consumes = (a, c);
        base_le = omega arith;
      }
