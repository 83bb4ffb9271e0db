-- ===== src/Lockfree/SpscQueue/Pushes.antt =====
-- The producer's commands.
use data_structure_benchmark.Base.{
  ℕ, ◌≡◌, ◌≢◌, Bool-cases, inl, inr, none, some, [], ◌∷◌, arith, ap, sym, subst, ◌∙◌, ◌==◌, suc,
  ◌<◌, if◌then◌else◌,
}
use data_structure_benchmark.Base.Int.{ℤ}
use data_structure_benchmark.Heap.{Ptr, null}
use data_structure_benchmark.Lockfree.Queue.Invariant.Changes.{items-snoc, items-same}
use data_structure_benchmark.Lockfree.SpscQueue.{
  Nodes, Node, node, put, System, pushed, replay, Producer, Consumer, resting, load_tail,
  store_data, store_tail, waiting, test_tail, load_next, store_head, load_data, delete_node,
}
use data_structure_benchmark.Lockfree.SpscQueue.Order.{
  Order, len, In, Fresh, Produces, Consumes, Inv, contents, After,
}

-- the order with one more node
abbrev pub extended : Order → Ptr → ℤ → Order
extended o p v = record {
  seq = λ i. if i == suc (len o) then p else o.seq i;
  val = λ i. if i == len o then v else o.val i;
  base = o.base;
  from = o.from;
  k = suc o.k;
}

Consumes-extended :
    (head : Ptr) (o : Order) (p : Ptr) (v : ℤ) (c : Consumer)
    → Consumes head o c
    → Consumes head (extended o p v) c
Consumes-extended head o p v waiting (a, b) = (a, ground arith)
Consumes-extended head o p v (test_tail old) (a, b, c) = (a, ground arith, ground arith)
Consumes-extended head o p v (load_next old) (a, b, c, d) =
    (a, ground arith, ground arith, omega arith)
Consumes-extended head o p v (store_head old new) (a, b, c, d) =
    (a, ground arith, ground arith, omega arith)
Consumes-extended head o p v (load_data old) (a, b, c, d) =
    (a, ground arith, ground arith, omega arith)
Consumes-extended head o p v (delete_node old) (a, b, c) = (a, ground arith, ground arith)

module _ (σ : System) (o : Order) (inv : Inv σ o) where
  pub producer_at : (t : Producer) → σ.producer ≡ t → Produces σ.nodes o t
  producer_at t e = subst (Produces σ.nodes o) e inv.produces

  -- what a made node is not
  made_out :
      (p : Ptr) (i : ℕ)
      → σ.nodes p ≡ none
      → σ.nodes (o.seq (len o)) ≡ some (node none null)
      → In o i
      → o.seq i ≢ p
  made_out p i free at_end (l, r) e = elim (Bool-cases (i == len o)) [
    | inl same ↦ ground arith
    | inr differ ↦ ground (arith, inv.held i l (ground arith))
  ]

  pub calls_push-Inv :
      (v : ℤ) (p : Ptr)
      → σ.producer ≡ resting
      → σ.nodes p ≡ none
      → Inv (record σ { nodes = put σ.nodes p (some (node none null)); producer = load_tail p v }) o
  unfolding put
  calls_push-Inv v p e free =
      let at_end = producer_at resting e in
      let out : (i : ℕ) → In o i → o.seq i ≢ p = λ i. made_out p i free at_end in
      record {
        held = λ i l r. ground (arith, inv.held i l r, out i (l, omega arith));
        inj = inv.inj;
        tail_is = inv.tail_is;
        produces = (
          ground (arith, at_end, out (len o) (omega (arith, inv.base_le), omega arith)),
          record { holds = ground arith; out = out },
        );
        consumes = inv.consumes;
        base_le = inv.base_le;
      }

  pub loads_tail-Inv :
      (p : Ptr) (v : ℤ)
      → σ.producer ≡ load_tail p v
      → Inv (record σ { producer = store_data p v σ.tail }) o
  loads_tail-Inv p v e =
      let (at_end, fresh) = producer_at (load_tail p v) e in
      record {
        held = inv.held;
        inj = inv.inj;
        tail_is = inv.tail_is;
        produces = (at_end, fresh, inv.tail_is);
        consumes = inv.consumes;
        base_le = inv.base_le;
      }

  -- The producer writes to the tail.
  pub writes_tail-Inv :
      (p old : Ptr) (c : Node) (t : Producer)
      → Fresh σ.nodes o p
      → old ≡ o.seq (len o)
      → ((h : Nodes) → h (o.seq (len o)) ≡ some c → Fresh h o p → Produces h o t)
      → Inv (record σ { nodes = put σ.nodes old (some c); producer = t }) o
  unfolding put
  writes_tail-Inv p old c t fresh e k = record {
    held = λ i l r.
        let apart : o.seq i ≢ o.seq (len o) = λ same. ground (
          arith,
          inv.inj i (len o) (l, omega arith) (omega (arith, inv.base_le), omega arith) same,
        ) in
        ground (arith, inv.held i l r, apart);
    inj = inv.inj;
    tail_is = inv.tail_is;
    produces = k (put σ.nodes old (some c)) (ground arith) (record {
      holds =
          ground (arith, fresh.holds, fresh.out (len o) (omega (arith, inv.base_le), omega arith));
      out = fresh.out;
    });
    consumes = inv.consumes;
    base_le = inv.base_le;
  }

  pub stores_tail-After :
      (p : Ptr) (v : ℤ) (old : Ptr)
      → σ.producer ≡ store_tail p v old
      → After (record σ { tail = p; producer = resting }) (pushed v ∷ []) (contents o)
  unfolding replay
  stores_tail-After p v old e =
      let (at_end, fresh, old_is) = producer_at (store_tail p v old) e in
      let n = extended o p v in
      record {
        order = n;
        inv = record {
          held = λ i l r. elim (Bool-cases (i == len o)) [
            | inl same ↦ ground arith
            | inr differ ↦
                let before : i < len o = ground arith in ground (arith, inv.held i l before)
          ];
          inj = λ i j a b s. ground (arith, inv.inj i j, fresh.out i, fresh.out j);
          tail_is = ground arith;
          produces = ground (arith, fresh.holds);
          consumes = Consumes-extended σ.head o p v σ.consumer inv.consumes;
          base_le = inv.base_le;
        };
        agrees = ap some (
            sym (
              items-snoc n.val o.from o.k
              ∙ ground (arith, items-same n.val o.val o.from o.k (λ j l. ground arith))));
      }
