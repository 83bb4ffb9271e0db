-- ===== src/Lockfree/Queue/Effects.antt =====
-- The commands that take effect, against the list of the values.
use data_structure_benchmark.Base.{
  ℕ, ◌≡◌, refl, ◌≢◌, ◌⊎◌, Bool-cases, inl, inr, none, some, List, [], ◌∷◌, ◌++◌, arith, ap, sym,
  ◌∙◌, ◌==◌, suc, ◌+◌, ◌<◌, ◌≤◌,
}
use data_structure_benchmark.Base.Int.{ℤ, eq_int_refl}
use data_structure_benchmark.Heap.{Ptr, null}
use data_structure_benchmark.Lockfree.Queue.{
  Node, Place, System, move, Event, pushed, popped, replay, seen, idle, pop_tail, pop_next,
  pop_swing,
}
use data_structure_benchmark.Lockfree.Queue.Order.{Order, contents, owns, Edge, Knows}
use data_structure_benchmark.Lockfree.Queue.Invariant.{Inv, mine, local-Inv}
use data_structure_benchmark.Lockfree.Queue.Invariant.Changes.{items-snoc, tail-Inv, head-Inv}

-- The invariant behind commands that did `es`: the contents are what `es` gives on the list.
pub record After (τ : System) (es : List Event) (vs : List ℤ) : Type 0 where
  pub order : Order
  pub inv : Inv τ order
  pub agrees : replay es vs ≡ some (contents order)

module _ (σ : System) (o : Order) (i : ℕ) (inv : Inv σ o) where
  pub quiet : (τ : System) → Inv τ o → After τ [] (contents o)
  unfolding replay
  quiet τ inv' = record { order = o; inv = inv'; agrees = refl }

  -- the node at a position
  pub node_at :
      (j : ℕ)
      → j < o.len
      → (x : Node) → σ.queue.nodes (o.seq j) ≡ some x
      → (x.next ≡ o.seq (suc j)) × (x.value ≡ o.val j)
  node_at j l x at = (ground (arith, inv.ordered.held j l), ground (arith, inv.ordered.held j l))

  pub value_at :
      (j : ℕ) → j ≤ o.len → (x : Node) → σ.queue.nodes (o.seq j) ≡ some x → x.value ≡ o.val j
  value_at j l x at = elim (Bool-cases (j == o.len)) [
    | inl e ↦ ground (arith, inv.ordered.end)
    | inr e ↦ (node_at j (ground arith) x at).1
  ]

  -- what is read from the node at a position
  pub next_at :
      (j : ℕ)
      → j ≤ o.len
      → (x : Node) → σ.queue.nodes (o.seq j) ≡ some x
      → x.next ≢ null
      → (j < o.len) × (o.seq (suc j) ≡ x.next)
  next_at j l x at ne = elim (Bool-cases (j == o.len)) [
    | inl e ↦ absurd (ground (arith, inv.ordered.end))
    | inr e ↦ let before : j < o.len = ground arith in (before, sym (node_at j before x at).0)
  ]

  -- The tail passes the node behind it, whose value is `w`.
  pub tail-After :
      (t : Place) (last next : Ptr) (w : ℤ)
      → (e : Edge o (o.hi + o.k) last next) → o.val (suc e.0) ≡ w
      → σ.queue.tail ≡ last
      → Knows σ.queue o t
      → (owns t ≡ owns (σ.at i)) ⊎ (owns t ≡ none)
      → After
          (record { queue = record (σ.queue) { tail = next }; at = move σ.at i t })
          (pushed w ∷ [])
          (contents o)
  unfolding replay
  tail-After t last next w (j, a, b, c, d) value at k same =
      let j_is : j ≡ o.hi + o.k =
        inv.ordered.inj j (o.hi + o.k) (omega arith) inv.ordered.tail_in
          (c ∙ sym at ∙ inv.ordered.tail_is) in
      record {
        order = record o { k = suc o.k };
        inv = tail-Inv σ o i inv t last next (j, a, b, c, d) at k same;
        agrees = ap some (
            ap (λ z. contents o ++ z ∷ []) (sym value ∙ ap o.val (omega arith))
            ∙ sym (items-snoc o.val (suc o.hi) o.k));
      }

  -- The head passes the node behind it.
  pub head-After :
      (first next : Ptr) (v : ℤ)
      → σ.at i ≡ pop_swing first next v
      → σ.queue.head ≡ first
      → After
          (record { queue = record (σ.queue) { head = next }; at = move σ.at i idle })
          (popped v ∷ [])
          (contents o)
  unfolding replay
  head-After first next v e at =
      let (j, a, b, c, d, value) = mine σ o i inv (pop_swing first next v) e in
      let (m, k_is, j_is, inv') = head-Inv σ o i inv first next j a b c d at in
      record {
        order = record o { hi = suc o.hi; k = m };
        inv = inv';
        agrees = rw (k_is, sym value, j_is, eq_int_refl (o.val (suc o.hi))) refl;
      }

  -- A tail that is the head that was read means that there is nothing between them.
  pub end-After :
      (first : Ptr)
      → σ.at i ≡ pop_tail first
      → After
          (record σ { at = move σ.at i (pop_next first σ.queue.tail) })
          (seen first σ.queue.tail)
          (contents o)
  unfolding replay
  end-After first e =
      let (j, a, c) = mine σ o i inv (pop_tail first) e in
      let inv' =
        local-Inv σ o i inv (pop_next first σ.queue.tail)
          (j, o.hi + o.k, a, omega arith, omega arith, c, sym inv.ordered.tail_is) (inr refl) in
      elim (Bool-cases (first == σ.queue.tail)) [
        | inl same ↦
            let j_is : j ≡ o.hi + o.k =
              inv.ordered.inj j (o.hi + o.k) (omega (arith, inv.ordered.tail_in))
                inv.ordered.tail_in (c ∙ ground arith ∙ inv.ordered.tail_is) in
            let nothing : o.k ≡ 0 = omega arith in
            record { order = o; inv = inv'; agrees = rw (same, nothing) refl }
        | inr differ ↦ record { order = o; inv = inv'; agrees = rw differ refl }
      ]
