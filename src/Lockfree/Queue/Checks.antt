-- ===== src/Lockfree/Queue/Checks.antt =====
-- The commands that only read, and move on as their tests say.
use data_structure_benchmark.Base.{
  ℕ, ◌≡◌, refl, ◌≢◌, ◌⊎◌, Bool-cases, inl, inr, none, some, [], arith, ap, sym, ◌∙◌, ◌==◌, suc, ◌+◌,
  ◌<◌, ◌≤◌, if◌then◌else◌,
}
use data_structure_benchmark.Base.Int.{ℤ, minus_one, eq_int}
use data_structure_benchmark.Heap.{Ptr, null}
use data_structure_benchmark.Lockfree.Queue.{
  Node, Place, System, move, behind_check, behind_head, behind_value, idle, push_tail, push_check,
  push_link, push_help, pop_head, pop_check, pop_value, pop_help, pop_read,
}
use data_structure_benchmark.Lockfree.Queue.Order.{Order, contents, owns, Edge, At, Knows}
use data_structure_benchmark.Lockfree.Queue.Invariant.{Inv, mine, local-Inv}
use data_structure_benchmark.Lockfree.Queue.Effects.{After, quiet, value_at, next_at}

module _ (σ : System) (o : Order) (i : ℕ) (inv : Inv σ o) where
  pub stays :
      (t : Place)
      → Knows σ.queue o t
      → (owns t ≡ owns (σ.at i)) ⊎ (owns t ≡ none)
      → After (record σ { at = move σ.at i t }) [] (contents o)
  stays t k same = quiet σ o i inv (record σ { at = move σ.at i t }) (local-Inv σ o i inv t k same)

  -- what a read of a node's `next` says
  pub reads_link :
      (p : Ptr) (m : ℕ) (x : Node)
      → m ≤ o.len
      → At o m p
      → σ.queue.nodes p ≡ some x
      → (j : ℕ) × (j ≤ m) × (o.seq j ≡ p) × (x.next ≢ null → (j < o.len) × (o.seq (suc j) ≡ x.next))
  reads_link p m x l (j, a, c) at =
      (j, a, c, next_at σ o i inv j (omega arith) x (ap (λ z. σ.queue.nodes z) c ∙ at))

  pub checks_tail-After :
      (n : Ptr) (v : ℤ) (last next : Ptr)
      → σ.at i ≡ push_check n v last next
      → After
          (record σ {
            at =
                move σ.at i
                  (if last == σ.queue.tail then behind_check n v last next else push_tail n v);
          })
          []
          (contents o)
  checks_tail-After n v last next e =
      let (own, (j, a, c, d)) = mine σ o i inv (push_check n v last next) e in
      let mine_is = sym (ap owns e) in
      elim (Bool-cases (last == σ.queue.tail)) [
        | inl same ↦ rw same (elim (Bool-cases (next == null)) [
          | inl z ↦ rw z (stays (push_link n v last) (own, (j, a, c)) (inl mine_is))
          | inr z ↦
              let (l, s) = d (λ bad. ground arith) in
              rw z (stays (push_help n v last next) (own, (j, a, l, c, s)) (inl mine_is))
        ])
        | inr differ ↦ rw differ (stays (push_tail n v) own (inl mine_is))
      ]

  pub checks_head-After :
      (first last next : Ptr)
      → σ.at i ≡ pop_check first last next
      → After
          (record σ {
            at =
                move σ.at i
                  (if first == σ.queue.head then behind_head first last next else pop_head);
          })
          []
          (contents o)
  checks_head-After first last next e =
      let (j, m, a, b, c, d, f, g, h) = mine σ o i inv (pop_check first last next) e in
      elim (Bool-cases (first == σ.queue.head)) [
        | inr differ ↦ rw differ (stays pop_head tt (inr refl))
        | inl same ↦ rw same (elim (Bool-cases (first == last)) [
          | inl eq ↦ rw eq (elim (Bool-cases (next == null)) [
            | inl z ↦ rw z (stays idle tt (inr refl))
            | inr z ↦
                let (l, s) = g (λ bad. ground arith) in
                rw z
                  (stays (pop_value last next) (j, omega arith, l, d ∙ ground arith, s) (inr refl))
          ])
          | inr ne ↦
              let apart : j ≢ m = λ bad. ground (arith, bad) in
              let before : j < m = omega arith in
              let (l, s) = g (h before) in
              rw ne (stays (pop_read first next) (j, a, omega arith, d, s) (inr refl))
        ])
      ]

  pub checks_value-After :
      (last next : Ptr) (x : Node)
      → σ.at i ≡ pop_value last next
      → After (record σ { at = move σ.at i (behind_value last next x.value) }) [] (contents o)
  checks_value-After last next x e =
      let k = mine σ o i inv (pop_value last next) e in
      elim (Bool-cases (eq_int x.value minus_one)) [
        | inl same ↦ rw same (stays idle tt (inr refl))
        | inr differ ↦ rw differ (stays (pop_help last next) k (inr refl))
      ]

  -- the value of the node that the tail is to pass
  pub Edge-value :
      (last next : Ptr) (x : Node)
      → (e : Edge o (o.hi + o.k) last next) → σ.queue.nodes next ≡ some x
      → o.val (suc e.0) ≡ x.value
  Edge-value last next x (j, a, b, c, d) at =
      sym (value_at σ o i inv (suc j) (omega arith) x (ap (λ z. σ.queue.nodes z) d ∙ at))
