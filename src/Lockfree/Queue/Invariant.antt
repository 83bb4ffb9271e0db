-- ===== src/Lockfree/Queue/Invariant.antt =====
-- What holds between any two commands of the threads.
pub mod Changes
use data_structure_benchmark.Base.{
  ℕ, ◌≡◌, refl, ◌≢◌, ◌⊎◌, Bool-cases, inl, inr, none, some, List, [], ◌∷◌, ◌++◌, arith, ap, sym,
  subst, ◌∙◌, ◌==◌, zero, suc, ◌+◌, ◌<◌, ◌≤◌,
}
use data_structure_benchmark.Base.Int.{ℤ}
use data_structure_benchmark.Heap.{Ptr, null}
use data_structure_benchmark.Lockfree.Queue.{Nodes, Node, node, Queue, Place, System, move}
use data_structure_benchmark.Lockfree.Queue.Order.{
  Order, Ordered, owns, Own, Knows, Grows, Knows-keep, Knows-Own,
}

-- The queue is in the order `o`; each thread knows what its place says; no node belongs to two threads.
pub record Inv (σ : System) (o : Order) : Type 0 where
  pub ordered : Ordered σ.queue o
  pub knows : (i : ℕ) → Knows σ.queue o (σ.at i)
  pub apart : (i j : ℕ) (n : Ptr) → owns (σ.at i) ≡ some n → owns (σ.at j) ≡ some n → i ≡ j

module _ (σ : System) (o : Order) (i : ℕ) (inv : Inv σ o) where
  pub mine : (t : Place) → σ.at i ≡ t → Knows σ.queue o t
  mine t e = subst (Knows σ.queue o) e (inv.knows i)

  -- Thread `i` moves to `t`, the queue to `r` and the order to `p`.
  pub move-Inv :
      (t : Place) (r : Queue) (p : Order)
      → Ordered r p
      → Grows o p
      → Knows r p t
      → ((j : ℕ) (n : Ptr)
          → j ≢ i
          → owns (σ.at j) ≡ some n
          → (r.nodes n ≡ σ.queue.nodes n) × ((k : ℕ) → k ≤ p.len → p.seq k ≢ n) × (owns t ≢ some n))
      → Inv (record { queue = r; at = move σ.at i t }) p
  move-Inv t r p ordered grows k others = record {
    ordered = ordered;
    knows = λ j. elim (Bool-cases (i == j)) [
      | inl e ↦ rw e k
      | inr e ↦ rw e (
          Knows-keep σ.queue o p inv.ordered grows r (σ.at j)
            (λ n w. let t = others j n (ground arith) w in (t.0, t.1)) (inv.knows j))
    ];
    apart = λ j k n e f. ground (arith, others j n, others k n, inv.apart j k n);
  }

  pub other-Own : (j : ℕ) (n : Ptr) → owns (σ.at j) ≡ some n → (v : ℤ) × Own σ.queue o n v
  other-Own j n = Knows-Own σ.queue o (σ.at j) n (inv.knows j)

  -- A command that leaves the nodes alone and may move the head and the tail on.
  pub advance-Inv :
      (t : Place) (hd tl : Ptr) (a b : ℕ)
      → Ordered (record (σ.queue) { head = hd; tail = tl }) (record o { hi = a; k = b })
      → o.hi ≤ a
      → o.hi + o.k ≤ a + b
      → Knows σ.queue o t
      → (owns t ≡ owns (σ.at i)) ⊎ (owns t ≡ none)
      → Inv
          (record { queue = record (σ.queue) { head = hd; tail = tl }; at = move σ.at i t })
          (record o { hi = a; k = b })
  advance-Inv t hd tl a b ordered le le' k same =
      let p : Order = record o { hi = a; k = b } in
      let grows : Grows o p = record {
        len = omega arith;
        hi = le;
        tail = le';
        seq = λ j c. refl;
        val = λ j c. refl;
      } in
      move-Inv t (record (σ.queue) { head = hd; tail = tl }) p ordered grows
        (Knows-keep σ.queue o p inv.ordered grows (record (σ.queue) { head = hd; tail = tl }) t
          (λ n w. let (v, own) = Knows-Own σ.queue o t n k w in (refl, own.out)) k)
        λ j n ne e.
          let (v, own) = other-Own j n e in
          (refl, own.out, λ bad. ne (inv.apart j i n e (ground (arith, same))))

  -- A command that leaves the queue alone.
  pub local-Inv :
      (t : Place)
      → Knows σ.queue o t
      → (owns t ≡ owns (σ.at i)) ⊎ (owns t ≡ none)
      → Inv (record σ { at = move σ.at i t }) o
  local-Inv t k same =
      advance-Inv t σ.queue.head σ.queue.tail o.hi o.k inv.ordered (omega arith) (omega arith) k
        same
