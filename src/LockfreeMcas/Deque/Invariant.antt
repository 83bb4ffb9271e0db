-- ===== src/LockfreeMcas/Deque/Invariant.antt =====
-- What holds between any two commands of the threads.
pub mod Moves
pub mod Pushes
pub mod Pops
use data_structure_benchmark.Base.{
  ℕ, ◌≡◌, refl, ◌≢◌, ◌⊎◌, Bool-cases, inl, inr, true, false, none, some, [], ◌∷◌, arith, ◌==◌, sym,
  subst, ap, ◌∙◌,
}
use data_structure_benchmark.Base.Int.{ℤ}
use data_structure_benchmark.Heap.{Ptr, Node, null, node, Heap, write}
use data_structure_benchmark.Heap.Chain.{Cells, has}
use data_structure_benchmark.Lockbased.Deque.Spec.{Side}
use data_structure_benchmark.LockfreeMcas.Deque.{Deque, Place, System, move}
use data_structure_benchmark.LockfreeMcas.Deque.Shape.{IsDead, Shape}
use data_structure_benchmark.LockfreeMcas.Deque.Push.{Ready, dead-ne-Ready}
use data_structure_benchmark.LockfreeMcas.Deque.Knowledge.{
  owns, Extends, Self, Knows, Knows-keep, Knows-owned,
}

module _ (dummy : Ptr) where
  -- The deque holds `xs`; each thread knows what its place says; no node belongs to two threads.
  pub record Inv (σ : System) (xs : Cells ℤ) : Type 0 where
    pub shape : Shape σ.deque xs
    pub dummy_dead : IsDead σ.deque.heap dummy
    pub self : Self σ.deque.heap
    pub knows : (i : ℕ) → Knows dummy σ.deque xs (σ.at i)
    pub apart : (i j : ℕ) (n : Ptr) → owns (σ.at i) ≡ some n → owns (σ.at j) ≡ some n → i ≡ j

  pub Extends-refl : (h : Heap ℤ) → Extends h h
  Extends-refl h = record { alive = λ p x at. (x, at, refl); dead = λ p d. d }

  module _ (σ : System) (xs : Cells ℤ) (i : ℕ) (inv : Inv σ xs) where
    -- Thread `i` moves to `q`, the deque to `g` and the cells to `ys`.
    pub move-Inv :
        (q : Place) (g : Deque) (ys : Cells ℤ)
        → Shape g ys
        → Self g.heap
        → Extends σ.deque.heap g.heap
        → Knows dummy g ys q
        → ((j : ℕ) (p : Ptr)
            → j ≢ i
            → owns (σ.at j) ≡ some p
            → (g.heap p ≡ σ.deque.heap p) × (has p ys ≡ false) × (owns q ≢ some p))
        → Inv (record { deque = g; at = move σ.at i q }) ys
    move-Inv q g ys shape self ext k others = record {
      shape = shape;
      dummy_dead = ext.dead dummy inv.dummy_dead;
      self = self;
      knows = λ j. elim (Bool-cases (i == j)) [
        | inl e ↦ rw e k
        | inr e ↦ rw e (
            Knows-keep dummy σ.deque g xs ys (σ.at j) ext
              (λ p w. let t = others j p (ground arith) w in (t.0, t.1)) (inv.knows j))
      ];
      apart = λ j k p e f. ground (arith, others j p, others k p, inv.apart j k p);
    }

    -- the node of another thread
    pub other_own :
        (j : ℕ) (p : Ptr)
        → owns (σ.at j) ≡ some p
        → (s : Side) × (v : ℤ) × (q : Ptr) × Ready dummy σ.deque xs s p v q
    other_own j p = Knows-owned dummy σ.deque xs (σ.at j) p (inv.knows j)

    -- Another thread's node is not the node of this one.
    pub not_mine :
        (j : ℕ) (p n : Ptr) → j ≢ i → owns (σ.at j) ≡ some p → owns (σ.at i) ≡ some n → p ≢ n
    not_mine j p n ne e f eq = ne (inv.apart j i p e (f ∙ ap some (sym eq)))

    -- A command that leaves the deque alone.
    pub local-Inv :
        (q : Place)
        → Knows dummy σ.deque xs q
        → (owns q ≡ owns (σ.at i)) ⊎ (owns q ≡ none)
        → Inv (record σ { at = move σ.at i q }) xs
    local-Inv q k same =
        move-Inv q σ.deque xs inv.shape inv.self (Extends-refl σ.deque.heap) k λ j p ne e.
          let (s, v, w, own) = other_own j p e in
          (refl, own.out, λ bad. ne (inv.apart j i p e (ground (arith, same))))

    -- The node that thread `i` owns is none of the dead.
    pub not_dead : (n : Ptr) → owns (σ.at i) ≡ some n → (p : Ptr) → IsDead σ.deque.heap p → p ≢ n
    not_dead n e p dead eq =
        let (s, v, q, own) = other_own i n e in dead-ne-Ready dummy s σ.deque xs n v q p own dead eq
