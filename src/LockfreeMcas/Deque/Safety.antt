-- ===== src/LockfreeMcas/Deque/Safety.antt =====
-- What holds in every run of any number of threads on a Snark deque: the compare-and-swaps take effect
-- one after the other, and no access of theirs is to a node that was not made.
use data_structure_benchmark.Base.{ℕ, ◌≡◌, refl, some, List, [], ◌∙◌}
use data_structure_benchmark.Base.Int.{ℤ}
use data_structure_benchmark.Heap.{Ptr, Node, Heap}
use data_structure_benchmark.Heap.Chain.{Cells, values}
use data_structure_benchmark.Lockbased.Deque.Threads.{Event, replay}
use data_structure_benchmark.Lockbased.Deque.Threads.Safety.{replay-append}
use data_structure_benchmark.LockfreeMcas.Deque.{
  Deque, Place, System, Step, Run, construct, idle, push_hat, push_out, push_empty, push_first,
  push_more, pop_hat, pop_left, pop_right, pop_check, pop_try, returning, calls_push, reads_hat,
  reads_out, reads_other, pushes_first, fails_first, pushes_more, fails_more, calls_pop,
  reads_pop_hat, reads_left, reads_right, finds_empty, finds_moved, pops, fails_pop, returns, here,
  next,
}
use data_structure_benchmark.LockfreeMcas.Deque.Shape.{Shape, IsDead}
use data_structure_benchmark.LockfreeMcas.Deque.Knowledge.{Alive, Self, Knows}
use data_structure_benchmark.LockfreeMcas.Deque.Writes.{write_same, Self-kill}
use data_structure_benchmark.LockfreeMcas.Deque.Invariant.{Inv}
use data_structure_benchmark.LockfreeMcas.Deque.Invariant.Moves.{
  calls_push-Inv, reads_hat-Inv, reads_out-Inv, reads_other-Inv,
}
use data_structure_benchmark.LockfreeMcas.Deque.Invariant.Pushes.{
  After, pushes_first-After, fails_first-Inv, pushes_more-After, fails_more-Inv,
}
use data_structure_benchmark.LockfreeMcas.Deque.Invariant.Pops.{
  calls_pop-Inv, reads_pop_hat-Inv, reads_left-Inv, reads_right-Inv, finds_empty-After, retries-Inv,
  fails_pop-Inv, returns-Inv, pops-After,
}

module _ (dummy : Ptr) where
  -- a command that takes no effect on the specification
  quiet : (τ : System) (xs : Cells ℤ) → Inv dummy τ xs → After dummy τ [] xs
  unfolding replay
  quiet τ xs inv = (xs, inv, refl)

  Step-After :
      (σ : System) (xs : Cells ℤ) {es : List Event} {τ : System}
      → Inv dummy σ xs
      → Step dummy σ es τ
      → After dummy τ es xs
  Step-After σ xs inv (calls_push i s v fresh e p q) =
      quiet _ xs (calls_push-Inv dummy σ xs i inv s v fresh e p q)
  Step-After σ xs inv (reads_hat i s n v e) = quiet _ xs (reads_hat-Inv dummy σ xs i inv s n v e)
  Step-After σ xs inv (reads_out i s n v h x y e p q) =
      quiet _ xs (reads_out-Inv dummy σ xs i inv s n v h x y e p q)
  Step-After σ xs inv (reads_other i s n v h e) =
      quiet _ xs (reads_other-Inv dummy σ xs i inv s n v h e)
  Step-After σ xs inv (pushes_first i s n v h r e ok) =
      pushes_first-After dummy σ xs i inv s n v h r e ok
  Step-After σ xs inv (fails_first i s n v h r e failed) =
      quiet _ xs (fails_first-Inv dummy σ xs i inv s n v h r e failed)
  Step-After σ xs inv (pushes_more i s n v h o e ok) =
      pushes_more-After dummy σ xs i inv s n v h o e ok
  Step-After σ xs inv (fails_more i s n v h o e failed) =
      quiet _ xs (fails_more-Inv dummy σ xs i inv s n v h o e failed)
  Step-After σ xs inv (calls_pop i s e) = quiet _ xs (calls_pop-Inv dummy σ xs i inv s e)
  Step-After σ xs inv (reads_pop_hat i s e) = quiet _ xs (reads_pop_hat-Inv dummy σ xs i inv s e)
  Step-After σ xs inv (reads_left i s h x e at) =
      quiet _ xs (reads_left-Inv dummy σ xs i inv s h x e at)
  Step-After σ xs inv (reads_right i s h l x e at) =
      quiet _ xs (reads_right-Inv dummy σ xs i inv s h l x e at)
  Step-After σ xs inv (finds_empty i s h e at) = finds_empty-After dummy σ xs i inv s h e at
  Step-After σ xs inv (finds_moved i s h e ne) = quiet _ xs (retries-Inv dummy σ xs i inv s)
  Step-After σ xs inv (pops i s h l r x e at ok) = pops-After dummy σ xs i inv s h l r x e at ok
  Step-After σ xs inv (fails_pop i s h l r e failed) =
      quiet _ xs (fails_pop-Inv dummy σ xs i inv s h l r failed)
  Step-After σ xs inv (returns i s h v e) = quiet _ xs (returns-Inv dummy σ xs i inv)

  -- a new deque, and no thread in a method
  abbrev pub start : Heap ℤ → System
  start h = record { deque = construct dummy h; at = λ _. idle }

  start-Inv : (h : Heap ℤ) → Self h → Inv dummy (start h) []
  unfolding construct
  start-Inv h self =
      let dead : IsDead (construct dummy h).heap dummy = (_, write_same h dummy _) in
      record {
        shape = record {
          before = dummy;
          behind = dummy;
          linked = tt;
          distinct = tt;
          before_dead = dead;
          behind_dead = dead;
          before_out = refl;
          behind_out = refl;
          hats = (dead, dead);
        };
        dummy_dead = dead;
        self = Self-kill h dummy _ self;
        knows = λ i. tt;
        apart = λ i j n e f. cc;
      }

  Run-After :
      (h : Heap ℤ) {es : List Event} {τ : System}
      → Self h
      → Run dummy (start h) es τ
      → After dummy τ es []
  unfolding replay
  Run-After h self here = ([], start-Inv h self, refl)
  Run-After h self (next {es} {fs} {σ} run step) =
      let (ys, mid, e) = Run-After h self run in
      let (zs, end, f) = Step-After σ ys mid step in
      (zs, end, replay-append es fs [] (values ys) e ∙ f)

  -- Linearizability: start any number of threads on a new deque, in whatever order their commands run;
  -- the deque holds at every moment what the operations give on the specification when they run one
  -- after the other, each pop with its result, in the order of the successful compare-and-swaps of the
  -- pushes and the pops and of the tests that found the deque empty.
  pub snark_linearizable :
      (h : Heap ℤ) {es : List Event} {τ : System}
      → Self h
      → Run dummy (start h) es τ
      → (ys : Cells ℤ) × Shape τ.deque ys × (replay es [] ≡ some (values ys))
  snark_linearizable h self run = let (ys, inv, e) = Run-After h self run in (ys, inv.shape, e)

  -- The nodes that a thread's next command reads or writes were made, and a pop that is to return reads
  -- the value that it took.
  abbrev pub Safe : Deque → Place → Type 0
  Safe d (push_out s n v h) = Alive d n × Alive d h
  Safe d (push_more s n v h o) = Alive d h
  Safe d (pop_left s h) = Alive d h
  Safe d (pop_right s h l) = Alive d h
  Safe d (pop_try s h l r) = Alive d h
  Safe d (returning s h v) = (x : Node ℤ) × (d.heap h ≡ some x) × (x.payload ≡ v)
  Safe d _ = Unit

  Knows-Safe : (d : Deque) (xs : Cells ℤ) (p : Place) → Knows dummy d xs p → Safe d p
  Knows-Safe d xs idle k = tt
  Knows-Safe d xs (push_hat s n v) k = tt
  Knows-Safe d xs (push_out s n v h) ((q, own), alive, ne) = ((_, own.holds), alive)
  Knows-Safe d xs (push_empty s n v h) k = tt
  Knows-Safe d xs (push_first s n v h r) k = tt
  Knows-Safe d xs (push_more s n v h o) (own, alive, ne) = alive
  Knows-Safe d xs (pop_hat s) k = tt
  Knows-Safe d xs (pop_left s h) k = k
  Knows-Safe d xs (pop_right s h l) (alive, dead) = alive
  Knows-Safe d xs (pop_check s h) k = tt
  Knows-Safe d xs (pop_try s h l r) (alive, ne) = alive
  Knows-Safe d xs (returning s h v) k = k

  -- Memory safety: in every run of any number of threads from a new deque, the next command of each
  -- thread reads and writes only nodes that were made, and a pop that is about to return reads from
  -- its node the value that it took, whatever the others have done since.
  pub snark_memory-Safe :
      (h : Heap ℤ) {es : List Event} {τ : System}
      → Self h
      → Run dummy (start h) es τ
      → (i : ℕ) → Safe τ.deque (τ.at i)
  snark_memory-Safe h {τ = τ} self run i =
      let (ys, inv, e) = Run-After h self run in Knows-Safe τ.deque ys (τ.at i) (inv.knows i)
