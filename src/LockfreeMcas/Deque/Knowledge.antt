-- ===== src/LockfreeMcas/Deque/Knowledge.antt =====
-- What a thread knows of the deque at each place, and that the other threads leave it true.
use data_structure_benchmark.Base.{◌≡◌, refl, ◌≢◌, false, Option, none, some, arith, subst, ◌∙◌}
use data_structure_benchmark.Base.Int.{ℤ}
use data_structure_benchmark.Heap.{Ptr, Node, Heap}
use data_structure_benchmark.Heap.Chain.{Cells, has}
use data_structure_benchmark.Lockbased.Deque.Spec.{Side}
use data_structure_benchmark.LockfreeMcas.Deque.{
  Deque, link, pick, Place, idle, push_hat, push_out, push_empty, push_first, push_more, pop_hat,
  pop_left, pop_right, pop_check, pop_try, returning,
}
use data_structure_benchmark.LockfreeMcas.Deque.Shape.{IsDead}
use data_structure_benchmark.LockfreeMcas.Deque.Push.{Ready}

-- a node that was made
abbrev pub Alive : Deque → Ptr → Type 0
Alive d p = (x : Node ℤ) × (d.heap p ≡ some x)

-- the node that a thread has to itself
abbrev pub owns : Place → Option Ptr
owns (push_hat s n v) = some n
owns (push_out s n v h) = some n
owns (push_empty s n v h) = some n
owns (push_first s n v h r) = some n
owns (push_more s n v h o) = some n
owns _ = none

-- From `h` to `g` no node goes, no payload changes and no dead node revives.
pub record Extends (h g : Heap ℤ) : Type 0 where
  pub alive :
      (p : Ptr) (x : Node ℤ)
      → h p ≡ some x
      → (y : Node ℤ) × (g p ≡ some y) × (y.payload ≡ x.payload)
  pub dead : (p : Ptr) → IsDead h p → IsDead g p

-- A node that points to itself on one side is dead.
abbrev pub Self : Heap ℤ → Type 0
Self h = (s : Side) (p : Ptr) (x : Node ℤ) → h p ≡ some x → link s x ≡ p → IsDead h p

module _ (dummy : Ptr) where
  abbrev pub Knows : Deque → Cells ℤ → Place → Type 0
  Knows d xs idle = Unit
  Knows d xs (push_hat s n v) = (q : Ptr) × Ready dummy d xs s n v q
  Knows d xs (push_out s n v h) = ((q : Ptr) × Ready dummy d xs s n v q) × Alive d h × (h ≢ n)
  Knows d xs (push_empty s n v h) = Ready dummy d xs s n v dummy × IsDead d.heap h
  Knows d xs (push_first s n v h r) = Ready dummy d xs s n v dummy × IsDead d.heap h
  Knows d xs (push_more s n v h o) = Ready dummy d xs s n v h × Alive d h × (o ≢ h)
  Knows d xs (pop_hat s) = Unit
  Knows d xs (pop_left s h) = Alive d h
  Knows d xs (pop_right s h l) = Alive d h × (l ≡ h → IsDead d.heap h)
  Knows d xs (pop_check s h) = IsDead d.heap h
  Knows d xs (pop_try s h l r) = Alive d h × (pick s l r ≢ h)
  Knows d xs (returning s h v) = (x : Node ℤ) × (d.heap h ≡ some x) × (x.payload ≡ v)

  Ready-keep :
      (d g : Deque) (xs ys : Cells ℤ) (s : Side) (n : Ptr) (v : ℤ) (q : Ptr)
      → Ready dummy d xs s n v q
      → g.heap n ≡ d.heap n
      → has n ys ≡ false
      → Ready dummy g ys s n v q
  Ready-keep d g xs ys s n v q own same out = record {
    holds = same ∙ own.holds;
    ne_null = own.ne_null;
    ne_dummy = own.ne_dummy;
    out = out;
  }

  Alive-keep : (d g : Deque) (p : Ptr) → Extends d.heap g.heap → Alive d p → Alive g p
  Alive-keep d g p ext (x, at) = let y = ext.alive p x at in (y.0, y.1)

  -- What another thread knows stays true, if its own node is left alone.
  pub Knows-keep :
      (d g : Deque) (xs ys : Cells ℤ) (p : Place)
      → Extends d.heap g.heap
      → ((n : Ptr) → owns p ≡ some n → (g.heap n ≡ d.heap n) × (has n ys ≡ false))
      → Knows d xs p
      → Knows g ys p
  Knows-keep d g xs ys idle ext own k = tt
  Knows-keep d g xs ys (push_hat s n v) ext own (q, k) =
      let o = own n refl in (q, Ready-keep d g xs ys s n v q k o.0 o.1)
  Knows-keep d g xs ys (push_out s n v h) ext own ((q, k), a, ne) =
      let o = own n refl in
      ((q, Ready-keep d g xs ys s n v q k o.0 o.1), Alive-keep d g h ext a, ne)
  Knows-keep d g xs ys (push_empty s n v h) ext own (k, a) =
      let o = own n refl in (Ready-keep d g xs ys s n v dummy k o.0 o.1, ext.dead h a)
  Knows-keep d g xs ys (push_first s n v h r) ext own (k, a) =
      let o = own n refl in (Ready-keep d g xs ys s n v dummy k o.0 o.1, ext.dead h a)
  Knows-keep d g xs ys (push_more s n v h q) ext own (k, a, ne) =
      let o = own n refl in (Ready-keep d g xs ys s n v h k o.0 o.1, Alive-keep d g h ext a, ne)
  Knows-keep d g xs ys (pop_hat s) ext own k = tt
  Knows-keep d g xs ys (pop_left s h) ext own k = Alive-keep d g h ext k
  Knows-keep d g xs ys (pop_right s h l) ext own (a, dead) =
      (Alive-keep d g h ext a, λ e. ext.dead h (dead e))
  Knows-keep d g xs ys (pop_check s h) ext own k = ext.dead h k
  Knows-keep d g xs ys (pop_try s h l r) ext own (a, ne) = (Alive-keep d g h ext a, ne)
  Knows-keep d g xs ys (returning s h v) ext own (x, at, e) =
      let y = ext.alive h x at in (y.0, y.1, y.2 ∙ e)

  -- the node that a thread owns, as it knows it
  pub Knows-owned :
      (d : Deque) (xs : Cells ℤ) (p : Place) (n : Ptr)
      → Knows d xs p
      → owns p ≡ some n
      → (s : Side) × (v : ℤ) × (q : Ptr) × Ready dummy d xs s n v q
  Knows-owned d xs idle n k e = cc
  Knows-owned d xs (push_hat s m v) n (q, k) e =
      (s, v, q, subst (λ z. Ready dummy d xs s z v q) (ground arith) k)
  Knows-owned d xs (push_out s m v h) n ((q, k), _, _) e =
      (s, v, q, subst (λ z. Ready dummy d xs s z v q) (ground arith) k)
  Knows-owned d xs (push_empty s m v h) n (k, _) e =
      (s, v, dummy, subst (λ z. Ready dummy d xs s z v dummy) (ground arith) k)
  Knows-owned d xs (push_first s m v h r) n (k, _) e =
      (s, v, dummy, subst (λ z. Ready dummy d xs s z v dummy) (ground arith) k)
  Knows-owned d xs (push_more s m v h o) n (k, _, _) e =
      (s, v, h, subst (λ z. Ready dummy d xs s z v h) (ground arith) k)
  Knows-owned d xs (pop_hat s) n k e = cc
  Knows-owned d xs (pop_left s h) n k e = cc
  Knows-owned d xs (pop_right s h l) n k e = cc
  Knows-owned d xs (pop_check s h) n k e = cc
  Knows-owned d xs (pop_try s h l r) n k e = cc
  Knows-owned d xs (returning s h v) n k e = cc
