-- ===== src/Lockbased/Deque/Threads/Safety.antt =====
-- What holds in every run of the threads: their operations take effect one after the other at the
-- mutex, and no access of theirs is a fault.
use data_structure_benchmark.Base.{
  ℕ, ◌≡◌, refl, sym, ap, ◌∙◌, Option, none, some, List, [], ◌∷◌, ◌++◌, arith, subst,
}
use data_structure_benchmark.Base.Int.{ℤ, eq_int_refl}
use data_structure_benchmark.Heap.{Ptr, Heap, done}
use data_structure_benchmark.Heap.Access.{delete_ok}
use data_structure_benchmark.Heap.Chain.{Cells, values}
use data_structure_benchmark.Heap.Finishes
use data_structure_benchmark.Heap.Finishes.{Finishes, finishes}
use data_structure_benchmark.Lockbased.Deque.{Deque, make_node, dispose}
use data_structure_benchmark.Lockbased.Deque.Shape.{IsDeque}
use data_structure_benchmark.Lockbased.Deque.Spec.{Side, put, take}
use data_structure_benchmark.Lockbased.Deque.Contents.{
  push_locked, pop_locked, put_cell, values-put_cell, push_locked_lem, pop_locked_lem,
}
use data_structure_benchmark.Lockbased.Deque.Operations.{made, make_node_lem}
use data_structure_benchmark.Lockbased.Deque.Threads.{
  Pc, idle, holding, retiring, System, Event, pushed, popped, update, Step, make, push, pop, retire,
  Trace, here, next, replay,
}
use data_structure_benchmark.Lockbased.Deque.Threads.Invariant.{
  Owned, Inv, make-Inv, push-Inv, pop-Inv, retire-Inv,
}

-- the cells after a run of `es` from the cells `xs`
abbrev pub After : Deque → System → List Event → Cells ℤ → Type 0
After d τ es xs = (ys : Cells ℤ) × Inv d τ ys × (replay es (values xs) ≡ some (values ys))

Step-Inv :
    (d : Deque) (σ : System) (xs : Cells ℤ) {es : List Event} {τ : System}
    → Inv d σ xs
    → Step d σ es τ
    → After d τ es xs
unfolding replay
Step-Inv d σ xs inv (make i s v fresh {g} at p q ran) =
    let e : made σ.heap v fresh ≡ g = cc (make_node_lem σ.heap v fresh) in
    (
      xs,
      subst (λ h. Inv d (record { heap = h; pc = update σ.pc i (holding s fresh v) }) xs) e
          (make-Inv d σ xs inv i s v fresh p q),
      refl,
    )
Step-Inv d σ xs inv (push i s n v at ran) = (
  put_cell s (n, v) xs,
  push-Inv d σ xs inv i s n v at ran,
  ap some (sym (values-put_cell s n v xs)),
)
Step-Inv d σ xs inv (pop i s r tmp at ran) =
    let (ys, e, inv') =
      pop-Inv d σ xs inv i s r tmp (Finishes.post (pop_locked_lem s σ.heap d xs inv.is) ran) in
    (ys, inv', rw (e, eq_int_refl r) refl)
Step-Inv d σ xs inv (retire i tmp at ran) = (xs, retire-Inv d σ xs inv i tmp at ran, refl)

pub replay-append :
    (es fs : List Event) (vs ws : List ℤ)
    → replay es vs ≡ some ws
    → replay (es ++ fs) vs ≡ replay fs ws
unfolding replay
replay-append [] fs vs ws e = ground arith
replay-append (pushed s v ∷ es) fs vs ws e = replay-append es fs (put s v vs) ws e
replay-append (popped s r ∷ es) fs vs ws e = ground (arith, replay-append es fs (take s vs).1 ws)

Trace-Inv :
    (d : Deque) (σ : System) (xs : Cells ℤ) {es : List Event} {τ : System}
    → Inv d σ xs
    → Trace d σ es τ
    → After d τ es xs
unfolding replay
Trace-Inv d σ xs inv here = (xs, inv, refl)
Trace-Inv d σ xs inv (next {es} {fs} {τ} t st) =
    let (ys, mid, e) = Trace-Inv d σ xs inv t in
    let (zs, end, f) = Step-Inv d τ ys mid st in
    (zs, end, replay-append es fs (values xs) (values ys) e ∙ f)

-- no thread in an operation
abbrev pub start : Heap ℤ → System
start h = record { heap = h; pc = λ _. idle }

start-Inv : (d : Deque) (h : Heap ℤ) (xs : Cells ℤ) → IsDeque h d xs → Inv d (start h) xs
start-Inv d h xs is = record { is = is; own = λ i. tt; apart = λ i j p e f. cc }

-- Linearizability: start any number of threads on a deque that holds the cells `xs`, in whatever
-- order they run; the deque is well formed at every moment, and holds what the operations give on
-- the specification when they run one after the other, in the order in which they took the mutex,
-- each pop with the result that it returned.
pub linearizable :
    (d : Deque) (h : Heap ℤ) (xs : Cells ℤ) {es : List Event} {τ : System}
    → IsDeque h d xs
    → Trace d (start h) es τ
    → (ys : Cells ℤ) × IsDeque τ.heap d ys × (replay es (values xs) ≡ some (values ys))
linearizable d h xs is t =
    let (ys, inv, e) = Trace-Inv d (start h) xs (start-Inv d h xs is) t in (ys, inv.is, e)

-- The next command of a thread ends, with no fault: of an idle one, the first command of a push of any
-- value, at any address that `new` returns, and the critical section of a pop.
abbrev pub Runs : Deque → Heap ℤ → Pc → Type 0
Runs d h idle =
    ((v : ℤ) (fresh : Ptr) → (g : Heap ℤ) × (make_node v fresh h ≡ done tt g))
    × ((s : Side) → (r : ℤ × Option Ptr) × (g : Heap ℤ) × (pop_locked s d h ≡ done r g))
Runs d h (holding s n v) = (g : Heap ℤ) × (push_locked s d n h ≡ done tt g)
Runs d h (retiring tmp) = (g : Heap ℤ) × (dispose tmp h ≡ done tt g)

Owned-Runs :
    (d : Deque) (h : Heap ℤ) (xs : Cells ℤ) (q : Pc) → IsDeque h d xs → Owned h d xs q → Runs d h q
unfolding dispose
Owned-Runs d h xs idle is o = (
  λ v fresh. (made h v fresh, make_node_lem h v fresh),
  λ s. let (r, g, e, post) = Finishes.result (pop_locked_lem s h d xs is) in (r, g, e),
)
Owned-Runs d h xs (holding s n v) is o =
    let (u, g, e, post) = Finishes.result (push_locked_lem s h d n v xs is o) in (g, e)
Owned-Runs d h xs (retiring none) is o = (h, refl)
Owned-Runs d h xs (retiring (some p)) is o = (_, delete_ok h p o.1.holds.2)

-- Memory safety: in every run of any number of threads from a well-formed deque, the next command of
-- each thread ends with no fault: no null pointer, no deleted node, no double deletion. That is, for a
-- thread between two operations, the making of the node of a push and the critical section of a pop; in a
-- push, its critical section; in a pop, the deletion.
pub never_faults :
    (d : Deque) (h : Heap ℤ) (xs : Cells ℤ) {es : List Event} {τ : System}
    → IsDeque h d xs
    → Trace d (start h) es τ
    → (i : ℕ) → Runs d τ.heap (τ.pc i)
never_faults d h xs {τ} is t i =
    let (ys, inv, e) = Trace-Inv d (start h) xs (start-Inv d h xs is) t in
    Owned-Runs d τ.heap ys (τ.pc i) inv.is (inv.own i)
