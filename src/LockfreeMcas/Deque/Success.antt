-- ===== src/LockfreeMcas/Deque/Success.antt =====
-- What a compare-and-swap that succeeds has found, and what it makes of the deque.
use data_structure_benchmark.Base.{
  ◌≡◌, refl, Bool-cases, inl, inr, true, false, some, List, [], ◌∷◌, arith,
}
use data_structure_benchmark.Base.Int.{ℤ}
use data_structure_benchmark.Heap.{Ptr, Node, node, write}
use data_structure_benchmark.Lockbased.Deque.Spec.{Side, front, back}
use data_structure_benchmark.LockfreeMcas.Deque.{
  Deque, other, link, set_link, pick, hat, first_push, further_push, try_pop, store, hat_of,
  link_of, swap, Swap, mcas, all_hold,
}

pub first_push_lem :
    (s : Side) (n h r : Ptr) (d : Deque)
    → (first_push s n h r d).0 ≡ true
    → (hat s d ≡ h)
      × ((first_push s n h r d).1 ≡ record { heap = d.heap; left_hat = n; right_hat = n })
unfolding first_push
first_push_lem front n h r d ok = ground arith
first_push_lem back n h r d ok = ground arith

pub further_push_lem :
    (s : Side) (n h o : Ptr) (d : Deque) (x : Node ℤ)
    → d.heap h ≡ some x
    → (further_push s n h o d).0 ≡ true
    → (hat s d ≡ h)
      × (link s x ≡ o)
      × ((further_push s n h o d).1
          ≡ store (hat_of s) n (record d { heap = write d.heap h (some (set_link s n x)) }))
unfolding further_push
further_push_lem front n h o d x at ok = ground arith
further_push_lem back n h o d x at ok = ground arith

pub try_pop_found :
    (s : Side) (h l r : Ptr) (d : Deque) (x : Node ℤ)
    → d.heap h ≡ some x
    → (try_pop s h l r d).0 ≡ true
    → (hat s d ≡ h) × (x.prev ≡ l) × (x.next ≡ r)
unfolding try_pop
try_pop_found front h l r d x at ok = ground arith
try_pop_found back h l r d x at ok = ground arith

pub try_pop_runs :
    (s : Side) (h : Ptr) (d : Deque) (x : Node ℤ)
    → d.heap h ≡ some x
    → hat s d ≡ h
    → (hat s (try_pop s h x.prev x.next d).1 ≡ link (other s) x)
      × (hat (other s) (try_pop s h x.prev x.next d).1 ≡ hat (other s) d)
      × ((p : Ptr)
          → (try_pop s h x.prev x.next d).1.heap p ≡ write d.heap h (some (node x.payload h h)) p)
unfolding try_pop write
try_pop_runs front h d x at e = (ground arith, ground arith, λ p. ground arith)
try_pop_runs back h d x at e = (ground arith, ground arith, λ p. ground arith)

-- A compare-and-swap that fails changes nothing.
pub mcas_fails : (xs : List Swap) (d : Deque) → (mcas xs d).0 ≡ false → (mcas xs d).1 ≡ d
mcas_fails xs d failed = elim (Bool-cases (all_hold xs d)) [
  | inl e ↦ absurd (ground arith)
  | inr e ↦ rw e refl
]

pub heap-store_hat : (s : Side) (p : Ptr) (d : Deque) → (store (hat_of s) p d).heap ≡ d.heap
heap-store_hat front p d = refl
heap-store_hat back p d = refl

pub first_push_fails :
    (s : Side) (n h r : Ptr) (d : Deque)
    → (first_push s n h r d).0 ≡ false
    → (first_push s n h r d).1 ≡ d
unfolding first_push
first_push_fails s n h r d failed =
    mcas_fails (swap (hat_of s) h n ∷ swap (hat_of (other s)) r n ∷ []) d failed

pub further_push_fails :
    (s : Side) (n h o : Ptr) (d : Deque)
    → (further_push s n h o d).0 ≡ false
    → (further_push s n h o d).1 ≡ d
unfolding further_push
further_push_fails s n h o d failed =
    mcas_fails (swap (hat_of s) h n ∷ swap (link_of s h) o n ∷ []) d failed

pub try_pop_fails :
    (s : Side) (h l r : Ptr) (d : Deque) → (try_pop s h l r d).0 ≡ false → (try_pop s h l r d).1 ≡ d
unfolding try_pop
try_pop_fails s h l r d failed =
    mcas_fails
      (swap (hat_of s) h (pick (other s) l r)
        ∷ swap (link_of (other s) h) (pick (other s) l r) h
        ∷ swap (link_of s h) (pick s l r) h
        ∷ [])
      d failed
