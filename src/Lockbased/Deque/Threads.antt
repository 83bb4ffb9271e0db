-- ===== src/Lockbased/Deque/Threads.antt =====
-- Any number of threads on one deque, interleaved in any order. The mutex makes a critical section
-- one step; the allocation before it and the deletion behind it are steps of their own, in between
-- which the other threads run.
pub mod Invariant
pub mod Safety
use data_structure_benchmark.Base.{
  ℕ, ◌≡◌, ◌≢◌, Option, none, some, List, [], ◌∷◌, ◌++◌, ◌==◌, if◌then◌else◌,
}
use data_structure_benchmark.Base.Int.{ℤ, eq_int}
use data_structure_benchmark.Heap.{Ptr, null, Heap, done}
use data_structure_benchmark.Lockbased.Deque.{Deque, make_node, dispose}
use data_structure_benchmark.Lockbased.Deque.Spec.{Side, put, take}
use data_structure_benchmark.Lockbased.Deque.Contents.{push_locked, pop_locked}

-- where a thread stands
pub data Pc : Type 0 where
  -- between two operations
  idle : Pc
  -- in a push, before the mutex, with the node that it made
  holding : Side → Ptr → ℤ → Pc
  -- in a pop, behind the mutex, with the node to delete
  retiring : Option Ptr → Pc

pub record System : Type 0 where
  pub heap : Heap ℤ
  pub pc : ℕ → Pc

-- What a critical section did, in the order of the mutex.
pub data Event : Type 0 where
  pushed : Side → ℤ → Event
  popped : Side → ℤ → Event

abbrev pub update : (ℕ → Pc) → ℕ → Pc → ℕ → Pc
update f i p j = if i == j then p else f j

pub data Step (d : Deque) (σ : System) : List Event → System → Type 0 where
  make :
      (i : ℕ) (s : Side) (v : ℤ) (fresh : Ptr) {g : Heap ℤ}
      → σ.pc i ≡ idle
      → fresh ≢ null
      → σ.heap fresh ≡ none
      → make_node v fresh σ.heap ≡ done tt g
      → Step d σ [] (record { heap = g; pc = update σ.pc i (holding s fresh v) })
  push :
      (i : ℕ) (s : Side) (n : Ptr) (v : ℤ) {g : Heap ℤ}
      → σ.pc i ≡ holding s n v
      → push_locked s d n σ.heap ≡ done tt g
      → Step d σ (pushed s v ∷ []) (record { heap = g; pc = update σ.pc i idle })
  pop :
      (i : ℕ) (s : Side) (r : ℤ) (tmp : Option Ptr) {g : Heap ℤ}
      → σ.pc i ≡ idle
      → pop_locked s d σ.heap ≡ done (r, tmp) g
      → Step d σ (popped s r ∷ []) (record { heap = g; pc = update σ.pc i (retiring tmp) })
  retire :
      (i : ℕ) (tmp : Option Ptr) {g : Heap ℤ}
      → σ.pc i ≡ retiring tmp
      → dispose tmp σ.heap ≡ done tt g
      → Step d σ [] (record { heap = g; pc = update σ.pc i idle })

pub data Trace (d : Deque) (σ : System) : List Event → System → Type 0 where
  here : Trace d σ [] σ
  next :
      {es fs : List Event} {τ υ : System} → Trace d σ es τ → Step d τ fs υ → Trace d σ (es ++ fs) υ

-- The events run on the specification; `none` if a pop returned anything else.
unfoldable pub replay : List Event → List ℤ → Option (List ℤ)
replay [] vs = some vs
replay (pushed s v ∷ es) vs = replay es (put s v vs)
replay (popped s r ∷ es) vs =
    let rest = replay es (take s vs).1 in if eq_int r (take s vs).0 then rest else none
