-- ===== src/HtmLock/Deque/Equivalence.antt =====
-- The deque in transactions against the lock-based one.
use data_structure_benchmark.Base.{◌≡◌, ◌≢◌, refl, fun_ext, arith, Option, none, some}
use data_structure_benchmark.Base.Int.{ℤ}
use data_structure_benchmark.Heap.{Ptr, Heap, load}
use data_structure_benchmark.Tm.{Answers, undecided, begin}
use data_structure_benchmark.HtmLock.{atomically_runs}
use data_structure_benchmark.HtmLock.Deque.{
  Deque, make_node, push_front_section, push_back_section, pop_front_section, pop_back_section,
  delete_found, push_front, push_back, pop_front, pop_back, stack_push, stack_pop, queue_push,
  queue_pop,
}
use data_structure_benchmark.Lockbased.Deque as Locked
use data_structure_benchmark.Lockbased.Stack
use data_structure_benchmark.Lockbased.Queue

-- the commands of the sections and of the critical sections
module _ (d : Deque) (n : Ptr) where
  front_pushes : push_front_section d n ≡ Locked.push_front_locked d n
  unfolding push_front_section Locked.push_front_locked
  front_pushes = refl

  back_pushes : push_back_section d n ≡ Locked.push_back_locked d n
  unfolding push_back_section Locked.push_back_locked
  back_pushes = refl

module _ (d : Deque) (h : Heap ℤ) where
  -- What a section reads twice in the same memory is the same.
  front_pops : pop_front_section d h ≡ Locked.pop_front_locked d h
  unfolding pop_front_section Locked.pop_front_locked load
  front_pops = ground arith

  back_pops : pop_back_section d h ≡ Locked.pop_back_locked d h
  unfolding pop_back_section Locked.pop_back_locked load
  back_pops = ground arith

makes : (v : ℤ) (n : Ptr) → make_node v n ≡ Locked.make_node v n
unfolding make_node Locked.make_node
makes v n = refl

deletes_at : (tmp : Option Ptr) → delete_found tmp ≡ Locked.dispose tmp
unfolding delete_found Locked.dispose
deletes_at none = refl
deletes_at (some p) = refl

deletes : delete_found ≡ Locked.dispose
deletes = fun_ext deletes_at

-- Once `TM_BEGIN` has returned, each operation of the deque, the stack and the queue does to any heap
-- what the lock-based one does, with the same result.
pub deque-locked :
    (tries : Answers) (d : Deque) (v : ℤ) (fresh : Ptr) (h : Heap ℤ)
    → begin tries ≢ undecided
    → (push_front tries d v fresh h ≡ Locked.push_front d v fresh h)
      × (push_back tries d v fresh h ≡ Locked.push_back d v fresh h)
      × (pop_front tries d h ≡ Locked.pop_front d h)
      × (pop_back tries d h ≡ Locked.pop_back d h)
      × (stack_push tries d v fresh h ≡ Stack.push d v fresh h)
      × (stack_pop tries d h ≡ Stack.pop d h)
      × (queue_push tries d v fresh h ≡ Queue.push d v fresh h)
      × (queue_pop tries d h ≡ Queue.pop d h)
unfolding push_front push_back pop_front pop_back stack_push stack_pop queue_push queue_pop
    Locked.push_front Locked.push_back Locked.pop_front Locked.pop_back Stack.push Stack.pop
    Queue.push Queue.pop
deque-locked tries d v fresh h decided =
    let push_front_runs = atomically_runs tries (push_front_section d fresh) decided in
    let push_back_runs = atomically_runs tries (push_back_section d fresh) decided in
    let pop_front_runs = atomically_runs tries (pop_front_section d) decided in
    let pop_back_runs = atomically_runs tries (pop_back_section d) decided in
    (
      rw (push_front_runs, makes v fresh, front_pushes d fresh) refl,
      rw (push_back_runs, makes v fresh, back_pushes d fresh) refl,
      rw (pop_front_runs, front_pops d h, deletes) refl,
      rw (pop_back_runs, back_pops d h, deletes) refl,
      rw (push_front_runs, makes v fresh, front_pushes d fresh) refl,
      rw (pop_front_runs, front_pops d h, deletes) refl,
      rw (push_back_runs, makes v fresh, back_pushes d fresh) refl,
      rw (pop_front_runs, front_pops d h, deletes) refl,
    )
