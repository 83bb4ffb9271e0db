-- ===== src/Lockbased/Deque/Tests.antt =====
-- The deque on concrete heaps.
use data_structure_benchmark.Base.{◌≡◌, refl, none, some, List, [], ◌∷◌, ◌++◌, arith}
use data_structure_benchmark.Base.Int.{ℤ, pos, minus_one}
use data_structure_benchmark.Heap.{
  node, Heap, write, ◌>>=◌, ◌>>◌, pure, Command, new_node, set_payload, load, set_next, set_prev,
  delete,
}
use data_structure_benchmark.Linked.{destroy_loop}
use data_structure_benchmark.Heap.Chain.{Cells, values, SameOutside}
use data_structure_benchmark.Heap.Finishes.{Finishes, finishes}
use data_structure_benchmark.Lockbased.Deque.{
  Deque, construct, push_front, push_back, pop_front, pop_back, destroy, make_node,
  push_front_locked, pop_front_locked, dispose, pop_back_locked, push_back_locked,
}
use data_structure_benchmark.Lockbased.Deque.Shape.{nodes, IsDeque}
use data_structure_benchmark.Lockbased.Deque.Spec.{front, back}
use data_structure_benchmark.Lockbased.Deque.Operations.{push-put, pop-take, Taken}
use data_structure_benchmark.Lockbased.Deque.Threads.{
  System, Event, pushed, popped, Step, Trace, here, next, replay,
}
use data_structure_benchmark.Lockbased.Deque.Threads.Safety.{
  start, linearizable, never_faults, Runs,
}

abbrev no_heap : Heap ℤ
no_heap a = none

abbrev d : Deque
d = record { head = 1; tail = 2 }

-- a deque of the values 5 and 6
abbrev heap : Heap ℤ
heap =
    write
      (write (write (write no_heap 1 (some (node (pos 0) 3 0))) 3 (some (node (pos 5) 4 1))) 4
        (some (node (pos 6) 2 3)))
      2 (some (node (pos 0) 0 4))

abbrev xs : Cells ℤ
xs = (3, pos 5) ∷ (4, pos 6) ∷ []

session : Command ℤ (ℤ × ℤ × ℤ × ℤ)
unfolding construct push_front push_back pop_front pop_back
session = do
  d ← construct 1 2
  push_front d (pos 5) 3
  push_back d (pos 6) 4
  push_front d (pos 4) 5
  a ← pop_back d
  b ← pop_front d
  c ← pop_front d
  e ← pop_front d
  destroy 2 d
  pure (a, b, c, e)

session_runs :
    Finishes
      (λ r g. (r ≡ (pos 6, pos 4, pos 5, minus_one)) × (g 1 ≡ none) × (g 5 ≡ none))
      (session no_heap)
unfolding session make_node push_front_locked push_back_locked pop_front_locked pop_back_locked
    write new_node set_payload load set_next set_prev delete dispose destroy destroy_loop
session_runs = finishes (refl, refl, refl)

heap-IsDeque : IsDeque heap d xs
unfolding write
heap-IsDeque = record {
  linked = (refl, (refl, (refl, (refl, tt))));
  distinct = (omega arith, refl, (omega arith, refl, (omega arith, refl, (omega arith, refl, tt))));
}

push-put_example :
    Finishes
      (λ _ g.
        IsDeque g d (xs ++ (5, pos 9) ∷ []) × SameOutside (nodes d (xs ++ (5, pos 9) ∷ [])) heap g)
      (push_back d (pos 9) 5 heap)
unfolding write
push-put_example = push-put back heap d (pos 9) 5 xs heap-IsDeque (omega arith) refl

pop-take_example : Finishes (Taken front heap d xs) (pop_front d heap)
pop-take_example = pop-take front heap d xs heap-IsDeque

-- thread 0 makes a node, thread 1 pops, thread 0 puts the node in, thread 2 pops at the back
abbrev events : List Event
events = popped front (pos 5) ∷ pushed front (pos 9) ∷ popped back (pos 6) ∷ []

abbrev Ran : Type 0
Ran = (τ : System) × Trace d (start heap) events τ

ran : Ran
unfolding make_node push_front_locked pop_front_locked pop_back_locked write new_node set_payload
    load set_next set_prev
ran = (
  _,
  next
      (next
        (next (next here (Step.make 0 front (pos 9) 5 refl (omega arith) refl refl))
          (Step.pop 1 front (pos 5) (some 3) refl refl))
        (Step.push 0 front 5 (pos 9) refl refl))
      (Step.pop 2 back (pos 6) (some 4) refl refl),
)

linearizable_example :
    (ys : Cells ℤ) × IsDeque ran.0.heap d ys
    × (replay events (pos 5 ∷ pos 6 ∷ []) ≡ some (values ys))
linearizable_example = linearizable d heap xs heap-IsDeque ran.1

never_faults_example : Runs d ran.0.heap (ran.0.pc 1)
never_faults_example = never_faults d heap xs heap-IsDeque ran.1 1
