-- ===== src/Lockbased/Tests.antt =====
-- A stack and a queue on a concrete heap.
use data_structure_benchmark.Base.{refl, none, some, [], ◌∷◌, ◌++◌, arith}
use data_structure_benchmark.Base.Int.{ℤ, pos}
use data_structure_benchmark.Heap.{node, Heap, write, ◌>>◌}
use data_structure_benchmark.Heap.Chain.{Cells}
use data_structure_benchmark.Heap.Finishes.{Finishes}
use data_structure_benchmark.Lockbased.Deque.{Deque}
use data_structure_benchmark.Lockbased.Deque.Shape.{IsDeque}
use data_structure_benchmark.Lockbased.Stack
use data_structure_benchmark.Lockbased.Queue
use data_structure_benchmark.Lockbased.Order.{push_all, pop_all, Emptied, stack_lifo, queue_fifo}

abbrev d : Deque
d = record { head = 1; tail = 2 }

-- one value, 7
abbrev heap : Heap ℤ
heap =
    write (write (write (λ a. none) 1 (some (node (pos 0) 3 0))) 3 (some (node (pos 7) 2 1))) 2
      (some (node (pos 0) 0 3))

abbrev xs : Cells ℤ
xs = (3, pos 7) ∷ []

-- two values to push, and where `new` will put them
abbrev ps : Cells ℤ
ps = (4, pos 8) ∷ (5, pos 9) ∷ []

heap-IsDeque : IsDeque heap d xs
unfolding write
heap-IsDeque = record {
  linked = (refl, (refl, (refl, tt)));
  distinct = (omega arith, refl, (omega arith, refl, (omega arith, refl, tt)));
}

stack_lifo_example :
    Finishes
      (Emptied d (pos 9 ∷ pos 8 ∷ []) (pos 7 ∷ []))
      ((push_all Stack.push d ps >> pop_all Stack.pop d ps) heap)
unfolding write
stack_lifo_example =
    stack_lifo heap d xs ps heap-IsDeque (omega arith, refl, refl, (omega arith, refl, refl, tt))

queue_fifo_example :
    Finishes
      (Emptied d (pos 7 ∷ pos 8 ∷ pos 9 ∷ []) [])
      ((push_all Queue.push d ps >> pop_all Queue.pop d (xs ++ ps)) heap)
unfolding write
queue_fifo_example =
    queue_fifo heap d xs ps heap-IsDeque (omega arith, refl, refl, (omega arith, refl, refl, tt))
