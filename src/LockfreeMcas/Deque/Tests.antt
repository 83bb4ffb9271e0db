-- ===== src/LockfreeMcas/Deque/Tests.antt =====
-- A run on a concrete deque: a thread pushes a value and another one pops it.
use data_structure_benchmark.Base.{◌≡◌, refl, none, some, [], ◌∷◌}
use data_structure_benchmark.Base.Int.{ℤ, pos}
use data_structure_benchmark.Heap.{Heap, node, write}
use data_structure_benchmark.Heap.Chain.{Cells, values}
use data_structure_benchmark.Lockbased.Deque.Spec.{front, back}
use data_structure_benchmark.Lockbased.Deque.Threads.{pushed, popped, replay}
use data_structure_benchmark.LockfreeMcas.Deque.{
  System, Run, construct, first_push, try_pop, calls_push, reads_hat, reads_out, reads_other,
  pushes_first, calls_pop, reads_pop_hat, reads_left, reads_right, pops, here, next,
}
use data_structure_benchmark.LockfreeMcas.Deque.Shape.{Shape}
use data_structure_benchmark.LockfreeMcas.Deque.Knowledge.{Self}
use data_structure_benchmark.LockfreeMcas.Deque.Safety.{
  start, Safe, snark_linearizable, snark_memory-Safe,
}

abbrev seven : ℤ
seven = pos 7

-- no node but the dummy, which is at 1
abbrev empty : Heap ℤ
empty p = none

empty-Self : Self empty
empty-Self s p x at = cc

-- thread 0 pushes 7 in front
abbrev a_push : (τ : System) × Run 1 (start 1 empty) (pushed front seven ∷ []) τ
unfolding construct first_push write
a_push = (
  _,
  next
      (next
        (next
          (next (next here (calls_push 0 front seven 2 refl (λ e. cc) refl))
            (reads_hat 0 front 2 seven refl))
          (reads_out 0 front 2 seven 1 (node (pos 0) 1 1) (node seven 0 1) refl refl refl))
        (reads_other 0 front 2 seven 1 refl))
      (pushes_first 0 front 2 seven 1 1 refl refl),
)

-- thread 1 then pops it from the back
abbrev a_pop : (τ : System) × Run 1 (start 1 empty) (pushed front seven ∷ popped back seven ∷ []) τ
unfolding construct first_push try_pop write a_push
a_pop = (
  _,
  next
      (next
        (next (next (next a_push.1 (calls_pop 1 back refl)) (reads_pop_hat 1 back refl))
          (reads_left 1 back 2 (node seven 1 1) refl refl))
        (reads_right 1 back 2 1 (node seven 1 1) refl refl))
      (pops 1 back 2 1 1 (node seven 1 1) refl refl refl),
)

snark_linearizable_example :
    (ys : Cells ℤ) × Shape a_pop.0.deque ys
    × (replay (pushed front seven ∷ popped back seven ∷ []) [] ≡ some (values ys))
snark_linearizable_example = snark_linearizable 1 empty empty-Self a_pop.1

snark_memory-Safe_example : Safe 1 a_pop.0.deque (a_pop.0.at 1)
snark_memory-Safe_example = snark_memory-Safe 1 empty empty-Self a_pop.1 1
