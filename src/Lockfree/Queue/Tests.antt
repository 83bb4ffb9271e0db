-- ===== src/Lockfree/Queue/Tests.antt =====
-- A run on a concrete queue: a thread pushes a value and another one pops it.
use data_structure_benchmark.Base.{ℕ, ◌≡◌, refl, none, some, [], ◌∷◌}
use data_structure_benchmark.Base.Int.{ℤ, pos, minus_one}
use data_structure_benchmark.Heap.{null}
use data_structure_benchmark.Lockfree.Queue.{
  Nodes, node, put, System, pushed, popped, replay, Run, construct, calls_push, reads_tail,
  reads_next, checks_tail, links, swings, calls_pop, reads_head, reads_end, reads_first,
  checks_head, reads_value, pops, begins, continues,
}
use data_structure_benchmark.Lockfree.Queue.Order.{Order, Ordered, contents}
use data_structure_benchmark.Lockfree.Queue.Safety.{start, Passed, queue_linearizable}

abbrev seven : ℤ
seven = pos 7

abbrev empty : Nodes
empty p = none

-- with the sentinel at 1, thread 0 pushes 7
abbrev a_push : (τ : System) × Run (start empty 1) (pushed seven ∷ []) τ
unfolding construct put
a_push = (
  _,
  continues
      (continues
        (continues
          (continues
            (continues (continues begins (calls_push 0 seven 2 refl (λ e. cc) refl))
              (reads_tail 0 2 seven refl))
            (reads_next 0 2 seven 1 (node minus_one null) refl refl))
          (checks_tail 0 2 seven 1 null refl))
        (links 0 2 seven 1 (node minus_one null) refl refl refl))
      (swings 0 2 seven 1 refl refl),
)

-- thread 1 pops it
abbrev a_pop : (τ : System) × Run (start empty 1) (pushed seven ∷ popped seven ∷ []) τ
unfolding construct put a_push
a_pop = (
  _,
  continues
      (continues
        (continues
          (continues
            (continues (continues (continues a_push.1 (calls_pop 1 refl)) (reads_head 1 refl))
              (reads_end 1 1 refl))
            (reads_first 1 1 2 (node minus_one 2) refl refl))
          (checks_head 1 1 2 2 refl))
        (reads_value 1 1 2 (node seven null) refl refl))
      (pops 1 1 2 seven refl refl),
)

queue_linearizable_example :
    (o : Order) × Ordered a_pop.0.queue o
    × (replay (pushed seven ∷ popped seven ∷ []) [] ≡ some (contents o))
    × ((i : ℕ) → Passed a_pop.0.queue o (a_pop.0.at i))
queue_linearizable_example = queue_linearizable empty 1 (λ e. cc) a_pop.1
