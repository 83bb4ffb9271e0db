-- ===== src/Lockfree/SpscQueue/Tests.antt =====
-- A run on a concrete queue: the producer pushes a value and the consumer pops it.
use data_structure_benchmark.Base.{◌≡◌, refl, none, some, List, [], ◌∷◌}
use data_structure_benchmark.Base.Int.{ℤ, pos}
use data_structure_benchmark.Heap.{null}
use data_structure_benchmark.Lockfree.SpscQueue.{
  Nodes, node, put, System, pushed, popped, replay, Run, construct, calls_push, loads_tail,
  stores_data, stores_next, stores_tail, loads_head, finds_node, loads_next, stores_head,
  loads_data, begins, continues,
}
use data_structure_benchmark.Lockfree.SpscQueue.Safety.{
  ProducerSafe, ConsumerSafe, spsc_linearizable,
}

abbrev seven : ℤ
seven = pos 7

abbrev empty : Nodes
empty p = none

-- the producer pushes 7, with the first node at 1 and the new one at 2
abbrev a_push : (τ : System) × Run (construct empty 1) (pushed seven ∷ []) τ
unfolding construct put
a_push = (
  _,
  continues
      (continues
        (continues
          (continues (continues begins (calls_push seven 2 refl (λ e. cc) refl))
            (loads_tail 2 seven refl))
          (stores_data 2 seven 1 (node none null) refl refl))
        (stores_next 2 seven 1 (node (some seven) null) refl refl))
      (stores_tail 2 seven 1 refl),
)

-- the consumer pops it and is about to delete its node
abbrev a_pop : (τ : System) × Run (construct empty 1) (pushed seven ∷ popped (some seven) ∷ []) τ
unfolding construct put a_push
a_pop = (
  _,
  continues
      (continues
        (continues (continues (continues a_push.1 (loads_head refl)) (finds_node 1 refl (λ e. cc)))
          (loads_next 1 (node (some seven) 2) refl refl))
        (stores_head 1 2 refl))
      (loads_data 1 (node (some seven) 2) refl refl),
)

spsc_linearizable_example :
    ((vs : List ℤ) × (replay (pushed seven ∷ popped (some seven) ∷ []) [] ≡ some vs))
    × ProducerSafe a_pop.0.nodes a_pop.0.producer
    × ConsumerSafe a_pop.0.nodes a_pop.0.consumer
spsc_linearizable_example = spsc_linearizable empty 1 a_pop.1
