-- ===== src/Lockbased/Deque/Destroy.antt =====
-- The constructor and the destructor of a deque.
use data_structure_benchmark.Base.{ℕ, ◌+◌, ◌<◌, ◌≡◌, refl, ◌≢◌, some, [], arith}
use data_structure_benchmark.Base.Int.{ℤ, pos}
use data_structure_benchmark.Base.Lists.{length}
use data_structure_benchmark.Heap.{
  Ptr, null, node, Heap, write, done, load, set_next, set_prev, new_node,
}
use data_structure_benchmark.Heap.Chain.{Cells, SameOutside}
use data_structure_benchmark.Heap.Finishes.{Finishes, finishes}
use data_structure_benchmark.Linked.Destroy.{Without, destroy_all-Without}
use data_structure_benchmark.Lockbased.Deque.{Deque, construct, destroy}
use data_structure_benchmark.Lockbased.Deque.Shape.{nodes, IsDeque}

-- The constructor, given two distinct addresses that are not null, makes an empty deque of its two
-- nodes, and writes to no other.
pub construct-IsDeque :
    (h : Heap ℤ) (head tail : Ptr)
    → head ≢ null
    → tail ≢ null
    → head ≢ tail
    → Finishes
        (λ d g. IsDeque g d [] × SameOutside (nodes d []) h g × (d.head ≡ head) × (d.tail ≡ tail))
        (construct head tail h)
unfolding construct new_node load set_next set_prev write
construct-IsDeque h head tail p q ne =
    let g : Heap ℤ =
      write
        (write
          (write (write h head (some (node (pos 0) null null))) tail
            (some (node (pos 0) null null)))
          head (some (node (pos 0) tail null)))
        tail (some (node (pos 0) null head)) in
    let d : Deque = record { head = head; tail = tail } in
    let runs : construct head tail h ≡ done d g = ground arith in
    let is : IsDeque g d [] = record {
      linked = (ground arith, (ground arith, tt));
      distinct = (p, ground arith, (q, refl, tt));
    } in
    let same : SameOutside (nodes d []) h g = λ a o. ground arith in
    rw runs (finishes (is, same, refl, refl))

-- The destructor, with fuel for every node, deletes exactly the nodes of the deque.
pub destroy-Without :
    (h : Heap ℤ) (d : Deque) (xs : Cells ℤ) (fuel : ℕ)
    → IsDeque h d xs
    → length xs + 1 < fuel
    → Finishes (λ _. Without (nodes d xs) h) (destroy fuel d h)
unfolding destroy
destroy-Without h d xs fuel is enough =
    destroy_all-Without h (d.head, pos 0) (d.tail, pos 0) xs fuel is.linked is.distinct enough
