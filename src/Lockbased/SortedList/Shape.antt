-- ===== src/Lockbased/SortedList/Shape.antt =====
-- The heap of a sorted list, and its constructor.
use data_structure_benchmark.Base.{
  ℕ, ◌+◌, ◌<◌, ◌≡◌, ◌≢◌, refl, some, [], ◌∷◌, ◌++◌, arith, if◌then◌else◌,
}
use data_structure_benchmark.Base.Int.{ℤ, pos, eq_int}
use data_structure_benchmark.Base.Lists.{length}
use data_structure_benchmark.Heap.{
  Ptr, null, node, Heap, write, done, load, new_node, set_next, set_prev,
}
use data_structure_benchmark.Heap.Chain.{Cells, values, values-append, SameOutside}
use data_structure_benchmark.Heap.Finishes.{Finishes, finishes}
use data_structure_benchmark.Linked.Destroy.{Without, destroy_all-Without}
use data_structure_benchmark.Linked.Shape.{nodes, Holds}
use data_structure_benchmark.Lockbased.SortedList.{SortedList, construct, destroy}
use data_structure_benchmark.Lockbased.SortedList.Order.{IsSorted, occurrences, occurrences-append}

abbrev pub hd : SortedList → Ptr × ℤ
hd l = (l.head, pos 0)

abbrev pub tl : SortedList → Ptr × ℤ
tl l = (l.tail, pos 0)

-- In `h` the list holds the cells `xs`, in order.
pub record IsList (h : Heap ℤ) (l : SortedList) (xs : Cells ℤ) : Type 0 where
  pub held : Holds h (hd l) (tl l) xs
  pub sorted : IsSorted (values xs)

-- The constructor, given two distinct addresses that are not null, makes an empty sorted list of its
-- two nodes, and writes to no other.
pub construct-IsList :
    (h : Heap ℤ) (head tail : Ptr)
    → head ≢ null
    → tail ≢ null
    → head ≢ tail
    → Finishes
        (λ l g.
          IsList g l []
          × SameOutside (nodes (hd l) (tl l) []) h g
          × (l.head ≡ head)
          × (l.tail ≡ tail))
        (construct head tail h)
unfolding construct new_node load set_next set_prev write
construct-IsList h head tail p q ne =
    let g : Heap ℤ =
      write
        (write
          (write (write h head (some (node (pos 0) null null))) tail
            (some (node (pos 0) null null)))
          head (some (node (pos 0) tail null)))
        tail (some (node (pos 0) null head)) in
    let l : SortedList = record { head = head; tail = tail } in
    let runs : construct head tail h ≡ done l g = ground arith in
    let is : Holds g (hd l) (tl l) [] = record {
      linked = (ground arith, (ground arith, tt));
      distinct = (p, ground arith, (q, refl, tt));
    } in
    let same : SameOutside (nodes (hd l) (tl l) []) h g = λ a o. ground arith in
    rw runs (finishes (record { held = is; sorted = tt }, same, refl, refl))

-- The destructor, with fuel for every node, deletes exactly the nodes of the list.
pub destroyed-Without :
    (h : Heap ℤ) (l : SortedList) (xs : Cells ℤ) (fuel : ℕ)
    → IsList h l xs
    → length xs + 1 < fuel
    → Finishes (λ _. Without (nodes (hd l) (tl l) xs) h) (destroy fuel l h)
unfolding destroy
destroyed-Without h l xs fuel is enough =
    destroy_all-Without h (hd l) (tl l) xs fuel is.held.linked is.held.distinct enough

pub occurrences-insert :
    (v w : ℤ) (n : Ptr) (us vs : Cells ℤ)
    → occurrences w (values (us ++ (n, v) ∷ vs))
      ≡ (if eq_int v w then 1 else 0) + occurrences w (values (us ++ vs))
occurrences-insert v w n us vs =
    rw (values-append us ((n, v) ∷ vs), values-append us vs)
      (omega (
        arith,
        occurrences-append w (values us) (v ∷ values vs),
        occurrences-append w (values us) (values vs),
      ))
