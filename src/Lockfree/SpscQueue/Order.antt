-- ===== src/Lockfree/SpscQueue/Order.antt =====
-- The nodes from the oldest one that is not deleted to the tail, and what the two threads know of them.
use data_structure_benchmark.Base.{ℕ, ◌≡◌, refl, ◌≢◌, none, some, List, [], suc, ◌+◌, ◌<◌, ◌≤◌}
use data_structure_benchmark.Base.Int.{ℤ}
use data_structure_benchmark.Heap.{Ptr, null}
use data_structure_benchmark.Lockfree.Queue.Order.{items}
use data_structure_benchmark.Lockfree.SpscQueue.{
  Nodes, node, System, Event, replay, Producer, Consumer, resting, load_tail, store_data,
  store_next, store_tail, waiting, test_tail, load_next, store_head, load_data, delete_node,
}

-- The node at each position from `base` to `len`, with its value; the position of the values that are
-- still to be popped, and their number.
pub record Order : Type 0 where
  pub seq : ℕ → Ptr
  pub val : ℕ → ℤ
  pub base : ℕ
  pub from : ℕ
  pub k : ℕ

abbrev pub len : Order → ℕ
len o = o.from + o.k

abbrev pub In : Order → ℕ → Type 0
In o i = (o.base ≤ i) × (i ≤ len o)

-- the node that a push is to make the tail, and what the tail holds until then
pub record Fresh (h : Nodes) (o : Order) (p : Ptr) : Type 0 where
  pub holds : h p ≡ some (node none null)
  pub out : (i : ℕ) → In o i → o.seq i ≢ p

abbrev pub Produces : Nodes → Order → Producer → Type 0
Produces h o resting = h (o.seq (len o)) ≡ some (node none null)
Produces h o (load_tail p v) = (h (o.seq (len o)) ≡ some (node none null)) × Fresh h o p
Produces h o (store_data p v old) =
    (h (o.seq (len o)) ≡ some (node none null)) × Fresh h o p × (old ≡ o.seq (len o))
Produces h o (store_next p v old) =
    (h (o.seq (len o)) ≡ some (node (some v) null)) × Fresh h o p × (old ≡ o.seq (len o))
Produces h o (store_tail p v old) =
    (h (o.seq (len o)) ≡ some (node (some v) p)) × Fresh h o p × (old ≡ o.seq (len o))

abbrev pub Consumes : Ptr → Order → Consumer → Type 0
Consumes head o waiting = (o.from ≡ o.base) × (head ≡ o.seq o.base)
Consumes head o (test_tail old) = (o.from ≡ o.base) × (head ≡ o.seq o.base) × (old ≡ o.seq o.base)
Consumes head o (load_next old) =
    (o.from ≡ o.base) × (head ≡ o.seq o.base) × (old ≡ o.seq o.base) × (0 < o.k)
Consumes head o (store_head old new) =
    (o.from ≡ o.base) × (old ≡ o.seq o.base) × (new ≡ o.seq (suc o.base)) × (0 < o.k)
Consumes head o (load_data old) =
    (o.from ≡ o.base) × (old ≡ o.seq o.base) × (head ≡ o.seq (suc o.base)) × (0 < o.k)
Consumes head o (delete_node old) =
    (o.from ≡ suc o.base) × (old ≡ o.seq o.base) × (head ≡ o.seq (suc o.base))

pub record Inv (σ : System) (o : Order) : Type 0 where
  pub held :
      (i : ℕ)
      → o.base ≤ i
      → i < len o
      → σ.nodes (o.seq i) ≡ some (node (some (o.val i)) (o.seq (suc i)))
  pub inj : (i j : ℕ) → In o i → In o j → o.seq i ≡ o.seq j → i ≡ j
  pub tail_is : σ.tail ≡ o.seq (len o)
  pub produces : Produces σ.nodes o σ.producer
  pub consumes : Consumes σ.head o σ.consumer
  pub base_le : o.base ≤ o.from

abbrev pub contents : Order → List ℤ
contents o = items o.val o.from o.k

-- The invariant behind commands that did `es`: the contents are what `es` gives on the list.
pub record After (τ : System) (es : List Event) (vs : List ℤ) : Type 0 where
  pub order : Order
  pub inv : Inv τ order
  pub agrees : replay es vs ≡ some (contents order)

pub quiet : (τ : System) (o : Order) → Inv τ o → After τ [] (contents o)
unfolding replay
quiet τ o inv = record { order = o; inv = inv; agrees = refl }
