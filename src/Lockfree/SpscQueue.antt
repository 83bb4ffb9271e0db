-- ===== src/Lockfree/SpscQueue.antt =====
-- lockfree/SPSCQueue.h: the queue of one producer and one consumer. Each reads or writes one word at a
-- time; the consumer deletes the nodes that it has taken. The data of a node is a pointer to a value or
-- null, here a value or `none`. Where `pop_head` returns null it has found the queue empty, since no
-- node is at null.
pub mod Order
pub mod Pushes
pub mod Pops
pub mod Safety
mod Tests
use data_structure_benchmark.Base.{
  ℕ, ◌≡◌, ◌≢◌, Option, none, some, List, [], ◌∷◌, ◌++◌, ◌==◌, if◌then◌else◌,
}
use data_structure_benchmark.Base.Int.{ℤ, eq_int}
use data_structure_benchmark.Heap.{Ptr, null}

pub record Node : Type 0 where
  pub data_ : Option ℤ
  pub next : Ptr

abbrev pub node : Option ℤ → Ptr → Node
node v q = record { data_ = v; next = q }

-- `none` is an address that holds no node.
abbrev pub Nodes : Type 0
Nodes = Ptr → Option Node

unfoldable pub put : Nodes → Ptr → Option Node → Nodes
put h p c a = if a == p then c else h a

-- where the producer stands, with `p`, its value and `old_tail`
pub data Producer : Type 0 where
  resting : Producer
  -- `tail.load()`
  load_tail : Ptr → ℤ → Producer
  -- `old_tail->data.swap(new_data)`
  store_data : Ptr → ℤ → Ptr → Producer
  -- `old_tail->next = p`
  store_next : Ptr → ℤ → Ptr → Producer
  -- `tail.store(p)`
  store_tail : Ptr → ℤ → Ptr → Producer

-- where the consumer stands, with `old_head`
pub data Consumer : Type 0 where
  waiting : Consumer
  -- `old_head == tail.load()`
  test_tail : Ptr → Consumer
  -- `old_head->next`
  load_next : Ptr → Consumer
  -- `head.store`
  store_head : Ptr → Ptr → Consumer
  -- `old_head->data`
  load_data : Ptr → Consumer
  -- `delete old_head`
  delete_node : Ptr → Consumer

pub record System : Type 0 where
  pub nodes : Nodes
  pub head : Ptr
  pub tail : Ptr
  pub producer : Producer
  pub consumer : Consumer

-- What a command did: the tail moved behind a value, a pop read its data, or found the queue empty.
pub data Event : Type 0 where
  pushed : ℤ → Event
  popped : Option ℤ → Event
  found_empty : Event

-- The events run on the list of the values; `none` if a pop had not the oldest one.
unfoldable pub replay : List Event → List ℤ → Option (List ℤ)
replay [] vs = some vs
replay (pushed v ∷ es) vs = replay es (vs ++ v ∷ [])
replay (popped r ∷ es) [] = none
replay (popped none ∷ es) (v ∷ vs) = none
replay (popped (some r) ∷ es) (v ∷ vs) =
    let rest = replay es vs in if eq_int r v then rest else none
replay (found_empty ∷ es) [] = replay es []
replay (found_empty ∷ es) (v ∷ vs) = none

pub data Step (σ : System) : List Event → System → Type 0 where
  -- the call of `push`: `new node`
  calls_push :
      (v : ℤ) (p : Ptr)
      → σ.producer ≡ resting
      → p ≢ null
      → σ.nodes p ≡ none
      → Step σ []
          (record σ { nodes = put σ.nodes p (some (node none null)); producer = load_tail p v })
  loads_tail :
      (p : Ptr) (v : ℤ)
      → σ.producer ≡ load_tail p v
      → Step σ [] (record σ { producer = store_data p v σ.tail })
  stores_data :
      (p : Ptr) (v : ℤ) (old : Ptr) (x : Node)
      → σ.producer ≡ store_data p v old
      → σ.nodes old ≡ some x
      → Step σ [] (record σ {
        nodes = put σ.nodes old (some (node (some v) x.next));
        producer = store_next p v old;
      })
  stores_next :
      (p : Ptr) (v : ℤ) (old : Ptr) (x : Node)
      → σ.producer ≡ store_next p v old
      → σ.nodes old ≡ some x
      → Step σ [] (record σ {
        nodes = put σ.nodes old (some (node x.data_ p));
        producer = store_tail p v old;
      })
  stores_tail :
      (p : Ptr) (v : ℤ) (old : Ptr)
      → σ.producer ≡ store_tail p v old
      → Step σ (pushed v ∷ []) (record σ { tail = p; producer = resting })
  -- the call of `pop`: `head.load()`
  loads_head : σ.consumer ≡ waiting → Step σ [] (record σ { consumer = test_tail σ.head })
  finds_empty :
      (old : Ptr)
      → σ.consumer ≡ test_tail old
      → old ≡ σ.tail
      → Step σ (found_empty ∷ []) (record σ { consumer = waiting })
  finds_node :
      (old : Ptr)
      → σ.consumer ≡ test_tail old
      → old ≢ σ.tail
      → Step σ [] (record σ { consumer = load_next old })
  loads_next :
      (old : Ptr) (x : Node)
      → σ.consumer ≡ load_next old
      → σ.nodes old ≡ some x
      → Step σ [] (record σ { consumer = store_head old x.next })
  stores_head :
      (old new : Ptr)
      → σ.consumer ≡ store_head old new
      → Step σ [] (record σ { head = new; consumer = load_data old })
  loads_data :
      (old : Ptr) (x : Node)
      → σ.consumer ≡ load_data old
      → σ.nodes old ≡ some x
      → Step σ (popped x.data_ ∷ []) (record σ { consumer = delete_node old })
  deletes :
      (old : Ptr)
      → σ.consumer ≡ delete_node old
      → Step σ [] (record σ { nodes = put σ.nodes old none; consumer = waiting })

-- the runs from the constructor
pub data Run (start : System) : List Event → System → Type 0 where
  begins : Run start [] start
  continues :
      {es fs : List Event} {σ τ : System} → Run start es σ → Step σ fs τ → Run start (es ++ fs) τ

-- `SPSCQueue()`, with its node
unfoldable pub construct : Nodes → Ptr → System
construct h first = record {
  nodes = put h first (some (node none null));
  head = first;
  tail = first;
  producer = resting;
  consumer = waiting;
}
