-- ===== src/Lockfree/Queue.antt =====
-- lockfree/Queue.h: the Michael-Scott queue. Each thread reads one word at a time, and changes the
-- shared ones by `compareAndExchange`, which is one step: the word gets the new value if it holds the
-- old one. Nodes are never deleted.
pub mod Order
pub mod Invariant
pub mod Effects
pub mod Checks
pub mod Safety
mod Tests
use data_structure_benchmark.Base.{
  ℕ, ◌≡◌, ◌≢◌, Option, none, some, List, [], ◌∷◌, ◌++◌, ◌==◌, if◌then◌else◌,
}
use data_structure_benchmark.Base.Int.{ℤ, minus_one, eq_int}
use data_structure_benchmark.Heap.{Ptr, null}

pub record Node : Type 0 where
  pub value : ℤ
  pub next : Ptr

abbrev pub node : ℤ → Ptr → Node
node v q = record { value = v; next = q }

-- `none` is an address that holds no node.
abbrev pub Nodes : Type 0
Nodes = Ptr → Option Node

unfoldable pub put : Nodes → Ptr → Node → Nodes
put h p x a = if a == p then some x else h a

pub record Queue : Type 0 where
  pub nodes : Nodes
  pub head : Ptr
  pub tail : Ptr

-- Where a thread stands: the command that is next, with the values of its variables. `n` is `node` and
-- `v` its value.
pub data Place : Type 0 where
  idle : Place
  -- `last = tail`
  push_tail : Ptr → ℤ → Place
  -- `next = last->next`
  push_next : Ptr → ℤ → Ptr → Place
  -- `last == tail`
  push_check : Ptr → ℤ → Ptr → Ptr → Place
  -- the exchange of `last->next`
  push_link : Ptr → ℤ → Ptr → Place
  -- the exchange of `tail` for the node that was linked
  push_swing : Ptr → ℤ → Ptr → Place
  -- the exchange of `tail` for another thread's node
  push_help : Ptr → ℤ → Ptr → Ptr → Place
  -- `first = head`
  pop_head : Place
  -- `last = tail`
  pop_tail : Ptr → Place
  -- `next = first->next`
  pop_next : Ptr → Ptr → Place
  -- `first == head`
  pop_check : Ptr → Ptr → Ptr → Place
  -- `head->value == -1`, where `first == last` and `next` is not null
  pop_value : Ptr → Ptr → Place
  -- the exchange of `tail` for `next`
  pop_help : Ptr → Ptr → Place
  -- `value = next->value`
  pop_read : Ptr → Ptr → Place
  -- the exchange of `head` for `next`
  pop_swing : Ptr → Ptr → ℤ → Place

pub record System : Type 0 where
  pub queue : Queue
  pub at : ℕ → Place

abbrev pub move : (ℕ → Place) → ℕ → Place → ℕ → Place
move f i p j = if i == j then p else f j

-- What a command did: the tail passed a value, the head passed one, or a pop read a tail that is the
-- head it has read.
pub data Event : Type 0 where
  pushed : ℤ → Event
  popped : ℤ → Event
  saw_empty : Event

-- The events run on the list of the values; `none` if a pop took another value than the oldest one, or
-- saw an empty queue where there was a value.
unfoldable pub replay : List Event → List ℤ → Option (List ℤ)
replay [] vs = some vs
replay (pushed v ∷ es) vs = replay es (vs ++ v ∷ [])
replay (popped r ∷ es) [] = none
replay (popped r ∷ es) (v ∷ vs) = let rest = replay es vs in if eq_int r v then rest else none
replay (saw_empty ∷ es) [] = replay es []
replay (saw_empty ∷ es) (v ∷ vs) = none

-- behind `last == tail`
abbrev pub behind_check : Ptr → ℤ → Ptr → Ptr → Place
behind_check n v last next = if next == null then push_link n v last else push_help n v last next

-- what the read of the tail says of a head that was read
abbrev pub seen : Ptr → Ptr → List Event
seen first last = if first == last then saw_empty ∷ [] else []

-- behind `first == head`
abbrev pub behind_head : Ptr → Ptr → Ptr → Place
behind_head first last next =
    if first == last
    then (if next == null then idle else pop_value last next)
    else pop_read first next

-- behind `head->value == -1`
abbrev pub behind_value : Ptr → Ptr → ℤ → Place
behind_value last next w = if eq_int w minus_one then idle else pop_help last next

-- the commands of the threads, one at a time; a thread that is `idle` again has returned
pub data Step (σ : System) : List Event → System → Type 0 where
  -- the call of a push: `new Node(item)`
  calls_push :
      (i : ℕ) (v : ℤ) (fresh : Ptr)
      → σ.at i ≡ idle
      → fresh ≢ null
      → σ.queue.nodes fresh ≡ none
      → Step σ [] (record {
        queue = record (σ.queue) { nodes = put σ.queue.nodes fresh (node v null) };
        at = move σ.at i (push_tail fresh v);
      })
  reads_tail :
      (i : ℕ) (n : Ptr) (v : ℤ)
      → σ.at i ≡ push_tail n v
      → Step σ [] (record σ { at = move σ.at i (push_next n v σ.queue.tail) })
  reads_next :
      (i : ℕ) (n : Ptr) (v : ℤ) (last : Ptr) (x : Node)
      → σ.at i ≡ push_next n v last
      → σ.queue.nodes last ≡ some x
      → Step σ [] (record σ { at = move σ.at i (push_check n v last x.next) })
  checks_tail :
      (i : ℕ) (n : Ptr) (v : ℤ) (last next : Ptr)
      → σ.at i ≡ push_check n v last next
      → Step σ [] (record σ {
        at =
            move σ.at i
              (if last == σ.queue.tail then behind_check n v last next else push_tail n v);
      })
  links :
      (i : ℕ) (n : Ptr) (v : ℤ) (last : Ptr) (x : Node)
      → σ.at i ≡ push_link n v last
      → σ.queue.nodes last ≡ some x
      → x.next ≡ null
      → Step σ [] (record {
        queue = record (σ.queue) { nodes = put σ.queue.nodes last (node x.value n) };
        at = move σ.at i (push_swing n v last);
      })
  fails_link :
      (i : ℕ) (n : Ptr) (v : ℤ) (last : Ptr) (x : Node)
      → σ.at i ≡ push_link n v last
      → σ.queue.nodes last ≡ some x
      → x.next ≢ null
      → Step σ [] (record σ { at = move σ.at i (push_tail n v) })
  swings :
      (i : ℕ) (n : Ptr) (v : ℤ) (last : Ptr)
      → σ.at i ≡ push_swing n v last
      → σ.queue.tail ≡ last
      → Step σ
          (pushed v ∷ [])
          (record { queue = record (σ.queue) { tail = n }; at = move σ.at i idle })
  fails_swing :
      (i : ℕ) (n : Ptr) (v : ℤ) (last : Ptr)
      → σ.at i ≡ push_swing n v last
      → σ.queue.tail ≢ last
      → Step σ [] (record σ { at = move σ.at i idle })
  helps :
      (i : ℕ) (n : Ptr) (v : ℤ) (last next : Ptr) (x : Node)
      → σ.at i ≡ push_help n v last next
      → σ.queue.tail ≡ last
      → σ.queue.nodes next ≡ some x
      → Step σ
          (pushed x.value ∷ [])
          (record { queue = record (σ.queue) { tail = next }; at = move σ.at i (push_tail n v) })
  fails_help :
      (i : ℕ) (n : Ptr) (v : ℤ) (last next : Ptr)
      → σ.at i ≡ push_help n v last next
      → σ.queue.tail ≢ last
      → Step σ [] (record σ { at = move σ.at i (push_tail n v) })
  calls_pop : (i : ℕ) → σ.at i ≡ idle → Step σ [] (record σ { at = move σ.at i pop_head })
  reads_head :
      (i : ℕ)
      → σ.at i ≡ pop_head
      → Step σ [] (record σ { at = move σ.at i (pop_tail σ.queue.head) })
  reads_end :
      (i : ℕ) (first : Ptr)
      → σ.at i ≡ pop_tail first
      → Step σ
          (seen first σ.queue.tail)
          (record σ { at = move σ.at i (pop_next first σ.queue.tail) })
  reads_first :
      (i : ℕ) (first last : Ptr) (x : Node)
      → σ.at i ≡ pop_next first last
      → σ.queue.nodes first ≡ some x
      → Step σ [] (record σ { at = move σ.at i (pop_check first last x.next) })
  checks_head :
      (i : ℕ) (first last next : Ptr)
      → σ.at i ≡ pop_check first last next
      → Step σ [] (record σ {
        at = move σ.at i (if first == σ.queue.head then behind_head first last next else pop_head);
      })
  checks_value :
      (i : ℕ) (last next : Ptr) (x : Node)
      → σ.at i ≡ pop_value last next
      → σ.queue.nodes σ.queue.head ≡ some x
      → Step σ [] (record σ { at = move σ.at i (behind_value last next x.value) })
  pop_helps :
      (i : ℕ) (last next : Ptr) (x : Node)
      → σ.at i ≡ pop_help last next
      → σ.queue.tail ≡ last
      → σ.queue.nodes next ≡ some x
      → Step σ
          (pushed x.value ∷ [])
          (record { queue = record (σ.queue) { tail = next }; at = move σ.at i pop_head })
  fails_pop_help :
      (i : ℕ) (last next : Ptr)
      → σ.at i ≡ pop_help last next
      → σ.queue.tail ≢ last
      → Step σ [] (record σ { at = move σ.at i pop_head })
  reads_value :
      (i : ℕ) (first next : Ptr) (x : Node)
      → σ.at i ≡ pop_read first next
      → σ.queue.nodes next ≡ some x
      → Step σ [] (record σ { at = move σ.at i (pop_swing first next x.value) })
  pops :
      (i : ℕ) (first next : Ptr) (v : ℤ)
      → σ.at i ≡ pop_swing first next v
      → σ.queue.head ≡ first
      → Step σ
          (popped v ∷ [])
          (record { queue = record (σ.queue) { head = next }; at = move σ.at i idle })
  fails_pop :
      (i : ℕ) (first next : Ptr) (v : ℤ)
      → σ.at i ≡ pop_swing first next v
      → σ.queue.head ≢ first
      → Step σ [] (record σ { at = move σ.at i pop_head })

-- the runs from the constructor, each with what the commands did
pub data Run (start : System) : List Event → System → Type 0 where
  begins : Run start [] start
  continues :
      {es fs : List Event} {σ τ : System} → Run start es σ → Step σ fs τ → Run start (es ++ fs) τ

-- `Queue()`, with its sentinel
unfoldable pub construct : Nodes → Ptr → Queue
construct h sentinel = record {
  nodes = put h sentinel (node minus_one null);
  head = sentinel;
  tail = sentinel;
}
