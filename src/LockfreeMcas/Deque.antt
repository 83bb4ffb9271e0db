-- ===== src/LockfreeMcas/Deque.antt =====
-- lockfree-mcas/Deque.h: the Snark deque. Each thread reads one word at a time, and changes the shared
-- ones by compare-and-swap on two or three words, which is one step by the contract that Mcas.Spec
-- states. `front` stands for the left side and `back` for the right: a method and its mirror image are
-- one function of the side. The popped nodes are never deleted.
pub mod Shape
pub mod Success
pub mod Push
pub mod Pop
pub mod Knowledge
pub mod Writes
pub mod Invariant
pub mod Safety
mod Tests
use data_structure_benchmark.Base.{
  ℕ, ◌≡◌, ◌≢◌, Bool, true, false, ◌&&◌, Option, none, some, List, [], ◌∷◌, ◌++◌, ◌==◌,
  if◌then◌else◌,
}
use data_structure_benchmark.Base.Int.{ℤ, minus_one}
use data_structure_benchmark.Heap.{Ptr, Node, node, null, Heap, write}
use data_structure_benchmark.Lockbased.Deque.Spec.{Side, front, back}
use data_structure_benchmark.Lockbased.Deque.Threads.{Event, pushed, popped}

abbrev pub other : Side → Side
other front = back
other back = front

-- the field `L` of a node, which is `prev`, or `R`, which is `next`
abbrev pub link : Side → Node ℤ → Ptr
link front n = n.prev
link back n = n.next

abbrev pub set_link : Side → Ptr → Node ℤ → Node ℤ
set_link front p n = record n { prev = p }
set_link back p n = record n { next = p }

-- `LeftHat`, `RightHat` and the nodes
pub record Deque : Type 0 where
  pub heap : Heap ℤ
  pub left_hat : Ptr
  pub right_hat : Ptr

abbrev pub hat : Side → Deque → Ptr
hat front d = d.left_hat
hat back d = d.right_hat

-- the words that `dcas` and `tcas` change
pub data Word : Type 0 where
  hat_of : Side → Word
  link_of : Side → Ptr → Word

pub record Swap : Type 0 where
  pub word : Word
  pub old : Ptr
  pub new : Ptr

abbrev pub swap : Word → Ptr → Ptr → Swap
swap w o n = record { word = w; old = o; new = n }

-- A word of a node that was never made matches nothing.
abbrev pub holds : Word → Ptr → Deque → Bool
holds (hat_of s) p d = hat s d == p
holds (link_of s q) p d = elim (d.heap q) [ none ↦ false | some n ↦ link s n == p ]

abbrev pub store : Word → Ptr → Deque → Deque
store (hat_of front) p d = record d { left_hat = p }
store (hat_of back) p d = record d { right_hat = p }
store (link_of s q) p d = elim (d.heap q) [
  | none ↦ d
  | some n ↦ record d { heap = write d.heap q (some (set_link s p n)) }
]

abbrev pub all_hold : List Swap → Deque → Bool
all_hold [] d = true
all_hold (x ∷ xs) d = holds x.word x.old d && all_hold xs d

abbrev pub store_all : List Swap → Deque → Deque
store_all [] d = d
store_all (x ∷ xs) d = store_all xs (store x.word x.new d)

-- `dcas` and `tcas`
abbrev pub mcas : List Swap → Deque → Bool × Deque
mcas xs d = if all_hold xs d then (true, store_all xs d) else (false, d)

-- Where a thread stands in its method: the command that is next, with the values of its variables. `n`
-- is `new_node` and `v` its value.
pub data Place : Type 0 where
  idle : Place
  -- `Node* lh = LeftHat`
  push_hat : Side → Ptr → ℤ → Place
  -- `Node* lhL = lh->L`
  push_out : Side → Ptr → ℤ → Ptr → Place
  -- `Node* rh = RightHat`
  push_empty : Side → Ptr → ℤ → Ptr → Place
  -- the `dcas` of both hats
  push_first : Side → Ptr → ℤ → Ptr → Ptr → Place
  -- the `dcas` of a hat and a link
  push_more : Side → Ptr → ℤ → Ptr → Ptr → Place
  -- `Node* lh = LeftHat`
  pop_hat : Side → Place
  -- `lh->L`, and `lh->R`
  pop_left : Side → Ptr → Place
  pop_right : Side → Ptr → Ptr → Place
  -- `LeftHat == lh`
  pop_check : Side → Ptr → Place
  -- the `tcas`
  pop_try : Side → Ptr → Ptr → Ptr → Place
  -- `int result = lh->data; return result`, for a pop whose value is `v`
  returning : Side → Ptr → ℤ → Place

pub record System : Type 0 where
  pub deque : Deque
  pub at : ℕ → Place

abbrev pub move : (ℕ → Place) → ℕ → Place → ℕ → Place
move f i p j = if i == j then p else f j

-- the two attempts of a push, and the attempt of a pop
unfoldable pub first_push : Side → Ptr → Ptr → Ptr → Deque → Bool × Deque
first_push s n h r d = mcas (swap (hat_of s) h n ∷ swap (hat_of (other s)) r n ∷ []) d

unfoldable pub further_push : Side → Ptr → Ptr → Ptr → Deque → Bool × Deque
further_push s n h o d = mcas (swap (hat_of s) h n ∷ swap (link_of s h) o n ∷ []) d

-- the link of the node on the side, of the two that were read
abbrev pub pick : Side → Ptr → Ptr → Ptr
pick front l r = l
pick back l r = r

unfoldable pub try_pop : Side → Ptr → Ptr → Ptr → Deque → Bool × Deque
try_pop s h l r d =
    mcas
      (swap (hat_of s) h (pick (other s) l r)
        ∷ swap (link_of (other s) h) (pick (other s) l r) h
        ∷ swap (link_of s h) (pick s l r) h
        ∷ [])
      d

-- behind the test `lhL == lh` of a push: the new node is linked inwards to the dummy or to the hat's
abbrev pub inwards : Ptr → Ptr → Ptr → Ptr
inwards dummy h o = if o == h then dummy else h

abbrev pub behind_out : Side → Ptr → ℤ → Ptr → Ptr → Place
behind_out s n v h o = if o == h then push_empty s n v h else push_more s n v h o

-- behind the test `lhL == lh` of a pop
abbrev pub behind_links : Side → Ptr → Ptr → Ptr → Place
behind_links s h l r = if pick s l r == h then pop_check s h else pop_try s h l r

module _ (dummy : Ptr) where
  -- the commands of the threads, one at a time
  pub data Step (σ : System) : List Event → System → Type 0 where
    -- the call of a push: `new Node()`, its outward link and its value
    calls_push :
        (i : ℕ) (s : Side) (v : ℤ) (fresh : Ptr)
        → σ.at i ≡ idle
        → fresh ≢ null
        → σ.deque.heap fresh ≡ none
        → Step σ [] (record {
          deque = record (σ.deque) {
            heap = write σ.deque.heap fresh (some (set_link s dummy (node v null null)));
          };
          at = move σ.at i (push_hat s fresh v);
        })
    reads_hat :
        (i : ℕ) (s : Side) (n : Ptr) (v : ℤ)
        → σ.at i ≡ push_hat s n v
        → Step σ [] (record σ { at = move σ.at i (push_out s n v (hat s σ.deque)) })
    reads_out :
        (i : ℕ) (s : Side) (n : Ptr) (v : ℤ) (h : Ptr) (x y : Node ℤ)
        → σ.at i ≡ push_out s n v h
        → σ.deque.heap h ≡ some x
        → σ.deque.heap n ≡ some y
        → Step σ [] (record {
          deque = record (σ.deque) {
            heap = write σ.deque.heap n (some (set_link (other s) (inwards dummy h (link s x)) y));
          };
          at = move σ.at i (behind_out s n v h (link s x));
        })
    reads_other :
        (i : ℕ) (s : Side) (n : Ptr) (v : ℤ) (h : Ptr)
        → σ.at i ≡ push_empty s n v h
        → Step σ [] (record σ { at = move σ.at i (push_first s n v h (hat (other s) σ.deque)) })
    pushes_first :
        (i : ℕ) (s : Side) (n : Ptr) (v : ℤ) (h r : Ptr)
        → σ.at i ≡ push_first s n v h r
        → (first_push s n h r σ.deque).0 ≡ true
        → Step σ
            (pushed s v ∷ [])
            (record { deque = (first_push s n h r σ.deque).1; at = move σ.at i idle })
    fails_first :
        (i : ℕ) (s : Side) (n : Ptr) (v : ℤ) (h r : Ptr)
        → σ.at i ≡ push_first s n v h r
        → (first_push s n h r σ.deque).0 ≡ false
        → Step σ []
            (record { deque = (first_push s n h r σ.deque).1; at = move σ.at i (push_hat s n v) })
    pushes_more :
        (i : ℕ) (s : Side) (n : Ptr) (v : ℤ) (h o : Ptr)
        → σ.at i ≡ push_more s n v h o
        → (further_push s n h o σ.deque).0 ≡ true
        → Step σ
            (pushed s v ∷ [])
            (record { deque = (further_push s n h o σ.deque).1; at = move σ.at i idle })
    fails_more :
        (i : ℕ) (s : Side) (n : Ptr) (v : ℤ) (h o : Ptr)
        → σ.at i ≡ push_more s n v h o
        → (further_push s n h o σ.deque).0 ≡ false
        → Step σ []
            (record { deque = (further_push s n h o σ.deque).1; at = move σ.at i (push_hat s n v) })
    calls_pop :
        (i : ℕ) (s : Side) → σ.at i ≡ idle → Step σ [] (record σ { at = move σ.at i (pop_hat s) })
    reads_pop_hat :
        (i : ℕ) (s : Side)
        → σ.at i ≡ pop_hat s
        → Step σ [] (record σ { at = move σ.at i (pop_left s (hat s σ.deque)) })
    reads_left :
        (i : ℕ) (s : Side) (h : Ptr) (x : Node ℤ)
        → σ.at i ≡ pop_left s h
        → σ.deque.heap h ≡ some x
        → Step σ [] (record σ { at = move σ.at i (pop_right s h (link front x)) })
    reads_right :
        (i : ℕ) (s : Side) (h l : Ptr) (x : Node ℤ)
        → σ.at i ≡ pop_right s h l
        → σ.deque.heap h ≡ some x
        → Step σ [] (record σ { at = move σ.at i (behind_links s h l (link back x)) })
    finds_empty :
        (i : ℕ) (s : Side) (h : Ptr)
        → σ.at i ≡ pop_check s h
        → hat s σ.deque ≡ h
        → Step σ (popped s minus_one ∷ []) (record σ { at = move σ.at i idle })
    finds_moved :
        (i : ℕ) (s : Side) (h : Ptr)
        → σ.at i ≡ pop_check s h
        → hat s σ.deque ≢ h
        → Step σ [] (record σ { at = move σ.at i (pop_hat s) })
    pops :
        (i : ℕ) (s : Side) (h l r : Ptr) (x : Node ℤ)
        → σ.at i ≡ pop_try s h l r
        → σ.deque.heap h ≡ some x
        → (try_pop s h l r σ.deque).0 ≡ true
        → Step σ (popped s x.payload ∷ []) (record {
          deque = (try_pop s h l r σ.deque).1;
          at = move σ.at i (returning s h x.payload);
        })
    fails_pop :
        (i : ℕ) (s : Side) (h l r : Ptr)
        → σ.at i ≡ pop_try s h l r
        → (try_pop s h l r σ.deque).0 ≡ false
        → Step σ [] (record { deque = (try_pop s h l r σ.deque).1; at = move σ.at i (pop_hat s) })
    returns :
        (i : ℕ) (s : Side) (h : Ptr) (v : ℤ)
        → σ.at i ≡ returning s h v
        → Step σ [] (record σ { at = move σ.at i idle })

  -- the runs from the constructor, each with what the methods did
  pub data Run (start : System) : List Event → System → Type 0 where
    here : Run start [] start
    next :
        {es fs : List Event} {σ τ : System} → Run start es σ → Step σ fs τ → Run start (es ++ fs) τ

  -- `Deque()`
  unfoldable pub construct : Heap ℤ → Deque
  construct h = record {
    heap = write h dummy (some (node (ℤ.pos 0) dummy dummy));
    left_hat = dummy;
    right_hat = dummy;
  }
