-- ===== src/HtmMcas/Deque.antt =====
-- htm-mcas/Deque.h, with Stack.h and Queue.h: hats, dummy and nodes as in the Snark deque, and one
-- transaction for each method. A method and its mirror image are one function of the side, `front` for
-- the left one. The popped nodes are never deleted.
pub mod Runs
pub mod Contract
pub mod Methods
use data_structure_benchmark.Base.{◌≡◌, Option, none, some, List, ◌==◌, if◌then◌else◌}
use data_structure_benchmark.Base.Int.{ℤ, minus_one}
use data_structure_benchmark.Heap.{Ptr, Node, node, null, Heap, write}
use data_structure_benchmark.Lockbased.Deque.Spec.{Side, front, back}
use data_structure_benchmark.LockfreeMcas.Deque.{
  Deque, other, link, set_link, hat, hat_of, link_of, store,
}
use data_structure_benchmark.Tm.{Answers, Entry, speculative, fallback, refused, undecided, begin}

-- how a method ends: it returns, it reads or writes no node, or the processor has not let it in
pub data Outcome (B : Type 0) : Type 0 where
  done : B → Deque → Outcome B
  fault : Outcome B
  waiting : Outcome B

abbrev pub Method : Type 0 → Type 0
Method B = Deque → Outcome B

abbrev pub pure : {B : Type 0} → B → Method B
pure = done

abbrev pub and_then : {B C : Type 0} → Outcome B → (B → Method C) → Outcome C
and_then (done b d) k = k b d
and_then fault k = fault
and_then waiting k = waiting

infixl 5 ◌>>=◌ ◌>>◌
abbrev pub ◌>>=◌ : {B C : Type 0} → Method B → (B → Method C) → Method C
m >>= k = λ d. and_then (m d) k

abbrev pub ◌>>◌ : {B C : Type 0} → Method B → Method C → Method C
m >> n = m >>= λ _. n

abbrev pub read_hat : Side → Method Ptr
read_hat s d = done (hat s d) d

abbrev pub read : Ptr → Method (Node ℤ)
read p d = elim (d.heap p) [ none ↦ fault | some x ↦ done x d ]

abbrev pub write_hat : Side → Ptr → Method (Unit {0})
write_hat s p d = done tt (store (hat_of s) p d)

-- `p->L = q` or `p->R = q`
abbrev pub write_link : Side → Ptr → Ptr → Method (Unit {0})
write_link s p q d = elim (d.heap p) [ none ↦ fault | some x ↦ done tt (store (link_of s p) q d) ]

-- what stands between `TM_BEGIN` and `TM_END`
unfoldable pub transaction : {B : Type 0} → Answers → Method B → Method B
transaction tries body = elim (begin tries) [
  | speculative ↦ body
  | fallback ↦ body
  | refused ↦ λ _. waiting
  | undecided ↦ λ _. waiting
]

-- the branches of a push, with the hat `h` and its outward link `o`
unfoldable pub push_links : Ptr → Side → Ptr → Ptr → Ptr → Method (Unit {0})
push_links dummy s new h o =
    if o == h
    then (write_link (other s) new dummy >> write_hat s new >> write_hat (other s) new)
    else (write_link (other s) new h >> write_hat s new >> write_link s h new)

unfoldable pub push_section : Ptr → Side → Ptr → Method (Unit {0})
push_section dummy s new = do h ← read_hat s; x ← read h; push_links dummy s new h (link s x)

-- the second branch of a pop, with the hat `h` and its inward link `i`
unfoldable pub pop_links : Side → Ptr → Ptr → Method ℤ
pop_links s h i = do
  write_hat s i
  write_link (other s) h h
  write_link s h h
  x ← read h
  pure x.payload

unfoldable pub pop_section : Side → Method ℤ
pop_section s = do
  h ← read_hat s
  x ← read h
  if link s x == h then pure minus_one else pop_links s h (link (other s) x)

-- `new Node()`, the outward link and the value
unfoldable pub make_node : Ptr → Side → ℤ → Ptr → Method (Unit {0})
make_node dummy s value fresh d =
    done tt
      (record d { heap = write d.heap fresh (some (set_link s dummy (node value null null))) })

-- `push_front` and `push_back`
unfoldable pub push : Answers → Ptr → Side → ℤ → Ptr → Method (Unit {0})
push tries dummy s value fresh = do
  make_node dummy s value fresh
  transaction tries (push_section dummy s fresh)

-- `pop_front` and `pop_back`
unfoldable pub pop : Answers → Side → Method ℤ
pop tries s = transaction tries (pop_section s)

-- `Stack` and `Queue`
unfoldable pub stack_push : Answers → Ptr → ℤ → Ptr → Method (Unit {0})
stack_push tries dummy value fresh = push tries dummy front value fresh

unfoldable pub stack_pop : Answers → Method ℤ
stack_pop tries = pop tries front

unfoldable pub queue_push : Answers → Ptr → ℤ → Ptr → Method (Unit {0})
queue_push tries dummy value fresh = push tries dummy back value fresh

unfoldable pub queue_pop : Answers → Method ℤ
queue_pop tries = pop tries front
