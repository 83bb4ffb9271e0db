-- ===== src/Lockbased/Deque.antt =====
-- lockbased/Deque.h: a doubly linked deque with two sentinels under one mutex. What an operation
-- does under the mutex is one function, named `…_locked`; the allocation before it and the deletion
-- behind it are outside. `fresh` is the address that `new` returns.
pub mod Shape
pub mod Push
pub mod Pop
pub mod Destroy
pub mod Spec
pub mod Contents
pub mod Operations
pub mod Threads
mod Tests
use data_structure_benchmark.Base.{ℕ, Option, none, some, ◌==◌, if◌then◌else◌}
use data_structure_benchmark.Base.Int.{ℤ, pos, minus_one}
use data_structure_benchmark.Linked.{destroy_loop}
use data_structure_benchmark.Heap.{
  Ptr, Command, pure, ◌>>=◌, ◌>>◌, load, set_next, set_prev, set_payload, new_node, delete,
}

-- the fields of the class, which only the constructor writes
pub record Deque : Type 0 where
  pub head : Ptr
  pub tail : Ptr

-- `Deque()`
unfoldable pub construct : Ptr → Ptr → Command ℤ Deque
construct head tail = do
  new_node (pos 0) head
  new_node (pos 0) tail
  set_next head tail
  set_prev tail head
  pure (record { head = head; tail = tail })

-- `Node *new_node = new Node(); new_node->data = data;`
unfoldable pub make_node : ℤ → Ptr → Command ℤ (Unit {0})
make_node value fresh = do new_node (pos 0) fresh; set_payload fresh value

unfoldable pub push_front_locked : Deque → Ptr → Command ℤ (Unit {0})
push_front_locked d new = do
  hd ← load d.head
  set_next new hd.next
  set_prev new d.head
  hd ← load d.head
  set_prev hd.next new
  set_next d.head new

unfoldable pub push_front : Deque → ℤ → Ptr → Command ℤ (Unit {0})
push_front d value fresh = do make_node value fresh; push_front_locked d fresh

unfoldable pub push_back_locked : Deque → Ptr → Command ℤ (Unit {0})
push_back_locked d new = do
  set_next new d.tail
  tl ← load d.tail
  set_prev new tl.prev
  tl ← load d.tail
  set_next tl.prev new
  set_prev d.tail new

unfoldable pub push_back : Deque → ℤ → Ptr → Command ℤ (Unit {0})
push_back d value fresh = do make_node value fresh; push_back_locked d fresh

-- The result, and the node to delete if one was found.
unfoldable pub pop_front_locked : Deque → Command ℤ (ℤ × Option Ptr)
pop_front_locked d = do
  hd ← load d.head
  if hd.next == d.tail then pure (minus_one, none) else do
    found ← load hd.next
    set_next d.head found.next
    hd' ← load d.head
    set_prev hd'.next d.head
    pure (found.payload, some hd.next)

unfoldable pub pop_back_locked : Deque → Command ℤ (ℤ × Option Ptr)
pop_back_locked d = do
  tl ← load d.tail
  if tl.prev == d.head then pure (minus_one, none) else do
    found ← load tl.prev
    set_prev d.tail found.prev
    tl' ← load d.tail
    set_next tl'.prev d.tail
    pure (found.payload, some tl.prev)

-- `if (found) delete tmp;`
unfoldable pub dispose : Option Ptr → Command ℤ (Unit {0})
dispose none = pure tt
dispose (some p) = delete p

unfoldable pub pop_front : Deque → Command ℤ ℤ
pop_front d = do (value, tmp) ← pop_front_locked d; dispose tmp; pure value

unfoldable pub pop_back : Deque → Command ℤ ℤ
pop_back d = do (value, tmp) ← pop_back_locked d; dispose tmp; pure value

-- `~Deque()`, with fuel for its loop
unfoldable pub destroy : ℕ → Deque → Command ℤ (Unit {0})
destroy fuel d = do destroy_loop d.tail fuel d.head; delete d.tail
