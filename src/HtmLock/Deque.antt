-- ===== src/HtmLock/Deque.antt =====
-- htm-lock/Deque.h, and its wrappers htm-lock/Stack.h and htm-lock/Queue.h. What stands between `TM_BEGIN`
-- and `TM_END` is a function `…_section`, with each `head->next` and `tail->prev` read where it stands.
pub mod Equivalence
use data_structure_benchmark.Base.{ℕ, Option, none, some, List, ◌==◌, if◌then◌else◌}
use data_structure_benchmark.Base.Int.{ℤ, pos, minus_one}
use data_structure_benchmark.Heap.{
  Ptr, Command, pure, ◌>>=◌, ◌>>◌, load, set_next, set_prev, set_payload, new_node, delete,
}
use data_structure_benchmark.Linked.{destroy_loop}
use data_structure_benchmark.Tm.{Answers}
use data_structure_benchmark.HtmLock.{atomically}
use data_structure_benchmark.Lockbased.Deque as Locked

-- The fields are those of the lock-based class, less the mutex.
abbrev pub Deque : Type 0
Deque = Locked.Deque

-- `Deque()`
unfoldable pub construct : Ptr → Ptr → Command ℤ Deque
construct head tail = do
  new_node (pos 0) head
  new_node (pos 0) tail
  set_next head tail
  set_prev tail head
  pure (record { head = head; tail = tail })

-- `~Deque()`, with fuel for its loop
unfoldable pub destroy : ℕ → Deque → Command ℤ (Unit {0})
destroy fuel d = do destroy_loop d.tail fuel d.head; delete d.tail

-- the new node of a push
unfoldable pub make_node : ℤ → Ptr → Command ℤ (Unit {0})
make_node value fresh = do new_node (pos 0) fresh; set_payload fresh value

unfoldable pub push_front_section : Deque → Ptr → Command ℤ (Unit {0})
push_front_section d new = do
  hd ← load d.head
  set_next new hd.next
  set_prev new d.head
  hd ← load d.head
  set_prev hd.next new
  set_next d.head new

unfoldable pub push_back_section : Deque → Ptr → Command ℤ (Unit {0})
push_back_section d new = do
  set_next new d.tail
  tl ← load d.tail
  set_prev new tl.prev
  tl ← load d.tail
  set_next tl.prev new
  set_prev d.tail new

-- `data`, and `tmp` if `found`
unfoldable pub pop_front_section : Deque → Command ℤ (ℤ × Option Ptr)
pop_front_section d = do
  hd ← load d.head
  if hd.next == d.tail then pure (minus_one, none) else do
    x ← load d.head
    first ← load x.next
    tmp ← load d.head
    y ← load d.head
    second ← load y.next
    set_next d.head second.next
    z ← load d.head
    set_prev z.next d.head
    pure (first.payload, some tmp.next)

unfoldable pub pop_back_section : Deque → Command ℤ (ℤ × Option Ptr)
pop_back_section d = do
  tl ← load d.tail
  if tl.prev == d.head then pure (minus_one, none) else do
    x ← load d.tail
    last ← load x.prev
    tmp ← load d.tail
    y ← load d.tail
    second ← load y.prev
    set_prev d.tail second.prev
    z ← load d.tail
    set_next z.prev d.tail
    pure (last.payload, some tmp.prev)

-- `if (found) delete tmp;`
unfoldable pub delete_found : Option Ptr → Command ℤ (Unit {0})
delete_found none = pure tt
delete_found (some tmp) = delete tmp

module _ (tries : Answers) where
  unfoldable pub push_front : Deque → ℤ → Ptr → Command ℤ (Unit {0})
  push_front d value fresh = do make_node value fresh; atomically tries (push_front_section d fresh)

  unfoldable pub push_back : Deque → ℤ → Ptr → Command ℤ (Unit {0})
  push_back d value fresh = do make_node value fresh; atomically tries (push_back_section d fresh)

  unfoldable pub pop_front : Deque → Command ℤ ℤ
  pop_front d = do
    (value, tmp) ← atomically tries (pop_front_section d)
    delete_found tmp
    pure value

  unfoldable pub pop_back : Deque → Command ℤ ℤ
  pop_back d = do (value, tmp) ← atomically tries (pop_back_section d); delete_found tmp; pure value

  -- `Stack`
  unfoldable pub stack_push : Deque → ℤ → Ptr → Command ℤ (Unit {0})
  stack_push s value fresh = push_front s value fresh

  unfoldable pub stack_pop : Deque → Command ℤ ℤ
  stack_pop s = pop_front s

  -- `Queue`
  unfoldable pub queue_push : Deque → ℤ → Ptr → Command ℤ (Unit {0})
  queue_push q value fresh = push_back q value fresh

  unfoldable pub queue_pop : Deque → Command ℤ ℤ
  queue_pop q = pop_front q
