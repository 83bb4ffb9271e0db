-- ===== src/Lockbased/SortedList.antt =====
-- lockbased/SortedList.h: a sorted doubly linked list with two sentinels under one mutex. `…_locked`
-- is what an operation does under the mutex. Each loop takes fuel; `fresh` is what `new` returns.
pub mod Order
pub mod Shape
pub mod Insert
pub mod Remove
pub mod Count
pub mod Tests
use data_structure_benchmark.Base.{
  ℕ, zero, suc, ◌+◌, ◌-◌, ◌^◌, ◌<◌, Bool, Option, none, some, ◌==◌, ltb, if◌then◌else◌,
}
use data_structure_benchmark.Base.Int.{ℤ, pos, lt_int, eq_int}
use data_structure_benchmark.Heap.{
  Ptr, Command, fault, exhausted, pure, ◌>>=◌, ◌>>◌, load, set_next, set_prev, set_payload,
  new_node, delete,
}
use data_structure_benchmark.Linked.{walk, link_node, unlink_node, destroy_loop}

-- the fields of the class, which only the constructor writes
pub record SortedList : Type 0 where
  pub head : Ptr
  pub tail : Ptr

-- `SortedList()`
unfoldable pub construct : Ptr → Ptr → Command ℤ SortedList
construct head tail = do
  new_node (pos 0) head
  new_node (pos 0) tail
  set_next head tail
  set_prev tail head
  pure (record { head = head; tail = tail })

-- `~SortedList()`, with fuel for its loop
unfoldable pub destroy : ℕ → SortedList → Command ℤ (Unit {0})
destroy fuel l = do destroy_loop l.tail fuel l.head; delete l.tail

-- `Node *new_node = new Node(); new_node->data = data;`
unfoldable pub make_node : ℤ → Ptr → Command ℤ (Unit {0})
make_node value fresh = do new_node (pos 0) fresh; set_payload fresh value

unfoldable pub insert_locked : ℕ → SortedList → ℤ → Ptr → Command ℤ (Unit {0})
insert_locked fuel l value new = do
  hd ← load l.head
  (parent, curr) ← walk (λ v. lt_int v value) l.tail fuel l.head hd.next
  link_node new parent curr

unfoldable pub insert : ℕ → SortedList → ℤ → Ptr → Command ℤ (Unit {0})
insert fuel l value fresh = do make_node value fresh; insert_locked fuel l value fresh

-- behind the loop of `remove`: the node to delete, if one was found
unfoldable pub remove_at : SortedList → ℤ → Ptr → Command ℤ (Option Ptr)
remove_at l value curr = if curr == l.tail then pure none else do
  n ← load curr
  if eq_int n.payload value then (unlink_node curr >> pure (some curr)) else pure none

unfoldable pub remove_locked : ℕ → SortedList → ℤ → Command ℤ (Option Ptr)
remove_locked fuel l value = do
  hd ← load l.head
  (_, curr) ← walk (λ v. lt_int v value) l.tail fuel l.head hd.next
  remove_at l value curr

-- `delete tmp;`, which the early returns skip
unfoldable pub dispose : Option Ptr → Command ℤ (Unit {0})
dispose none = pure tt
dispose (some p) = delete p

unfoldable pub remove : ℕ → SortedList → ℤ → Command ℤ (Unit {0})
remove fuel l value = do tmp ← remove_locked fuel l value; dispose tmp

abbrev pub int_max : ℕ
int_max = 2 ^ 31 - 1

-- `n_val++` on an `int`: an overflow is undefined.
unfoldable pub increment : ℕ → Command ℤ ℕ
increment n = if ltb n int_max then pure (n + 1) else (λ _. fault)

unfoldable pub count_loop : ℤ → Ptr → ℕ → Ptr → ℕ → Command ℤ ℕ
count_loop value tail zero curr n_val = λ _. exhausted
count_loop value tail (suc k) curr n_val = if curr == tail then pure n_val else do
  n ← load curr
  n_val ← (if eq_int n.payload value then increment n_val else pure n_val)
  count_loop value tail k n.next n_val

unfoldable pub count : ℕ → SortedList → ℤ → Command ℤ ℕ
count fuel l value = do hd ← load l.head; count_loop value l.tail fuel hd.next 0
