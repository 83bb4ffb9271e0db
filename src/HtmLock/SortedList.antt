-- ===== src/HtmLock/SortedList.antt =====
-- htm-lock/SortedList.h. The code between `TM_BEGIN` and `TM_END` that differs from the lock-based one
-- is a function `…_section`; each loop takes fuel.
pub mod Equivalence
use data_structure_benchmark.Base.{ℕ, Option, none, some, List, ◌==◌, not, if◌then◌else◌}
use data_structure_benchmark.Base.Int.{ℤ, pos, lt_int, eq_int}
use data_structure_benchmark.Heap.{
  Ptr, Command, pure, ◌>>=◌, ◌>>◌, load, set_next, set_prev, new_node, delete,
}
use data_structure_benchmark.Linked.{walk, link_node, unlink_node, destroy_loop}
use data_structure_benchmark.Tm.{Answers}
use data_structure_benchmark.HtmLock.{atomically}
use data_structure_benchmark.Lockbased.SortedList as Locked
use data_structure_benchmark.Lockbased.SortedList.{make_node, dispose, count_loop}

-- The fields are those of the lock-based class, less the mutex.
abbrev pub SortedList : Type 0
SortedList = Locked.SortedList

-- `SortedList()`
unfoldable pub construct : Ptr → Ptr → Command ℤ SortedList
construct head tail = do
  new_node (pos 0) head
  new_node (pos 0) tail
  set_next head tail
  set_prev tail head
  pure (record { head = head; tail = tail })

-- `~SortedList()`, with fuel for its loop
unfoldable pub destroy : ℕ → SortedList → Command ℤ (Unit {0})
destroy fuel l = do destroy_loop l.tail fuel l.head; delete l.tail

unfoldable pub insert_section : ℕ → SortedList → ℤ → Ptr → Command ℤ (Unit {0})
insert_section fuel l value new = do
  hd ← load l.head
  (parent, curr) ← walk (λ v. lt_int v value) l.tail fuel l.head hd.next
  link_node new parent curr

-- behind the loop: nothing at `tail` or at another value, and otherwise the node, taken out
unfoldable pub remove_found : SortedList → ℤ → Ptr → Command ℤ (Option Ptr)
remove_found l value curr = if curr == l.tail then pure none else do
  n ← load curr
  if not (eq_int n.payload value) then pure none else (unlink_node curr >> pure (some curr))

unfoldable pub remove_section : ℕ → SortedList → ℤ → Command ℤ (Option Ptr)
remove_section fuel l value = do
  hd ← load l.head
  (_, curr) ← walk (λ v. lt_int v value) l.tail fuel l.head hd.next
  remove_found l value curr

unfoldable pub count_section : ℕ → SortedList → ℤ → Command ℤ ℕ
count_section fuel l value = do hd ← load l.head; count_loop value l.tail fuel hd.next 0

module _ (tries : Answers) where
  unfoldable pub insert : ℕ → SortedList → ℤ → Ptr → Command ℤ (Unit {0})
  insert fuel l value fresh = do
    make_node value fresh
    atomically tries (insert_section fuel l value fresh)

  unfoldable pub remove : ℕ → SortedList → ℤ → Command ℤ (Unit {0})
  remove fuel l value = do tmp ← atomically tries (remove_section fuel l value); dispose tmp

  unfoldable pub count : ℕ → SortedList → ℤ → Command ℤ ℕ
  count fuel l value = atomically tries (count_section fuel l value)
