-- ===== src/HtmMcas/SortedList.antt =====
-- htm-mcas/SortedList.h: a sorted list with one transaction for each method. What stands between
-- `TM_BEGIN` and `TM_END` is a function `…_section`; the loops take fuel, and so do the calls of
-- `insert_before` and `insert_after`, of each other. The nodes that `remove` takes out are never deleted.
pub mod Splice
pub mod Remove
pub mod Contract
use data_structure_benchmark.Base.{
  ℕ, zero, suc, Bool, true, false, List, ◌==◌, ◌||◌, if◌then◌else◌, not,
}
use data_structure_benchmark.Base.Int.{ℤ, pos, lt_int, eq_int}
use data_structure_benchmark.Heap.{
  Ptr, null, Command, exhausted, pure, ◌>>=◌, ◌>>◌, load, set_next, set_prev, set_payload, new_node,
}
use data_structure_benchmark.Lockbased.SortedList as Locked
use data_structure_benchmark.Tm.{Answers}
use data_structure_benchmark.HtmLock.{atomically}
use data_structure_benchmark.HtmMcas.Links.{walk_to, splice_before, splice_after, delete_node}

-- The fields are those of the lock-based class, less the mutex.
abbrev pub SortedList : Type 0
SortedList = Locked.SortedList

-- `SortedList()`
unfoldable pub construct : Ptr → Ptr → Command ℤ SortedList
construct head tail = do
  new_node (pos 0) head
  new_node (pos 0) tail
  set_next head tail
  set_prev tail head
  pure (record { head = head; tail = tail })

abbrev skip : Command ℤ (Unit {0})
skip = pure tt

unfoldable mutual
  pub insert_before : ℕ → SortedList → Ptr → Ptr → Command ℤ (Unit {0})
  insert_before zero l next new = λ _. exhausted
  insert_before (suc k) l next new = do
    elim (next == l.head) [ true ↦ insert_after k l next new | false ↦ skip ]
    prev ← splice_before next new
    set_next new next
    set_prev new prev

  pub insert_after : ℕ → SortedList → Ptr → Ptr → Command ℤ (Unit {0})
  insert_after zero l prev new = λ _. exhausted
  insert_after (suc k) l prev new = do
    elim (prev == l.tail) [ true ↦ insert_before k l prev new | false ↦ skip ]
    next ← splice_after prev new
    set_next new next
    set_prev new prev

-- the new node of `insert`
unfoldable pub make_node : ℤ → Ptr → Command ℤ (Unit {0})
make_node value fresh = do
  new_node (pos 0) fresh
  set_payload fresh value
  set_next fresh null
  set_prev fresh null

unfoldable pub insert_section : ℕ → SortedList → ℤ → Ptr → Command ℤ (Unit {0})
insert_section fuel l value new = do
  hd ← load l.head
  curr ← walk_to (λ v. lt_int v value) l.tail fuel hd.next
  insert_before fuel l curr new

-- behind the loop of `remove`
unfoldable pub remove_at : SortedList → ℤ → Ptr → Command ℤ (Unit {0})
remove_at l value curr = if curr == l.tail then pure tt else do
  n ← load curr
  if not (eq_int n.payload value) then pure tt else delete_node l.head l.tail curr

unfoldable pub remove_section : ℕ → SortedList → ℤ → Command ℤ (Unit {0})
remove_section fuel l value = do
  hd ← load l.head
  curr ← walk_to (λ v. lt_int v value) l.tail fuel hd.next
  remove_at l value curr

unfoldable pub count_section : ℕ → SortedList → ℤ → Command ℤ ℕ
count_section fuel l value = do hd ← load l.head; Locked.count_loop value l.tail fuel hd.next 0

module _ (tries : Answers) where
  unfoldable pub insert : ℕ → SortedList → ℤ → Ptr → Command ℤ (Unit {0})
  insert fuel l value fresh = do
    make_node value fresh
    atomically tries (insert_section fuel l value fresh)

  unfoldable pub remove : ℕ → SortedList → ℤ → Command ℤ (Unit {0})
  remove fuel l value = atomically tries (remove_section fuel l value)

  unfoldable pub count : ℕ → SortedList → ℤ → Command ℤ ℕ
  count fuel l value = atomically tries (count_section fuel l value)
