-- ===== src/HtmLock/SortedList/Equivalence.antt =====
-- The sorted list in transactions against the lock-based one.
use data_structure_benchmark.Base.{ℕ, ◌≡◌, ◌≢◌, refl, fun_ext, arith}
use data_structure_benchmark.Base.Int.{ℤ}
use data_structure_benchmark.Heap.{Ptr, Heap, load}
use data_structure_benchmark.Tm.{Answers, undecided, begin}
use data_structure_benchmark.HtmLock.{atomically_runs}
use data_structure_benchmark.HtmLock.SortedList.{
  SortedList, insert_section, remove_found, remove_section, count_section, insert, remove, count,
}
use data_structure_benchmark.Lockbased.SortedList as Locked

remove_found-locked :
    (l : SortedList) (v : ℤ) (curr : Ptr) → remove_found l v curr ≡ Locked.remove_at l v curr
unfolding remove_found Locked.remove_at load
remove_found-locked l v curr = fun_ext λ h. ground arith

remove_section-locked :
    (fuel : ℕ) (l : SortedList) (v : ℤ) → remove_section fuel l v ≡ Locked.remove_locked fuel l v
unfolding remove_section Locked.remove_locked
remove_section-locked fuel l v = simp (remove_found-locked)

-- Once `TM_BEGIN` has returned, `insert`, `remove` and `count` do to any heap what the lock-based ones
-- do, with the same result.
pub sorted_list-locked :
    (tries : Answers) (fuel : ℕ) (l : SortedList) (v : ℤ) (fresh : Ptr) (h : Heap ℤ)
    → begin tries ≢ undecided
    → (insert tries fuel l v fresh h ≡ Locked.insert fuel l v fresh h)
      × (remove tries fuel l v h ≡ Locked.remove fuel l v h)
      × (count tries fuel l v h ≡ Locked.count fuel l v h)
unfolding insert remove count insert_section count_section Locked.insert Locked.insert_locked
    Locked.remove Locked.count
sorted_list-locked tries fuel l v fresh h decided = (
  rw (atomically_runs tries (insert_section fuel l v fresh) decided) refl,
  rw (atomically_runs tries (remove_section fuel l v) decided, remove_section-locked fuel l v) refl,
  rw (atomically_runs tries (count_section fuel l v) decided) refl,
)
