-- ===== src/HtmLock/HashMap/Equivalence.antt =====
-- The hash map in transactions against the lock-based one, one thread at a time.
use data_structure_benchmark.Base.{
  ℕ, zero, suc, ◌≡◌, ◌≢◌, refl, Bool-cases, Option-cases, inl, inr, ◌==◌,
}
use data_structure_benchmark.Base.Int.{ℤ, eq_int}
use data_structure_benchmark.Heap.{Ptr, Heap, load, and_then}
use data_structure_benchmark.Heap.Access.{load_ok, load-none}
use data_structure_benchmark.Tm.{Answers, undecided, begin}
use data_structure_benchmark.HtmLock.{atomically_runs}
use data_structure_benchmark.HtmLock.HashMap.{
  HashMap, find_loop, read_found, insert_section, contains_section, remove_section, find_section,
  insert_or_assign, contains, remove, find,
}
use data_structure_benchmark.Lockbased.HashMap as Locked
use data_structure_benchmark.Lockbased.HashMap.{Entry, index}

-- Reading the value behind the loop gives what reading it in the loop gives.
find_loop-locked :
    (key : ℤ) (tail : Ptr) (k : ℕ) (curr : Ptr) (h : Heap Entry)
    → and_then (find_loop key tail k curr h) read_found ≡ Locked.find_loop key tail k curr h
unfolding find_loop read_found Locked.find_loop load
find_loop-locked key tail zero curr h = refl
find_loop-locked key tail (suc k) curr h = elim (Bool-cases (curr == tail)) [
  | inl e ↦ rw e refl
  | inr e ↦ elim (Option-cases (h curr)) [
    | inl gone ↦ rw (e, load-none h curr gone) refl
    | inr (n, at) ↦
        rw (e, load_ok h curr at)
          (elim (Bool-cases (eq_int n.payload.key key)) [
            | inl q ↦ rw (q, load_ok h curr at) refl
            | inr q ↦ rw q (find_loop-locked key tail k n.next h)
          ])
  ]
]

find_section-locked :
    (hash : ℤ → ℕ) (fuel : ℕ) (m : HashMap) (key : ℤ) (h : Heap Entry)
    → and_then (find_section hash fuel m key h) read_found ≡ Locked.find hash fuel m key h
unfolding find_section Locked.find
find_section-locked hash fuel m key h = elim (Option-cases (h (m.bucket_heads (index hash key)))) [
  | inl gone ↦ rw (load-none h (m.bucket_heads (index hash key)) gone) refl
  | inr (n, at) ↦
      rw (load_ok h (m.bucket_heads (index hash key)) at)
        (find_loop-locked key (m.bucket_tails (index hash key)) fuel n.next h)
]

-- Once `TM_BEGIN` has returned, each operation does to any heap what the lock-based one does, with the
-- same result, if no other thread runs until it returns.
pub hash_map-locked :
    (hash : ℤ → ℕ) (tries : Answers) (fuel : ℕ) (m : HashMap) (key v : ℤ) (fresh : Ptr)
    (h : Heap Entry)
    → begin tries ≢ undecided
    → (insert_or_assign hash tries fuel m key v fresh h
        ≡ Locked.insert_or_assign hash fuel m key v fresh h)
      × (contains hash tries fuel m key h ≡ Locked.contains hash fuel m key h)
      × (remove hash tries fuel m key h ≡ Locked.remove hash fuel m key h)
      × (find hash tries fuel m key h ≡ Locked.find hash fuel m key h)
unfolding insert_or_assign contains remove find insert_section contains_section remove_section
    Locked.insert_or_assign Locked.contains Locked.remove Locked.remove_locked
hash_map-locked hash tries fuel m key v fresh h decided = (
  rw (atomically_runs tries (insert_section hash fuel m key v fresh) decided) refl,
  rw (atomically_runs tries (contains_section hash fuel m key) decided) refl,
  rw (atomically_runs tries (remove_section hash fuel m key) decided) refl,
  rw (atomically_runs tries (find_section hash fuel m key) decided)
      (find_section-locked hash fuel m key h),
)
