-- ===== src/HtmLock.antt =====
-- htm-lock/: the structures of lockbased/ with hardware transactions for the mutex. `tries` is what one call
-- of `TM_BEGIN` meets.
pub mod Deque
pub mod SortedList
pub mod HashMap
pub mod ArraySwap
pub mod BinarySearchTree
mod Tests
use data_structure_benchmark.Base.{◌≡◌, refl, ◌≢◌, List}
use data_structure_benchmark.Heap.{Command, exhausted}
use data_structure_benchmark.Tm.{Answers, Entry, speculative, fallback, refused, undecided, begin}
use data_structure_benchmark.Tm.Begin.{begin-ne_refused}

module _ {ℓ κ} {A : Type ℓ} {B : Type κ} where
  -- What stands between `TM_BEGIN` and `TM_END` runs in a transaction or with the lock taken, in either
  -- case as one step; while the processor has not let the thread in, the call has not returned.
  unfoldable pub atomically : Answers → Command A B → Command A B
  atomically tries body = elim (begin tries) [
    | speculative ↦ body
    | fallback ↦ body
    | refused ↦ λ _. exhausted
    | undecided ↦ λ _. exhausted
  ]

  by_entry :
      (e : Entry) (body : Command A B)
      → e ≢ refused
      → e ≢ undecided
      → elim e [
        | speculative ↦ body
        | fallback ↦ body
        | refused ↦ λ _. exhausted
        | undecided ↦ λ _. exhausted
      ]
        ≡ body
  by_entry speculative body p q = refl
  by_entry fallback body p q = refl
  by_entry refused body p q = absurd (p refl)
  by_entry undecided body p q = absurd (q refl)

  -- Once `TM_BEGIN` has returned, the body runs.
  pub atomically_runs :
      (tries : Answers) (body : Command A B)
      → begin tries ≢ undecided
      → atomically tries body ≡ body
  unfolding atomically
  atomically_runs tries body decided = by_entry (begin tries) body (begin-ne_refused tries) decided
