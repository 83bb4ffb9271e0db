-- ===== src/HtmLock/ArraySwap.antt =====
-- htm-lock/array_swap.h
pub mod Swap
use data_structure_benchmark.Base.{
  ℕ, Bool, true, ◌&&◌, Option, none, some, List, ◌==◌, ltb, if◌then◌else◌,
}
use data_structure_benchmark.Heap.{Ptr}
use data_structure_benchmark.Tm.{Answers, speculative, fallback, refused, undecided, begin}
use data_structure_benchmark.Lockbased.ArraySwap.{num_rows, set}

-- how a call ends
pub data Outcome : Type 0 where
  -- `return`, and the pointers `elements_` of the rows
  returned : Bool → (ℕ → Ptr) → Outcome
  -- the assertion fails
  aborted : Outcome
  -- the processor has not let the thread in
  waiting : Outcome

-- the three assignments between `TM_BEGIN` and `TM_END`
unfoldable pub swap_section : ℕ → ℕ → (ℕ → Ptr) → ℕ → Ptr
swap_section index_a index_b elements =
    let temp = elements index_a in
    let elements' = set elements index_a (elements index_b) in set elements' index_b temp

unfoldable pub swap_ordered : Answers → ℕ → ℕ → (ℕ → Ptr) → Outcome
swap_ordered tries index_a index_b elements = elim (begin tries) [
  | speculative ↦ returned true (swap_section index_a index_b elements)
  | fallback ↦ returned true (swap_section index_a index_b elements)
  | refused ↦ waiting
  | undecided ↦ waiting
]

unfoldable pub swap : Answers → ℕ → ℕ → (ℕ → Ptr) → Outcome
swap tries index_a index_b elements =
    if ltb index_a num_rows && ltb index_b num_rows
    then (if index_a == index_b
        then returned true elements
        else if ltb index_b index_a
        then swap_ordered tries index_b index_a elements
        else swap_ordered tries index_a index_b elements)
    else aborted
