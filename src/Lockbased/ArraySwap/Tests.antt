-- ===== src/Lockbased/ArraySwap/Tests.antt =====
-- Two threads on the array.
use data_structure_benchmark.Base.{ℕ, ◌+◌, ◌≡◌, refl, [], ◌∷◌, arith}
use data_structure_benchmark.Heap.{Ptr}
use data_structure_benchmark.Lockbased.ArraySwap.{
  System, enter, locks_first, locks_second, saves, copies, restores, unlocks_first, unlocks_second,
  moves, calls, Reach, here, next,
}
use data_structure_benchmark.Lockbased.ArraySwap.Safety.{swaps_serialize, CanMove, no_deadlock}

abbrev initial : ℕ → Ptr
initial i = i + 1

-- Thread 0 has swapped the rows 5 and 3.
abbrev swapped_once : (σ : System) × Reach initial ((3, 5) ∷ []) σ
unfolding enter
swapped_once = (
  _,
  next
      (next
        (next
          (next
            (next
              (next
                (next (next here (calls 0 5 3 refl (omega arith) (omega arith)))
                  (moves (locks_first 0 3 5 refl refl)))
                (moves (locks_second 0 3 5 refl refl)))
              (moves (saves 0 3 5 refl)))
            (moves (copies 0 3 5 4 refl)))
          (moves (restores 0 3 5 4 refl)))
        (moves (unlocks_first 0 3 5 refl)))
      (moves (unlocks_second 0 3 5 refl)),
)

-- Thread 0 has locked row 3, and thread 1 waits for it.
abbrev waiting : (σ : System) × Reach initial [] σ
unfolding enter
waiting = (
  _,
  next
      (next (next here (calls 0 5 3 refl (omega arith) (omega arith)))
        (moves (locks_first 0 3 5 refl refl)))
      (calls 1 3 8 refl (omega arith) (omega arith)),
)

swaps_serialize_example : swapped_once.0.elements 5 ≡ 4
unfolding swapped_once enter
swaps_serialize_example = swaps_serialize initial ((3, 5) ∷ []) swapped_once.0 5 swapped_once.1 refl

no_deadlock_example : CanMove waiting.0
unfolding waiting enter
no_deadlock_example = no_deadlock initial [] waiting.0 1 waiting.1 (ground arith)
