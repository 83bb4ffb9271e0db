-- ===== src/LockfreeMcas/ArraySwap/Tests.antt =====
-- Two threads on the array, whose words stand at the addresses from 1000.
use data_structure_benchmark.Base.{
  ℕ, ◌+◌, ◌≡◌, refl, ◌≢◌, List, [], ◌∷◌, arith, ◌==◌, if◌then◌else◌,
}
use data_structure_benchmark.Mcas.{Address, store}
use data_structure_benchmark.Mcas.Lock.{dcas}
use data_structure_benchmark.LockfreeMcas.ArraySwap.{
  System, idle, read_first, exchange_words, reads_first, reads_second, swaps, Run, here, next,
}
use data_structure_benchmark.LockfreeMcas.ArraySwap.Order.{swap_order, failure_has_cause}

abbrev row : ℕ → Address
row i = i + 1000

row-apart : (r s : ℕ) → row r ≡ row s → r ≡ s
row-apart r s e = omega arith

abbrev start : System
start = record { memory = λ p. p; at = λ _. idle }

-- Both threads have called `swap`.
abbrev both : System
both = record start {
  at = λ i. if i == 0 then read_first 5 3 else if i == 1 then read_first 3 8 else idle;
}

abbrev five_three : List (ℕ × ℕ)
five_three = (5, 3) ∷ []

-- Thread 0 swaps between the reads of thread 1 and its `dcas`.
abbrev overtaken : (τ : System) × Run row both five_three τ
unfolding exchange_words dcas store
overtaken = (
  _,
  next
      (next
        (next (next (next here (reads_first 1 3 8 refl)) (reads_second 1 3 8 1003 refl))
          (reads_first 0 5 3 refl))
        (reads_second 0 5 3 1005 refl))
      (swaps 0 5 3 1005 1003 refl refl),
)

swap_order_example : overtaken.0.memory 1003 ≡ 1005
unfolding overtaken exchange_words dcas store
swap_order_example = swap_order row row-apart both overtaken.1 3

failure_has_cause_example : five_three ≢ []
unfolding overtaken exchange_words dcas store
failure_has_cause_example =
    failure_has_cause row row-apart both overtaken.0 five_three 1 3 8 3 8 1003 1008 refl overtaken.1
      refl refl
