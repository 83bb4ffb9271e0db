-- ===== src/LockfreeMcas/ArraySwap.antt =====
-- lockfree-mcas/array_swap.h: the array without locks. Each thread runs its reads and its `dcas` one at
-- a time; `row` gives the address of the word `S->array[i].elements_`.
pub mod Order
mod Tests
use data_structure_benchmark.Base.{ℕ, ◌<◌, ◌≡◌, Bool, List, [], ◌∷◌, ◌++◌, ◌==◌, if◌then◌else◌}
use data_structure_benchmark.Mcas.{Address, Memory, Outcome}
use data_structure_benchmark.Mcas.Lock.{dcas}
use data_structure_benchmark.Lockbased.ArraySwap.{num_rows, set}

-- Where a thread stands in `swap`: the command that is next, with the values of its variables.
pub data Place : Type 0 where
  -- outside of `swap`
  idle : Place
  -- `addr_a = S->array[index_a].elements_`
  read_first : ℕ → ℕ → Place
  -- `addr_b = S->array[index_b].elements_`
  read_second : ℕ → ℕ → ℕ → Place
  -- the `dcas`
  attempt : ℕ → ℕ → ℕ → ℕ → Place

pub record System : Type 0 where
  pub memory : Memory
  pub at : ℕ → Place

-- `swap` up to its loop: equal indices return at once.
unfoldable pub enter : ℕ → ℕ → Place
enter index_a index_b = if index_a == index_b then idle else read_first index_a index_b

module _ (row : ℕ → Address) where
  -- the `dcas` of the loop
  unfoldable pub exchange_words : Memory → ℕ → ℕ → ℕ → ℕ → Outcome
  exchange_words m index_a index_b addr_a addr_b =
      dcas (row index_a) addr_a addr_b (row index_b) addr_b addr_a m

  -- A command of a thread, with the swap that it completes, if any.
  pub data Step (σ : System) : List (ℕ × ℕ) → System → Type 0 where
    calls :
        (i index_a index_b : ℕ)
        → σ.at i ≡ idle
        → index_a < num_rows
        → index_b < num_rows
        → Step σ [] (record σ { at = set σ.at i (enter index_a index_b) })
    reads_first :
        (i a b : ℕ)
        → σ.at i ≡ read_first a b
        → Step σ [] (record σ { at = set σ.at i (read_second a b (σ.memory (row a))) })
    reads_second :
        (i a b x : ℕ)
        → σ.at i ≡ read_second a b x
        → Step σ [] (record σ { at = set σ.at i (attempt a b x (σ.memory (row b))) })
    -- `dcas` returns 1, and `swap` returns
    swaps :
        (i a b x y : ℕ)
        → σ.at i ≡ attempt a b x y
        → (exchange_words σ.memory a b x y).0 ≡ 1
        → Step σ
            ((a, b) ∷ [])
            (record { memory = (exchange_words σ.memory a b x y).1; at = set σ.at i idle })
    -- it returns 0, and the loop goes on
    retries :
        (i a b x y : ℕ)
        → σ.at i ≡ attempt a b x y
        → (exchange_words σ.memory a b x y).0 ≡ 0
        → Step σ [] (record {
          memory = (exchange_words σ.memory a b x y).1;
          at = set σ.at i (read_first a b);
        })

  -- the runs from `σ`, each with the swaps completed in it, the last one first
  pub data Run (σ : System) : List (ℕ × ℕ) → System → Type 0 where
    here : Run σ [] σ
    next : {t l : List (ℕ × ℕ)} {τ υ : System} → Run σ t τ → Step τ l υ → Run σ (l ++ t) υ
