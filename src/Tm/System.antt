-- ===== src/Tm/System.antt =====
-- Threads that run transactions and critical sections under the fallback lock. The processor's part is
-- documented behaviour: a transaction that has read the lock aborts when another thread writes it.
pub mod Exclusion
use data_structure_benchmark.Base.{ℕ, ◌≡◌, ◌≢◌, List, [], ◌∷◌, ◌++◌, ◌==◌, if◌then◌else◌}

-- where a thread stands
pub data Place : Type 0 where
  -- outside, or in the retry loop of `TM_BEGIN`
  outside : Place
  -- in `spinlock_lock`
  locking : Place
  -- behind `TM_BEGIN`, in a transaction
  in_transaction : Place
  -- behind `TM_BEGIN`, with the lock taken
  in_lock : Place

-- `fallback_lock`, and each thread
pub record System : Type 0 where
  pub lock : ℕ
  pub at : ℕ → Place

abbrev pub update : (ℕ → Place) → ℕ → Place → ℕ → Place
update f i p j = if i == j then p else f j

-- What a write to the lock does to a thread: a transaction has read the lock, and aborts.
abbrev pub disturb : Place → Place
disturb in_transaction = outside
disturb p = p

-- What `TM_END` did.
pub data Ended : Type 0 where
  unlocked committed : Ended

-- `TM_END`: the branch taken, and the lock behind it
unfoldable pub end : ℕ → Ended × ℕ
end lock = if lock == 0 then (committed, lock) else (unlocked, 0)

-- the commands of the threads, one at a time
pub data Step (σ : System) : System → Type 0 where
  -- `_xbegin`, and `spinlock_isLocked` in the transaction
  start :
      (i : ℕ)
      → σ.at i ≡ outside
      → σ.lock ≡ 0
      → Step σ (record σ { at = update σ.at i in_transaction })
  -- the processor aborts a transaction for any reason
  abort : (i : ℕ) → σ.at i ≡ in_transaction → Step σ (record σ { at = update σ.at i outside })
  -- the loop of `TM_BEGIN` ends with `retry_with_lock`
  fall_back : (i : ℕ) → σ.at i ≡ outside → Step σ (record σ { at = update σ.at i locking })
  -- `atomic_exchange_explicit(&fallback_lock, 1, …)` finds the lock free
  exchange_free :
      (i : ℕ)
      → σ.at i ≡ locking
      → σ.lock ≡ 0
      → Step σ (record { lock = 1; at = update (λ j. disturb (σ.at j)) i in_lock })
  -- it finds the lock held, and the loop goes on
  exchange_held :
      (i : ℕ)
      → σ.at i ≡ locking
      → σ.lock ≢ 0
      → Step σ (record { lock = 1; at = λ j. disturb (σ.at j) })
  -- `TM_END` in a transaction
  end_transaction :
      (i : ℕ)
      → σ.at i ≡ in_transaction
      → Step σ (record { lock = (end σ.lock).1; at = update σ.at i outside })
  -- `TM_END` with the lock taken
  end_lock :
      (i : ℕ)
      → σ.at i ≡ in_lock
      → Step σ (record { lock = (end σ.lock).1; at = update σ.at i outside })

-- `TM_INIT`
abbrev pub init : System
init = record { lock = 0; at = λ _. outside }

pub data Reach : System → Type 0 where
  here : Reach init
  next : {σ τ : System} → Reach σ → Step σ τ → Reach τ
