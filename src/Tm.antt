-- ===== src/Tm.antt =====
-- include/htm/tm.h: hardware transactions that fall back to a spin lock.
--
-- The processor and the other threads are parameters: what it answers to each `_xbegin`, and what each
-- read and each exchange of the lock finds, are arguments. `_xabort` inside a transaction takes the thread
-- back to its `_xbegin`, which then returns with the explicit bit, so an attempt that starts and finds the
-- lock held is one that aborts with that bit.
pub mod Begin
pub mod System
mod Tests
use data_structure_benchmark.Base.{
  ℕ, zero, suc, ◌+◌, ◌-◌, Bool, true, false, ◌&&◌, ◌||◌, not, List, [], ◌∷◌, leb, if◌then◌else◌,
}

-- the bits of an abort's status that the code reads
pub record Status : Type 0 where
  pub xplicit : Bool
  pub retry : Bool
  pub conflict : Bool

-- The outcome of one round: the transaction runs and the fallback lock is free, or it aborts; then come
-- the reads of the lock in `spinlock_whileIsLocked`, `true` where it is held.
pub data Attempt : Type 0 where
  started : Attempt
  aborted : Status → List Bool → Attempt

-- one round of `spinlock_lock`: the reads of the lock, and whether the exchange found it held
pub record Exchange : Type 0 where
  pub reads : List Bool
  pub held : Bool

-- what one call of `TM_BEGIN` meets
pub record Answers : Type 0 where
  pub rounds : List Attempt
  pub exchanges : List Exchange

-- How a call of `TM_BEGIN` returns: in a transaction, with the lock taken, or not yet, while it waits for
-- the lock or tries again. `TM_BEGIN_NO_CONFLICT` also returns `false`.
pub data Entry : Type 0 where
  speculative fallback refused undecided : Entry

-- `spinlock_whileIsLocked`: whether it has returned behind these reads
unfoldable pub while_is_locked : List Bool → Bool
while_is_locked [] = false
while_is_locked (true ∷ reads) = while_is_locked reads
while_is_locked (false ∷ reads) = true

-- `spinlock_lock`: whether it has returned, with the lock taken, behind these rounds
unfoldable pub spinlock_lock : List Exchange → Bool
unfolding while_is_locked
spinlock_lock [] = false
spinlock_lock (x ∷ rest) =
    let later = spinlock_lock rest in
    if while_is_locked x.reads then (if x.held then later else true) else false

abbrev pub max_retries : ℕ
max_retries = 6

-- `retry_with_lock` at the end of a round with `n_tries` tries
unfoldable pub retry_with_lock : Status → ℕ → Bool
retry_with_lock s n_tries = (not s.xplicit && not s.retry) || leb max_retries n_tries

-- `--n_tries` on an explicit abort
unfoldable pub tries_left : Status → ℕ → ℕ
tries_left s n_tries = if s.xplicit then n_tries - 1 else n_tries

-- the loop of `TM_BEGIN`; `fallback` if it ends with `retry_with_lock`
unfoldable pub begin_loop : List Attempt → ℕ → Entry
unfolding retry_with_lock tries_left while_is_locked
begin_loop [] n = undecided
begin_loop (started ∷ rest) n = speculative
begin_loop (aborted s reads ∷ rest) n =
    let n' = tries_left s (n + 1) in
    let again = begin_loop rest n' in
    if while_is_locked reads then (if retry_with_lock s n' then fallback else again) else undecided

-- behind the loop: with `retry_with_lock`, the lock is taken
unfoldable pub take_lock : List Exchange → Entry → Entry
unfolding spinlock_lock
take_lock exchanges speculative = speculative
take_lock exchanges fallback = if spinlock_lock exchanges then fallback else undecided
take_lock exchanges refused = refused
take_lock exchanges undecided = undecided

-- `TM_BEGIN`
unfoldable pub begin : Answers → Entry
unfolding begin_loop take_lock
begin a = take_lock a.exchanges (begin_loop a.rounds 0)

-- the loop of `TM_BEGIN_NO_CONFLICT`
unfoldable pub begin_no_conflict_loop : List Attempt → ℕ → Entry
unfolding retry_with_lock tries_left while_is_locked
begin_no_conflict_loop [] n = undecided
begin_no_conflict_loop (started ∷ rest) n = speculative
begin_no_conflict_loop (aborted s reads ∷ rest) n =
    let n' = tries_left s (n + 1) in
    let again = begin_no_conflict_loop rest n' in
    if s.conflict
    then refused
    else if while_is_locked reads
    then (if retry_with_lock s n' then fallback else again)
    else undecided

-- `TM_BEGIN_NO_CONFLICT`
unfoldable pub begin_no_conflict : Answers → Entry
unfolding begin_no_conflict_loop take_lock
begin_no_conflict a = take_lock a.exchanges (begin_no_conflict_loop a.rounds 0)
