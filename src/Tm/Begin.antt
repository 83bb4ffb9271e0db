-- ===== src/Tm/Begin.antt =====
-- How `TM_BEGIN` and `TM_BEGIN_NO_CONFLICT` end.
use data_structure_benchmark.Base.{
  ℕ, ◌+◌, ◌-◌, ◌≤◌, ◌<◌, ◌≡◌, refl, sym, ap, ◌∙◌, ◌≢◌, ◌⊎◌, inl, inr, Bool, true, false, ◌&&◌, ◌||◌,
  not, List, [], ◌∷◌, arith, if◌then◌else◌,
}
use data_structure_benchmark.Tm.{
  Attempt, started, aborted, Exchange, Answers, Entry, while_is_locked, spinlock_lock, take_lock,
  speculative, fallback, refused, undecided, max_retries, begin_loop, begin, begin_no_conflict_loop,
  begin_no_conflict,
}

-- the aborts that count as tries: those that the code did not ask for
abbrev pub counted : List Attempt → ℕ
counted [] = 0
counted (started ∷ rest) = counted rest
counted (aborted s reads ∷ rest) = (if s.xplicit then 0 else 1) + counted rest

-- some abort of the list came from a conflict
abbrev pub any_conflict : List Attempt → Bool
any_conflict [] = false
any_conflict (started ∷ rest) = any_conflict rest
any_conflict (aborted s reads ∷ rest) = s.conflict || any_conflict rest

-- some abort of the list was neither asked for nor worth a retry
abbrev pub any_hopeless : List Attempt → Bool
any_hopeless [] = false
any_hopeless (started ∷ rest) = any_hopeless rest
any_hopeless (aborted s reads ∷ rest) = (not s.xplicit && not s.retry) || any_hopeless rest

-- some read of the lock finds it free
abbrev pub any_free : List Bool → Bool
any_free [] = false
any_free (held ∷ reads) = not held || any_free reads

-- Each wait of the loop reads the lock free at some time.
abbrev pub WaitsEnd : List Attempt → Type 0
WaitsEnd [] = Unit
WaitsEnd (started ∷ rest) = WaitsEnd rest
WaitsEnd (aborted s reads ∷ rest) = (any_free reads ≡ true) × WaitsEnd rest

-- Each wait of `spinlock_lock` does, up to an exchange that finds the lock free.
abbrev pub IsGranted : List Exchange → Type 0
IsGranted [] = ⊥
IsGranted (x ∷ rest) = (any_free x.reads ≡ true) × ((x.held ≡ false) ⊎ IsGranted rest)

while_is_locked-free : (reads : List Bool) → while_is_locked reads ≡ any_free reads
unfolding while_is_locked
while_is_locked-free [] = refl
while_is_locked-free (true ∷ reads) = while_is_locked-free reads
while_is_locked-free (false ∷ reads) = refl

spinlock_lock-IsGranted : (xs : List Exchange) → IsGranted xs → spinlock_lock xs ≡ true
unfolding spinlock_lock
spinlock_lock-IsGranted [] none_granted = elim none_granted [ ]
spinlock_lock-IsGranted (x ∷ rest) (free, inl e) = ground (arith, while_is_locked-free x.reads)
spinlock_lock-IsGranted (x ∷ rest) (free, inr later) =
    ground (arith, while_is_locked-free x.reads, spinlock_lock-IsGranted rest later)

begin_loop-decides :
    (tries : List Attempt) (n : ℕ)
    → n < max_retries
    → max_retries ≤ n + counted tries
    → WaitsEnd tries
    → (begin_loop tries n ≡ speculative) ⊎ (begin_loop tries n ≡ fallback)
unfolding begin_loop
begin_loop-decides [] n p q w = absurd (omega arith)
begin_loop-decides (started ∷ rest) n p q w = inl refl
begin_loop-decides (aborted s reads ∷ rest) n p q w = ground (
  arith,
  while_is_locked-free reads,
  begin_loop-decides rest n,
  begin_loop-decides rest (n + 1),
  begin_loop-decides rest (n + 1 - 1),
)

take_lock-granted :
    (xs : List Exchange) (e : Entry)
    → IsGranted xs
    → (e ≡ speculative) ⊎ (e ≡ fallback)
    → take_lock xs e ≡ e
unfolding take_lock
take_lock-granted xs speculative g o = refl
take_lock-granted xs fallback g o = rw (spinlock_lock-IsGranted xs g) refl
take_lock-granted xs refused g o = refl
take_lock-granted xs undecided g o = refl

-- `TM_BEGIN` returns after at most six aborts that are not explicit, in a transaction or with the lock
-- taken, whatever else the processor answers, if each of its waits for the lock reads it free at some time
-- and, should it want the lock, an exchange at last finds it free.
pub begin-decides :
    (a : Answers)
    → max_retries ≤ counted a.rounds
    → WaitsEnd a.rounds
    → IsGranted a.exchanges
    → (begin a ≡ speculative) ⊎ (begin a ≡ fallback)
unfolding begin
begin-decides a q waits granted =
    let decided = begin_loop-decides a.rounds 0 (omega arith) (omega arith) waits in
    let taken = take_lock-granted a.exchanges (begin_loop a.rounds 0) granted decided in
    rw taken decided

take_lock-ne : (xs : List Exchange) (e : Entry) → take_lock xs e ≢ undecided → take_lock xs e ≡ e
unfolding take_lock
take_lock-ne xs speculative n = refl
take_lock-ne xs fallback n = ground arith
take_lock-ne xs refused n = refl
take_lock-ne xs undecided n = refl

begin_loop-fallback :
    (tries : List Attempt) (n : ℕ)
    → begin_loop tries n ≡ fallback
    → (any_hopeless tries ≡ true) ⊎ (max_retries ≤ n + counted tries)
unfolding begin_loop
begin_loop-fallback [] n e = cc
begin_loop-fallback (started ∷ rest) n e = cc
begin_loop-fallback (aborted s reads ∷ rest) n e = ground (
  arith,
  begin_loop-fallback rest n,
  begin_loop-fallback rest (n + 1),
  begin_loop-fallback rest (n + 1 - 1),
)

-- `TM_BEGIN` takes the lock only after an abort for which the processor sees no point in a retry, or
-- after six that are not explicit; aborts because the lock was held never lead there.
pub begin-fallback :
    (a : Answers)
    → begin a ≡ fallback
    → (any_hopeless a.rounds ≡ true) ⊎ (max_retries ≤ counted a.rounds)
unfolding begin
begin-fallback a e =
    let same = take_lock-ne a.exchanges (begin_loop a.rounds 0) (λ u. cc) in
    ground (arith, begin_loop-fallback a.rounds 0 (sym same ∙ e))

no_conflict_loop-eq :
    (tries : List Attempt) (n : ℕ)
    → any_conflict tries ≡ false
    → begin_no_conflict_loop tries n ≡ begin_loop tries n
unfolding begin_loop begin_no_conflict_loop
no_conflict_loop-eq [] n e = refl
no_conflict_loop-eq (started ∷ rest) n e = refl
no_conflict_loop-eq (aborted s reads ∷ rest) n e =
    ground (arith, no_conflict_loop-eq rest (n + 1), no_conflict_loop-eq rest (n + 1 - 1))

begin_loop-ne_refused : (tries : List Attempt) (n : ℕ) → begin_loop tries n ≢ refused
unfolding begin_loop
begin_loop-ne_refused [] n = ground arith
begin_loop-ne_refused (started ∷ rest) n = ground arith
begin_loop-ne_refused (aborted s reads ∷ rest) n =
    ground (arith, begin_loop-ne_refused rest (n + 1), begin_loop-ne_refused rest (n + 1 - 1))

pub begin-ne_refused : (a : Answers) → begin a ≢ refused
unfolding begin
begin-ne_refused a e =
    let same = take_lock-ne a.exchanges (begin_loop a.rounds 0) (λ u. cc) in
    begin_loop-ne_refused a.rounds 0 (sym same ∙ e)

-- Without a conflict, `TM_BEGIN_NO_CONFLICT` ends as `TM_BEGIN` does, and so never refuses.
pub begin_no_conflict-begin :
    (a : Answers)
    → any_conflict a.rounds ≡ false
    → (begin_no_conflict a ≡ begin a) × (begin_no_conflict a ≢ refused)
unfolding begin begin_no_conflict
begin_no_conflict-begin a e =
    let same = ap (take_lock a.exchanges) (no_conflict_loop-eq a.rounds 0 e) in
    (same, λ bad. begin-ne_refused a (sym same ∙ bad))

no_conflict_loop-refused :
    (tries : List Attempt) (n : ℕ)
    → begin_no_conflict_loop tries n ≡ refused
    → any_conflict tries ≡ true
unfolding begin_no_conflict_loop
no_conflict_loop-refused [] n e = cc
no_conflict_loop-refused (started ∷ rest) n e = cc
no_conflict_loop-refused (aborted s reads ∷ rest) n e =
    ground (arith, no_conflict_loop-refused rest (n + 1), no_conflict_loop-refused rest (n + 1 - 1))

no_conflict_loop-decides :
    (tries : List Attempt) (n : ℕ)
    → n < max_retries
    → max_retries ≤ n + counted tries
    → WaitsEnd tries
    → begin_no_conflict_loop tries n ≢ undecided
unfolding begin_no_conflict_loop
no_conflict_loop-decides [] n p q w = absurd (omega arith)
no_conflict_loop-decides (started ∷ rest) n p q w = ground arith
no_conflict_loop-decides (aborted s reads ∷ rest) n p q w = ground (
  arith,
  while_is_locked-free reads,
  no_conflict_loop-decides rest n,
  no_conflict_loop-decides rest (n + 1),
  no_conflict_loop-decides rest (n + 1 - 1),
)

take_lock-decided :
    (xs : List Exchange) (e : Entry) → IsGranted xs → e ≢ undecided → take_lock xs e ≢ undecided
unfolding take_lock
take_lock-decided xs speculative g n = n
take_lock-decided xs fallback g n = rw (spinlock_lock-IsGranted xs g) n
take_lock-decided xs refused g n = n
take_lock-decided xs undecided g n = n

-- `TM_BEGIN_NO_CONFLICT` refuses only after a conflict, and it returns after at most six aborts that
-- are not explicit, if its waits for the lock end and it is granted the lock, should it want it.
pub begin_no_conflict_ends :
    (a : Answers)
    → (begin_no_conflict a ≡ refused → any_conflict a.rounds ≡ true)
      × (max_retries ≤ counted a.rounds
          → WaitsEnd a.rounds
          → IsGranted a.exchanges
          → begin_no_conflict a ≢ undecided)
unfolding begin_no_conflict
begin_no_conflict_ends a = (
  λ e.
      let same = take_lock-ne a.exchanges (begin_no_conflict_loop a.rounds 0) (λ u. cc) in
      no_conflict_loop-refused a.rounds 0 (sym same ∙ e),
  λ q waits granted.
      take_lock-decided a.exchanges (begin_no_conflict_loop a.rounds 0) granted
        (no_conflict_loop-decides a.rounds 0 (omega arith) (omega arith) waits),
)
