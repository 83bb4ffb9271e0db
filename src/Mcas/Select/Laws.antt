-- ===== src/Mcas/Select/Laws.antt =====
-- Whichever variant is chosen, its calls honour one contract.
use data_structure_benchmark.Base.{
  ℕ, ◌^◌, ◌<◌, ◌≤◌, ◌≡◌, refl, ◌≢◌, ◌⊎◌, inr, true, false, Option, none, some, List, [], ◌∷◌, arith,
  ap,
}
use data_structure_benchmark.Tm.{
  Entry, speculative, fallback, refused, undecided, begin_no_conflict, max_retries,
}
use data_structure_benchmark.Tm.Begin.{
  counted, any_conflict, WaitsEnd, IsGranted, begin_no_conflict_ends,
}
use data_structure_benchmark.Mcas.{Address, Memory, store, Outcome}
use data_structure_benchmark.Mcas.Spec.{Swap, swap, all_match, store_all, mcas}
use data_structure_benchmark.Mcas.Laws.{Agrees, Fits, lock-mcas, no_if-mcas}
use data_structure_benchmark.Mcas.Lock
use data_structure_benchmark.Mcas.LockNoIf
use data_structure_benchmark.Mcas.LockNoIf.{select}
use data_structure_benchmark.Mcas.Htm
use data_structure_benchmark.Mcas.Htm.{transact}
use data_structure_benchmark.Mcas.HtmNoIf
use data_structure_benchmark.Mcas.Select.{
  SyncType, sync_undef, lock, lockfree, lockfree_flock, htm_lock, htm_mcas, flock_mcas,
  lockfree_mcas, mcas_no_if, mcas_htm, mcas_htm_no_if, Call, Functions, set_mcas_type,
}

-- The contract of a call on the words `ss`, in a memory `m`, with the outcome `out`.
pub record Honours (c : Call) (ss : List Swap) (m : Memory) (out : Option Outcome) : Type 0 where
  -- It returns 0 or 1.
  pub flag : (r : ℕ) (m' : Memory) → out ≡ some (r, m') → (r ≡ 0) ⊎ (r ≡ 1)
  -- If it returns 1, all words matched and have their new values; nothing else changed but `trash`.
  pub swaps :
      (r : ℕ) (m' : Memory)
      → out ≡ some (r, m')
      → r ≡ 1
      → (all_match ss m ≡ true) × ((p : Address) → p ≢ c.trash → m' p ≡ store_all ss m p)
  -- If it returns 0, nothing changed but `trash`; and some word did not match, or the processor
  -- reported a conflict.
  pub keeps :
      (r : ℕ) (m' : Memory)
      → out ≡ some (r, m')
      → r ≡ 0
      → ((all_match ss m ≡ false) ⊎ (any_conflict c.tries.rounds ≡ true))
        × ((p : Address) → p ≢ c.trash → m' p ≡ m p)
  -- It returns after at most six aborts that are not explicit, if its waits for the lock end and it is
  -- granted the lock, should it want it.
  pub ends :
      max_retries ≤ counted c.tries.rounds
      → WaitsEnd c.tries.rounds
      → IsGranted c.tries.exchanges
      → out ≢ none

-- A call that always runs its body.
Honours-some :
    (c : Call) (ss : List Swap) (m : Memory) (x : Outcome)
    → Agrees c.trash x (mcas ss m)
    → Honours c ss m (some x)
Honours-some c ss m x a = record {
  flag = λ r m' e. ground (arith, a.0);
  swaps = λ r m' e f. (ground (arith, a.0), λ p out. ground (arith, a.0, a.1 p out));
  keeps = λ r m' e f. (ground (arith, a.0), λ p out. ground (arith, a.0, a.1 p out));
  ends = λ q w g. cc;
}

-- A call that runs its body in a transaction.
Honours-transact :
    (c : Call) (ss : List Swap) (m now : Memory) (x : Outcome)
    → ((p : Address) → p ≢ c.trash → now p ≡ m p)
    → Agrees c.trash x (mcas ss m)
    → Honours c ss m (transact c.tries x now)
unfolding transact
Honours-transact c ss m now x same a =
    by_entry (begin_no_conflict c.tries) (begin_no_conflict_ends c.tries)
  where
    by_entry :
        (e : Entry)
        → (e ≡ refused → any_conflict c.tries.rounds ≡ true)
          × (max_retries ≤ counted c.tries.rounds
              → WaitsEnd c.tries.rounds
              → IsGranted c.tries.exchanges
              → e ≢ undecided)
        → Honours c ss m (elim e [
          | refused ↦ some (0, now)
          | speculative ↦ some x
          | fallback ↦ some x
          | undecided ↦ none
        ])
    by_entry speculative k = Honours-some c ss m x a
    by_entry fallback k = Honours-some c ss m x a
    by_entry refused k = record {
      flag = λ r m' e. ground arith;
      swaps = λ r m' e f. absurd (ground arith);
      keeps = λ r m' e f. (inr (k.0 refl), λ p out. ground (arith, same p out));
      ends = λ q w g. cc;
    }
    by_entry undecided k = record {
      flag = λ r m' e. cc;
      swaps = λ r m' e f. cc;
      keeps = λ r m' e f. cc;
      ends = λ q w g. absurd (k.1 q w g refl);
    }

Agrees-of_eq : (trash : Address) {x y : Outcome} → x ≡ y → Agrees trash x y
Agrees-of_eq trash e = (ap (λ z. z.0) e, λ p out. ap (λ z. z.1 p) e)

store_other : (m : Memory) (a : Address) (v : ℕ) (p : Address) → p ≢ a → store m a v p ≡ m p
unfolding store
store_other m a v p ne = ground arith

-- the types for which `set_mcas_type` sets the functions
abbrev pub IsMcas : SyncType → Type 0
IsMcas lockfree_mcas = Unit
IsMcas mcas_no_if = Unit
IsMcas mcas_htm = Unit
IsMcas mcas_htm_no_if = Unit
IsMcas _ = ⊥

-- What is to be shown of the functions `f`, for one, two, three and four words.
abbrev pub AllHonour :
    Functions → Call → ℕ → ℕ → ℕ → ℕ → ℕ → ℕ → ℕ → ℕ → ℕ → ℕ → ℕ → ℕ → Memory → Type 0
AllHonour f c a0 o0 n0 a1 o1 n1 a2 o2 n2 a3 o3 n3 m =
    Honours c (swap a0 o0 n0 ∷ []) m (f.cas c a0 o0 n0 m)
    × Honours c (swap a0 o0 n0 ∷ swap a1 o1 n1 ∷ []) m (f.dcas c a0 o0 n0 a1 o1 n1 m)
    × Honours c (swap a0 o0 n0 ∷ swap a1 o1 n1 ∷ swap a2 o2 n2 ∷ []) m
        (f.tcas c a0 o0 n0 a1 o1 n1 a2 o2 n2 m)
    × Honours c (swap a0 o0 n0 ∷ swap a1 o1 n1 ∷ swap a2 o2 n2 ∷ swap a3 o3 n3 ∷ []) m
        (f.qcas c a0 o0 n0 a1 o1 n1 a2 o2 n2 a3 o3 n3 m)

-- Whichever of the four variants `set_mcas_type` chooses, `cas`, `dcas`, `tcas` and `qcas` honour the
-- contract, if the words and the local variable lie in the address space and none of the words is the
-- variable.
pub selected-Honours :
    (t : SyncType) (previous : Functions) (c : Call) (a0 o0 n0 a1 o1 n1 a2 o2 n2 a3 o3 n3 : ℕ)
    (m : Memory)
    → IsMcas t
    → c.trash < 2 ^ 64
    → Fits c.trash (swap a0 o0 n0 ∷ swap a1 o1 n1 ∷ swap a2 o2 n2 ∷ swap a3 o3 n3 ∷ [])
    → AllHonour (set_mcas_type t previous) c a0 o0 n0 a1 o1 n1 a2 o2 n2 a3 o3 n3 m
unfolding set_mcas_type Htm.cas Htm.dcas Htm.tcas Htm.qcas HtmNoIf.cas HtmNoIf.dcas HtmNoIf.tcas
    HtmNoIf.qcas Lock.cas Lock.dcas Lock.tcas Lock.qcas LockNoIf.cas LockNoIf.dcas LockNoIf.tcas
    LockNoIf.qcas
selected-Honours lockfree_mcas previous c a0 o0 n0 a1 o1 n1 a2 o2 n2 a3 o3 n3 m i t f =
    let (p, q, r, s) = lock-mcas a0 o0 n0 a1 o1 n1 a2 o2 n2 a3 o3 n3 m in
    (
      Honours-some c _ m _ (Agrees-of_eq c.trash p),
      Honours-some c _ m _ (Agrees-of_eq c.trash q),
      Honours-some c _ m _ (Agrees-of_eq c.trash r),
      Honours-some c _ m _ (Agrees-of_eq c.trash s),
    )
selected-Honours mcas_no_if previous c a0 o0 n0 a1 o1 n1 a2 o2 n2 a3 o3 n3 m i t f =
    let (p, q, r, s) = no_if-mcas a0 o0 n0 a1 o1 n1 a2 o2 n2 a3 o3 n3 m c.trash t f in
    (Honours-some c _ m _ p, Honours-some c _ m _ q, Honours-some c _ m _ r, Honours-some c _ m _ s)
selected-Honours mcas_htm previous c a0 o0 n0 a1 o1 n1 a2 o2 n2 a3 o3 n3 m i t f =
    let (p, q, r, s) = lock-mcas a0 o0 n0 a1 o1 n1 a2 o2 n2 a3 o3 n3 m in
    (
      Honours-transact c _ m m _ (λ a o. refl) (Agrees-of_eq c.trash p),
      Honours-transact c _ m m _ (λ a o. refl) (Agrees-of_eq c.trash q),
      Honours-transact c _ m m _ (λ a o. refl) (Agrees-of_eq c.trash r),
      Honours-transact c _ m m _ (λ a o. refl) (Agrees-of_eq c.trash s),
    )
selected-Honours mcas_htm_no_if previous c a0 o0 n0 a1 o1 n1 a2 o2 n2 a3 o3 n3 m i t f =
    let now = store m c.trash 0 in
    let (p, q, r, s) = no_if-mcas a0 o0 n0 a1 o1 n1 a2 o2 n2 a3 o3 n3 m c.trash t f in
    (
      Honours-transact c _ m now _ (store_other m c.trash 0) p,
      Honours-transact c _ m now _ (store_other m c.trash 0) q,
      Honours-transact c _ m now _ (store_other m c.trash 0) r,
      Honours-transact c _ m now _ (store_other m c.trash 0) s,
    )
selected-Honours sync_undef previous c a0 o0 n0 a1 o1 n1 a2 o2 n2 a3 o3 n3 m i t f = elim i [ ]
selected-Honours lock previous c a0 o0 n0 a1 o1 n1 a2 o2 n2 a3 o3 n3 m i t f = elim i [ ]
selected-Honours lockfree previous c a0 o0 n0 a1 o1 n1 a2 o2 n2 a3 o3 n3 m i t f = elim i [ ]
selected-Honours lockfree_flock previous c a0 o0 n0 a1 o1 n1 a2 o2 n2 a3 o3 n3 m i t f = elim i [ ]
selected-Honours htm_lock previous c a0 o0 n0 a1 o1 n1 a2 o2 n2 a3 o3 n3 m i t f = elim i [ ]
selected-Honours htm_mcas previous c a0 o0 n0 a1 o1 n1 a2 o2 n2 a3 o3 n3 m i t f = elim i [ ]
selected-Honours flock_mcas previous c a0 o0 n0 a1 o1 n1 a2 o2 n2 a3 o3 n3 m i t f = elim i [ ]
