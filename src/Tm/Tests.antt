-- ===== src/Tm/Tests.antt =====
-- Transactions that begin after given answers of the processor, and a run of two threads.
use data_structure_benchmark.Base.{ℕ, ◌≡◌, ◌≢◌, ◌⊎◌, inl, inr, refl, true, false, [], ◌∷◌, arith}
use data_structure_benchmark.Tm.{Attempt, Answers, aborted, speculative, fallback, begin}
use data_structure_benchmark.Tm.Begin.{begin-decides}
use data_structure_benchmark.Tm.System.{System, in_lock, in_transaction, Step, Reach, here, next}
use data_structure_benchmark.Tm.System.Exclusion.{lock_excludes}

-- an abort after which the processor advises a retry; then the lock is free
abbrev again : Attempt
again = aborted (record { xplicit = false; retry = true; conflict = false }) (false ∷ [])

-- an abort because the lock was held, which it still is at the next read
abbrev held : Attempt
held = aborted (record { xplicit = true; retry = true; conflict = false }) (true ∷ false ∷ [])

-- Another thread is the first to take the lock.
abbrev six : Answers
six = record {
  rounds = again ∷ again ∷ held ∷ again ∷ again ∷ again ∷ again ∷ [];
  exchanges =
      record { reads = false ∷ []; held = true }
      ∷ record { reads = true ∷ false ∷ []; held = false }
      ∷ [];
}

begin-decides_example : (begin six ≡ speculative) ⊎ (begin six ≡ fallback)
begin-decides_example =
    begin-decides six (omega arith) (refl, (refl, (refl, (refl, (refl, (refl, (refl, tt)))))))
      (refl, inr (refl, inl refl))

six_falls_back : begin six ≡ fallback
unfolding begin
six_falls_back = refl

-- Thread 0 takes the lock while thread 1 waits for it.
abbrev Ran : Type 0
Ran = (σ : System) × Reach σ

ran : Ran
ran = (
  _,
  next (next (next here (Step.fall_back 0 refl)) (Step.fall_back 1 refl))
      (Step.exchange_free 0 refl refl),
)

lock_excludes_example : ((ran.0.at 1 ≡ in_lock) → ◌≡◌ {A = ℕ} 0 1) × (ran.0.at 1 ≢ in_transaction)
unfolding ran
lock_excludes_example = lock_excludes ran.1 0 1 refl
