-- ===== src/Tm/System/Exclusion.antt =====
-- Mutual exclusion of the fallback lock, also against transactions.
use data_structure_benchmark.Base.{ℕ, ◌≡◌, refl, ◌≢◌, ◌⊎◌, inl, inr, arith}
use data_structure_benchmark.Tm.System.{
  in_transaction, in_lock, System, unlocked, committed, end, Step, start, abort, fall_back,
  exchange_free, exchange_held, end_transaction, end_lock, Reach, here, next,
}

record Inv (σ : System) : Type 0 where
  bit : (σ.lock ≡ 0) ⊎ (σ.lock ≡ 1)
  free : σ.lock ≡ 0 → (i : ℕ) → σ.at i ≢ in_lock
  held : σ.lock ≡ 1 → (i : ℕ) → σ.at i ≢ in_transaction
  unique : (i j : ℕ) → σ.at i ≡ in_lock → σ.at j ≡ in_lock → i ≡ j

lock_of_transaction : {σ : System} → Inv σ → (i : ℕ) → σ.at i ≡ in_transaction → σ.lock ≡ 0
lock_of_transaction inv i e = elim inv.bit [ inl z ↦ z | inr o ↦ absurd (inv.held o i e) ]

lock_of_holder : {σ : System} → Inv σ → (i : ℕ) → σ.at i ≡ in_lock → σ.lock ≡ 1
lock_of_holder inv i e = elim inv.bit [ inl z ↦ absurd (inv.free z i e) | inr o ↦ o ]

Step-Inv : {σ τ : System} → Inv σ → Step σ τ → Inv τ
unfolding end
Step-Inv {σ} inv (start i p q) = record {
  bit = inv.bit;
  free = λ z j. ground (arith, inv.free z j);
  held = λ z j. ground arith;
  unique = λ j k e f. ground (arith, inv.unique j k);
}
Step-Inv {σ} inv (abort i p) = record {
  bit = inv.bit;
  free = λ z j. ground (arith, inv.free z j);
  held = λ z j. ground (arith, inv.held z j);
  unique = λ j k e f. ground (arith, inv.unique j k);
}
Step-Inv {σ} inv (fall_back i p) = record {
  bit = inv.bit;
  free = λ z j. ground (arith, inv.free z j);
  held = λ z j. ground (arith, inv.held z j);
  unique = λ j k e f. ground (arith, inv.unique j k);
}
Step-Inv {σ} inv (exchange_free i p q) = record {
  bit = inr refl;
  free = λ z j. ground arith;
  held = λ z j. ground arith;
  unique = λ j k e f. ground (arith, inv.free q j, inv.free q k);
}
Step-Inv {σ} inv (exchange_held i p q) = record {
  bit = inr refl;
  free = λ z j. ground arith;
  held = λ z j. ground arith;
  unique = λ j k e f. ground (arith, inv.unique j k);
}
Step-Inv {σ} inv (end_transaction i p) = record {
  bit = ground (arith, inv.bit);
  free = λ z j. ground (arith, inv.free (lock_of_transaction inv i p) j);
  held = λ z j. ground (arith, inv.bit);
  unique = λ j k e f. ground (arith, inv.unique j k);
}
Step-Inv {σ} inv (end_lock i p) = record {
  bit = ground (arith, inv.bit);
  free = λ z j. ground (arith, inv.unique i j);
  held = λ z j. ground (arith, inv.bit);
  unique = λ j k e f. ground (arith, inv.unique j k);
}

Reach-Inv : {σ : System} → Reach σ → Inv σ
Reach-Inv here = record {
  bit = inl refl;
  free = λ z j. ground arith;
  held = λ z j. ground arith;
  unique = λ i j e f. cc;
}
Reach-Inv (next r s) = Step-Inv (Reach-Inv r) s

-- In every reachable state: while a thread has the fallback lock, no other thread is between `TM_BEGIN` and `TM_END`: none has
-- the lock, and none is in a transaction.
pub lock_excludes :
    {σ : System}
    → Reach σ
    → (i j : ℕ) → σ.at i ≡ in_lock
    → ((σ.at j ≡ in_lock) → i ≡ j) × (σ.at j ≢ in_transaction)
lock_excludes {σ} r i j e =
    let inv = Reach-Inv r in
    (inv.unique i j e, elim inv.bit [ inl z ↦ absurd (inv.free z i e) | inr o ↦ inv.held o j ])

-- In every reachable state: `TM_END` takes the branch that fits its `TM_BEGIN`: it commits in a transaction, and releases the
-- lock where the lock was taken; so it never releases another thread's lock.
pub end_fits :
    {σ : System}
    → Reach σ
    → (i : ℕ)
    → (σ.at i ≡ in_transaction → (end σ.lock).0 ≡ committed)
      × (σ.at i ≡ in_lock → end σ.lock ≡ (unlocked, 0))
unfolding end
end_fits {σ} r i =
    let inv = Reach-Inv r in
    (λ e. ground (arith, lock_of_transaction inv i e), λ e. ground (arith, lock_of_holder inv i e))
