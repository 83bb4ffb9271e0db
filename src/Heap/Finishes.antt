-- ===== src/Heap/Finishes.antt =====
-- Total correctness of a command: no fault, enough fuel, and a postcondition.
use data_structure_benchmark.Base.{◌≡◌, refl, subst}
use data_structure_benchmark.Heap.{Heap, Outcome, done, Command, and_then}

pub data Finishes {ℓ κ μ} {A : Type ℓ} {B : Type κ} (P : B → Heap A → Type μ)
    : Outcome A B → Type (ℓ ⊔ κ ⊔ μ) where
  finishes : {b : B} {h : Heap A} → P b h → Finishes P (done b h)

module _ {ℓ κ μ} {A : Type ℓ} {B : Type κ} {P : B → Heap A → Type μ} where
  pub chain {ν ξ} :
      {C : Type ν} {Q : C → Heap A → Type ξ} {r : Outcome A B} {k : B → Command A C}
      → Finishes P r
      → ((b : B) (h : Heap A) → P b h → Finishes Q (k b h))
      → Finishes Q (and_then r k)
  chain (finishes p) next = next _ _ p

  pub weaken {ν} :
      {Q : B → Heap A → Type ν} {r : Outcome A B}
      → Finishes P r
      → ((b : B) (h : Heap A) → P b h → Q b h)
      → Finishes Q r
  weaken (finishes p) imp = finishes (imp _ _ p)

  -- the value and the heap of a command that finishes
  pub result : {r : Outcome A B} → Finishes P r → (b : B) × (h : Heap A) × (r ≡ done b h) × P b h
  result (finishes {b} {h} p) = (b, h, refl, p)

  of_finished : {b : B} {h : Heap A} → Finishes P (done b h) → P b h
  of_finished (finishes p) = p

  -- the postcondition of a command that is known to end in `h`
  pub post : {r : Outcome A B} {b : B} {h : Heap A} → Finishes P r → r ≡ done b h → P b h
  post f e = of_finished (subst (Finishes P) e f)
