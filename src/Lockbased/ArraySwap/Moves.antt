-- ===== src/Lockbased/ArraySwap/Moves.antt =====
-- Every command keeps the invariant.
use data_structure_benchmark.Base.{
  ℕ, ◌<◌, ◌≡◌, refl, ◌≢◌, true, none, some, List, ◌++◌, arith, ◌==◌, Bool-cases, inl, inr,
}
use data_structure_benchmark.Heap.{Ptr}
use data_structure_benchmark.Lockbased.ArraySwap.{
  num_rows, idle, lock_first, lock_second, save, copy, restore, unlock_first, unlock_second, System,
  set, enter, Move, locks_first, locks_second, saves, copies, restores, unlocks_first,
  unlocks_second, Step, moves, calls, Reach, here, next, exchange, swapped,
}
use data_structure_benchmark.Lockbased.ArraySwap.Invariant.{
  holds, Inv, holds-apart, Saved-same, seen-same,
}

calls-Inv :
    (f : ℕ → Ptr) (σ : System) (i a b : ℕ)
    → Inv f σ
    → σ.at i ≡ idle
    → a < num_rows
    → b < num_rows
    → Inv f (record σ { at = set σ.at i (enter a b) })
unfolding enter
calls-Inv f σ i a b inv e p q = record {
  fits = λ j. ground (arith, inv.fits j);
  owns = λ j r o. ground (arith, inv.owns j r);
  owned = λ j r o. ground (arith, inv.owned j r);
  free = inv.free;
  locked = λ j r o. ground (arith, inv.locked j r);
  saved = λ j. ground (arith, inv.saved j);
}

locks_first-Inv :
    (f : ℕ → Ptr) (σ : System) (i a b : ℕ)
    → Inv f σ
    → σ.at i ≡ lock_first a b
    → σ.owner a ≡ none
    → Inv f (record σ { owner = set σ.owner a (some i); at = set σ.at i (lock_second a b) })
locks_first-Inv f σ i a b inv e p = record {
  fits = λ j. ground (arith, inv.fits j, inv.fits i);
  owns = λ j r o. ground (arith, inv.owns j r);
  owned = λ j r o. ground (arith, inv.owned j r);
  free = λ r o. ground (arith, inv.free r);
  locked = λ j r o. ground (arith, inv.locked j r, inv.free r);
  saved = λ j. ground (arith, inv.saved j);
}

locks_second-Inv :
    (f : ℕ → Ptr) (σ : System) (i a b : ℕ)
    → Inv f σ
    → σ.at i ≡ lock_second a b
    → σ.owner b ≡ none
    → Inv f (record σ { owner = set σ.owner b (some i); at = set σ.at i (save a b) })
locks_second-Inv f σ i a b inv e p = record {
  fits = λ j. ground (arith, inv.fits j, inv.fits i);
  owns = λ j r o. ground (arith, inv.owns j r);
  owned = λ j r o. ground (arith, inv.owned j r);
  free = λ r o. ground (arith, inv.free r);
  locked = λ j r o. ground (arith, inv.locked j r, inv.free r);
  saved = λ j. ground (arith, inv.saved j);
}

saves-Inv :
    (f : ℕ → Ptr) (σ : System) (i a b : ℕ)
    → Inv f σ
    → σ.at i ≡ save a b
    → Inv f (record σ { at = set σ.at i (copy a b (σ.elements a)) })
saves-Inv f σ i a b inv e = record {
  fits = λ j. ground (arith, inv.fits j, inv.fits i);
  owns = λ j r o. ground (arith, inv.owns j r);
  owned = λ j r o. ground (arith, inv.owned j r);
  free = inv.free;
  locked = λ j r o. ground (arith, inv.locked j r);
  saved = λ j. ground (arith, inv.saved j, inv.locked i a);
}

copies-Inv :
    (f : ℕ → Ptr) (σ : System) (i a b : ℕ) (temp : Ptr)
    → Inv f σ
    → σ.at i ≡ copy a b temp
    → Inv f (record σ {
      elements = set σ.elements a (σ.elements b);
      at = set σ.at i (restore a b temp);
    })
copies-Inv f σ i a b temp inv e = record {
  fits = λ j. ground (arith, inv.fits j, inv.fits i);
  owns = λ j r o. ground (arith, inv.owns j r);
  owned = λ j r o. ground (arith, inv.owned j r);
  free = λ r o. ground (arith, inv.free r, inv.owns i a);
  locked = λ j r o. ground (
    arith,
    inv.locked j r,
    inv.locked i r,
    inv.locked i b,
    inv.fits i,
    holds-apart f σ i j a inv,
  );
  saved = λ j. ground (arith, inv.saved j, inv.saved i);
}

-- A swap of two rows that a thread has locked spares the rows of the others.
exchange_other :
    (f : ℕ → Ptr) (σ : System) (i a b : ℕ) (temp : Ptr) (j r : ℕ)
    → Inv f σ
    → σ.at i ≡ restore a b temp
    → i ≢ j
    → holds (σ.at j) r ≡ true
    → exchange a b f r ≡ f r
exchange_other f σ i a b temp j r inv e ne o =
    ground (arith, holds-apart f σ i j a inv ne, holds-apart f σ i j b inv ne)

restores-Inv :
    (f : ℕ → Ptr) (σ : System) (i a b : ℕ) (temp : Ptr)
    → Inv f σ
    → σ.at i ≡ restore a b temp
    → Inv
        (exchange a b f)
        (record σ { elements = set σ.elements b temp; at = set σ.at i (unlock_first a b) })
restores-Inv f σ i a b temp inv e = record {
  fits = λ j. ground (arith, inv.fits j, inv.fits i);
  owns = λ j r o. ground (arith, inv.owns j r);
  owned = λ j r o. ground (arith, inv.owned j r);
  free = λ r o. ground (arith, inv.free r, inv.owns i a, inv.owns i b);
  locked = λ j r o. elim (Bool-cases (j == i)) [
    | inl q ↦ ground (arith, inv.locked i r, inv.saved i, inv.fits i)
    | inr q ↦
        let ne : i ≢ j = ground arith in
        let held : holds (σ.at j) r ≡ true = rw q at o in
        let out = holds-apart f σ i j b inv ne (ground arith) in
        rw q (
          ground (
            arith,
            inv.locked j r held,
            seen-same f (exchange a b f) (σ.at j) r
                (λ s h. exchange_other f σ i a b temp j s inv e ne h) held,
          ))
  ];
  saved = λ j. elim (Bool-cases (j == i)) [
    | inl q ↦ rw q tt
    | inr q ↦ rw q (
        Saved-same f (exchange a b f) (σ.at j)
          (λ s h. exchange_other f σ i a b temp j s inv e (ground arith) h) (inv.saved j))
  ];
}

unlocks_first-Inv :
    (f : ℕ → Ptr) (σ : System) (i a b : ℕ)
    → Inv f σ
    → σ.at i ≡ unlock_first a b
    → Inv f (record σ { owner = set σ.owner a none; at = set σ.at i (unlock_second a b) })
unlocks_first-Inv f σ i a b inv e = record {
  fits = λ j. ground (arith, inv.fits j, inv.fits i);
  owns = λ j r o. ground (arith, inv.owns j r, inv.owns i a, inv.owns j a, inv.fits i);
  owned = λ j r o. ground (arith, inv.owned j r);
  free = λ r o. ground (arith, inv.free r, inv.locked i a);
  locked = λ j r o. ground (arith, inv.locked j r);
  saved = λ j. ground (arith, inv.saved j);
}

unlocks_second-Inv :
    (f : ℕ → Ptr) (σ : System) (i a b : ℕ)
    → Inv f σ
    → σ.at i ≡ unlock_second a b
    → Inv f (record σ { owner = set σ.owner b none; at = set σ.at i idle })
unlocks_second-Inv f σ i a b inv e = record {
  fits = λ j. ground (arith, inv.fits j);
  owns = λ j r o. ground (arith, inv.owns j r, inv.owns i b, inv.owns j b);
  owned = λ j r o. ground (arith, inv.owned j r);
  free = λ r o. ground (arith, inv.free r, inv.locked i b);
  locked = λ j r o. ground (arith, inv.locked j r);
  saved = λ j. ground (arith, inv.saved j);
}

Move-Inv :
    (initial : ℕ → Ptr) (t l : List (ℕ × ℕ)) (σ τ : System)
    → Inv (swapped initial t) σ
    → Move σ l τ
    → Inv (swapped initial (l ++ t)) τ
Move-Inv initial t l σ τ inv (locks_first i a b e p) =
    locks_first-Inv (swapped initial t) σ i a b inv e p
Move-Inv initial t l σ τ inv (locks_second i a b e p) =
    locks_second-Inv (swapped initial t) σ i a b inv e p
Move-Inv initial t l σ τ inv (saves i a b e) = saves-Inv (swapped initial t) σ i a b inv e
Move-Inv initial t l σ τ inv (copies i a b temp e) =
    copies-Inv (swapped initial t) σ i a b temp inv e
Move-Inv initial t l σ τ inv (restores i a b temp e) =
    restores-Inv (swapped initial t) σ i a b temp inv e
Move-Inv initial t l σ τ inv (unlocks_first i a b e) =
    unlocks_first-Inv (swapped initial t) σ i a b inv e
Move-Inv initial t l σ τ inv (unlocks_second i a b e) =
    unlocks_second-Inv (swapped initial t) σ i a b inv e

Step-Inv :
    (initial : ℕ → Ptr) (t l : List (ℕ × ℕ)) (σ τ : System)
    → Inv (swapped initial t) σ
    → Step σ l τ
    → Inv (swapped initial (l ++ t)) τ
Step-Inv initial t l σ τ inv (moves m) = Move-Inv initial t l σ τ inv m
Step-Inv initial t l σ τ inv (calls i a b e p q) = calls-Inv (swapped initial t) σ i a b inv e p q

-- In every system that the threads reach, the array stands for what the completed swaps make of it.
pub Reach-Inv :
    (initial : ℕ → Ptr) {t : List (ℕ × ℕ)} {σ : System}
    → Reach initial t σ
    → Inv (swapped initial t) σ
Reach-Inv initial here = record {
  fits = λ i. tt;
  owns = λ i r o. absurd (ground arith);
  owned = λ i r o. absurd (ground arith);
  free = λ r o. refl;
  locked = λ i r o. absurd (ground arith);
  saved = λ i. tt;
}
Reach-Inv initial (next {t} {l} {σ} {τ} r s) = Step-Inv initial t l σ τ (Reach-Inv initial r) s
