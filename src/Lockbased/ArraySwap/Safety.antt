-- ===== src/Lockbased/ArraySwap/Safety.antt =====
-- What any number of threads do to the array, and that they do not block each other for ever.
use data_structure_benchmark.Base.{
  ℕ, Option-cases, zero, suc, ◌+◌, ◌≤◌, ◌≡◌, refl, ◌≢◌, inl, inr, true, none, some, List, [], ◌∷◌,
  arith, ◌==◌, if◌then◌else◌, ◌∙◌, sym,
}
use data_structure_benchmark.Heap.{Ptr}
use data_structure_benchmark.Lockbased.ArraySwap.{
  num_rows, Place, idle, lock_first, lock_second, save, copy, restore, unlock_first, unlock_second,
  System, Move, locks_first, locks_second, saves, copies, restores, unlocks_first, unlocks_second,
  Reach, exchange, swapped,
}
use data_structure_benchmark.Lockbased.ArraySwap.Invariant.{holds, Fits, Inv}
use data_structure_benchmark.Lockbased.ArraySwap.Moves.{Reach-Inv}

-- No two rows hold the same element.
abbrev pub AllDifferent : (ℕ → Ptr) → Type 0
AllDifferent f = (r s : ℕ) → f r ≡ f s → r ≡ s

exchange-AllDifferent : (a b : ℕ) (f : ℕ → Ptr) → AllDifferent f → AllDifferent (exchange a b f)
exchange-AllDifferent a b f d r s e =
    ground (arith, d r s, d r a, d r b, d a s, d b s, d a b, d b a)

swapped-AllDifferent :
    (initial : ℕ → Ptr) (t : List (ℕ × ℕ)) → AllDifferent initial → AllDifferent (swapped initial t)
swapped-AllDifferent initial [] d = d
swapped-AllDifferent initial ((a, b) ∷ t) d =
    exchange-AllDifferent a b (swapped initial t) (swapped-AllDifferent initial t d)

-- the row to which the swaps take the element of row `q`
abbrev place_of : List (ℕ × ℕ) → ℕ → ℕ
place_of [] q = q
place_of ((a, b) ∷ t) q =
    if place_of t q == a then b else if place_of t q == b then a else place_of t q

swapped-place_of :
    (initial : ℕ → Ptr) (t : List (ℕ × ℕ)) (q : ℕ) → swapped initial t (place_of t q) ≡ initial q
swapped-place_of initial [] q = refl
swapped-place_of initial ((a, b) ∷ t) q = ground (arith, swapped-place_of initial t q)

-- Whatever threads call `swap` and in whatever order they run, a row that no thread has locked holds
-- what it holds when the completed swaps run one after the other.
pub swaps_serialize :
    (initial : ℕ → Ptr) (t : List (ℕ × ℕ)) (σ : System) (r : ℕ)
    → Reach initial t σ
    → σ.owner r ≡ none
    → σ.elements r ≡ swapped initial t r
swaps_serialize initial t σ r reach quiet = (Reach-Inv initial reach).free r quiet

-- Whatever swaps have run, if no row is locked and the elements were all different at first, then every
-- element is still in a row, and no two rows hold the same.
pub swaps_permute :
    (initial : ℕ → Ptr) (t : List (ℕ × ℕ)) (σ : System)
    → Reach initial t σ
    → ((r : ℕ) → σ.owner r ≡ none)
    → AllDifferent initial
    → ((q : ℕ) → (r : ℕ) × (σ.elements r ≡ initial q)) × AllDifferent σ.elements
swaps_permute initial t σ reach quiet d =
    let now : (r : ℕ) → σ.elements r ≡ swapped initial t r =
      λ r. swaps_serialize initial t σ r reach (quiet r) in
    (
      λ q. (place_of t q, now (place_of t q) ∙ swapped-place_of initial t q),
      λ r s e. swapped-AllDifferent initial t d r s (sym (now r) ∙ e ∙ now s),
    )

-- A thread in `swap` can do its next command.
abbrev pub CanMove : System → Type 0
CanMove σ = (l : List (ℕ × ℕ)) × (τ : System) × Move σ l τ

-- Behind a row that is locked, some thread can move: each waits for a later row than it has locked.
holder-CanMove :
    (f : ℕ → Ptr) (σ : System) (n i : ℕ) (p : Place) (r : ℕ)
    → Inv f σ
    → σ.at i ≡ p
    → Fits p
    → holds p r ≡ true
    → num_rows ≤ r + n
    → CanMove σ
holder-CanMove f σ n i idle r inv e fit o far = absurd (ground arith)
holder-CanMove f σ n i (lock_first a b) r inv e fit o far = absurd (ground arith)
holder-CanMove f σ zero i (lock_second a b) r inv e fit o far = absurd (ground arith)
holder-CanMove f σ (suc n) i (lock_second a b) r inv e fit o far = elim (Option-cases (σ.owner b)) [
  | inl free ↦ (_, _, locks_second i a b e free)
  | inr taken ↦
      holder-CanMove f σ n taken.0 (σ.at taken.0) b inv refl (inv.fits taken.0)
        (inv.owned taken.0 b taken.1) (ground arith)
]
holder-CanMove f σ n i (save a b) r inv e fit o far = (_, _, saves i a b e)
holder-CanMove f σ n i (copy a b temp) r inv e fit o far = (_, _, copies i a b temp e)
holder-CanMove f σ n i (restore a b temp) r inv e fit o far = (_, _, restores i a b temp e)
holder-CanMove f σ n i (unlock_first a b) r inv e fit o far = (_, _, unlocks_first i a b e)
holder-CanMove f σ n i (unlock_second a b) r inv e fit o far = (_, _, unlocks_second i a b e)

locked-CanMove : (f : ℕ → Ptr) (σ : System) (k r : ℕ) → Inv f σ → σ.owner r ≡ some k → CanMove σ
locked-CanMove f σ k r inv o =
    holder-CanMove f σ num_rows k (σ.at k) r inv refl (inv.fits k) (inv.owned k r o) (omega arith)

thread-CanMove :
    (f : ℕ → Ptr) (σ : System) (i : ℕ) (p : Place) → Inv f σ → σ.at i ≡ p → p ≢ idle → CanMove σ
thread-CanMove f σ i idle inv e busy = absurd (busy refl)
thread-CanMove f σ i (lock_first a b) inv e busy = elim (Option-cases (σ.owner a)) [
  | inl free ↦ (_, _, locks_first i a b e free)
  | inr taken ↦ locked-CanMove f σ taken.0 a inv taken.1
]
thread-CanMove f σ i (lock_second a b) inv e busy = elim (Option-cases (σ.owner b)) [
  | inl free ↦ (_, _, locks_second i a b e free)
  | inr taken ↦ locked-CanMove f σ taken.0 b inv taken.1
]
thread-CanMove f σ i (save a b) inv e busy = (_, _, saves i a b e)
thread-CanMove f σ i (copy a b temp) inv e busy = (_, _, copies i a b temp e)
thread-CanMove f σ i (restore a b temp) inv e busy = (_, _, restores i a b temp e)
thread-CanMove f σ i (unlock_first a b) inv e busy = (_, _, unlocks_first i a b e)
thread-CanMove f σ i (unlock_second a b) inv e busy = (_, _, unlocks_second i a b e)

-- No deadlock: in every system that the threads reach, if some thread is in `swap`, then some thread in
-- `swap` can do its next command.
pub no_deadlock :
    (initial : ℕ → Ptr) (t : List (ℕ × ℕ)) (σ : System) (i : ℕ)
    → Reach initial t σ
    → σ.at i ≢ idle
    → CanMove σ
no_deadlock initial t σ i reach busy =
    thread-CanMove (swapped initial t) σ i (σ.at i) (Reach-Inv initial reach) refl busy
