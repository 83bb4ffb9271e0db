-- ===== src/Lockbased/ArraySwap/Invariant.antt =====
-- What holds between any two commands of the threads.
use data_structure_benchmark.Base.{
  ℕ, ◌<◌, ◌≡◌, ◌≢◌, Bool, true, false, ◌||◌, none, some, arith, ◌==◌, if◌then◌else◌,
}
use data_structure_benchmark.Heap.{Ptr}
use data_structure_benchmark.Lockbased.ArraySwap.{
  num_rows, Place, idle, lock_first, lock_second, save, copy, restore, unlock_first, unlock_second,
  System,
}

-- whether a thread at this place has locked the row
abbrev pub holds : Place → ℕ → Bool
holds (lock_second a b) r = r == a
holds (save a b) r = (r == a) || (r == b)
holds (copy a b temp) r = (r == a) || (r == b)
holds (restore a b temp) r = (r == a) || (r == b)
holds (unlock_first a b) r = (r == a) || (r == b)
holds (unlock_second a b) r = r == b
holds _ r = false

-- The two indices are in order and in range.
abbrev pub InOrder : ℕ → ℕ → Type 0
InOrder a b = (a < b) × (b < num_rows)

abbrev pub Fits : Place → Type 0
Fits idle = Unit
Fits (lock_first a b) = InOrder a b
Fits (lock_second a b) = InOrder a b
Fits (save a b) = InOrder a b
Fits (copy a b temp) = InOrder a b
Fits (restore a b temp) = InOrder a b
Fits (unlock_first a b) = InOrder a b
Fits (unlock_second a b) = InOrder a b

-- what a thread at this place has left in a row that it has locked, where `f` is what the array stands
-- for
abbrev pub seen : Place → (ℕ → Ptr) → ℕ → Ptr
seen (restore a b temp) f r = if r == a then f b else f r
seen _ f r = f r

-- Its local variable is what the first row stood for.
abbrev pub Saved : Place → (ℕ → Ptr) → Type 0
Saved (copy a b temp) f = temp ≡ f a
Saved (restore a b temp) f = temp ≡ f a
Saved _ f = Unit

pub record Inv (f : ℕ → Ptr) (σ : System) : Type 0 where
  pub fits : (i : ℕ) → Fits (σ.at i)
  pub owns : (i r : ℕ) → holds (σ.at i) r ≡ true → σ.owner r ≡ some i
  pub owned : (i r : ℕ) → σ.owner r ≡ some i → holds (σ.at i) r ≡ true
  pub free : (r : ℕ) → σ.owner r ≡ none → σ.elements r ≡ f r
  pub locked : (i r : ℕ) → holds (σ.at i) r ≡ true → σ.elements r ≡ seen (σ.at i) f r
  pub saved : (i : ℕ) → Saved (σ.at i) f

-- The mutexes of two threads are not the same.
pub holds-apart :
    (f : ℕ → Ptr) (σ : System) (i j r : ℕ)
    → Inv f σ
    → i ≢ j
    → holds (σ.at i) r ≡ true
    → holds (σ.at j) r ≡ false
holds-apart f σ i j r inv ne o = ground (arith, inv.owns i r, inv.owns j r)

-- `g` stands for the same as `f` in the rows that a thread has locked.
module _ (f g : ℕ → Ptr) where
  pub Saved-same : (p : Place) → ((r : ℕ) → holds p r ≡ true → g r ≡ f r) → Saved p f → Saved p g
  Saved-same idle same s = tt
  Saved-same (lock_first a b) same s = tt
  Saved-same (lock_second a b) same s = tt
  Saved-same (save a b) same s = tt
  Saved-same (copy a b temp) same s = ground (arith, same a)
  Saved-same (restore a b temp) same s = ground (arith, same a)
  Saved-same (unlock_first a b) same s = tt
  Saved-same (unlock_second a b) same s = tt

  pub seen-same :
      (p : Place) (r : ℕ)
      → ((s : ℕ) → holds p s ≡ true → g s ≡ f s)
      → holds p r ≡ true
      → seen p g r ≡ seen p f r
  seen-same idle r same o = absurd (ground arith)
  seen-same (lock_first a b) r same o = absurd (ground arith)
  seen-same (lock_second a b) r same o = same r o
  seen-same (save a b) r same o = same r o
  seen-same (copy a b temp) r same o = same r o
  seen-same (restore a b temp) r same o = ground (arith, same a, same b, same r)
  seen-same (unlock_first a b) r same o = same r o
  seen-same (unlock_second a b) r same o = same r o
