-- ===== src/Lockbased/ArraySwap.antt =====
-- lockbased/array_swap.h: an array of elements with one mutex for each row. The threads run `swap` one
-- command at a time; a call that is out of range fails its assertion and is no call here.
pub mod Invariant
pub mod Moves
pub mod Safety
mod Tests
use data_structure_benchmark.Base.{
  ℕ, ◌<◌, ◌≡◌, Bool, false, ◌||◌, Option, none, some, List, [], ◌∷◌, ◌++◌, ◌==◌, ltb, if◌then◌else◌,
}
use data_structure_benchmark.Heap.{Ptr}

-- `NUM_ROWS`
abbrev pub num_rows : ℕ
num_rows = 100000

-- Where a thread stands in `swap`: the command that is next, with the values of its variables.
pub data Place : Type 0 where
  -- outside of `swap`
  idle : Place
  lock_first : ℕ → ℕ → Place
  lock_second : ℕ → ℕ → Place
  -- `temp = S->array[index_a].elements_`
  save : ℕ → ℕ → Place
  -- `S->array[index_a].elements_ = S->array[index_b].elements_`
  copy : ℕ → ℕ → Ptr → Place
  -- `S->array[index_b].elements_ = temp`
  restore : ℕ → ℕ → Ptr → Place
  unlock_first : ℕ → ℕ → Place
  unlock_second : ℕ → ℕ → Place

-- the pointer `elements_` of each row, the thread that has locked its mutex, and each thread
pub record System : Type 0 where
  pub elements : ℕ → Ptr
  pub owner : ℕ → Option ℕ
  pub at : ℕ → Place

-- an assignment to one entry of an array
abbrev pub set {ℓ} : {A : Type ℓ} → (ℕ → A) → ℕ → A → ℕ → A
set f i x j = if j == i then x else f j

-- `swap` up to its first lock: equal indices return at once, the others are put in order.
unfoldable pub enter : ℕ → ℕ → Place
enter index_a index_b =
    if index_a == index_b
    then idle
    else if ltb index_b index_a
    then lock_first index_b index_a
    else lock_first index_a index_b

-- A command of a thread in `swap`, with the swap that it completes, if any.
pub data Move (σ : System) : List (ℕ × ℕ) → System → Type 0 where
  locks_first :
      (i a b : ℕ)
      → σ.at i ≡ lock_first a b
      → σ.owner a ≡ none
      → Move σ [] (record σ { owner = set σ.owner a (some i); at = set σ.at i (lock_second a b) })
  locks_second :
      (i a b : ℕ)
      → σ.at i ≡ lock_second a b
      → σ.owner b ≡ none
      → Move σ [] (record σ { owner = set σ.owner b (some i); at = set σ.at i (save a b) })
  saves :
      (i a b : ℕ)
      → σ.at i ≡ save a b
      → Move σ [] (record σ { at = set σ.at i (copy a b (σ.elements a)) })
  copies :
      (i a b : ℕ) (temp : Ptr)
      → σ.at i ≡ copy a b temp
      → Move σ [] (record σ {
        elements = set σ.elements a (σ.elements b);
        at = set σ.at i (restore a b temp);
      })
  restores :
      (i a b : ℕ) (temp : Ptr)
      → σ.at i ≡ restore a b temp
      → Move σ
          ((a, b) ∷ [])
          (record σ { elements = set σ.elements b temp; at = set σ.at i (unlock_first a b) })
  unlocks_first :
      (i a b : ℕ)
      → σ.at i ≡ unlock_first a b
      → Move σ [] (record σ { owner = set σ.owner a none; at = set σ.at i (unlock_second a b) })
  unlocks_second :
      (i a b : ℕ)
      → σ.at i ≡ unlock_second a b
      → Move σ [] (record σ { owner = set σ.owner b none; at = set σ.at i idle })

-- a command in `swap`, or a call of it with indices that pass the assertion
pub data Step (σ : System) : List (ℕ × ℕ) → System → Type 0 where
  moves : {l : List (ℕ × ℕ)} {τ : System} → Move σ l τ → Step σ l τ
  calls :
      (i index_a index_b : ℕ)
      → σ.at i ≡ idle
      → index_a < num_rows
      → index_b < num_rows
      → Step σ [] (record σ { at = set σ.at i (enter index_a index_b) })

-- `initialize`, with the elements that it allocates
abbrev pub init : (ℕ → Ptr) → System
init elements = record { elements = elements; owner = λ _. none; at = λ _. idle }

-- the systems that the threads reach, each with the swaps completed so far, the last one first
pub data Reach (initial : ℕ → Ptr) : List (ℕ × ℕ) → System → Type 0 where
  here : Reach initial [] (init initial)
  next :
      {t l : List (ℕ × ℕ)} {σ τ : System}
      → Reach initial t σ
      → Step σ l τ
      → Reach initial (l ++ t) τ

-- What the swaps do when they run one after the other.
abbrev pub exchange : ℕ → ℕ → (ℕ → Ptr) → ℕ → Ptr
exchange a b f r = if r == a then f b else if r == b then f a else f r

abbrev pub swapped : (ℕ → Ptr) → List (ℕ × ℕ) → ℕ → Ptr
swapped initial [] = initial
swapped initial ((a, b) ∷ t) = exchange a b (swapped initial t)
