-- ===== src/HtmLock/ArraySwap/Swap.antt =====
-- What `swap` does to the rows.
use data_structure_benchmark.Base.{
  ℕ, ◌<◌, ◌≤◌, ◌≡◌, ◌≢◌, ◌⊎◌, refl, true, arith, ltb, Bool-cases, inl, inr, ◌==◌,
}
use data_structure_benchmark.Heap.{Ptr}
use data_structure_benchmark.Tm.{Answers, Entry, speculative, fallback, refused, undecided, begin}
use data_structure_benchmark.Tm.Begin.{begin-ne_refused}
use data_structure_benchmark.Lockbased.ArraySwap.{num_rows, exchange}
use data_structure_benchmark.HtmLock.ArraySwap.{
  Outcome, returned, aborted, swap_section, swap_ordered, swap,
}

-- The call returns `true` and has exchanged the two rows.
abbrev pub Exchanged : ℕ → ℕ → (ℕ → Ptr) → Outcome → Type 0
Exchanged a b f (returned r g) = (r ≡ true) × ((i : ℕ) → g i ≡ exchange a b f i)
Exchanged a b f _ = ⊥

swap_ordered-Exchanged :
    (tries : Answers) (a b : ℕ) (f : ℕ → Ptr)
    → begin tries ≢ undecided
    → Exchanged a b f (swap_ordered tries a b f)
unfolding swap_ordered swap_section
swap_ordered-Exchanged tries a b f decided = by_entry (begin tries) (begin-ne_refused tries) decided
  where
    by_entry :
        (e : Entry)
        → e ≢ refused
        → e ≢ undecided
        → Exchanged a b f (elim e [
          | speculative ↦ returned true (swap_section a b f)
          | fallback ↦ returned true (swap_section a b f)
          | refused ↦ Outcome.waiting
          | undecided ↦ Outcome.waiting
        ])
    by_entry speculative p q = (refl, λ i. ground arith)
    by_entry fallback p q = (refl, λ i. ground arith)
    by_entry refused p q = p refl
    by_entry undecided p q = q refl

Exchanged-comm : (a b : ℕ) (f : ℕ → Ptr) (o : Outcome) → Exchanged b a f o → Exchanged a b f o
Exchanged-comm a b f (returned r g) e = (e.0, λ i. ground (arith, e.1 i))
Exchanged-comm a b f aborted e = e
Exchanged-comm a b f Outcome.waiting e = e

-- `swap` of two rows of the array, once `TM_BEGIN` has returned, returns `true` and exchanges the
-- elements of the two rows, and of no other.
pub swap-Exchanged :
    (tries : Answers) (a b : ℕ) (f : ℕ → Ptr)
    → begin tries ≢ undecided
    → a < num_rows
    → b < num_rows
    → Exchanged a b f (swap tries a b f)
unfolding swap
swap-Exchanged tries a b f decided p q =
    let in_a : ltb a num_rows ≡ true = ground arith in
    let in_b : ltb b num_rows ≡ true = ground arith in
    rw (in_a, in_b)
      (elim (Bool-cases (a == b)) [
        | inl e ↦ rw e (refl, λ i. ground arith)
        | inr e ↦ rw e (elim (Bool-cases (ltb b a)) [
          | inl l ↦ rw l (
              Exchanged-comm a b f (swap_ordered tries b a f)
                (swap_ordered-Exchanged tries b a f decided))
          | inr l ↦ rw l (swap_ordered-Exchanged tries a b f decided)
        ])
      ])

-- `swap` of a row that is none fails its assertion, whatever the processor answers.
pub swap_out_of_range :
    (tries : Answers) (a b : ℕ) (f : ℕ → Ptr)
    → (num_rows ≤ a) ⊎ (num_rows ≤ b)
    → swap tries a b f ≡ aborted
unfolding swap
swap_out_of_range tries a b f out = ground (arith, out)
