-- ===== src/Lockbased/HashMap/Lookup.antt =====
-- `find` and `contains`.
use data_structure_benchmark.Base.{
  ℕ, zero, suc, ◌<◌, ◌≡◌, refl, inl, inr, Bool, Bool-cases, true, false, Option, none, some, [],
  ◌∷◌, ◌++◌, arith, ◌==◌, eq_refl,
}
use data_structure_benchmark.Base.Int.{ℤ, minus_one, eq_int}
use data_structure_benchmark.Base.Lists.{length}
use data_structure_benchmark.Heap.{Ptr, null, Heap, done}
use data_structure_benchmark.Heap.Access.{load_ok}
use data_structure_benchmark.Heap.Chain.{Cells, first, Linked, Distinct, has-append, first-append}
use data_structure_benchmark.Linked.Shape.{head_at}
use data_structure_benchmark.Lockbased.HashMap.{
  HashMap, Entry, index, contains_loop, contains, find_loop, find,
}
use data_structure_benchmark.Lockbased.HashMap.Table.{hd, tl, lookup, IsTable}
use data_structure_benchmark.Lockbased.HashMap.Effect.{index_bound, value_at}

-- whether there is a value
abbrev pub present : Option ℤ → Bool
present none = false
present (some v) = true

-- what `find` returns for it
abbrev pub value_or : Option ℤ → ℤ
value_or none = minus_one
value_or (some v) = v

module _ (h : Heap Entry) (key : ℤ) (t : Ptr × Entry) where
  contains_loop-present :
      (k : ℕ) (b : Ptr) (xs : Cells Entry)
      → Linked h b null (xs ++ t ∷ [])
      → Distinct (xs ++ t ∷ [])
      → length xs < k
      → contains_loop key t.0 k (first t.0 xs) h ≡ done (present (lookup key xs)) h
  unfolding contains_loop
  contains_loop-present zero b xs l s fuel = absurd (omega arith)
  contains_loop-present (suc k) b [] l s fuel = rw (eq_refl t.0) refl
  contains_loop-present (suc k) b ((p, e) ∷ xs) l s fuel =
      let ne : (p == t.0) ≡ false = ground (arith, s.1, has-append p xs (t ∷ [])) in
      let next = first-append null xs (t ∷ []) in
      rw (ne, load_ok h p l.0)
        (elim (Bool-cases (eq_int e.key key)) [
          | inl q ↦ rw q refl
          | inr q ↦ rw (q, next) (contains_loop-present k p xs l.1 s.2 (omega arith))
        ])

  find_loop-value_or :
      (k : ℕ) (b : Ptr) (xs : Cells Entry)
      → Linked h b null (xs ++ t ∷ [])
      → Distinct (xs ++ t ∷ [])
      → length xs < k
      → find_loop key t.0 k (first t.0 xs) h ≡ done (value_or (lookup key xs)) h
  unfolding find_loop
  find_loop-value_or zero b xs l s fuel = absurd (omega arith)
  find_loop-value_or (suc k) b [] l s fuel = rw (eq_refl t.0) refl
  find_loop-value_or (suc k) b ((p, e) ∷ xs) l s fuel =
      let ne : (p == t.0) ≡ false = ground (arith, s.1, has-append p xs (t ∷ [])) in
      let next = first-append null xs (t ∷ []) in
      rw (ne, load_ok h p l.0)
        (elim (Bool-cases (eq_int e.key key)) [
          | inl q ↦ rw q refl
          | inr q ↦ rw (q, next) (find_loop-value_or k p xs l.1 s.2 (omega arith))
        ])

-- `find`, with fuel for every node of the key's bucket, returns the value that the table holds at the
-- key, or -1 if it holds none, `contains` returns whether it holds one, and both change nothing.
pub find-lookup :
    (hash : ℤ → ℕ) (h : Heap Entry) (m : HashMap) (key : ℤ) (cells : ℕ → Cells Entry) (fuel : ℕ)
    → IsTable h m cells
    → length (cells (index hash key)) < fuel
    → (find hash fuel m key h ≡ done (value_or (value_at hash cells key)) h)
      × (contains hash fuel m key h ≡ done (present (value_at hash cells key)) h)
unfolding find contains
find-lookup hash h m key cells fuel is enough =
    let i = index hash key in
    let held = is.held i (index_bound hash key) in
    let at = load_ok h (m.bucket_heads i) (head_at h (hd m i) (tl m i) (cells i) held) in
    (
      rw at (
          find_loop-value_or h key (tl m i) fuel (m.bucket_heads i) (cells i) held.linked.1
            held.distinct.2 enough),
      rw at (
          contains_loop-present h key (tl m i) fuel (m.bucket_heads i) (cells i) held.linked.1
            held.distinct.2 enough),
    )
