-- ===== src/Linked/Walk.antt =====
-- Where the walk stops: behind the cells that pass its test.
use data_structure_benchmark.Base.{
  ℕ, zero, suc, ◌<◌, ◌≡◌, refl, Bool, Bool-cases, false, inl, inr, [], ◌∷◌, ◌++◌, arith, ◌==◌, ap,
  if◌then◌else◌, eq_refl,
}
use data_structure_benchmark.Base.Lists.{length}
use data_structure_benchmark.Heap.{Ptr, null, Heap, done}
use data_structure_benchmark.Heap.Access.{load_ok}
use data_structure_benchmark.Heap.Chain.{
  Cells, first, last, Linked, Distinct, first-append, has-append,
}
use data_structure_benchmark.Linked.{walk}
use data_structure_benchmark.Linked.Shape.{Holds}

module _ {ℓ} {A : Type ℓ} (test : A → Bool) where
  -- the cells up to the first that fails the test
  abbrev pub passed : Cells A → Cells A
  passed [] = []
  passed ((p, v) ∷ xs) = if test v then (p, v) ∷ passed xs else []

  -- that cell and those behind it
  abbrev pub left : Cells A → Cells A
  left [] = []
  left ((p, v) ∷ xs) = if test v then left xs else (p, v) ∷ xs

  pub passed-append-left : (xs : Cells A) → passed xs ++ left xs ≡ xs
  passed-append-left [] = refl
  passed-append-left ((p, v) ∷ xs) = elim (Bool-cases (test v)) [
    | inl e ↦ rw e (ap (λ z. (p, v) ∷ z) (passed-append-left xs))
    | inr e ↦ rw e refl
  ]

  walk_from :
      (h : Heap A) (tl : Ptr × A) (k : ℕ) (b : Ptr) (xs : Cells A)
      → Linked h b null (xs ++ tl ∷ [])
      → Distinct (xs ++ tl ∷ [])
      → length xs < k
      → walk test tl.0 k b (first tl.0 xs) h ≡ done (last b (passed xs), first tl.0 (left xs)) h
  unfolding walk
  walk_from h tl zero b xs l s fuel = absurd (omega arith)
  walk_from h tl (suc k) b [] l s fuel = rw (eq_refl tl.0)
  walk_from h tl (suc k) b ((p, v) ∷ xs) l s fuel =
      let ne : (p == tl.0) ≡ false = ground (arith, s.1, has-append p xs (tl ∷ [])) in
      let next = first-append null xs (tl ∷ []) in
      rw (ne, load_ok h p l.0)
        (elim (Bool-cases (test v)) [
          | inl e ↦ rw (e, next) (walk_from h tl k p xs l.1 s.2 (omega arith))
          | inr e ↦ rw e refl
        ])

  -- From the first node, with fuel for every node, the walk ends at the first cell that fails the
  -- test, or at the last sentinel, and changes nothing.
  pub walk_lem :
      (h : Heap A) (hd tl : Ptr × A) (k : ℕ) (xs : Cells A)
      → Holds h hd tl xs
      → length xs < k
      → walk test tl.0 k hd.0 (first tl.0 xs) h
        ≡ done (last hd.0 (passed xs), first tl.0 (left xs)) h
  walk_lem h hd tl k xs is fuel = walk_from h tl k hd.0 xs is.linked.1 is.distinct.2 fuel
