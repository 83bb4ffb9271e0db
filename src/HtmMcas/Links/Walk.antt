-- ===== src/HtmMcas/Links/Walk.antt =====
-- Where the walk stops: where the one of the other lists does.
use data_structure_benchmark.Base.{
  ℕ, zero, suc, ◌<◌, ◌≡◌, refl, Bool, Bool-cases, false, inl, inr, [], ◌∷◌, ◌++◌, ◌||◌, arith, ◌==◌,
}
use data_structure_benchmark.Base.Lists.{length}
use data_structure_benchmark.Heap.{Ptr, null, Heap, done}
use data_structure_benchmark.Heap.Access.{load_ok}
use data_structure_benchmark.Heap.Chain.{Cells, first, Linked, Distinct, first-append, has-append}
use data_structure_benchmark.Linked.Shape.{Holds}
use data_structure_benchmark.Linked.Walk.{left}
use data_structure_benchmark.HtmMcas.Links.{walk_to}

module _ {ℓ} {A : Type ℓ} (test : A → Bool) where
  walk_to-from :
      (h : Heap A) (tl : Ptr × A) (k : ℕ) (b : Ptr) (xs : Cells A)
      → Linked h b null (xs ++ tl ∷ [])
      → Distinct (xs ++ tl ∷ [])
      → length xs < k
      → walk_to test tl.0 k (first tl.0 xs) h ≡ done (first tl.0 (left test xs)) h
  unfolding walk_to
  walk_to-from h tl zero b xs l s fuel = absurd (omega arith)
  walk_to-from h tl (suc k) b [] l s fuel = ground (arith, s.0)
  walk_to-from h tl (suc k) b ((p, v) ∷ xs) l s fuel =
      let ne : ((p == null) || (p == tl.0)) ≡ false =
        ground (arith, s.0, s.1, has-append p xs (tl ∷ [])) in
      let next = first-append null xs (tl ∷ []) in
      rw (ne, load_ok h p l.0)
        (elim (Bool-cases (test v)) [
          | inl e ↦ rw (e, next) (walk_to-from h tl k p xs l.1 s.2 (omega arith))
          | inr e ↦ rw e refl
        ])

  -- From the first node, with fuel for every node, the walk ends at the first cell that fails the test, or
  -- at the last sentinel, and changes nothing.
  pub walk_to_lem :
      (h : Heap A) (hd tl : Ptr × A) (k : ℕ) (xs : Cells A)
      → Holds h hd tl xs
      → length xs < k
      → walk_to test tl.0 k (first tl.0 xs) h ≡ done (first tl.0 (left test xs)) h
  walk_to_lem h hd tl k xs is fuel = walk_to-from h tl k hd.0 xs is.linked.1 is.distinct.2 fuel
