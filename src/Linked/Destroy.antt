-- ===== src/Linked/Destroy.antt =====
-- The loop of the destructors.
use data_structure_benchmark.Base.{
  ℕ, zero, suc, ◌+◌, ◌<◌, ◌≡◌, refl, false, none, some, [], ◌∷◌, ◌++◌, arith, ◌==◌, if◌then◌else◌,
  eq_refl,
}
use data_structure_benchmark.Base.Lists.{length}
use data_structure_benchmark.Heap.{Ptr, null, node, Heap, write, delete, ◌>>◌}
use data_structure_benchmark.Heap.Access.{load_ok, delete_ok}
use data_structure_benchmark.Heap.Chain.{
  Cells, has, first, last, Linked, Distinct, has-append, first-append, frame, node_at,
  Distinct-middle,
}
use data_structure_benchmark.Heap.Finishes
use data_structure_benchmark.Heap.Finishes.{Finishes, finishes}
use data_structure_benchmark.Linked.{destroy_loop}

module _ {ℓ} {A : Type ℓ} where
  -- `g` is `h` less the nodes of `xs`.
  abbrev pub Without : Cells A → Heap A → Heap A → Type ℓ
  Without xs h g = (a : Ptr) → g a ≡ (if has a xs then none else h a)

  -- With fuel for every node the loop deletes the nodes before the last sentinel, and no other.
  pub destroy_loop-Without :
      (k : ℕ) (h : Heap A) (t : Ptr × A) (b : Ptr) (xs : Cells A)
      → Linked h b null (xs ++ t ∷ [])
      → Distinct (xs ++ t ∷ [])
      → length xs < k
      → Finishes (λ _. Without xs h) (destroy_loop t.0 k (first t.0 xs) h)
  unfolding destroy_loop write
  destroy_loop-Without zero h t b xs l s fuel = absurd (omega arith)
  destroy_loop-Without (suc k) h t b [] l s fuel = rw (eq_refl t.0) (finishes λ a. refl)
  destroy_loop-Without (suc k) h t b ((p, v) ∷ xs) l s fuel =
      let g : Heap A = write h p none in
      let l' = frame h g p null (xs ++ t ∷ []) l.1 λ a i. ground (arith, s.1) in
      let next = first-append null xs (t ∷ []) in
      let ne : (p == t.0) ≡ false = ground (arith, s.1, has-append p xs (t ∷ [])) in
      rw (ne, load_ok h p l.0, delete_ok h p l.0, next)
        (Finishes.weaken (destroy_loop-Without k g t p xs l' s.2 (omega arith))
          λ _ f gone a. ground (arith, gone a))

  -- The loop, and the deletion of the last sentinel behind it.
  pub destroy_all-Without :
      (h : Heap A) (hd t : Ptr × A) (xs : Cells A) (fuel : ℕ)
      → Linked h null null (hd ∷ (xs ++ t ∷ []))
      → Distinct (hd ∷ (xs ++ t ∷ []))
      → length xs + 1 < fuel
      → Finishes
          (λ _. Without (hd ∷ (xs ++ t ∷ [])) h)
          ((destroy_loop t.0 fuel hd.0 >> delete t.0) h)
  unfolding write
  destroy_all-Without h hd t xs fuel l s enough =
      Finishes.chain (destroy_loop-Without fuel h t null (hd ∷ xs) l s (omega arith)) λ _ g gone.
        let at_tail = node_at h null null (hd ∷ xs) t.0 t.1 [] l in
        let out = Distinct-middle (hd ∷ xs) t.0 t.1 [] s in
        let alive : g t.0 ≡ some (node t.1 null (last null (hd ∷ xs))) =
          ground (arith, gone t.0, at_tail, out.before) in
        rw (delete_ok g t.0 alive) (finishes λ a. ground (arith, gone a, has-append a xs (t ∷ [])))
