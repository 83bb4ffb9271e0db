-- ===== src/Lockbased/SortedList/Count.antt =====
-- `count`, and the bound on its `int`.
use data_structure_benchmark.Base.{
  ℕ, zero, suc, ◌+◌, ◌≤◌, ◌<◌, ◌≡◌, ap, ◌∙◌, Bool-cases, true, false, [], ◌∷◌, ◌++◌, arith, inl,
  inr, ◌==◌, ltb, eq_refl,
}
use data_structure_benchmark.Base.Int.{ℤ, eq_int}
use data_structure_benchmark.Base.Lists.{length}
use data_structure_benchmark.Heap.{Ptr, null, Heap, done}
use data_structure_benchmark.Heap.Access.{load_ok}
use data_structure_benchmark.Heap.Chain.{
  Cells, first, values, Linked, Distinct, has-append, first-append,
}
use data_structure_benchmark.Linked.Shape.{head_at}
use data_structure_benchmark.Lockbased.SortedList.{
  SortedList, int_max, increment, count_loop, count,
}
use data_structure_benchmark.Lockbased.SortedList.Order.{occurrences}
use data_structure_benchmark.Lockbased.SortedList.Shape.{hd, tl, IsList}

count_loop-occurrences :
    (h : Heap ℤ) (t : Ptr × ℤ) (v : ℤ) (k : ℕ) (b : Ptr) (xs : Cells ℤ) (n : ℕ)
    → Linked h b null (xs ++ t ∷ [])
    → Distinct (xs ++ t ∷ [])
    → length xs < k
    → n + occurrences v (values xs) ≤ int_max
    → count_loop v t.0 k (first t.0 xs) n h ≡ done (n + occurrences v (values xs)) h
unfolding count_loop increment
count_loop-occurrences h t v zero b xs n l s fuel small = absurd (omega arith)
count_loop-occurrences h t v (suc k) b [] n l s fuel small =
    rw (eq_refl t.0) (ap (λ z. done z h) (omega arith))
count_loop-occurrences h t v (suc k) b ((p, u) ∷ xs) n l s fuel small =
    let ne : (p == t.0) ≡ false = ground (arith, s.1, has-append p xs (t ∷ [])) in
    let next = first-append null xs (t ∷ []) in
    rw (ne, load_ok h p l.0)
      (elim (Bool-cases (eq_int u v)) [
        | inl e ↦
            let room : ltb n int_max ≡ true = ground (arith, e) in
            rw (e, room, next)
              (count_loop-occurrences h t v k p xs (n + 1) l.1 s.2 (omega arith) (ground (arith, e))
                ∙ ap (λ z. done z h) (ground (arith, e)))
        | inr e ↦
            rw (e, next)
              (count_loop-occurrences h t v k p xs n l.1 s.2 (omega arith) (ground (arith, e))
                ∙ ap (λ z. done z h) (ground (arith, e)))
      ])

-- `count`, with fuel for every node, returns how often the value occurs, changes nothing, and its `int`
-- does not overflow, if that number is an `int`.
pub count-occurrences :
    (h : Heap ℤ) (l : SortedList) (v : ℤ) (xs : Cells ℤ) (fuel : ℕ)
    → IsList h l xs
    → length xs < fuel
    → occurrences v (values xs) ≤ int_max
    → count fuel l v h ≡ done (occurrences v (values xs)) h
unfolding count
count-occurrences h l v xs fuel is enough small =
    rw (load_ok h l.head (head_at h (hd l) (tl l) xs is.held)) (
      count_loop-occurrences h (tl l) v fuel l.head xs 0 is.held.linked.1 is.held.distinct.2 enough
        (omega arith)
      ∙ ap (λ z. done z h) (omega arith))
