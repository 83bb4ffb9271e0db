-- ===== src/SearchTree/Delete.antt =====
-- The loop of `remove` of htm-mcas deletes one occurrence of the value in its tree.
use data_structure_benchmark.Base.{
  ℕ, zero, suc, ◌<◌, ◌≡◌, ◌≢◌, refl, true, false, Bool-cases, inl, inr, ◌||◌, ◌&&◌, not, some, ◌==◌,
  arith, sym, ap, subst, ◌∙◌,
}
use data_structure_benchmark.Base.Int.{ℤ, lt_int, eq_int}
use data_structure_benchmark.Heap.{Ptr, null}
use data_structure_benchmark.SearchTree.{
  node, put, Tree, Side, left_side, right_side, write, Outcome, done, min_from, unlink_leaf,
  unlink_single, only_child, remove_once,
}
use data_structure_benchmark.SearchTree.Spec.{
  Branches, leaf, branch, address, size, least, delete, delete-found, delete-left, delete-right,
}
use data_structure_benchmark.SearchTree.Shape.{has, Holds, Apart, Slot, under, Fits, fill, Replaced}
use data_structure_benchmark.SearchTree.Remove.{
  min_from_lem, unlink_leaf_lem, unlink_single_lem, fill-Holds, fill_self, Above, right-Holds,
  right-Fits, left-Fits, lift-right, lift-left,
}

-- the node `x` with the value `w`
abbrev pub revalued : Tree → Branches → Ptr → ℤ → Branches → Tree
revalued m l a w r = write a (node w (address l) (address r)) m

pub revalued-Above :
    (m : Tree) (l : Branches) (a : Ptr) (w : ℤ) (r : Branches)
    → Above m (revalued m l a w r) l a w r
unfolding put
revalued-Above m l a w r = record { root = refl; here = ground arith; off = λ b ne. ground arith }

pub unchanged-Above :
    (m : Tree) (l : Branches) (a : Ptr) (w : ℤ) (r : Branches)
    → m.nodes a ≡ some (node w (address l) (address r))
    → Above m m l a w r
unchanged-Above m l a w r at = record { root = refl; here = at; off = λ b ne. refl }

-- one round of the loop, by the node that it is at
module _ (f : ℕ) (v : ℤ) (l : Branches) (a : Ptr) (w : ℤ) (r : Branches) (prev : Ptr) (s : Side)
    (m : Tree) (ne : a ≢ null) (at : m.nodes a ≡ some (node w (address l) (address r))) where
  pub once-left :
      eq_int w v ≡ false
      → lt_int v w ≡ true
      → remove_once (suc f) v a prev s m ≡ remove_once f v (address l) a left_side m
  unfolding remove_once
  once-left e g = ground arith

  pub once-right :
      eq_int w v ≡ false
      → lt_int v w ≡ false
      → remove_once (suc f) v a prev s m ≡ remove_once f v (address r) a right_side m
  unfolding remove_once
  once-right e g = ground arith

  pub once-leaf :
      eq_int w v ≡ true
      → address l ≡ null
      → address r ≡ null
      → remove_once (suc f) v a prev s m ≡ unlink_leaf a prev s m
  unfolding remove_once
  once-leaf e g h = ground arith

  pub once-single :
      eq_int w v ≡ true
      → ((address l == null) && not (address r == null)
          || (address r == null) && not (address l == null))
        ≡ true
      → remove_once (suc f) v a prev s m ≡ unlink_single a prev s m
  unfolding remove_once
  once-single e g = ground arith

  pub once-both :
      eq_int w v ≡ true
      → address l ≢ null
      → address r ≢ null
      → (k : ℤ) → min_from f (address r) m ≡ done k m
      → remove_once (suc f) v a prev s m
        ≡ remove_once f k (address r) a right_side (revalued m l a k r)
  unfolding remove_once
  once-both e g h k low = ground arith

-- what the loop does at a tree in a slot
abbrev pub Deletes : Tree → Slot → Branches → ℤ → Outcome (Unit {0}) → Type 0
Deletes m slot t v o = (g : Tree) × (o ≡ done tt g) × Replaced m slot t (delete v t) g

module _ (slot : Slot) (prev : Ptr) (s : Side) where
  single-Deletes :
      (f : ℕ) (v : ℤ) (m : Tree) (l : Branches) (a : Ptr) (w : ℤ) (r : Branches) (t' : Branches)
      → Holds m.nodes (branch l a w r)
      → Apart (branch l a w r)
      → Fits m slot (branch l a w r) prev s
      → eq_int w v ≡ true
      → ((address l == null) && not (address r == null)
          || (address r == null) && not (address l == null))
        ≡ true
      → delete v (branch l a w r) ≡ t'
      → only_child (node w (address l) (address r)) ≡ address t'
      → Holds m.nodes t'
      → ((b : Ptr) → has b t' ≡ true → has b (branch l a w r) ≡ true)
      → Deletes m slot (branch l a w r) v (remove_once (suc f) v a prev s m)
  single-Deletes f v m l a w r t' is apart fits e single deleted only holds part =
      let p = only_child (node w (address l) (address r)) in
      let g = fill slot (address t') m in
      (
        g,
        once-single f v l a w r prev s m apart.0 is.0 e single
            ∙ unlink_single_lem m slot l a w r prev s is fits
            ∙ ap (λ z. done tt (fill slot z m)) only,
        subst (λ z. Replaced m slot (branch l a w r) z g) (sym deleted)
            (record {
              holds = fill-Holds m slot (branch l a w r) t' (address t') prev s fits holds part;
              root = refl;
              same = λ b o. refl;
            }),
      )

  -- The round at the value itself, where the right part is deleted from by the rounds that follow.
  found-Deletes :
      (f : ℕ) (v : ℤ) (m : Tree) (l : Branches) (a : Ptr) (w : ℤ) (r : Branches)
      → Holds m.nodes (branch l a w r)
      → Apart (branch l a w r)
      → Fits m slot (branch l a w r) prev s
      → eq_int w v ≡ true
      → size r < f
      → ((k : ℤ) (m1 : Tree)
          → Holds m1.nodes r
          → Fits m1 (under a right_side) r a right_side
          → Deletes m1 (under a right_side) r k (remove_once f k (address r) a right_side m1))
      → Deletes m slot (branch l a w r) v (remove_once (suc f) v a prev s m)
  found-Deletes f v m leaf a w leaf is apart fits e enough ih = (
    fill slot null m,
    once-leaf f v leaf a w leaf prev s m apart.0 is.0 e refl refl
        ∙ unlink_leaf_lem m slot leaf a w leaf prev s fits,
    rw (delete-found v leaf a w leaf e) (record { holds = tt; root = refl; same = λ b o. refl }),
  )
  found-Deletes f v m leaf a w (branch rl c u rr) is apart fits e enough ih =
      single-Deletes f v m leaf a w (branch rl c u rr) (branch rl c u rr) is apart fits e
        (ground (arith, apart.5.0)) (delete-found v leaf a w (branch rl c u rr) e) refl is.2
        λ b i. ground arith
  found-Deletes f v m (branch ll b u lr) a w leaf is apart fits e enough ih =
      single-Deletes f v m (branch ll b u lr) a w leaf (branch ll b u lr) is apart fits e
        (ground (arith, apart.4.0)) (delete-found v (branch ll b u lr) a w leaf e)
        (ground (arith, apart.4.0)) is.1 λ b i. ground arith
  found-Deletes f v m (branch ll b u lr) a w (branch rl c x rr) is apart fits e enough ih =
      let l = branch ll b u lr in
      let r = branch rl c x rr in
      let k = least r in
      let m1 = revalued m l a k r in
      let above = revalued-Above m l a k r in
      let (g, ran, rep) =
        ih k m1 (right-Holds m m1 slot l a w k r prev s is apart fits above)
          (right-Fits m m1 slot l a w k r prev s is apart fits above) in
      (
        g,
        once-both f v l a w r prev s m apart.0 is.0 e apart.4.0 apart.5.0 k
              (min_from_lem f m r is.2 apart.5 enough)
            ∙ ran,
        rw (delete-found v l a w r e)
            (lift-right m m1 slot l a w k r prev s is apart fits above (delete k r) g rep),
      )

pub remove_once-Deletes :
    (t : Branches) (f : ℕ) (v : ℤ) (m : Tree) (slot : Slot) (prev : Ptr) (s : Side)
    → Holds m.nodes t
    → Apart t
    → Fits m slot t prev s
    → size t < f
    → Deletes m slot t v (remove_once f v (address t) prev s m)
unfolding remove_once delete
remove_once-Deletes t zero v m slot prev s is apart fits enough = absurd (omega arith)
remove_once-Deletes leaf (suc f) v m slot prev s is apart fits enough =
    let same = fill_self m slot leaf prev s fits in
    (m, stops, record { holds = tt; root = sym same.0; same = λ b o. sym (same.1 b) })
  where
    stops : remove_once (suc f) v null prev s m ≡ done tt m
    stops = refl
remove_once-Deletes (branch l a w r) (suc f) v m slot prev s is apart fits enough =
    elim (Bool-cases (eq_int w v)) [
      | inr e ↦ elim (Bool-cases (lt_int v w)) [
        | inl lt ↦
            let above = unchanged-Above m l a w r is.0 in
            let (g, ran, rep) =
              remove_once-Deletes l f v m (under a left_side) a left_side is.1 apart.4
                (left-Fits m m slot l a w w r prev s is apart fits above) (omega arith) in
            (
              g,
              once-left f v l a w r prev s m apart.0 is.0 e lt ∙ ran,
              rw (delete-left v l a w r e lt)
                  (lift-left m m slot l a w w r prev s is apart fits above (delete v l) g rep),
            )
        | inr ge ↦
            let above = unchanged-Above m l a w r is.0 in
            let (g, ran, rep) =
              remove_once-Deletes r f v m (under a right_side) a right_side is.2 apart.5
                (right-Fits m m slot l a w w r prev s is apart fits above) (omega arith) in
            (
              g,
              once-right f v l a w r prev s m apart.0 is.0 e ge ∙ ran,
              rw (delete-right v l a w r e ge)
                  (lift-right m m slot l a w w r prev s is apart fits above (delete v r) g rep),
            )
      ]
      | inl e ↦
          found-Deletes slot prev s f v m l a w r is apart fits e (omega arith) λ k m1 holds fits1.
            remove_once-Deletes r f k m1 (under a right_side) a right_side holds apart.5 fits1
              (omega arith)
    ]
