-- ===== src/Lockbased/BinarySearchTree/Differs.antt =====
-- Where no value occurs twice, the loop of `remove` does what the one that returns does: it finds nothing
-- behind the node that it has taken out.
use data_structure_benchmark.Base.{
  ℕ, zero, suc, ◌<◌, ◌≡◌, ◌≢◌, refl, true, false, Bool-cases, inl, inr, ◌||◌, ◌&&◌, not, some, ◌==◌,
  arith, sym, subst, ◌∙◌,
}
use data_structure_benchmark.Base.Int.{ℤ, lt_int, eq_int, eq_int_iff, lt_int_irrefl}
use data_structure_benchmark.Heap.{Ptr, null}
use data_structure_benchmark.SearchTree.{
  node, put, Tree, Side, left_side, right_side, done, min_from, unlink_leaf, unlink_single,
  only_child, remove_once,
}
use data_structure_benchmark.SearchTree.Spec.{Branches, leaf, branch, address, size, least}
use data_structure_benchmark.SearchTree.Order.{All}
use data_structure_benchmark.SearchTree.Shape.{Holds, Apart, Slot, at_root, under, Fits, fill}
use data_structure_benchmark.SearchTree.Remove.{
  min_from_lem, unlink_leaf_lem, unlink_single_lem, fill-Holds, right-Holds, right-Fits, left-Fits,
}
use data_structure_benchmark.SearchTree.Delete.{
  revalued, revalued-Above, unchanged-Above, once-left, once-right, once-leaf, once-single,
  once-both,
}
use data_structure_benchmark.Lockbased.BinarySearchTree.{remove_loop}

-- No value occurs again to the right of its node, where the equal ones are.
abbrev pub Differs : Branches → Type 0
Differs leaf = Unit
Differs (branch l a w r) = All (λ x. eq_int x w ≡ false) r × Differs l × Differs r

-- A value that is not in the tree is not found, and nothing changes.
pub absent :
    (t : Branches) (f : ℕ) (v : ℤ) (m : Tree) (prev : Ptr) (s : Side)
    → All (λ x. eq_int x v ≡ false) t
    → Holds m.nodes t
    → Apart t
    → size t < f
    → remove_loop f v (address t) prev s m ≡ done tt m
unfolding remove_loop
absent t zero v m prev s none_is is apart enough = absurd (omega arith)
absent leaf (suc f) v m prev s none_is is apart enough = refl
absent (branch l a w r) (suc f) v m prev s none_is is apart enough =
    elim (Bool-cases (lt_int v w)) [
      | inl lt ↦ ground (
        arith,
        is.0,
        apart.0,
        none_is.1,
        absent l f v m a left_side none_is.0 is.1 apart.4 (omega arith),
      )
      | inr ge ↦ ground (
        arith,
        is.0,
        apart.0,
        none_is.1,
        absent r f v m a right_side none_is.2 is.2 apart.5 (omega arith),
      )
    ]

-- one round of the loop, by the node that it is at
module _ (f : ℕ) (v : ℤ) (l : Branches) (a : Ptr) (w : ℤ) (r : Branches) (prev : Ptr) (s : Side)
    (m : Tree) (ne : a ≢ null) (at : m.nodes a ≡ some (node w (address l) (address r))) where
  pub loop-left :
      eq_int w v ≡ false
      → lt_int v w ≡ true
      → remove_loop (suc f) v a prev s m ≡ remove_loop f v (address l) a left_side m
  unfolding remove_loop
  loop-left e g = ground arith

  loop-right :
      eq_int w v ≡ false
      → lt_int v w ≡ false
      → remove_loop (suc f) v a prev s m ≡ remove_loop f v (address r) a right_side m
  unfolding remove_loop
  loop-right e g = ground arith

  -- behind a node that was taken out, whose fields are what they were
  pub loop-leaf :
      (m' : Tree)
      → eq_int w v ≡ true
      → address l ≡ null
      → address r ≡ null
      → unlink_leaf a prev s m ≡ done tt m'
      → m'.nodes a ≡ m.nodes a
      → remove_loop (suc f) v a prev s m ≡ remove_loop f v (address r) a right_side m'
  unfolding remove_loop
  loop-leaf m' e g h went same =
      let same_value : w ≡ v = (eq_int_iff w v).0 e in ground (arith, lt_int_irrefl v)

  pub loop-single :
      (m' : Tree)
      → eq_int w v ≡ true
      → ((address l == null) && not (address r == null)
          || (address r == null) && not (address l == null))
        ≡ true
      → unlink_single a prev s m ≡ done tt m'
      → m'.nodes a ≡ m.nodes a
      → remove_loop (suc f) v a prev s m ≡ remove_loop f v (address r) a right_side m'
  unfolding remove_loop
  loop-single m' e g went same =
      let same_value : w ≡ v = (eq_int_iff w v).0 e in ground (arith, lt_int_irrefl v)

  pub loop-both :
      eq_int w v ≡ true
      → address l ≢ null
      → address r ≢ null
      → (k : ℤ) → min_from f (address r) m ≡ done k m
      → remove_loop (suc f) v a prev s m
        ≡ remove_loop f k (address r) a right_side (revalued m l a k r)
  unfolding remove_loop
  loop-both e g h k low = ground arith

-- Filling a slot leaves the node in it as it was.
pub fill_at :
    (m : Tree) (slot : Slot) (l : Branches) (a : Ptr) (w : ℤ) (r : Branches) (p : Ptr) (prev : Ptr)
    (s : Side)
    → Fits m slot (branch l a w r) prev s
    → (fill slot p m).nodes a ≡ m.nodes a
unfolding put
fill_at m at_root l a w r p prev s fits = refl
fill_at m (under q d) l a w r p prev s (e, f, ne, out, q_out, y, at, c) = ground arith

module _ (slot : Slot) (prev : Ptr) (s : Side) (f : ℕ) (v : ℤ) (m : Tree) where
  -- what the loop does behind the node
  behind :
      (l : Branches) (a : Ptr) (w : ℤ) (r : Branches) (p : Ptr)
      → Differs (branch l a w r)
      → Holds m.nodes (branch l a w r)
      → Apart (branch l a w r)
      → Fits m slot (branch l a w r) prev s
      → eq_int w v ≡ true
      → size r < f
      → remove_loop f v (address r) a right_side (fill slot p m) ≡ done tt (fill slot p m)
  behind l a w r p differs is apart fits e enough =
      absent r f v (fill slot p m) a right_side
        (subst (λ z. All (λ x. eq_int x z ≡ false) r) ((eq_int_iff w v).0 e) differs.0)
        (fill-Holds m slot (branch l a w r) r p prev s fits is.2 λ b i. ground arith) apart.5 enough

  single-once :
      (l : Branches) (a : Ptr) (w : ℤ) (r : Branches)
      → Differs (branch l a w r)
      → Holds m.nodes (branch l a w r)
      → Apart (branch l a w r)
      → Fits m slot (branch l a w r) prev s
      → eq_int w v ≡ true
      → size r < f
      → ((address l == null) && not (address r == null)
          || (address r == null) && not (address l == null))
        ≡ true
      → remove_loop (suc f) v a prev s m ≡ remove_once (suc f) v a prev s m
  single-once l a w r differs is apart fits e enough single =
      let p = only_child (node w (address l) (address r)) in
      let went = unlink_single_lem m slot l a w r prev s is fits in
      loop-single f v l a w r prev s m apart.0 is.0 (fill slot p m) e single went
        (fill_at m slot l a w r p prev s fits)
      ∙ behind l a w r p differs is apart fits e enough
      ∙ sym went
      ∙ sym (once-single f v l a w r prev s m apart.0 is.0 e single)

  found-once :
      (l : Branches) (a : Ptr) (w : ℤ) (r : Branches)
      → Differs (branch l a w r)
      → Holds m.nodes (branch l a w r)
      → Apart (branch l a w r)
      → Fits m slot (branch l a w r) prev s
      → eq_int w v ≡ true
      → size r < f
      → ((k : ℤ) (m1 : Tree)
          → Holds m1.nodes r
          → Fits m1 (under a right_side) r a right_side
          → remove_loop f k (address r) a right_side m1
            ≡ remove_once f k (address r) a right_side m1)
      → remove_loop (suc f) v a prev s m ≡ remove_once (suc f) v a prev s m
  found-once leaf a w leaf differs is apart fits e enough ih =
      let went = unlink_leaf_lem m slot leaf a w leaf prev s fits in
      loop-leaf f v leaf a w leaf prev s m apart.0 is.0 (fill slot null m) e refl refl went
        (fill_at m slot leaf a w leaf null prev s fits)
      ∙ behind leaf a w leaf null differs is apart fits e enough
      ∙ sym went
      ∙ sym (once-leaf f v leaf a w leaf prev s m apart.0 is.0 e refl refl)
  found-once leaf a w (branch rl c u rr) differs is apart fits e enough ih =
      single-once leaf a w (branch rl c u rr) differs is apart fits e enough
        (ground (arith, apart.5.0))
  found-once (branch ll b u lr) a w leaf differs is apart fits e enough ih =
      single-once (branch ll b u lr) a w leaf differs is apart fits e enough
        (ground (arith, apart.4.0))
  found-once (branch ll b u lr) a w (branch rl c x rr) differs is apart fits e enough ih =
      let l = branch ll b u lr in
      let r = branch rl c x rr in
      let k = least r in
      let m1 = revalued m l a k r in
      let above = revalued-Above m l a k r in
      let low = min_from_lem f m r is.2 apart.5 enough in
      loop-both f v l a w r prev s m apart.0 is.0 e apart.4.0 apart.5.0 k low
      ∙ ih k m1 (right-Holds m m1 slot l a w k r prev s is apart fits above)
          (right-Fits m m1 slot l a w k r prev s is apart fits above)
      ∙ sym (once-both f v l a w r prev s m apart.0 is.0 e apart.4.0 apart.5.0 k low)

-- The two loops agree.
pub loop-once :
    (t : Branches) (f : ℕ) (v : ℤ) (m : Tree) (slot : Slot) (prev : Ptr) (s : Side)
    → Differs t
    → Holds m.nodes t
    → Apart t
    → Fits m slot t prev s
    → size t < f
    → remove_loop f v (address t) prev s m ≡ remove_once f v (address t) prev s m
unfolding remove_loop remove_once
loop-once t zero v m slot prev s differs is apart fits enough = refl
loop-once leaf (suc f) v m slot prev s differs is apart fits enough = refl
loop-once (branch l a w r) (suc f) v m slot prev s differs is apart fits enough =
    let above = unchanged-Above m l a w r is.0 in
    elim (Bool-cases (eq_int w v)) [
      | inr e ↦ elim (Bool-cases (lt_int v w)) [
        | inl lt ↦
            loop-left f v l a w r prev s m apart.0 is.0 e lt
            ∙ loop-once l f v m (under a left_side) a left_side differs.1 is.1 apart.4
                (left-Fits m m slot l a w w r prev s is apart fits above) (omega arith)
            ∙ sym (once-left f v l a w r prev s m apart.0 is.0 e lt)
        | inr ge ↦
            loop-right f v l a w r prev s m apart.0 is.0 e ge
            ∙ loop-once r f v m (under a right_side) a right_side differs.2 is.2 apart.5
                (right-Fits m m slot l a w w r prev s is apart fits above) (omega arith)
            ∙ sym (once-right f v l a w r prev s m apart.0 is.0 e ge)
      ]
      | inl e ↦
          found-once slot prev s f v m l a w r differs is apart fits e (omega arith)
            λ k m1 holds fits1.
              loop-once r f k m1 (under a right_side) a right_side differs.2 holds apart.5 fits1
                (omega arith)
    ]
