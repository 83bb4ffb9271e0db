-- ===== src/Lockbased/BinarySearchTree/Loses.antt =====
-- The loop of `remove` goes on behind the node that it has taken out, and takes out a second one where the
-- value that it looks for by then, the least of the right part, stands there twice.
use data_structure_benchmark.Base.{
  ℕ, suc, ◌+◌, ◌-◌, ◌<◌, ◌≡◌, ◌≢◌, refl, true, false, inl, inr, Bool-cases, arith, ap, ◌∙◌,
}
use data_structure_benchmark.Base.Int.{ℤ, lt_int, eq_int, eq_int_iff, eq_int_refl, lt_int_irrefl}
use data_structure_benchmark.Heap.{Ptr, null}
use data_structure_benchmark.SearchTree.{Tree, left_side, right_side, Side, done}
use data_structure_benchmark.SearchTree.Spec.{Branches, leaf, branch, address, size, count}
use data_structure_benchmark.SearchTree.Shape.{has, Apart, at_root, under, Fits, fill, Replaced}
use data_structure_benchmark.SearchTree.Insert.{IsTree}
use data_structure_benchmark.SearchTree.Remove.{
  min_from_lem, unlink_leaf_lem, unlink_single_lem, fill-Holds, right-Holds, right-Fits, left-Fits,
  lift-right, lift-left,
}
use data_structure_benchmark.SearchTree.Delete.{revalued, revalued-Above, unchanged-Above}
use data_structure_benchmark.SearchTree.Whole.{Replaced-IsTree}
use data_structure_benchmark.Lockbased.BinarySearchTree.{remove, remove_loop}
use data_structure_benchmark.Lockbased.BinarySearchTree.Contract.{IsSearchTree}
use data_structure_benchmark.Lockbased.BinarySearchTree.Differs.{
  loop-left, loop-leaf, loop-single, loop-both, fill_at,
}

-- A part of the right part keeps the addresses apart.
Apart-right :
    (l : Branches) (a : Ptr) (v k : ℤ) (r r' : Branches)
    → Apart (branch l a v r)
    → Apart r'
    → ((b : Ptr) → has b r ≡ false → has b r' ≡ false)
    → Apart (branch l a k r')
Apart-right l a v k r r' apart apart' part =
    (apart.0, apart.1, part a apart.2, λ b i. part b (apart.3 b i), apart.4, apart')

-- `l` and a right part under `a`
module _ (l : Branches) (a : Ptr) (k : ℤ) where
  -- what `remove` leaves when the least node of the right part is its root, and where it goes on
  first_rounds :
      (f : ℕ) (v : ℤ) (b : Ptr) (r : Branches) (m : Tree)
      → IsTree m (branch l a v (branch leaf b k r))
      → address l ≢ null
      → address r ≢ null
      → size (branch leaf b k r) < suc f
      → (g : Tree) × (remove_loop (suc (suc f)) v a null left_side m
          ≡ remove_loop f k (address r) b right_side g)
        × IsTree g (branch l a k r)
  first_rounds f v b r m is some_l some_r enough =
      let right = branch leaf b k r in
      let ap_t = is.apart in
      let above = revalued-Above m l a k right in
      let m1 = revalued m l a k right in
      let fits : Fits m at_root (branch l a v right) null left_side = (is.root, refl) in
      let holds = right-Holds m m1 at_root l a v k right null left_side is.holds ap_t fits above in
      let fits1 = right-Fits m m1 at_root l a v k right null left_side is.holds ap_t fits above in
      let slot = under a right_side in
      let m2 = fill slot (address r) m1 in
      let went = unlink_single_lem m1 slot leaf b k r a right_side holds fits1 in
      let rep : Replaced m1 slot right r m2 = record {
        holds =
            fill-Holds m1 slot right r (address r) a right_side fits1 holds.2 λ x i. ground arith;
        root = refl;
        same = λ x o. refl;
      } in
      (
        m2,
        loop-both (suc f) v l a v right null left_side m ap_t.0 is.holds.0 (eq_int_refl v) some_l
              ap_t.5.0 k (min_from_lem (suc f) m right is.holds.2 ap_t.5 enough)
            ∙ loop-single f k leaf b k r a right_side m1 ap_t.5.0 holds.0 m2 (eq_int_refl k)
                (ground arith) went (fill_at m1 slot leaf b k r (address r) a right_side fits1),
        (Replaced-IsTree m m2 (branch l a v right) (branch l a k r)
            (lift-right m m1 at_root l a v k right null left_side is.holds ap_t fits above r m2 rep)
            (Apart-right l a v k right r ap_t ap_t.5.5 λ x o. ground arith)).0,
      )

  -- the second node that it takes out
  last_rounds :
      (f : ℕ) (c d : Ptr) (u : ℤ) (r : Branches) (prev : Ptr) (s : Side) (m : Tree)
      → IsTree m (branch l a k (branch (branch leaf c k leaf) d u r))
      → lt_int k u ≡ true
      → eq_int u k ≡ false
      → (g : Tree) × (remove_loop (suc (suc (suc f))) k d prev s m ≡ done tt g)
        × IsTree g (branch l a k (branch leaf d u r))
  unfolding remove_loop
  last_rounds f c d u r prev s m is lt ne =
      let low = branch leaf c k leaf in
      let right = branch low d u r in
      let ap_t = is.apart in
      let fits : Fits m at_root (branch l a k right) null left_side = (is.root, refl) in
      let above = unchanged-Above m l a k right is.holds.0 in
      let fits1 = right-Fits m m at_root l a k k right null left_side is.holds ap_t fits above in
      let slot1 = under a right_side in
      let above1 = unchanged-Above m low d u r is.holds.2.0 in
      let fits2 = left-Fits m m slot1 low d u u r a right_side is.holds.2 ap_t.5 fits1 above1 in
      let slot = under d left_side in
      let g = fill slot null m in
      let rep : Replaced m slot low leaf g = record {
        holds = tt;
        root = refl;
        same = λ x o. refl;
      } in
      let rep1 =
        lift-left m m slot1 low d u u r a right_side is.holds.2 ap_t.5 fits1 above1 leaf g rep in
      (
        g,
        loop-left (suc (suc f)) k low d u r prev s m ap_t.5.0 is.holds.2.0 ne lt
            ∙ loop-leaf (suc f) k leaf c k leaf d left_side m ap_t.5.4.0 is.holds.2.1.0 g
                (eq_int_refl k) refl refl (unlink_leaf_lem m slot leaf c k leaf d left_side fits2)
                (fill_at m slot leaf c k leaf null d left_side fits2)
            ∙ refl,
        (Replaced-IsTree m g (branch l a k right) (branch l a k (branch leaf d u r))
            (lift-right m m at_root l a k k right null left_side is.holds ap_t fits above
              (branch leaf d u r) g rep1)
            (Apart-right l a k k right (branch leaf d u r) ap_t
              (ap_t.5.0, refl, ap_t.5.2, (λ x i. absurd (ground arith)), tt, ap_t.5.5)
              λ x o. ground arith)).0,
      )

ne_of_lt : (k u : ℤ) → lt_int k u ≡ true → eq_int u k ≡ false
ne_of_lt k u lt = elim (Bool-cases (eq_int u k)) [
  | inl e ↦ let same_value : u ≡ k = (eq_int_iff u k).0 e in ground (arith, lt_int_irrefl k)
  | inr e ↦ e
]

-- In a search tree, let the value to remove stand over two parts that are not empty, and let the least
-- value of the right part, another one, stand at that part's root and once more, as a leaf on the left
-- below the root's right child, whose value is larger. Then `remove`, with more fuel than nodes, returns
-- and takes both nodes out, and puts the value back once: it has one occurrence less, though it was not to
-- be removed.
pub remove_loses :
    (f : ℕ) (v k u : ℤ) (a b c d : Ptr) (l r : Branches) (m : Tree)
    → IsSearchTree m (branch l a v (branch leaf b k (branch (branch leaf c k leaf) d u r)))
    → address l ≢ null
    → lt_int k u ≡ true
    → eq_int v k ≡ false
    → size (branch l a v (branch leaf b k (branch (branch leaf c k leaf) d u r))) < f
    → (g : Tree) × (remove f v m ≡ done tt g)
      × IsTree g (branch l a k (branch leaf d u r))
      × (count k (branch l a k (branch leaf d u r)) + 1
          ≡ count k (branch l a v (branch leaf b k (branch (branch leaf c k leaf) d u r))))
unfolding remove
remove_loses f v k u a b c d l r m (is, ordered) some_l lt ne enough =
    let n = f - 5 in
    let (m2, ran, is2) =
      first_rounds l a k (suc (suc (suc n))) v b (branch (branch leaf c k leaf) d u r) m is some_l
        is.apart.5.5.0 (omega arith) in
    let (g, end, is3) = last_rounds l a k n c d u r b right_side m2 is2 lt (ne_of_lt k u lt) in
    let fuel : f ≡ suc (suc (suc (suc (suc n)))) = omega arith in
    (
      g,
      ap (λ z. remove_loop z v m.root null left_side m) fuel
          ∙ ap (λ z. remove_loop (suc (suc (suc (suc (suc n))))) v z null left_side m) is.root
          ∙ ran
          ∙ end,
      is3,
      ground (arith, eq_int_refl k),
    )
