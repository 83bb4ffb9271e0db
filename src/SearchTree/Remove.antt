-- ===== src/SearchTree/Remove.antt =====
-- `remove` on a tree: the loop of htm-mcas deletes one occurrence.
use data_structure_benchmark.Base.{
  ℕ, zero, suc, ◌<◌, ◌≡◌, ◌≢◌, refl, true, false, Bool-cases, inl, inr, some, arith, sym, ap,
}
use data_structure_benchmark.Base.Int.{ℤ}
use data_structure_benchmark.Heap.{Ptr, null}
use data_structure_benchmark.SearchTree.{
  node, put, Tree, Side, left_side, right_side, done, min_loop, min_from, unlink_leaf,
  unlink_single, only_child, write_child,
}
use data_structure_benchmark.SearchTree.Spec.{Branches, leaf, branch, address, size, least}
use data_structure_benchmark.SearchTree.Shape.{
  has, Holds, Apart, frame, Slot, at_root, under, Fits, fill, Replaced,
}

pub min_loop_lem :
    (f : ℕ) (m : Tree) (l : Branches) (a : Ptr) (w : ℤ) (r : Branches)
    → Holds m.nodes (branch l a w r)
    → Apart (branch l a w r)
    → size (branch l a w r) < f
    → min_loop f a m ≡ done (least (branch l a w r)) m
unfolding min_loop
min_loop_lem zero m l a w r is ap enough = absurd (omega arith)
min_loop_lem (suc f) m leaf a w r is ap enough = ground (arith, is.0)
min_loop_lem (suc f) m (branch ll b u lr) a w r is ap enough =
    ground (arith, is.0, ap.4.0, min_loop_lem f m ll b u lr is.1 ap.4 (omega arith))

pub min_from_lem :
    (f : ℕ) (m : Tree) (t : Branches)
    → Holds m.nodes t
    → Apart t
    → size t < f
    → min_from f (address t) m ≡ done (least t) m
unfolding min_from
min_from_lem f m leaf is ap enough = refl
min_from_lem f m (branch l a w r) is ap enough =
    ground (arith, ap.0, min_loop_lem f m l a w r is ap enough)

-- the node goes, and `p` stands in its slot
pub unlink_leaf_lem :
    (m : Tree) (slot : Slot) (l : Branches) (a : Ptr) (w : ℤ) (r : Branches) (prev : Ptr) (s : Side)
    → Fits m slot (branch l a w r) prev s
    → unlink_leaf a prev s m ≡ done tt (fill slot null m)
unfolding unlink_leaf write_child
unlink_leaf_lem m at_root l a w r prev s fits = ground arith
unlink_leaf_lem m (under q d) l a w r prev s (e, f, ne, out, q_out, y, at, c) = ground arith

pub unlink_single_lem :
    (m : Tree) (slot : Slot) (l : Branches) (a : Ptr) (w : ℤ) (r : Branches) (prev : Ptr) (s : Side)
    → Holds m.nodes (branch l a w r)
    → Fits m slot (branch l a w r) prev s
    → unlink_single a prev s m ≡ done tt (fill slot (only_child (node w (address l) (address r))) m)
unfolding unlink_single write_child
unlink_single_lem m at_root l a w r prev s is fits = ground (arith, is.0)
unlink_single_lem m (under q d) l a w r prev s is (e, f, ne, out, q_out, y, at, c) =
    ground (arith, is.0)

-- Filling its slot leaves a tree alone.
pub fill-Holds :
    (m : Tree) (slot : Slot) (t t' : Branches) (p : Ptr) (prev : Ptr) (s : Side)
    → Fits m slot t prev s
    → Holds m.nodes t'
    → ((b : Ptr) → has b t' ≡ true → has b t ≡ true)
    → Holds (fill slot p m).nodes t'
unfolding put
fill-Holds m at_root t t' p prev s fits is part = is
fill-Holds m (under q d) t t' p prev s (e, f, ne, out, q_out, y, at, c) is part =
    frame m.nodes (fill (under q d) p m).nodes t' is λ b i. ground (arith, part b)

-- What stands in its slot already changes nothing.
pub fill_self :
    (m : Tree) (slot : Slot) (t : Branches) (prev : Ptr) (s : Side)
    → Fits m slot t prev s
    → ((fill slot (address t) m).root ≡ m.root)
      × ((b : Ptr) → (fill slot (address t) m).nodes b ≡ m.nodes b)
unfolding put
fill_self m at_root t prev s fits = (sym fits.0, λ b. refl)
fill_self m (under q left_side) t prev s (e, f, ne, out, q_out, y, at, c) =
    (ground arith, λ b. ground arith)
fill_self m (under q right_side) t prev s (e, f, ne, out, q_out, y, at, c) =
    (ground arith, λ b. ground arith)

-- `m1` is `m` with the value `w` at the node `a`, which stands over `l` and `r`.
pub record Above (m m1 : Tree) (l : Branches) (a : Ptr) (w : ℤ) (r : Branches) : Type 0 where
  pub root : m1.root ≡ m.root
  pub here : m1.nodes a ≡ some (node w (address l) (address r))
  pub off : (b : Ptr) → b ≢ a → m1.nodes b ≡ m.nodes b

module _ (m m1 : Tree) (slot : Slot) (l : Branches) (a : Ptr) (u w : ℤ) (r : Branches) (prev : Ptr)
    (s : Side) (is : Holds m.nodes (branch l a u r)) (ap : Apart (branch l a u r))
    (fits : Fits m slot (branch l a u r) prev s) (above : Above m m1 l a w r) where
  part-Holds : (t : Branches) → Holds m.nodes t → has a t ≡ false → Holds m1.nodes t
  part-Holds t holds out = frame m.nodes m1.nodes t holds λ b i. above.off b (λ e. ground arith)

  pub right-Holds : Holds m1.nodes r
  right-Holds = part-Holds r is.2 ap.2

  pub left-Holds : Holds m1.nodes l
  left-Holds = part-Holds l is.1 ap.1

  -- The root is no node of a part.
  root_out :
      (t : Branches)
      → has a t ≡ false
      → ((b : Ptr) → has b t ≡ true → has b (branch l a u r) ≡ true)
      → has m1.root t ≡ false
  root_out t out part = by_slot slot fits
    where
      by_slot : (z : Slot) → Fits m z (branch l a u r) prev s → has m1.root t ≡ false
      by_slot at_root (e, f) = ground (arith, above.root)
      by_slot (under q d) (e, f, ne, o, q_out, y, at, c) = elim (Bool-cases (has m.root t)) [
        | inl bad ↦ absurd (ground (arith, part m.root bad))
        | inr fine ↦ ground (arith, above.root)
      ]

  pub right-Fits : Fits m1 (under a right_side) r a right_side
  right-Fits = (refl, refl, ap.0, root_out r ap.2 (λ b i. ground arith), ap.2, _, above.here, refl)

  pub left-Fits : Fits m1 (under a left_side) l a left_side
  left-Fits = (refl, refl, ap.0, root_out l ap.1 (λ b i. ground arith), ap.1, _, above.here, refl)

  -- A part that was replaced under `a` replaces the tree in its slot.
  pub lift-right :
      (r' : Branches) (g : Tree)
      → Replaced m1 (under a right_side) r r' g
      → Replaced m slot (branch l a u r) (branch l a w r') g
  unfolding put
  lift-right r' g rep =
      let same = fill_self m slot (branch l a u r) prev s fits in
      record {
        holds = (
          ground (arith, rep.same a ap.2, above.here),
          frame m1.nodes g.nodes l left-Holds
              λ b i. ground (arith, rep.same b (ap.3 b i), above.here, ap.1),
          rep.holds,
        );
        root = ground (arith, rep.root, above.here, above.root, same.0);
        same = λ b o. ground (arith, rep.same b, above.here, above.off b, same.1 b);
      }

  pub lift-left :
      (l' : Branches) (g : Tree)
      → Replaced m1 (under a left_side) l l' g
      → Replaced m slot (branch l a u r) (branch l' a w r) g
  unfolding put
  lift-left l' g rep =
      let same = fill_self m slot (branch l a u r) prev s fits in
      record {
        holds = (
          ground (arith, rep.same a ap.1, above.here),
          rep.holds,
          frame m1.nodes g.nodes r right-Holds λ b i. elim (Bool-cases (has b l)) [
            | inl j ↦ absurd (ground (arith, ap.3 b j))
            | inr j ↦ ground (arith, rep.same b j, above.here, ap.2)
          ],
        );
        root = ground (arith, rep.root, above.here, above.root, same.0);
        same = λ b o. ground (arith, rep.same b, above.here, above.off b, same.1 b);
      }
