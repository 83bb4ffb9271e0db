-- ===== src/SearchTree/Grow.antt =====
-- The loop of `insert` hangs the new node under a leaf.
use data_structure_benchmark.Base.{
  ℕ, zero, suc, ◌<◌, ◌≡◌, ◌≢◌, refl, true, false, Bool-cases, inl, inr, some, arith, sym, ap, ◌∙◌,
}
use data_structure_benchmark.Base.Int.{ℤ, lt_int}
use data_structure_benchmark.Heap.{Ptr, null}
use data_structure_benchmark.SearchTree.{
  Node, node, put, Tree, Side, left_side, right_side, write, write_child, Outcome, done,
  insert_loop,
}
use data_structure_benchmark.SearchTree.Spec.{
  Branches, leaf, branch, address, size, insert, insert-left, insert-right,
}
use data_structure_benchmark.SearchTree.Shape.{has, Holds, Apart, frame}

-- the loop's variables `curr`, `prev` and `type` at a part of the tree
module _ (v : ℤ) (n : Ptr) where
  -- where the part is empty
  hang :
      (f : ℕ) (prev : Ptr) (s : Side) (m : Tree) (y : Node)
      → m.nodes prev ≡ some y
      → insert_loop (suc f) v n null prev s m ≡ write_child s prev n m
  unfolding insert_loop
  hang f prev s m y at = refl

  step_left :
      (f : ℕ) (l : Branches) (a : Ptr) (w : ℤ) (r : Branches) (prev : Ptr) (s : Side) (m : Tree)
      → a ≢ null
      → m.nodes a ≡ some (node w (address l) (address r))
      → lt_int v w ≡ true
      → insert_loop (suc f) v n a prev s m ≡ insert_loop f v n (address l) a left_side m
  unfolding insert_loop
  step_left f l a w r prev s m ne at lt = ground arith

  step_right :
      (f : ℕ) (l : Branches) (a : Ptr) (w : ℤ) (r : Branches) (prev : Ptr) (s : Side) (m : Tree)
      → a ≢ null
      → m.nodes a ≡ some (node w (address l) (address r))
      → lt_int v w ≡ false
      → insert_loop (suc f) v n a prev s m ≡ insert_loop f v n (address r) a right_side m
  unfolding insert_loop
  step_right f l a w r prev s m ne at ge = ground arith

-- `m` has become `g`, with `t'` for `t` and nothing else changed.
pub record Grown (m : Tree) (t t' : Branches) (g : Tree) : Type 0 where
  pub holds : Holds g.nodes t'
  pub root : g.root ≡ m.root
  pub same : (b : Ptr) → has b t ≡ false → g.nodes b ≡ m.nodes b

-- a loop that ends
abbrev pub Ends : Tree → Branches → Branches → Outcome (Unit {0}) → Type 0
Ends m t t' o = (g : Tree) × (o ≡ done tt g) × Grown m t t' g

module _ (v : ℤ) (n : Ptr) (m : Tree) (new : m.nodes n ≡ some (node v null null)) where
  -- The child of a node that is a leaf becomes the new node.
  hang-left :
      (f : ℕ) (a : Ptr) (w : ℤ) (r : Branches)
      → Holds m.nodes (branch leaf a w r)
      → Apart (branch leaf a w r)
      → n ≢ a
      → Ends m
          (branch leaf a w r)
          (branch (branch leaf n v leaf) a w r)
          (insert_loop (suc f) v n null a left_side m)
  unfolding insert_loop write_child put
  hang-left f a w r is apart ne = (
    write a (node w n (address r)) m,
    ground (arith, is.0),
    record {
      holds = (
        ground arith,
        (ground arith, tt, tt),
        frame m.nodes (write a (node w n (address r)) m).nodes r is.2
            λ b i. ground (arith, apart.2),
      );
      root = refl;
      same = λ b o. ground arith;
    },
  )

  hang-right :
      (f : ℕ) (l : Branches) (a : Ptr) (w : ℤ)
      → Holds m.nodes (branch l a w leaf)
      → Apart (branch l a w leaf)
      → n ≢ a
      → Ends m
          (branch l a w leaf)
          (branch l a w (branch leaf n v leaf))
          (insert_loop (suc f) v n null a right_side m)
  unfolding insert_loop write_child put
  hang-right f l a w is apart ne = (
    write a (node w (address l) n) m,
    ground (arith, is.0),
    record {
      holds = (
        ground arith,
        frame m.nodes (write a (node w (address l) n) m).nodes l is.1
            λ b i. ground (arith, apart.1),
        (ground arith, tt, tt),
      );
      root = refl;
      same = λ b o. ground arith;
    },
  )

  lift-left :
      (l l' : Branches) (a : Ptr) (w : ℤ) (r : Branches) (g : Tree)
      → Holds m.nodes (branch l a w r)
      → Apart (branch l a w r)
      → address l' ≡ address l
      → Grown m l l' g
      → Grown m (branch l a w r) (branch l' a w r) g
  lift-left l l' a w r g is apart e grown = record {
    holds = (
      grown.same a apart.1 ∙ is.0 ∙ ap (λ z. some (node w z (address r))) (sym e),
      grown.holds,
      frame m.nodes g.nodes r is.2 λ b i. elim (Bool-cases (has b l)) [
        | inl j ↦ absurd (ground (arith, apart.3 b j))
        | inr j ↦ grown.same b j
      ],
    );
    root = grown.root;
    same = λ b o. grown.same b (ground arith);
  }

  lift-right :
      (l : Branches) (a : Ptr) (w : ℤ) (r r' : Branches) (g : Tree)
      → Holds m.nodes (branch l a w r)
      → Apart (branch l a w r)
      → address r' ≡ address r
      → Grown m r r' g
      → Grown m (branch l a w r) (branch l a w r') g
  lift-right l a w r r' g is apart e grown = record {
    holds = (
      grown.same a apart.2 ∙ is.0 ∙ ap (λ z. some (node w (address l) z)) (sym e),
      frame m.nodes g.nodes l is.1 λ b i. grown.same b (apart.3 b i),
      grown.holds,
    );
    root = grown.root;
    same = λ b o. grown.same b (ground arith);
  }

  pub address-insert :
      (l : Branches) (a : Ptr) (w : ℤ) (r : Branches) → address (insert v n (branch l a w r)) ≡ a
  unfolding insert
  address-insert l a w r = ground arith

  -- The loop at the part `t`; at a leaf it depends on the node above.
  abbrev pub Hangs : Branches → Outcome (Unit {0}) → Type 0
  Hangs leaf o = Unit
  Hangs (branch l a w r) o = Ends m (branch l a w r) (insert v n (branch l a w r)) o

  to_left :
      (l : Branches) (f : ℕ) (a : Ptr) (w : ℤ) (r : Branches)
      → Holds m.nodes (branch l a w r)
      → Apart (branch l a w r)
      → n ≢ a
      → size l < f
      → Hangs l (insert_loop f v n (address l) a left_side m)
      → Ends m
          (branch l a w r)
          (branch (insert v n l) a w r)
          (insert_loop f v n (address l) a left_side m)
  unfolding insert
  to_left l zero a w r is apart ne enough ih = absurd (omega arith)
  to_left leaf (suc f) a w r is apart ne enough ih = hang-left f a w r is apart ne
  to_left (branch ll b u lr) (suc f) a w r is apart ne enough (g, ran, grown) = (
    g,
    ran,
    lift-left (branch ll b u lr) (insert v n (branch ll b u lr)) a w r g is apart
        (address-insert ll b u lr) grown,
  )

  to_right :
      (l : Branches) (f : ℕ) (a : Ptr) (w : ℤ) (r : Branches)
      → Holds m.nodes (branch l a w r)
      → Apart (branch l a w r)
      → n ≢ a
      → size r < f
      → Hangs r (insert_loop f v n (address r) a right_side m)
      → Ends m
          (branch l a w r)
          (branch l a w (insert v n r))
          (insert_loop f v n (address r) a right_side m)
  unfolding insert
  to_right l zero a w r is apart ne enough ih = absurd (omega arith)
  to_right l (suc f) a w leaf is apart ne enough ih = hang-right f l a w is apart ne
  to_right l (suc f) a w (branch rl c u rr) is apart ne enough (g, ran, grown) = (
    g,
    ran,
    lift-right l a w (branch rl c u rr) (insert v n (branch rl c u rr)) g is apart
        (address-insert rl c u rr) grown,
  )

  pub insert_loop-Hangs :
      (t : Branches) (f : ℕ) (prev : Ptr) (s : Side)
      → Holds m.nodes t
      → Apart t
      → has n t ≡ false
      → size t < f
      → Hangs t (insert_loop f v n (address t) prev s m)
  insert_loop-Hangs leaf f prev s is apart out enough = tt
  insert_loop-Hangs (branch l a w r) zero prev s is apart out enough = absurd (omega arith)
  insert_loop-Hangs (branch l a w r) (suc f) prev s is apart out enough =
      let ne : n ≢ a = λ e. ground arith in
      let left = insert_loop-Hangs l f a left_side is.1 apart.4 (ground arith) (omega arith) in
      let right = insert_loop-Hangs r f a right_side is.2 apart.5 (ground arith) (omega arith) in
      elim (Bool-cases (lt_int v w)) [
        | inl lt ↦
            let (g, ran, grown) = to_left l f a w r is apart ne (omega arith) left in
            (
              g,
              step_left v n f l a w r prev s m apart.0 is.0 lt ∙ ran,
              rw (insert-left v n l a w r lt) grown,
            )
        | inr ge ↦
            let (g, ran, grown) = to_right l f a w r is apart ne (omega arith) right in
            (
              g,
              step_right v n f l a w r prev s m apart.0 is.0 ge ∙ ran,
              rw (insert-right v n l a w r ge) grown,
            )
      ]
