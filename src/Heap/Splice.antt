-- ===== src/Heap/Splice.antt =====
-- A node enters or leaves a chain: what becomes of the chain when the two neighbours of a place are
-- made to point to each other, or both to a new node.
use data_structure_benchmark.Base.{◌≡◌, ◌≢◌, true, false, some, [], ◌∷◌, ◌++◌, arith, subst}
use mathlib.Core.List.{append_assoc}
use data_structure_benchmark.Heap.{Ptr, null, node, Heap}
use data_structure_benchmark.Heap.Chain.{
  Cells, has, first, last, Linked, has-append, first-append, frame, Linked-append, Linked-split,
  Distinct, Distinct-middle, Distinct-insert,
}

module _ {ℓ} {A : Type ℓ} where
  -- Between the nodes at `a` and `c`, `new` takes the place of `mid`.
  pub rejoin :
      (h g : Heap A) (b e : Ptr) (xs : Cells A) (a : Ptr) (va wa : A) (mid new : Cells A) (c : Ptr)
      (vc : A) (ys : Cells A)
      → Linked h b e (xs ++ (a, va) ∷ (mid ++ (c, vc) ∷ ys))
      → ((p : Ptr) → has p (xs ++ ys) ≡ true → g p ≡ h p)
      → g a ≡ some (node wa (first c new) (last b xs))
      → Linked g a c new
      → g c ≡ some (node vc (first e ys) (last a new))
      → Linked g b e (xs ++ (a, wa) ∷ (new ++ (c, vc) ∷ ys))
  rejoin h g b e xs a va wa mid new c vc ys l same ga gnew gc =
      let (front, back) = Linked-split h b e xs ((a, va) ∷ (mid ++ (c, vc) ∷ ys)) l in
      let behind = (Linked-split h a e mid ((c, vc) ∷ ys) back.1).1.1 in
      Linked-append g b e xs ((a, wa) ∷ (new ++ (c, vc) ∷ ys))
        (frame h g b a xs front λ p i. same p (ground (arith, has-append p xs ys)))
        (
          rw (first-append e new ((c, vc) ∷ ys)) ga,
          Linked-append g a e new ((c, vc) ∷ ys) gnew
              (gc, frame h g c e ys behind λ p i. same p (ground (arith, has-append p xs ys))),
        )

-- Two neighbours `a` and `c` of a chain: what their nodes hold, and how they lie apart.
module _ {ℓ} {A : Type ℓ} (h : Heap A) (b e : Ptr) (xs : Cells A) (a : Ptr) (va : A) (c : Ptr)
    (vc : A) (ys : Cells A) where
  pub record Neighbours : Type ℓ where
    pub at_a : h a ≡ some (node va c (last b xs))
    pub at_c : h c ≡ some (node vc (first e ys) a)
    pub ne : c ≢ a
    pub a_before : has a xs ≡ false
    pub a_behind : has a ys ≡ false
    pub c_before : has c xs ≡ false
    pub c_behind : has c ys ≡ false

  pub neighbours :
      Linked h b e (xs ++ (a, va) ∷ (c, vc) ∷ ys)
      → Distinct (xs ++ (a, va) ∷ (c, vc) ∷ ys)
      → Neighbours
  neighbours l d =
      let here = Distinct-middle xs a va ((c, vc) ∷ ys) d in
      let there = Distinct-middle xs c vc ys here.rest in
      let back = (Linked-split h b e xs ((a, va) ∷ (c, vc) ∷ ys) l).1 in
      record {
        at_a = back.0;
        at_c = back.1.0;
        ne = ground (arith, here.behind);
        a_before = here.before;
        a_behind = ground (arith, here.behind);
        c_before = there.before;
        c_behind = there.behind;
      }

  -- `g` is `h` with a new node `n` between the two.
  pub insert :
      (g : Heap A) (n : Ptr) (v : A)
      → Linked h b e (xs ++ (a, va) ∷ (c, vc) ∷ ys)
      → Distinct (xs ++ (a, va) ∷ (c, vc) ∷ ys)
      → n ≢ null
      → has n (xs ++ (a, va) ∷ (c, vc) ∷ ys) ≡ false
      → ((p : Ptr) → p ≢ n → p ≢ a → p ≢ c → g p ≡ h p)
      → g n ≡ some (node v c a)
      → g a ≡ some (node va n (last b xs))
      → g c ≡ some (node vc (first e ys) n)
      → Linked g b e (xs ++ (a, va) ∷ (n, v) ∷ (c, vc) ∷ ys)
        × Distinct (xs ++ (a, va) ∷ (n, v) ∷ (c, vc) ∷ ys)
  insert g n v l d nn out same gn ga gc =
      let at = neighbours l d in
      (
        rejoin h g b e xs a va va [] ((n, v) ∷ []) c vc ys l
            (λ p i.
              same p (ground (arith, has-append n xs ((a, va) ∷ (c, vc) ∷ ys), has-append p xs ys))
                (ground (arith, has-append p xs ys, at.a_before, at.a_behind))
                (ground (arith, has-append p xs ys, at.c_before, at.c_behind)))
            ga (gn, tt) gc,
        subst Distinct (append_assoc xs ((a, va) ∷ []) ((n, v) ∷ (c, vc) ∷ ys)) (
            Distinct-insert (xs ++ (a, va) ∷ []) n v ((c, vc) ∷ ys) nn
              (rw (append_assoc xs ((a, va) ∷ []) ((c, vc) ∷ ys)) out)
              (rw (append_assoc xs ((a, va) ∷ []) ((c, vc) ∷ ys)) d)),
      )

-- A node `m` between two neighbours.
module _ {ℓ} {A : Type ℓ} (h : Heap A) (b e : Ptr) (xs : Cells A) (a : Ptr) (va : A) (m : Ptr)
    (w : A) (c : Ptr) (vc : A) (ys : Cells A) where
  pub record Trio : Type ℓ where
    pub at_a : h a ≡ some (node va m (last b xs))
    pub at_m : h m ≡ some (node w c a)
    pub at_c : h c ≡ some (node vc (first e ys) m)
    pub m_ne_a : m ≢ a
    pub c_ne_a : c ≢ a
    pub c_ne_m : c ≢ m
    pub m_gone : has m (xs ++ (a, va) ∷ (c, vc) ∷ ys) ≡ false
    pub apart : Distinct (xs ++ (a, va) ∷ (c, vc) ∷ ys)

  pub trio :
      Linked h b e (xs ++ (a, va) ∷ (m, w) ∷ (c, vc) ∷ ys)
      → Distinct (xs ++ (a, va) ∷ (m, w) ∷ (c, vc) ∷ ys)
      → Trio
  trio l d =
      let here = Distinct-middle xs a va ((m, w) ∷ (c, vc) ∷ ys) d in
      let there = Distinct-middle xs m w ((c, vc) ∷ ys) here.rest in
      let back = (Linked-split h b e xs ((a, va) ∷ (m, w) ∷ (c, vc) ∷ ys) l).1 in
      let eq = append_assoc xs ((a, va) ∷ []) ((m, w) ∷ (c, vc) ∷ ys) in
      let out = Distinct-middle (xs ++ (a, va) ∷ []) m w ((c, vc) ∷ ys) (rw eq d) in
      record {
        at_a = back.0;
        at_m = back.1.0;
        at_c = back.1.1.0;
        m_ne_a = ground (arith, here.behind);
        c_ne_a = ground (arith, here.behind);
        c_ne_m = ground (arith, there.behind);
        m_gone = ground (
          arith,
          here.behind,
          there.before,
          there.behind,
          has-append m xs ((a, va) ∷ (c, vc) ∷ ys),
        );
        apart = subst Distinct (append_assoc xs ((a, va) ∷ []) ((c, vc) ∷ ys)) out.rest;
      }

  -- `g` is `h` with the two pointing to each other.
  pub remove :
      (g : Heap A)
      → Linked h b e (xs ++ (a, va) ∷ (m, w) ∷ (c, vc) ∷ ys)
      → Distinct (xs ++ (a, va) ∷ (m, w) ∷ (c, vc) ∷ ys)
      → ((p : Ptr) → p ≢ m → p ≢ a → p ≢ c → g p ≡ h p)
      → g a ≡ some (node va c (last b xs))
      → g c ≡ some (node vc (first e ys) a)
      → Linked g b e (xs ++ (a, va) ∷ (c, vc) ∷ ys)
  remove g l d same ga gc =
      let t = trio l d in
      let out = Distinct-middle xs a va ((c, vc) ∷ ys) t.apart in
      let out' = Distinct-middle xs c vc ys out.rest in
      rejoin h g b e xs a va va ((m, w) ∷ []) [] c vc ys l
        (λ p i.
          same p
            (ground (arith, t.m_gone, has-append m xs ((a, va) ∷ (c, vc) ∷ ys), has-append p xs ys))
            (ground (arith, has-append p xs ys, out.before, out.behind))
            (ground (arith, has-append p xs ys, out'.before, out'.behind)))
        ga tt gc
