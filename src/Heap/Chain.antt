-- ===== src/Heap/Chain.antt =====
-- Doubly linked chains of nodes: the shape of every list structure of the program.
use data_structure_benchmark.Base.{
  ◌≡◌, refl, ◌≢◌, Bool, true, false, ◌||◌, none, some, ap, List, ◌∙◌, [], ◌∷◌, ◌++◌, arith, ◌==◌,
}
use data_structure_benchmark.Heap.{Ptr, null, node, Heap}

-- what a chain stands for: address and payload of each node, in order
abbrev pub Cells {ℓ} : Type ℓ → Type ℓ
Cells A = List (Ptr × A)

module _ {ℓ} {A : Type ℓ} where
  abbrev pub has : Ptr → Cells A → Bool
  has a [] = false
  has a ((p, _) ∷ xs) = (a == p) || has a xs

  -- the address of the first node, or `e` if there is none
  abbrev pub first : Ptr → Cells A → Ptr
  first e [] = e
  first e ((p, _) ∷ xs) = p

  -- the address of the last node, or `b` if there is none
  abbrev pub last : Ptr → Cells A → Ptr
  last b [] = b
  last b ((p, _) ∷ xs) = last p xs

  -- Each node points forward to the one behind it and back to the one before it; the first points
  -- back to `b` and the last forward to `e`.
  abbrev pub Linked : Heap A → Ptr → Ptr → Cells A → Type ℓ
  Linked h b e [] = Unit
  Linked h b e ((p, v) ∷ xs) = (h p ≡ some (node v (first e xs) b)) × Linked h p e xs

  -- The addresses are distinct, and none is null.
  abbrev pub Distinct : Cells A → Type 0
  Distinct [] = Unit
  Distinct ((p, v) ∷ xs) = (p ≢ null) × (has p xs ≡ false) × Distinct xs

  -- `g` differs from `h` at most at the addresses of `xs`.
  abbrev pub SameOutside : Cells A → Heap A → Heap A → Type ℓ
  SameOutside xs h g = (a : Ptr) → has a xs ≡ false → g a ≡ h a

  pub has-append : (a : Ptr) (xs ys : Cells A) → has a (xs ++ ys) ≡ (has a xs || has a ys)
  has-append a [] ys = refl
  has-append a (x ∷ xs) ys = ground (arith, has-append a xs ys)

  pub first-append : (e : Ptr) (xs ys : Cells A) → first e (xs ++ ys) ≡ first (first e ys) xs
  first-append e [] ys = refl
  first-append e (x ∷ xs) ys = refl

  pub last-append : (b : Ptr) (xs ys : Cells A) → last b (xs ++ ys) ≡ last (last b xs) ys
  last-append b [] ys = refl
  last-append b (x ∷ xs) ys = last-append x.0 xs ys

  -- A chain survives any change that spares its addresses.
  pub frame :
      (h g : Heap A) (b e : Ptr) (xs : Cells A)
      → Linked h b e xs
      → ((a : Ptr) → has a xs ≡ true → g a ≡ h a)
      → Linked g b e xs
  frame h g b e [] l same = tt
  frame h g b e ((p, v) ∷ xs) l same =
      (same p (ground arith) ∙ l.0, frame h g p e xs l.1 λ a i. same a (ground arith))

  pub Linked-append :
      (h : Heap A) (b e : Ptr) (xs ys : Cells A)
      → Linked h b (first e ys) xs
      → Linked h (last b xs) e ys
      → Linked h b e (xs ++ ys)
  Linked-append h b e [] ys l m = m
  Linked-append h b e ((p, v) ∷ xs) ys l m =
      (rw (first-append e xs ys) l.0, Linked-append h p e xs ys l.1 m)

  pub Linked-split :
      (h : Heap A) (b e : Ptr) (xs ys : Cells A)
      → Linked h b e (xs ++ ys)
      → Linked h b (first e ys) xs × Linked h (last b xs) e ys
  Linked-split h b e [] ys l = (tt, l)
  Linked-split h b e ((p, v) ∷ xs) ys l =
      let (m, n) = Linked-split h p e xs ys l.1 in ((rw (first-append e xs ys) at l.0, m), n)

  -- what a node in the middle of a chain holds
  pub node_at :
      (h : Heap A) (b e : Ptr) (xs : Cells A) (p : Ptr) (v : A) (ys : Cells A)
      → Linked h b e (xs ++ (p, v) ∷ ys)
      → h p ≡ some (node v (first e ys) (last b xs))
  node_at h b e xs p v ys l = (Linked-split h b e xs ((p, v) ∷ ys) l).1.0

  -- What `Distinct` says of a node in the middle.
  pub record Apart (xs : Cells A) (p : Ptr) (ys : Cells A) : Type ℓ where
    pub ne_null : p ≢ null
    pub before : has p xs ≡ false
    pub behind : has p ys ≡ false
    pub rest : Distinct (xs ++ ys)

  pub Distinct-middle :
      (xs : Cells A) (p : Ptr) (v : A) (ys : Cells A) → Distinct (xs ++ (p, v) ∷ ys) → Apart xs p ys
  Distinct-middle [] p v ys d = record { ne_null = d.0; before = refl; behind = d.1; rest = d.2 }
  Distinct-middle ((q, w) ∷ xs) p v ys d =
      let r = Distinct-middle xs p v ys d.2 in
      record {
        ne_null = r.ne_null;
        before = ground (arith, has-append q xs ((p, v) ∷ ys), r.before);
        behind = r.behind;
        rest = (d.0, ground (arith, has-append q xs ((p, v) ∷ ys), has-append q xs ys), r.rest);
      }

  pub Distinct-insert :
      (xs : Cells A) (p : Ptr) (v : A) (ys : Cells A)
      → p ≢ null
      → has p (xs ++ ys) ≡ false
      → Distinct (xs ++ ys)
      → Distinct (xs ++ (p, v) ∷ ys)
  Distinct-insert [] p v ys n out d = (n, out, d)
  Distinct-insert ((q, w) ∷ xs) p v ys n out d = (
    d.0,
    ground (arith, has-append q xs ((p, v) ∷ ys), has-append q xs ys),
    Distinct-insert xs p v ys n (ground arith) d.2,
  )

  -- An address with no live node is not in the chain.
  pub not_has_of_none :
      (h : Heap A) (b e : Ptr) (xs : Cells A) (a : Ptr)
      → Linked h b e xs
      → h a ≡ none
      → has a xs ≡ false
  not_has_of_none h b e [] a l gone = refl
  not_has_of_none h b e ((p, v) ∷ xs) a l gone = ground (arith, not_has_of_none h p e xs a l.1 gone)

  -- the payloads, in order
  abbrev pub values : Cells A → List A
  values [] = []
  values ((p, v) ∷ xs) = v ∷ values xs

  pub values-append : (xs ys : Cells A) → values (xs ++ ys) ≡ values xs ++ values ys
  values-append [] ys = refl
  values-append ((p, v) ∷ xs) ys = ap (λ z. v ∷ z) (values-append xs ys)
