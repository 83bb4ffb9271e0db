-- ===== src/Linked/Shape.antt =====
-- A chain between two sentinels, in a heap.
use mathlib.Core.List.{append_assoc}
use mathlib.Core.Path.{ap₂}
use data_structure_benchmark.Base.{
  ◌≡◌, refl, ap, ◌≢◌, true, false, ◌||◌, Option, none, some, [], ◌∷◌, ◌++◌, arith, ◌==◌, ◌∙◌, subst,
}
use data_structure_benchmark.Heap.{Ptr, Node, node, null, Heap, write}
use data_structure_benchmark.Heap.Chain.{
  Cells, has, first, last, Linked, Distinct, frame, not_has_of_none, has-append, first-append,
  node_at, Distinct-middle,
}

module _ {ℓ} {A : Type ℓ} where
  -- the sentinels `hd` and `tl` round the cells `xs`
  abbrev pub nodes : Ptr × A → Ptr × A → Cells A → Cells A
  nodes hd tl xs = hd ∷ (xs ++ tl ∷ [])

  -- In `h` the cells `xs` stand between the sentinels, linked both ways.
  pub record Holds (h : Heap A) (hd tl : Ptr × A) (xs : Cells A) : Type ℓ where
    pub linked : Linked h null null (nodes hd tl xs)
    pub distinct : Distinct (nodes hd tl xs)

  -- A live node at `n` that is none of `xs`.
  pub record Own (h : Heap A) (n : Ptr) (v : A) (xs : Cells A) : Type ℓ where
    pub holds : (x : Ptr) × (y : Ptr) × (h n ≡ some (node v x y))
    pub ne_null : n ≢ null
    pub out : has n xs ≡ false

  pub Holds-frame :
      (h g : Heap A) (hd tl : Ptr × A) (xs : Cells A)
      → Holds h hd tl xs
      → ((a : Ptr) → has a (nodes hd tl xs) ≡ true → g a ≡ h a)
      → Holds g hd tl xs
  Holds-frame h g hd tl xs is same = record {
    linked = frame h g null null (nodes hd tl xs) is.linked same;
    distinct = is.distinct;
  }

  pub not_has_of_unused :
      (h : Heap A) (hd tl : Ptr × A) (xs : Cells A) (a : Ptr)
      → Holds h hd tl xs
      → h a ≡ none
      → has a (nodes hd tl xs) ≡ false
  not_has_of_unused h hd tl xs a is gone =
      not_has_of_none h null null (nodes hd tl xs) a is.linked gone

  -- the last node of `p ∷ xs`
  pub last_view :
      (p : Ptr × A) (xs : Cells A)
      → (zs : Cells A) × (va : A) × (p ∷ xs ≡ zs ++ (last p.0 xs, va) ∷ [])
  last_view p [] = ([], p.1, refl)
  last_view p (x ∷ xs) = let (zs, va, eq) = last_view x xs in (p ∷ zs, va, ap (λ z. p ∷ z) eq)

  -- the first node of `xs` and the last sentinel
  pub first_view :
      (tl : Ptr × A) (xs : Cells A)
      → (vc : A) × (ys : Cells A) × (xs ++ tl ∷ [] ≡ (first tl.0 xs, vc) ∷ ys)
  first_view tl [] = (tl.1, [], refl)
  first_view tl ((c, vc) ∷ xs) = (vc, xs ++ tl ∷ [], refl)

  -- The nodes around a place in the list: those before it end with `a`, those behind begin with `c`.
  abbrev pub Around : Ptr × A → Ptr × A → Cells A → Cells A → Type ℓ
  Around hd tl xs ys =
      (zs : Cells A) × (va : A) × (vc : A) × (us : Cells A) × ((new : Cells A)
        → nodes hd tl (xs ++ (new ++ ys))
          ≡ zs ++ (last hd.0 xs, va) ∷ (new ++ (first tl.0 ys, vc) ∷ us))

  pub around : (hd tl : Ptr × A) (xs ys : Cells A) → Around hd tl xs ys
  around hd tl xs ys =
      let (zs, va, e) = last_view hd xs in
      let (vc, us, f) = first_view tl ys in
      (
        zs,
        va,
        vc,
        us,
        λ new.
            ap (λ z. hd ∷ z) (append_assoc xs (new ++ ys) (tl ∷ []))
            ∙ ap (λ z. (hd ∷ xs) ++ z) (append_assoc new ys (tl ∷ []))
            ∙ ap₂ (λ z w. z ++ (new ++ w)) e f
            ∙ append_assoc zs ((last hd.0 xs, va) ∷ []) (new ++ (first tl.0 ys, vc) ∷ us),
      )

  -- what the first sentinel holds
  pub head_at :
      (h : Heap A) (hd tl : Ptr × A) (xs : Cells A)
      → Holds h hd tl xs
      → h hd.0 ≡ some (node hd.1 (first tl.0 xs) null)
  head_at h hd tl [] is = is.linked.0
  head_at h hd tl (x ∷ xs) is = is.linked.0

  -- what a node of the list holds: its payload, and the pointer to the next
  pub cell_at :
      (h : Heap A) (hd tl : Ptr × A) (xs : Cells A) (p : Ptr) (v : A) (ys : Cells A)
      → Holds h hd tl (xs ++ (p, v) ∷ ys)
      → h p ≡ some (node v (first tl.0 ys) (last hd.0 xs))
  cell_at h hd tl xs p v ys is =
      let l =
        subst (λ z. Linked h hd.0 null z) (append_assoc xs ((p, v) ∷ ys) (tl ∷ [])) is.linked.1 in
      node_at h hd.0 null xs p v (ys ++ tl ∷ []) l
      ∙ ap (λ q. some (node v q (last hd.0 xs))) (first-append null ys (tl ∷ []))

  -- A node of the list is not its last sentinel.
  pub cell_ne_tail :
      (h : Heap A) (hd tl : Ptr × A) (xs : Cells A) (p : Ptr) (v : A) (ys : Cells A)
      → Holds h hd tl (xs ++ (p, v) ∷ ys)
      → (p == tl.0) ≡ false
  cell_ne_tail h hd tl xs p v ys is =
      let d = subst Distinct (append_assoc xs ((p, v) ∷ ys) (tl ∷ [])) is.distinct.2 in
      ground (arith, (Distinct-middle xs p v (ys ++ tl ∷ []) d).behind, has-append p ys (tl ∷ []))

  -- A node of the list is one of its nodes.
  pub has_cell :
      (hd tl : Ptr × A) (xs : Cells A) (m : Ptr) (w : A) (ys : Cells A) (a : Ptr)
      → has a (nodes hd tl (xs ++ (m, w) ∷ ys)) ≡ ((a == m) || has a (nodes hd tl (xs ++ ys)))
  has_cell hd tl xs m w ys a = ground (
    arith,
    has-append a (xs ++ (m, w) ∷ ys) (tl ∷ []),
    has-append a (xs ++ ys) (tl ∷ []),
    has-append a xs ((m, w) ∷ ys),
    has-append a xs ys,
  )

  -- `g` is `h` with a node or none at `fresh`, which the list does not use.
  pub Holds-fresh :
      (h : Heap A) (hd tl : Ptr × A) (xs : Cells A) (a : Ptr) (n : Option (Node A))
      → Holds h hd tl xs
      → has a (nodes hd tl xs) ≡ false
      → Holds (write h a n) hd tl xs
  unfolding write
  Holds-fresh h hd tl xs a n is out =
      Holds-frame h (write h a n) hd tl xs is λ b i. ground (arith, out)
