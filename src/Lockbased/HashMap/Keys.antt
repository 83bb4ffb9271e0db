-- ===== src/Lockbased/HashMap/Keys.antt =====
-- What the cells of a bucket hold at each key, before and after a change.
use data_structure_benchmark.Base.{
  ◌≡◌, refl, inl, inr, Bool-cases, true, none, some, [], ◌∷◌, ◌++◌, arith, if◌then◌else◌,
}
use data_structure_benchmark.Base.Int.{ℤ, eq_int, eq_int_iff}
use data_structure_benchmark.Heap.{Ptr}
use data_structure_benchmark.Heap.Chain.{Cells}
use data_structure_benchmark.Linked.Walk.{passed, left}
use data_structure_benchmark.Lockbased.HashMap.{Entry, entry, other_key}
use data_structure_benchmark.Lockbased.HashMap.Table.{lookup, Unique}

-- The cells that the loops pass do not hold the key.
pub lookup-passed : (key : ℤ) (xs : Cells Entry) → lookup key (passed (other_key key) xs) ≡ none
lookup-passed key [] = refl
lookup-passed key ((p, e) ∷ xs) = elim (Bool-cases (eq_int e.key key)) [
  | inl q ↦ rw q refl
  | inr q ↦ rw (q, q) (lookup-passed key xs)
]

-- the first of `xs` holds the key, if there is one
abbrev pub Found : ℤ → Cells Entry → Type 0
Found key [] = Unit
Found key ((p, e) ∷ xs) = eq_int e.key key ≡ true

pub left-Found : (key : ℤ) (xs : Cells Entry) → Found key (left (other_key key) xs)
left-Found key [] = tt
left-Found key ((p, e) ∷ xs) = elim (Bool-cases (eq_int e.key key)) [
  | inl q ↦ rw q q
  | inr q ↦ rw q (left-Found key xs)
]

-- `key` stands nowhere in `us`.
module _ (key : ℤ) (k : ℤ) where
  pub lookup-snoc :
      (us : Cells Entry) (n : Ptr) (v : ℤ)
      → lookup key us ≡ none
      → lookup k (us ++ (n, entry key v) ∷ []) ≡ (if eq_int key k then some v else lookup k us)
  lookup-snoc [] n v a = refl
  lookup-snoc ((p, e) ∷ us) n v a = ground (arith, lookup-snoc us n v)

  pub lookup-assign :
      (us : Cells Entry) (n : Ptr) (e : Entry) (v : ℤ) (vs : Cells Entry)
      → lookup key us ≡ none
      → eq_int e.key key ≡ true
      → lookup k (us ++ (n, entry e.key v) ∷ vs)
        ≡ (if eq_int key k then some v else lookup k (us ++ (n, e) ∷ vs))
  lookup-assign [] n e v vs a q = ground (arith, (eq_int_iff e.key key).0 q)
  lookup-assign ((p, f) ∷ us) n e v vs a q = ground (arith, lookup-assign us n e v vs)

  pub lookup-drop :
      (us : Cells Entry) (n : Ptr) (e : Entry) (vs : Cells Entry)
      → lookup key us ≡ none
      → eq_int e.key key ≡ true
      → Unique (us ++ (n, e) ∷ vs)
      → lookup k (us ++ vs) ≡ (if eq_int key k then none else lookup k (us ++ (n, e) ∷ vs))
  lookup-drop [] n e vs a q u = ground (arith, (eq_int_iff e.key key).0 q)
  lookup-drop ((p, f) ∷ us) n e vs a q u = ground (arith, lookup-drop us n e vs)

pub Unique-snoc :
    (key : ℤ) (us : Cells Entry) (n : Ptr) (v : ℤ)
    → lookup key us ≡ none
    → Unique us
    → Unique (us ++ (n, entry key v) ∷ [])
Unique-snoc key [] n v a u = (refl, tt)
Unique-snoc key ((p, f) ∷ us) n v a u =
    (ground (arith, lookup-snoc key f.key us n v), Unique-snoc key us n v (ground arith) u.1)

lookup_kept :
    (k : ℤ) (us : Cells Entry) (n : Ptr) (e : Entry) (v : ℤ) (vs : Cells Entry)
    → lookup k (us ++ (n, e) ∷ vs) ≡ none
    → lookup k (us ++ (n, entry e.key v) ∷ vs) ≡ none
lookup_kept k [] n e v vs a = ground arith
lookup_kept k ((p, f) ∷ us) n e v vs a = ground (arith, lookup_kept k us n e v vs)

pub Unique-assign :
    (us : Cells Entry) (n : Ptr) (e : Entry) (v : ℤ) (vs : Cells Entry)
    → Unique (us ++ (n, e) ∷ vs)
    → Unique (us ++ (n, entry e.key v) ∷ vs)
Unique-assign [] n e v vs u = u
Unique-assign ((p, f) ∷ us) n e v vs u =
    (lookup_kept f.key us n e v vs u.0, Unique-assign us n e v vs u.1)

lookup_less :
    (k : ℤ) (us : Cells Entry) (n : Ptr) (e : Entry) (vs : Cells Entry)
    → lookup k (us ++ (n, e) ∷ vs) ≡ none
    → lookup k (us ++ vs) ≡ none
lookup_less k [] n e vs a = ground arith
lookup_less k ((p, f) ∷ us) n e vs a = ground (arith, lookup_less k us n e vs)

pub Unique-drop :
    (us : Cells Entry) (n : Ptr) (e : Entry) (vs : Cells Entry)
    → Unique (us ++ (n, e) ∷ vs)
    → Unique (us ++ vs)
Unique-drop [] n e vs u = u.1
Unique-drop ((p, f) ∷ us) n e vs u = (lookup_less f.key us n e vs u.0, Unique-drop us n e vs u.1)
