-- ===== src/Lockbased/SortedList/Order.antt =====
-- Sorted lists of values, and how often a value occurs in one.
use data_structure_benchmark.Base.{
  ℕ, ◌+◌, ◌≤◌, ◌≡◌, refl, Bool, Bool-cases, true, false, List, [], ◌∷◌, ◌++◌, arith, inl, inr,
  subst, if◌then◌else◌,
}
use data_structure_benchmark.Base.Int.{
  ℤ, lt_int, eq_int, lt_int_asymm, le_int_trans, eq_int_iff, lt_int_le_trans, lt_int_irrefl,
}
use data_structure_benchmark.Base.Lists.{length}
use data_structure_benchmark.Heap.{Ptr}
use data_structure_benchmark.Heap.Chain.{Cells, values}
use data_structure_benchmark.Linked.Walk.{passed, left}

-- No value of the list is below `u`.
abbrev pub NoneBelow : ℤ → List ℤ → Type 0
NoneBelow u [] = Unit
NoneBelow u (v ∷ vs) = (lt_int v u ≡ false) × NoneBelow u vs

abbrev pub IsSorted : List ℤ → Type 0
IsSorted [] = Unit
IsSorted (v ∷ vs) = NoneBelow v vs × IsSorted vs

abbrev pub occurrences : ℤ → List ℤ → ℕ
occurrences w [] = 0
occurrences w (v ∷ vs) = (if eq_int v w then 1 else 0) + occurrences w vs

pub occurrences-append :
    (w : ℤ) (us vs : List ℤ) → occurrences w (us ++ vs) ≡ occurrences w us + occurrences w vs
occurrences-append w [] vs = omega arith
occurrences-append w (u ∷ us) vs = omega (arith, occurrences-append w us vs)

pub occurrences-le : (w : ℤ) (vs : List ℤ) → occurrences w vs ≤ length vs
occurrences-le w [] = omega arith
occurrences-le w (v ∷ vs) = ground (arith, occurrences-le w vs)

-- `u ≤ v` and no value below `v`: none is below `u`.
NoneBelow-le : (u v : ℤ) (vs : List ℤ) → lt_int v u ≡ false → NoneBelow v vs → NoneBelow u vs
NoneBelow-le u v [] e n = tt
NoneBelow-le u v (w ∷ vs) e n = (le_int_trans w v u n.0 e, NoneBelow-le u v vs e n.1)

NoneBelow-drop : (u w : ℤ) (us vs : List ℤ) → NoneBelow u (us ++ w ∷ vs) → NoneBelow u (us ++ vs)
NoneBelow-drop u w [] vs n = n.1
NoneBelow-drop u w (v ∷ us) vs n = (n.0, NoneBelow-drop u w us vs n.1)

-- A sorted list stays sorted when an element leaves it.
pub IsSorted-drop : (w : ℤ) (us vs : List ℤ) → IsSorted (us ++ w ∷ vs) → IsSorted (us ++ vs)
IsSorted-drop w [] vs s = s.1
IsSorted-drop w (u ∷ us) vs s = (NoneBelow-drop u w us vs s.0, IsSorted-drop w us vs s.1)

-- the test of the loops of `insert` and `remove`
abbrev pub below : ℤ → ℤ → Bool
below value v = lt_int v value

NoneBelow-insert :
    (u v : ℤ) (n : Ptr) (xs : Cells ℤ)
    → lt_int v u ≡ false
    → NoneBelow u (values xs)
    → NoneBelow u (values (passed (below v) xs ++ (n, v) ∷ left (below v) xs))
NoneBelow-insert u v n [] e b = (e, tt)
NoneBelow-insert u v n ((p, w) ∷ xs) e b = elim (Bool-cases (lt_int w v)) [
  | inl t ↦ rw t (b.0, NoneBelow-insert u v n xs e b.1)
  | inr t ↦ rw t (e, b)
]

-- A sorted list stays sorted when `v` enters it before the first value that is not below it.
pub IsSorted-insert :
    (v : ℤ) (n : Ptr) (xs : Cells ℤ)
    → IsSorted (values xs)
    → IsSorted (values (passed (below v) xs ++ (n, v) ∷ left (below v) xs))
IsSorted-insert v n [] s = (tt, tt)
IsSorted-insert v n ((p, w) ∷ xs) s = elim (Bool-cases (lt_int w v)) [
  | inl t ↦ rw t (NoneBelow-insert w v n xs (lt_int_asymm w v t) s.0, IsSorted-insert v n xs s.1)
  | inr t ↦ rw t ((t, NoneBelow-le v w (values xs) t s.0), s)
]

-- A value below all others does not occur among them.
occurrences_below :
    (v u : ℤ) (vs : List ℤ) → lt_int v u ≡ true → NoneBelow u vs → occurrences v vs ≡ 0
occurrences_below v u [] e n = refl
occurrences_below v u (w ∷ vs) e n =
    ground
      (arith, occurrences_below v u vs e, lt_int_le_trans v u w e, lt_int_irrefl v, eq_int_iff w v)

-- The first value that is not below `v` is not `v`.
abbrev pub Missing : ℤ → Cells ℤ → Type 0
Missing v [] = Unit
Missing v ((p, w) ∷ xs) = eq_int w v ≡ false

left-step :
    (v : ℤ) (p : Ptr) (w : ℤ) (xs : Cells ℤ)
    → lt_int w v ≡ true
    → left (below v) ((p, w) ∷ xs) ≡ left (below v) xs
left-step v p w xs t = rw t

left-stop :
    (v : ℤ) (p : Ptr) (w : ℤ) (xs : Cells ℤ)
    → lt_int w v ≡ false
    → left (below v) ((p, w) ∷ xs) ≡ (p, w) ∷ xs
left-stop v p w xs t = rw t

-- Then `v` does not occur in the list at all, since it is sorted.
pub occurrences-Missing :
    (v : ℤ) (xs : Cells ℤ)
    → IsSorted (values xs)
    → Missing v (left (below v) xs)
    → occurrences v (values xs) ≡ 0
occurrences-Missing v [] s m = refl
occurrences-Missing v ((p, w) ∷ xs) s m = elim (Bool-cases (lt_int w v)) [
  | inl t ↦ ground (
    arith,
    t,
    lt_int_irrefl v,
    eq_int_iff w v,
    occurrences-Missing v xs s.1 (subst (Missing v) (left-step v p w xs t) m),
  )
  | inr t ↦
      let ne : eq_int w v ≡ false = subst (Missing v) (left-stop v p w xs t) m in
      let lt : lt_int v w ≡ true = ground arith in
      ground (arith, ne, occurrences_below v w (values xs) lt s.0)
]
