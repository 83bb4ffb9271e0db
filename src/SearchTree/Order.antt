-- ===== src/SearchTree/Order.antt =====
-- The order of a search tree, and what insertion and deletion do to its values.
use data_structure_benchmark.Base.{
  ◌+◌, ◌-◌, ◌<◌, ◌≡◌, refl, true, false, Bool-cases, inl, inr, if◌then◌else◌, arith, subst, ◌∙◌,
}
use data_structure_benchmark.Base.Int.{
  ℤ, lt_int, eq_int, eq_int_iff, eq_int_refl, lt_int_le_trans, lt_int_irrefl,
}
use data_structure_benchmark.Heap.{Ptr}
use data_structure_benchmark.SearchTree.Spec.{
  Branches, leaf, branch, count, least, insert, joined, delete, insert-left, insert-right,
  delete-found, delete-left, delete-right,
}

abbrev pub All {μ} : (ℤ → Type μ) → Branches → Type μ
All P leaf = Unit
All P (branch l a w r) = All P l × P w × All P r

abbrev pub Below : ℤ → ℤ → Type 0
Below w x = lt_int x w ≡ true

abbrev pub NotBelow : ℤ → ℤ → Type 0
NotBelow w x = lt_int x w ≡ false

-- Smaller values are on the left, and equal ones on the right.
abbrev pub IsOrdered : Branches → Type 0
IsOrdered leaf = Unit
IsOrdered (branch l a w r) = All (Below w) l × All (NotBelow w) r × IsOrdered l × IsOrdered r

All-imp {μ ν} :
    {P : ℤ → Type μ} {Q : ℤ → Type ν} → ((x : ℤ) → P x → Q x) → (t : Branches) → All P t → All Q t
All-imp f leaf a = tt
All-imp f (branch l a w r) (p, q, s) = (All-imp f l p, f w q, All-imp f r s)

All-insert {μ} :
    (P : ℤ → Type μ) (v : ℤ) (n : Ptr) (t : Branches) → P v → All P t → All P (insert v n t)
unfolding insert
All-insert P v n leaf p a = (tt, p, tt)
All-insert P v n (branch l b w r) p a = elim (Bool-cases (lt_int v w)) [
  | inl e ↦ rw (insert-left v n l b w r e) (All-insert P v n l p a.0, a.1, a.2)
  | inr e ↦ rw (insert-right v n l b w r e) (a.0, a.1, All-insert P v n r p a.2)
]

pub insert-IsOrdered : (v : ℤ) (n : Ptr) (t : Branches) → IsOrdered t → IsOrdered (insert v n t)
unfolding insert
insert-IsOrdered v n leaf s = (tt, tt, tt, tt)
insert-IsOrdered v n (branch l b w r) (below, above, sl, sr) = elim (Bool-cases (lt_int v w)) [
  | inl e ↦
      rw (insert-left v n l b w r e)
        (All-insert (Below w) v n l e below, above, insert-IsOrdered v n l sl, sr)
  | inr e ↦
      rw (insert-right v n l b w r e)
        (below, All-insert (NotBelow w) v n r e above, sl, insert-IsOrdered v n r sr)
]

pub count-insert :
    (x v : ℤ) (n : Ptr) (t : Branches)
    → count x (insert v n t) ≡ count x t + (if eq_int v x then 1 else 0)
unfolding insert
count-insert x v n leaf = ground arith
count-insert x v n (branch l b w r) = ground (arith, count-insert x v n l, count-insert x v n r)

All-least {μ} :
    (P : ℤ → Type μ) (l : Branches) (a : Ptr) (w : ℤ) (r : Branches)
    → All P (branch l a w r)
    → P (least (branch l a w r))
All-least P leaf a w r s = s.1
All-least P (branch ll b u lr) a w r s = All-least P ll b u lr s.0

-- The leftmost value is the least one.
pub least-NotBelow :
    (l : Branches) (a : Ptr) (w : ℤ) (r : Branches)
    → IsOrdered (branch l a w r)
    → All (NotBelow (least (branch l a w r))) (branch l a w r)
least-NotBelow leaf a w r s = (tt, lt_int_irrefl w, s.1)
least-NotBelow (branch ll b u lr) a w r (below, above, sl, sr) =
    let m = least (branch ll b u lr) in
    let m_below : Below w m = All-least (Below w) ll b u lr below in
    (least-NotBelow ll b u lr sl, ground arith, All-imp (λ x h. ground arith) r above)

pub count-least :
    (l : Branches) (a : Ptr) (w : ℤ) (r : Branches)
    → 0 < count (least (branch l a w r)) (branch l a w r)
count-least leaf a w r = ground (arith, eq_int_refl w)
count-least (branch ll b u lr) a w r = omega (arith, count-least ll b u lr)

All-joined {μ} :
    (P : ℤ → Type μ) (l : Branches) (a : Ptr) (r rest : Branches)
    → All P l
    → All P r
    → All P rest
    → All P (joined l a r rest)
All-joined P leaf a r rest p q s = q
All-joined P (branch ll b u lr) a leaf rest p q s = p
All-joined P (branch ll b u lr) a (branch rl c w rr) rest p q s = (p, All-least P rl c w rr q, s)

All-delete {μ} : (P : ℤ → Type μ) (v : ℤ) (t : Branches) → All P t → All P (delete v t)
unfolding delete
All-delete P v leaf a = tt
All-delete P v (branch l b w r) a = elim (Bool-cases (eq_int w v)) [
  | inl e ↦
      rw (delete-found v l b w r e)
        (All-joined P l b r (delete (least r) r) a.0 a.2 (All-delete P (least r) r a.2))
  | inr e ↦ (elim (Bool-cases (lt_int v w)) [
    | inl f ↦ rw (delete-left v l b w r e f) (All-delete P v l a.0, a.1, a.2)
    | inr f ↦ rw (delete-right v l b w r e f) (a.0, a.1, All-delete P v r a.2)
  ])
]

joined-IsOrdered :
    (l : Branches) (a : Ptr) (w : ℤ) (r : Branches)
    → IsOrdered (branch l a w r)
    → IsOrdered (delete (least r) r)
    → IsOrdered (joined l a r (delete (least r) r))
joined-IsOrdered leaf a w r s d = s.3
joined-IsOrdered (branch ll b u lr) a w leaf s d = s.2
joined-IsOrdered (branch ll b u lr) a w (branch rl c x rr) (below, above, sl, sr) d =
    let m = least (branch rl c x rr) in
    let m_above : NotBelow w m = All-least (NotBelow w) rl c x rr above in
    (
      All-imp (λ y h. lt_int_le_trans y w m h m_above) (branch ll b u lr) below,
      All-delete (NotBelow m) m (branch rl c x rr) (least-NotBelow rl c x rr sr),
      sl,
      d,
    )

pub delete-IsOrdered : (v : ℤ) (t : Branches) → IsOrdered t → IsOrdered (delete v t)
unfolding delete
delete-IsOrdered v leaf s = tt
delete-IsOrdered v (branch l b w r) s = elim (Bool-cases (eq_int w v)) [
  | inl e ↦
      rw (delete-found v l b w r e) (joined-IsOrdered l b w r s (delete-IsOrdered (least r) r s.3))
  | inr e ↦ (elim (Bool-cases (lt_int v w)) [
    | inl f ↦
        rw (delete-left v l b w r e f)
          (All-delete (Below w) v l s.0, s.1, delete-IsOrdered v l s.2, s.3)
    | inr f ↦
        rw (delete-right v l b w r e f)
          (s.0, All-delete (NotBelow w) v r s.1, s.2, delete-IsOrdered v r s.3)
  ])
]

-- A value that is none of the tree's.
pub count-none : (x : ℤ) (t : Branches) → All (λ y. eq_int y x ≡ false) t → count x t ≡ 0
count-none x leaf a = refl
count-none x (branch l b w r) a = ground (arith, count-none x l, count-none x r)

count-joined :
    (x : ℤ) (l : Branches) (a : Ptr) (r rest : Branches)
    → count x rest ≡ count x r - (if eq_int (least r) x then 1 else 0)
    → count x (joined l a r rest) ≡ count x l + count x r
count-joined x leaf a r rest e = omega arith
count-joined x (branch ll b u lr) a leaf rest e = omega arith
count-joined x (branch ll b u lr) a (branch rl c w rr) rest e =
    let has = count-least rl c w rr in
    elim (Bool-cases (eq_int (least (branch rl c w rr)) x)) [
      | inl same ↦
          let x_is : least (branch rl c w rr) ≡ x =
            (eq_int_iff (least (branch rl c w rr)) x).0 same in
          let some_x : 0 < count x (branch rl c w rr) =
            subst (λ z. 0 < count z (branch rl c w rr)) x_is has in
          ground arith
      | inr differ ↦ ground arith
    ]

-- One occurrence less, if there is one.
pub count-delete :
    (x v : ℤ) (t : Branches)
    → IsOrdered t
    → count x (delete v t) ≡ count x t - (if eq_int v x then 1 else 0)
unfolding delete
count-delete x v leaf s = ground arith
count-delete x v (branch l b w r) s = elim (Bool-cases (eq_int w v)) [
  | inl e ↦
      rw (delete-found v l b w r e)
        (count-joined x l b r (delete (least r) r) (count-delete x (least r) r s.3) ∙ ground arith)
  | inr e ↦ elim (Bool-cases (lt_int v w)) [
    | inl f ↦
        let right_none : count v r ≡ 0 = count-none v r (All-imp (λ y h. ground arith) r s.1) in
        rw (delete-left v l b w r e f) (ground (arith, count-delete x v l s.2))
    | inr f ↦
        let left_none : count v l ≡ 0 = count-none v l (All-imp (λ y h. ground arith) l s.0) in
        rw (delete-right v l b w r e f) (ground (arith, count-delete x v r s.3))
  ]
]
