-- ===== src/LockfreeMcas/Deque/Shape.antt =====
-- The nodes between the hats, and what a successful compare-and-swap makes of them.
use data_structure_benchmark.Base.{
  ◌≡◌, refl, ◌≢◌, ◌⊎◌, Bool-cases, inl, inr, true, false, some, [], ◌∷◌, arith, ◌==◌, subst, ap,
  ◌∙◌,
}
use data_structure_benchmark.Base.Int.{ℤ}
use data_structure_benchmark.Heap.{Ptr, Node, node, Heap}
use data_structure_benchmark.Heap.Chain.{
  Cells, has, last, Linked, Distinct, has-append, last-append, node_at,
}
use data_structure_benchmark.Linked.Shape.{last_view}
use data_structure_benchmark.Lockbased.Deque.Contents.{put_cell, BackView, empty, snoc, back_view}
use data_structure_benchmark.Lockbased.Deque.Spec.{Side, front, back}
use data_structure_benchmark.LockfreeMcas.Deque.{Deque, hat}

-- A node that was popped, or the dummy: it is linked to itself.
abbrev pub IsDead : Heap ℤ → Ptr → Type 0
IsDead h p = (v : ℤ) × (h p ≡ some (node v p p))

-- The hats point to the ends, or to dead nodes if there are no ends.
abbrev pub Hats : Deque → Cells ℤ → Type 0
Hats d [] = IsDead d.heap d.left_hat × IsDead d.heap d.right_hat
Hats d ((p, v) ∷ xs) = (d.left_hat ≡ p) × (d.right_hat ≡ last p xs)

-- The deque holds the cells `xs`: they are linked both ways, and outwards to dead nodes.
pub record Shape (d : Deque) (xs : Cells ℤ) : Type 0 where
  pub before : Ptr
  pub behind : Ptr
  pub linked : Linked d.heap before behind xs
  pub distinct : Distinct xs
  pub before_dead : IsDead d.heap before
  pub behind_dead : IsDead d.heap behind
  pub before_out : has before xs ≡ false
  pub behind_out : has behind xs ≡ false
  pub hats : Hats d xs

-- A node that points to itself on either side is none of a chain with other ends.
self-out :
    (h : Heap ℤ) (b e : Ptr) (xs : Cells ℤ) (p : Ptr) (n : Node ℤ)
    → Linked h b e xs
    → Distinct xs
    → has b xs ≡ false
    → has e xs ≡ false
    → h p ≡ some n
    → (n.prev == p) ≡ true
    → has p xs ≡ false
self-out h b e [] p n l d o o' at self = refl
self-out h b e ((q, v) ∷ xs) p n l d o o' at self = elim (Bool-cases (p == q)) [
  | inl same ↦ absurd (ground (arith, l.0))
  | inr new ↦ rw new (self-out h q e xs p n l.1 d.2 d.1 (ground arith) at self)
]

pub dead-out :
    (d : Deque) (xs : Cells ℤ) (p : Ptr) → Shape d xs → IsDead d.heap p → has p xs ≡ false
dead-out d xs p is (v, at) =
    self-out d.heap is.before is.behind xs p (node v p p) is.linked is.distinct is.before_out
      is.behind_out at (ground arith)

-- The cells from one side: there are none, or there is one at the side's end.
pub side_view :
    (s : Side) (xs : Cells ℤ)
    → (xs ≡ []) ⊎ ((m : Ptr) × (w : ℤ) × (rest : Cells ℤ) × (xs ≡ put_cell s (m, w) rest))
side_view front [] = inl refl
side_view front ((m, w) ∷ xs) = inr (m, w, xs, refl)
side_view back xs = from_back (back_view xs)
  where
    from_back :
        {ys : Cells ℤ}
        → BackView ys
        → (ys ≡ []) ⊎ ((m : Ptr) × (w : ℤ) × (rest : Cells ℤ) × (ys ≡ put_cell back (m, w) rest))
    from_back empty = inl refl
    from_back (snoc ys m w) = inr (m, w, ys, refl)

pub hat-put_cell :
    (s : Side) (d : Deque) (m : Ptr) (w : ℤ) (rest : Cells ℤ)
    → Hats d (put_cell s (m, w) rest)
    → hat s d ≡ m
hat-put_cell front d m w rest hats = hats.0
hat-put_cell back d m w [] hats = hats.1
hat-put_cell back d m w ((p, v) ∷ rest) hats = hats.1 ∙ last-append p rest ((m, w) ∷ [])

pub has-put_cell_self :
    (s : Side) (m : Ptr) (w : ℤ) (rest : Cells ℤ) → has m (put_cell s (m, w) rest) ≡ true
has-put_cell_self front m w rest = ground arith
has-put_cell_self back m w rest = ground (arith, has-append m rest ((m, w) ∷ []))

-- Behind a hat that points to a dead node there is nothing.
pub nothing_behind :
    (s : Side) (d : Deque) (xs : Cells ℤ) → Shape d xs → IsDead d.heap (hat s d) → xs ≡ []
nothing_behind s d xs is dead = elim (side_view s xs) [
  | inl none_left ↦ none_left
  | inr (m, w, rest, eq) ↦
      let at = hat-put_cell s d m w rest (subst (Hats d) eq is.hats) in
      absurd (
        ground (
          arith,
          dead-out d xs (hat s d) is dead,
          has-put_cell_self s m w rest,
          ap (λ z. has (hat s d) z) eq,
          at,
        ))
]

-- A hat points to a node that was made, and to none of a thread's own.
pub hat_alive :
    (s : Side) (d : Deque) (xs : Cells ℤ) → Shape d xs → (x : Node ℤ) × (d.heap (hat s d) ≡ some x)
hat_alive front d [] is = (_, is.hats.0.1)
hat_alive back d [] is = (_, is.hats.1.1)
hat_alive front d ((p, v) ∷ xs) is = (_, ap (λ z. d.heap z) is.hats.0 ∙ is.linked.0)
hat_alive back d ((p, v) ∷ xs) is =
    let (zs, w, eq) = last_view (p, v) xs in
    (
      _,
      ap (λ z. d.heap z) is.hats.1
          ∙ node_at d.heap is.before is.behind zs (last p xs) w []
              (subst (Linked d.heap is.before is.behind) eq is.linked),
    )

-- the hats of an empty deque
pub empty_hat : (s : Side) (d : Deque) → Hats d [] → IsDead d.heap (hat s d)
empty_hat front d hats = hats.0
empty_hat back d hats = hats.1

pub hat_not_own :
    (s : Side) (d : Deque) (xs : Cells ℤ) (n : Ptr)
    → Shape d xs
    → has n xs ≡ false
    → ((p : Ptr) → IsDead d.heap p → p ≢ n)
    → hat s d ≢ n
hat_not_own s d xs n is out alive e = elim (side_view s xs) [
  | inl none_left ↦ alive (hat s d) (empty_hat s d (subst (Hats d) none_left is.hats)) e
  | inr (m, w, rest, eq) ↦
      let at = hat-put_cell s d m w rest (subst (Hats d) eq is.hats) in
      absurd (ground (arith, has-put_cell_self s m w rest, ap (λ z. has n z) eq, at, out))
]
