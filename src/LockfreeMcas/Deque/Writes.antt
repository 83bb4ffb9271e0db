-- ===== src/LockfreeMcas/Deque/Writes.antt =====
-- A write to one node, and what it leaves as it was.
use data_structure_benchmark.Base.{
  ◌≡◌, refl, ◌≢◌, Bool-cases, inl, inr, false, some, [], ◌∷◌, arith, ◌==◌, ap, ◌∙◌,
}
use data_structure_benchmark.Base.Int.{ℤ}
use data_structure_benchmark.Heap.{Ptr, Node, node, Heap, write}
use data_structure_benchmark.Heap.Chain.{Cells, has, frame}
use data_structure_benchmark.Lockbased.Deque.Spec.{Side}
use data_structure_benchmark.LockfreeMcas.Deque.{Deque, link}
use data_structure_benchmark.LockfreeMcas.Deque.Shape.{IsDead, Hats, Shape}
use data_structure_benchmark.LockfreeMcas.Deque.Knowledge.{Extends, Self}

pub write_other : (h : Heap ℤ) (m n : Ptr) (c : Node ℤ) → m ≢ n → write h n (some c) m ≡ h m
unfolding write
write_other h m n c ne = ground arith

pub write_same : (h : Heap ℤ) (n : Ptr) (c : Node ℤ) → write h n (some c) n ≡ some c
unfolding write
write_same h n c = ground arith

module _ (h : Heap ℤ) (n : Ptr) (c : Node ℤ) (not_dead : (p : Ptr) → IsDead h p → p ≢ n) where
  pub IsDead-kept : (p : Ptr) → IsDead h p → IsDead (write h n (some c)) p
  unfolding write
  IsDead-kept p (v, at) = (v, ground (arith, not_dead p (v, at)))

  pub Extends-write :
      ((x : Node ℤ) → h n ≡ some x → c.payload ≡ x.payload) → Extends h (write h n (some c))
  unfolding write
  Extends-write same = record {
    alive = λ p x at. elim (Bool-cases (p == n)) [
      | inl e ↦ (c, ground arith, same x (ground arith))
      | inr e ↦ (x, ground arith, refl)
    ];
    dead = IsDead-kept;
  }

  pub Self-write : Self h → ((s : Side) → link s c ≢ n) → Self (write h n (some c))
  unfolding write
  Self-write self ne s p x at e = elim (Bool-cases (p == n)) [
    | inl eq ↦ absurd (ne s (ap (λ z. link s z) (ground arith) ∙ e ∙ ground arith))
    | inr eq ↦ IsDead-kept p (self s p x (ground arith) e)
  ]

Hats-write :
    (d : Deque) (n : Ptr) (c : Node ℤ) (xs : Cells ℤ)
    → ((p : Ptr) → IsDead d.heap p → p ≢ n)
    → Hats d xs
    → Hats (record d { heap = write d.heap n (some c) }) xs
Hats-write d n c [] nd (l, r) =
    (IsDead-kept d.heap n c nd d.left_hat l, IsDead-kept d.heap n c nd d.right_hat r)
Hats-write d n c ((p, v) ∷ xs) nd hats = hats

-- The deque does not depend on a node that is neither in it nor dead.
pub Shape-write :
    (d : Deque) (n : Ptr) (c : Node ℤ) (xs : Cells ℤ)
    → Shape d xs
    → ((p : Ptr) → IsDead d.heap p → p ≢ n)
    → has n xs ≡ false
    → Shape (record d { heap = write d.heap n (some c) }) xs
unfolding write
Shape-write d n c xs is nd out = record {
  before = is.before;
  behind = is.behind;
  linked =
      frame d.heap (write d.heap n (some c)) is.before is.behind xs is.linked
        λ a i. ground (arith, out);
  distinct = is.distinct;
  before_dead = IsDead-kept d.heap n c nd is.before is.before_dead;
  behind_dead = IsDead-kept d.heap n c nd is.behind is.behind_dead;
  before_out = is.before_out;
  behind_out = is.behind_out;
  hats = Hats-write d n c xs nd is.hats;
}

-- A node that is made to point to itself is dead.
pub Self-kill : (h : Heap ℤ) (m : Ptr) (v : ℤ) → Self h → Self (write h m (some (node v m m)))
unfolding write
Self-kill h m v self s p x at e = elim (Bool-cases (p == m)) [
  | inl eq ↦ (v, ground arith)
  | inr eq ↦ let (w, old) = self s p x (ground arith) e in (w, ground arith)
]

-- Whatever node dies, the others stay as they are.
pub Extends-kill :
    (h : Heap ℤ) (m : Ptr) (x : Node ℤ)
    → h m ≡ some x
    → Extends h (write h m (some (node x.payload m m)))
unfolding write
Extends-kill h m x at = record {
  alive = λ p y e. elim (Bool-cases (p == m)) [
    | inl eq ↦ (node x.payload m m, ground arith, ground arith)
    | inr eq ↦ (y, ground arith, refl)
  ];
  dead = λ p (v, e). elim (Bool-cases (p == m)) [
    | inl eq ↦ (x.payload, ground arith)
    | inr eq ↦ (v, ground arith)
  ];
}
