-- ===== src/Lockbased/Deque/Threads/Invariant.antt =====
-- The deque is well formed, and each thread's own node is alive, outside the deque and nobody else's.
use data_structure_benchmark.Base.{
  ℕ, ◌≡◌, refl, sym, ap, ◌∙◌, ◌≢◌, false, Option, none, some, [], ◌==◌, arith, subst, Bool-cases,
  inl, inr,
}
use data_structure_benchmark.Base.Int.{ℤ}
use data_structure_benchmark.Heap.{Ptr, null, Heap, done, write}
use data_structure_benchmark.Heap.Access.{delete_ok}
use data_structure_benchmark.Heap.Chain.{Cells, has, values}
use data_structure_benchmark.Heap.Finishes
use data_structure_benchmark.Heap.Finishes.{Finishes, finishes}
use data_structure_benchmark.Lockbased.Deque.{Deque, dispose}
use data_structure_benchmark.Lockbased.Deque.Shape.{nodes, IsDeque, IsOwn, IsDeque-frame}
use data_structure_benchmark.Lockbased.Deque.Spec.{Side, take}
use data_structure_benchmark.Lockbased.Deque.Contents.{
  push_locked, put_cell, push_locked_lem, Rest, nothing, found, take-put_cell, take-nil,
  has-put_cell,
}
use data_structure_benchmark.Lockbased.Deque.Operations.{made, made-IsOwn}
use data_structure_benchmark.Lockbased.Deque.Threads.{Pc, idle, holding, retiring, System, update}

-- the node that a thread has to itself
abbrev pub owns : Pc → Option Ptr
owns idle = none
owns (holding s n v) = some n
owns (retiring tmp) = tmp

abbrev pub Owned : Heap ℤ → Deque → Cells ℤ → Pc → Type 0
Owned h d xs idle = Unit
Owned h d xs (holding s n v) = IsOwn h n v (nodes d xs)
Owned h d xs (retiring none) = Unit
Owned h d xs (retiring (some p)) = (w : ℤ) × IsOwn h p w (nodes d xs)

pub record Inv (d : Deque) (σ : System) (xs : Cells ℤ) : Type 0 where
  pub is : IsDeque σ.heap d xs
  pub own : (i : ℕ) → Owned σ.heap d xs (σ.pc i)
  pub apart : (i j : ℕ) (p : Ptr) → owns (σ.pc i) ≡ some p → owns (σ.pc j) ≡ some p → i ≡ j

-- What is known of a thread's own node.
pub Owned-holds :
    (h : Heap ℤ) (d : Deque) (xs : Cells ℤ) (q : Pc) (p : Ptr)
    → Owned h d xs q
    → owns q ≡ some p
    → (w : ℤ) × IsOwn h p w (nodes d xs)
Owned-holds h d xs idle p o e = cc
Owned-holds h d xs (holding s n v) p o e =
    (v, subst (λ z. IsOwn h z v (nodes d xs)) (ground arith) o)
Owned-holds h d xs (retiring none) p o e = cc
Owned-holds h d xs (retiring (some n)) p o e =
    (o.0, subst (λ z. IsOwn h z o.0 (nodes d xs)) (ground arith) o.1)

IsOwn-keep :
    (h g : Heap ℤ) (d : Deque) (xs ys : Cells ℤ) (p : Ptr) (w : ℤ)
    → IsOwn h p w (nodes d xs)
    → g p ≡ h p
    → has p (nodes d ys) ≡ false
    → IsOwn g p w (nodes d ys)
IsOwn-keep h g d xs ys p w o e out =
    let (x, y, at) = o.holds in record { holds = (x, y, e ∙ at); ne_null = o.ne_null; out = out }

Owned-keep :
    (h g : Heap ℤ) (d : Deque) (xs ys : Cells ℤ) (q : Pc)
    → Owned h d xs q
    → ((p : Ptr) → owns q ≡ some p → (g p ≡ h p) × (has p (nodes d ys) ≡ false))
    → Owned g d ys q
Owned-keep h g d xs ys idle o k = tt
Owned-keep h g d xs ys (holding s n v) o k = IsOwn-keep h g d xs ys n v o (k n refl).0 (k n refl).1
Owned-keep h g d xs ys (retiring none) o k = tt
Owned-keep h g d xs ys (retiring (some n)) o k =
    (o.0, IsOwn-keep h g d xs ys n o.0 o.1 (k n refl).0 (k n refl).1)

-- Thread `i` moves to `q`, the heap to `g`, the cells to `ys`.
move :
    (d : Deque) (σ : System) (xs : Cells ℤ) (i : ℕ) (q : Pc) (g : Heap ℤ) (ys : Cells ℤ)
    → Inv d σ xs
    → IsDeque g d ys
    → Owned g d ys q
    → ((j : ℕ) (p : Ptr)
        → j ≢ i
        → owns (σ.pc j) ≡ some p
        → (g p ≡ σ.heap p) × (has p (nodes d ys) ≡ false) × (owns q ≢ some p))
    → Inv d (record { heap = g; pc = update σ.pc i q }) ys
move d σ xs i q g ys inv is o others = record {
  is = is;
  own = λ j. elim (Bool-cases (i == j)) [
    | inl e ↦ rw e o
    | inr e ↦ rw e (
        Owned-keep σ.heap g d xs ys (σ.pc j) (inv.own j)
          λ p w. let t = others j p (ground arith) w in (t.0, t.1))
  ];
  apart = λ j k p e f. ground (arith, others j p, others k p, inv.apart j k p);
}

module _ (d : Deque) (σ : System) (xs : Cells ℤ) (inv : Inv d σ xs) (i : ℕ) where
  -- what the node of another thread is
  other : (j : ℕ) (p : Ptr) → owns (σ.pc j) ≡ some p → (w : ℤ) × IsOwn σ.heap p w (nodes d xs)
  other j p = Owned-holds σ.heap d xs (σ.pc j) p (inv.own j)

  pub make-Inv :
      (s : Side) (v : ℤ) (fresh : Ptr)
      → fresh ≢ null
      → σ.heap fresh ≡ none
      → Inv d (record { heap = made σ.heap v fresh; pc = update σ.pc i (holding s fresh v) }) xs
  unfolding write
  make-Inv s v fresh p q =
      let (is, own) = made-IsOwn σ.heap d v fresh xs inv.is p q in
      move d σ xs i (holding s fresh v) (made σ.heap v fresh) xs inv is own λ j n ne e.
        let (w, o) = other j n e in
        let (x, y, at) = o.holds in
        let apart : n ≢ fresh = ground arith in (ground arith, o.out, ground arith)

  pub push-Inv :
      (s : Side) (n : Ptr) (v : ℤ) {g : Heap ℤ}
      → σ.pc i ≡ holding s n v
      → push_locked s d n σ.heap ≡ done tt g
      → Inv d (record { heap = g; pc = update σ.pc i idle }) (put_cell s (n, v) xs)
  push-Inv s n v {g} at ran =
      let mine : Owned σ.heap d xs (holding s n v) = subst (Owned σ.heap d xs) at (inv.own i) in
      let (is, same) = Finishes.post (push_locked_lem s σ.heap d n v xs inv.is mine) ran in
      move d σ xs i idle g (put_cell s (n, v) xs) inv is tt λ j p ne e.
        let (w, o) = other j p e in
        let apart : p ≢ n = λ eq. ne (inv.apart j i p e (ap owns at ∙ ap some (sym eq))) in
        let out : has p (nodes d (put_cell s (n, v) xs)) ≡ false =
          ground (arith, has-put_cell s d n v xs p, o.out) in
        (same p out, out, λ bad. cc)

  pub pop-Inv :
      (s : Side) (r : ℤ) (tmp : Option Ptr) {g : Heap ℤ}
      → Rest s σ.heap g d xs (r, tmp)
      → (ys : Cells ℤ) × (take s (values xs) ≡ (r, values ys))
        × Inv d (record { heap = g; pc = update σ.pc i (retiring tmp) }) ys
  pop-Inv s r tmp {g} (nothing e is same) = (
    [],
    rw e (take-nil s),
    move d σ xs i (retiring none) g [] inv (rw same is) tt λ j p ne f.
        let (w, o) = other j p f in
        (ap (λ z. z p) same, subst (λ z. has p (nodes d z) ≡ false) e o.out, λ bad. cc),
  )
  pop-Inv s r tmp {g} (found m w rest e is own same) = (
    rest,
    rw e (take-put_cell s m w rest),
    move d σ xs i (retiring (some m)) g rest inv is (w, own)
        λ j p ne f.
          let (u, o) = other j p f in
          let out : has p (nodes d (put_cell s (m, w) rest)) ≡ false =
            subst (λ z. has p (nodes d z) ≡ false) e o.out in
          (
            same p (ground (arith, has-put_cell s d m w rest p)),
            ground (arith, has-put_cell s d m w rest p),
            ground (arith, has-put_cell s d m w rest p),
          ),
  )

  pub retire-Inv :
      (tmp : Option Ptr) {g : Heap ℤ}
      → σ.pc i ≡ retiring tmp
      → dispose tmp σ.heap ≡ done tt g
      → Inv d (record { heap = g; pc = update σ.pc i idle }) xs
  unfolding dispose write
  retire-Inv none {g} at ran =
      let same : g ≡ σ.heap = cc in
      move d σ xs i idle g xs inv (rw same inv.is) tt
        λ j p ne f. let (w, o) = other j p f in (ap (λ z. z p) same, o.out, λ bad. cc)
  retire-Inv (some m) {g} at ran =
      let (w, own) = Owned-holds σ.heap d xs (σ.pc i) m (inv.own i) (ap owns at) in
      let (x, y, alive) = own.holds in
      let same : g ≡ write σ.heap m none = cc (delete_ok σ.heap m alive) in
      let is =
        IsDeque-frame σ.heap (write σ.heap m none) d xs inv.is λ a k. ground (arith, own.out) in
      move d σ xs i idle g xs inv (rw same is) tt λ j p ne f.
        let (u, o) = other j p f in
        let apart : p ≢ m = λ eq. ne (inv.apart j i p f (ap owns at ∙ ap some (sym eq))) in
        (ap (λ z. z p) same ∙ ground arith, o.out, λ bad. cc)
