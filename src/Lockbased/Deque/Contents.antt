-- ===== src/Lockbased/Deque/Contents.antt =====
-- The critical sections of the deque against its specification.
use data_structure_benchmark.Base.{
  ◌≡◌, refl, ◌||◌, Option, none, some, List, [], ◌∷◌, ◌++◌, arith, ◌==◌,
}
use data_structure_benchmark.Base.Int.{ℤ, pos, minus_one}
use data_structure_benchmark.Heap.{Ptr, Heap, Command}
use data_structure_benchmark.Heap.Chain.{Cells, has, SameOutside, values, values-append, has-append}
use data_structure_benchmark.Heap.Finishes
use data_structure_benchmark.Heap.Finishes.{Finishes, finishes}
use data_structure_benchmark.Lockbased.Deque.{
  Deque, push_front_locked, push_back_locked, pop_front_locked, pop_back_locked,
}
use data_structure_benchmark.Lockbased.Deque.Shape.{nodes, IsDeque, IsOwn}
use data_structure_benchmark.Lockbased.Deque.Push.{push_front_locked_lem, push_back_locked_lem}
use data_structure_benchmark.Lockbased.Deque.Pop.{
  pop_front_locked_lem, pop_back_locked_lem, pop_locked_empty,
}
use data_structure_benchmark.Lockbased.Deque.Spec.{
  Side, front, back, put, take_front, take_back, take,
}

abbrev pub push_locked : Side → Deque → Ptr → Command ℤ (Unit {0})
push_locked front = push_front_locked
push_locked back = push_back_locked

abbrev pub pop_locked : Side → Deque → Command ℤ (ℤ × Option Ptr)
pop_locked front = pop_front_locked
pop_locked back = pop_back_locked

-- where a push puts its cell
abbrev pub put_cell : Side → Ptr × ℤ → Cells ℤ → Cells ℤ
put_cell front c xs = c ∷ xs
put_cell back c xs = xs ++ c ∷ []

pub values-put_cell :
    (s : Side) (n : Ptr) (v : ℤ) (xs : Cells ℤ)
    → values (put_cell s (n, v) xs) ≡ put s v (values xs)
unfolding put
values-put_cell front n v xs = refl
values-put_cell back n v xs = values-append xs ((n, v) ∷ [])

pub push_locked_lem :
    (s : Side) (h : Heap ℤ) (d : Deque) (n : Ptr) (v : ℤ) (xs : Cells ℤ)
    → IsDeque h d xs
    → IsOwn h n v (nodes d xs)
    → Finishes
        (λ _ g.
          IsDeque g d (put_cell s (n, v) xs) × SameOutside (nodes d (put_cell s (n, v) xs)) h g)
        (push_locked s d n h)
push_locked_lem front h d n v xs = push_front_locked_lem h d n v xs
push_locked_lem back h d n v xs = push_back_locked_lem h d n v xs

-- What a pop leaves of the cells `xs`: the cells `rest`, and a node to delete if there was one.
pub data Rest (s : Side) (h g : Heap ℤ) (d : Deque) (xs : Cells ℤ) : ℤ × Option Ptr → Type 0 where
  nothing : xs ≡ [] → IsDeque h d [] → g ≡ h → Rest s h g d xs (minus_one, none)
  found :
      (m : Ptr) (w : ℤ) (rest : Cells ℤ)
      → xs ≡ put_cell s (m, w) rest
      → IsDeque g d rest
      → IsOwn g m w (nodes d rest)
      → SameOutside (nodes d rest) h g
      → Rest s h g d xs (w, some m)

-- A list of cells is empty or has a last one.
pub data BackView : Cells ℤ → Type 0 where
  empty : BackView []
  snoc : (xs : Cells ℤ) (m : Ptr) (w : ℤ) → BackView (xs ++ (m, w) ∷ [])

pub back_view : (xs : Cells ℤ) → BackView xs
back_view [] = empty
back_view ((p, v) ∷ xs) = go (back_view xs)
  where
    go : {ys : Cells ℤ} → BackView ys → BackView ((p, v) ∷ ys)
    go empty = snoc [] p v
    go (snoc ys m w) = snoc ((p, v) ∷ ys) m w

pop_back_by :
    (h : Heap ℤ) (d : Deque) {xs : Cells ℤ}
    → BackView xs
    → IsDeque h d xs
    → Finishes (λ r g. Rest back h g d xs r) (pop_back_locked d h)
pop_back_by h d empty is = rw ((pop_locked_empty h d is).1) (finishes (nothing refl is refl))
pop_back_by h d (snoc xs m w) is =
    Finishes.weaken (pop_back_locked_lem h d m w xs is)
      λ r g p. let (e, left, own, o) = p in rw e (found m w xs refl left own o)

pub pop_locked_lem :
    (s : Side) (h : Heap ℤ) (d : Deque) (xs : Cells ℤ)
    → IsDeque h d xs
    → Finishes (λ r g. Rest s h g d xs r) (pop_locked s d h)
pop_locked_lem back h d xs is = pop_back_by h d (back_view xs) is
pop_locked_lem front h d [] is = rw ((pop_locked_empty h d is).0) (finishes (nothing refl is refl))
pop_locked_lem front h d ((m, w) ∷ xs) is =
    Finishes.weaken (pop_front_locked_lem h d m w xs is)
      λ r g p. let (e, left, own, o) = p in rw e (found m w xs refl left own o)

pub take-nil : (s : Side) → take s [] ≡ (minus_one, [])
unfolding take take_front take_back
take-nil front = refl
take-nil back = refl

take_back-append : (vs : List ℤ) (w : ℤ) → take_back (vs ++ w ∷ []) ≡ (w, vs)
unfolding take_back
take_back-append [] w = refl
take_back-append (v ∷ []) w = refl
take_back-append (v ∷ u ∷ vs) w = rw (take_back-append (u ∷ vs) w)

pub take-put_cell :
    (s : Side) (m : Ptr) (w : ℤ) (ys : Cells ℤ)
    → take s (values (put_cell s (m, w) ys)) ≡ (w, values ys)
unfolding take take_front
take-put_cell front m w ys = refl
take-put_cell back m w ys = rw (values-append ys ((m, w) ∷ [])) (take_back-append (values ys) w)

pub has-put_cell :
    (s : Side) (d : Deque) (m : Ptr) (w : ℤ) (ys : Cells ℤ) (a : Ptr)
    → has a (nodes d (put_cell s (m, w) ys)) ≡ ((a == m) || has a (nodes d ys))
has-put_cell front d m w ys a = ground arith
has-put_cell back d m w ys a = ground (
  arith,
  has-append a (ys ++ (m, w) ∷ []) ((d.tail, pos 0) ∷ []),
  has-append a ys ((m, w) ∷ []),
  has-append a ys ((d.tail, pos 0) ∷ []),
)
