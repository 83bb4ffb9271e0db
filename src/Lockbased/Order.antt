-- ===== src/Lockbased/Order.antt =====
-- Last in, first out for the stack, first in, first out for the queue: whole runs of pushes and pops.
use data_structure_benchmark.Base.{
  suc, ◌+◌, ==_iff, Bool-cases, inl, inr, ◌≡◌, ◌≢◌, refl, ap, sym, ◌∙◌, true, false, none, List, [],
  ◌∷◌, ◌++◌, arith, ◌==◌, subst,
}
use mathlib.Core.List.{reverse, reverse_aux, append_assoc, append-nil, reverse_aux-eq}
use mathlib.Core.Path.{ap₂}
use data_structure_benchmark.Base.Lists.{length}
use data_structure_benchmark.Base.Int.{ℤ}
use data_structure_benchmark.Heap.{Ptr, null, Heap, Command, pure, ◌>>=◌, ◌>>◌}
use data_structure_benchmark.Heap.Chain.{Cells, has, values, values-append, SameOutside}
use data_structure_benchmark.Heap.Finishes
use data_structure_benchmark.Heap.Finishes.{Finishes, finishes}
use data_structure_benchmark.Lockbased.Deque
use data_structure_benchmark.Lockbased.Deque.{Deque}
use data_structure_benchmark.Lockbased.Deque.Shape.{IsDeque, nodes, not_has_of_unused}
use data_structure_benchmark.Lockbased.Deque.Spec.{Side, front, back, take, take_front}
use data_structure_benchmark.Lockbased.Deque.Contents.{put_cell, has-put_cell}
use data_structure_benchmark.Lockbased.Deque.Operations.{push-put, pop-take}
use data_structure_benchmark.Lockbased.Stack
use data_structure_benchmark.Lockbased.Queue

-- The addresses that `new` will return are distinct, not null, and hold no node.
abbrev pub Unused : Heap ℤ → Cells ℤ → Type 0
Unused h [] = Unit
Unused h ((p, v) ∷ ps) = (p ≢ null) × (h p ≡ none) × (has p ps ≡ false) × Unused h ps

-- one push for each cell of the list: its value, at its address
unfoldable pub push_all :
    (Deque → ℤ → Ptr → Command ℤ (Unit {0})) → Deque → Cells ℤ → Command ℤ (Unit {0})
push_all push d [] = pure tt
push_all push d ((p, v) ∷ ps) = do push d v p; push_all push d ps

-- as many pops as the list is long, and what they return
unfoldable pub pop_all {ℓ} :
    {A : Type ℓ} → (Deque → Command ℤ ℤ) → Deque → List A → Command ℤ (List ℤ)
pop_all pop d [] = pure []
pop_all pop d (x ∷ ps) = do v ← pop d; vs ← pop_all pop d ps; pure (v ∷ vs)

Unused-keep :
    (h g : Heap ℤ) (d : Deque) (ys ps : Cells ℤ)
    → Unused h ps
    → SameOutside (nodes d ys) h g
    → ((a : Ptr) → has a ps ≡ true → has a (nodes d ys) ≡ false)
    → Unused g ps
Unused-keep h g d ys [] u same out = tt
Unused-keep h g d ys ((p, v) ∷ ps) u same out = (
  u.0,
  same p (out p (ground arith)) ∙ u.1,
  u.2,
  Unused-keep h g d ys ps u.3 same λ a i. out a (ground arith),
)

Unused-none : (h : Heap ℤ) (ps : Cells ℤ) (a : Ptr) → Unused h ps → has a ps ≡ true → h a ≡ none
Unused-none h [] a u i = cc
Unused-none h ((p, v) ∷ ps) a u i = elim (Bool-cases (a == p)) [
  | inl e ↦ subst (λ z. h z ≡ none) (sym ((==_iff a p).0 e)) u.1
  | inr e ↦ Unused-none h ps a u.3 (ground arith)
]

Unused-out :
    (h : Heap ℤ) (d : Deque) (xs ps : Cells ℤ) (a : Ptr)
    → IsDeque h d xs
    → Unused h ps
    → has a ps ≡ true
    → has a (nodes d xs) ≡ false
Unused-out h d xs ps a is u i = not_has_of_unused h d xs a is (Unused-none h ps a u i)

after_push :
    (s : Side) (h g : Heap ℤ) (d : Deque) (p : Ptr) (v : ℤ) (xs ps : Cells ℤ)
    → IsDeque h d xs
    → Unused h ((p, v) ∷ ps)
    → SameOutside (nodes d (put_cell s (p, v) xs)) h g
    → Unused g ps
after_push s h g d p v xs ps is u same =
    Unused-keep h g d (put_cell s (p, v) xs) ps u.3 same
      λ a i. ground (arith, has-put_cell s d p v xs a, Unused-out h d xs ps a is u.3 i, u.2)

push_all-stack :
    (h : Heap ℤ) (d : Deque) (xs ps : Cells ℤ)
    → IsDeque h d xs
    → Unused h ps
    → Finishes (λ _ g. IsDeque g d (reverse_aux ps xs)) (push_all Stack.push d ps h)
unfolding push_all Stack.push
push_all-stack h d xs [] is u = finishes is
push_all-stack h d xs ((p, v) ∷ ps) is u =
    Finishes.chain (push-put front h d v p xs is u.0 u.1) λ _ g post.
      push_all-stack g d ((p, v) ∷ xs) ps post.0 (after_push front h g d p v xs ps is u post.1)

push_all-queue :
    (h : Heap ℤ) (d : Deque) (xs ps : Cells ℤ)
    → IsDeque h d xs
    → Unused h ps
    → Finishes (λ _ g. IsDeque g d (xs ++ ps)) (push_all Queue.push d ps h)
unfolding push_all Queue.push
push_all-queue h d xs [] is u = finishes (subst (IsDeque h d) (sym (append-nil xs)) is)
push_all-queue h d xs ((p, v) ∷ ps) is u =
    Finishes.chain (push-put back h d v p xs is u.0 u.1) λ _ g post.
      Finishes.weaken
        (push_all-queue g d (xs ++ (p, v) ∷ []) ps post.0
          (after_push back h g d p v xs ps is u post.1))
        λ _ f is'. subst (IsDeque f d) (append_assoc xs ((p, v) ∷ []) ps) is'

-- What a run of pops leaves: the values `vs` are out, in order, and `rest` is in.
abbrev pub Emptied : Deque → List ℤ → List ℤ → List ℤ → Heap ℤ → Type 0
Emptied d vs rest got g = (got ≡ vs) × ((ys : Cells ℤ) × IsDeque g d ys × (values ys ≡ rest))

take_front-cons :
    (v : ℤ) (vs : List ℤ) (r : ℤ) (ws : List ℤ)
    → take front (v ∷ vs) ≡ (r, ws)
    → (r ≡ v) × (ws ≡ vs)
unfolding take take_front
take_front-cons v vs r ws e = (ground arith, ground arith)

pop_all-front {ℓ} :
    {A : Type ℓ} (h : Heap ℤ) (d : Deque) (xs : Cells ℤ) (rounds : List A) (vs rest : List ℤ)
    → IsDeque h d xs
    → values xs ≡ vs ++ rest
    → length rounds ≡ length vs
    → Finishes (Emptied d vs rest) (pop_all Deque.pop_front d rounds h)
unfolding pop_all
pop_all-front h d xs [] [] rest is e n = finishes (refl, (xs, is, e))
pop_all-front h d xs [] (v ∷ vs) rest is e n = absurd (omega arith)
pop_all-front h d xs (x ∷ rounds) [] rest is e n = absurd (omega arith)
pop_all-front h d xs (x ∷ rounds) (v ∷ vs) rest is e n =
    Finishes.chain (pop-take front h d xs is) λ r g post.
      let (ys, is', t, same) = post in
      let (got, left) =
        take_front-cons v (vs ++ rest) r (values ys)
          (subst (λ z. take front z ≡ (r, values ys)) e t) in
      Finishes.chain (pop_all-front g d ys rounds vs rest is' left (omega arith))
        λ rs f q. finishes (ap₂ (λ a b. a ∷ b) got q.0, q.1)

values-reverse_aux :
    (ps xs : Cells ℤ) → values (reverse_aux ps xs) ≡ reverse_aux (values ps) (values xs)
values-reverse_aux [] xs = refl
values-reverse_aux (p ∷ ps) xs = values-reverse_aux ps (p ∷ xs)

length-values : (xs : Cells ℤ) → length (values xs) ≡ length xs
length-values [] = refl
length-values (x ∷ xs) = ap suc (length-values xs)

length-reverse_aux : (us vs : List ℤ) → length (reverse_aux us vs) ≡ length us + length vs
length-reverse_aux [] vs = omega arith
length-reverse_aux (u ∷ us) vs = omega (arith, length-reverse_aux us (u ∷ vs))

length-reverse-values : (ps : Cells ℤ) → length (reverse (values ps)) ≡ length ps
length-reverse-values ps = omega (arith, length-reverse_aux (values ps) [], length-values ps)

-- Last in, first out: on a stack in any well-formed state, push any values and pop as many; the pops
-- finish, return the values in reverse order, and leave what was there before.
pub stack_lifo :
    (h : Heap ℤ) (d : Deque) (xs ps : Cells ℤ)
    → IsDeque h d xs
    → Unused h ps
    → Finishes
        (Emptied d (reverse (values ps)) (values xs))
        ((push_all Stack.push d ps >> pop_all Stack.pop d ps) h)
unfolding Stack.pop
stack_lifo h d xs ps is u = Finishes.chain (push_all-stack h d xs ps is u) λ _ g is'.
    pop_all-front g d (reverse_aux ps xs) ps (reverse (values ps)) (values xs) is'
      (values-reverse_aux ps xs ∙ reverse_aux-eq (values ps) (values xs))
      (omega (arith, length-reverse-values ps))

-- First in, first out: on a queue in any well-formed state, push any values and pop until it is empty;
-- the pops finish, and return first what was there before and then the values, in order.
pub queue_fifo :
    (h : Heap ℤ) (d : Deque) (xs ps : Cells ℤ)
    → IsDeque h d xs
    → Unused h ps
    → Finishes
        (Emptied d (values xs ++ values ps) [])
        ((push_all Queue.push d ps >> pop_all Queue.pop d (xs ++ ps)) h)
unfolding Queue.pop
queue_fifo h d xs ps is u = Finishes.chain (push_all-queue h d xs ps is u) λ _ g is'.
    pop_all-front g d (xs ++ ps) (xs ++ ps) (values xs ++ values ps) [] is'
      (values-append xs ps ∙ sym (append-nil (values xs ++ values ps)))
      (sym (length-values (xs ++ ps)) ∙ ap length (values-append xs ps))
