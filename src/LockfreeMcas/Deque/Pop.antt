-- ===== src/LockfreeMcas/Deque/Pop.antt =====
-- The shape of the deque behind a pop.
use data_structure_benchmark.Base.{◌≡◌, false, some, [], ◌∷◌, ◌++◌, arith, ◌==◌, sym, subst, ◌∙◌}
use mathlib.Core.List.{append-nil}
use data_structure_benchmark.Base.Int.{ℤ}
use data_structure_benchmark.Heap.{Ptr, Node, node, write}
use data_structure_benchmark.Heap.Chain.{
  Cells, has, first, last, Distinct, frame, has-append, Linked-split, Distinct-middle,
}
use data_structure_benchmark.Lockbased.Deque.Contents.{put_cell}
use data_structure_benchmark.Lockbased.Deque.Spec.{Side, front, back}
use data_structure_benchmark.LockfreeMcas.Deque.{Deque, other, link, hat}
use data_structure_benchmark.LockfreeMcas.Deque.Shape.{IsDead, Hats, Shape}

-- `g` is `d` with the node at `m` dead and the hat of the side moved inwards.
pub record Popped (s : Side) (d g : Deque) (m : Ptr) (x : Node ℤ) : Type 0 where
  pub moved : hat s g ≡ link (other s) x
  pub stays : hat (other s) g ≡ hat (other s) d
  pub heap : (p : Ptr) → g.heap p ≡ write d.heap m (some (node x.payload m m)) p

Hats-tail :
    (d g : Deque) (m : Ptr) (w : ℤ) (e : Ptr) (rest : Cells ℤ)
    → Hats d ((m, w) ∷ rest)
    → g.left_hat ≡ first e rest
    → g.right_hat ≡ d.right_hat
    → IsDead g.heap e
    → IsDead g.heap m
    → Hats g rest
Hats-tail d g m w e [] hats l r dead_e dead_m =
    (subst (IsDead g.heap) (sym l) dead_e, subst (IsDead g.heap) (sym (r ∙ hats.1)) dead_m)
Hats-tail d g m w e ((q, u) ∷ rest) hats l r dead_e dead_m = (l, r ∙ hats.1)

Hats-init :
    (d g : Deque) (m : Ptr) (w : ℤ) (b : Ptr) (rest : Cells ℤ)
    → Hats d (rest ++ (m, w) ∷ [])
    → g.left_hat ≡ d.left_hat
    → g.right_hat ≡ last b rest
    → IsDead g.heap b
    → IsDead g.heap m
    → Hats g rest
Hats-init d g m w b [] hats l r dead_b dead_m =
    (subst (IsDead g.heap) (sym (l ∙ hats.0)) dead_m, subst (IsDead g.heap) (sym r) dead_b)
Hats-init d g m w b ((q, u) ∷ rest) hats l r dead_b dead_m = (l ∙ hats.0, r)

Popped-front :
    (d g : Deque) (m : Ptr) (w : ℤ) (rest : Cells ℤ) (x : Node ℤ)
    → Shape d ((m, w) ∷ rest)
    → d.heap m ≡ some x
    → Popped front d g m x
    → Shape g rest
unfolding write
Popped-front d g m w rest x is at p =
    let next_is : x.next ≡ first is.behind rest = ground (arith, is.linked.0) in
    let behind_dead : IsDead g.heap is.behind =
      (is.behind_dead.0, ground (arith, is.behind_dead.1, is.behind_out, p.heap is.behind)) in
    let m_dead : IsDead g.heap m = (x.payload, ground (arith, p.heap m)) in
    record {
      before = m;
      behind = is.behind;
      linked =
          frame d.heap g.heap m is.behind rest is.linked.1
            λ a i. ground (arith, p.heap a, is.distinct.1);
      distinct = is.distinct.2;
      before_dead = m_dead;
      behind_dead = behind_dead;
      before_out = is.distinct.1;
      behind_out = ground (arith, is.behind_out);
      hats =
          Hats-tail d g m w is.behind rest is.hats (p.moved ∙ next_is) p.stays behind_dead m_dead;
    }

Popped-back :
    (d g : Deque) (m : Ptr) (w : ℤ) (rest : Cells ℤ) (x : Node ℤ)
    → Shape d (rest ++ (m, w) ∷ [])
    → d.heap m ≡ some x
    → Popped back d g m x
    → Shape g rest
unfolding write
Popped-back d g m w rest x is at p =
    let (l, r) = Linked-split d.heap is.before is.behind rest ((m, w) ∷ []) is.linked in
    let mid = Distinct-middle rest m w [] is.distinct in
    let prev_is : x.prev ≡ last is.before rest = ground (arith, r.0) in
    let before_out : has is.before rest ≡ false =
      ground (arith, is.before_out, has-append is.before rest ((m, w) ∷ [])) in
    let before_ne : (is.before == m) ≡ false =
      ground (arith, is.before_out, has-append is.before rest ((m, w) ∷ [])) in
    let before_dead : IsDead g.heap is.before =
      (is.before_dead.0, ground (arith, is.before_dead.1, p.heap is.before)) in
    let m_dead : IsDead g.heap m = (x.payload, ground (arith, p.heap m)) in
    record {
      before = is.before;
      behind = m;
      linked = frame d.heap g.heap is.before m rest l λ a i. ground (arith, p.heap a, mid.before);
      distinct = subst Distinct (append-nil rest) mid.rest;
      before_dead = before_dead;
      behind_dead = m_dead;
      before_out = before_out;
      behind_out = mid.before;
      hats =
          Hats-init d g m w is.before rest is.hats p.stays (p.moved ∙ prev_is) before_dead m_dead;
    }

-- A pop takes the node at its side's end out.
pub Popped-Shape :
    (s : Side) (d g : Deque) (m : Ptr) (w : ℤ) (rest : Cells ℤ) (x : Node ℤ)
    → Shape d (put_cell s (m, w) rest)
    → d.heap m ≡ some x
    → Popped s d g m x
    → Shape g rest
Popped-Shape front d g m w rest x is at p = Popped-front d g m w rest x is at p
Popped-Shape back d g m w rest x is at p = Popped-back d g m w rest x is at p

-- The node at a side's end carries the payload of its cell.
pub payload_at :
    (s : Side) (d : Deque) (m : Ptr) (w : ℤ) (rest : Cells ℤ) (x : Node ℤ)
    → Shape d (put_cell s (m, w) rest)
    → d.heap m ≡ some x
    → x.payload ≡ w
payload_at front d m w rest x is at = ground (arith, is.linked.0)
payload_at back d m w rest x is at =
    let r = (Linked-split d.heap is.before is.behind rest ((m, w) ∷ []) is.linked).1 in
    ground (arith, r.0)
