-- ===== src/LockfreeMcas/Deque/Push.antt =====
-- The shape of the deque behind a push.
use mathlib.Core.List.{append_assoc, append-nil}
use data_structure_benchmark.Base.{
  ◌≡◌, refl, ◌≢◌, true, false, some, [], ◌∷◌, ◌++◌, arith, sym, subst, ◌∙◌,
}
use data_structure_benchmark.Base.Int.{ℤ}
use data_structure_benchmark.Heap.{Ptr, Node, null, node, Heap, write}
use data_structure_benchmark.Heap.Chain.{
  Cells, has, Linked, frame, has-append, Linked-append, Linked-split, Distinct-middle,
  Distinct-insert, last-append,
}
use data_structure_benchmark.Lockbased.Deque.Contents.{put_cell}
use data_structure_benchmark.Lockbased.Deque.Spec.{Side, front, back}
use data_structure_benchmark.LockfreeMcas.Deque.{Deque, other, set_link, hat_of, store}
use data_structure_benchmark.LockfreeMcas.Deque.Shape.{IsDead, Hats, Shape, dead-out}

-- The new node of a push, linked outwards to the dummy and inwards to `q`, and not in the deque.
pub record Ready (dummy : Ptr) (d : Deque) (xs : Cells ℤ) (s : Side) (n : Ptr) (v : ℤ) (q : Ptr)
    : Type 0 where
  pub holds : d.heap n ≡ some (set_link (other s) q (set_link s dummy (node v null null)))
  pub ne_null : n ≢ null
  pub ne_dummy : n ≢ dummy
  pub out : has n xs ≡ false

-- A dead node is no node of the deque, and stays dead when one of those is written.
IsDead-write :
    (h : Heap ℤ) (p m : Ptr) (c : Node ℤ) (xs : Cells ℤ)
    → IsDead h p
    → has p xs ≡ false
    → has m xs ≡ true
    → IsDead (write h m (some c)) p
unfolding write
IsDead-write h p m c xs dead o i = (dead.0, ground (arith, dead.1, o, i))

out_snoc :
    (p n : Ptr) (v : ℤ) (xs : Cells ℤ)
    → has p xs ≡ false
    → p ≢ n
    → has p (xs ++ (n, v) ∷ []) ≡ false
out_snoc p n v xs o ne = ground (arith, has-append p xs ((n, v) ∷ []))

module _ (dummy : Ptr) where
  pub dead-ne-Ready :
      (s : Side) (d : Deque) (xs : Cells ℤ) (n : Ptr) (v : ℤ) (q p : Ptr)
      → Ready dummy d xs s n v q
      → IsDead d.heap p
      → p ≢ n
  dead-ne-Ready front d xs n v q p own dead e = own.ne_dummy (ground (arith, own.holds, dead.1))
  dead-ne-Ready back d xs n v q p own dead e = own.ne_dummy (ground (arith, own.holds, dead.1))

  -- what a private node becomes when its inward link is written
  pub Ready-relink :
      (s : Side) (d : Deque) (xs : Cells ℤ) (n : Ptr) (v : ℤ) (q r : Ptr) (y : Node ℤ)
      → Ready dummy d xs s n v q
      → d.heap n ≡ some y
      → Ready dummy (record d { heap = write d.heap n (some (set_link (other s) r y)) }) xs s n v r
  unfolding write
  Ready-relink front d xs n v q r y own at = record {
    holds = ground (arith, own.holds);
    ne_null = own.ne_null;
    ne_dummy = own.ne_dummy;
    out = own.out;
  }
  Ready-relink back d xs n v q r y own at = record {
    holds = ground (arith, own.holds);
    ne_null = own.ne_null;
    ne_dummy = own.ne_dummy;
    out = own.out;
  }

  pub first-Shape :
      (s : Side) (d : Deque) (n : Ptr) (v : ℤ)
      → Shape d []
      → IsDead d.heap dummy
      → Ready dummy d [] s n v dummy
      → Shape (record { heap = d.heap; left_hat = n; right_hat = n }) ((n, v) ∷ [])
  first-Shape front d n v is dead own = record {
    before = dummy;
    behind = dummy;
    linked = (own.holds, tt);
    distinct = (own.ne_null, refl, tt);
    before_dead = dead;
    behind_dead = dead;
    before_out = ground (arith, own.ne_dummy);
    behind_out = ground (arith, own.ne_dummy);
    hats = (refl, refl);
  }
  first-Shape back d n v is dead own = record {
    before = dummy;
    behind = dummy;
    linked = (own.holds, tt);
    distinct = (own.ne_null, refl, tt);
    before_dead = dead;
    behind_dead = dead;
    before_out = ground (arith, own.ne_dummy);
    behind_out = ground (arith, own.ne_dummy);
    hats = (refl, refl);
  }

  -- the deque behind a further push, where the hat's node was `x` at `m`
  abbrev pub pushed_deque : Side → Deque → Ptr → Ptr → Node ℤ → Deque
  pushed_deque s d n m x =
      store (hat_of s) n (record d { heap = write d.heap m (some (set_link s n x)) })

  front-Shape :
      (d : Deque) (n : Ptr) (v : ℤ) (m : Ptr) (w : ℤ) (rest : Cells ℤ) (x : Node ℤ)
      → Shape d ((m, w) ∷ rest)
      → IsDead d.heap dummy
      → Ready dummy d ((m, w) ∷ rest) front n v m
      → d.heap m ≡ some x
      → Shape (pushed_deque front d n m x) ((n, v) ∷ (m, w) ∷ rest)
  unfolding write
  front-Shape d n v m w rest x is dead own at =
      let dummy_out = dead-out d ((m, w) ∷ rest) dummy is dead in
      record {
        before = dummy;
        behind = is.behind;
        linked = (
          ground (arith, own.holds, own.out),
          (
            ground (arith, is.linked.0, at),
            frame d.heap (write d.heap m (some (set_link front n x))) m is.behind rest is.linked.1
                λ a i. ground (arith, is.distinct.1),
          ),
        );
        distinct = (own.ne_null, own.out, is.distinct);
        before_dead = (dead.0, ground (arith, dead.1, dummy_out));
        behind_dead = (is.behind_dead.0, ground (arith, is.behind_dead.1, is.behind_out));
        before_out = ground (arith, dummy_out, own.ne_dummy);
        behind_out = ground (arith, is.behind_out, is.behind_dead.1, own.holds, own.ne_dummy);
        hats = (refl, is.hats.1);
      }

  Hats-snoc :
      (d g : Deque) (rest : Cells ℤ) (m : Ptr) (w : ℤ) (n : Ptr) (v : ℤ)
      → g.left_hat ≡ d.left_hat
      → g.right_hat ≡ n
      → Hats d (rest ++ (m, w) ∷ [])
      → Hats g ((rest ++ (m, w) ∷ []) ++ (n, v) ∷ [])
  Hats-snoc d g [] m w n v e f hats = (e ∙ hats.0, f)
  Hats-snoc d g ((p, u) ∷ rest) m w n v e f hats =
      (e ∙ hats.0, f ∙ sym (last-append p (rest ++ (m, w) ∷ []) ((n, v) ∷ [])))

  back-Shape :
      (d : Deque) (n : Ptr) (v : ℤ) (m : Ptr) (w : ℤ) (rest : Cells ℤ) (x : Node ℤ)
      → Shape d (rest ++ (m, w) ∷ [])
      → IsDead d.heap dummy
      → Ready dummy d (rest ++ (m, w) ∷ []) back n v m
      → d.heap m ≡ some x
      → Shape (pushed_deque back d n m x) ((rest ++ (m, w) ∷ []) ++ (n, v) ∷ [])
  unfolding write
  back-Shape d n v m w rest x is dead own at =
      let xs = rest ++ (m, w) ∷ [] in
      let g : Heap ℤ = write d.heap m (some (set_link back n x)) in
      let dummy_out = dead-out d xs dummy is dead in
      let (l, r) = Linked-split d.heap is.before is.behind rest ((m, w) ∷ []) is.linked in
      let mid = Distinct-middle rest m w [] is.distinct in
      let m_in : has m xs ≡ true = ground (arith, has-append m rest ((m, w) ∷ [])) in
      let linked : Linked g is.before dummy (rest ++ (m, w) ∷ (n, v) ∷ []) =
        Linked-append g is.before dummy rest ((m, w) ∷ (n, v) ∷ [])
          (frame d.heap g is.before m rest l λ a i. ground (arith, mid.before))
          (ground (arith, r.0, at), (ground (arith, own.holds, own.out, m_in), tt)) in
      let eq = append_assoc rest ((m, w) ∷ []) ((n, v) ∷ []) in
      record {
        before = is.before;
        behind = dummy;
        linked = subst (Linked g is.before dummy) (sym eq) linked;
        distinct =
            Distinct-insert xs n v [] own.ne_null (rw (append-nil xs) own.out)
              (rw (append-nil xs) is.distinct);
        before_dead =
            IsDead-write d.heap is.before m (set_link back n x) xs is.before_dead is.before_out
              m_in;
        behind_dead = IsDead-write d.heap dummy m (set_link back n x) xs dead dummy_out m_in;
        before_out =
            out_snoc is.before n v xs is.before_out
              (dead-ne-Ready back d xs n v m is.before own is.before_dead);
        behind_out = out_snoc dummy n v xs dummy_out (dead-ne-Ready back d xs n v m dummy own dead);
        hats = Hats-snoc d (pushed_deque back d n m x) rest m w n v refl refl is.hats;
      }

  -- A push behind a node puts the new one at its side's end.
  pub further-Shape :
      (s : Side) (d : Deque) (n : Ptr) (v : ℤ) (m : Ptr) (w : ℤ) (rest : Cells ℤ) (x : Node ℤ)
      → Shape d (put_cell s (m, w) rest)
      → IsDead d.heap dummy
      → Ready dummy d (put_cell s (m, w) rest) s n v m
      → d.heap m ≡ some x
      → Shape (pushed_deque s d n m x) (put_cell s (n, v) (put_cell s (m, w) rest))
  further-Shape front d n v m w rest x is dead own at = front-Shape d n v m w rest x is dead own at
  further-Shape back d n v m w rest x is dead own at = back-Shape d n v m w rest x is dead own at
