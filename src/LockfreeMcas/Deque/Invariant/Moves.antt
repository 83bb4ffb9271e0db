-- ===== src/LockfreeMcas/Deque/Invariant/Moves.antt =====
-- Every command of a push keeps the invariant.
use data_structure_benchmark.Base.{
  ℕ, ◌≡◌, refl, ◌≢◌, Bool-cases, inl, inr, none, some, arith, ◌==◌, sym, subst, ap, ◌∙◌,
}
use data_structure_benchmark.Base.Int.{ℤ}
use data_structure_benchmark.Heap.{Ptr, Node, null, node, write}
use data_structure_benchmark.Heap.Chain.{Cells, not_has_of_none}
use data_structure_benchmark.Lockbased.Deque.Spec.{Side, front, back}
use data_structure_benchmark.LockfreeMcas.Deque.{
  other, link, set_link, hat, Place, idle, push_hat, push_out, push_empty, push_first, push_more,
  System, move, inwards, behind_out,
}
use data_structure_benchmark.LockfreeMcas.Deque.Shape.{IsDead, hat_alive, hat_not_own}
use data_structure_benchmark.LockfreeMcas.Deque.Push.{Ready, Ready-relink}
use data_structure_benchmark.LockfreeMcas.Deque.Knowledge.{owns, Extends, Knows}
use data_structure_benchmark.LockfreeMcas.Deque.Writes.{
  write_other, Extends-write, Self-write, Shape-write,
}
use data_structure_benchmark.LockfreeMcas.Deque.Invariant.{
  Inv, move-Inv, local-Inv, other_own, not_mine, not_dead,
}

module _ (dummy : Ptr) (σ : System) (xs : Cells ℤ) (i : ℕ) (inv : Inv dummy σ xs) where
  -- what thread `i` knows at its place
  pub mine : (p : Place) → σ.at i ≡ p → Knows dummy σ.deque xs p
  mine p e = subst (Knows dummy σ.deque xs) e (inv.knows i)

  made_links :
      (s : Side) (v : ℤ) (fresh : Ptr)
      → fresh ≢ null
      → dummy ≢ fresh
      → (t : Side) → link t (set_link s dummy (node v null null)) ≢ fresh
  made_links front v fresh p q front e = q e
  made_links front v fresh p q back e = p (sym e)
  made_links back v fresh p q front e = p (sym e)
  made_links back v fresh p q back e = q e

  made_holds :
      (s : Side) (v : ℤ)
      → set_link s dummy (node v null null)
        ≡ set_link (other s) null (set_link s dummy (node v null null))
  made_holds front v = refl
  made_holds back v = refl

  pub calls_push-Inv :
      (s : Side) (v : ℤ) (fresh : Ptr)
      → σ.at i ≡ idle
      → fresh ≢ null
      → σ.deque.heap fresh ≡ none
      → Inv dummy
          (record {
            deque = record (σ.deque) {
              heap = write σ.deque.heap fresh (some (set_link s dummy (node v null null)));
            };
            at = move σ.at i (push_hat s fresh v);
          })
          xs
  unfolding write
  calls_push-Inv s v fresh e p q =
      let c = set_link s dummy (node v null null) in
      let fresh_dead : (a : Ptr) → IsDead σ.deque.heap a → a ≢ fresh =
        λ a dead eq. ground (arith, dead.1) in
      let out =
        not_has_of_none σ.deque.heap inv.shape.before inv.shape.behind xs fresh inv.shape.linked
          q in
      let ne = fresh_dead dummy inv.dummy_dead in
      move-Inv dummy σ xs i inv (push_hat s fresh v)
        (record (σ.deque) { heap = write σ.deque.heap fresh (some c) }) xs
        (Shape-write σ.deque fresh c xs inv.shape fresh_dead out)
        (Self-write σ.deque.heap fresh c fresh_dead inv.self (made_links s v fresh p ne))
        (Extends-write σ.deque.heap fresh c fresh_dead λ x at. absurd (ground arith))
        (
          null,
          record {
            holds = ground (arith, made_holds s v);
            ne_null = p;
            ne_dummy = λ z. ne (sym z);
            out = out;
          },
        )
        λ j n other_j w.
          let (t, u, r, own) = other_own dummy σ xs i inv j n w in
          let apart : n ≢ fresh =
            λ eq. other_made t n u r own (subst (λ z. σ.deque.heap z ≡ none) (sym eq) q) in
          (ground arith, own.out, ground arith)
    where
      other_made :
          (t : Side) (n : Ptr) (u : ℤ) (r : Ptr)
          → Ready dummy σ.deque xs t n u r
          → σ.deque.heap n ≡ none
          → ⊥
      other_made t n u r own gone = ground (arith, own.holds)

  pub reads_hat-Inv :
      (s : Side) (n : Ptr) (v : ℤ)
      → σ.at i ≡ push_hat s n v
      → Inv dummy (record σ { at = move σ.at i (push_out s n v (hat s σ.deque)) }) xs
  reads_hat-Inv s n v e =
      let (q, own) = mine (push_hat s n v) e in
      local-Inv dummy σ xs i inv (push_out s n v (hat s σ.deque))
        (
          (q, own),
          hat_alive s σ.deque xs inv.shape,
          hat_not_own s σ.deque xs n inv.shape own.out (not_dead dummy σ xs i inv n (ap owns e)),
        )
        (inl (sym (ap owns e)))

  relinked_links :
      (s : Side) (n : Ptr) (v : ℤ) (q r : Ptr) (y : Node ℤ)
      → Ready dummy σ.deque xs s n v q
      → σ.deque.heap n ≡ some y
      → r ≢ n
      → (t : Side) → link t (set_link (other s) r y) ≢ n
  relinked_links front n v q r y own at ne front e = own.ne_dummy (ground (arith, own.holds))
  relinked_links front n v q r y own at ne back e = ne e
  relinked_links back n v q r y own at ne front e = ne e
  relinked_links back n v q r y own at ne back e = own.ne_dummy (ground (arith, own.holds))

  relinked_payload : (s : Side) (r : Ptr) (y : Node ℤ) → (set_link s r y).payload ≡ y.payload
  relinked_payload front r y = refl
  relinked_payload back r y = refl

  -- Thread `i` writes to its own node and moves on.
  own_write-Inv :
      (s : Side) (n : Ptr) (v : ℤ) (q r : Ptr) (y : Node ℤ) (p : Place)
      → owns (σ.at i) ≡ some n
      → Ready dummy σ.deque xs s n v q
      → σ.deque.heap n ≡ some y
      → r ≢ n
      → owns p ≡ some n
      → (Extends σ.deque.heap (write σ.deque.heap n (some (set_link (other s) r y)))
          → Knows dummy
              (record (σ.deque) { heap = write σ.deque.heap n (some (set_link (other s) r y)) })
              xs
              p)
      → Inv dummy
          (record {
            deque = record (σ.deque) {
              heap = write σ.deque.heap n (some (set_link (other s) r y));
            };
            at = move σ.at i p;
          })
          xs
  own_write-Inv s n v q r y p mine_is own at ne owned k =
      let c = set_link (other s) r y in
      let nd = not_dead dummy σ xs i inv n mine_is in
      let ext =
        Extends-write σ.deque.heap n c nd
          λ x e. relinked_payload (other s) r y ∙ ap (λ z. z.payload) (some_eq y x (sym at ∙ e)) in
      move-Inv dummy σ xs i inv p (record (σ.deque) { heap = write σ.deque.heap n (some c) }) xs
        (Shape-write σ.deque n c xs inv.shape nd own.out)
        (Self-write σ.deque.heap n c nd inv.self (relinked_links s n v q r y own at ne)) ext (k ext)
        λ j m other_j w.
          let (t, u, z, own') = other_own dummy σ xs i inv j m w in
          let apart = not_mine dummy σ xs i inv j m n other_j w mine_is in
          (write_other σ.deque.heap m n c apart, own'.out, λ bad. apart (ground (arith, owned)))
    where
      some_eq : (x y : Node ℤ) → some x ≡ some y → x ≡ y
      some_eq x y e = cc

  pub reads_out-Inv :
      (s : Side) (n : Ptr) (v : ℤ) (h : Ptr) (x y : Node ℤ)
      → σ.at i ≡ push_out s n v h
      → σ.deque.heap h ≡ some x
      → σ.deque.heap n ≡ some y
      → Inv dummy
          (record {
            deque = record (σ.deque) {
              heap =
                  write σ.deque.heap n (some (set_link (other s) (inwards dummy h (link s x)) y));
            };
            at = move σ.at i (behind_out s n v h (link s x));
          })
          xs
  reads_out-Inv s n v h x y e at_h at_n =
      let ((q, own), alive, ne) = mine (push_out s n v h) e in
      elim (Bool-cases (link s x == h)) [
        | inl same ↦ rw same (
            own_write-Inv s n v q dummy y (push_empty s n v h) (ap owns e) own at_n
              (λ z. own.ne_dummy (sym z)) refl
              λ ext. (
                Ready-relink dummy s σ.deque xs n v q dummy y own at_n,
                ext.dead h (inv.self s h x at_h (ground arith)),
              ))
        | inr differ ↦ rw differ (
            own_write-Inv s n v q h y (push_more s n v h (link s x)) (ap owns e) own at_n ne refl
              λ ext.
                let (z, at, same_payload) = ext.alive h x at_h in
                (Ready-relink dummy s σ.deque xs n v q h y own at_n, (z, at), ground arith))
      ]

  pub reads_other-Inv :
      (s : Side) (n : Ptr) (v : ℤ) (h : Ptr)
      → σ.at i ≡ push_empty s n v h
      → Inv dummy (record σ { at = move σ.at i (push_first s n v h (hat (other s) σ.deque)) }) xs
  reads_other-Inv s n v h e =
      local-Inv dummy σ xs i inv (push_first s n v h (hat (other s) σ.deque))
        (mine (push_empty s n v h) e) (inl (sym (ap owns e)))
