-- ===== src/LockfreeMcas/Deque/Invariant/Pushes.antt =====
-- The attempts of a push keep the invariant, and put the value at its end if they succeed.
use data_structure_benchmark.Base.{
  ℕ, ◌≡◌, refl, ◌≢◌, inl, inr, true, false, some, List, [], ◌∷◌, ◌++◌, arith, sym, subst, ap, ◌∙◌,
}
use data_structure_benchmark.Base.Int.{ℤ}
use data_structure_benchmark.Heap.{Ptr, Node, node, write}
use data_structure_benchmark.Heap.Chain.{Cells, has, values, has-append}
use data_structure_benchmark.Lockbased.Deque.Contents.{put_cell, values-put_cell}
use data_structure_benchmark.Lockbased.Deque.Spec.{Side, front, back}
use data_structure_benchmark.Lockbased.Deque.Threads.{Event, pushed, replay}
use data_structure_benchmark.LockfreeMcas.Deque.{
  Deque, link, set_link, hat, idle, push_hat, push_first, push_more, System, move, first_push,
  further_push,
}
use data_structure_benchmark.LockfreeMcas.Deque.Shape.{
  IsDead, Hats, empty_hat, Shape, nothing_behind, side_view, hat-put_cell, has-put_cell_self,
}
use data_structure_benchmark.LockfreeMcas.Deque.Success.{
  first_push_lem, first_push_fails, further_push_lem, further_push_fails, heap-store_hat,
}
use data_structure_benchmark.LockfreeMcas.Deque.Push.{
  Ready, first-Shape, pushed_deque, further-Shape,
}
use data_structure_benchmark.LockfreeMcas.Deque.Knowledge.{owns, Extends, Self}
use data_structure_benchmark.LockfreeMcas.Deque.Writes.{write_other, Extends-write, Self-write}
use data_structure_benchmark.LockfreeMcas.Deque.Invariant.{
  Inv, move-Inv, local-Inv, other_own, not_mine, Extends-refl,
}
use data_structure_benchmark.LockfreeMcas.Deque.Invariant.Moves.{mine}

-- The deque behind a command that did `es`: the invariant holds with new cells, whose values are those
-- that `es` gives on the specification.
abbrev pub After : Ptr → System → List Event → Cells ℤ → Type 0
After dummy τ es xs = (ys : Cells ℤ) × Inv dummy τ ys × (replay es (values xs) ≡ some (values ys))

pub has-put_cell :
    (s : Side) (n : Ptr) (v : ℤ) (xs : Cells ℤ) (p : Ptr)
    → p ≢ n
    → has p (put_cell s (n, v) xs) ≡ has p xs
has-put_cell front n v xs p ne = ground arith
has-put_cell back n v xs p ne = ground (arith, has-append p xs ((n, v) ∷ []))

module _ (dummy : Ptr) (σ : System) (xs : Cells ℤ) (i : ℕ) (inv : Inv dummy σ xs) where
  pub pushes_first-After :
      (s : Side) (n : Ptr) (v : ℤ) (h r : Ptr)
      → σ.at i ≡ push_first s n v h r
      → (first_push s n h r σ.deque).0 ≡ true
      → After dummy
          (record { deque = (first_push s n h r σ.deque).1; at = move σ.at i idle })
          (pushed s v ∷ [])
          xs
  unfolding replay
  pushes_first-After s n v h r e ok =
      let (own, dead) = mine dummy σ xs i inv (push_first s n v h r) e in
      let (at_hat, result) = first_push_lem s n h r σ.deque ok in
      let nothing =
        nothing_behind s σ.deque xs inv.shape (subst (IsDead σ.deque.heap) (sym at_hat) dead) in
      let shape =
        first-Shape dummy s σ.deque n v (subst (Shape σ.deque) nothing inv.shape) inv.dummy_dead
          (subst (λ z. Ready dummy σ.deque z s n v dummy) nothing own) in
      (
        put_cell s (n, v) xs,
        rw result (
            move-Inv dummy σ xs i inv idle
              (record { heap = σ.deque.heap; left_hat = n; right_hat = n }) (put_cell s (n, v) xs)
              (only s n v shape nothing) inv.self (Extends-refl dummy σ.deque.heap) tt
              λ j p other_j w.
                let (t, u, z, own') = other_own dummy σ xs i inv j p w in
                let ne = not_mine dummy σ xs i inv j p n other_j w (ap owns e) in
                (refl, has-put_cell s n v xs p ne ∙ own'.out, λ bad. cc)),
        ap some (sym (values-put_cell s n v xs)),
      )
    where
      only :
          (s : Side) (n : Ptr) (v : ℤ) {g : Deque}
          → Shape g ((n, v) ∷ [])
          → xs ≡ []
          → Shape g (put_cell s (n, v) xs)
      only front n v {g} shape eq = subst (λ z. Shape g ((n, v) ∷ z)) (sym eq) shape
      only back n v {g} shape eq = subst (λ z. Shape g (z ++ (n, v) ∷ [])) (sym eq) shape

  pub fails_first-Inv :
      (s : Side) (n : Ptr) (v : ℤ) (h r : Ptr)
      → σ.at i ≡ push_first s n v h r
      → (first_push s n h r σ.deque).0 ≡ false
      → Inv dummy
          (record { deque = (first_push s n h r σ.deque).1; at = move σ.at i (push_hat s n v) })
          xs
  fails_first-Inv s n v h r e failed =
      let (own, dead) = mine dummy σ xs i inv (push_first s n v h r) e in
      rw (first_push_fails s n h r σ.deque failed)
        (local-Inv dummy σ xs i inv (push_hat s n v) (dummy, own) (inl (sym (ap owns e))))

  pub fails_more-Inv :
      (s : Side) (n : Ptr) (v : ℤ) (h o : Ptr)
      → σ.at i ≡ push_more s n v h o
      → (further_push s n h o σ.deque).0 ≡ false
      → Inv dummy
          (record { deque = (further_push s n h o σ.deque).1; at = move σ.at i (push_hat s n v) })
          xs
  fails_more-Inv s n v h o e failed =
      let (own, alive, ne) = mine dummy σ xs i inv (push_more s n v h o) e in
      rw (further_push_fails s n h o σ.deque failed)
        (local-Inv dummy σ xs i inv (push_hat s n v) (h, own) (inl (sym (ap owns e))))

  some_inj : {x y : Node ℤ} → some x ≡ some y → x ≡ y
  some_inj e = cc

  -- the links of the node at a side's end behind a push
  end_links :
      (s : Side) (n h : Ptr) (x : Node ℤ)
      → σ.deque.heap h ≡ some x
      → n ≢ h
      → ¬ IsDead σ.deque.heap h
      → (t : Side) → link t (set_link s n x) ≢ h
  end_links front n h x at ne live front e = ne e
  end_links front n h x at ne live back e = live (inv.self back h x at e)
  end_links back n h x at ne live front e = live (inv.self front h x at e)
  end_links back n h x at ne live back e = ne e

  payload-set_link : (s : Side) (n : Ptr) (x : Node ℤ) → (set_link s n x).payload ≡ x.payload
  payload-set_link front n x = refl
  payload-set_link back n x = refl

  -- the side's end, if its node is alive
  pub live_end :
      (s : Side) (h : Ptr)
      → hat s σ.deque ≡ h
      → ¬ IsDead σ.deque.heap h
      → (w : ℤ) × (rest : Cells ℤ) × (xs ≡ put_cell s (h, w) rest)
  live_end s h at live = elim (side_view s xs) [
    | inl none_left ↦ absurd (
        live (
          subst (IsDead σ.deque.heap) at
            (empty_hat s σ.deque (subst (Hats σ.deque) none_left inv.shape.hats))))
    | inr (m, w, rest, eq) ↦
        let same : m ≡ h =
          sym (hat-put_cell s σ.deque m w rest (subst (Hats σ.deque) eq inv.shape.hats)) ∙ at in
        (w, rest, eq ∙ ap (λ z. put_cell s (z, w) rest) same)
  ]

  further-After :
      (s : Side) (n : Ptr) (v : ℤ) (h : Ptr) (x : Node ℤ) (w : ℤ) (rest : Cells ℤ)
      → owns (σ.at i) ≡ some n
      → Ready dummy σ.deque xs s n v h
      → σ.deque.heap h ≡ some x
      → ¬ IsDead σ.deque.heap h
      → xs ≡ put_cell s (h, w) rest
      → Inv dummy
          (record { deque = pushed_deque dummy s σ.deque n h x; at = move σ.at i idle })
          (put_cell s (n, v) xs)
  further-After s n v h x w rest owned own at live eq =
      let c = set_link s n x in
      let g = pushed_deque dummy s σ.deque n h x in
      let heap_is : write σ.deque.heap h (some c) ≡ g.heap =
        sym (heap-store_hat s n (record (σ.deque) { heap = write σ.deque.heap h (some c) })) in
      let h_in : has h xs ≡ true = ap (λ z. has h z) eq ∙ has-put_cell_self s h w rest in
      let nd : (p : Ptr) → IsDead σ.deque.heap p → p ≢ h =
        λ p dead same. live (subst (IsDead σ.deque.heap) same dead) in
      let n_ne : n ≢ h = λ same. ground (arith, own.out, h_in, same) in
      let shape =
        further-Shape dummy s σ.deque n v h w rest x (subst (Shape σ.deque) eq inv.shape)
          inv.dummy_dead (subst (λ z. Ready dummy σ.deque z s n v h) eq own) at in
      move-Inv dummy σ xs i inv idle g (put_cell s (n, v) xs)
        (subst (λ z. Shape g (put_cell s (n, v) z)) (sym eq) shape)
        (subst Self heap_is
          (Self-write σ.deque.heap h c nd inv.self (end_links s n h x at n_ne live)))
        (subst (Extends σ.deque.heap) heap_is (
          Extends-write σ.deque.heap h c nd
            λ y e. payload-set_link s n x ∙ ap (λ z. z.payload) (some_inj (sym at ∙ e))))
        tt
        λ j p other_j f.
          let (t, u, z, own') = other_own dummy σ xs i inv j p f in
          let ne = not_mine dummy σ xs i inv j p n other_j f owned in
          let p_ne : p ≢ h = λ same. ground (arith, own'.out, h_in, same) in
          (
            ap (λ z. z p) (sym heap_is) ∙ write_other σ.deque.heap p h c p_ne,
            has-put_cell s n v xs p ne ∙ own'.out,
            λ bad. cc,
          )

  pub pushes_more-After :
      (s : Side) (n : Ptr) (v : ℤ) (h o : Ptr)
      → σ.at i ≡ push_more s n v h o
      → (further_push s n h o σ.deque).0 ≡ true
      → After dummy
          (record { deque = (further_push s n h o σ.deque).1; at = move σ.at i idle })
          (pushed s v ∷ [])
          xs
  unfolding replay
  pushes_more-After s n v h o e ok =
      let (own, (x, at), ne) = mine dummy σ xs i inv (push_more s n v h o) e in
      let (at_hat, at_link, result) = further_push_lem s n h o σ.deque x at ok in
      let live : ¬ IsDead σ.deque.heap h = λ (u, dead).
        ne (sym at_link ∙ ap (λ z. link s z) (some_inj (sym at ∙ dead)) ∙ link-node s u h) in
      let (w, rest, eq) = live_end s h at_hat live in
      (
        put_cell s (n, v) xs,
        rw result (further-After s n v h x w rest (ap owns e) own at live eq),
        ap some (sym (values-put_cell s n v xs)),
      )
    where
      link-node : (s : Side) (u : ℤ) (p : Ptr) → link s (node u p p) ≡ p
      link-node front u p = refl
      link-node back u p = refl
