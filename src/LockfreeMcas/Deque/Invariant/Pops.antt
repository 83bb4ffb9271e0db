-- ===== src/LockfreeMcas/Deque/Invariant/Pops.antt =====
-- Every command of a pop keeps the invariant, and the one that takes effect returns what the
-- specification does.
use data_structure_benchmark.Base.{
  ℕ, ◌≡◌, refl, ◌≢◌, Bool-cases, inl, inr, true, false, some, [], ◌∷◌, arith, ◌==◌, sym, subst, ap,
  ◌∙◌, fun_ext,
}
use data_structure_benchmark.Base.Int.{ℤ, minus_one, eq_int_refl}
use data_structure_benchmark.Heap.{Ptr, Node, node, write}
use data_structure_benchmark.Heap.Chain.{Cells, has}
use data_structure_benchmark.Lockbased.Deque.Contents.{put_cell, take-put_cell}
use data_structure_benchmark.Lockbased.Deque.Spec.{Side, front, back, take, take_front, take_back}
use data_structure_benchmark.Lockbased.Deque.Threads.{popped, replay}
use data_structure_benchmark.LockfreeMcas.Deque.{
  Deque, link, pick, hat, idle, pop_hat, pop_left, pop_right, pop_check, pop_try, returning, System,
  move, try_pop, behind_links,
}
use data_structure_benchmark.LockfreeMcas.Deque.Shape.{
  IsDead, Shape, hat_alive, nothing_behind, has-put_cell_self,
}
use data_structure_benchmark.LockfreeMcas.Deque.Success.{try_pop_found, try_pop_runs, try_pop_fails}
use data_structure_benchmark.LockfreeMcas.Deque.Pop.{Popped, Popped-Shape, payload_at}
use data_structure_benchmark.LockfreeMcas.Deque.Knowledge.{Extends, Self}
use data_structure_benchmark.LockfreeMcas.Deque.Writes.{
  write_other, write_same, Extends-kill, Self-kill,
}
use data_structure_benchmark.LockfreeMcas.Deque.Invariant.{Inv, move-Inv, local-Inv, other_own}
use data_structure_benchmark.LockfreeMcas.Deque.Invariant.Moves.{mine}
use data_structure_benchmark.LockfreeMcas.Deque.Invariant.Pushes.{After, has-put_cell, live_end}

module _ (dummy : Ptr) (σ : System) (xs : Cells ℤ) (i : ℕ) (inv : Inv dummy σ xs) where
  pub calls_pop-Inv :
      (s : Side) → σ.at i ≡ idle → Inv dummy (record σ { at = move σ.at i (pop_hat s) }) xs
  calls_pop-Inv s e = local-Inv dummy σ xs i inv (pop_hat s) tt (inr refl)

  pub reads_pop_hat-Inv :
      (s : Side)
      → σ.at i ≡ pop_hat s
      → Inv dummy (record σ { at = move σ.at i (pop_left s (hat s σ.deque)) }) xs
  reads_pop_hat-Inv s e =
      local-Inv dummy σ xs i inv (pop_left s (hat s σ.deque)) (hat_alive s σ.deque xs inv.shape)
        (inr refl)

  pub reads_left-Inv :
      (s : Side) (h : Ptr) (x : Node ℤ)
      → σ.at i ≡ pop_left s h
      → σ.deque.heap h ≡ some x
      → Inv dummy (record σ { at = move σ.at i (pop_right s h (link front x)) }) xs
  reads_left-Inv s h x e at =
      local-Inv dummy σ xs i inv (pop_right s h (link front x))
        ((x, at), λ same. inv.self front h x at same) (inr refl)

  -- A link that was read and points to its own node means that the node is dead.
  self_read :
      (s : Side) (h l : Ptr) (x : Node ℤ)
      → (l ≡ h → IsDead σ.deque.heap h)
      → σ.deque.heap h ≡ some x
      → pick s l (link back x) ≡ h
      → IsDead σ.deque.heap h
  self_read front h l x dead at e = dead e
  self_read back h l x dead at e = inv.self back h x at e

  pub reads_right-Inv :
      (s : Side) (h l : Ptr) (x : Node ℤ)
      → σ.at i ≡ pop_right s h l
      → σ.deque.heap h ≡ some x
      → Inv dummy (record σ { at = move σ.at i (behind_links s h l (link back x)) }) xs
  reads_right-Inv s h l x e at =
      let (alive, dead) = mine dummy σ xs i inv (pop_right s h l) e in
      elim (Bool-cases (pick s l (link back x) == h)) [
        | inl same ↦ rw same (
            local-Inv dummy σ xs i inv (pop_check s h) (self_read s h l x dead at (ground arith))
              (inr refl))
        | inr differ ↦ rw differ (
            local-Inv dummy σ xs i inv (pop_try s h l (link back x)) ((x, at), ground arith)
              (inr refl))
      ]

  pub finds_empty-After :
      (s : Side) (h : Ptr)
      → σ.at i ≡ pop_check s h
      → hat s σ.deque ≡ h
      → After dummy (record σ { at = move σ.at i idle }) (popped s minus_one ∷ []) xs
  unfolding replay take take_front take_back
  finds_empty-After s h e at =
      let dead = mine dummy σ xs i inv (pop_check s h) e in
      let nothing =
        nothing_behind s σ.deque xs inv.shape (subst (IsDead σ.deque.heap) (sym at) dead) in
      (xs, local-Inv dummy σ xs i inv idle tt (inr refl), rw (nothing, take_nil s) refl)
    where
      take_nil : (s : Side) → take s [] ≡ (minus_one, [])
      take_nil front = refl
      take_nil back = refl

  pub retries-Inv : (s : Side) → Inv dummy (record σ { at = move σ.at i (pop_hat s) }) xs
  retries-Inv s = local-Inv dummy σ xs i inv (pop_hat s) tt (inr refl)

  pub fails_pop-Inv :
      (s : Side) (h l r : Ptr)
      → (try_pop s h l r σ.deque).0 ≡ false
      → Inv dummy (record { deque = (try_pop s h l r σ.deque).1; at = move σ.at i (pop_hat s) }) xs
  fails_pop-Inv s h l r failed = rw (try_pop_fails s h l r σ.deque failed) (retries-Inv s)

  pub returns-Inv : Inv dummy (record σ { at = move σ.at i idle }) xs
  returns-Inv = local-Inv dummy σ xs i inv idle tt (inr refl)

  -- Thread `i` takes the node at the side's end out.
  popped-Inv :
      (s : Side) (h : Ptr) (x : Node ℤ) (g : Deque) (w : ℤ) (rest : Cells ℤ)
      → σ.deque.heap h ≡ some x
      → xs ≡ put_cell s (h, w) rest
      → Popped s σ.deque g h x
      → Inv dummy (record { deque = g; at = move σ.at i (returning s h x.payload) }) rest
  popped-Inv s h x g w rest at eq p =
      let c = node x.payload h h in
      let heap_is : write σ.deque.heap h (some c) ≡ g.heap = fun_ext λ q. sym (p.heap q) in
      let written : write σ.deque.heap h (some c) h ≡ some c = write_same σ.deque.heap h c in
      let h_in : has h xs ≡ true = ap (λ z. has h z) eq ∙ has-put_cell_self s h w rest in
      move-Inv dummy σ xs i inv (returning s h x.payload) g rest
        (Popped-Shape s σ.deque g h w rest x (subst (Shape σ.deque) eq inv.shape) at p)
        (subst Self heap_is (Self-kill σ.deque.heap h x.payload inv.self))
        (subst (Extends σ.deque.heap) heap_is (Extends-kill σ.deque.heap h x at))
        (node x.payload h h, ap (λ z. z h) (sym heap_is) ∙ written, refl)
        λ j q other_j f.
          let (t, u, z, own) = other_own dummy σ xs i inv j q f in
          let q_ne : q ≢ h = λ same. ground (arith, own.out, h_in, same) in
          (
            ap (λ z. z q) (sym heap_is) ∙ write_other σ.deque.heap q h c q_ne,
            sym (has-put_cell s h w rest q q_ne) ∙ ap (λ z. has q z) (sym eq) ∙ own.out,
            λ bad. cc,
          )

  -- the end of the deque that a pop found
  found_live :
      (s : Side) (h l r : Ptr) (x : Node ℤ)
      → x.prev ≡ l
      → x.next ≡ r
      → σ.deque.heap h ≡ some x
      → pick s l r ≢ h
      → ¬ IsDead σ.deque.heap h
  found_live front h l r x e f at ne (u, dead) = ne (ground arith)
  found_live back h l r x e f at ne (u, dead) = ne (ground arith)

  pub pops-After :
      (s : Side) (h l r : Ptr) (x : Node ℤ)
      → σ.at i ≡ pop_try s h l r
      → σ.deque.heap h ≡ some x
      → (try_pop s h l r σ.deque).0 ≡ true
      → After dummy
          (record {
            deque = (try_pop s h l r σ.deque).1;
            at = move σ.at i (returning s h x.payload);
          })
          (popped s x.payload ∷ [])
          xs
  unfolding replay
  pops-After s h l r x e at ok =
      let (alive, ne) = mine dummy σ xs i inv (pop_try s h l r) e in
      let (at_hat, el, er) = try_pop_found s h l r σ.deque x at ok in
      let (w, rest, eq) = live_end dummy σ xs i inv s h at_hat (found_live s h l r x el er at ne) in
      let (moved, stays, heap) = try_pop_runs s h σ.deque x at at_hat in
      let same : (try_pop s h x.prev x.next σ.deque).1 ≡ (try_pop s h l r σ.deque).1 =
        ap (λ z. (try_pop s h z x.next σ.deque).1) el ∙ ap (λ z. (try_pop s h l z σ.deque).1) er in
      let p =
        subst (λ g. Popped s σ.deque g h x) same
          (record { moved = moved; stays = stays; heap = heap }) in
      let payload_is = payload_at s σ.deque h w rest x (subst (Shape σ.deque) eq inv.shape) at in
      (
        rest,
        popped-Inv s h x (try_pop s h l r σ.deque).1 w rest at eq p,
        rw (eq, take-put_cell s h w rest, payload_is, eq_int_refl w) refl,
      )
