-- ===== src/HtmMcas/Deque/Contract.antt =====
-- What stands between `TM_BEGIN` and `TM_END` against the list of values.
use data_structure_benchmark.Base.{
  ◌≡◌, refl, ◌≢◌, inl, inr, some, [], ◌∷◌, arith, sym, subst, ap, ◌∙◌,
}
use data_structure_benchmark.Base.Int.{ℤ}
use data_structure_benchmark.Heap.{Ptr, Node, node, null, write}
use data_structure_benchmark.Heap.Chain.{Cells, values, node_at, has-append}
use data_structure_benchmark.Lockbased.Deque.Contents.{put_cell, take-put_cell, take-nil}
use data_structure_benchmark.Lockbased.Deque.Spec.{Side, front, back, take}
use data_structure_benchmark.LockfreeMcas.Deque.{Deque, other, link, set_link, hat}
use data_structure_benchmark.LockfreeMcas.Deque.Shape.{
  IsDead, Shape, empty_hat, dead-out, side_view, hat-put_cell, has-put_cell_self, hat_alive,
}
use data_structure_benchmark.LockfreeMcas.Deque.Push.{
  Ready, Ready-relink, dead-ne-Ready, first-Shape, further-Shape, pushed_deque,
}
use data_structure_benchmark.LockfreeMcas.Deque.Pop.{Popped-Shape, payload_at}
use data_structure_benchmark.LockfreeMcas.Deque.Writes.{IsDead-kept, Shape-write, write_other}
use data_structure_benchmark.LockfreeMcas.Deque.Success.{heap-store_hat}
use data_structure_benchmark.HtmMcas.Deque.{Outcome, done, push_links, push_section, pop_section}
use data_structure_benchmark.HtmMcas.Deque.Runs.{
  push_links-empty, push_links-more, push_section_lem, popped_deque, pop_links_lem,
  popped_deque-Popped, pop_section-empty, pop_section-more,
}

-- The outcome is a return, of `r` with the cells `xs`, and the dummy is still what it was.
abbrev pub Returns : {B : Type 0} → Ptr → B → Cells ℤ → Outcome B → Type 0
Returns dummy r xs o = (g : Deque) × (o ≡ done r g) × Shape g xs × IsDead g.heap dummy

-- the outward link of the node at a side's end
end_link :
    (s : Side) (d : Deque) (m : Ptr) (w : ℤ) (rest : Cells ℤ) (x : Node ℤ)
    → Shape d (put_cell s (m, w) rest)
    → d.heap m ≡ some x
    → link s x ≢ m
end_link front d m w rest x is at e = ground (arith, is.linked.0, is.before_out)
end_link back d m w rest x is at e = ground (
  arith,
  node_at d.heap is.before is.behind rest m w [] is.linked,
  is.behind_out,
  has-append is.behind rest ((m, w) ∷ []),
)

link-node : (s : Side) (u : ℤ) (p : Ptr) → link s (node u p p) ≡ p
link-node front u p = refl
link-node back u p = refl

put_cell-nil : (s : Side) (n : Ptr) (v : ℤ) → put_cell s (n, v) [] ≡ (n, v) ∷ []
put_cell-nil front n v = refl
put_cell-nil back n v = refl

-- A dead node is not the one at a side's end.
dead-ne_end :
    (s : Side) (d : Deque) (m : Ptr) (w : ℤ) (rest : Cells ℤ) (p : Ptr)
    → Shape d (put_cell s (m, w) rest)
    → IsDead d.heap p
    → p ≢ m
dead-ne_end s d m w rest p is dead e =
    ground (arith, e, dead-out d (put_cell s (m, w) rest) p is dead, has-put_cell_self s m w rest)

end_alive :
    (s : Side) (d : Deque) (m : Ptr) (w : ℤ) (rest : Cells ℤ)
    → Shape d (put_cell s (m, w) rest)
    → (x : Node ℤ) × (d.heap m ≡ some x)
end_alive s d m w rest is =
    let (x, at) = hat_alive s d (put_cell s (m, w) rest) is in
    (x, ap (λ z. d.heap z) (sym (hat-put_cell s d m w rest is.hats)) ∙ at)

module _ (dummy : Ptr) where
  push_empty :
      (s : Side) (d : Deque) (n : Ptr) (v : ℤ)
      → Shape d []
      → IsDead d.heap dummy
      → Ready dummy d [] s n v null
      → Returns dummy tt (put_cell s (n, v) []) (push_section dummy s n d)
  push_empty s d n v is dead own =
      let (u, at) = empty_hat s d is.hats in
      let h = hat s d in
      let y = set_link (other s) null (set_link s dummy (node v null null)) in
      let c = set_link (other s) dummy y in
      let nd : (p : Ptr) → IsDead d.heap p → p ≢ n =
        λ p. dead-ne-Ready dummy s d [] n v null p own in
      let d' = record d { heap = write d.heap n (some c) } in
      let kept = IsDead-kept d.heap n c nd dummy dead in
      (
        record { heap = write d.heap n (some c); left_hat = n; right_hat = n },
        push_section_lem dummy s n d h (node u h h) refl at
            ∙ ap (λ z. push_links dummy s n h z d) (link-node s u h)
            ∙ push_links-empty dummy s n h d y own.holds,
        rw (put_cell-nil s n v) (
            first-Shape dummy s d' n v (Shape-write d n c [] is nd own.out) kept
              (Ready-relink dummy s d [] n v null dummy y own own.holds)),
        kept,
      )

  push_more :
      (s : Side) (d : Deque) (n : Ptr) (v : ℤ) (m : Ptr) (w : ℤ) (rest : Cells ℤ)
      → Shape d (put_cell s (m, w) rest)
      → IsDead d.heap dummy
      → Ready dummy d (put_cell s (m, w) rest) s n v null
      → Returns dummy tt (put_cell s (n, v) (put_cell s (m, w) rest)) (push_section dummy s n d)
  push_more s d n v m w rest is dead own =
      let xs = put_cell s (m, w) rest in
      let (x, at) = end_alive s d m w rest is in
      let y = set_link (other s) null (set_link s dummy (node v null null)) in
      let c = set_link (other s) m y in
      let nd : (p : Ptr) → IsDead d.heap p → p ≢ n =
        λ p. dead-ne-Ready dummy s d xs n v null p own in
      let d' = record d { heap = write d.heap n (some c) } in
      let n_ne : n ≢ m = λ e. ground (arith, e, own.out, has-put_cell_self s m w rest) in
      let shape = Shape-write d n c xs is nd own.out in
      let kept = IsDead-kept d.heap n c nd dummy dead in
      let at' = write_other d.heap m n c (λ e. n_ne (sym e)) ∙ at in
      let ends : (p : Ptr) → IsDead d'.heap p → p ≢ m = λ p. dead-ne_end s d' m w rest p shape in
      (
        pushed_deque dummy s d' n m x,
        push_section_lem dummy s n d m x (hat-put_cell s d m w rest is.hats) at
            ∙ push_links-more dummy s n m (link s x) d x y own.holds at n_ne
                (end_link s d m w rest x is at),
        further-Shape dummy s d' n v m w rest x shape kept
            (Ready-relink dummy s d xs n v null m y own own.holds) at',
        subst (λ h. IsDead h dummy)
            (sym
              (heap-store_hat s n (record d' { heap = write d'.heap m (some (set_link s n x)) })))
            (IsDead-kept d'.heap m (set_link s n x) ends dummy kept),
      )

  pub push_ready :
      (s : Side) (d : Deque) (xs : Cells ℤ) (n : Ptr) (v : ℤ)
      → Shape d xs
      → IsDead d.heap dummy
      → Ready dummy d xs s n v null
      → Returns dummy tt (put_cell s (n, v) xs) (push_section dummy s n d)
  push_ready s d xs n v is dead own = elim (side_view s xs) [
    | inl eq ↦
        subst (λ z. Returns dummy tt (put_cell s (n, v) z) (push_section dummy s n d)) (sym eq)
          (push_empty s d n v (subst (Shape d) eq is) dead
            (subst (λ z. Ready dummy d z s n v null) eq own))
    | inr (m, w, rest, eq) ↦
        subst (λ z. Returns dummy tt (put_cell s (n, v) z) (push_section dummy s n d)) (sym eq)
          (push_more s d n v m w rest (subst (Shape d) eq is) dead
            (subst (λ z. Ready dummy d z s n v null) eq own))
  ]

  -- what a pop from the cells `xs` returns and leaves
  abbrev pub Pops : Side → Cells ℤ → Outcome ℤ → Type 0
  Pops s xs o =
      (ys : Cells ℤ) × Returns dummy (take s (values xs)).0 ys o
      × ((take s (values xs)).1 ≡ values ys)

  pop_empty :
      (s : Side) (d : Deque) → Shape d [] → IsDead d.heap dummy → Pops s [] (pop_section s d)
  pop_empty s d is dead =
      let (u, at) = empty_hat s d is.hats in
      (
        [],
        rw (take-nil s) (d, pop_section-empty s d u (hat s d) refl at, is, dead),
        rw (take-nil s) refl,
      )

  pop_more :
      (s : Side) (d : Deque) (m : Ptr) (w : ℤ) (rest : Cells ℤ)
      → Shape d (put_cell s (m, w) rest)
      → IsDead d.heap dummy
      → Pops s (put_cell s (m, w) rest) (pop_section s d)
  pop_more s d m w rest is dead =
      let (x, at) = end_alive s d m w rest is in
      let at_hat = hat-put_cell s d m w rest is.hats in
      let g = popped_deque s d m x in
      let p = popped_deque-Popped s m d x in
      let dead_is : g.heap dummy ≡ d.heap dummy =
        p.heap dummy
        ∙ write_other d.heap dummy m (node x.payload m m)
            (dead-ne_end s d m w rest dummy is dead) in
      (
        rest,
        rw (take-put_cell s m w rest) (
          g,
          pop_section-more s d m x at_hat at (end_link s d m w rest x is at)
              ∙ pop_links_lem s m d x at
              ∙ ap (λ z. done z g) (payload_at s d m w rest x is at),
          Popped-Shape s d g m w rest x is at p,
          (dead.0, dead_is ∙ dead.1),
        ),
        rw (take-put_cell s m w rest) refl,
      )

  pub pop_ready :
      (s : Side) (d : Deque) (xs : Cells ℤ)
      → Shape d xs
      → IsDead d.heap dummy
      → Pops s xs (pop_section s d)
  pop_ready s d xs is dead = elim (side_view s xs) [
    | inl eq ↦
        subst (λ z. Pops s z (pop_section s d)) (sym eq)
          (pop_empty s d (subst (Shape d) eq is) dead)
    | inr (m, w, rest, eq) ↦
        subst (λ z. Pops s z (pop_section s d)) (sym eq)
          (pop_more s d m w rest (subst (Shape d) eq is) dead)
  ]
