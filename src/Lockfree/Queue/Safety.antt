-- ===== src/Lockfree/Queue/Safety.antt =====
-- What holds in every run of any number of threads on a queue.
use data_structure_benchmark.Base.{
  ℕ, ◌≡◌, refl, ◌≢◌, ◌⊎◌, Bool-cases, inl, inr, some, List, [], ◌∷◌, ◌++◌, arith, ap, sym, ◌∙◌,
  ◌==◌, suc, ◌+◌, ◌<◌, ◌≤◌,
}
use data_structure_benchmark.Base.Int.{ℤ, minus_one}
use data_structure_benchmark.Heap.{Ptr, null}
use data_structure_benchmark.Lockfree.Queue.{
  Nodes, put, Queue, Place, System, Event, pushed, popped, saw_empty, replay, Step, Run, construct,
  idle, push_tail, push_next, push_check, push_link, push_swing, push_help, pop_head, pop_tail,
  pop_next, pop_check, pop_value, pop_help, pop_read, pop_swing, calls_push, reads_tail, reads_next,
  checks_tail, links, fails_link, swings, fails_swing, helps, fails_help, calls_pop, reads_head,
  reads_end, reads_first, checks_head, checks_value, pop_helps, fails_pop_help, reads_value, pops,
  fails_pop, begins, continues,
}
use data_structure_benchmark.Lockfree.Queue.Order.{Order, Ordered, contents, owns, Knows}
use data_structure_benchmark.Lockfree.Queue.Invariant.{Inv, mine}
use data_structure_benchmark.Lockfree.Queue.Invariant.Changes.{link-Inv, made-Inv}
use data_structure_benchmark.Lockfree.Queue.Effects.{
  After, quiet, value_at, next_at, node_at, tail-After, head-After, end-After,
}
use data_structure_benchmark.Lockfree.Queue.Checks.{
  stays, reads_link, checks_tail-After, checks_head-After, checks_value-After, Edge-value,
}

Step-After :
    (σ : System) (o : Order) {es : List Event} {τ : System}
    → Inv σ o
    → Step σ es τ
    → After τ es (contents o)
unfolding replay
Step-After σ o inv (calls_push i v fresh e p q) =
    quiet σ o i inv _ (made-Inv σ o i inv v fresh e p q)
Step-After σ o inv (reads_tail i n v e) =
    stays σ o i inv (push_next n v σ.queue.tail)
      (mine σ o i inv (push_tail n v) e, (o.hi + o.k, omega arith, sym inv.ordered.tail_is))
      (inl (sym (ap owns e)))
Step-After σ o inv (reads_next i n v last x e at) =
    let (own, there) = mine σ o i inv (push_next n v last) e in
    stays σ o i inv (push_check n v last x.next)
      (own, reads_link σ o i inv last (o.hi + o.k) x inv.ordered.tail_in there at)
      (inl (sym (ap owns e)))
Step-After σ o inv (checks_tail i n v last next e) = checks_tail-After σ o i inv n v last next e
Step-After σ o inv (links i n v last x e at is_null) =
    let (p, same, inv') = link-Inv σ o i inv n v last x e at is_null in
    record { order = p; inv = inv'; agrees = ap some (sym same) }
Step-After σ o inv (fails_link i n v last x e at ne) =
    stays σ o i inv (push_tail n v) (mine σ o i inv (push_link n v last) e).0
      (inl (sym (ap owns e)))
Step-After σ o inv (swings i n v last e at) =
    let (j, a, b, c, d, value) = mine σ o i inv (push_swing n v last) e in
    tail-After σ o i inv idle last n v (j, a, b, c, d) value at tt (inr refl)
Step-After σ o inv (fails_swing i n v last e ne) = stays σ o i inv idle tt (inr refl)
Step-After σ o inv (helps i n v last next x e at at_next) =
    let (own, edge) = mine σ o i inv (push_help n v last next) e in
    tail-After σ o i inv (push_tail n v) last next x.value edge
      (Edge-value σ o i inv last next x edge at_next) at own (inl (sym (ap owns e)))
Step-After σ o inv (fails_help i n v last next e ne) =
    stays σ o i inv (push_tail n v) (mine σ o i inv (push_help n v last next) e).0
      (inl (sym (ap owns e)))
Step-After σ o inv (calls_pop i e) = stays σ o i inv pop_head tt (inr refl)
Step-After σ o inv (reads_head i e) =
    stays σ o i inv (pop_tail σ.queue.head) (o.hi, omega arith, sym inv.ordered.head_is) (inr refl)
Step-After σ o inv (reads_end i first e) = end-After σ o i inv first e
Step-After σ o inv (reads_first i first last x e at) =
    let (j, m, a, b, c, d, f) = mine σ o i inv (pop_next first last) e in
    let at' = ap (λ z. σ.queue.nodes z) d ∙ at in
    stays σ o i inv (pop_check first last x.next)
      (
        j,
        m,
        a,
        b,
        c,
        d,
        f,
        next_at σ o i inv j (omega (arith, inv.ordered.tail_in)) x at',
        λ l z.
            let before : j < o.len = omega (arith, inv.ordered.tail_in) in
            inv.ordered.ne_null (suc j) before (sym (node_at σ o i inv j before x at').0 ∙ z),
      )
      (inr refl)
Step-After σ o inv (checks_head i first last next e) = checks_head-After σ o i inv first last next e
Step-After σ o inv (checks_value i last next x e at) = checks_value-After σ o i inv last next x e
Step-After σ o inv (pop_helps i last next x e at at_next) =
    let edge = mine σ o i inv (pop_help last next) e in
    tail-After σ o i inv pop_head last next x.value edge
      (Edge-value σ o i inv last next x edge at_next) at tt (inr refl)
Step-After σ o inv (fails_pop_help i last next e ne) = stays σ o i inv pop_head tt (inr refl)
Step-After σ o inv (reads_value i first next x e at) =
    let (j, a, b, c, d) = mine σ o i inv (pop_read first next) e in
    stays σ o i inv (pop_swing first next x.value)
      (
        j,
        a,
        b,
        c,
        d,
        sym (
            value_at σ o i inv (suc j) (omega (arith, inv.ordered.tail_in)) x
              (ap (λ z. σ.queue.nodes z) d ∙ at)),
      )
      (inr refl)
Step-After σ o inv (pops i first next v e at) = head-After σ o i inv first next v e at
Step-After σ o inv (fails_pop i first next v e ne) = stays σ o i inv pop_head tt (inr refl)

-- a new queue, and no thread in a method
abbrev pub start : Nodes → Ptr → System
start h sentinel = record { queue = construct h sentinel; at = λ _. idle }

abbrev pub first_order : Ptr → Order
first_order sentinel = record { seq = λ j. sentinel; val = λ j. minus_one; len = 0; hi = 0; k = 0 }

start-Inv :
    (h : Nodes) (sentinel : Ptr) → sentinel ≢ null → Inv (start h sentinel) (first_order sentinel)
unfolding construct put
start-Inv h sentinel ne = record {
  ordered = record {
    held = λ j l. absurd (omega arith);
    end = ground arith;
    ne_null = λ j l. ne;
    inj = λ j m l l' e. omega arith;
    head_is = refl;
    tail_is = refl;
    tail_in = omega arith;
    lag = omega arith;
  };
  knows = λ j. tt;
  apart = λ j m n e f. cc;
}

replay-append :
    (es fs : List Event) (vs ws : List ℤ)
    → replay es vs ≡ some ws
    → replay (es ++ fs) vs ≡ replay fs ws
unfolding replay
replay-append [] fs vs ws e = ground arith
replay-append (pushed v ∷ es) fs vs ws e = replay-append es fs (vs ++ v ∷ []) ws e
replay-append (popped r ∷ es) fs [] ws e = cc
replay-append (popped r ∷ es) fs (v ∷ vs) ws e = ground (arith, replay-append es fs vs ws)
replay-append (saw_empty ∷ es) fs [] ws e = replay-append es fs [] ws e
replay-append (saw_empty ∷ es) fs (v ∷ vs) ws e = cc

Run-After :
    (h : Nodes) (sentinel : Ptr) {es : List Event} {τ : System}
    → sentinel ≢ null
    → Run (start h sentinel) es τ
    → After τ es []
unfolding replay
Run-After h sentinel ne begins = record {
  order = first_order sentinel;
  inv = start-Inv h sentinel ne;
  agrees = refl;
}
Run-After h sentinel ne (continues {es} {fs} {σ} run step) =
    let before = Run-After h sentinel ne run in
    let behind = Step-After σ before.order before.inv step in
    record {
      order = behind.order;
      inv = behind.inv;
      agrees = replay-append es fs [] (contents before.order) before.agrees ∙ behind.agrees;
    }

-- A push that has linked its node finds the tail where it was, or the tail has passed the node.
abbrev pub Passed : Queue → Order → Place → Type 0
Passed q o (push_swing n v last) =
    (q.tail ≡ last) ⊎ ((j : ℕ) × (j ≤ o.hi + o.k) × (o.seq j ≡ n) × (o.val j ≡ v))
Passed q o _ = Unit

Knows-Passed : (q : Queue) (o : Order) (t : Place) → Ordered q o → Knows q o t → Passed q o t
Knows-Passed q o (push_swing n v last) is (j, a, b, c, d, e) = elim (Bool-cases (j == o.hi + o.k)) [
  | inl same ↦ inl (is.tail_is ∙ ap o.seq (ground arith) ∙ c)
  | inr differ ↦ inr (suc j, ground arith, d, e)
]
Knows-Passed q o idle is k = tt
Knows-Passed q o (push_tail n v) is k = tt
Knows-Passed q o (push_next n v last) is k = tt
Knows-Passed q o (push_check n v last x) is k = tt
Knows-Passed q o (push_link n v last) is k = tt
Knows-Passed q o (push_help n v last x) is k = tt
Knows-Passed q o pop_head is k = tt
Knows-Passed q o (pop_tail first) is k = tt
Knows-Passed q o (pop_next first last) is k = tt
Knows-Passed q o (pop_check first last x) is k = tt
Knows-Passed q o (pop_value last x) is k = tt
Knows-Passed q o (pop_help last x) is k = tt
Knows-Passed q o (pop_read first x) is k = tt
Knows-Passed q o (pop_swing first x v) is k = tt

-- Linearizability: start any number of threads on a new queue, in whatever order their commands run;
-- the queue is well formed at every moment, and the values between its head and its tail are what the
-- operations give on a list that is empty at first, where a push takes effect when the tail passes its
-- node, a pop of a value when the head does, with that value, and a pop that returns -1 because the tail
-- that it read was the head that it had read found the list empty when it read the tail. A push whose
-- last exchange fails has had its node passed by the tail before.
pub queue_linearizable :
    (h : Nodes) (sentinel : Ptr) {es : List Event} {τ : System}
    → sentinel ≢ null
    → Run (start h sentinel) es τ
    → (o : Order) × Ordered τ.queue o
      × (replay es [] ≡ some (contents o))
      × ((i : ℕ) → Passed τ.queue o (τ.at i))
queue_linearizable h sentinel {τ = τ} ne run =
    let after = Run-After h sentinel ne run in
    (
      after.order,
      after.inv.ordered,
      after.agrees,
      λ i. Knows-Passed τ.queue after.order (τ.at i) after.inv.ordered (after.inv.knows i),
    )
