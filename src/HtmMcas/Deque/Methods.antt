-- ===== src/HtmMcas/Deque/Methods.antt =====
-- The methods against the list of values.
use data_structure_benchmark.Base.{
  ◌≡◌, refl, ◌≢◌, none, some, [], ◌∷◌, ◌++◌, arith, sym, subst, ap, ◌∙◌,
}
use data_structure_benchmark.Base.Int.{ℤ}
use data_structure_benchmark.Heap.{Ptr, node, null, write}
use data_structure_benchmark.Heap.Chain.{Cells, values, not_has_of_none, values-append}
use data_structure_benchmark.Lockbased.Deque.Contents.{put_cell}
use data_structure_benchmark.Lockbased.Deque.Spec.{Side, front, back, take, take_front}
use data_structure_benchmark.LockfreeMcas.Deque.{Deque, other, set_link}
use data_structure_benchmark.LockfreeMcas.Deque.Shape.{IsDead, Shape}
use data_structure_benchmark.LockfreeMcas.Deque.Push.{Ready}
use data_structure_benchmark.LockfreeMcas.Deque.Writes.{IsDead-kept, Shape-write, write_same}
use data_structure_benchmark.Tm.{Answers, undecided, begin}
use data_structure_benchmark.HtmMcas.Deque.{
  done, ◌>>◌, stack_push, stack_pop, queue_push, queue_pop, push_section, pop_section, make_node,
  push, pop,
}
use data_structure_benchmark.HtmMcas.Deque.Runs.{transaction_runs}
use data_structure_benchmark.HtmMcas.Deque.Contract.{Returns, Pops, push_ready, pop_ready}

module _ (dummy : Ptr) where
  made_holds :
      (s : Side) (v : ℤ)
      → set_link s dummy (node v null null)
        ≡ set_link (other s) null (set_link s dummy (node v null null))
  made_holds front v = refl
  made_holds back v = refl

  -- `new Node()` makes a node that is ready and leaves the deque as it was.
  make_node_lem :
      (s : Side) (d : Deque) (xs : Cells ℤ) (v : ℤ) (fresh : Ptr)
      → Shape d xs
      → IsDead d.heap dummy
      → fresh ≢ null
      → d.heap fresh ≡ none
      → (g : Deque) × (make_node dummy s v fresh d ≡ done tt g)
        × Shape g xs
        × IsDead g.heap dummy
        × Ready dummy g xs s fresh v null
  unfolding make_node
  make_node_lem s d xs v fresh is dead p q =
      let c = set_link s dummy (node v null null) in
      let nd : (a : Ptr) → IsDead d.heap a → a ≢ fresh = λ a (u, at) e. ground (arith, at, e) in
      let out = not_has_of_none d.heap is.before is.behind xs fresh is.linked q in
      (
        record d { heap = write d.heap fresh (some c) },
        refl,
        Shape-write d fresh c xs is nd out,
        IsDead-kept d.heap fresh c nd dummy dead,
        record {
          holds = write_same d.heap fresh c ∙ ap some (made_holds s v);
          ne_null = p;
          ne_dummy = λ e. nd dummy dead (sym e);
          out = out;
        },
      )

  push_lem :
      (tries : Answers) (s : Side) (d : Deque) (xs : Cells ℤ) (v : ℤ) (fresh : Ptr)
      → Shape d xs
      → IsDead d.heap dummy
      → begin tries ≢ undecided
      → fresh ≢ null
      → d.heap fresh ≡ none
      → Returns dummy tt (put_cell s (fresh, v) xs) (push tries dummy s v fresh d)
  unfolding push
  push_lem tries s d xs v fresh is dead decided p q =
      let (d', made, is', dead', own) = make_node_lem s d xs v fresh is dead p q in
      let (g, ran, shape, dead'') = push_ready dummy s d' xs fresh v is' dead' own in
      (g, rw (made, transaction_runs tries (push_section dummy s fresh) decided) ran, shape, dead'')

  -- Each method, on any deque with the cells `xs`, once `TM_BEGIN` has returned: a push of either kind
  -- of a fresh node returns and puts its value at its end; a pop of either kind returns the value at its
  -- end and leaves the others in order, or returns -1 from an empty deque.
  pub methods-Returns :
      (tries : Answers) (s : Side) (d : Deque) (xs : Cells ℤ) (v : ℤ) (fresh : Ptr)
      → Shape d xs
      → IsDead d.heap dummy
      → begin tries ≢ undecided
      → fresh ≢ null
      → d.heap fresh ≡ none
      → Returns dummy tt (put_cell s (fresh, v) xs) (push tries dummy s v fresh d)
        × Pops dummy s xs (pop tries s d)
  unfolding pop
  methods-Returns tries s d xs v fresh is dead decided p q = (
    push_lem tries s d xs v fresh is dead decided p q,
    rw (transaction_runs tries (pop_section s) decided) (pop_ready dummy s d xs is dead),
  )

  -- a push at one side and then a pop at another
  push-pop :
      (tries more : Answers) (s t : Side) (d : Deque) (xs : Cells ℤ) (v : ℤ) (fresh : Ptr)
      → Shape d xs
      → IsDead d.heap dummy
      → begin tries ≢ undecided
      → begin more ≢ undecided
      → fresh ≢ null
      → d.heap fresh ≡ none
      → Pops dummy t (put_cell s (fresh, v) xs) ((push tries dummy s v fresh >> pop more t) d)
  unfolding pop
  push-pop tries more s t d xs v fresh is dead decided decided' p q =
      let (g, ran, is', dead') = push_lem tries s d xs v fresh is dead decided p q in
      rw (ran, transaction_runs more (pop_section t) decided')
        (pop_ready dummy t g (put_cell s (fresh, v) xs) is' dead')

  -- A push and then a pop: on a stack they return the value that was pushed and leave the values as they
  -- were; on a queue they return its oldest value, which is the one pushed if there was none.
  pub stack_push-stack_pop :
      (tries more : Answers) (d : Deque) (xs : Cells ℤ) (v : ℤ) (fresh : Ptr)
      → Shape d xs
      → IsDead d.heap dummy
      → begin tries ≢ undecided
      → begin more ≢ undecided
      → fresh ≢ null
      → d.heap fresh ≡ none
      → ((ys : Cells ℤ) × Returns dummy v ys ((stack_push tries dummy v fresh >> stack_pop more) d)
          × (values ys ≡ values xs))
        × ((zs : Cells ℤ) × Returns dummy
              (take front (values xs ++ v ∷ [])).0
              zs
              ((queue_push tries dummy v fresh >> queue_pop more) d)
            × ((take front (values xs ++ v ∷ [])).1 ≡ values zs))
  unfolding stack_push stack_pop queue_push queue_pop take take_front
  stack_push-stack_pop tries more d xs v fresh is dead decided decided' p q =
      let (ys, ran, left) =
        push-pop tries more front front d xs v fresh is dead decided decided' p q in
      (
        (ys, ran, sym left),
        subst
            (λ vs.
              (zs : Cells ℤ) × Returns dummy (take front vs).0 zs
                ((push tries dummy back v fresh >> pop more front) d)
              × ((take front vs).1 ≡ values zs))
            (values-append xs ((fresh, v) ∷ []))
            (push-pop tries more back front d xs v fresh is dead decided decided' p q),
      )
