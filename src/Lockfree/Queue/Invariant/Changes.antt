-- ===== src/Lockfree/Queue/Invariant/Changes.antt =====
-- The commands that change the queue: a node is made, linked, passed by the tail, passed by the head.
use data_structure_benchmark.Base.{
  ℕ, ◌≡◌, refl, ◌≢◌, ◌⊎◌, Bool-cases, inl, inr, none, some, [], ◌∷◌, ◌++◌, arith, ap, sym, subst,
  ◌∙◌, ◌==◌, zero, suc, ◌+◌, ◌<◌, ◌≤◌, if◌then◌else◌,
}
use data_structure_benchmark.Base.Int.{ℤ}
use data_structure_benchmark.Heap.{Ptr, null}
use data_structure_benchmark.Lockfree.Queue.{
  Node, node, put, Queue, Place, System, move, idle, push_tail, push_swing, push_link,
}
use data_structure_benchmark.Lockfree.Queue.Order.{
  Order, Ordered, items, contents, owns, Own, Edge, Knows,
}
use data_structure_benchmark.Lockfree.Queue.Invariant.{Inv, mine, move-Inv, other-Own, advance-Inv}

pub items-snoc : (f : ℕ → ℤ) (i k : ℕ) → items f i (suc k) ≡ items f i k ++ f (i + k) ∷ []
items-snoc f i zero = ap (λ z. f z ∷ []) (omega arith)
items-snoc f i (suc k) =
    ap (λ z. f i ∷ z)
      (items-snoc f (suc i) k ∙ ap (λ z. items f (suc i) k ++ f z ∷ []) (omega arith))

pub items-same :
    (f g : ℕ → ℤ) (i k : ℕ) → ((j : ℕ) → j < i + k → f j ≡ g j) → items f i k ≡ items g i k
items-same f g i zero same = refl
items-same f g i (suc k) same =
    ground (arith, same i (omega arith), items-same f g (suc i) k λ j l. same j (omega arith))

-- the order with one more node
abbrev pub linked : Order → Ptr → ℤ → Order
linked o n v = record {
  seq = λ j. if j == suc o.len then n else o.seq j;
  val = λ j. if j == suc o.len then v else o.val j;
  len = suc o.len;
  hi = o.hi;
  k = o.k;
}

-- The nodes with one more, which only its thread has known.
linked-Ordered :
    (q : Queue) (o : Order) (n : Ptr) (v w : ℤ)
    → Ordered q o
    → Own q o n v
    → o.val o.len ≡ w
    → o.hi + o.k ≡ o.len
    → Ordered (record q { nodes = put q.nodes (o.seq o.len) (node w n) }) (linked o n v)
unfolding put
linked-Ordered q o n v w is own value at_end = record {
  held = λ j l. elim (Bool-cases (j == o.len)) [
    | inl e ↦ ground arith
    | inr e ↦
        let before : j < o.len = ground arith in
        let apart : o.seq j ≢ o.seq o.len = λ same. ground (arith, is.inj j o.len, same) in
        ground (arith, is.held j before, apart)
  ];
  end = ground (arith, own.holds, own.out o.len (omega arith));
  ne_null = λ j l. ground (arith, own.ne_null, is.ne_null j);
  inj = λ j m l l' e. ground (arith, is.inj j m, own.out j, own.out m);
  head_is = ground (arith, is.head_is);
  tail_is = ground (arith, is.tail_is);
  tail_in = omega arith;
  lag = omega arith;
}

positive : (k : ℕ) → 0 < k → (m : ℕ) × (k ≡ suc m)
positive zero l = absurd (omega arith)
positive (suc m) l = (m, refl)

module _ (σ : System) (o : Order) (i : ℕ) (inv : Inv σ o) where
  -- The tail passes the node behind it.
  pub tail-Inv :
      (t : Place) (last next : Ptr)
      → Edge o (o.hi + o.k) last next
      → σ.queue.tail ≡ last
      → Knows σ.queue o t
      → (owns t ≡ owns (σ.at i)) ⊎ (owns t ≡ none)
      → Inv
          (record { queue = record (σ.queue) { tail = next }; at = move σ.at i t })
          (record o { k = suc o.k })
  tail-Inv t last next (j, a, b, c, d) e k same =
      let j_is : j ≡ o.hi + o.k =
        inv.ordered.inj j (o.hi + o.k) (omega arith) inv.ordered.tail_in
          (c ∙ sym e ∙ inv.ordered.tail_is) in
      advance-Inv σ o i inv t σ.queue.head next o.hi (suc o.k)
        (record {
          held = inv.ordered.held;
          end = inv.ordered.end;
          ne_null = inv.ordered.ne_null;
          inj = inv.ordered.inj;
          head_is = inv.ordered.head_is;
          tail_is = sym d ∙ ap o.seq (omega arith);
          tail_in = omega arith;
          lag = omega (arith, inv.ordered.lag);
        })
        (omega arith) (omega arith) k same

  -- The head passes the node behind it.
  pub head-Inv :
      (first next : Ptr) (j : ℕ)
      → j ≤ o.hi
      → j < o.hi + o.k
      → o.seq j ≡ first
      → o.seq (suc j) ≡ next
      → σ.queue.head ≡ first
      → (m : ℕ) × (o.k ≡ suc m)
        × (j ≡ o.hi)
        × Inv
            (record { queue = record (σ.queue) { head = next }; at = move σ.at i idle })
            (record o { hi = suc o.hi; k = m })
  head-Inv first next j a b c d e =
      let j_is : j ≡ o.hi =
        inv.ordered.inj j o.hi (omega (arith, inv.ordered.tail_in))
          (omega (arith, inv.ordered.tail_in)) (c ∙ sym e ∙ inv.ordered.head_is) in
      let (m, k_is) = positive o.k (omega arith) in
      (
        m,
        k_is,
        j_is,
        advance-Inv σ o i inv idle next σ.queue.tail (suc o.hi) m
            (record {
              held = inv.ordered.held;
              end = inv.ordered.end;
              ne_null = inv.ordered.ne_null;
              inj = inv.ordered.inj;
              head_is = sym d ∙ ap (λ z. o.seq (suc z)) j_is;
              tail_is = inv.ordered.tail_is ∙ ap o.seq (omega arith);
              tail_in = omega (arith, inv.ordered.tail_in);
              lag = omega (arith, inv.ordered.lag);
            })
            (omega arith) (omega arith) tt (inr refl),
      )

  pub link-Inv :
      (n : Ptr) (v : ℤ) (last : Ptr) (x : Node)
      → σ.at i ≡ push_link n v last
      → σ.queue.nodes last ≡ some x
      → x.next ≡ null
      → (p : Order) × (contents p ≡ contents o)
        × Inv
            (record {
              queue = record (σ.queue) { nodes = put σ.queue.nodes last (node x.value n) };
              at = move σ.at i (push_swing n v last);
            })
            p
  unfolding put
  link-Inv n v last x e at is_null =
      let (own, (j, a, c)) = mine σ o i inv (push_link n v last) e in
      let at_end : j ≡ o.len = elim (Bool-cases (j == o.len)) [
        | inl same ↦ ground arith
        | inr differ ↦
            let before : j < o.len = ground (arith, inv.ordered.tail_in) in
            absurd (ground (arith, inv.ordered.held j before, inv.ordered.ne_null (suc j) before))
      ] in
      let last_is : o.seq o.len ≡ last = ap o.seq (sym at_end) ∙ c in
      let value : o.val o.len ≡ x.value = ground (arith, inv.ordered.end) in
      let tail_at : o.hi + o.k ≡ o.len = omega (arith, inv.ordered.tail_in) in
      let p = linked o n v in
      let r : Queue = record (σ.queue) {
        nodes = put σ.queue.nodes (o.seq o.len) (node x.value n);
      } in
      (
        p,
        items-same p.val o.val (suc o.hi) o.k (λ m l. ground arith),
        subst
            (λ z.
              Inv
                (record {
                  queue = record (σ.queue) { nodes = put σ.queue.nodes z (node x.value n) };
                  at = move σ.at i (push_swing n v last);
                })
                p)
            last_is
            (move-Inv σ o i inv (push_swing n v last) r p
              (linked-Ordered σ.queue o n v x.value inv.ordered own value tail_at)
              (record {
                len = omega arith;
                hi = omega arith;
                tail = omega arith;
                seq = λ m l. ground arith;
                val = λ m l. ground arith;
              })
              (o.len, omega arith, omega arith, ground arith, ground arith, ground arith)
              λ m a other_m w.
                let (u, own') = other-Own σ o i inv m a w in
                let apart : a ≢ n =
                  λ same. other_m (inv.apart m i a w (ap owns e ∙ ap some (sym same))) in
                (
                  ground (arith, own'.out o.len (omega arith)),
                  λ l b. ground (arith, own'.out l),
                  λ bad. cc,
                )),
      )

  pub made-Inv :
      (v : ℤ) (fresh : Ptr)
      → σ.at i ≡ idle
      → fresh ≢ null
      → σ.queue.nodes fresh ≡ none
      → Inv
          (record {
            queue = record (σ.queue) { nodes = put σ.queue.nodes fresh (node v null) };
            at = move σ.at i (push_tail fresh v);
          })
          o
  unfolding put
  made-Inv v fresh e p q =
      let r : Queue = record (σ.queue) { nodes = put σ.queue.nodes fresh (node v null) } in
      let out : (j : ℕ) → j ≤ o.len → o.seq j ≢ fresh = λ j l same. elim (Bool-cases (j == o.len)) [
        | inl eq ↦ ground (arith, inv.ordered.end)
        | inr eq ↦ ground (arith, inv.ordered.held j (ground arith))
      ] in
      move-Inv σ o i inv (push_tail fresh v) r o
        (record {
          held = λ j l. ground (arith, out j (omega arith), inv.ordered.held j l);
          end = ground (arith, out o.len (omega arith), inv.ordered.end);
          ne_null = inv.ordered.ne_null;
          inj = inv.ordered.inj;
          head_is = inv.ordered.head_is;
          tail_is = inv.ordered.tail_is;
          tail_in = inv.ordered.tail_in;
          lag = inv.ordered.lag;
        })
        (record {
          len = omega arith;
          hi = omega arith;
          tail = omega arith;
          seq = λ j l. refl;
          val = λ j l. refl;
        })
        (record { holds = ground arith; ne_null = p; out = out })
        λ j n other_j w.
          let (u, own) = other-Own σ o i inv j n w in
          let apart : n ≢ fresh = λ same. ground (arith, own.holds) in
          (ground arith, own.out, λ bad. ground arith)
