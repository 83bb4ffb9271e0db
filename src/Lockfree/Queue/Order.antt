-- ===== src/Lockfree/Queue/Order.antt =====
-- All the nodes that were ever linked, by their position from the first sentinel on, and what a thread
-- knows in terms of the positions.
use data_structure_benchmark.Base.{
  ℕ, ◌≡◌, refl, ◌≢◌, Option, none, some, List, [], ◌∷◌, arith, subst, ◌∙◌, zero, suc, ◌+◌, ◌<◌, ◌≤◌,
}
use data_structure_benchmark.Base.Int.{ℤ}
use data_structure_benchmark.Heap.{Ptr, null}
use data_structure_benchmark.Lockfree.Queue.{
  node, Queue, Place, idle, push_tail, push_next, push_check, push_link, push_swing, push_help,
  pop_head, pop_tail, pop_next, pop_check, pop_value, pop_help, pop_read, pop_swing,
}

-- The node at each position up to `len`, with its value; the head's position, and how far behind it the
-- tail is.
pub record Order : Type 0 where
  pub seq : ℕ → Ptr
  pub val : ℕ → ℤ
  pub len : ℕ
  pub hi : ℕ
  pub k : ℕ

-- the values at `k` positions from `i` on
abbrev pub items : (ℕ → ℤ) → ℕ → ℕ → List ℤ
items f i zero = []
items f i (suc k) = f i ∷ items f (suc i) k

-- the values between head and tail
abbrev pub contents : Order → List ℤ
contents o = items o.val (suc o.hi) o.k

-- The queue is in the order `o`: each node points to the next one, the last one to none, and the tail is
-- at most one node behind the last.
pub record Ordered (q : Queue) (o : Order) : Type 0 where
  pub held : (i : ℕ) → i < o.len → q.nodes (o.seq i) ≡ some (node (o.val i) (o.seq (suc i)))
  pub end : q.nodes (o.seq o.len) ≡ some (node (o.val o.len) null)
  pub ne_null : (i : ℕ) → i ≤ o.len → o.seq i ≢ null
  pub inj : (i j : ℕ) → i ≤ o.len → j ≤ o.len → o.seq i ≡ o.seq j → i ≡ j
  pub head_is : q.head ≡ o.seq o.hi
  pub tail_is : q.tail ≡ o.seq (o.hi + o.k)
  pub tail_in : o.hi + o.k ≤ o.len
  pub lag : o.len ≤ suc (o.hi + o.k)

-- the node that a thread has to itself
abbrev pub owns : Place → Option Ptr
owns (push_tail n v) = some n
owns (push_next n v last) = some n
owns (push_check n v last next) = some n
owns (push_link n v last) = some n
owns (push_help n v last next) = some n
owns _ = none

pub record Own (q : Queue) (o : Order) (n : Ptr) (v : ℤ) : Type 0 where
  pub holds : q.nodes n ≡ some (node v null)
  pub ne_null : n ≢ null
  pub out : (i : ℕ) → i ≤ o.len → o.seq i ≢ n

-- `p` is at a position up to `m`.
abbrev pub At : Order → ℕ → Ptr → Type 0
At o m p = (i : ℕ) × (i ≤ m) × (o.seq i ≡ p)

-- `p` is at a position up to `m`, and `q` is the node behind it.
abbrev pub Edge : Order → ℕ → Ptr → Ptr → Type 0
Edge o m p q = (i : ℕ) × (i ≤ m) × (i < o.len) × (o.seq i ≡ p) × (o.seq (suc i) ≡ q)

-- `p` is at a position up to `m`; `q` was read from it, and is null or behind it.
abbrev pub Link : Order → ℕ → Ptr → Ptr → Type 0
Link o m p q = (i : ℕ) × (i ≤ m) × (o.seq i ≡ p) × (q ≢ null → (i < o.len) × (o.seq (suc i) ≡ q))

abbrev pub Knows : Queue → Order → Place → Type 0
Knows q o idle = Unit
Knows q o (push_tail n v) = Own q o n v
Knows q o (push_next n v last) = Own q o n v × At o (o.hi + o.k) last
Knows q o (push_check n v last next) = Own q o n v × Link o (o.hi + o.k) last next
Knows q o (push_link n v last) = Own q o n v × At o (o.hi + o.k) last
Knows q o (push_swing n v last) =
    (i : ℕ) × (i ≤ o.hi + o.k)
    × (i < o.len)
    × (o.seq i ≡ last)
    × (o.seq (suc i) ≡ n)
    × (o.val (suc i) ≡ v)
Knows q o (push_help n v last next) = Own q o n v × Edge o (o.hi + o.k) last next
Knows q o pop_head = Unit
Knows q o (pop_tail first) = At o o.hi first
Knows q o (pop_next first last) =
    (i : ℕ) × (j : ℕ) × (i ≤ o.hi)
    × (i ≤ j)
    × (j ≤ o.hi + o.k)
    × (o.seq i ≡ first)
    × (o.seq j ≡ last)
Knows q o (pop_check first last next) =
    (i : ℕ) × (j : ℕ) × (i ≤ o.hi)
    × (i ≤ j)
    × (j ≤ o.hi + o.k)
    × (o.seq i ≡ first)
    × (o.seq j ≡ last)
    × (next ≢ null → (i < o.len) × (o.seq (suc i) ≡ next))
    × (i < j → next ≢ null)
Knows q o (pop_value last next) = Edge o (o.hi + o.k) last next
Knows q o (pop_help last next) = Edge o (o.hi + o.k) last next
Knows q o (pop_read first next) =
    (i : ℕ) × (i ≤ o.hi) × (i < o.hi + o.k) × (o.seq i ≡ first) × (o.seq (suc i) ≡ next)
Knows q o (pop_swing first next v) =
    (i : ℕ) × (i ≤ o.hi)
    × (i < o.hi + o.k)
    × (o.seq i ≡ first)
    × (o.seq (suc i) ≡ next)
    × (o.val (suc i) ≡ v)

-- `p` has the positions of `o` and maybe more, with the head and the tail moved on.
pub record Grows (o p : Order) : Type 0 where
  pub len : o.len ≤ p.len
  pub hi : o.hi ≤ p.hi
  pub tail : o.hi + o.k ≤ p.hi + p.k
  pub seq : (i : ℕ) → i ≤ o.len → p.seq i ≡ o.seq i
  pub val : (i : ℕ) → i ≤ o.len → p.val i ≡ o.val i

Own-keep :
    (q r : Queue) (o p : Order) (n : Ptr) (v : ℤ)
    → (r.nodes n ≡ q.nodes n)
    → ((i : ℕ) → i ≤ p.len → p.seq i ≢ n)
    → Own q o n v
    → Own r p n v
Own-keep q r o p n v same out own = record {
  holds = ground (arith, own.holds);
  ne_null = own.ne_null;
  out = out;
}

module _ (q : Queue) (o p : Order) (is : Ordered q o) (grows : Grows o p) where
  At-keep : (m m' : ℕ) (a : Ptr) → m ≤ m' → m ≤ o.len → At o m a → At p m' a
  At-keep m m' a le in_o (i, b, e) = (i, omega arith, ground (arith, grows.seq i))

  Edge-keep : (m m' : ℕ) (a b : Ptr) → m ≤ m' → Edge o m a b → Edge p m' a b
  Edge-keep m m' a b le (i, c, d, e, f) = (
    i,
    omega arith,
    omega (arith, grows.len),
    ground (arith, grows.seq i),
    ground (arith, grows.seq (suc i)),
  )

  Link-keep : (m m' : ℕ) (a b : Ptr) → m ≤ m' → m ≤ o.len → Link o m a b → Link p m' a b
  Link-keep m m' a b le in_o (i, c, e, f) = (
    i,
    omega arith,
    ground (arith, grows.seq i),
    λ ne. let (l, s) = f ne in (omega (arith, grows.len), ground (arith, grows.seq (suc i))),
  )

  -- What another thread knows stays true, if its own node is left alone.
  pub Knows-keep :
      (r : Queue) (t : Place)
      → ((n : Ptr)
          → owns t ≡ some n
          → (r.nodes n ≡ q.nodes n) × ((i : ℕ) → i ≤ p.len → p.seq i ≢ n))
      → Knows q o t
      → Knows r p t
  Knows-keep r idle own k = tt
  Knows-keep r (push_tail n v) own k = let w = own n refl in Own-keep q r o p n v w.0 w.1 k
  Knows-keep r (push_next n v last) own (k, a) =
      let w = own n refl in
      (
        Own-keep q r o p n v w.0 w.1 k,
        At-keep (o.hi + o.k) (p.hi + p.k) last grows.tail is.tail_in a,
      )
  Knows-keep r (push_check n v last next) own (k, a) =
      let w = own n refl in
      (
        Own-keep q r o p n v w.0 w.1 k,
        Link-keep (o.hi + o.k) (p.hi + p.k) last next grows.tail is.tail_in a,
      )
  Knows-keep r (push_link n v last) own (k, a) =
      let w = own n refl in
      (
        Own-keep q r o p n v w.0 w.1 k,
        At-keep (o.hi + o.k) (p.hi + p.k) last grows.tail is.tail_in a,
      )
  Knows-keep r (push_swing n v last) own (i, a, b, c, d, e) = (
    i,
    omega (arith, grows.tail),
    omega (arith, grows.len),
    ground (arith, grows.seq i),
    ground (arith, grows.seq (suc i)),
    grows.val (suc i) (omega arith) ∙ e,
  )
  Knows-keep r (push_help n v last next) own (k, a) =
      let w = own n refl in
      (Own-keep q r o p n v w.0 w.1 k, Edge-keep (o.hi + o.k) (p.hi + p.k) last next grows.tail a)
  Knows-keep r pop_head own k = tt
  Knows-keep r (pop_tail first) own k =
      At-keep o.hi p.hi first grows.hi (omega (arith, is.tail_in)) k
  Knows-keep r (pop_next first last) own (i, j, a, b, c, d, e) = (
    i,
    j,
    omega (arith, grows.hi),
    b,
    omega (arith, grows.tail),
    ground (arith, grows.seq i, is.tail_in),
    ground (arith, grows.seq j, is.tail_in),
  )
  Knows-keep r (pop_check first last next) own (i, j, a, b, c, d, e, f, g) = (
    i,
    j,
    omega (arith, grows.hi),
    b,
    omega (arith, grows.tail),
    ground (arith, grows.seq i, is.tail_in),
    ground (arith, grows.seq j, is.tail_in),
    λ ne. let (l, s) = f ne in (omega (arith, grows.len), ground (arith, grows.seq (suc i))),
    g,
  )
  Knows-keep r (pop_value last next) own k =
      Edge-keep (o.hi + o.k) (p.hi + p.k) last next grows.tail k
  Knows-keep r (pop_help last next) own k =
      Edge-keep (o.hi + o.k) (p.hi + p.k) last next grows.tail k
  Knows-keep r (pop_read first next) own (i, a, b, c, d) = (
    i,
    omega (arith, grows.hi),
    omega (arith, grows.tail),
    ground (arith, grows.seq i, is.tail_in),
    ground (arith, grows.seq (suc i), is.tail_in),
  )
  Knows-keep r (pop_swing first next v) own (i, a, b, c, d, e) = (
    i,
    omega (arith, grows.hi),
    omega (arith, grows.tail),
    ground (arith, grows.seq i, is.tail_in),
    ground (arith, grows.seq (suc i), is.tail_in),
    grows.val (suc i) (omega (arith, is.tail_in)) ∙ e,
  )

-- the node that a thread owns, as it knows it
pub Knows-Own :
    (q : Queue) (o : Order) (t : Place) (n : Ptr)
    → Knows q o t
    → owns t ≡ some n
    → (v : ℤ) × Own q o n v
Knows-Own q o idle n k e = cc
Knows-Own q o (push_tail m v) n k e = (v, subst (λ z. Own q o z v) (ground arith) k)
Knows-Own q o (push_next m v last) n (k, _) e = (v, subst (λ z. Own q o z v) (ground arith) k)
Knows-Own q o (push_check m v last x) n (k, _) e = (v, subst (λ z. Own q o z v) (ground arith) k)
Knows-Own q o (push_link m v last) n (k, _) e = (v, subst (λ z. Own q o z v) (ground arith) k)
Knows-Own q o (push_swing m v last) n k e = cc
Knows-Own q o (push_help m v last x) n (k, _) e = (v, subst (λ z. Own q o z v) (ground arith) k)
Knows-Own q o pop_head n k e = cc
Knows-Own q o (pop_tail first) n k e = cc
Knows-Own q o (pop_next first last) n k e = cc
Knows-Own q o (pop_check first last x) n k e = cc
Knows-Own q o (pop_value last x) n k e = cc
Knows-Own q o (pop_help last x) n k e = cc
Knows-Own q o (pop_read first x) n k e = cc
Knows-Own q o (pop_swing first x v) n k e = cc
