-- ===== src/Lockfree/SpscQueue/Safety.antt =====
-- What holds in every run of a producer and a consumer.
use data_structure_benchmark.Base.{
  ◌≡◌, refl, none, some, List, [], ◌∷◌, ◌++◌, arith, ap, ◌∙◌, suc, ◌<◌,
}
use data_structure_benchmark.Base.Int.{ℤ, pos}
use data_structure_benchmark.Heap.{Ptr, null}
use data_structure_benchmark.Lockfree.SpscQueue.{
  Nodes, Node, node, put, System, Event, pushed, popped, found_empty, replay, Producer, Consumer,
  Step, Run, construct, resting, load_tail, store_data, store_next, store_tail, waiting, test_tail,
  load_next, store_head, load_data, delete_node, calls_push, loads_tail, stores_data, stores_next,
  stores_tail, loads_head, finds_empty, finds_node, loads_next, stores_head, loads_data, deletes,
  begins, continues,
}
use data_structure_benchmark.Lockfree.SpscQueue.Order.{
  Order, len, Produces, Consumes, Inv, contents, After, quiet,
}
use data_structure_benchmark.Lockfree.SpscQueue.Pushes.{
  producer_at, calls_push-Inv, loads_tail-Inv, writes_tail-Inv, stores_tail-After,
}
use data_structure_benchmark.Lockfree.SpscQueue.Pops.{
  consumer_at, consumes-Inv, finds_empty-After, finds_node-Inv, loads_next-Inv, loads_data-After,
  deletes-Inv,
}

Step-After :
    (σ : System) (o : Order) {es : List Event} {τ : System}
    → Inv σ o
    → Step σ es τ
    → After τ es (contents o)
unfolding replay
Step-After σ o inv (calls_push v p e ne free) = quiet _ o (calls_push-Inv σ o inv v p e free)
Step-After σ o inv (loads_tail p v e) = quiet _ o (loads_tail-Inv σ o inv p v e)
Step-After σ o inv (stores_data p v old x e at) =
    let (at_end, fresh, old_is) = producer_at σ o inv (store_data p v old) e in
    let next_is : x.next ≡ null = ground arith in
    quiet _ o (
      writes_tail-Inv σ o inv p old (node (some v) x.next) (store_next p v old) fresh old_is
        λ h at' fresh'. (at' ∙ ap (λ z. some (node (some v) z)) next_is, fresh', old_is))
Step-After σ o inv (stores_next p v old x e at) =
    let (at_end, fresh, old_is) = producer_at σ o inv (store_next p v old) e in
    let data_is : x.data_ ≡ some v = ground arith in
    quiet _ o (
      writes_tail-Inv σ o inv p old (node x.data_ p) (store_tail p v old) fresh old_is
        λ h at' fresh'. (at' ∙ ap (λ z. some (node z p)) data_is, fresh', old_is))
Step-After σ o inv (stores_tail p v old e) = stores_tail-After σ o inv p v old e
Step-After σ o inv (loads_head e) =
    let (a, b) = consumer_at σ o inv waiting e in
    quiet _ o (consumes-Inv σ o inv σ.head (test_tail σ.head) (a, b, b))
Step-After σ o inv (finds_empty old e same) = finds_empty-After σ o inv old e same
Step-After σ o inv (finds_node old e ne) = quiet _ o (finds_node-Inv σ o inv old e ne)
Step-After σ o inv (loads_next old x e at) = quiet _ o (loads_next-Inv σ o inv old x e at)
Step-After σ o inv (stores_head old new e) =
    let (a, b, c, d) = consumer_at σ o inv (store_head old new) e in
    quiet _ o (consumes-Inv σ o inv new (load_data old) (a, b, c, d))
Step-After σ o inv (loads_data old x e at) = loads_data-After σ o inv old x e at
Step-After σ o inv (deletes old e) = quiet' (deletes-Inv σ o inv old e)
  where
    quiet' : {τ : System} → Inv τ (record o { base = suc o.base }) → After τ [] (contents o)
    quiet' {τ} after = quiet τ (record o { base = suc o.base }) after

first_order : Ptr → Order
first_order first = record { seq = λ i. first; val = λ i. pos 0; base = 0; from = 0; k = 0 }

start-Inv : (h : Nodes) (first : Ptr) → Inv (construct h first) (first_order first)
unfolding construct put first_order
start-Inv h first = record {
  held = λ i l r. absurd (omega arith);
  inj = λ i j (l, r) (l', r') e. omega arith;
  tail_is = refl;
  produces = ground arith;
  consumes = (refl, refl);
  base_le = omega arith;
}

replay-append :
    (es fs : List Event) (vs ws : List ℤ)
    → replay es vs ≡ some ws
    → replay (es ++ fs) vs ≡ replay fs ws
unfolding replay
replay-append [] fs vs ws e = ground arith
replay-append (pushed v ∷ es) fs vs ws e = replay-append es fs (vs ++ v ∷ []) ws e
replay-append (popped r ∷ es) fs [] ws e = cc
replay-append (popped none ∷ es) fs (v ∷ vs) ws e = cc
replay-append (popped (some r) ∷ es) fs (v ∷ vs) ws e = ground (arith, replay-append es fs vs ws)
replay-append (found_empty ∷ es) fs [] ws e = replay-append es fs [] ws e
replay-append (found_empty ∷ es) fs (v ∷ vs) ws e = cc

Run-After :
    (h : Nodes) (first : Ptr) {es : List Event} {τ : System}
    → Run (construct h first) es τ
    → After τ es []
unfolding replay first_order
Run-After h first begins = record {
  order = first_order first;
  inv = start-Inv h first;
  agrees = refl;
}
Run-After h first (continues {es} {fs} {σ} run step) =
    let before = Run-After h first run in
    let behind = Step-After σ before.order before.inv step in
    record {
      order = behind.order;
      inv = behind.inv;
      agrees = replay-append es fs [] (contents before.order) before.agrees ∙ behind.agrees;
    }

-- The node that the next command of the producer, or of the consumer, reads, writes or deletes lives.
abbrev pub Lives : Nodes → Ptr → Type 0
Lives h p = (x : Node) × (h p ≡ some x)

abbrev pub ProducerSafe : Nodes → Producer → Type 0
ProducerSafe h (store_data p v old) = Lives h old
ProducerSafe h (store_next p v old) = Lives h old
ProducerSafe h _ = Unit

abbrev pub ConsumerSafe : Nodes → Consumer → Type 0
ConsumerSafe h (load_next old) = Lives h old
ConsumerSafe h (load_data old) = Lives h old
ConsumerSafe h (delete_node old) = Lives h old
ConsumerSafe h _ = Unit

Produces-ProducerSafe : (h : Nodes) (o : Order) (t : Producer) → Produces h o t → ProducerSafe h t
Produces-ProducerSafe h o resting k = tt
Produces-ProducerSafe h o (load_tail p v) k = tt
Produces-ProducerSafe h o (store_data p v old) (at, fresh, e) = (_, ap h e ∙ at)
Produces-ProducerSafe h o (store_next p v old) (at, fresh, e) = (_, ap h e ∙ at)
Produces-ProducerSafe h o (store_tail p v old) k = tt

module _ (σ : System) (o : Order) (inv : Inv σ o) where
  base-Lives : o.base < len o → (p : Ptr) → p ≡ o.seq o.base → Lives σ.nodes p
  base-Lives l p e = (_, ap σ.nodes e ∙ inv.held o.base (omega arith) l)

  Consumes-ConsumerSafe : (t : Consumer) → Consumes σ.head o t → ConsumerSafe σ.nodes t
  Consumes-ConsumerSafe waiting k = tt
  Consumes-ConsumerSafe (test_tail old) k = tt
  Consumes-ConsumerSafe (load_next old) (a, b, c, d) = base-Lives (omega arith) old c
  Consumes-ConsumerSafe (store_head old new) k = tt
  Consumes-ConsumerSafe (load_data old) (a, b, c, d) = base-Lives (omega arith) old b
  Consumes-ConsumerSafe (delete_node old) (a, b, c) = base-Lives (omega arith) old b

-- The queue of one producer and one consumer, from its constructor on and however their commands
-- interleave: the pops give the values in the order of the pushes, with data that is not null, and find
-- the queue empty only when it is; a push takes effect when it stores the tail, a pop when it reads the
-- data. No command of either reads, writes or deletes a node that the consumer has deleted.
pub spsc_linearizable :
    (h : Nodes) (first : Ptr) {es : List Event} {τ : System}
    → Run (construct h first) es τ
    → ((vs : List ℤ) × (replay es [] ≡ some vs))
      × ProducerSafe τ.nodes τ.producer
      × ConsumerSafe τ.nodes τ.consumer
spsc_linearizable h first {τ = τ} run =
    let after = Run-After h first run in
    (
      (contents after.order, after.agrees),
      Produces-ProducerSafe τ.nodes after.order τ.producer after.inv.produces,
      Consumes-ConsumerSafe τ after.order after.inv τ.consumer after.inv.consumes,
    )
