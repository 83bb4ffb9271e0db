-- ===== src/Lockbased/HashMap/Create.antt =====
-- The constructor.
use data_structure_benchmark.Base.{
  ℕ, zero, suc, ◌<◌, ◌≤◌, ◌≡◌, refl, ◌≢◌, true, false, some, [], arith, ◌==◌, Bool-cases, inl, inr,
  subst, ◌∙◌,
}
use data_structure_benchmark.Base.Int.{pos}
use data_structure_benchmark.Heap.{
  Ptr, null, node, Heap, write, done, load, new_node, set_next, set_prev,
}
use data_structure_benchmark.Heap.Chain.{has}
use data_structure_benchmark.Heap.Finishes
use data_structure_benchmark.Heap.Finishes.{Finishes, finishes}
use data_structure_benchmark.Linked.Shape.{Holds, Holds-frame}
use data_structure_benchmark.Lockbased.HashMap.{
  HashMap, Entry, entry, table_size, construct_bucket, for_each, construct,
}
use data_structure_benchmark.Lockbased.HashMap.Table.{hd, tl, bucket, IsTable}

-- The addresses that `new` returns to the constructor are not null, and distinct.
pub record AreDistinct (m : HashMap) : Type 0 where
  pub head_ne_null : (i : ℕ) → i < table_size → m.bucket_heads i ≢ null
  pub tail_ne_null : (i : ℕ) → i < table_size → m.bucket_tails i ≢ null
  pub heads :
      (i j : ℕ) → i < table_size → j < table_size → m.bucket_heads i ≡ m.bucket_heads j → i ≡ j
  pub tails :
      (i j : ℕ) → i < table_size → j < table_size → m.bucket_tails i ≡ m.bucket_tails j → i ≡ j
  pub across : (i j : ℕ) → i < table_size → j < table_size → m.bucket_heads i ≢ m.bucket_tails j

-- `a` is no sentinel of the first `n` buckets.
abbrev pub Beside : HashMap → ℕ → Ptr → Type 0
Beside m n a = (i : ℕ) → i < n → has a (bucket m i []) ≡ false

construct_bucket_lem :
    (h : Heap Entry) (m : HashMap) (i : ℕ)
    → i < table_size
    → AreDistinct m
    → Finishes
        (λ _ g.
          Holds g (hd m i) (tl m i) [] × ((a : Ptr) → has a (bucket m i []) ≡ false → g a ≡ h a))
        (construct_bucket m i h)
unfolding construct_bucket new_node load set_next set_prev write
construct_bucket_lem h m i small d =
    let (x, y) : Ptr × Ptr = (m.bucket_heads i, m.bucket_tails i) in
    let zeroed = entry (pos 0) (pos 0) in
    let ne : x ≢ y = d.across i i small small in
    let g : Heap Entry =
      write
        (write (write (write h x (some (node zeroed null null))) y (some (node zeroed null null))) x
          (some (node zeroed y null)))
        y (some (node zeroed null x)) in
    let runs : construct_bucket m i h ≡ done tt g = ground arith in
    rw runs (
      finishes (
        record {
          linked = (ground arith, (ground arith, tt));
          distinct = (d.head_ne_null i small, ground arith, (d.tail_ne_null i small, refl, tt));
        },
        λ a o. ground arith,
      ))

apart_sentinels :
    (m : HashMap) (i j : ℕ)
    → AreDistinct m
    → i < table_size
    → j < table_size
    → i ≢ j
    → (a : Ptr) → has a (bucket m i []) ≡ true
    → has a (bucket m j []) ≡ false
apart_sentinels m i j d p q ne a n =
    ground (arith, d.heads i j p q, d.tails i j p q, d.across i j p q, d.across j i q p)

-- what the first `n` rounds leave
abbrev Built : HashMap → ℕ → Heap Entry → Heap Entry → Type 0
Built m n h g =
    ((i : ℕ) → i < n → Holds g (hd m i) (tl m i) []) × ((a : Ptr) → Beside m n a → g a ≡ h a)

for_each-Built :
    (h : Heap Entry) (m : HashMap) (n : ℕ)
    → AreDistinct m
    → n ≤ table_size
    → Finishes (λ _. Built m n h) (for_each (construct_bucket m) n h)
unfolding for_each
for_each-Built h m zero d p = finishes (λ i q. absurd (omega arith), λ a o. refl)
for_each-Built h m (suc n) d p = Finishes.chain (for_each-Built h m n d (omega arith)) λ _ g built.
    Finishes.weaken (construct_bucket_lem g m n (omega arith) d) λ _ g' new. (
      λ i q. elim (Bool-cases (i == n)) [
        | inl e ↦
            let eq : n ≡ i = ground arith in subst (λ z. Holds g' (hd m z) (tl m z) []) eq new.0
        | inr e ↦
            Holds-frame g g' (hd m i) (tl m i) [] (built.0 i (ground arith)) λ a o.
              new.1 a (apart_sentinels m i n d (omega arith) (omega arith) (ground arith) a o)
      ],
      λ a o. new.1 a (o n (omega arith)) ∙ built.1 a (λ i q. o i (omega arith)),
    )

-- The constructor, given distinct addresses that are not null, makes a table whose buckets are all
-- empty, and writes to nothing but its sentinels.
pub construct-IsTable :
    (h : Heap Entry) (m : HashMap)
    → AreDistinct m
    → Finishes
        (λ _ g. IsTable g m (λ _. []) × ((a : Ptr) → Beside m table_size a → g a ≡ h a))
        (construct m h)
unfolding construct
construct-IsTable h m d =
    Finishes.weaken (for_each-Built h m table_size d (omega arith)) λ _ g built. (
      record { held = built.0; apart = λ i j p q. apart_sentinels m i j d p q; unique = λ i q. tt },
      built.1,
    )
