-- ===== src/Lockbased/HashMap/Destroy.antt =====
-- The destructor.
use data_structure_benchmark.Base.{
  ℕ, zero, suc, ◌<◌, ◌≤◌, ◌≡◌, refl, true, false, none, some, [], ◌∷◌, arith, ◌==◌, Bool-cases, inl,
  inr, subst,
}
use data_structure_benchmark.Base.Lists.{length}
use data_structure_benchmark.Heap.{Ptr, null, node, Heap, write}
use data_structure_benchmark.Heap.Access.{load_ok, delete_ok}
use data_structure_benchmark.Heap.Chain.{
  Cells, has, first, last, has-append, node_at, Distinct-middle,
}
use data_structure_benchmark.Heap.Finishes
use data_structure_benchmark.Heap.Finishes.{Finishes, finishes}
use data_structure_benchmark.Linked.Destroy.{Without, destroy_loop-Without}
use data_structure_benchmark.Linked.Shape.{Holds, Holds-frame, head_at}
use data_structure_benchmark.Lockbased.HashMap.{
  HashMap, Entry, table_size, destroy_bucket, for_each, destroy,
}
use data_structure_benchmark.Lockbased.HashMap.Table.{hd, tl, bucket, IsTable}

destroy_bucket-Without :
    (h : Heap Entry) (m : HashMap) (i : ℕ) (xs : Cells Entry) (fuel : ℕ)
    → Holds h (hd m i) (tl m i) xs
    → length xs < fuel
    → Finishes (λ _. Without (bucket m i xs) h) (destroy_bucket fuel m i h)
unfolding destroy_bucket write
destroy_bucket-Without h m i xs fuel is enough =
    let (x, y) : Ptr × Ptr = (m.bucket_heads i, m.bucket_tails i) in
    rw (load_ok h x (head_at h (hd m i) (tl m i) xs is)) (
      Finishes.chain (destroy_loop-Without fuel h (tl m i) x xs is.linked.1 is.distinct.2 enough)
        λ _ g gone.
          let mid = Distinct-middle (hd m i ∷ xs) y (tl m i).1 [] is.distinct in
          let at_tail = node_at h null null (hd m i ∷ xs) y (tl m i).1 [] is.linked in
          let out = is.distinct.1 in
          let split = has-append x xs (tl m i ∷ []) in
          let tail_alive : g y ≡ some (node (tl m i).1 null (last x xs)) =
            ground (arith, gone y, at_tail, mid.before) in
          let head_alive : write g y none x ≡ some (node (hd m i).1 (first y xs) null) =
            ground (arith, gone x, head_at h (hd m i) (tl m i) xs is, out, split) in
          rw (delete_ok g y tail_alive, delete_ok (write g y none) x head_alive)
            (finishes λ a. ground (arith, gone a, has-append a xs (tl m i ∷ []))))

Without-stays :
    (xs : Cells Entry) (h g : Heap Entry) (a : Ptr) → Without xs h g → h a ≡ none → g a ≡ none
Without-stays xs h g a less gone = ground (arith, less a)

-- what the first `n` rounds leave
abbrev Gone : HashMap → (ℕ → Cells Entry) → ℕ → Heap Entry → Heap Entry → Type 0
Gone m cells n h g =
    ((i : ℕ) (a : Ptr) → i < n → has a (bucket m i (cells i)) ≡ true → g a ≡ none)
    × ((a : Ptr) → ((i : ℕ) → i < n → has a (bucket m i (cells i)) ≡ false) → g a ≡ h a)

for_each-Gone :
    (h : Heap Entry) (m : HashMap) (cells : ℕ → Cells Entry) (fuel n : ℕ)
    → IsTable h m cells
    → ((i : ℕ) → i < table_size → length (cells i) < fuel)
    → n ≤ table_size
    → Finishes (λ _. Gone m cells n h) (for_each (destroy_bucket fuel m) n h)
unfolding for_each
for_each-Gone h m cells fuel zero is enough p =
    finishes (λ i a q. absurd (omega arith), λ a o. refl)
for_each-Gone h m cells fuel (suc n) is enough p =
    Finishes.chain (for_each-Gone h m cells fuel n is enough (omega arith)) λ _ g gone.
      let small : n < table_size = omega arith in
      let other : (i : ℕ)
          → i < n
          → (a : Ptr) → has a (bucket m n (cells n)) ≡ true
          → has a (bucket m i (cells i)) ≡ false =
        λ i q a o. is.apart n i small (omega arith) (omega arith) a o in
      let held =
        Holds-frame h g (hd m n) (tl m n) (cells n) (is.held n small)
          λ a o. gone.1 a (λ i q. other i q a o) in
      Finishes.weaken (destroy_bucket-Without g m n (cells n) fuel held (enough n small))
        λ _ g' less. (
          λ i a q o. elim (Bool-cases (i == n)) [
            | inl e ↦
                let eq : i ≡ n = ground arith in
                ground (arith, less a, subst (λ z. has a (bucket m z (cells z)) ≡ true) eq o)
            | inr e ↦
                let before : g a ≡ none = gone.0 i a (ground arith) o in
                Without-stays (bucket m n (cells n)) g g' a less before
          ],
          λ a o. ground (arith, less a, o n (omega arith), gone.1 a (λ i q. o i (omega arith))),
        )

-- The destructor, with fuel for every node of the longest bucket, deletes every node of the table, the
-- sentinels too, and no other.
pub destroy-Gone :
    (h : Heap Entry) (m : HashMap) (cells : ℕ → Cells Entry) (fuel : ℕ)
    → IsTable h m cells
    → ((i : ℕ) → i < table_size → length (cells i) < fuel)
    → Finishes
        (λ _ g.
          ((i : ℕ) (a : Ptr) → i < table_size → has a (bucket m i (cells i)) ≡ true → g a ≡ none)
          × ((a : Ptr)
              → ((i : ℕ) → i < table_size → has a (bucket m i (cells i)) ≡ false)
              → g a ≡ h a))
        (destroy fuel m h)
unfolding destroy
destroy-Gone h m cells fuel is enough =
    for_each-Gone h m cells fuel table_size is enough (omega arith)
