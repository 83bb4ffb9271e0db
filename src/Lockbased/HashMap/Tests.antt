-- ===== src/Lockbased/HashMap/Tests.antt =====
-- A table on a concrete heap: `std::hash<int>` is the identity on the numbers from 0.
use data_structure_benchmark.Base.{
  ℕ, ◌+◌, ◌-◌, ◌<◌, ◌≡◌, refl, Bool-cases, inl, inr, true, false, none, some, [], ◌∷◌, arith, ◌==◌,
  ltb, if◌then◌else◌,
}
use data_structure_benchmark.Base.Int.{ℤ, pos, negsuc, eq_int}
use data_structure_benchmark.Base.Lists.{length}
use data_structure_benchmark.Heap.{Ptr, node, Heap, write, done}
use data_structure_benchmark.Heap.Chain.{Cells, has}
use data_structure_benchmark.Heap.Finishes.{Finishes}
use data_structure_benchmark.Lockbased.HashMap.{
  HashMap, Entry, entry, table_size, construct, destroy, insert_or_assign, remove, find, contains,
}
use data_structure_benchmark.Lockbased.HashMap.Table.{bucket, IsTable, put, Changes, IsTable-put}
use data_structure_benchmark.Lockbased.HashMap.Effect.{value_at, Effect}
use data_structure_benchmark.Lockbased.HashMap.Create.{AreDistinct, Beside, construct-IsTable}
use data_structure_benchmark.Lockbased.HashMap.Assign.{insert_or_assign-Effect}
use data_structure_benchmark.Lockbased.HashMap.Remove.{remove-Effect}
use data_structure_benchmark.Lockbased.HashMap.Lookup.{find-lookup}
use data_structure_benchmark.Lockbased.HashMap.Destroy.{destroy-Gone}

abbrev pub hash : ℤ → ℕ
hash (pos n) = n
hash (negsuc n) = n

abbrev pub m : HashMap
m = record { bucket_heads = λ i. i + 1; bucket_tails = λ i. i + 10001 }

m-AreDistinct : AreDistinct m
m-AreDistinct = record {
  head_ne_null = λ i p. omega arith;
  tail_ne_null = λ i p. omega arith;
  heads = λ i j p q e. omega arith;
  tails = λ i j p q e. omega arith;
  across = λ i j p q. omega arith;
}

abbrev pub zeroed : Entry
zeroed = entry (pos 0) (pos 0)

-- the table without entries
abbrev pub empty : Heap Entry
empty a =
    if a == 0
    then none
    else if ltb a 10001
    then some (node zeroed (a + 10000) 0)
    else if ltb a 20001
    then some (node zeroed 0 (a - 10000))
    else none

empty-IsTable : IsTable empty m (λ _. [])
empty-IsTable = record {
  held = λ i p. record {
    linked = (ground arith, (ground arith, tt));
    distinct = (omega arith, ground arith, (omega arith, refl, tt));
  };
  apart = λ i j p q ne a n. ground arith;
  unique = λ i p. tt;
}

-- the table with 70 at the key 7
abbrev pub heap : Heap Entry
heap =
    write
      (write (write empty 8 (some (node zeroed 20001 0))) 20001
        (some (node (entry (pos 7) (pos 70)) 10008 8)))
      10008 (some (node zeroed 0 20001))

abbrev pub seven : Cells Entry
seven = (20001, entry (pos 7) (pos 70)) ∷ []

abbrev pub cells : ℕ → Cells Entry
cells = put 7 seven λ _. []

heap-Changes : Changes empty heap m 7 [] seven
unfolding write
heap-Changes = record {
  held = record {
    linked = (refl, (refl, (refl, tt)));
    distinct = (omega arith, refl, (omega arith, refl, (omega arith, refl, tt)));
  };
  unique = (refl, tt);
  keeps = λ a o o'. ground arith;
  grows = λ a o. elim (Bool-cases (a == 20001)) [
    | inl e ↦ inr (ground arith)
    | inr e ↦ inl (ground arith)
  ];
  frees = λ a o o'. ground arith;
}

pub heap-IsTable : IsTable heap m cells
heap-IsTable = IsTable-put empty heap m (λ _. []) 7 seven empty-IsTable (omega arith) heap-Changes

construct-IsTable_example :
    Finishes
      (λ _ g. IsTable g m (λ _. []) × ((a : Ptr) → Beside m table_size a → g a ≡ none))
      (construct m (λ _. none))
construct-IsTable_example = construct-IsTable (λ _. none) m m-AreDistinct

insert_or_assign-Effect_example :
    Finishes
      (λ _ g.
        Effect hash heap g m cells
          λ k. if eq_int (pos 10007) k then some (pos 1) else value_at hash cells k)
      (insert_or_assign hash 2 m (pos 10007) (pos 1) 20002 heap)
unfolding write
insert_or_assign-Effect_example =
    insert_or_assign-Effect hash heap m (pos 10007) (pos 1) 20002 cells 2 heap-IsTable (omega arith)
      refl (omega arith)

remove-Effect_example :
    Finishes
      (λ _ g.
        Effect hash heap g m cells λ k. if eq_int (pos 7) k then none else value_at hash cells k)
      (remove hash 2 m (pos 7) heap)
remove-Effect_example = remove-Effect hash heap m (pos 7) cells 2 heap-IsTable (omega arith)

find-lookup_example :
    (find hash 2 m (pos 7) heap ≡ done (pos 70) heap)
    × (contains hash 2 m (pos 7) heap ≡ done true heap)
find-lookup_example = find-lookup hash heap m (pos 7) cells 2 heap-IsTable (omega arith)

short : (i : ℕ) → i < table_size → length (cells i) < 2
short i p = ground arith

destroy-Gone_example :
    Finishes
      (λ _ g.
        ((i : ℕ) (a : Ptr) → i < table_size → has a (bucket m i (cells i)) ≡ true → g a ≡ none)
        × ((a : Ptr)
            → ((i : ℕ) → i < table_size → has a (bucket m i (cells i)) ≡ false)
            → g a ≡ heap a))
      (destroy 2 m heap)
destroy-Gone_example = destroy-Gone heap m cells 2 heap-IsTable short
