-- ===== src/Lockbased/SortedList/Tests.antt =====
-- The sorted list on a concrete heap.
use data_structure_benchmark.Base.{◌≡◌, refl, none, some, [], ◌∷◌, arith}
use data_structure_benchmark.Base.Int.{ℤ, pos, negsuc}
use data_structure_benchmark.Heap.{node, Heap, write, done}
use data_structure_benchmark.Heap.Chain.{Cells}
use data_structure_benchmark.Heap.Finishes.{Finishes}
use data_structure_benchmark.Lockbased.SortedList.{SortedList, insert, remove, count}
use data_structure_benchmark.Lockbased.SortedList.Shape.{IsList}
use data_structure_benchmark.Lockbased.SortedList.Insert.{Inserted, insert-Inserted}
use data_structure_benchmark.Lockbased.SortedList.Remove.{Removed, remove-Removed}
use data_structure_benchmark.Lockbased.SortedList.Count.{count-occurrences}

abbrev no_heap : Heap ℤ
no_heap a = none

abbrev pub l : SortedList
l = record { head = 1; tail = 2 }

-- the list of -3, 5 and 5
abbrev pub heap : Heap ℤ
heap =
    write
      (write
        (write (write (write no_heap 1 (some (node (pos 0) 3 0))) 3 (some (node (negsuc 2) 4 1))) 4
          (some (node (pos 5) 5 3)))
        5 (some (node (pos 5) 2 4)))
      2 (some (node (pos 0) 0 5))

abbrev pub xs : Cells ℤ
xs = (3, negsuc 2) ∷ (4, pos 5) ∷ (5, pos 5) ∷ []

pub heap-IsList : IsList heap l xs
unfolding write
heap-IsList = record {
  held = record {
    linked = (refl, (refl, (refl, (refl, (refl, tt)))));
    distinct = (
      omega arith,
      refl,
      (omega arith, refl, (omega arith, refl, (omega arith, refl, (omega arith, refl, tt)))),
    );
  };
  sorted = ((refl, (refl, tt)), ((refl, tt), (tt, tt)));
}

insert-Inserted_example : Finishes (λ _. Inserted l (pos 4) xs heap) (insert 4 l (pos 4) 6 heap)
unfolding write
insert-Inserted_example =
    insert-Inserted heap l (pos 4) 6 xs 4 heap-IsList (omega arith) refl (omega arith)

remove-Removed_example : Finishes (λ _. Removed l (pos 5) xs heap) (remove 4 l (pos 5) heap)
remove-Removed_example = remove-Removed heap l (pos 5) xs 4 heap-IsList (omega arith)

count-occurrences_example : count 4 l (pos 5) heap ≡ done 2 heap
count-occurrences_example =
    count-occurrences heap l (pos 5) xs 4 heap-IsList (omega arith) (omega arith)
