-- ===== src/HtmLock/Tests.antt =====
-- The structures in transactions on concrete heaps.
use data_structure_benchmark.Base.{◌≡◌, ◌≢◌, refl, Option, none, some, [], ◌∷◌, arith}
use data_structure_benchmark.Base.Int.{ℤ, pos}
use data_structure_benchmark.Heap.{Ptr, Heap, node, write, done, fault}
use data_structure_benchmark.Heap.Finishes.{Finishes}
use data_structure_benchmark.Tm.{Answers, started, undecided, begin, begin_loop}
use data_structure_benchmark.HtmLock.Deque as Htm
use data_structure_benchmark.HtmLock.Deque.{Deque}
use data_structure_benchmark.HtmLock.Deque.Equivalence.{deque-locked}
use data_structure_benchmark.HtmLock.SortedList as HtmList
use data_structure_benchmark.HtmLock.SortedList.Equivalence.{sorted_list-locked}
use data_structure_benchmark.HtmLock.HashMap as HtmMap
use data_structure_benchmark.HtmLock.HashMap.{read_found, find_section}
use data_structure_benchmark.HtmLock.HashMap.Equivalence.{hash_map-locked}
use data_structure_benchmark.HtmLock.HashMap.Race.{find_races}
use data_structure_benchmark.Lockbased.Deque as Locked
use data_structure_benchmark.Lockbased.Stack
use data_structure_benchmark.Lockbased.Queue
use data_structure_benchmark.Lockbased.SortedList as LockedList
use data_structure_benchmark.Lockbased.HashMap as LockedMap
use data_structure_benchmark.Lockbased.HashMap.Tests.{hash, m, heap, cells, heap-IsTable}
use data_structure_benchmark.HtmLock.BinarySearchTree as HtmTree
use data_structure_benchmark.HtmLock.BinarySearchTree.Equivalence.{search_tree-locked}
use data_structure_benchmark.Lockbased.BinarySearchTree as LockedTree
use data_structure_benchmark.Lockbased.BinarySearchTree.Tests.{tree}

-- the first attempt starts
abbrev tries : Answers
tries = record { rounds = started ∷ []; exchanges = [] }

tries_decide : begin tries ≢ undecided
unfolding begin begin_loop
tries_decide = ground arith

abbrev d : Deque
d = record { head = 1; tail = 2 }

abbrev two_nodes : Heap ℤ
two_nodes = write (write (λ _. none) 1 (some (node (pos 0) 2 0))) 2 (some (node (pos 0) 0 1))

deque-locked_example :
    (Htm.push_front tries d (pos 4) 3 two_nodes ≡ Locked.push_front d (pos 4) 3 two_nodes)
    × (Htm.push_back tries d (pos 4) 3 two_nodes ≡ Locked.push_back d (pos 4) 3 two_nodes)
    × (Htm.pop_front tries d two_nodes ≡ Locked.pop_front d two_nodes)
    × (Htm.pop_back tries d two_nodes ≡ Locked.pop_back d two_nodes)
    × (Htm.stack_push tries d (pos 4) 3 two_nodes ≡ Stack.push d (pos 4) 3 two_nodes)
    × (Htm.stack_pop tries d two_nodes ≡ Stack.pop d two_nodes)
    × (Htm.queue_push tries d (pos 4) 3 two_nodes ≡ Queue.push d (pos 4) 3 two_nodes)
    × (Htm.queue_pop tries d two_nodes ≡ Queue.pop d two_nodes)
deque-locked_example = deque-locked tries d (pos 4) 3 two_nodes tries_decide

abbrev l : LockedList.SortedList
l = record { head = 1; tail = 2 }

sorted_list-locked_example :
    (HtmList.insert tries 2 l (pos 4) 3 two_nodes ≡ LockedList.insert 2 l (pos 4) 3 two_nodes)
    × (HtmList.remove tries 2 l (pos 4) two_nodes ≡ LockedList.remove 2 l (pos 4) two_nodes)
    × (HtmList.count tries 2 l (pos 4) two_nodes ≡ LockedList.count 2 l (pos 4) two_nodes)
sorted_list-locked_example = sorted_list-locked tries 2 l (pos 4) 3 two_nodes tries_decide

hash_map-locked_example :
    (HtmMap.insert_or_assign hash tries 2 m (pos 7) (pos 4) 20002 heap
      ≡ LockedMap.insert_or_assign hash 2 m (pos 7) (pos 4) 20002 heap)
    × (HtmMap.contains hash tries 2 m (pos 7) heap ≡ LockedMap.contains hash 2 m (pos 7) heap)
    × (HtmMap.remove hash tries 2 m (pos 7) heap ≡ LockedMap.remove hash 2 m (pos 7) heap)
    × (HtmMap.find hash tries 2 m (pos 7) heap ≡ LockedMap.find hash 2 m (pos 7) heap)
hash_map-locked_example = hash_map-locked hash tries 2 m (pos 7) (pos 4) 20002 heap tries_decide

find_races_example :
    (found : Option Ptr) × (find_section hash 2 m (pos 7) heap ≡ done found heap)
    × Finishes (λ _ g. read_found found g ≡ fault) (HtmMap.remove hash tries 2 m (pos 7) heap)
find_races_example =
    find_races hash tries heap m (pos 7) (pos 70) cells 2 heap-IsTable (omega arith) refl
      tries_decide

search_tree-locked_example :
    (HtmTree.insert tries 4 (pos 4) 6 tree ≡ LockedTree.insert 4 (pos 4) 6 tree)
    × (HtmTree.remove tries 4 (pos 4) tree ≡ LockedTree.remove 4 (pos 4) tree)
    × (HtmTree.get_min tries 4 tree ≡ LockedTree.get_min 4 tree)
    × (HtmTree.get_min_of tries 4 2 tree ≡ LockedTree.get_min_of 4 2 tree)
search_tree-locked_example = search_tree-locked tries 4 (pos 4) 6 2 tree tries_decide
