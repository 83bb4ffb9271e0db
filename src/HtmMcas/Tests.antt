-- ===== src/HtmMcas/Tests.antt =====
-- The methods on a concrete deque and on concrete search trees.
use data_structure_benchmark.Base.{
  ◌+◌, ◌-◌, false, if◌then◌else◌, ◌≡◌, ◌≢◌, refl, arith, none, some, [], ◌∷◌,
}
use data_structure_benchmark.Base.Int.{ℤ, pos, eq_int}
use data_structure_benchmark.Heap.{null, node, write}
use data_structure_benchmark.Heap.Chain.{Cells, values}
use data_structure_benchmark.Lockbased.Deque.Contents.{put_cell}
use data_structure_benchmark.Lockbased.Deque.Spec.{front, back, take}
use data_structure_benchmark.LockfreeMcas.Deque.{Deque}
use data_structure_benchmark.LockfreeMcas.Deque.Shape.{Shape, IsDead}
use data_structure_benchmark.Tm.{Answers, started, undecided, begin, begin_loop}
use data_structure_benchmark.HtmMcas.Deque.{
  ◌>>◌, push, pop, stack_push, stack_pop, queue_push, queue_pop,
}
use data_structure_benchmark.HtmMcas.Deque.Contract.{Returns, Pops}
use data_structure_benchmark.HtmMcas.Deque.Methods.{methods-Returns, stack_push-stack_pop}
use data_structure_benchmark.HtmMcas.BinarySearchTree.{root_section, walk_section, insert, remove}
use data_structure_benchmark.HtmMcas.BinarySearchTree.Contract.{tree_methods-Leaves, insert_races}
use data_structure_benchmark.Lockbased.BinarySearchTree.Contract.{Leaves}
use data_structure_benchmark.Lockbased.BinarySearchTree.Tests.{
  three, tree, tree-IsSearchTree, six_free,
}
use data_structure_benchmark.SearchTree as SearchTree
use data_structure_benchmark.SearchTree.{Tree, done, fault, put}
use data_structure_benchmark.SearchTree.Spec.{leaf, branch, count}
use data_structure_benchmark.SearchTree.Insert.{IsTree}
use data_structure_benchmark.Heap.Finishes.{Finishes}
use data_structure_benchmark.Heap as Memory
use data_structure_benchmark.Lockbased.SortedList.Tests as Sorted
use data_structure_benchmark.Lockbased.SortedList.Insert.{Inserted}
use data_structure_benchmark.HtmMcas.SortedList as HtmList
use data_structure_benchmark.HtmMcas.SortedList.Remove.{Taken}
use data_structure_benchmark.HtmMcas.SortedList.Contract.{list_methods-Keep}

-- the first attempt starts
abbrev tries : Answers
tries = record { rounds = started ∷ []; exchanges = [] }

tries_decide : begin tries ≢ undecided
unfolding begin begin_loop
tries_decide = ground arith

-- the dummy at 1 and a node with 7 at 2
abbrev one : Deque
unfolding write
one = record {
  heap = write (write (λ _. none) 1 (some (node (pos 0) 1 1))) 2 (some (node (pos 7) 1 1));
  left_hat = 2;
  right_hat = 2;
}

abbrev cells : Cells ℤ
cells = (2, pos 7) ∷ []

one-IsDead : IsDead one.heap 1
unfolding write one
one-IsDead = (pos 0, refl)

one-Shape : Shape one cells
unfolding write one
one-Shape = record {
  before = 1;
  behind = 1;
  linked = (refl, tt);
  distinct = (λ e. cc, refl, tt);
  before_dead = (pos 0, refl);
  behind_dead = (pos 0, refl);
  before_out = refl;
  behind_out = refl;
  hats = (refl, refl);
}

three_free : one.heap 3 ≡ none
unfolding write one
three_free = refl

methods-Returns_example :
    Returns 1 tt (put_cell back (3, pos 5) cells) (push tries 1 back (pos 5) 3 one)
    × Pops 1 back cells (pop tries back one)
methods-Returns_example =
    methods-Returns 1 tries back one cells (pos 5) 3 one-Shape one-IsDead tries_decide (λ e. cc)
      three_free

stack_push-stack_pop_example :
    ((ys : Cells ℤ) × Returns 1 (pos 5) ys ((stack_push tries 1 (pos 5) 3 >> stack_pop tries) one)
      × (values ys ≡ pos 7 ∷ []))
    × ((zs : Cells ℤ) × Returns 1
          (take front (pos 7 ∷ pos 5 ∷ [])).0
          zs
          ((queue_push tries 1 (pos 5) 3 >> queue_pop tries) one)
        × ((take front (pos 7 ∷ pos 5 ∷ [])).1 ≡ values zs))
stack_push-stack_pop_example =
    stack_push-stack_pop 1 tries tries one cells (pos 5) 3 one-Shape one-IsDead tries_decide
      tries_decide (λ e. cc) three_free

tree_methods-Leaves_example :
    Leaves tree three 6
      (λ x. count x three + (if eq_int (pos 4) x then 1 else 0))
      (insert tries tries 4 (pos 4) 6 tree)
    × Leaves tree three null
        (λ x. count x three - (if eq_int (pos 4) x then 1 else 0))
        (remove tries 4 (pos 4) tree)
tree_methods-Leaves_example =
    tree_methods-Leaves tries tries 4 (pos 4) 6 tree three tree-IsSearchTree tries_decide
      tries_decide (λ e. cc) six_free (omega arith)

-- the node at 1 alone
abbrev single : Tree
unfolding put
single = record { root = 1; nodes = put (λ _. none) 1 (SearchTree.node (pos 7) 0 0) }

single-IsTree : IsTree single (branch leaf 1 (pos 7) leaf)
unfolding put single
single-IsTree = record {
  root = refl;
  holds = (refl, tt, tt);
  apart = ((λ e. cc), refl, refl, (λ b i. refl), tt, tt);
}

null_free : single.nodes null ≡ none
unfolding put single
null_free = refl

insert_races_example :
    (root_section 2 single ≡ done false single)
    × (g : Tree) × (remove tries 2 (pos 7) single ≡ done tt g)
    × (walk_section 2 (pos 5) 2 g ≡ fault)
insert_races_example =
    insert_races tries 2 (pos 5) (pos 7) 2 1 single single-IsTree tries_decide null_free
      (omega arith)

list_methods-Keep_example :
    Finishes
      (λ _. Inserted Sorted.l (pos 5) Sorted.xs Sorted.heap)
      (HtmList.insert tries 4 Sorted.l (pos 5) 6 Sorted.heap)
    × Finishes
        (λ _. Taken Sorted.l (pos 5) Sorted.xs Sorted.heap)
        (HtmList.remove tries 4 Sorted.l (pos 5) Sorted.heap)
    × (HtmList.count tries 4 Sorted.l (pos 5) Sorted.heap ≡ Memory.done 2 Sorted.heap)
unfolding write
list_methods-Keep_example =
    list_methods-Keep tries Sorted.heap Sorted.l (pos 5) 6 Sorted.xs 4 Sorted.heap-IsList
      (omega arith) refl (omega arith) tries_decide (omega arith)
