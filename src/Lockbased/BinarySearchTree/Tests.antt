-- ===== src/Lockbased/BinarySearchTree/Tests.antt =====
-- The methods on concrete search trees.
use data_structure_benchmark.Base.{◌+◌, ◌-◌, ◌≡◌, refl, none, arith, if◌then◌else◌}
use data_structure_benchmark.Base.Int.{ℤ, pos, eq_int}
use data_structure_benchmark.Heap.{null}
use data_structure_benchmark.SearchTree.{node, put, Tree, done}
use data_structure_benchmark.SearchTree.Spec.{Branches, leaf, branch, count}
use data_structure_benchmark.SearchTree.Insert.{IsTree}
use data_structure_benchmark.SearchTree.Whole.{IsMin}
use data_structure_benchmark.Lockbased.BinarySearchTree.{insert, remove, get_min}
use data_structure_benchmark.Lockbased.BinarySearchTree.Differs.{Differs}
use data_structure_benchmark.Lockbased.BinarySearchTree.Contract.{
  IsSearchTree, Leaves, insert-Leaves, remove-Leaves, get_min-IsMin,
}
use data_structure_benchmark.Lockbased.BinarySearchTree.Loses.{remove_loses}

-- 4 over 3 and 5
abbrev pub three : Branches
three = branch (branch leaf 2 (pos 3) leaf) 1 (pos 4) (branch leaf 3 (pos 5) leaf)

abbrev pub tree : Tree
unfolding put
tree = record {
  root = 1;
  nodes =
      put (put (put (λ _. none) 2 (node (pos 3) 0 0)) 3 (node (pos 5) 0 0)) 1 (node (pos 4) 2 3);
}

pub tree-IsSearchTree : IsSearchTree tree three
unfolding put tree
tree-IsSearchTree = (
  record {
    root = refl;
    holds = (refl, (refl, tt, tt), (refl, tt, tt));
    apart = (
      (λ e. cc),
      refl,
      refl,
      (λ b i. ground arith),
      ((λ e. cc), refl, refl, (λ b i. refl), tt, tt),
      ((λ e. cc), refl, refl, (λ b i. refl), tt, tt),
    );
  },
  ((tt, refl, tt), (tt, refl, tt), (tt, tt, tt, tt), (tt, tt, tt, tt)),
)

three-Differs : Differs three
three-Differs = ((tt, refl, tt), (tt, tt, tt), (tt, tt, tt))

pub six_free : tree.nodes 6 ≡ none
unfolding put tree
six_free = refl

insert-Leaves_example :
    Leaves tree three 6
      (λ x. count x three + (if eq_int (pos 4) x then 1 else 0))
      (insert 4 (pos 4) 6 tree)
insert-Leaves_example =
    insert-Leaves 4 (pos 4) 6 tree three tree-IsSearchTree (λ e. cc) six_free (omega arith)

remove-Leaves_example :
    Leaves tree three null
      (λ x. count x three - (if eq_int (pos 4) x then 1 else 0))
      (remove 4 (pos 4) tree)
remove-Leaves_example =
    remove-Leaves 4 (pos 4) tree three tree-IsSearchTree three-Differs (omega arith)

get_min-IsMin_example : (k : ℤ) × (get_min 4 tree ≡ done k tree) × IsMin three k
get_min-IsMin_example = get_min-IsMin 4 tree three tree-IsSearchTree (omega arith)

-- 4 over 3 and 5, and below 5 a 6 over another 5
abbrev twice : Branches
twice =
    branch (branch leaf 2 (pos 3) leaf) 1 (pos 4)
      (branch leaf 3 (pos 5) (branch (branch leaf 5 (pos 5) leaf) 4 (pos 6) leaf))

abbrev large : Tree
unfolding put
large = record {
  root = 1;
  nodes =
      put
        (put
          (put (put (put (λ _. none) 2 (node (pos 3) 0 0)) 3 (node (pos 5) 0 4)) 4
            (node (pos 6) 5 0))
          5 (node (pos 5) 0 0))
        1 (node (pos 4) 2 3);
}

large-IsTree : IsTree large twice
unfolding put large
large-IsTree = record {
  root = refl;
  holds = (refl, (refl, tt, tt), (refl, tt, (refl, (refl, tt, tt), tt)));
  apart = (
    (λ e. cc),
    refl,
    refl,
    (λ b i. ground arith),
    ((λ e. cc), refl, refl, (λ b i. refl), tt, tt),
    (
      (λ e. cc),
      refl,
      refl,
      (λ b i. ground arith),
      tt,
      ((λ e. cc), refl, refl, (λ b i. refl), ((λ e. cc), refl, refl, (λ b i. refl), tt, tt), tt),
    ),
  );
}

large-IsSearchTree : IsSearchTree large twice
large-IsSearchTree = (
  large-IsTree,
  (
    (tt, refl, tt),
    (tt, refl, ((tt, refl, tt), refl, tt)),
    (tt, tt, tt, tt),
    (tt, ((tt, refl, tt), refl, tt), tt, ((tt, refl, tt), tt, (tt, tt, tt, tt), tt)),
  ),
)

remove_loses_example :
    (g : Tree) × (remove 6 (pos 4) large ≡ done tt g)
    × IsTree g (branch (branch leaf 2 (pos 3) leaf) 1 (pos 5) (branch leaf 4 (pos 6) leaf))
    × (count (pos 5) (branch (branch leaf 2 (pos 3) leaf) 1 (pos 5) (branch leaf 4 (pos 6) leaf))
          + 1
        ≡ count (pos 5) twice)
remove_loses_example =
    remove_loses 6 (pos 4) (pos 5) (pos 6) 1 3 5 4 (branch leaf 2 (pos 3) leaf) leaf large
      large-IsSearchTree (λ e. cc) refl refl (omega arith)
