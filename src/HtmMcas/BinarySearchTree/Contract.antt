-- ===== src/HtmMcas/BinarySearchTree/Contract.antt =====
-- The methods on a search tree, and what another thread does between the transactions of `insert`.
use data_structure_benchmark.Base.{
  ℕ, zero, suc, ◌+◌, ◌-◌, ◌<◌, ◌≡◌, ◌≢◌, false, Bool-cases, inl, inr, none, arith, ◌==◌,
  if◌then◌else◌, sym, ap, ◌∙◌,
}
use data_structure_benchmark.Base.Int.{ℤ, eq_int, eq_int_refl}
use data_structure_benchmark.Heap.{Ptr, null}
use data_structure_benchmark.SearchTree.{
  Tree, left_side, done, fault, write_child, make_node, insert_section, insert_loop, remove_once,
  and_then,
}
use data_structure_benchmark.SearchTree.Spec.{
  Branches, leaf, branch, address, size, count, insert, delete, delete-found,
}
use data_structure_benchmark.SearchTree.Order.{
  insert-IsOrdered, count-insert, delete-IsOrdered, count-delete,
}
use data_structure_benchmark.SearchTree.Insert.{IsTree, insert_section-IsTree}
use data_structure_benchmark.SearchTree.Whole.{remove_once-IsTree}
use data_structure_benchmark.Lockbased.BinarySearchTree.Contract.{IsSearchTree, Leaves}
use data_structure_benchmark.Tm.{Answers, undecided, begin}
use data_structure_benchmark.HtmLock.BinarySearchTree.{transaction_runs}
use data_structure_benchmark.HtmMcas.BinarySearchTree as Bst
use data_structure_benchmark.HtmMcas.BinarySearchTree.{
  root_section, walk_section, after_root, remove,
}

-- With no other thread between them, the two transactions are the one of htm-lock.
sections-insert :
    (more : Answers) (f : ℕ) (v : ℤ) (n : Ptr) (m : Tree)
    → begin more ≢ undecided
    → and_then (root_section n m) (λ returned u. after_root more f v n returned u)
      ≡ insert_section f v n m
unfolding root_section walk_section insert_section
sections-insert more f v n m decided = elim (Bool-cases (m.root == null)) [
  | inl e ↦ ground arith
  | inr e ↦ ground (arith, transaction_runs more (walk_section f v n) decided)
]

-- `remove` with its transaction begun
remove-runs :
    (tries : Answers) (f : ℕ) (v : ℤ) (m : Tree)
    → begin tries ≢ undecided
    → remove tries f v m ≡ remove_once f v m.root null left_side m
unfolding remove
remove-runs tries f v m decided =
    ap (λ z. z m)
      (transaction_runs tries (λ (u : Tree). remove_once f v u.root null left_side u) decided)

-- `insert` of a fresh node, if no other thread runs between its transactions, and `remove`, on a search tree, once
-- `TM_BEGIN` has returned and with more fuel than nodes, return and keep the order; `insert` adds one
-- occurrence of the value, `remove` takes one out if there is one, and no node outside the tree changes.
pub tree_methods-Leaves :
    (tries more : Answers) (f : ℕ) (v : ℤ) (fresh : Ptr) (m : Tree) (t : Branches)
    → IsSearchTree m t
    → begin tries ≢ undecided
    → begin more ≢ undecided
    → fresh ≢ null
    → m.nodes fresh ≡ none
    → size t < f
    → Leaves m t fresh
        (λ x. count x t + (if eq_int v x then 1 else 0))
        (Bst.insert tries more f v fresh m)
      × Leaves m t null (λ x. count x t - (if eq_int v x then 1 else 0)) (remove tries f v m)
unfolding Bst.insert
tree_methods-Leaves tries more f v fresh m t (is, ordered) decided decided' ne free enough =
    let (g, ran, whole, same) = insert_section-IsTree t v fresh m f is ne free enough in
    let (h, went, left, kept) = remove_once-IsTree f v m t is enough in
    (
      (
        g,
        insert v fresh t,
        ap (λ z. and_then (z (make_node v fresh m)) (λ r u. after_root more f v fresh r u))
              (transaction_runs tries (root_section fresh) decided)
            ∙ sections-insert more f v fresh (make_node v fresh m) decided'
            ∙ ran,
        (whole, insert-IsOrdered v fresh t ordered),
        (λ x. count-insert x v fresh t),
        same,
      ),
      (
        h,
        delete v t,
        remove-runs tries f v m decided ∙ went,
        (left, delete-IsOrdered v t ordered),
        (λ x. count-delete x v t ordered),
        (λ b other o. kept b o),
      ),
    )

-- The first transaction of `insert` puts nothing into a tree that has a root.
root_section-full : (n : Ptr) (m : Tree) → m.root ≢ null → root_section n m ≡ done false m
unfolding root_section
root_section-full n m ne = ground arith

-- The second one, on an empty tree.
walk_section-empty :
    (f : ℕ) (v : ℤ) (n : Ptr) (g : Tree)
    → g.root ≡ null
    → g.nodes null ≡ none
    → 0 < f
    → walk_section f v n g ≡ fault
unfolding walk_section insert_loop write_child
walk_section-empty zero v n g e no_node pos_f = absurd (omega arith)
walk_section-empty (suc f) v n g e no_node pos_f = ground arith

-- A tree of one node is empty without it.
delete-only : (w : ℤ) (a : Ptr) → delete w (branch leaf a w leaf) ≡ leaf
unfolding delete
delete-only w a = delete-found w leaf a w leaf (eq_int_refl w)

-- `insert` finds a tree of one node, whatever its value, and has ended its first transaction; another
-- thread removes that node, once its `TM_BEGIN` has returned, and returns. Then the second transaction of
-- `insert`, with fuel for two rounds and no node at the null pointer, writes through the null pointer.
pub insert_races :
    (tries : Answers) (f : ℕ) (v w : ℤ) (fresh a : Ptr) (m : Tree)
    → IsTree m (branch leaf a w leaf)
    → begin tries ≢ undecided
    → m.nodes null ≡ none
    → 1 < f
    → (root_section fresh m ≡ done false m)
      × (g : Tree) × (remove tries f w m ≡ done tt g)
      × (walk_section f v fresh g ≡ fault)
insert_races tries f v w fresh a m is decided no_node enough =
    let (g, went, left, kept) = remove_once-IsTree f w m (branch leaf a w leaf) is enough in
    (
      root_section-full fresh m λ e. is.apart.0 (sym is.root ∙ e),
      g,
      remove-runs tries f w m decided ∙ went,
      walk_section-empty f v fresh g (left.root ∙ ap address (delete-only w a))
          (kept null (ground (arith, is.apart.0)) ∙ no_node) (omega arith),
    )
