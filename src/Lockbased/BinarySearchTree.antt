-- ===== src/Lockbased/BinarySearchTree.antt =====
-- lockbased/BinarySearchTree.h: a search tree under a mutex. The nodes that `remove` takes out are never
-- deleted. Each method with its mutex is one step, so a method is a function of the root and the nodes.
pub mod Differs
pub mod Contract
pub mod Loses
pub mod Tests
use data_structure_benchmark.Base.{
  ℕ, zero, suc, ◌≡◌, Bool, true, false, ◌&&◌, not, Option, none, some, ◌==◌,
}
use data_structure_benchmark.Base.Int.{ℤ, eq_int}
use data_structure_benchmark.Heap.{Ptr, null}
use data_structure_benchmark.SearchTree.{
  Node, Nodes, Tree, Side, left_side, right_side, child, Outcome, done, fault, exhausted, and_then,
  at_node, write, make_node, side, insert_section, min_from, unlink_leaf, unlink_single,
}

-- `BinarySearchTree()`
abbrev pub construct : Nodes → Tree
construct h = record { root = null; nodes = h }

unfoldable pub insert : ℕ → ℤ → Ptr → Tree → Outcome (Unit {0})
insert fuel value fresh t = insert_section fuel value fresh (make_node value fresh t)

-- The loop of `remove`. Behind a node that was taken out it goes on, from that node's children.
unfoldable pub remove_loop : ℕ → ℤ → Ptr → Ptr → Side → Tree → Outcome (Unit {0})
remove_loop zero value curr prev s t = exhausted
remove_loop (suc fuel) value curr prev s t = elim (curr == null) [
  | true ↦ done tt t
  | false ↦ at_node t curr λ x. elim (eq_int x.value value) [
    | true ↦ elim (x.left == null && x.right == null) [
      | true ↦ and_then (unlink_leaf curr prev s t) λ _ t'.
          at_node t' curr
            λ y. remove_loop fuel value (child (side value y) y) curr (side value y) t'
      | false ↦ elim (not (x.left == null) && not (x.right == null)) [
        | true ↦ and_then (min_from fuel x.right t) λ least t'.
            remove_loop fuel least x.right curr right_side
              (write curr (record x { value = least }) t')
        | false ↦ and_then (unlink_single curr prev s t) λ _ t'.
            at_node t' curr
              λ y. remove_loop fuel value (child (side value y) y) curr (side value y) t'
      ]
    ]
    | false ↦ remove_loop fuel value (child (side value x) x) curr (side value x) t
  ]
]

unfoldable pub remove : ℕ → ℤ → Tree → Outcome (Unit {0})
remove fuel value t = remove_loop fuel value t.root null left_side t

unfoldable pub get_min : ℕ → Tree → Outcome ℤ
get_min fuel t = min_from fuel t.root t

-- `get_min` of the tree at a node
unfoldable pub get_min_of : ℕ → Ptr → Tree → Outcome ℤ
get_min_of fuel p t = min_from fuel p t
