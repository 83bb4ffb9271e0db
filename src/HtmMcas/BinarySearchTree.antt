-- ===== src/HtmMcas/BinarySearchTree.antt =====
-- htm-mcas/BinarySearchTree.h: a search tree whose `insert` has two transactions, and whose `get_min` has
-- none. The nodes that `remove` takes out are never deleted.
pub mod Contract
use data_structure_benchmark.Base.{ℕ, ◌≡◌, Bool, true, false, List, ◌==◌}
use data_structure_benchmark.Base.Int.{ℤ}
use data_structure_benchmark.Heap.{Ptr, null}
use data_structure_benchmark.SearchTree.{
  Nodes, Tree, left_side, Outcome, done, and_then, make_node, insert_loop, min_from, remove_once,
}
use data_structure_benchmark.HtmLock.BinarySearchTree.{transaction}
use data_structure_benchmark.Tm.{Answers}

-- `BinarySearchTree()`
abbrev pub construct : Nodes → Tree
construct h = record { root = null; nodes = h }

-- the first transaction of `insert`: `true` if it has put the new node at the root
unfoldable pub root_section : Ptr → Tree → Outcome Bool
root_section new t = elim (t.root == null) [
  | true ↦ done true (record t { root = new })
  | false ↦ done false t
]

-- the second one
unfoldable pub walk_section : ℕ → ℤ → Ptr → Tree → Outcome (Unit {0})
walk_section fuel value new t = insert_loop fuel value new t.root null left_side t

-- behind the first transaction
abbrev pub after_root : Answers → ℕ → ℤ → Ptr → Bool → Tree → Outcome (Unit {0})
after_root tries fuel value new true t = done tt t
after_root tries fuel value new false t = transaction tries (walk_section fuel value new) t

-- `insert`, where no other thread runs between its transactions
unfoldable pub insert : Answers → Answers → ℕ → ℤ → Ptr → Tree → Outcome (Unit {0})
insert tries more fuel value fresh t =
    and_then (transaction tries (root_section fresh) (make_node value fresh t))
      λ returned u. after_root more fuel value fresh returned u

unfoldable pub remove : Answers → ℕ → ℤ → Tree → Outcome (Unit {0})
remove tries fuel value t =
    transaction tries (λ u. remove_once fuel value u.root null left_side u) t

unfoldable pub get_min : ℕ → Tree → Outcome ℤ
get_min fuel t = min_from fuel t.root t
