-- ===== src/Lockbased/BinarySearchTree/Contract.antt =====
-- The methods on a search tree.
use data_structure_benchmark.Base.{
  ℕ, ◌+◌, ◌-◌, ◌<◌, ◌≡◌, ◌≢◌, refl, none, false, if◌then◌else◌, sym, ap, ◌∙◌,
}
use data_structure_benchmark.Base.Int.{ℤ, eq_int}
use data_structure_benchmark.Heap.{Ptr, null}
use data_structure_benchmark.SearchTree.{Tree, left_side, Outcome, done, min_from}
use data_structure_benchmark.SearchTree.Spec.{Branches, size, count, insert, delete}
use data_structure_benchmark.SearchTree.Order.{
  IsOrdered, insert-IsOrdered, count-insert, delete-IsOrdered, count-delete,
}
use data_structure_benchmark.SearchTree.Shape.{has, at_root}
use data_structure_benchmark.SearchTree.Insert.{IsTree, insert_section-IsTree}
use data_structure_benchmark.SearchTree.Whole.{remove_once-IsTree, IsMin, min_from-IsMin}
use data_structure_benchmark.SearchTree as Once
use data_structure_benchmark.Lockbased.BinarySearchTree as Bst
use data_structure_benchmark.Lockbased.BinarySearchTree.{remove, remove_loop, get_min, get_min_of}
use data_structure_benchmark.Lockbased.BinarySearchTree.Differs.{Differs, loop-once}

-- `m` is a search tree with the nodes of `t`.
abbrev pub IsSearchTree : Tree → Branches → Type 0
IsSearchTree m t = IsTree m t × IsOrdered t

-- A method returns and leaves a search tree in which each value occurs as often as `n` says; no node but
-- those of `t` and the one at `fresh` changes.
abbrev pub Leaves : Tree → Branches → Ptr → (ℤ → ℕ) → Outcome (Unit {0}) → Type 0
Leaves m t fresh n o =
    (g : Tree) × (t' : Branches) × (o ≡ done tt g)
    × IsSearchTree g t'
    × ((x : ℤ) → count x t' ≡ n x)
    × ((b : Ptr) → b ≢ fresh → has b t ≡ false → g.nodes b ≡ m.nodes b)

-- `insert` of a fresh node into a search tree, with more fuel than nodes, returns, keeps the order, adds
-- one occurrence of the value, and changes no node outside the tree.
pub insert-Leaves :
    (f : ℕ) (v : ℤ) (fresh : Ptr) (m : Tree) (t : Branches)
    → IsSearchTree m t
    → fresh ≢ null
    → m.nodes fresh ≡ none
    → size t < f
    → Leaves m t fresh (λ x. count x t + (if eq_int v x then 1 else 0)) (Bst.insert f v fresh m)
unfolding Bst.insert
insert-Leaves f v fresh m t (is, ordered) ne free enough =
    let (g, ran, whole, same) = insert_section-IsTree t v fresh m f is ne free enough in
    (
      g,
      insert v fresh t,
      ran,
      (whole, insert-IsOrdered v fresh t ordered),
      λ x. count-insert x v fresh t,
      same,
    )

-- `remove` from a search tree in which no value occurs twice, with more fuel than nodes, returns, keeps the
-- order, takes the value out if it is there and no other, and changes no node outside the tree.
pub remove-Leaves :
    (f : ℕ) (v : ℤ) (m : Tree) (t : Branches)
    → IsSearchTree m t
    → Differs t
    → size t < f
    → Leaves m t null (λ x. count x t - (if eq_int v x then 1 else 0)) (remove f v m)
unfolding remove
remove-Leaves f v m t (is, ordered) differs enough =
    let (g, ran, whole, same) = remove_once-IsTree f v m t is enough in
    let agree =
      ap (λ z. remove_loop f v z null left_side m) is.root
      ∙ loop-once t f v m at_root null left_side differs is.holds is.apart (is.root, refl) enough
      ∙ ap (λ z. Once.remove_once f v z null left_side m) (sym is.root) in
    (
      g,
      delete v t,
      agree ∙ ran,
      (whole, delete-IsOrdered v t ordered),
      λ x. count-delete x v t ordered,
      λ b ne o. same b o,
    )

-- `get_min` of a search tree, with more fuel than nodes, returns the least value, or `INT_MAX` if the tree
-- is empty, and changes nothing.
pub get_min-IsMin :
    (f : ℕ) (m : Tree) (t : Branches)
    → IsSearchTree m t
    → size t < f
    → (k : ℤ) × (get_min f m ≡ done k m) × IsMin t k
unfolding get_min
get_min-IsMin f m t (is, ordered) enough =
    let (k, ran, least) = min_from-IsMin f m t is.holds is.apart ordered enough in
    (k, ap (λ z. min_from f z m) is.root ∙ ran, least)
