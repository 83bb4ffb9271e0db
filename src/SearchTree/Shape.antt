-- ===== src/SearchTree/Shape.antt =====
-- Which tree the nodes at an address make up.
use data_structure_benchmark.Base.{◌≡◌, ◌≢◌, Bool, true, false, ◌||◌, none, some, ◌==◌, arith, ◌∙◌}
use data_structure_benchmark.Heap.{Ptr, null}
use data_structure_benchmark.SearchTree.{Node, node, Nodes, Tree, Side, child, set_child, write}
use data_structure_benchmark.SearchTree.Spec.{Branches, leaf, branch, address}

abbrev pub has : Ptr → Branches → Bool
has b leaf = false
has b (branch l a w r) = (b == a) || (has b l || has b r)

-- The nodes hold the tree.
abbrev pub Holds : Nodes → Branches → Type 0
Holds h leaf = Unit
Holds h (branch l a w r) = (h a ≡ some (node w (address l) (address r))) × Holds h l × Holds h r

-- No address occurs twice, and none is null.
abbrev pub Apart : Branches → Type 0
Apart leaf = Unit
Apart (branch l a w r) =
    (a ≢ null)
    × (has a l ≡ false)
    × (has a r ≡ false)
    × ((b : Ptr) → has b l ≡ true → has b r ≡ false)
    × Apart l
    × Apart r

-- A tree survives any change that spares its addresses.
pub frame :
    (h g : Nodes) (t : Branches) → Holds h t → ((b : Ptr) → has b t ≡ true → g b ≡ h b) → Holds g t
frame h g leaf is same = tt
frame h g (branch l a w r) (at, hl, hr) same = (
  same a (ground arith) ∙ at,
  frame h g l hl λ b i. same b (ground arith),
  frame h g r hr λ b i. same b (ground arith),
)

-- what the tree in `t` is where `prev` and `type` stand: at the root, or the child of a node
pub data Slot : Type 0 where
  at_root : Slot
  under : Ptr → Side → Slot

-- The slot of the tree `t` in the memory `m`, with the loop's variables `prev` and `type`.
abbrev pub Fits : Tree → Slot → Branches → Ptr → Side → Type 0
Fits m at_root t prev s = (m.root ≡ address t) × (prev ≡ null)
Fits m (under q d) t prev s =
    (prev ≡ q)
    × (s ≡ d)
    × (q ≢ null)
    × (has m.root t ≡ false)
    × (has q t ≡ false)
    × (y : Node) × (m.nodes q ≡ some y)
    × (child d y ≡ address t)

-- the memory with another tree in the slot
abbrev pub fill : Slot → Ptr → Tree → Tree
fill at_root p m = record m { root = p }
fill (under q d) p m = elim (m.nodes q) [ none ↦ m | some y ↦ write q (set_child d p y) m ]

-- `m` has become `g`: there is `t'` in the slot for `t`, and nothing else has changed.
pub record Replaced (m : Tree) (slot : Slot) (t t' : Branches) (g : Tree) : Type 0 where
  pub holds : Holds g.nodes t'
  pub root : g.root ≡ (fill slot (address t') m).root
  pub same : (b : Ptr) → has b t ≡ false → g.nodes b ≡ (fill slot (address t') m).nodes b
