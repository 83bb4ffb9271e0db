-- ===== src/SearchTree.antt =====
-- What the search trees of lockbased/, htm-lock/ and htm-mcas/ share (BinarySearchTree.h): the nodes, the
-- loops of `insert` and `get_min`, and how `remove` takes a node with at most one child out.
pub mod Spec
pub mod Order
pub mod Shape
pub mod Grow
pub mod Insert
pub mod Remove
pub mod Delete
pub mod Whole
use data_structure_benchmark.Base.{
  ℕ, zero, suc, ◌≡◌, Bool, true, false, ◌&&◌, not, Option, none, some, ◌==◌, if◌then◌else◌,
}
use data_structure_benchmark.Base.Int.{ℤ, pos, lt_int, eq_int}
use data_structure_benchmark.Heap.{Ptr, null}

pub record Node : Type 0 where
  pub value : ℤ
  pub left : Ptr
  pub right : Ptr

abbrev pub node : ℤ → Ptr → Ptr → Node
node v l r = record { value = v; left = l; right = r }

-- `none` is an address that holds no node.
abbrev pub Nodes : Type 0
Nodes = Ptr → Option Node

unfoldable pub put : Nodes → Ptr → Node → Nodes
put h p x a = if a == p then some x else h a

-- `root` and the nodes
pub record Tree : Type 0 where
  pub root : Ptr
  pub nodes : Nodes

-- `node_type`
pub data Side : Type 0 where
  left_side right_side : Side

abbrev pub child : Side → Node → Ptr
child left_side x = x.left
child right_side x = x.right

abbrev pub set_child : Side → Ptr → Node → Node
set_child left_side p x = record x { left = p }
set_child right_side p x = record x { right = p }

-- `sentinel_max`
abbrev pub sentinel_max : ℤ
sentinel_max = pos 2147483647

-- how a method ends: with a value, by an access to no node, or short of fuel
pub data Outcome {κ} (B : Type κ) : Type κ where
  done : B → Tree → Outcome B
  fault : Outcome B
  exhausted : Outcome B

abbrev pub and_then {κ μ} :
    {B : Type κ} {C : Type μ} → Outcome B → (B → Tree → Outcome C) → Outcome C
and_then (done b t) k = k b t
and_then fault k = fault
and_then exhausted k = exhausted

-- `*p` in what follows
abbrev pub at_node {κ} : {B : Type κ} → Tree → Ptr → (Node → Outcome B) → Outcome B
at_node t p k = elim (t.nodes p) [ none ↦ fault | some x ↦ k x ]

abbrev pub write : Ptr → Node → Tree → Tree
write p x t = record t { nodes = put t.nodes p x }

-- `prev->left = p` or `prev->right = p`
unfoldable pub write_child : Side → Ptr → Ptr → Tree → Outcome (Unit {0})
write_child s prev p t = at_node t prev λ x. done tt (write prev (set_child s p x) t)

-- `new Node()` and its value
abbrev pub make_node : ℤ → Ptr → Tree → Tree
make_node value fresh t = write fresh (node value null null) t

-- the test `value < curr->value`
abbrev pub side : ℤ → Node → Side
side value x = if lt_int value x.value then left_side else right_side

-- the loop of `insert`, and what stands behind it
unfoldable pub insert_loop : ℕ → ℤ → Ptr → Ptr → Ptr → Side → Tree → Outcome (Unit {0})
insert_loop zero value new curr prev s t = exhausted
insert_loop (suc fuel) value new curr prev s t = elim (curr == null) [
  | true ↦ write_child s prev new t
  | false ↦
      at_node t curr λ x. insert_loop fuel value new (child (side value x) x) curr (side value x) t
]

-- `insert` with the new node at `new`
unfoldable pub insert_section : ℕ → ℤ → Ptr → Tree → Outcome (Unit {0})
insert_section fuel value new t = elim (t.root == null) [
  | true ↦ done tt (record t { root = new })
  | false ↦ insert_loop fuel value new t.root null left_side t
]

-- the loop of `get_min_UNSAFE`
unfoldable pub min_loop : ℕ → Ptr → Tree → Outcome ℤ
min_loop zero curr t = exhausted
min_loop (suc fuel) curr t =
    at_node t curr
      λ x. elim (x.left == null) [ true ↦ done x.value t | false ↦ min_loop fuel x.left t ]

-- `get_min_UNSAFE`
unfoldable pub min_from : ℕ → Ptr → Tree → Outcome ℤ
min_from fuel p t = elim (p == null) [ true ↦ done sentinel_max t | false ↦ min_loop fuel p t ]

-- `remove` of a node with no children
unfoldable pub unlink_leaf : Ptr → Ptr → Side → Tree → Outcome (Unit {0})
unlink_leaf curr prev s t = elim (not (curr == t.root) && not (prev == null)) [
  | true ↦ write_child s prev null t
  | false ↦ done tt (record t { root = null })
]

-- `curr->left ? curr->left : curr->right`
abbrev pub only_child : Node → Ptr
only_child x = if x.left == null then x.right else x.left

-- `remove` of a node with one child
unfoldable pub unlink_single : Ptr → Ptr → Side → Tree → Outcome (Unit {0})
unlink_single curr prev s t = at_node t curr λ x. elim (curr == t.root) [
  | true ↦ done tt (record t { root = only_child x })
  | false ↦ write_child s prev (only_child x) t
]

-- the loop of `remove` of htm-mcas, which returns once a node is out
unfoldable pub remove_once : ℕ → ℤ → Ptr → Ptr → Side → Tree → Outcome (Unit {0})
remove_once zero value curr prev s t = exhausted
remove_once (suc fuel) value curr prev s t = elim (curr == null) [
  | true ↦ done tt t
  | false ↦ at_node t curr λ x. elim (eq_int x.value value) [
    | true ↦ elim (x.left == null && x.right == null) [
      | true ↦ unlink_leaf curr prev s t
      | false ↦ elim (not (x.left == null) && not (x.right == null)) [
        | true ↦ and_then (min_from fuel x.right t) λ least t'.
            remove_once fuel least x.right curr right_side
              (write curr (record x { value = least }) t')
        | false ↦ unlink_single curr prev s t
      ]
    ]
    | false ↦ remove_once fuel value (child (side value x) x) curr (side value x) t
  ]
]
