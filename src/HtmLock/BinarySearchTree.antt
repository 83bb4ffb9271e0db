-- ===== src/HtmLock/BinarySearchTree.antt =====
-- htm-lock/BinarySearchTree.h: what stands between `TM_BEGIN` and `TM_END` is a function `…_section`; each
-- loop takes fuel. The nodes that `remove` takes out are never deleted.
pub mod Equivalence
use data_structure_benchmark.Base.{
  ℕ, zero, suc, ◌≡◌, ◌≢◌, refl, Bool, true, false, ◌&&◌, not, Option, none, some, List, ◌==◌,
  if◌then◌else◌,
}
use data_structure_benchmark.Base.Int.{ℤ, lt_int, eq_int}
use data_structure_benchmark.Heap.{Ptr, null}
use data_structure_benchmark.SearchTree.{
  Node, Nodes, Tree, Side, left_side, right_side, sentinel_max, Outcome, done, fault, exhausted,
  and_then, at_node, write,
}
use data_structure_benchmark.Tm.{Answers, Entry, speculative, fallback, refused, undecided, begin}
use data_structure_benchmark.Tm.Begin.{begin-ne_refused}

-- `BinarySearchTree()`
abbrev pub construct : Nodes → Tree
construct h = record { root = null; nodes = h }

-- the body of a transaction, in either of its ways to run
unfoldable pub transaction {κ} : {B : Type κ} → Answers → (Tree → Outcome B) → Tree → Outcome B
transaction tries body = elim (begin tries) [
  | speculative ↦ body
  | fallback ↦ body
  | refused ↦ λ _. exhausted
  | undecided ↦ λ _. exhausted
]

by_entry {κ} :
    {B : Type κ} (e : Entry) (body : Tree → Outcome B)
    → e ≢ refused
    → e ≢ undecided
    → elim e [
      | speculative ↦ body
      | fallback ↦ body
      | refused ↦ λ _. exhausted
      | undecided ↦ λ _. exhausted
    ]
      ≡ body
by_entry speculative body p q = refl
by_entry fallback body p q = refl
by_entry refused body p q = absurd (p refl)
by_entry undecided body p q = absurd (q refl)

-- Once `TM_BEGIN` has returned, the body runs.
pub transaction_runs {κ} :
    {B : Type κ} (tries : Answers) (body : Tree → Outcome B)
    → begin tries ≢ undecided
    → transaction tries body ≡ body
unfolding transaction
transaction_runs tries body decided = by_entry (begin tries) body (begin-ne_refused tries) decided

-- the new node of `insert`
unfoldable pub make_node : ℤ → Ptr → Tree → Tree
make_node value fresh t = write fresh (record { value = value; left = null; right = null }) t

-- `if (type == LEFT) prev->left = p; else prev->right = p;`
unfoldable pub assign_child : Side → Ptr → Ptr → Tree → Outcome (Unit {0})
assign_child s prev p t = elim s [
  | left_side ↦ at_node t prev λ x. done tt (write prev (record x { left = p }) t)
  | right_side ↦ at_node t prev λ x. done tt (write prev (record x { right = p }) t)
]

-- the loop of `insert`, and what stands behind it
unfoldable pub insert_loop : ℕ → ℤ → Ptr → Ptr → Ptr → Side → Tree → Outcome (Unit {0})
insert_loop zero value new curr prev s t = exhausted
insert_loop (suc fuel) value new curr prev s t = elim (curr == null) [
  | true ↦ assign_child s prev new t
  | false ↦ at_node t curr λ x. elim (lt_int value x.value) [
    | true ↦ insert_loop fuel value new x.left curr left_side t
    | false ↦ insert_loop fuel value new x.right curr right_side t
  ]
]

unfoldable pub insert_section : ℕ → ℤ → Ptr → Tree → Outcome (Unit {0})
insert_section fuel value new t = elim (t.root == null) [
  | true ↦ done tt (record t { root = new })
  | false ↦ insert_loop fuel value new t.root null left_side t
]

-- the loop of `get_min_UNSAFE`
unfoldable pub min_loop : ℕ → Ptr → Tree → Outcome ℤ
min_loop zero curr t = exhausted
min_loop (suc fuel) curr t =
    at_node t curr
      λ x. elim (x.left == null) [ true ↦ done x.value t | false ↦ min_loop fuel x.left t ]

-- `get_min_UNSAFE`
unfoldable pub min_section : ℕ → Ptr → Tree → Outcome ℤ
min_section fuel p t = elim (p == null) [ true ↦ done sentinel_max t | false ↦ min_loop fuel p t ]

-- in `remove`: a node with no children
unfoldable pub remove_leaf : Ptr → Ptr → Side → Tree → Outcome (Unit {0})
remove_leaf curr prev s t = elim (not (curr == t.root) && not (prev == null)) [
  | true ↦ assign_child s prev null t
  | false ↦ done tt (record t { root = null })
]

-- a node with one child
unfoldable pub remove_single : Ptr → Ptr → Side → Tree → Outcome (Unit {0})
remove_single curr prev s t = elim (curr == t.root) [
  | true ↦
      at_node t t.root λ x. done tt (record t { root = if x.left == null then x.right else x.left })
  | false ↦ at_node t curr λ x. assign_child s prev (if x.left == null then x.right else x.left) t
]

-- the round of `remove` at a node with at most one child, or with another value
unfoldable pub remove_here : ℤ → Node → Ptr → Ptr → Side → Tree → Outcome (Unit {0})
remove_here value x curr prev s t = elim (eq_int x.value value) [
  | true ↦ elim (x.left == null && x.right == null) [
    | true ↦ remove_leaf curr prev s t
    | false ↦ remove_single curr prev s t
  ]
  | false ↦ done tt t
]

-- The loop of `remove`. Behind a node that was taken out it goes on, from that node's children.
unfoldable pub remove_loop : ℕ → ℤ → Ptr → Ptr → Side → Tree → Outcome (Unit {0})
remove_loop zero value curr prev s t = exhausted
remove_loop (suc fuel) value curr prev s t = elim (curr == null) [
  | true ↦ done tt t
  | false ↦ at_node t curr λ x.
      elim (eq_int x.value value && (not (x.left == null) && not (x.right == null))) [
        | true ↦ and_then (min_section fuel x.right t) λ value t'.
            remove_loop fuel value x.right curr right_side
              (write curr (record x { value = value }) t')
        | false ↦ and_then (remove_here value x curr prev s t) λ _ t'. at_node t' curr λ y.
            elim (lt_int value y.value) [
              | true ↦ remove_loop fuel value y.left curr left_side t'
              | false ↦ remove_loop fuel value y.right curr right_side t'
            ]
      ]
]

-- the whole of `remove` behind `TM_BEGIN`
unfoldable pub remove_section : ℕ → ℤ → Tree → Outcome (Unit {0})
remove_section fuel value t = remove_loop fuel value t.root null left_side t

module _ (tries : Answers) where
  unfoldable pub insert : ℕ → ℤ → Ptr → Tree → Outcome (Unit {0})
  insert fuel value fresh t =
      transaction tries (insert_section fuel value fresh) (make_node value fresh t)

  unfoldable pub remove : ℕ → ℤ → Tree → Outcome (Unit {0})
  remove fuel value t = transaction tries (remove_section fuel value) t

  unfoldable pub get_min : ℕ → Tree → Outcome ℤ
  get_min fuel t = transaction tries (λ u. min_section fuel u.root u) t

  -- `get_min` of the tree at a node
  unfoldable pub get_min_of : ℕ → Ptr → Tree → Outcome ℤ
  get_min_of fuel p t = transaction tries (min_section fuel p) t
