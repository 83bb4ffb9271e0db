-- ===== src/HtmLock/BinarySearchTree/Equivalence.antt =====
-- The tree in transactions against the lock-based one.
use data_structure_benchmark.Base.{
  ℕ, zero, suc, ◌≡◌, ◌≢◌, refl, ap, ◌∙◌, Bool, true, false, Option, Option-cases, inl, inr, ◌&&◌,
  not, none, some, ◌==◌, if◌then◌else◌, arith, fun_ext,
}
use data_structure_benchmark.Base.Int.{ℤ, lt_int, eq_int}
use data_structure_benchmark.Heap.{Ptr, null}
use data_structure_benchmark.SearchTree as Shared
use data_structure_benchmark.SearchTree.{
  Node, Tree, Side, left_side, right_side, child, Outcome, done, fault, exhausted, and_then,
  at_node, write, side,
}
use data_structure_benchmark.Lockbased.BinarySearchTree as Locked
use data_structure_benchmark.Tm.{Answers, undecided, begin}
use data_structure_benchmark.HtmLock.BinarySearchTree.{
  transaction_runs, make_node, assign_child, insert_loop, insert_section, min_loop, min_section,
  remove_leaf, remove_single, remove_here, remove_loop, remove_section, insert, remove, get_min,
  get_min_of,
}

cases-cong {κ} :
    {B : Type κ} (o : Option Node) {k l : Node → Outcome B}
    → ((x : Node) → o ≡ some x → k x ≡ l x)
    → elim o [ none ↦ fault | some x ↦ k x ] ≡ elim o [ none ↦ fault | some x ↦ l x ]
cases-cong none e = refl
cases-cong (some x) e = e x refl

-- Two continuations that agree at the node.
at_node-cong {κ} :
    {B : Type κ} (t : Tree) (p : Ptr) {k l : Node → Outcome B}
    → ((x : Node) → t.nodes p ≡ some x → k x ≡ l x)
    → at_node t p k ≡ at_node t p l
at_node-cong t p e = cases-cong (t.nodes p) e

either-cong {κ} :
    {B : Type κ} {x x' y y' : B} (b : Bool)
    → x ≡ x'
    → y ≡ y'
    → elim b [ true ↦ x | false ↦ y ] ≡ elim b [ true ↦ x' | false ↦ y' ]
either-cong true e f = e
either-cong false e f = f

-- The two orders of the tests of `remove`: `found` for the value, `leaf` for no child, `both` for two.
tests-cong :
    (found leaf both : Bool) (l s n : Outcome (Unit {0})) (k : Unit {0} → Tree → Outcome (Unit {0}))
    {a a' l' s' n' : Outcome (Unit {0})}
    → (leaf ≡ true → both ≡ false)
    → a ≡ a'
    → and_then l k ≡ l'
    → and_then s k ≡ s'
    → and_then n k ≡ n'
    → elim (found && both) [
      | true ↦ a
      | false ↦ and_then (elim found [ true ↦ elim leaf [ true ↦ l | false ↦ s ] | false ↦ n ]) k
    ]
      ≡ elim found [
        | true ↦ elim leaf [ true ↦ l' | false ↦ elim both [ true ↦ a' | false ↦ s' ] ]
        | false ↦ n'
      ]
tests-cong true true true l s n k apart ea el es en = absurd (ground (arith, apart refl))
tests-cong true true false l s n k apart ea el es en = el
tests-cong true false true l s n k apart ea el es en = ea
tests-cong true false false l s n k apart ea el es en = es
tests-cong false leaf both l s n k apart ea el es en = en

at_node-here {κ} :
    {B : Type κ} (t : Tree) (p : Ptr) (k : Node → Outcome B) (x : Node)
    → t.nodes p ≡ some x
    → at_node t p k ≡ k x
at_node-here t p k x at = ap (λ (o : Option Node). elim o [ none ↦ fault | some y ↦ k y ]) at

and_then-cong {κ μ} :
    {B : Type κ} {C : Type μ} {o p : Outcome B} {k l : B → Tree → Outcome C}
    → o ≡ p
    → ((b : B) (t : Tree) → k b t ≡ l b t)
    → and_then o k ≡ and_then p l
and_then-cong {p} {k} e f = ap (λ z. and_then z k) e ∙ ap (and_then p) (fun_ext λ b. fun_ext (f b))

-- `curr = curr->left; type = LEFT;` or the other
choose :
    (b : Bool) (k : Ptr → Side → Outcome (Unit {0})) (x : Node)
    → elim b [ true ↦ k x.left left_side | false ↦ k x.right right_side ]
      ≡ k (child (if b then left_side else right_side) x) (if b then left_side else right_side)
choose true k x = refl
choose false k x = refl

assign_child-write_child :
    (s : Side) (prev p : Ptr) (t : Tree) → assign_child s prev p t ≡ Shared.write_child s prev p t
unfolding assign_child Shared.write_child
assign_child-write_child left_side prev p t = refl
assign_child-write_child right_side prev p t = refl

insert_loop-locked :
    (f : ℕ) (v : ℤ) (n c prev : Ptr) (s : Side) (t : Tree)
    → insert_loop f v n c prev s t ≡ Shared.insert_loop f v n c prev s t
unfolding insert_loop Shared.insert_loop
insert_loop-locked zero v n c prev s t = refl
insert_loop-locked (suc f) v n c prev s t =
    either-cong (c == null) (assign_child-write_child s prev n t) (
      at_node-cong t c λ x at.
        either-cong (lt_int v x.value) (insert_loop-locked f v n x.left c left_side t)
          (insert_loop-locked f v n x.right c right_side t)
        ∙ choose (lt_int v x.value) (λ p z. Shared.insert_loop f v n p c z t) x)

insert_section-locked :
    (f : ℕ) (v : ℤ) (n : Ptr) (t : Tree) → insert_section f v n t ≡ Shared.insert_section f v n t
unfolding insert_section Shared.insert_section
insert_section-locked f v n t = ground (arith, insert_loop-locked f v n t.root null left_side t)

min_loop-locked : (f : ℕ) (c : Ptr) (t : Tree) → min_loop f c t ≡ Shared.min_loop f c t
unfolding min_loop Shared.min_loop
min_loop-locked zero c t = refl
min_loop-locked (suc f) c t = ground (arith, λ (x : Node). min_loop-locked f x.left t)

min_section-locked : (f : ℕ) (c : Ptr) (t : Tree) → min_section f c t ≡ Shared.min_from f c t
unfolding min_section Shared.min_from
min_section-locked f c t = ground (arith, min_loop-locked f c t)

remove_leaf-locked :
    (c prev : Ptr) (s : Side) (t : Tree) → remove_leaf c prev s t ≡ Shared.unlink_leaf c prev s t
unfolding remove_leaf Shared.unlink_leaf
remove_leaf-locked c prev s t = ground (arith, assign_child-write_child s prev null t)

remove_single-locked :
    (c prev : Ptr) (s : Side) (t : Tree)
    → remove_single c prev s t ≡ Shared.unlink_single c prev s t
unfolding remove_single Shared.unlink_single
remove_single-locked c prev s t = elim (Option-cases (t.nodes c)) [
  | inl gone ↦ ground arith
  | inr (x, at) ↦
      ground
        (arith, at, assign_child-write_child s prev (if x.left == null then x.right else x.left) t)
]

-- one round of `remove`, if the rest of the loop agrees
module _ (f : ℕ)
    (rest : (v : ℤ) (c prev : Ptr) (s : Side) (t : Tree)
      → remove_loop f v c prev s t ≡ Locked.remove_loop f v c prev s t)
    (v : ℤ) (c : Ptr) where
  advance :
      (t : Tree) (y : Node)
      → elim (lt_int v y.value) [
        | true ↦ remove_loop f v y.left c left_side t
        | false ↦ remove_loop f v y.right c right_side t
      ]
        ≡ Locked.remove_loop f v (child (side v y) y) c (side v y) t
  advance t y =
      either-cong (lt_int v y.value) (rest v y.left c left_side t) (rest v y.right c right_side t)
      ∙ choose (lt_int v y.value) (λ p z. Locked.remove_loop f v p c z t) y

  behind :
      {o p : Outcome (Unit {0})}
      → o ≡ p
      → and_then o (λ _ t. at_node t c λ y. elim (lt_int v y.value) [
        | true ↦ remove_loop f v y.left c left_side t
        | false ↦ remove_loop f v y.right c right_side t
      ])
        ≡ and_then p
            (λ _ t. at_node t c λ y. Locked.remove_loop f v (child (side v y) y) c (side v y) t)
  behind e = and_then-cong e λ u t. at_node-cong t c λ y at. advance t y

  remove_round-locked :
      (prev : Ptr) (s : Side) (t : Tree)
      → remove_loop (suc f) v c prev s t ≡ Locked.remove_loop (suc f) v c prev s t
  unfolding remove_loop Locked.remove_loop remove_here
  remove_round-locked prev s t = either-cong (c == null) refl (
      at_node-cong t c λ x at.
        tests-cong (eq_int x.value v) (x.left == null && x.right == null)
          (not (x.left == null) && not (x.right == null)) (remove_leaf c prev s t)
          (remove_single c prev s t) (done tt t)
          (λ _ t'. at_node t' c λ y. elim (lt_int v y.value) [
            | true ↦ remove_loop f v y.left c left_side t'
            | false ↦ remove_loop f v y.right c right_side t'
          ])
          (λ e. ground arith)
          (and_then-cong (min_section-locked f x.right t)
            λ k t'. rest k x.right c right_side (write c (record x { value = k }) t'))
          (behind (remove_leaf-locked c prev s t)) (behind (remove_single-locked c prev s t))
          (at_node-here t c
              (λ y. elim (lt_int v y.value) [
                | true ↦ remove_loop f v y.left c left_side t
                | false ↦ remove_loop f v y.right c right_side t
              ])
              x at
            ∙ advance t x))

remove_loop-locked :
    (f : ℕ) (v : ℤ) (c prev : Ptr) (s : Side) (t : Tree)
    → remove_loop f v c prev s t ≡ Locked.remove_loop f v c prev s t
unfolding remove_loop Locked.remove_loop
remove_loop-locked zero v c prev s t = refl
remove_loop-locked (suc f) v c prev s t = remove_round-locked f (remove_loop-locked f) v c prev s t

made : (v : ℤ) (n : Ptr) (t : Tree) → make_node v n t ≡ Shared.make_node v n t
unfolding make_node
made v n t = refl

-- Once `TM_BEGIN` has returned, `insert`, `remove` and the two `get_min` do to any root and any nodes, whether they
-- make up a tree or not, what the lock-based ones do, with the same result.
pub search_tree-locked :
    (tries : Answers) (fuel : ℕ) (v : ℤ) (fresh p : Ptr) (t : Tree)
    → begin tries ≢ undecided
    → (insert tries fuel v fresh t ≡ Locked.insert fuel v fresh t)
      × (remove tries fuel v t ≡ Locked.remove fuel v t)
      × (get_min tries fuel t ≡ Locked.get_min fuel t)
      × (get_min_of tries fuel p t ≡ Locked.get_min_of fuel p t)
unfolding insert remove get_min get_min_of remove_section Locked.insert Locked.remove Locked.get_min
    Locked.get_min_of
search_tree-locked tries fuel v fresh p t decided = (
  rw (transaction_runs tries (insert_section fuel v fresh) decided, made v fresh t)
      (insert_section-locked fuel v fresh (Shared.make_node v fresh t)),
  rw (transaction_runs tries (remove_section fuel v) decided)
      (remove_loop-locked fuel v t.root null left_side t),
  rw (transaction_runs tries (λ (u : Tree). min_section fuel u.root u) decided)
      (min_section-locked fuel t.root t),
  rw (transaction_runs tries (min_section fuel p) decided) (min_section-locked fuel p t),
)
