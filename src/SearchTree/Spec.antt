-- ===== src/SearchTree/Spec.antt =====
-- The trees as values, with the address of each node, and what the methods make of them.
use data_structure_benchmark.Base.{ℕ, suc, ◌+◌, ◌≡◌, true, false, if◌then◌else◌, arith}
use data_structure_benchmark.Base.Int.{ℤ, lt_int, eq_int}
use data_structure_benchmark.Heap.{Ptr, null}
use data_structure_benchmark.SearchTree.{sentinel_max}

pub data Branches : Type 0 where
  leaf : Branches
  branch : Branches → Ptr → ℤ → Branches → Branches

abbrev pub address : Branches → Ptr
address leaf = null
address (branch l a w r) = a

abbrev pub size : Branches → ℕ
size leaf = 0
size (branch l a w r) = suc (size l + size r)

-- how often a value occurs
abbrev pub count : ℤ → Branches → ℕ
count x leaf = 0
count x (branch l a w r) = (if eq_int w x then 1 else 0) + (count x l + count x r)

-- the leftmost value
abbrev pub least : Branches → ℤ
least leaf = sentinel_max
least (branch leaf a w r) = w
least (branch (branch ll b u lr) a w r) = least (branch ll b u lr)

unfoldable pub insert : ℤ → Ptr → Branches → Branches
insert v n leaf = branch leaf n v leaf
insert v n (branch l a w r) = elim (lt_int v w) [
  | true ↦ branch (insert v n l) a w r
  | false ↦ branch l a w (insert v n r)
]

-- a tree without its first value, where `rest` is the right part without its least value
abbrev pub joined : Branches → Ptr → Branches → Branches → Branches
joined leaf a r rest = r
joined (branch ll b u lr) a leaf rest = branch ll b u lr
joined (branch ll b u lr) a (branch rl c w rr) rest =
    branch (branch ll b u lr) a (least (branch rl c w rr)) rest

-- one occurrence less, of those that the comparisons lead to
unfoldable pub delete : ℤ → Branches → Branches
delete v leaf = leaf
delete v (branch l a w r) = elim (eq_int w v) [
  | true ↦ joined l a r (delete (least r) r)
  | false ↦ elim (lt_int v w) [
    | true ↦ branch (delete v l) a w r
    | false ↦ branch l a w (delete v r)
  ]
]

module _ (v : ℤ) (n : Ptr) (l : Branches) (a : Ptr) (w : ℤ) (r : Branches) where
  pub insert-left : lt_int v w ≡ true → insert v n (branch l a w r) ≡ branch (insert v n l) a w r
  unfolding insert
  insert-left e = ground arith

  pub insert-right : lt_int v w ≡ false → insert v n (branch l a w r) ≡ branch l a w (insert v n r)
  unfolding insert
  insert-right e = ground arith

module _ (v : ℤ) (l : Branches) (a : Ptr) (w : ℤ) (r : Branches) where
  pub delete-found :
      eq_int w v ≡ true → delete v (branch l a w r) ≡ joined l a r (delete (least r) r)
  unfolding delete
  delete-found e = ground arith

  pub delete-left :
      eq_int w v ≡ false → lt_int v w ≡ true → delete v (branch l a w r) ≡ branch (delete v l) a w r
  unfolding delete
  delete-left e f = ground arith

  pub delete-right :
      eq_int w v ≡ false
      → lt_int v w ≡ false
      → delete v (branch l a w r) ≡ branch l a w (delete v r)
  unfolding delete
  delete-right e f = ground arith
