-- ===== src/Lockbased/Deque/Shape.antt =====
-- The heap of a deque: its cells between the two sentinels.
use data_structure_benchmark.Base.{◌≡◌, refl, ap, ◌≢◌, true, false, none, some, [], ◌∷◌, ◌++◌}
use data_structure_benchmark.Base.Int.{ℤ, pos}
use data_structure_benchmark.Heap.{Ptr, node, null, Heap}
use data_structure_benchmark.Heap.Chain.{Cells, has, Linked, Distinct, frame, not_has_of_none}
use data_structure_benchmark.Lockbased.Deque.{Deque}

-- every node of the deque, the sentinels at both ends
abbrev pub nodes : Deque → Cells ℤ → Cells ℤ
nodes d xs = (d.head, pos 0) ∷ (xs ++ (d.tail, pos 0) ∷ [])

-- In `h` the deque holds the cells `xs`, from front to back.
pub record IsDeque (h : Heap ℤ) (d : Deque) (xs : Cells ℤ) : Type 0 where
  pub linked : Linked h null null (nodes d xs)
  pub distinct : Distinct (nodes d xs)

-- A live node at `n` that is none of `xs`: one that a thread has made and not yet put into the
-- deque, or has taken out and not yet deleted.
pub record IsOwn (h : Heap ℤ) (n : Ptr) (v : ℤ) (xs : Cells ℤ) : Type 0 where
  pub holds : (x : Ptr) × (y : Ptr) × (h n ≡ some (node v x y))
  pub ne_null : n ≢ null
  pub out : has n xs ≡ false

-- The nodes of a deque behind its first sentinel.
pub front_view :
    (d : Deque) (xs : Cells ℤ)
    → (c : Ptr) × (vc : ℤ) × (ys : Cells ℤ) × (xs ++ (d.tail, pos 0) ∷ [] ≡ (c, vc) ∷ ys)
front_view d [] = (d.tail, pos 0, [], refl)
front_view d ((c, vc) ∷ xs) = (c, vc, xs ++ (d.tail, pos 0) ∷ [], refl)

-- The nodes before its last sentinel, with room for `new` between.
pub back_view_from :
    (p : Ptr × ℤ) (d : Deque) (xs : Cells ℤ)
    → (zs : Cells ℤ) × (a : Ptr) × (va : ℤ) × ((new : Cells ℤ)
        → p ∷ ((xs ++ new) ++ (d.tail, pos 0) ∷ []) ≡ zs ++ (a, va) ∷ (new ++ (d.tail, pos 0) ∷ []))
back_view_from p d [] = ([], p.0, p.1, λ new. refl)
back_view_from p d (x ∷ xs) =
    let (zs, a, va, eq) = back_view_from x d xs in (p ∷ zs, a, va, λ new. ap (λ z. p ∷ z) (eq new))

-- A deque survives any change that spares its nodes.
pub IsDeque-frame :
    (h g : Heap ℤ) (d : Deque) (xs : Cells ℤ)
    → IsDeque h d xs
    → ((a : Ptr) → has a (nodes d xs) ≡ true → g a ≡ h a)
    → IsDeque g d xs
IsDeque-frame h g d xs is same = record {
  linked = frame h g null null (nodes d xs) is.linked same;
  distinct = is.distinct;
}

-- An address with no live node is not in the deque.
pub not_has_of_unused :
    (h : Heap ℤ) (d : Deque) (xs : Cells ℤ) (a : Ptr)
    → IsDeque h d xs
    → h a ≡ none
    → has a (nodes d xs) ≡ false
not_has_of_unused h d xs a is gone = not_has_of_none h null null (nodes d xs) a is.linked gone
