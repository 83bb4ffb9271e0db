-- ===== src/SearchTree/Insert.antt =====
-- `insert` on a whole tree.
use data_structure_benchmark.Base.{
  ℕ, ◌<◌, ◌≡◌, ◌≢◌, refl, true, false, Bool-cases, inl, inr, ◌||◌, none, some, ◌==◌, arith, sym, ap,
  ◌∙◌,
}
use data_structure_benchmark.Base.Int.{ℤ, lt_int}
use data_structure_benchmark.Heap.{Ptr, null}
use data_structure_benchmark.SearchTree.{
  node, Nodes, put, Tree, left_side, done, insert_loop, insert_section, make_node,
}
use data_structure_benchmark.SearchTree.Spec.{
  Branches, leaf, branch, address, size, insert, insert-left, insert-right,
}
use data_structure_benchmark.SearchTree.Shape.{has, Holds, Apart, frame}
use data_structure_benchmark.SearchTree.Grow.{address-insert, insert_loop-Hangs}

-- The nodes of a whole tree, and its root.
pub record IsTree (m : Tree) (t : Branches) : Type 0 where
  pub root : m.root ≡ address t
  pub holds : Holds m.nodes t
  pub apart : Apart t

-- The addresses behind an insertion.
has-insert :
    (b : Ptr) (v : ℤ) (n : Ptr) (t : Branches) → has b (insert v n t) ≡ ((b == n) || has b t)
unfolding insert
has-insert b v n leaf = ground arith
has-insert b v n (branch l a w r) = ground (arith, has-insert b v n l, has-insert b v n r)

Apart-insert :
    (v : ℤ) (n : Ptr) (t : Branches) → Apart t → n ≢ null → has n t ≡ false → Apart (insert v n t)
unfolding insert
Apart-insert v n leaf apart ne out = (ne, refl, refl, λ b i. refl, tt, tt)
Apart-insert v n (branch l a w r) apart ne out = elim (Bool-cases (lt_int v w)) [
  | inl lt ↦ rw (insert-left v n l a w r lt) (
    apart.0,
    ground (arith, has-insert a v n l),
    apart.2,
    λ b i. ground (arith, has-insert b v n l, apart.3 b),
    Apart-insert v n l apart.4 ne (ground arith),
    apart.5,
  )
  | inr ge ↦ rw (insert-right v n l a w r ge) (
    apart.0,
    apart.1,
    ground (arith, has-insert a v n r),
    λ b i. ground (arith, has-insert b v n r, apart.3 b i),
    apart.4,
    Apart-insert v n r apart.5 ne (ground arith),
  )
]

-- An address that holds no node is not in a tree.
pub out_of_free : (h : Nodes) (t : Branches) (n : Ptr) → Holds h t → h n ≡ none → has n t ≡ false
out_of_free h leaf n is free = refl
out_of_free h (branch l a w r) n is free =
    ground (arith, is.0, out_of_free h l n is.1 free, out_of_free h r n is.2 free)

-- `insert` into a tree that is not empty
section_step :
    (f : ℕ) (v : ℤ) (n : Ptr) (m : Tree)
    → m.root ≢ null
    → insert_section f v n m ≡ insert_loop f v n m.root null left_side m
unfolding insert_section
section_step f v n m ne = ground arith

pub made_here : (v : ℤ) (n : Ptr) (m : Tree) → (make_node v n m).nodes n ≡ some (node v null null)
unfolding put
made_here v n m = ground arith

pub made_other :
    (v : ℤ) (n : Ptr) (m : Tree) (b : Ptr) → b ≢ n → (make_node v n m).nodes b ≡ m.nodes b
unfolding put
made_other v n m b ne = ground arith

ne_of_has : (n b : Ptr) (t : Branches) → has n t ≡ false → has b t ≡ true → b ≢ n
ne_of_has n b t out i e = cc

-- `insert` of a fresh node into a tree.
pub insert_section-IsTree :
    (t : Branches) (v : ℤ) (n : Ptr) (m : Tree) (f : ℕ)
    → IsTree m t
    → n ≢ null
    → m.nodes n ≡ none
    → size t < f
    → (g : Tree) × (insert_section f v n (make_node v n m) ≡ done tt g)
      × IsTree g (insert v n t)
      × ((b : Ptr) → b ≢ n → has b t ≡ false → g.nodes b ≡ m.nodes b)
unfolding insert_section put insert
insert_section-IsTree leaf v n m f is ne free enough = (
  record (make_node v n m) { root = n },
  ground (arith, is.root),
  record {
    root = refl;
    holds = (ground arith, tt, tt);
    apart = (ne, refl, refl, λ b i. refl, tt, tt);
  },
  λ b other o. ground arith,
)
insert_section-IsTree (branch l a w r) v n m f is ne free enough =
    let t = branch l a w r in
    let out = out_of_free m.nodes t n is.holds free in
    let made = make_node v n m in
    let held =
      frame m.nodes made.nodes t is.holds λ b i. made_other v n m b (ne_of_has n b t out i) in
    let here = made_here v n m in
    let (g, ran, grown) =
      insert_loop-Hangs v n made here t f null left_side held is.apart out enough in
    (
      g,
      section_step f v n made (λ e. is.apart.0 (sym is.root ∙ e))
          ∙ ap (λ z. insert_loop f v n z null left_side made) is.root
          ∙ ran,
      record {
        root = grown.root ∙ is.root ∙ sym (address-insert v n made here l a w r);
        holds = grown.holds;
        apart = Apart-insert v n t is.apart ne out;
      },
      λ b other o. grown.same b o ∙ made_other v n m b other,
    )
