-- ===== src/SearchTree/Whole.antt =====
-- The loops on a whole tree, from its root.
use data_structure_benchmark.Base.{
  ℕ, ◌<◌, ◌≡◌, ◌⊎◌, refl, true, false, Bool-cases, inl, inr, arith, ap, ◌∙◌,
}
use data_structure_benchmark.Base.Int.{ℤ, lt_int, eq_int}
use data_structure_benchmark.Heap.{Ptr, null}
use data_structure_benchmark.SearchTree.{Tree, left_side, done, min_from, remove_once, sentinel_max}
use data_structure_benchmark.SearchTree.Spec.{
  Branches, leaf, branch, address, size, count, least, joined, delete, delete-found, delete-left,
  delete-right,
}
use data_structure_benchmark.SearchTree.Order.{
  All, NotBelow, IsOrdered, least-NotBelow, count-least,
}
use data_structure_benchmark.SearchTree.Shape.{has, Holds, Apart, at_root, Replaced}
use data_structure_benchmark.SearchTree.Insert.{IsTree}
use data_structure_benchmark.SearchTree.Remove.{min_from_lem}
use data_structure_benchmark.SearchTree.Delete.{remove_once-Deletes}

has-joined :
    (b : Ptr) (l : Branches) (a : Ptr) (w : ℤ) (r rest : Branches)
    → (has b rest ≡ true → has b r ≡ true)
    → has b (joined l a r rest) ≡ true
    → has b (branch l a w r) ≡ true
has-joined b leaf a w r rest sub i = ground arith
has-joined b (branch ll c u lr) a w leaf rest sub i = ground arith
has-joined b (branch ll c u lr) a w (branch rl d x rr) rest sub i = ground arith

-- A deletion makes no address.
has-delete : (b : Ptr) (v : ℤ) (t : Branches) → has b (delete v t) ≡ true → has b t ≡ true
unfolding delete
has-delete b v leaf i = i
has-delete b v (branch l a w r) i = elim (Bool-cases (eq_int w v)) [
  | inl e ↦
      has-joined b l a w r (delete (least r) r) (has-delete b (least r) r)
        (rw⁻¹ (delete-found v l a w r e) i)
  | inr e ↦ ground (arith, has-delete b v l, has-delete b v r)
]

out_delete : (b : Ptr) (v : ℤ) (t : Branches) → has b t ≡ false → has b (delete v t) ≡ false
out_delete b v t o = elim (Bool-cases (has b (delete v t))) [
  | inl i ↦ absurd (ground (arith, has-delete b v t i))
  | inr j ↦ j
]

Apart-joined :
    (l : Branches) (a : Ptr) (w : ℤ) (r : Branches) (v : ℤ)
    → Apart (branch l a w r)
    → Apart (delete v r)
    → Apart (joined l a r (delete v r))
Apart-joined leaf a w r v apart d = apart.5
Apart-joined (branch ll c u lr) a w leaf v apart d = apart.4
Apart-joined (branch ll c u lr) a w (branch rl e x rr) v apart d = (
  apart.0,
  apart.1,
  out_delete a v (branch rl e x rr) apart.2,
  λ b i. out_delete b v (branch rl e x rr) (apart.3 b i),
  apart.4,
  d,
)

pub Apart-delete : (v : ℤ) (t : Branches) → Apart t → Apart (delete v t)
unfolding delete
Apart-delete v leaf apart = tt
Apart-delete v (branch l a w r) apart = elim (Bool-cases (eq_int w v)) [
  | inl e ↦
      rw (delete-found v l a w r e)
        (Apart-joined l a w r (least r) apart (Apart-delete (least r) r apart.5))
  | inr e ↦ elim (Bool-cases (lt_int v w)) [
    | inl lt ↦ rw (delete-left v l a w r e lt) (
      apart.0,
      out_delete a v l apart.1,
      apart.2,
      λ b i. apart.3 b (has-delete b v l i),
      Apart-delete v l apart.4,
      apart.5,
    )
    | inr ge ↦ rw (delete-right v l a w r e ge) (
      apart.0,
      apart.1,
      out_delete a v r apart.2,
      λ b i. out_delete b v r (apart.3 b i),
      apart.4,
      Apart-delete v r apart.5,
    )
  ]
]

-- what replaced a tree at the root
pub Replaced-IsTree :
    (m g : Tree) (t t' : Branches)
    → Replaced m at_root t t' g
    → Apart t'
    → IsTree g t' × ((b : Ptr) → has b t ≡ false → g.nodes b ≡ m.nodes b)
Replaced-IsTree m g t t' rep apart =
    (record { root = rep.root; holds = rep.holds; apart = apart }, rep.same)

-- the loop that returns, from the root
pub remove_once-IsTree :
    (f : ℕ) (v : ℤ) (m : Tree) (t : Branches)
    → IsTree m t
    → size t < f
    → (g : Tree) × (remove_once f v m.root null left_side m ≡ done tt g)
      × IsTree g (delete v t)
      × ((b : Ptr) → has b t ≡ false → g.nodes b ≡ m.nodes b)
remove_once-IsTree f v m t is enough =
    let (g, ran, rep) =
      remove_once-Deletes t f v m at_root null left_side is.holds is.apart (is.root, refl) enough in
    let (whole, same) = Replaced-IsTree m g t (delete v t) rep (Apart-delete v t is.apart) in
    (g, ap (λ z. remove_once f v z null left_side m) is.root ∙ ran, whole, same)

-- What `get_min` is to return: the least value, or the sentinel of an empty tree.
abbrev pub IsMin : Branches → ℤ → Type 0
IsMin t k = All (NotBelow k) t × (((t ≡ leaf) × (k ≡ sentinel_max)) ⊎ (0 < count k t))

pub least-IsMin : (t : Branches) → IsOrdered t → IsMin t (least t)
least-IsMin leaf s = (tt, inl (refl, refl))
least-IsMin (branch l a w r) s = (least-NotBelow l a w r s, inr (count-least l a w r))

pub min_from-IsMin :
    (f : ℕ) (m : Tree) (t : Branches)
    → Holds m.nodes t
    → Apart t
    → IsOrdered t
    → size t < f
    → (k : ℤ) × (min_from f (address t) m ≡ done k m) × IsMin t k
min_from-IsMin f m t holds apart ordered enough =
    (least t, min_from_lem f m t holds apart enough, least-IsMin t ordered)
