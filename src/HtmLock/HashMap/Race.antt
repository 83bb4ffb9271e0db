-- ===== src/HtmLock/HashMap/Race.antt =====
-- `find` reads the value of its node behind `TM_END`, where the other threads run.
use data_structure_benchmark.Base.{
  ℕ, zero, suc, ◌<◌, ◌≡◌, ◌≢◌, refl, sym, subst, Bool-cases, Option, false, inl, inr, ◌==◌, arith,
  none, some, [], ◌∷◌, ◌++◌, eq_refl, ◌∙◌, ap,
}
use data_structure_benchmark.Base.Int.{ℤ, eq_int}
use data_structure_benchmark.Base.Lists.{length}
use data_structure_benchmark.Heap.{Ptr, null, Heap, done, fault, write}
use data_structure_benchmark.Heap.Access.{load_ok, load-none, delete_ok}
use data_structure_benchmark.Heap.Chain.{Cells, first, Linked, Distinct, has-append, first-append}
use data_structure_benchmark.Heap.Finishes
use data_structure_benchmark.Heap.Finishes.{Finishes, finishes}
use data_structure_benchmark.Linked.Shape.{Holds, head_at, cell_ne_tail}
use data_structure_benchmark.Linked.Walk.{passed, left, passed-append-left, walk_lem}
use data_structure_benchmark.Linked.Link.{unlink_node_lem}
use data_structure_benchmark.Tm.{Answers, undecided, begin}
use data_structure_benchmark.HtmLock.{atomically_runs}
use data_structure_benchmark.HtmLock.HashMap.{
  HashMap, find_loop, read_found, remove_section, find_section, remove,
}
use data_structure_benchmark.Lockbased.HashMap.{Entry, other_key, index, remove_at, dispose}
use data_structure_benchmark.Lockbased.HashMap.Table.{hd, tl, lookup, IsTable}
use data_structure_benchmark.Lockbased.HashMap.Effect.{value_at, index_bound}

-- the first address of the cells
abbrev head_of : Cells Entry → Option Ptr
head_of [] = none
head_of ((p, e) ∷ xs) = some p

find_loop-left :
    (h : Heap Entry) (key : ℤ) (t : Ptr × Entry) (k : ℕ) (b : Ptr) (xs : Cells Entry)
    → Linked h b null (xs ++ t ∷ [])
    → Distinct (xs ++ t ∷ [])
    → length xs < k
    → find_loop key t.0 k (first t.0 xs) h ≡ done (head_of (left (other_key key) xs)) h
unfolding find_loop
find_loop-left h key t zero b xs l s fuel = absurd (omega arith)
find_loop-left h key t (suc k) b [] l s fuel = rw (eq_refl t.0) refl
find_loop-left h key t (suc k) b ((p, e) ∷ xs) l s fuel =
    let ne : (p == t.0) ≡ false = ground (arith, s.1, has-append p xs (t ∷ [])) in
    let next = first-append null xs (t ∷ []) in
    rw (ne, load_ok h p l.0)
      (elim (Bool-cases (eq_int e.key key)) [
        | inl q ↦ rw q refl
        | inr q ↦ rw (q, next) (find_loop-left h key t k p xs l.1 s.2 (omega arith))
      ])

left-of-lookup :
    (key v : ℤ) (xs : Cells Entry)
    → lookup key xs ≡ some v
    → (p : Ptr) × (e : Entry) × (ys : Cells Entry) × (left (other_key key) xs ≡ (p, e) ∷ ys)
left-of-lookup key v [] at = cc
left-of-lookup key v ((p, e) ∷ xs) at = elim (Bool-cases (eq_int e.key key)) [
  | inl q ↦ (p, e, xs, rw q refl)
  | inr q ↦ rw q (left-of-lookup key v xs (rw q at at))
]

-- The removal of a node that was found deletes it.
deletes_found :
    (h : Heap Entry) (m : HashMap) (i : ℕ) (us : Cells Entry) (p : Ptr) (e : Entry)
    (ys : Cells Entry)
    → Holds h (hd m i) (tl m i) (us ++ (p, e) ∷ ys)
    → Finishes
        (λ r g. Finishes (λ _ g'. g' p ≡ none) (dispose r g))
        (remove_at (m.bucket_tails i) p h)
unfolding remove_at dispose write
deletes_found h m i us p e ys is = rw (cell_ne_tail h (hd m i) (tl m i) us p e ys is) (
    Finishes.chain (unlink_node_lem h p e (hd m i) (tl m i) us ys is) λ _ g post.
      let (x, y, at) = post.1.holds in finishes (rw (delete_ok g p at) (finishes (ground arith))))

read_deleted : (p : Ptr) (g : Heap Entry) → g p ≡ none → read_found (some p) g ≡ fault
unfolding read_found
read_deleted p g gone = rw (load-none g p gone) refl

-- For every table and every key that it holds: `find` leaves its transaction with a node, and if
-- another thread then runs `remove` of the key, what `find` does next reads a deleted node.
pub find_races :
    (hash : ℤ → ℕ) (tries : Answers) (h : Heap Entry) (m : HashMap) (key v : ℤ)
    (cells : ℕ → Cells Entry) (fuel : ℕ)
    → IsTable h m cells
    → length (cells (index hash key)) < fuel
    → value_at hash cells key ≡ some v
    → begin tries ≢ undecided
    → (found : Option Ptr) × (find_section hash fuel m key h ≡ done found h)
      × Finishes (λ _ g. read_found found g ≡ fault) (remove hash tries fuel m key h)
unfolding find_section remove remove_section
find_races hash tries h m key v cells fuel is enough at decided =
    let i = index hash key in
    let xs = cells i in
    let held = is.held i (index_bound hash key) in
    let (p, e, ys, eq) = left-of-lookup key v xs at in
    let parts = sym (passed-append-left (other_key key) xs) in
    let split : xs ≡ passed (other_key key) xs ++ (p, e) ∷ ys =
      parts ∙ ap (λ z. passed (other_key key) xs ++ z) eq in
    let start = load_ok h (m.bucket_heads i) (head_at h (hd m i) (tl m i) xs held) in
    (
      some p,
      rw start (
          find_loop-left h key (tl m i) fuel (m.bucket_heads i) xs held.linked.1 held.distinct.2
            enough
          ∙ ap (λ z. done (head_of z) h) eq),
      rw
          (
            atomically_runs tries (remove_section hash fuel m key) decided,
            start,
            walk_lem (other_key key) h (hd m i) (tl m i) fuel xs held enough,
            eq,
          )
          (Finishes.chain
            (deletes_found h m i (passed (other_key key) xs) p e ys
              (subst (Holds h (hd m i) (tl m i)) split held))
            λ r g post. Finishes.weaken post λ _ g' gone. read_deleted p g' gone),
    )
