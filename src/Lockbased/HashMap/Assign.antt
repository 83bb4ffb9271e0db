-- ===== src/Lockbased/HashMap/Assign.antt =====
-- `insert_or_assign`: contents and memory.
use data_structure_benchmark.Base.{
  ℕ, ◌<◌, ◌≡◌, refl, ◌≢◌, ap, inl, inr, Bool-cases, true, false, none, some, [], ◌∷◌, ◌++◌, arith,
  ◌==◌, eq_refl, if◌then◌else◌, ◌∙◌, sym, subst,
}
use mathlib.Core.List.{append-nil}
use data_structure_benchmark.Base.Int.{ℤ, pos, eq_int}
use data_structure_benchmark.Base.Lists.{length}
use data_structure_benchmark.Heap.{Ptr, null, node, Heap, write, new_node}
use data_structure_benchmark.Heap.Access.{load_ok, set_payload_ok}
use data_structure_benchmark.Heap.Chain.{Cells, has, first, last}
use data_structure_benchmark.Heap.Finishes
use data_structure_benchmark.Heap.Finishes.{Finishes, finishes}
use data_structure_benchmark.Linked.{link_node}
use data_structure_benchmark.Linked.Shape.{
  Own, Holds, not_has_of_unused, head_at, cell_at, cell_ne_tail, has_cell, Holds-fresh,
}
use data_structure_benchmark.Linked.Walk.{passed, left, passed-append-left, walk_lem}
use data_structure_benchmark.Linked.Link.{link_node_lem}
use data_structure_benchmark.Linked.Assign.{set_payload_lem}
use data_structure_benchmark.Lockbased.HashMap.{
  HashMap, Entry, entry, other_key, index, assign_at, insert_or_assign,
}
use data_structure_benchmark.Lockbased.HashMap.Table.{
  hd, tl, bucket, lookup, Unique, IsTable, Changes,
}
use data_structure_benchmark.Lockbased.HashMap.Effect.{value_at, index_bound, Effect, Effect-put}
use data_structure_benchmark.Lockbased.HashMap.Keys.{
  lookup-passed, Found, left-Found, lookup-snoc, lookup-assign, Unique-snoc, Unique-assign,
}

-- The bucket `i` now holds `v` at the key, and what it held at all others.
abbrev pub AssignedAt : HashMap → ℕ → ℤ → ℤ → Cells Entry → Heap Entry → Heap Entry → Type 0
AssignedAt m i key v xs h g =
    (ys : Cells Entry) × Changes h g m i xs ys
    × ((k : ℤ) → lookup k ys ≡ (if eq_int key k then some v else lookup k xs))

module _ (h : Heap Entry) (m : HashMap) (i : ℕ) (key v : ℤ) (fresh : Ptr) where
  -- the heap with the new node, before it is linked
  made : Heap Entry
  unfolding write
  made =
      write
        (write (write h fresh (some (node (entry (pos 0) (pos 0)) null null))) fresh
          (some (node (entry key (pos 0)) null null)))
        fresh (some (node (entry key v) null null))

  assign_made :
      (parent t : Ptr) → assign_at t key v fresh parent t h ≡ link_node fresh parent t made
  unfolding assign_at new_node write made
  assign_made parent t =
      let zeroed : Heap Entry = write h fresh (some (node (entry (pos 0) (pos 0)) null null)) in
      let keyed : Heap Entry = write zeroed fresh (some (node (entry key (pos 0)) null null)) in
      let at : zeroed fresh ≡ some (node (entry (pos 0) (pos 0)) null null) = ground arith in
      let at' : keyed fresh ≡ some (node (entry key (pos 0)) null null) = ground arith in
      rw
        (
          eq_refl t,
          set_payload_ok zeroed fresh at (entry key (pos 0)),
          set_payload_ok keyed fresh at' (entry key v),
        )
        refl

  made-Holds :
      (us : Cells Entry)
      → Holds h (hd m i) (tl m i) us
      → has fresh (bucket m i us) ≡ false
      → Holds made (hd m i) (tl m i) us
  unfolding made
  made-Holds us is out =
      Holds-fresh _ (hd m i) (tl m i) us fresh _
        (Holds-fresh _ (hd m i) (tl m i) us fresh _
          (Holds-fresh h (hd m i) (tl m i) us fresh _ is out) out)
        out

  made_at : made fresh ≡ some (node (entry key v) null null)
  unfolding made write
  made_at = ground arith

  made_other : (a : Ptr) → a ≢ fresh → made a ≡ h a
  unfolding made write
  made_other a ne = ground arith

  -- behind the loop, at the last sentinel
  assign_new :
      (us : Cells Entry)
      → Holds h (hd m i) (tl m i) us
      → Unique us
      → lookup key us ≡ none
      → fresh ≢ null
      → h fresh ≡ none
      → Finishes
          (λ _. AssignedAt m i key v us h)
          (assign_at
            (m.bucket_tails i)
            key
            v
            fresh
            (last (m.bucket_heads i) us)
            (m.bucket_tails i)
            h)
  assign_new us is u a p q =
      let out = not_has_of_unused h (hd m i) (tl m i) us fresh is q in
      let empty = append-nil us in
      let own : Own made fresh (entry key v) (bucket m i (us ++ [])) = record {
        holds = (null, null, made_at);
        ne_null = p;
        out = rw empty out;
      } in
      rw (assign_made (last (m.bucket_heads i) us) (m.bucket_tails i)) (
        Finishes.weaken
          (link_node_lem made fresh (entry key v) (hd m i) (tl m i) us []
            (rw empty (made-Holds us is out)) own)
          λ _ g post. (
            us ++ (fresh, entry key v) ∷ [],
            record {
              held = post.0;
              unique = Unique-snoc key us fresh v a u;
              keeps = λ b o o'.
                  post.1 b o'
                  ∙ made_other b (
                      ground (
                        arith,
                        has_cell (hd m i) (tl m i) us fresh (entry key v) [] b,
                        ap (λ z. has b (bucket m i z)) empty,
                      ));
              grows = λ b o. elim (Bool-cases (b == fresh)) [
                | inl e ↦ inr (ground arith)
                | inr e ↦ inl (
                    ground (
                      arith,
                      has_cell (hd m i) (tl m i) us fresh (entry key v) [] b,
                      ap (λ z. has b (bucket m i z)) empty,
                    ))
              ];
              frees = λ b o o'. absurd (
                  ground (
                    arith,
                    has_cell (hd m i) (tl m i) us fresh (entry key v) [] b,
                    ap (λ z. has b (bucket m i z)) empty,
                  ));
            },
            λ k. lookup-snoc key k us fresh v a,
          ))

  -- behind the loop, at a node with the key
  assign_old :
      (us : Cells Entry) (c : Ptr) (e : Entry) (vs : Cells Entry)
      → Holds h (hd m i) (tl m i) (us ++ (c, e) ∷ vs)
      → Unique (us ++ (c, e) ∷ vs)
      → lookup key us ≡ none
      → eq_int e.key key ≡ true
      → Finishes
          (λ _. AssignedAt m i key v (us ++ (c, e) ∷ vs) h)
          (assign_at (m.bucket_tails i) key v fresh (last (m.bucket_heads i) us) c h)
  unfolding assign_at
  assign_old us c e vs is u a q =
      rw
        (
          cell_ne_tail h (hd m i) (tl m i) us c e vs is,
          load_ok h c (cell_at h (hd m i) (tl m i) us c e vs is),
        )
        (Finishes.weaken (set_payload_lem (hd m i) (tl m i) us c vs h e (entry e.key v) is)
          λ _ g post.
            let same_nodes : (a : Ptr)
                → has a (bucket m i (us ++ (c, entry e.key v) ∷ vs))
                  ≡ has a (bucket m i (us ++ (c, e) ∷ vs)) =
              λ a.
                has_cell (hd m i) (tl m i) us c (entry e.key v) vs a
                ∙ sym (has_cell (hd m i) (tl m i) us c e vs a) in
            (
              us ++ (c, entry e.key v) ∷ vs,
              record {
                held = post.0;
                unique = Unique-assign us c e v vs u;
                keeps = λ b o o'. post.1 b (ground (arith, has_cell (hd m i) (tl m i) us c e vs b));
                grows = λ b o. inl (sym (same_nodes b) ∙ o);
                frees = λ b o o'. absurd (ground (arith, same_nodes b));
              },
              λ k. lookup-assign key k us c e v vs a q,
            ))

  assign_at-AssignedAt :
      (us vs : Cells Entry)
      → Holds h (hd m i) (tl m i) (us ++ vs)
      → Unique (us ++ vs)
      → lookup key us ≡ none
      → Found key vs
      → fresh ≢ null
      → h fresh ≡ none
      → Finishes
          (λ _. AssignedAt m i key v (us ++ vs) h)
          (assign_at
            (m.bucket_tails i)
            key
            v
            fresh
            (last (m.bucket_heads i) us)
            (first (m.bucket_tails i) vs)
            h)
  assign_at-AssignedAt us [] is u a f p q =
      let eq = append-nil us in
      subst
        (λ z.
          Finishes (λ _. AssignedAt m i key v z h)
            (assign_at (m.bucket_tails i) key v fresh (last (m.bucket_heads i) us)
              (m.bucket_tails i) h))
        (sym eq) (assign_new us (subst (Holds h (hd m i) (tl m i)) eq is) (subst Unique eq u) a p q)
  assign_at-AssignedAt us ((c, e) ∷ vs) is u a f p q = assign_old us c e vs is u a f

-- `insert_or_assign`, on a free address and with fuel for every node of the key's bucket, finishes; the
-- table holds the value at the key and what it held at all others, and it loses no node; nothing
-- outside its nodes changes.
pub insert_or_assign-Effect :
    (hash : ℤ → ℕ) (h : Heap Entry) (m : HashMap) (key v : ℤ) (fresh : Ptr)
    (cells : ℕ → Cells Entry) (fuel : ℕ)
    → IsTable h m cells
    → fresh ≢ null
    → h fresh ≡ none
    → length (cells (index hash key)) < fuel
    → Finishes
        (λ _ g. Effect hash h g m cells λ k. if eq_int key k then some v else value_at hash cells k)
        (insert_or_assign hash fuel m key v fresh h)
unfolding insert_or_assign
insert_or_assign-Effect hash h m key v fresh cells fuel is p q enough =
    let i = index hash key in
    let small = index_bound hash key in
    let xs = cells i in
    let held = is.held i small in
    let parts = sym (passed-append-left (other_key key) xs) in
    rw
      (
        load_ok h (m.bucket_heads i) (head_at h (hd m i) (tl m i) xs held),
        walk_lem (other_key key) h (hd m i) (tl m i) fuel xs held enough,
      )
      (Finishes.weaken
        (subst
          (λ z.
            Finishes (λ _. AssignedAt m i key v z h)
              (assign_at (m.bucket_tails i) key v fresh
                (last (m.bucket_heads i) (passed (other_key key) xs))
                (first (m.bucket_tails i) (left (other_key key) xs)) h))
          (sym parts)
          (assign_at-AssignedAt h m i key v fresh (passed (other_key key) xs)
            (left (other_key key) xs) (subst (Holds h (hd m i) (tl m i)) parts held)
            (subst Unique parts (is.unique i small)) (lookup-passed key xs) (left-Found key xs) p
            q))
        λ _ g post. Effect-put hash h g m cells key post.0 (some v) is post.1 post.2)
