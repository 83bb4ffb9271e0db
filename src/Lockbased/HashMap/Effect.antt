-- ===== src/Lockbased/HashMap/Effect.antt =====
-- What an operation on one key does to the whole table.
use data_structure_benchmark.Base.{
  ℕ, ◌<◌, ◌≡◌, refl, inl, inr, Bool-cases, true, false, Option, none, arith, ◌==◌, ap, eq_refl,
  if◌then◌else◌, subst, sym, ◌∙◌,
}
use data_structure_benchmark.Base.Int.{ℤ, eq_int, eq_int_iff}
use data_structure_benchmark.Heap.{Ptr, Heap}
use data_structure_benchmark.Heap.Chain.{Cells, has}
use data_structure_benchmark.Lockbased.HashMap.{HashMap, Entry, table_size, index}
use data_structure_benchmark.Lockbased.HashMap.Table.{
  bucket, lookup, IsTable, put, Changes, IsTable-put,
}

module _ (hash : ℤ → ℕ) where
  -- what the table holds at a key
  abbrev pub value_at : (ℕ → Cells Entry) → ℤ → Option ℤ
  value_at cells k = lookup k (cells (index hash k))

  pub index_bound : (key : ℤ) → index hash key < table_size
  index_bound key = omega arith

  -- `a` is in no bucket.
  abbrev pub Outside : HashMap → (ℕ → Cells Entry) → Ptr → Type 0
  Outside m cells a = (i : ℕ) → i < table_size → has a (bucket m i (cells i)) ≡ false

  -- From `h` to `g` the table comes to hold `values` at the keys. A node that it gives up is deleted,
  -- and a node that it had neither before nor has after is as it was.
  pub record Effect (h g : Heap Entry) (m : HashMap) (cells : ℕ → Cells Entry)
      (values : ℤ → Option ℤ) : Type 0 where
    pub after : ℕ → Cells Entry
    pub table : IsTable g m after
    pub holds : (k : ℤ) → value_at after k ≡ values k
    pub keeps : (a : Ptr) → Outside m cells a → Outside m after a → g a ≡ h a
    pub frees :
        (a : Ptr) (i : ℕ)
        → i < table_size
        → has a (bucket m i (cells i)) ≡ true
        → Outside m after a
        → g a ≡ none

  module _ (h g : Heap Entry) (m : HashMap) (cells : ℕ → Cells Entry) (key : ℤ) (ys : Cells Entry)
      (r : Option ℤ) where
    after_at : (j : ℕ) → (j == index hash key) ≡ false → put (index hash key) ys cells j ≡ cells j
    after_at j e = rw e refl

    after_here : put (index hash key) ys cells (index hash key) ≡ ys
    after_here = rw (eq_refl (index hash key)) refl

    value_at-put :
        ((k : ℤ) → lookup k ys ≡ (if eq_int key k then r else lookup k (cells (index hash key))))
        → (k : ℤ)
        → value_at (put (index hash key) ys cells) k
          ≡ (if eq_int key k then r else value_at cells k)
    value_at-put now k = elim (Bool-cases (index hash k == index hash key)) [
      | inl e ↦
          let eq : index hash key ≡ index hash k = ground arith in
          rw e (now k ∙ ap (λ z. if eq_int key k then r else lookup k (cells z)) eq)
      | inr e ↦ elim (Bool-cases (eq_int key k)) [
        | inl f ↦ absurd (ground (arith, ap (λ z. index hash z) ((eq_int_iff key k).0 f)))
        | inr f ↦ rw (e, f) refl
      ]
    ]

    pub Effect-put :
        IsTable h m cells
        → Changes h g m (index hash key) (cells (index hash key)) ys
        → ((k : ℤ) → lookup k ys ≡ (if eq_int key k then r else lookup k (cells (index hash key))))
        → Effect h g m cells λ k. if eq_int key k then r else value_at cells k
    Effect-put is c now =
        let i = index hash key in
        let small = index_bound key in
        record {
          after = put i ys cells;
          table = IsTable-put h g m cells i ys is small c;
          holds = value_at-put now;
          keeps = λ a o o'.
              c.keeps a (o i small) (ap (λ z. has a (bucket m i z)) (sym after_here) ∙ o' i small);
          frees = λ a j q n o. elim (Bool-cases (j == i)) [
            | inl e ↦
                let eq : j ≡ i = ground arith in
                c.frees a (subst (λ z. has a (bucket m z (cells z)) ≡ true) eq n)
                  (ap (λ z. has a (bucket m i z)) (sym after_here) ∙ o i small)
            | inr e ↦ absurd (ground (arith, ap (λ z. has a (bucket m j z)) (after_at j e), o j q))
          ];
        }
