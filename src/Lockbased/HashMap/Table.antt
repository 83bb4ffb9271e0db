-- ===== src/Lockbased/HashMap/Table.antt =====
-- The heap of a table, and what it holds at a key.
use data_structure_benchmark.Base.{
  ℕ, ◌<◌, ◌≡◌, ◌≢◌, ◌⊎◌, inl, inr, Bool-cases, true, false, Option, none, some, [], ◌∷◌, arith,
  ◌==◌, if◌then◌else◌, subst,
}
use data_structure_benchmark.Base.Int.{ℤ, pos, eq_int}
use data_structure_benchmark.Heap.{Ptr, Heap}
use data_structure_benchmark.Heap.Chain.{Cells, has}
use data_structure_benchmark.Linked.Shape.{nodes, Holds, Holds-frame, not_has_of_unused}
use data_structure_benchmark.Lockbased.HashMap.{HashMap, Entry, entry, table_size}

abbrev pub hd : HashMap → ℕ → Ptr × Entry
hd m i = (m.bucket_heads i, entry (pos 0) (pos 0))

abbrev pub tl : HashMap → ℕ → Ptr × Entry
tl m i = (m.bucket_tails i, entry (pos 0) (pos 0))

abbrev pub bucket : HashMap → ℕ → Cells Entry → Cells Entry
bucket m i xs = nodes (hd m i) (tl m i) xs

-- the value that the cells of a bucket hold at a key
abbrev pub lookup : ℤ → Cells Entry → Option ℤ
lookup key [] = none
lookup key ((p, e) ∷ xs) = if eq_int e.key key then some e.value else lookup key xs

-- No key stands in the cells twice.
abbrev pub Unique : Cells Entry → Type 0
Unique [] = Unit
Unique ((p, e) ∷ xs) = (lookup e.key xs ≡ none) × Unique xs

-- In `h` the buckets of the table hold `cells`: no node is in two of them, no key in one of them
-- twice.
pub record IsTable (h : Heap Entry) (m : HashMap) (cells : ℕ → Cells Entry) : Type 0 where
  pub held : (i : ℕ) → i < table_size → Holds h (hd m i) (tl m i) (cells i)
  pub apart :
      (i j : ℕ)
      → i < table_size
      → j < table_size
      → i ≢ j
      → (a : Ptr) → has a (bucket m i (cells i)) ≡ true
      → has a (bucket m j (cells j)) ≡ false
  pub unique : (i : ℕ) → i < table_size → Unique (cells i)

-- `cells` with another bucket `i`
abbrev pub put : ℕ → Cells Entry → (ℕ → Cells Entry) → ℕ → Cells Entry
put i xs cells j = if j == i then xs else cells j

-- What an operation on the bucket `i` does to the heap: the bucket now holds `ys`, its new nodes were
-- free, the nodes taken out are deleted, and no node outside the old bucket and the new one changes.
pub record Changes (h g : Heap Entry) (m : HashMap) (i : ℕ) (xs ys : Cells Entry) : Type 0 where
  pub held : Holds g (hd m i) (tl m i) ys
  pub unique : Unique ys
  pub keeps : (a : Ptr) → has a (bucket m i xs) ≡ false → has a (bucket m i ys) ≡ false → g a ≡ h a
  pub grows :
      (a : Ptr) → has a (bucket m i ys) ≡ true → (has a (bucket m i xs) ≡ true) ⊎ (h a ≡ none)
  pub frees : (a : Ptr) → has a (bucket m i xs) ≡ true → has a (bucket m i ys) ≡ false → g a ≡ none

module _ (h g : Heap Entry) (m : HashMap) (cells : ℕ → Cells Entry) (i : ℕ) (ys : Cells Entry)
    (is : IsTable h m cells) (small : i < table_size) (c : Changes h g m i (cells i) ys) where
  -- A node of another bucket is not in the new one.
  other-apart :
      (j : ℕ)
      → j < table_size
      → j ≢ i
      → (a : Ptr) → has a (bucket m j (cells j)) ≡ true
      → has a (bucket m i ys) ≡ false
  other-apart j q ne a n = elim (Bool-cases (has a (bucket m i ys))) [
    | inl e ↦ elim (c.grows a e) [
      | inl old ↦ absurd (ground (arith, is.apart j i q small ne a n))
      | inr free ↦
          absurd
            (ground (arith, not_has_of_unused h (hd m j) (tl m j) (cells j) a (is.held j q) free))
    ]
    | inr e ↦ e
  ]

  other-Holds : (j : ℕ) → j < table_size → j ≢ i → Holds g (hd m j) (tl m j) (cells j)
  other-Holds j q ne =
      Holds-frame h g (hd m j) (tl m j) (cells j) (is.held j q)
        λ a n. c.keeps a (is.apart j i q small ne a n) (other-apart j q ne a n)

  -- After a change of one bucket the table holds the new cells.
  pub IsTable-put : IsTable g m (put i ys cells)
  IsTable-put = record {
    held = λ j q. elim (Bool-cases (j == i)) [
      | inl e ↦
          let eq : i ≡ j = ground arith in
          rw e (subst (λ z. Holds g (hd m z) (tl m z) ys) eq c.held)
      | inr e ↦ rw e (other-Holds j q (ground arith))
    ];
    apart = λ j k q r ne a n. elim (Bool-cases (j == i)) [
      | inl e ↦ elim (Bool-cases (k == i)) [
        | inl f ↦ absurd (ground arith)
        | inr f ↦ elim (Bool-cases (has a (bucket m k (cells k)))) [
          | inl in_k ↦
              let out = other-apart k r (ground arith) a in_k in
              let eq : j ≡ i = ground arith in
              let n' : has a (bucket m i ys) ≡ true =
                subst (λ z. has a (bucket m z ys) ≡ true) eq (rw e at n) in
              absurd (ground arith)
          | inr out ↦ rw f out
        ]
      ]
      | inr e ↦ elim (Bool-cases (k == i)) [
        | inl f ↦
            let eq : i ≡ k = ground arith in
            rw f (
              subst (λ z. has a (bucket m z ys) ≡ false) eq
                (other-apart j q (ground arith) a (rw e at n)))
        | inr f ↦ rw f (is.apart j k q r ne a (rw e at n))
      ]
    ];
    unique =
        λ j q. elim (Bool-cases (j == i)) [ inl e ↦ rw e c.unique | inr e ↦ rw e (is.unique j q) ];
  }
