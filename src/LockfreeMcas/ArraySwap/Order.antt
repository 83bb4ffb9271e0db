-- ===== src/LockfreeMcas/ArraySwap/Order.antt =====
-- The swaps take effect one after the other, and a `dcas` fails only behind another swap.
use data_structure_benchmark.Base.{ℕ, ◌≡◌, refl, ◌≢◌, List, [], ◌∷◌, ◌++◌, arith, ◌∙◌}
use data_structure_benchmark.Heap.{Ptr}
use data_structure_benchmark.Mcas.{Address, Memory, store}
use data_structure_benchmark.Mcas.Lock.{dcas}
use data_structure_benchmark.Lockbased.ArraySwap.{exchange, swapped}
use data_structure_benchmark.LockfreeMcas.ArraySwap.{
  Place, idle, read_first, read_second, attempt, System, exchange_words, Step, calls, reads_first,
  reads_second, swaps, retries, Run, here, next,
}

parts_of_nothing : (l t : List (ℕ × ℕ)) → l ++ t ≡ [] → (l ≡ []) × (t ≡ [])
parts_of_nothing [] t e = (refl, e)
parts_of_nothing (s ∷ l) t e = absurd (ground arith)

module _ (row : ℕ → Address) (apart : (r s : ℕ) → row r ≡ row s → r ≡ s) where
  exchange_words-swaps :
      (m : Memory) (a b x y r : ℕ)
      → (exchange_words row m a b x y).0 ≡ 1
      → (exchange_words row m a b x y).1 (row r) ≡ exchange a b (λ s. m (row s)) r
  unfolding exchange_words dcas store
  exchange_words-swaps m a b x y r e = ground (arith, apart r a, apart r b, apart a b)

  exchange_words-keeps :
      (m : Memory) (a b x y p : ℕ)
      → (exchange_words row m a b x y).0 ≡ 0
      → (exchange_words row m a b x y).1 p ≡ m p
  unfolding exchange_words dcas store
  exchange_words-keeps m a b x y p e = ground arith

  exchange_words-succeeds :
      (m : Memory) (a b x y : ℕ)
      → m (row a) ≡ x
      → m (row b) ≡ y
      → (exchange_words row m a b x y).0 ≡ 1
  unfolding exchange_words dcas store
  exchange_words-succeeds m a b x y p q = ground arith

  Step-swapped :
      (f : ℕ → Ptr) (t l : List (ℕ × ℕ)) (σ τ : System)
      → ((r : ℕ) → σ.memory (row r) ≡ swapped f t r)
      → Step row σ l τ
      → (r : ℕ) → τ.memory (row r) ≡ swapped f (l ++ t) r
  Step-swapped f t l σ τ now (calls i a b e p q) r = now r
  Step-swapped f t l σ τ now (reads_first i a b e) r = now r
  Step-swapped f t l σ τ now (reads_second i a b x e) r = now r
  Step-swapped f t l σ τ now (swaps i a b x y e done) r =
      ground (arith, exchange_words-swaps σ.memory a b x y r done, now r, now a, now b)
  Step-swapped f t l σ τ now (retries i a b x y e failed) r =
      exchange_words-keeps σ.memory a b x y (row r) failed ∙ now r

  -- Whatever threads call `swap` and in whatever order they run, the array holds at every moment what
  -- the swaps completed so far give when they run one after the other.
  pub swap_order :
      (σ : System) {t : List (ℕ × ℕ)} {τ : System}
      → Run row σ t τ
      → (r : ℕ) → τ.memory (row r) ≡ swapped (λ s. σ.memory (row s)) t r
  swap_order σ here r = refl
  swap_order σ (next {t} {l} {τ} {υ} run s) r =
      Step-swapped (λ q. σ.memory (row q)) t l τ υ (swap_order σ run) s r

  -- a thread that has begun a round of its loop in the memory `m`, while no swap completes
  abbrev Begun : Memory → ℕ → ℕ → Place → Type 0
  Begun m a b idle = ⊥
  Begun m a b (read_first c d) = (c ≡ a) × (d ≡ b)
  Begun m a b (read_second c d x) = (c ≡ a) × (d ≡ b) × (x ≡ m (row a))
  Begun m a b (attempt c d x y) = (c ≡ a) × (d ≡ b) × (x ≡ m (row a)) × (y ≡ m (row b))

  abbrev Quiet : Memory → ℕ → ℕ → ℕ → System → Type 0
  Quiet m i a b σ = ((p : Address) → σ.memory p ≡ m p) × Begun m a b (σ.at i)

  Step-Quiet :
      (m : Memory) (i a b : ℕ) (l : List (ℕ × ℕ)) (σ τ : System)
      → Quiet m i a b σ
      → Step row σ l τ
      → l ≡ []
      → Quiet m i a b τ
  Step-Quiet m i a b l σ τ q (calls j c d e u v) none_yet = (q.0, ground (arith, q.1))
  Step-Quiet m i a b l σ τ q (reads_first j c d e) none_yet =
      (q.0, ground (arith, q.1, q.0 (row a), q.0 (row c)))
  Step-Quiet m i a b l σ τ q (reads_second j c d x e) none_yet =
      (q.0, ground (arith, q.1, q.0 (row b), q.0 (row d)))
  Step-Quiet m i a b l σ τ q (swaps j c d x y e done) none_yet = absurd (ground arith)
  Step-Quiet m i a b l σ τ q (retries j c d x y e failed) none_yet =
      (λ p. exchange_words-keeps σ.memory c d x y p failed ∙ q.0 p, ground (arith, q.1))

  Run-Quiet :
      (σ : System) (i a b : ℕ) {t : List (ℕ × ℕ)} {τ : System}
      → σ.at i ≡ read_first a b
      → Run row σ t τ
      → t ≡ []
      → Quiet σ.memory i a b τ
  Run-Quiet σ i a b e here none_yet = (λ p. refl, ground arith)
  Run-Quiet σ i a b e (next {t} {l} {τ} {υ} run s) none_yet =
      let (p, q) = parts_of_nothing l t none_yet in
      Step-Quiet σ.memory i a b l τ υ (Run-Quiet σ i a b e run q) s p

  -- Lock freedom: if the `dcas` of a thread fails, then some swap has completed since the thread began
  -- the round of its loop.
  pub failure_has_cause :
      (σ τ : System) (t : List (ℕ × ℕ)) (i a b c d x y : ℕ)
      → σ.at i ≡ read_first a b
      → Run row σ t τ
      → τ.at i ≡ attempt c d x y
      → (exchange_words row τ.memory c d x y).0 ≡ 0
      → t ≢ []
  failure_has_cause σ τ t i a b c d x y e run f failed none_yet =
      let q = Run-Quiet σ i a b e run none_yet in
      ground (arith, q.1, q.0 (row a), q.0 (row b), exchange_words-succeeds τ.memory c d x y)
