-- ===== src/Mcas/Laws.antt =====
-- The four variants against the specification.

use data_structure_benchmark.Base.{ℕ, ◌^◌, ◌<◌, ◌≡◌, ◌≢◌, List, [], ◌∷◌, arith}
use data_structure_benchmark.Mcas.{Address, Memory, store, Outcome}
use data_structure_benchmark.Mcas.Spec.{Swap, swap, mcas}
use data_structure_benchmark.Mcas.Lock
use data_structure_benchmark.Mcas.LockNoIf
use data_structure_benchmark.Mcas.LockNoIf.{select}

-- Equal results, and equal memories but for the local variable `trash`.
abbrev pub Agrees : Address → Outcome → Outcome → Type 0
Agrees trash x y = (x.0 ≡ y.0) × ((p : Address) → p ≢ trash → x.1 p ≡ y.1 p)

select_hit : (a t : Address) → a < 2 ^ 64 → select a t 1 ≡ a
unfolding select
select_hit a t h = omega arith

select_miss : (a t : Address) → t < 2 ^ 64 → select a t 0 ≡ t
unfolding select
select_miss a t h = omega arith

-- The words of a call lie in the address space, and none is the local variable.
abbrev pub Fits : Address → List Swap → Type 0
Fits trash [] = Unit
Fits trash (s ∷ ss) = (s.addr < 2 ^ 64) × (s.addr ≢ trash) × Fits trash ss

module _ (a0 o0 n0 a1 o1 n1 a2 o2 n2 a3 o3 n3 : ℕ) (m : Memory) where
  -- The variant under the lock is the specification, for one, two, three and four words.
  pub lock-mcas :
      (Lock.cas a0 o0 n0 m ≡ mcas (swap a0 o0 n0 ∷ []) m)
      × (Lock.dcas a0 o0 n0 a1 o1 n1 m ≡ mcas (swap a0 o0 n0 ∷ swap a1 o1 n1 ∷ []) m)
      × (Lock.tcas a0 o0 n0 a1 o1 n1 a2 o2 n2 m
          ≡ mcas (swap a0 o0 n0 ∷ swap a1 o1 n1 ∷ swap a2 o2 n2 ∷ []) m)
      × (Lock.qcas a0 o0 n0 a1 o1 n1 a2 o2 n2 a3 o3 n3 m
          ≡ mcas (swap a0 o0 n0 ∷ swap a1 o1 n1 ∷ swap a2 o2 n2 ∷ swap a3 o3 n3 ∷ []) m)
  unfolding Lock.cas Lock.dcas Lock.tcas Lock.qcas
  lock-mcas = (ground arith, ground arith, ground arith, ground arith)

  module _ (trash : Address) (t_fits : trash < 2 ^ 64) where
    no_if-cas :
        Fits trash (swap a0 o0 n0 ∷ [])
        → Agrees trash (LockNoIf.cas trash a0 o0 n0 m) (mcas (swap a0 o0 n0 ∷ []) m)
    unfolding LockNoIf.cas store
    no_if-cas f =
        (ground arith, λ p out. ground (arith, select_hit a0 trash, select_miss a0 trash t_fits))

    no_if-dcas :
        Fits trash (swap a0 o0 n0 ∷ swap a1 o1 n1 ∷ [])
        → Agrees trash
            (LockNoIf.dcas trash a0 o0 n0 a1 o1 n1 m)
            (mcas (swap a0 o0 n0 ∷ swap a1 o1 n1 ∷ []) m)
    unfolding LockNoIf.dcas store
    no_if-dcas f = (
      ground arith,
      λ p out. ground (
        arith,
        select_hit a0 trash,
        select_hit a1 trash,
        select_miss a0 trash t_fits,
        select_miss a1 trash t_fits,
      ),
    )

    no_if-tcas :
        Fits trash (swap a0 o0 n0 ∷ swap a1 o1 n1 ∷ swap a2 o2 n2 ∷ [])
        → Agrees trash
            (LockNoIf.tcas trash a0 o0 n0 a1 o1 n1 a2 o2 n2 m)
            (mcas (swap a0 o0 n0 ∷ swap a1 o1 n1 ∷ swap a2 o2 n2 ∷ []) m)
    unfolding LockNoIf.tcas store
    no_if-tcas f = (
      ground arith,
      λ p out. ground (
        arith,
        select_hit a0 trash,
        select_hit a1 trash,
        select_hit a2 trash,
        select_miss a0 trash t_fits,
        select_miss a1 trash t_fits,
        select_miss a2 trash t_fits,
      ),
    )

    no_if-qcas :
        Fits trash (swap a0 o0 n0 ∷ swap a1 o1 n1 ∷ swap a2 o2 n2 ∷ swap a3 o3 n3 ∷ [])
        → Agrees trash
            (LockNoIf.qcas trash a0 o0 n0 a1 o1 n1 a2 o2 n2 a3 o3 n3 m)
            (mcas (swap a0 o0 n0 ∷ swap a1 o1 n1 ∷ swap a2 o2 n2 ∷ swap a3 o3 n3 ∷ []) m)
    unfolding LockNoIf.qcas store
    no_if-qcas f = (
      ground arith,
      λ p out. ground (
        arith,
        select_hit a0 trash,
        select_hit a1 trash,
        select_hit a2 trash,
        select_hit a3 trash,
        select_miss a0 trash t_fits,
        select_miss a1 trash t_fits,
        select_miss a2 trash t_fits,
        select_miss a3 trash t_fits,
      ),
    )

    -- The variant with no branch returns what the specification does, and leaves the same memory but
    -- for its local variable, for one, two, three and four words, if these and the variable lie in the
    -- address space and none of the words is the variable.
    pub no_if-mcas :
        Fits trash (swap a0 o0 n0 ∷ swap a1 o1 n1 ∷ swap a2 o2 n2 ∷ swap a3 o3 n3 ∷ [])
        → Agrees trash (LockNoIf.cas trash a0 o0 n0 m) (mcas (swap a0 o0 n0 ∷ []) m)
          × Agrees trash
              (LockNoIf.dcas trash a0 o0 n0 a1 o1 n1 m)
              (mcas (swap a0 o0 n0 ∷ swap a1 o1 n1 ∷ []) m)
          × Agrees trash
              (LockNoIf.tcas trash a0 o0 n0 a1 o1 n1 a2 o2 n2 m)
              (mcas (swap a0 o0 n0 ∷ swap a1 o1 n1 ∷ swap a2 o2 n2 ∷ []) m)
          × Agrees trash
              (LockNoIf.qcas trash a0 o0 n0 a1 o1 n1 a2 o2 n2 a3 o3 n3 m)
              (mcas (swap a0 o0 n0 ∷ swap a1 o1 n1 ∷ swap a2 o2 n2 ∷ swap a3 o3 n3 ∷ []) m)
    no_if-mcas f = (
      no_if-cas (f.0, f.1, tt),
      no_if-dcas (f.0, f.1, (f.2.0, f.2.1, tt)),
      no_if-tcas (f.0, f.1, (f.2.0, f.2.1, (f.2.2.0, f.2.2.1, tt))),
      no_if-qcas f,
    )
