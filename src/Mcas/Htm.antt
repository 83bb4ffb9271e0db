-- ===== src/Mcas/Htm.antt =====
-- include/mcas/mcas-htm.h: the same in a hardware transaction, which gives up on a conflict.
use data_structure_benchmark.Base.{ℕ, Option, none, some, ◌&&◌, ◌==◌, if◌then◌else◌}
use data_structure_benchmark.Tm.{
  Answers, speculative, fallback, refused, undecided, begin_no_conflict,
}
use data_structure_benchmark.Mcas.{Address, Memory, store, Outcome}

-- `if (!TM_BEGIN_NO_CONFLICT(i)) return false;` before the body; `none` while the call has not begun
unfoldable pub transact : Answers → Outcome → Memory → Option Outcome
unfolding begin_no_conflict
transact tries body m = elim (begin_no_conflict tries) [
  | refused ↦ some (0, m)
  | speculative ↦ some body
  | fallback ↦ some body
  | undecided ↦ none
]

unfoldable pub cas : Answers → Address → ℕ → ℕ → Memory → Option Outcome
cas tries a0 o0 n0 m = transact tries (if (m a0 == o0) then (1, store m a0 n0) else (0, m)) m

unfoldable pub dcas : Answers → Address → ℕ → ℕ → Address → ℕ → ℕ → Memory → Option Outcome
dcas tries a0 o0 n0 a1 o1 n1 m =
    transact tries
      (if (m a0 == o0) && (m a1 == o1) then (1, store (store m a0 n0) a1 n1) else (0, m)) m

unfoldable pub tcas :
    Answers → Address → ℕ → ℕ → Address → ℕ → ℕ → Address → ℕ → ℕ → Memory → Option Outcome
tcas tries a0 o0 n0 a1 o1 n1 a2 o2 n2 m =
    transact tries
      (if (m a0 == o0) && (m a1 == o1) && (m a2 == o2)
        then (1, store (store (store m a0 n0) a1 n1) a2 n2)
        else (0, m))
      m

unfoldable pub qcas :
    Answers
    → Address
    → ℕ
    → ℕ
    → Address
    → ℕ
    → ℕ
    → Address
    → ℕ
    → ℕ
    → Address
    → ℕ
    → ℕ
    → Memory
    → Option Outcome
qcas tries a0 o0 n0 a1 o1 n1 a2 o2 n2 a3 o3 n3 m =
    transact tries
      (if (m a0 == o0) && (m a1 == o1) && (m a2 == o2) && (m a3 == o3)
        then (1, store (store (store (store m a0 n0) a1 n1) a2 n2) a3 n3)
        else (0, m))
      m
