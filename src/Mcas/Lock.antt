-- ===== src/Mcas/Lock.antt =====
-- include/mcas/mcas-lock.h: compare, then swap, under one global mutex. The mutex makes each call one
-- step.
use data_structure_benchmark.Base.{ℕ, ◌&&◌, ◌==◌, if◌then◌else◌}
use data_structure_benchmark.Mcas.{Address, Memory, store, Outcome}

unfoldable pub cas : Address → ℕ → ℕ → Memory → Outcome
cas a0 o0 n0 m = if (m a0 == o0) then (1, store m a0 n0) else (0, m)

unfoldable pub dcas : Address → ℕ → ℕ → Address → ℕ → ℕ → Memory → Outcome
dcas a0 o0 n0 a1 o1 n1 m =
    if (m a0 == o0) && (m a1 == o1) then (1, store (store m a0 n0) a1 n1) else (0, m)

unfoldable pub tcas : Address → ℕ → ℕ → Address → ℕ → ℕ → Address → ℕ → ℕ → Memory → Outcome
tcas a0 o0 n0 a1 o1 n1 a2 o2 n2 m =
    if (m a0 == o0) && (m a1 == o1) && (m a2 == o2)
    then (1, store (store (store m a0 n0) a1 n1) a2 n2)
    else (0, m)

unfoldable pub qcas :
    Address → ℕ → ℕ → Address → ℕ → ℕ → Address → ℕ → ℕ → Address → ℕ → ℕ → Memory → Outcome
qcas a0 o0 n0 a1 o1 n1 a2 o2 n2 a3 o3 n3 m =
    if (m a0 == o0) && (m a1 == o1) && (m a2 == o2) && (m a3 == o3)
    then (1, store (store (store (store m a0 n0) a1 n1) a2 n2) a3 n3)
    else (0, m)
