-- ===== src/Mcas/HtmNoIf.antt =====
-- include/mcas/mcas-htm-no-if.h: the hardware transaction with no branch on the match.
use data_structure_benchmark.Base.{ℕ, Option, ◌&&◌, ◌==◌}
use data_structure_benchmark.Tm.{Answers}
use data_structure_benchmark.Mcas.{Address, Memory, store, Outcome, number}
use data_structure_benchmark.Mcas.LockNoIf.{select}
use data_structure_benchmark.Mcas.Htm.{transact}

unfoldable pub cas : Answers → Address → Address → ℕ → ℕ → Memory → Option Outcome
unfolding select
cas tries trash a0 o0 n0 memory =
    let m = store memory trash 0 in
    let hit = number ((m a0 == o0)) in
    let m1 = store m (select a0 trash hit) n0 in transact tries (hit, m1) m

unfoldable pub dcas :
    Answers → Address → Address → ℕ → ℕ → Address → ℕ → ℕ → Memory → Option Outcome
unfolding select
dcas tries trash a0 o0 n0 a1 o1 n1 memory =
    let m = store memory trash 0 in
    let hit = number ((m a0 == o0) && (m a1 == o1)) in
    let m1 = store m (select a0 trash hit) n0 in
    let m2 = store m1 (select a1 trash hit) n1 in transact tries (hit, m2) m

unfoldable pub tcas :
    Answers
    → Address
    → Address
    → ℕ
    → ℕ
    → Address
    → ℕ
    → ℕ
    → Address
    → ℕ
    → ℕ
    → Memory
    → Option Outcome
unfolding select
tcas tries trash a0 o0 n0 a1 o1 n1 a2 o2 n2 memory =
    let m = store memory trash 0 in
    let hit = number ((m a0 == o0) && (m a1 == o1) && (m a2 == o2)) in
    let m1 = store m (select a0 trash hit) n0 in
    let m2 = store m1 (select a1 trash hit) n1 in
    let m3 = store m2 (select a2 trash hit) n2 in transact tries (hit, m3) m

unfoldable pub qcas :
    Answers
    → Address
    → Address
    → ℕ
    → ℕ
    → Address
    → ℕ
    → ℕ
    → Address
    → ℕ
    → ℕ
    → Address
    → ℕ
    → ℕ
    → Memory
    → Option Outcome
unfolding select
qcas tries trash a0 o0 n0 a1 o1 n1 a2 o2 n2 a3 o3 n3 memory =
    let m = store memory trash 0 in
    let hit = number ((m a0 == o0) && (m a1 == o1) && (m a2 == o2) && (m a3 == o3)) in
    let m1 = store m (select a0 trash hit) n0 in
    let m2 = store m1 (select a1 trash hit) n1 in
    let m3 = store m2 (select a2 trash hit) n2 in
    let m4 = store m3 (select a3 trash hit) n3 in transact tries (hit, m4) m
