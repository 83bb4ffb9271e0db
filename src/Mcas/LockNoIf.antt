-- ===== src/Mcas/LockNoIf.antt =====
-- include/mcas/mcas-lock-no-if.h: the same with no branch: a call that does not match stores its new
-- values to a local variable, `trash`, whose address is a parameter. `&` on two `bool`s is `&&`.
use data_structure_benchmark.Base.{ℕ, ◌+◌, ◌-◌, ◌*◌, ◌%◌, ◌^◌, ◌&&◌, ◌==◌}
use data_structure_benchmark.Mcas.{Address, Memory, store, Outcome, number}

-- `(i_addr * match) + (i_trash * (1 - match))` on `uint64_t`
unfoldable pub select : Address → Address → ℕ → Address
select a trash hit = (a * hit + trash * (1 - hit)) % 2 ^ 64

unfoldable pub cas : Address → Address → ℕ → ℕ → Memory → Outcome
unfolding select
cas trash a0 o0 n0 memory =
    let m = store memory trash 0 in
    let hit = number ((m a0 == o0)) in let m1 = store m (select a0 trash hit) n0 in (hit, m1)

unfoldable pub dcas : Address → Address → ℕ → ℕ → Address → ℕ → ℕ → Memory → Outcome
unfolding select
dcas trash a0 o0 n0 a1 o1 n1 memory =
    let m = store memory trash 0 in
    let hit = number ((m a0 == o0) && (m a1 == o1)) in
    let m1 = store m (select a0 trash hit) n0 in
    let m2 = store m1 (select a1 trash hit) n1 in (hit, m2)

unfoldable pub tcas :
    Address → Address → ℕ → ℕ → Address → ℕ → ℕ → Address → ℕ → ℕ → Memory → Outcome
unfolding select
tcas trash a0 o0 n0 a1 o1 n1 a2 o2 n2 memory =
    let m = store memory trash 0 in
    let hit = number ((m a0 == o0) && (m a1 == o1) && (m a2 == o2)) in
    let m1 = store m (select a0 trash hit) n0 in
    let m2 = store m1 (select a1 trash hit) n1 in
    let m3 = store m2 (select a2 trash hit) n2 in (hit, m3)

unfoldable pub qcas :
    Address
    → Address
    → ℕ
    → ℕ
    → Address
    → ℕ
    → ℕ
    → Address
    → ℕ
    → ℕ
    → Address
    → ℕ
    → ℕ
    → Memory
    → Outcome
unfolding select
qcas trash a0 o0 n0 a1 o1 n1 a2 o2 n2 a3 o3 n3 memory =
    let m = store memory trash 0 in
    let hit = number ((m a0 == o0) && (m a1 == o1) && (m a2 == o2) && (m a3 == o3)) in
    let m1 = store m (select a0 trash hit) n0 in
    let m2 = store m1 (select a1 trash hit) n1 in
    let m3 = store m2 (select a2 trash hit) n2 in
    let m4 = store m3 (select a3 trash hit) n3 in (hit, m4)
