-- ===== src/Mcas/Select.antt =====
-- `set_mcas_type` of include/mcas/mcas.h, which chooses the variant behind `cas` to `qcas`, and
-- `SyncType` of configuration.h.
pub mod Laws
use data_structure_benchmark.Base.{ℕ, Bool, true, false, Option, some, List}
use data_structure_benchmark.Tm.{Answers}
use data_structure_benchmark.Mcas.{Address, Memory, Outcome}
use data_structure_benchmark.Mcas.Lock
use data_structure_benchmark.Mcas.LockNoIf
use data_structure_benchmark.Mcas.Htm
use data_structure_benchmark.Mcas.HtmNoIf

pub data SyncType : Type 0 where
  sync_undef : SyncType
  lock : SyncType
  lockfree : SyncType
  lockfree_mcas : SyncType
  lockfree_flock : SyncType
  htm_lock : SyncType
  htm_mcas : SyncType
  mcas_no_if : SyncType
  mcas_htm : SyncType
  mcas_htm_no_if : SyncType
  flock_mcas : SyncType

-- `Configuration::is_htm`
unfoldable pub is_htm : SyncType → Bool
is_htm htm_lock = true
is_htm htm_mcas = true
is_htm mcas_htm = true
is_htm mcas_htm_no_if = true
is_htm _ = false

-- What a call finds around it: the processor's answers, and the address of its local variable.
pub record Call : Type 0 where
  pub tries : Answers
  pub trash : Address

-- the four function pointers
pub record Functions : Type 0 where
  pub cas : Call → Address → ℕ → ℕ → Memory → Option Outcome
  pub dcas : Call → Address → ℕ → ℕ → Address → ℕ → ℕ → Memory → Option Outcome
  pub tcas : Call → Address → ℕ → ℕ → Address → ℕ → ℕ → Address → ℕ → ℕ → Memory → Option Outcome
  pub qcas :
      Call
      → Address
      → ℕ
      → ℕ
      → Address
      → ℕ
      → ℕ
      → Address
      → ℕ
      → ℕ
      → Address
      → ℕ
      → ℕ
      → Memory
      → Option Outcome

unfoldable pub set_mcas_type : SyncType → Functions → Functions
set_mcas_type lockfree_mcas previous = record {
  cas = λ c a0 o0 n0 m. some (Lock.cas a0 o0 n0 m);
  dcas = λ c a0 o0 n0 a1 o1 n1 m. some (Lock.dcas a0 o0 n0 a1 o1 n1 m);
  tcas = λ c a0 o0 n0 a1 o1 n1 a2 o2 n2 m. some (Lock.tcas a0 o0 n0 a1 o1 n1 a2 o2 n2 m);
  qcas = λ c a0 o0 n0 a1 o1 n1 a2 o2 n2 a3 o3 n3 m.
      some (Lock.qcas a0 o0 n0 a1 o1 n1 a2 o2 n2 a3 o3 n3 m);
}
set_mcas_type mcas_no_if previous = record {
  cas = λ c a0 o0 n0 m. some (LockNoIf.cas c.trash a0 o0 n0 m);
  dcas = λ c a0 o0 n0 a1 o1 n1 m. some (LockNoIf.dcas c.trash a0 o0 n0 a1 o1 n1 m);
  tcas =
      λ c a0 o0 n0 a1 o1 n1 a2 o2 n2 m. some (LockNoIf.tcas c.trash a0 o0 n0 a1 o1 n1 a2 o2 n2 m);
  qcas = λ c a0 o0 n0 a1 o1 n1 a2 o2 n2 a3 o3 n3 m.
      some (LockNoIf.qcas c.trash a0 o0 n0 a1 o1 n1 a2 o2 n2 a3 o3 n3 m);
}
set_mcas_type mcas_htm previous = record {
  cas = λ c a0 o0 n0 m. Htm.cas c.tries a0 o0 n0 m;
  dcas = λ c a0 o0 n0 a1 o1 n1 m. Htm.dcas c.tries a0 o0 n0 a1 o1 n1 m;
  tcas = λ c a0 o0 n0 a1 o1 n1 a2 o2 n2 m. Htm.tcas c.tries a0 o0 n0 a1 o1 n1 a2 o2 n2 m;
  qcas = λ c a0 o0 n0 a1 o1 n1 a2 o2 n2 a3 o3 n3 m.
      Htm.qcas c.tries a0 o0 n0 a1 o1 n1 a2 o2 n2 a3 o3 n3 m;
}
set_mcas_type mcas_htm_no_if previous = record {
  cas = λ c a0 o0 n0 m. HtmNoIf.cas c.tries c.trash a0 o0 n0 m;
  dcas = λ c a0 o0 n0 a1 o1 n1 m. HtmNoIf.dcas c.tries c.trash a0 o0 n0 a1 o1 n1 m;
  tcas =
      λ c a0 o0 n0 a1 o1 n1 a2 o2 n2 m. HtmNoIf.tcas c.tries c.trash a0 o0 n0 a1 o1 n1 a2 o2 n2 m;
  qcas = λ c a0 o0 n0 a1 o1 n1 a2 o2 n2 a3 o3 n3 m.
      HtmNoIf.qcas c.tries c.trash a0 o0 n0 a1 o1 n1 a2 o2 n2 a3 o3 n3 m;
}
set_mcas_type _ previous = previous
