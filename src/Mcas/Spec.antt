-- ===== src/Mcas/Spec.antt =====
-- What a multi-word compare-and-swap promises: if every word holds its old value, all take their new
-- ones and the call returns 1; otherwise nothing changes and it returns 0.
use data_structure_benchmark.Base.{ℕ, Bool, true, ◌&&◌, List, [], ◌∷◌, ◌==◌, if◌then◌else◌}
use data_structure_benchmark.Mcas.{Address, Memory, store, Outcome}

-- a word, the value that it should hold and the one that it takes
pub record Swap : Type 0 where
  pub addr : Address
  pub old : ℕ
  pub new : ℕ

abbrev pub swap : Address → ℕ → ℕ → Swap
swap a o n = record { addr = a; old = o; new = n }

abbrev pub all_match : List Swap → Memory → Bool
all_match [] m = true
all_match (s ∷ ss) m = (m s.addr == s.old) && all_match ss m

abbrev pub store_all : List Swap → Memory → Memory
store_all [] m = m
store_all (s ∷ ss) m = store_all ss (store m s.addr s.new)

abbrev pub mcas : List Swap → Memory → Outcome
mcas ss m = if all_match ss m then (1, store_all ss m) else (0, m)
