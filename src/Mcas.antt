-- ===== src/Mcas.antt =====
-- include/mcas: compare-and-swap on one to four 64-bit words at once, in four variants, over a memory
-- of words at addresses. The variant that gem5 runs is inline assembly and is not modelled.
pub mod Spec
pub mod Laws
pub mod Lock
pub mod LockNoIf
pub mod Htm
pub mod HtmNoIf
pub mod Select
mod Tests
use data_structure_benchmark.Base.{ℕ, Bool, true, false, ◌==◌, if◌then◌else◌}

abbrev pub Address : Type 0
Address = ℕ

-- `uint64_t` at each address
abbrev pub Memory : Type 0
Memory = Address → ℕ

-- `*a = v`
unfoldable pub store : Memory → Address → ℕ → Memory
store m a v p = if p == a then v else m p

-- What a call returns, `true` as 1 and `false` as 0, and the memory behind it.
abbrev pub Outcome : Type 0
Outcome = ℕ × Memory

-- the conversion of a `bool` to a number
abbrev pub number : Bool → ℕ
number true = 1
number false = 0
