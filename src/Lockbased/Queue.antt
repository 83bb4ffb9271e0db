-- ===== src/Lockbased/Queue.antt =====
-- lockbased/Queue.h: a deque with its entry at the back and its exit at the front.
use data_structure_benchmark.Base.Int.{ℤ}
use data_structure_benchmark.Heap.{Ptr, Command}
use data_structure_benchmark.Lockbased.Deque
use data_structure_benchmark.Lockbased.Deque.{Deque}

-- The class inherits the deque.
abbrev pub Queue : Type 0
Queue = Deque

unfoldable pub push : Queue → ℤ → Ptr → Command ℤ (Unit {0})
push q value fresh = Deque.push_back q value fresh

unfoldable pub pop : Queue → Command ℤ ℤ
pop q = Deque.pop_front q
