-- ===== src/Lockbased/Stack.antt =====
-- lockbased/Stack.h: a deque used at its front.
use data_structure_benchmark.Base.Int.{ℤ}
use data_structure_benchmark.Heap.{Ptr, Command}
use data_structure_benchmark.Lockbased.Deque
use data_structure_benchmark.Lockbased.Deque.{Deque}

-- The class inherits the deque.
abbrev pub Stack : Type 0
Stack = Deque

unfoldable pub push : Stack → ℤ → Ptr → Command ℤ (Unit {0})
push s value fresh = Deque.push_front s value fresh

unfoldable pub pop : Stack → Command ℤ ℤ
pop s = Deque.pop_front s
