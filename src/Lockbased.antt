-- ===== src/Lockbased.antt =====
-- lockbased/: the structures whose operations run under one mutex.
pub mod Deque
pub mod SortedList
pub mod HashMap
pub mod BinarySearchTree
pub mod Stack
pub mod ArraySwap
pub mod Queue
pub mod Order
mod Tests
