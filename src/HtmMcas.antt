-- ===== src/HtmMcas.antt =====
-- htm-mcas/: the structures of lockfree-mcas/ with a hardware transaction for each compare-and-swap
-- loop.
pub mod Deque
pub mod BinarySearchTree
pub mod Links
pub mod SortedList
mod Tests
