-- ===== src/LockfreeMcas.antt =====
-- lockfree-mcas/: the structures that stand on the multi-word compare-and-swap.
pub mod ArraySwap
pub mod Deque
