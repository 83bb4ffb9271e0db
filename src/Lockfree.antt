-- ===== src/Lockfree.antt =====
-- lockfree/: queues on single words, with an exchange or with plain loads and stores.
pub mod Queue
pub mod SpscQueue
