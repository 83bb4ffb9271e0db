-- ===== src/Lib.antt =====
-- Concurrent data structures in C++ headers, compared by a benchmark: deques, stacks, queues, sorted
-- lists, hash maps and search trees, each written with several ways of synchronization. This library
-- models the ones under a mutex (lockbased/), the multi-word compare-and-swap on which others stand
-- (include/mcas/) with the Snark deque and the array that use it (lockfree-mcas/), and the hardware
-- transactions with their fallback lock (include/htm/tm.h) with the structures in them (htm-lock/,
-- htm-mcas/), and two lock-free queues (lockfree/).
--
-- The parts, and how they stand together:
--   Base           shared names, Boolean tests, the values of `int` (Base.Int), lists (Base.Lists).
--   Heap           the heap of list nodes: `new`, `delete`, reads and writes of fields, as commands
--                  that end with a value, with a fault (an access to no live node), or without fuel.
--     Heap.Access    each command at a live node.  Heap.Finishes  total correctness of a command.
--     Heap.Chain     doubly linked chains.         Heap.Splice    a node enters or leaves a chain.
--   Linked         what sorted lists and hash buckets share: the walk along a list, and the pointer
--                  assignments of insertion and removal (lockbased/SortedList.h, lockbased/HashMap.h).
--   SearchTree     what the search trees share (BinarySearchTree.h): the loops of `insert` and `get_min`,
--                  and how `remove` takes a node out. Spec has the trees as values, Order their order,
--                  Shape the nodes that make one up; Grow, Insert, Remove, Delete and Whole follow
--                  the loops.
--   Lockbased      Deque for lockbased/Deque.h (Threads: any number of threads on it), Stack and Queue
--                  for the two wrappers, SortedList and HashMap for their headers, ArraySwap for
--                  lockbased/array_swap.h, whose threads lock two rows each, BinarySearchTree for its
--                  header: Differs and Contract where the values differ, Loses where two are equal.
--   LockfreeMcas   ArraySwap for lockfree-mcas/array_swap.h, on the compare-and-swap of Mcas.Lock; Deque
--                  for lockfree-mcas/Deque.h: Shape and Writes for its nodes, Success, Push and Pop for
--                  its compare-and-swaps, Knowledge and Invariant for the threads, Safety for a run.
--   HtmLock        Deque (with the stack and the queue), SortedList, HashMap, ArraySwap and
--                  BinarySearchTree for the headers of htm-lock/: what stands between `TM_BEGIN` and
--                  `TM_END` is a function `…_section`, which runs inside `atomically` (of the tree:
--                  `transaction`).
--   HtmMcas        Deque for htm-mcas/Deque.h, Stack.h and Queue.h: Runs for the branches of the methods,
--                  Contract for the transactions, Methods for the methods.
--                  BinarySearchTree for htm-mcas/BinarySearchTree.h, SortedList for htm-mcas/SortedList.h
--                  with the assignments of Links.
--   Lockfree       Queue for lockfree/Queue.h: Order numbers the nodes that were linked and says what each
--                  thread knows of them, Invariant, Effects and Checks treat the commands, Safety a run.
--                  SpscQueue for lockfree/SPSCQueue.h, in the same way: Pushes for the producer,
--                  Pops for the consumer.
--   Mcas           Lock, LockNoIf, Htm and HtmNoIf for the four variants of include/mcas/, Select for
--                  `set_mcas_type` of include/mcas/mcas.h and the types of configuration.h.
--   Tm             `TM_BEGIN` and `TM_BEGIN_NO_CONFLICT` of include/htm/tm.h; Tm.System has the threads
--                  that contend for the fallback lock, and `TM_END`.
--
-- Correspondence. A class is a record of its pointers; a method is a function of the same name that
-- takes the object and the arguments, and is a command on the heap. What a method does while it holds
-- the mutex is a function `…_locked`: the mutex makes it one step. In the two arrays, the Snark deque
-- and the lock-free queues a step is one command of one thread, in the order of the program: a read or
-- write of one word, or one compare-and-swap. Constructors are `construct`, destructors `destroy`. The
-- list nodes differ in their payload only, which is a parameter of the heap; those of the search trees
-- have a memory of their own. `new Node()` zeroes a node. A value of type `int` is an integer that is
-- stored, copied and compared; the one `int` that is counted up, in `SortedList::count`, faults on
-- overflow.
--
-- Parameters. The allocator: the address that `new` returns is an argument, assumed not null and not in
-- use. `std::hash<int>` is an argument of the hash map. The processor's answers to `_xbegin` are a list,
-- and so are, for each call of `TM_BEGIN`, the values that its waits and exchanges find in the lock; a
-- transaction that has read the lock aborts when the lock is written. The address of the local
-- variable `trash` of the branch-free compare-and-swap is an argument, and so are the addresses of the
-- words of the array that it swaps.
--
-- Fuel. Each `while` along a list or bucket takes fuel; a command that runs out of it ends as
-- `exhausted`. One more than the number of nodes between the sentinels is enough for a walk, and for
-- the destructor of a bucket; two more are enough for the destructors that also pass the first
-- sentinel; more than the number of nodes is enough for the loops of the search trees. In htm-mcas, the
-- calls of `insert_before` and `insert_after`, of each other, take fuel too: one is enough at a place
-- behind the first sentinel. `TM_BEGIN` runs over the lists of what it meets, and is `undecided` at their
-- end, while it still waits for the lock or tries again.
--
-- Not modelled: output (`print`), the benchmark driver, the backoff delay and the statistics of tm.h,
-- the inline assembly for gem5, the copies of other projects (include/flock-lib, cxxopts.hpp), and so
-- far the numbers inside the elements of array_swap.h and their release, the map of htm-mcas, the
-- structures of lockfree but the queues, those of lockfree-flock, flock-mcas and, but for the array and
-- the deque, lockfree-mcas. Of the Snark deques and of SPSCQueue the destructors are not modelled.
pub mod Base
pub mod Heap
pub mod HtmLock
pub mod HtmMcas
pub mod Linked
pub mod Lockbased
pub mod Lockfree
pub mod LockfreeMcas
pub mod Mcas
pub mod SearchTree
pub mod Tm
