-- ===== src/HtmLock/HashMap.antt =====
-- htm-lock/HashMap.h. What a method does between `TM_BEGIN` and `TM_END` is a function `…_section`;
-- `find` reads the value of the node behind `TM_END`. Each loop takes fuel, and `fresh` is what `new`
-- returns.
pub mod Equivalence
pub mod Race
use data_structure_benchmark.Base.{
  ℕ, zero, suc, Bool, Option, none, some, List, ◌==◌, if◌then◌else◌,
}
use data_structure_benchmark.Base.Int.{ℤ, minus_one, eq_int}
use data_structure_benchmark.Heap.{Ptr, Command, exhausted, pure, ◌>>=◌, ◌>>◌, load}
use data_structure_benchmark.Linked.{walk}
use data_structure_benchmark.Tm.{Answers}
use data_structure_benchmark.HtmLock.{atomically}
use data_structure_benchmark.Lockbased.HashMap as Locked
use data_structure_benchmark.Lockbased.HashMap.{
  Entry, table_size, other_key, index, assign_at, contains_loop, remove_at, dispose, for_each,
  construct_bucket, destroy_bucket,
}

-- The fields are those of the lock-based class, less the mutex.
abbrev pub HashMap : Type 0
HashMap = Locked.HashMap

-- `HashMap()`, where `m` holds the addresses that `new` returns
unfoldable pub construct : HashMap → Command Entry (Unit {0})
construct m = for_each (construct_bucket m) table_size

-- `~HashMap()`, with fuel for its loop
unfoldable pub destroy : ℕ → HashMap → Command Entry (Unit {0})
destroy fuel m = for_each (destroy_bucket fuel m) table_size

-- the loop of `find`: the node with the key, if there is one
unfoldable pub find_loop : ℤ → Ptr → ℕ → Ptr → Command Entry (Option Ptr)
find_loop key tail zero curr = λ _. exhausted
find_loop key tail (suc k) curr = if curr == tail then pure none else do
  n ← load curr
  if eq_int n.payload.key key then pure (some curr) else find_loop key tail k n.next

-- `return curr->value;`, or -1
unfoldable pub read_found : Option Ptr → Command Entry ℤ
read_found none = pure minus_one
read_found (some curr) = do n ← load curr; pure n.payload.value

module _ (hash : ℤ → ℕ) where
  unfoldable pub insert_section : ℕ → HashMap → ℤ → ℤ → Ptr → Command Entry (Unit {0})
  insert_section fuel m key value fresh = do
    hd ← load (m.bucket_heads (index hash key))
    (parent, curr) ←
        walk (other_key key) (m.bucket_tails (index hash key)) fuel
          (m.bucket_heads (index hash key)) hd.next
    assign_at (m.bucket_tails (index hash key)) key value fresh parent curr

  unfoldable pub contains_section : ℕ → HashMap → ℤ → Command Entry Bool
  contains_section fuel m key = do
    hd ← load (m.bucket_heads (index hash key))
    contains_loop key (m.bucket_tails (index hash key)) fuel hd.next

  unfoldable pub remove_section : ℕ → HashMap → ℤ → Command Entry (Option Ptr)
  remove_section fuel m key = do
    hd ← load (m.bucket_heads (index hash key))
    (_, curr) ←
        walk (other_key key) (m.bucket_tails (index hash key)) fuel
          (m.bucket_heads (index hash key)) hd.next
    remove_at (m.bucket_tails (index hash key)) curr

  unfoldable pub find_section : ℕ → HashMap → ℤ → Command Entry (Option Ptr)
  find_section fuel m key = do
    hd ← load (m.bucket_heads (index hash key))
    find_loop key (m.bucket_tails (index hash key)) fuel hd.next

  module _ (tries : Answers) where
    unfoldable pub insert_or_assign : ℕ → HashMap → ℤ → ℤ → Ptr → Command Entry (Unit {0})
    insert_or_assign fuel m key value fresh =
        atomically tries (insert_section fuel m key value fresh)

    unfoldable pub contains : ℕ → HashMap → ℤ → Command Entry Bool
    contains fuel m key = atomically tries (contains_section fuel m key)

    unfoldable pub remove : ℕ → HashMap → ℤ → Command Entry (Unit {0})
    remove fuel m key = do tmp ← atomically tries (remove_section fuel m key); dispose tmp

    unfoldable pub find : ℕ → HashMap → ℤ → Command Entry ℤ
    find fuel m key = do found ← atomically tries (find_section fuel m key); read_found found
