-- ===== src/Lockbased/HashMap.antt =====
-- lockbased/HashMap.h: a table of 10000 doubly linked buckets under one mutex. `std::hash<int>` is a
-- parameter. Each operation runs under the mutex but for the deletion in `remove`; each loop takes
-- fuel, and `fresh` is what `new` returns.
pub mod Table
pub mod Destroy
pub mod Create
pub mod Keys
pub mod Effect
pub mod Assign
pub mod Remove
pub mod Lookup
pub mod Tests
use data_structure_benchmark.Base.{
  ℕ, zero, suc, ◌%◌, Bool, true, false, not, Option, none, some, ◌==◌, if◌then◌else◌,
}
use data_structure_benchmark.Base.Int.{ℤ, pos, minus_one, eq_int}
use data_structure_benchmark.Heap.{
  Ptr, Command, exhausted, pure, ◌>>=◌, ◌>>◌, load, set_next, set_prev, set_payload, new_node,
  delete,
}
use data_structure_benchmark.Linked.{walk, link_node, unlink_node, destroy_loop}

abbrev pub table_size : ℕ
table_size = 10000

-- the payload of a node
pub record Entry : Type 0 where
  pub key : ℤ
  pub value : ℤ

abbrev pub entry : ℤ → ℤ → Entry
entry k v = record { key = k; value = v }

-- the two arrays, which only the constructor writes
pub record HashMap : Type 0 where
  pub bucket_heads : ℕ → Ptr
  pub bucket_tails : ℕ → Ptr

-- one round of the constructor, which makes the sentinels of a bucket
unfoldable pub construct_bucket : HashMap → ℕ → Command Entry (Unit {0})
construct_bucket m i = do
  new_node (entry (pos 0) (pos 0)) (m.bucket_heads i)
  new_node (entry (pos 0) (pos 0)) (m.bucket_tails i)
  set_next (m.bucket_heads i) (m.bucket_tails i)
  set_prev (m.bucket_tails i) (m.bucket_heads i)

-- `for (int i = 0; i < n; i++)` with one command for each round
unfoldable pub for_each : (ℕ → Command Entry (Unit {0})) → ℕ → Command Entry (Unit {0})
for_each body zero = pure tt
for_each body (suc n) = do for_each body n; body n

-- `HashMap()`, where `m` holds the addresses that `new` returns
unfoldable pub construct : HashMap → Command Entry (Unit {0})
construct m = for_each (construct_bucket m) table_size

-- one round of the destructor
unfoldable pub destroy_bucket : ℕ → HashMap → ℕ → Command Entry (Unit {0})
destroy_bucket fuel m i = do
  hd ← load (m.bucket_heads i)
  destroy_loop (m.bucket_tails i) fuel hd.next
  delete (m.bucket_tails i)
  delete (m.bucket_heads i)

-- `~HashMap()`
unfoldable pub destroy : ℕ → HashMap → Command Entry (Unit {0})
destroy fuel m = for_each (destroy_bucket fuel m) table_size

-- the test of the loops: `curr->key != key`
abbrev pub other_key : ℤ → Entry → Bool
other_key key e = not (eq_int e.key key)

-- behind the loop of `insert_or_assign`
unfoldable pub assign_at : Ptr → ℤ → ℤ → Ptr → Ptr → Ptr → Command Entry (Unit {0})
assign_at tail key value fresh parent curr =
    if curr == tail
    then (do
      new_node (entry (pos 0) (pos 0)) fresh
      set_payload fresh (entry key (pos 0))
      set_payload fresh (entry key value)
      link_node fresh parent curr)
    else (do n ← load curr; set_payload curr (entry n.payload.key value))

unfoldable pub contains_loop : ℤ → Ptr → ℕ → Ptr → Command Entry Bool
contains_loop key tail zero curr = λ _. exhausted
contains_loop key tail (suc k) curr = if curr == tail then pure false else do
  n ← load curr
  if eq_int n.payload.key key then pure true else contains_loop key tail k n.next

-- behind the loop of `remove`: the node to delete, if one was found
unfoldable pub remove_at : Ptr → Ptr → Command Entry (Option Ptr)
remove_at tail curr = if curr == tail then pure none else (unlink_node curr >> pure (some curr))

-- `delete tmp;`, which the early return skips
unfoldable pub dispose : Option Ptr → Command Entry (Unit {0})
dispose none = pure tt
dispose (some p) = delete p

unfoldable pub find_loop : ℤ → Ptr → ℕ → Ptr → Command Entry ℤ
find_loop key tail zero curr = λ _. exhausted
find_loop key tail (suc k) curr = if curr == tail then pure minus_one else do
  n ← load curr
  if eq_int n.payload.key key then pure n.payload.value else find_loop key tail k n.next

module _ (hash : ℤ → ℕ) where
  -- `std::hash<int>{}(key) % TABLE_SIZE`
  abbrev pub index : ℤ → ℕ
  index key = hash key % table_size

  unfoldable pub insert_or_assign : ℕ → HashMap → ℤ → ℤ → Ptr → Command Entry (Unit {0})
  insert_or_assign fuel m key value fresh = do
    hd ← load (m.bucket_heads (index key))
    (parent, curr) ←
        walk (other_key key) (m.bucket_tails (index key)) fuel (m.bucket_heads (index key)) hd.next
    assign_at (m.bucket_tails (index key)) key value fresh parent curr

  unfoldable pub contains : ℕ → HashMap → ℤ → Command Entry Bool
  contains fuel m key = do
    hd ← load (m.bucket_heads (index key))
    contains_loop key (m.bucket_tails (index key)) fuel hd.next

  unfoldable pub remove_locked : ℕ → HashMap → ℤ → Command Entry (Option Ptr)
  remove_locked fuel m key = do
    hd ← load (m.bucket_heads (index key))
    (_, curr) ←
        walk (other_key key) (m.bucket_tails (index key)) fuel (m.bucket_heads (index key)) hd.next
    remove_at (m.bucket_tails (index key)) curr

  unfoldable pub remove : ℕ → HashMap → ℤ → Command Entry (Unit {0})
  remove fuel m key = do tmp ← remove_locked fuel m key; dispose tmp

  unfoldable pub find : ℕ → HashMap → ℤ → Command Entry ℤ
  find fuel m key = do
    hd ← load (m.bucket_heads (index key))
    find_loop key (m.bucket_tails (index key)) fuel hd.next
