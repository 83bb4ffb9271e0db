-- ===== src/HtmMcas/Links.antt =====
-- What the lists of htm-mcas/ do with the links of their nodes (SortedList.h, HashMap.h): the loops that
-- also stop at a null pointer, and the assignments of `insert_before`, `insert_after` and `delete_node`.
pub mod Walk
pub mod Splice
use data_structure_benchmark.Base.{ℕ, zero, suc, Bool, true, false, ◌==◌, ◌||◌, if◌then◌else◌}
use data_structure_benchmark.Heap.{
  Ptr, null, Command, exhausted, pure, ◌>>=◌, ◌>>◌, load, set_next, set_prev,
}

module _ {ℓ} {A : Type ℓ} where
  -- `while (curr != nullptr && curr != tail && test(curr)) curr = curr->next;`, with fuel
  unfoldable pub walk_to : (A → Bool) → Ptr → ℕ → Ptr → Command A Ptr
  walk_to test tail zero curr = λ _. exhausted
  walk_to test tail (suc k) curr =
      if (curr == null) || (curr == tail)
      then pure curr
      else do n ← load curr; if test n.payload then walk_to test tail k n.next else pure curr

  -- `insert_before` behind its test, up to `next->prev = node`; the result is its variable `prev`.
  unfoldable pub splice_before : Ptr → Ptr → Command A Ptr
  splice_before next new = do
    n ← load next
    set_next new next
    set_prev new n.prev
    x ← load new
    set_next x.prev new
    set_prev next new
    pure n.prev

  -- `insert_after` likewise; the result is its variable `next`.
  unfoldable pub splice_after : Ptr → Ptr → Command A Ptr
  splice_after prev new = do
    n ← load prev
    set_prev new prev
    set_next new n.next
    set_next prev new
    x ← load new
    set_prev x.next new
    pure n.next

  -- `delete_node` behind its test
  unfoldable pub detach : Ptr → Command A (Unit {0})
  detach p = do n ← load p; set_next n.prev n.next; set_prev n.next n.prev

  unfoldable pub delete_node : Ptr → Ptr → Ptr → Command A (Unit {0})
  delete_node head tail p = if (p == head) || (p == tail) then pure tt else detach p
