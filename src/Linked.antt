-- ===== src/Linked.antt =====
-- What the sorted lists and the buckets of the hash maps share: a doubly linked chain between two
-- sentinels, the loop that walks along it, and the assignments that put a node in or take one out.
pub mod Shape
pub mod Walk
pub mod Link
pub mod Assign
pub mod Destroy
use data_structure_benchmark.Base.{ℕ, zero, suc, Bool, ◌==◌, if◌then◌else◌}
use data_structure_benchmark.Heap.{
  Ptr, Command, exhausted, pure, ◌>>=◌, ◌>>◌, load, set_next, set_prev, delete,
}

module _ {ℓ} {A : Type ℓ} where
  -- `while (curr != tail && test(curr)) { parent = curr; curr = curr->next; }`, with fuel; the loops
  -- that keep no `parent` use the second part of the result.
  unfoldable pub walk : (A → Bool) → Ptr → ℕ → Ptr → Ptr → Command A (Ptr × Ptr)
  walk test tail zero parent curr = λ _. exhausted
  walk test tail (suc k) parent curr = if curr == tail then pure (parent, curr) else do
    n ← load curr
    if test n.payload then walk test tail k curr n.next else pure (parent, curr)

  -- `new_node->next = curr; new_node->prev = parent; parent->next = new_node; curr->prev = new_node;`
  unfoldable pub link_node : Ptr → Ptr → Ptr → Command A (Unit {0})
  link_node new parent curr = do
    set_next new curr
    set_prev new parent
    set_next parent new
    set_prev curr new

  -- `curr->next->prev = curr->prev; curr->prev->next = curr->next;`
  unfoldable pub unlink_node : Ptr → Command A (Unit {0})
  unlink_node curr = do
    n ← load curr
    set_prev n.next n.prev
    n' ← load curr
    set_next n'.prev n'.next

  -- `while (curr != tail) { Node *tmp = curr; curr = curr->next; delete tmp; }`, with fuel
  unfoldable pub destroy_loop : Ptr → ℕ → Ptr → Command A (Unit {0})
  destroy_loop tail zero curr = λ _. exhausted
  destroy_loop tail (suc k) curr =
      if curr == tail then pure tt else do n ← load curr; delete curr; destroy_loop tail k n.next
