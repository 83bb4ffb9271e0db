-- ===== src/Heap/Access.antt =====
-- Commands at an address that holds a node, and at one that holds none.
use data_structure_benchmark.Base.{◌≡◌, none, some}
use data_structure_benchmark.Heap.{
  Ptr, Node, Heap, write, done, fault, load, set_next, set_prev, set_payload, delete,
}

module _ {ℓ} {A : Type ℓ} (h : Heap A) (p : Ptr) {n : Node A} (e : h p ≡ some n) where
  pub load_ok : load p h ≡ done n h
  unfolding load
  load_ok = rw (e, load)

  pub delete_ok : delete p h ≡ done tt (write h p none)
  unfolding delete
  delete_ok = rw load_ok

  pub set_next_ok : (q : Ptr) → set_next p q h ≡ done tt (write h p (some (record n { next = q })))
  unfolding set_next
  set_next_ok q = rw load_ok

  pub set_prev_ok : (q : Ptr) → set_prev p q h ≡ done tt (write h p (some (record n { prev = q })))
  unfolding set_prev
  set_prev_ok q = rw load_ok

  pub set_payload_ok :
      (v : A) → set_payload p v h ≡ done tt (write h p (some (record n { payload = v })))
  unfolding set_payload
  set_payload_ok v = rw load_ok

pub load-none {ℓ} : {A : Type ℓ} (h : Heap A) (p : Ptr) → h p ≡ none → load p h ≡ fault
unfolding load
load-none h p e = rw (e, load)
