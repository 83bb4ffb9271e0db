-- ===== src/Heap.antt =====
-- The C++ heap as the list structures use it: doubly linked nodes at addresses, and commands that
-- read, write, allocate and delete them. The payload of a node is a parameter: an `int`, or the key
-- and value of a map.
pub mod Finishes
pub mod Access
pub mod Chain
pub mod Splice
use data_structure_benchmark.Base.{ℕ, Option, none, some, ◌==◌, if◌then◌else◌}

abbrev pub Ptr : Type 0
Ptr = ℕ

abbrev pub null : Ptr
null = 0

-- `struct Node`, with its payload in `data_`
pub record Node {ℓ} (A : Type ℓ) : Type ℓ where
  pub payload : A
  pub next : Ptr
  pub prev : Ptr

abbrev pub node {ℓ} : {A : Type ℓ} → A → Ptr → Ptr → Node A
node v q b = record { payload = v; next = q; prev = b }

-- `none` is an address that holds no live node.
abbrev pub Heap {ℓ} : Type ℓ → Type ℓ
Heap A = Ptr → Option (Node A)

unfoldable pub write {ℓ} : {A : Type ℓ} → Heap A → Ptr → Option (Node A) → Heap A
write h p c a = if a == p then c else h a

-- The outcome of a command: a value and the new heap, an access to no node, or too little fuel.
pub data Outcome {ℓ κ} (A : Type ℓ) (B : Type κ) : Type (ℓ ⊔ κ) where
  done : B → Heap A → Outcome A B
  fault : Outcome A B
  exhausted : Outcome A B

abbrev pub Command {ℓ κ} : Type ℓ → Type κ → Type (ℓ ⊔ κ)
Command A B = Heap A → Outcome A B

module _ {ℓ} {A : Type ℓ} where
  abbrev pub pure {κ} : {B : Type κ} → B → Command A B
  pure = done

  abbrev pub and_then {κ μ} :
      {B : Type κ} {C : Type μ} → Outcome A B → (B → Command A C) → Outcome A C
  and_then (done b h) k = k b h
  and_then fault k = fault
  and_then exhausted k = exhausted

  infixl 5 ◌>>=◌ ◌>>◌
  abbrev pub ◌>>=◌ {κ μ} : {B : Type κ} {C : Type μ} → Command A B → (B → Command A C) → Command A C
  m >>= k = λ h. and_then (m h) k

  abbrev pub ◌>>◌ {κ μ} : {B : Type κ} {C : Type μ} → Command A B → Command A C → Command A C
  m >> n = m >>= λ _. n

  -- `*p`: a fault where no node lives
  unfoldable pub load : Ptr → Command A (Node A)
  load p h = elim (h p) [ none ↦ fault | some n ↦ done n h ]

  -- `p->next = q`
  unfoldable pub set_next : Ptr → Ptr → Command A (Unit {0})
  set_next p q = do n ← load p; λ h. done tt (write h p (some (record n { next = q })))

  -- `p->prev = q`
  unfoldable pub set_prev : Ptr → Ptr → Command A (Unit {0})
  set_prev p q = do n ← load p; λ h. done tt (write h p (some (record n { prev = q })))

  -- the assignments to the fields of the payload
  unfoldable pub set_payload : Ptr → A → Command A (Unit {0})
  set_payload p v = do n ← load p; λ h. done tt (write h p (some (record n { payload = v })))

  -- `new Node()`, which zeroes the node, at the address `fresh` that the allocator returns
  unfoldable pub new_node : A → Ptr → Command A (Unit {0})
  new_node zeroed fresh h = done tt (write h fresh (some (node zeroed null null)))

  -- `delete p`
  unfoldable pub delete : Ptr → Command A (Unit {0})
  delete p = do _ ← load p; λ h. done tt (write h p none)
