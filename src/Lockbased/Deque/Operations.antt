-- ===== src/Lockbased/Deque/Operations.antt =====
-- The operations of the deque, allocation and deletion included, against its specification.
use data_structure_benchmark.Base.{◌≡◌, ◌≢◌, false, Option, none, some, [], arith, if◌then◌else◌}
use data_structure_benchmark.Base.Int.{ℤ, pos}
use data_structure_benchmark.Heap.{
  Ptr, null, node, Heap, write, done, Command, set_payload, new_node, load, ◌>>◌,
}
use data_structure_benchmark.Heap.Access.{delete_ok}
use data_structure_benchmark.Heap.Chain.{Cells, has, SameOutside, values}
use data_structure_benchmark.Heap.Finishes
use data_structure_benchmark.Heap.Finishes.{Finishes, finishes}
use data_structure_benchmark.Lockbased.Deque.{
  Deque, make_node, push_front, push_back, dispose, pop_front, pop_back,
}
use data_structure_benchmark.Lockbased.Deque.Shape.{
  nodes, IsDeque, IsOwn, IsDeque-frame, not_has_of_unused,
}
use data_structure_benchmark.Lockbased.Deque.Spec.{Side, front, back, take}
use data_structure_benchmark.Lockbased.Deque.Contents.{
  push_locked, put_cell, push_locked_lem, Rest, nothing, found, pop_locked_lem, take-put_cell,
  take-nil, has-put_cell,
}

abbrev pub push : Side → Deque → ℤ → Ptr → Command ℤ (Unit {0})
push front = push_front
push back = push_back

abbrev pub pop : Side → Deque → Command ℤ ℤ
pop front = pop_front
pop back = pop_back

-- the heap that `make_node` leaves
abbrev pub made : Heap ℤ → ℤ → Ptr → Heap ℤ
unfolding write
made h v fresh =
    write (write h fresh (some (node (pos 0) null null))) fresh (some (node v null null))

pub make_node_lem :
    (h : Heap ℤ) (v : ℤ) (fresh : Ptr) → make_node v fresh h ≡ done tt (made h v fresh)
unfolding make_node new_node set_payload load write
make_node_lem h v fresh = ground arith

pub made-IsOwn :
    (h : Heap ℤ) (d : Deque) (v : ℤ) (fresh : Ptr) (xs : Cells ℤ)
    → IsDeque h d xs
    → fresh ≢ null
    → h fresh ≡ none
    → IsDeque (made h v fresh) d xs × IsOwn (made h v fresh) fresh v (nodes d xs)
unfolding write
made-IsOwn h d v fresh xs is p q =
    let out = not_has_of_unused h d xs fresh is q in
    (
      IsDeque-frame h (made h v fresh) d xs is λ a i. ground (arith, out),
      record { holds = (null, null, ground arith); ne_null = p; out = out },
    )

push_made :
    (s : Side) (h : Heap ℤ) (d : Deque) (v : ℤ) (fresh : Ptr) (xs : Cells ℤ)
    → IsDeque h d xs
    → fresh ≢ null
    → h fresh ≡ none
    → Finishes
        (λ _ g.
          IsDeque g d (put_cell s (fresh, v) xs)
          × SameOutside (nodes d (put_cell s (fresh, v) xs)) h g)
        ((make_node v fresh >> push_locked s d fresh) h)
unfolding write
push_made s h d v fresh xs is p q =
    let (is', own) = made-IsOwn h d v fresh xs is p q in
    rw (make_node_lem h v fresh) (
      Finishes.weaken (push_locked_lem s (made h v fresh) d fresh v xs is' own)
        λ _ g post. (post.0, λ a o. ground (arith, post.1 a, has-put_cell s d fresh v xs a)))

-- A push of either kind, on any well-formed deque and a fresh node, finishes, puts the value at its end
-- of the deque, and writes to no node outside.
pub push-put :
    (s : Side) (h : Heap ℤ) (d : Deque) (v : ℤ) (fresh : Ptr) (xs : Cells ℤ)
    → IsDeque h d xs
    → fresh ≢ null
    → h fresh ≡ none
    → Finishes
        (λ _ g.
          IsDeque g d (put_cell s (fresh, v) xs)
          × SameOutside (nodes d (put_cell s (fresh, v) xs)) h g)
        (push s d v fresh h)
unfolding push_front push_back
push-put front h d v fresh xs is p q = push_made front h d v fresh xs is p q
push-put back h d v fresh xs is p q = push_made back h d v fresh xs is p q

-- What a pop of either kind leaves: the result and the values left are those of the specification,
-- the node taken out is deleted, and no other node outside the deque is touched.
abbrev pub Taken : Side → Heap ℤ → Deque → Cells ℤ → ℤ → Heap ℤ → Type 0
Taken s h d xs r g =
    (ys : Cells ℤ) × IsDeque g d ys
    × (take s (values xs) ≡ (r, values ys))
    × ((a : Ptr) → has a (nodes d ys) ≡ false → g a ≡ (if has a (nodes d xs) then none else h a))

dispose_lem :
    (s : Side) (h g : Heap ℤ) (d : Deque) (xs : Cells ℤ) (r : ℤ × Option Ptr)
    → Rest s h g d xs r
    → Finishes (λ _. Taken s h d xs r.0) (dispose r.1 g)
unfolding dispose write
dispose_lem s h g d xs r (nothing e is same) =
    rw (e, same) (finishes ([], is, take-nil s, λ a o. ground arith))
dispose_lem s h g d xs r (found m w rest e is own o) =
    let (x, y, at) = own.holds in
    rw (delete_ok g m at, e)
      (finishes (
        rest,
        IsDeque-frame g (write g m none) d rest is λ a i. ground (arith, own.out),
        take-put_cell s m w rest,
        λ a out. ground (arith, o a, has-put_cell s d m w rest a),
      ))

-- A pop of either kind, on any well-formed deque, finishes and returns the value at its end, or -1 from
-- an empty one; the other values stay, in order, the node taken out is deleted, and no other node
-- outside the deque changes.
pub pop-take :
    (s : Side) (h : Heap ℤ) (d : Deque) (xs : Cells ℤ)
    → IsDeque h d xs
    → Finishes (Taken s h d xs) (pop s d h)
unfolding pop_front pop_back
pop-take front h d xs is =
    Finishes.chain (pop_locked_lem front h d xs is)
      λ r g rest. Finishes.chain (dispose_lem front h g d xs r rest) λ _ g' t. finishes t
pop-take back h d xs is =
    Finishes.chain (pop_locked_lem back h d xs is)
      λ r g rest. Finishes.chain (dispose_lem back h g d xs r rest) λ _ g' t. finishes t
