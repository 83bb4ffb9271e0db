-- ===== src/HtmMcas/Deque/Runs.antt =====
-- What the branches of the methods do to a deque whose nodes are there.
use data_structure_benchmark.Base.{◌≡◌, refl, ◌≢◌, some, arith}
use data_structure_benchmark.Base.Int.{ℤ, minus_one}
use data_structure_benchmark.Heap.{Ptr, Node, node, write}
use data_structure_benchmark.Lockbased.Deque.Spec.{Side, front, back}
use data_structure_benchmark.LockfreeMcas.Deque.{Deque, other, link, set_link, hat, hat_of, store}
use data_structure_benchmark.LockfreeMcas.Deque.Push.{pushed_deque}
use data_structure_benchmark.LockfreeMcas.Deque.Pop.{Popped}
use data_structure_benchmark.Tm.{Answers, Entry, speculative, fallback, refused, undecided, begin}
use data_structure_benchmark.Tm.Begin.{begin-ne_refused}
use data_structure_benchmark.HtmMcas.Deque.{
  Method, done, waiting, transaction, push_links, pop_links, push_section, pop_section,
}

by_entry :
    {B : Type 0} (e : Entry) (body : Method B)
    → e ≢ refused
    → e ≢ undecided
    → elim e [
      | speculative ↦ body
      | fallback ↦ body
      | refused ↦ λ _. waiting
      | undecided ↦ λ _. waiting
    ]
      ≡ body
by_entry speculative body p q = refl
by_entry fallback body p q = refl
by_entry refused body p q = absurd (p refl)
by_entry undecided body p q = absurd (q refl)

-- Once `TM_BEGIN` has returned, the transaction runs.
pub transaction_runs :
    {B : Type 0} (tries : Answers) (body : Method B)
    → begin tries ≢ undecided
    → transaction tries body ≡ body
unfolding transaction
transaction_runs tries body decided = by_entry (begin tries) body (begin-ne_refused tries) decided

-- the first branch of a push
pub push_links-empty :
    (dummy : Ptr) (s : Side) (n h : Ptr) (d : Deque) (y : Node ℤ)
    → d.heap n ≡ some y
    → push_links dummy s n h h d
      ≡ done tt (record {
        heap = write d.heap n (some (set_link (other s) dummy y));
        left_hat = n;
        right_hat = n;
      })
unfolding push_links
push_links-empty dummy front n h d y at = ground arith
push_links-empty dummy back n h d y at = ground arith

-- the second branch of a push
pub push_links-more :
    (dummy : Ptr) (s : Side) (n h o : Ptr) (d : Deque) (x y : Node ℤ)
    → d.heap n ≡ some y
    → d.heap h ≡ some x
    → n ≢ h
    → o ≢ h
    → push_links dummy s n h o d
      ≡ done tt (
          pushed_deque dummy s
            (record d { heap = write d.heap n (some (set_link (other s) h y)) })
            n
            h
            x)
unfolding push_links write
push_links-more dummy front n h o d x y at at_h ne differ = ground arith
push_links-more dummy back n h o d x y at at_h ne differ = ground arith

-- the deque behind a pop of the node `x` at `h`
abbrev pub popped_deque : Side → Deque → Ptr → Node ℤ → Deque
popped_deque s d h x = store (hat_of s) (link (other s) x) (record d {
  heap =
      write (write d.heap h (some (set_link (other s) h x))) h
        (some (set_link s h (set_link (other s) h x)));
})

-- the second branch of a pop
pub pop_links_lem :
    (s : Side) (h : Ptr) (d : Deque) (x : Node ℤ)
    → d.heap h ≡ some x
    → pop_links s h (link (other s) x) d ≡ done x.payload (popped_deque s d h x)
unfolding pop_links write
pop_links_lem front h d x at = ground arith
pop_links_lem back h d x at = ground arith

pub popped_deque-Popped :
    (s : Side) (h : Ptr) (d : Deque) (x : Node ℤ) → Popped s d (popped_deque s d h x) h x
unfolding write
popped_deque-Popped front h d x = record { moved = refl; stays = refl; heap = λ p. ground arith }
popped_deque-Popped back h d x = record { moved = refl; stays = refl; heap = λ p. ground arith }

-- `pop` finds the deque empty where the hat's node is dead, and takes the node where it is not.
pub pop_section-empty :
    (s : Side) (d : Deque) (v : ℤ) (h : Ptr)
    → hat s d ≡ h
    → d.heap h ≡ some (node v h h)
    → pop_section s d ≡ done minus_one d
unfolding pop_section
pop_section-empty front d v h e at = ground arith
pop_section-empty back d v h e at = ground arith

pub pop_section-more :
    (s : Side) (d : Deque) (h : Ptr) (x : Node ℤ)
    → hat s d ≡ h
    → d.heap h ≡ some x
    → link s x ≢ h
    → pop_section s d ≡ pop_links s h (link (other s) x) d
unfolding pop_section
pop_section-more s d h x e at ne = ground arith

pub push_section_lem :
    (dummy : Ptr) (s : Side) (n : Ptr) (d : Deque) (h : Ptr) (x : Node ℤ)
    → hat s d ≡ h
    → d.heap h ≡ some x
    → push_section dummy s n d ≡ push_links dummy s n h (link s x) d
unfolding push_section
push_section_lem dummy s n d h x e at = ground arith
