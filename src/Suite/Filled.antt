-- ===== src/Suite/Filled.antt =====
-- What an unbounded queue is given comes back.
use mathlib.Core.List.{append_assoc, append-nil}
use lfqueue.Base.{ℕ, zero, suc, ◌+◌, ◌*◌, ◌^◌, ◌<◌, ◌≡◌, refl, arith, sym, subst}
use lfqueue.Base.{some, List, [], ◌∷◌, ◌++◌, done}
use lfqueue.Ring.{Cpu}
use lfqueue.Ring.Holds.{IsFair}
use lfqueue.Alloc.Fresh.{range}
use lfqueue.Unbounded.{UnboundedQueue}
use lfqueue.Unbounded.Pointers.{AtomicPtr}
use lfqueue.Unbounded.Chain.{IsSize, Contains, Contains-weaken}
use lfqueue.Unbounded.Fifo.{with_segment_size_lem, unbounded_enqueue_lem, unbounded_dequeue_lem}
use lfqueue.Grind.Agrees.{assert_eq_refl}
use lfqueue.Suite.{lcsq_enqueues, lcsq_dequeues, test_lcsq_ptr}

module _ {P : Type 0} (ops : AtomicPtr P) (size order fuel : ℕ) (z : IsSize size order) where
  lcsq_enqueues_lem :
      (cs : ℕ → Cpu)
      → ((i : ℕ) → IsFair (cs i))
      → (left i room : ℕ) (l : List ℕ) (q : UnboundedQueue ℕ P) → left + room < 2 ^ 60
      → Contains ops q.internal size order (left + room) l
      → (q' : UnboundedQueue ℕ P) × (lcsq_enqueues ops (suc (suc fuel)) cs left i q ≡ done q')
        × Contains ops q'.internal size order room (l ++ range i left)
  unfolding lcsq_enqueues
  lcsq_enqueues_lem cs fair zero i room l q few h = (
    q,
    refl,
    subst (λ p. Contains ops q.internal size order room p) (sym (append-nil l))
        (Contains-weaken ops (omega arith) h),
  )
  lcsq_enqueues_lem cs fair (suc left) i room l q few h =
      let (q1, e1, h1) =
        unbounded_enqueue_lem ops q (cs i) (fair i) (suc fuel) (left + room) i z (omega arith)
          (Contains-weaken ops (omega arith) h) in
      let (q', e, h') =
        lcsq_enqueues_lem cs fair left (i + 1) room (l ++ (i ∷ [])) q1 (omega arith) h1 in
      (
        q',
        rw e1 e,
        subst (λ p. Contains ops q'.internal size order room p)
            (append_assoc l (i ∷ []) (range (i + 1) left)) h',
      )

  lcsq_dequeues_lem :
      (cs : ℕ → Cpu)
      → ((i : ℕ) → IsFair (cs i))
      → (left i room : ℕ) (q : UnboundedQueue ℕ P)
      → Contains ops q.internal size order (3 * left + room) (range i left)
      → (q' : UnboundedQueue ℕ P) × (lcsq_dequeues ops (suc (suc fuel)) cs left i q ≡ done q')
        × Contains ops q'.internal size order room []
  unfolding lcsq_dequeues
  lcsq_dequeues_lem cs fair zero i room q h = (q, refl, Contains-weaken ops (omega arith) h)
  lcsq_dequeues_lem cs fair (suc left) i room q h =
      let (q1, e1, h1) =
        unbounded_dequeue_lem ops q (cs i) (fair i) fuel (3 * left + room)
          (Contains-weaken ops (omega arith) h) in
      let (q', e, h') = lcsq_dequeues_lem cs fair left (i + 1) room q1 h1 in
      (q', rw (e1, assert_eq_refl (some i)) e, h')

-- For segments of any size that the assertion accepts, on fair processors, with fuel for two rounds
-- of each call, and for fewer than 2 ^ 57 numbers: each number that is given to a new unbounded
-- queue comes back, in order and with no failed assertion, and the queue contains nothing in the
-- end.
pub test_lcsq_ptr_lem :
    {P : Type 0} (ops : AtomicPtr P) (size order fuel : ℕ) (cs : ℕ → ℕ → Cpu) (count : ℕ)
    → IsSize size order
    → ((k i : ℕ) → IsFair (cs k i))
    → count < 2 ^ 57
    → (q' : UnboundedQueue ℕ P) × (test_lcsq_ptr ops (suc (suc fuel)) cs size count ≡ done q')
      × Contains ops q'.internal size order 0 []
unfolding test_lcsq_ptr
test_lcsq_ptr_lem ops size order fuel cs count z fair few =
    let room = 3 * count + 0 in
    let (q, e, h, same) =
      with_segment_size_lem {A = ℕ} ops size order (count + room) z (omega arith) in
    let (q1, e1, h1) =
      lcsq_enqueues_lem ops size order fuel z (cs 0) (fair 0) count 0 room [] q (omega arith) h in
    let (q', e', h') = lcsq_dequeues_lem ops size order fuel z (cs 1) (fair 1) count 0 0 q1 h1 in
    (q', rw (e, e1) e', h')
