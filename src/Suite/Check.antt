-- ===== src/Suite/Check.antt =====
-- The checks of bounded queues and of a full ring pass.
use native.Mathlib.Nat.{pow-le-pow_right}
use lfqueue.Base.{ℕ, zero, suc, ◌+◌, ◌*◌, ◌/◌, ◌%◌, ◌^◌, ◌≤◌, ◌<◌, ◌≡◌, refl, arith, ap, ◌∙◌, eq→==}
use lfqueue.Base.{some, [], done}
use lfqueue.Word.{word_mod}
use lfqueue.Ring.{Cpu, ScqRing}
use lfqueue.Ring.Holds.{Holds, IsFair}
use lfqueue.Ring.Fifo.{dequeue_removes}
use lfqueue.Lfring.Order.{IsAccepted-pow, IsLog-pow}
use lfqueue.Alloc.Fresh.{range, length-range, new_alloc_ring_full_lem}
use lfqueue.Bounded.{BoundedQueue, new, capacity}
use lfqueue.Bounded.Enqueue.{capacity_of}
use lfqueue.Bounded.Cycle.{Represents}
use lfqueue.Bounded.New.{new_lem}
use lfqueue.Grind.Agrees.{assert_eq_refl}
use lfqueue.Grind.Const.{const_queue_lem}
use lfqueue.Suite.{check_queue, check_alloc_queue, check_const_queue, ring_dequeues, fullinit}
use lfqueue.Suite.Loops.{
  IsUsable, enqueues-accepted, enqueues-refused, dequeues-returned, dequeues-nothing,
}

check_queue_lem :
    (order : ℕ) (cs : ℕ → ℕ → Cpu) (b : BoundedQueue ℕ)
    → ((k i : ℕ) → IsFair (cs k i))
    → IsUsable order (2 ^ order + (2 ^ order + (2 ^ order + (2 ^ order + 0)))) [] b
    → (b' : BoundedQueue ℕ) × (check_queue cs (2 ^ order) b ≡ done b') × Represents b' order []
unfolding check_queue
check_queue_lem order cs b fair u =
    let n = 2 ^ order in
    let size : capacity b ≡ n =
      capacity_of b u.represents.store.free_ring ∙ ap (λ (k : ℕ). 2 ^ k) u.represents.order_is in
    let (b1, e1, u1) = enqueues-accepted order (cs 0) (fair 0) n 0 _ [] b (omega arith) u in
    let (b2, e2, u2) =
      enqueues-refused order (cs 1) (fair 1) n 0 _ (range 0 n) b1 (length-range 0 n) u1 in
    let (b3, e3, u3) = dequeues-returned order (cs 2) (fair 2) n 0 _ b2 u2 in
    let (b4, e4, u4) = dequeues-nothing order (cs 3) (fair 3) n 0 0 b3 u3 in
    (b4, rw (eq→== _ _ size, e1, e2, e3) e4, u4.represents)

check_new :
    (order : ℕ) (cs : ℕ → ℕ → Cpu)
    → order ≤ 58
    → ((k i : ℕ) → IsFair (cs k i))
    → (b : BoundedQueue ℕ) × (b' : BoundedQueue ℕ) × (new ℕ 0 (2 ^ order) ≡ done b)
      × (check_queue cs (2 ^ order) b ≡ done b')
      × Represents b' order []
check_new order cs small fair =
    let bound : 2 ^ order ≤ 2 ^ 58 = pow-le-pow_right {n = 2} (omega arith) small in
    let (b, e, h, o, m, f, a) =
      new_lem ℕ 0 (2 ^ order) order (omega arith) (omega arith) (IsAccepted-pow order)
        (IsLog-pow order) in
    let (b', e', h') = check_queue_lem order cs b fair (record {
      represents = h;
      is_open = o;
      free_young = omega arith;
      alloc_young = omega arith;
    }) in
    (b, b', e, e', h')

-- For each order up to 58 and on fair processors: `check_queue` of an allocated queue for `2 ^
-- order` items ends with no failed assertion. The queue has this capacity, takes as many numbers,
-- hands as many more back, returns those that it took in order, and then nothing; it is empty in
-- the end.
pub check_alloc_queue_lem :
    (order : ℕ) (cs : ℕ → ℕ → Cpu)
    → order ≤ 58
    → ((k i : ℕ) → IsFair (cs k i))
    → (b' : BoundedQueue ℕ) × (check_alloc_queue cs (2 ^ order) ≡ done b') × Represents b' order []
unfolding check_alloc_queue
check_alloc_queue_lem order cs small fair =
    let (b, b', e, e', h) = check_new order cs small fair in (b', rw e e', h)

-- For each order up to 58 and on fair processors: `check_queue` of `const_queue!` for `2 ^ order`
-- items ends with no failed assertion, and the queue is empty in the end.
pub check_const_queue_lem :
    (order : ℕ) (cs : ℕ → ℕ → Cpu)
    → order ≤ 58
    → ((k i : ℕ) → IsFair (cs k i))
    → (b' : BoundedQueue ℕ) × (check_const_queue cs (2 ^ order) ≡ done b') × Represents b' order []
unfolding check_const_queue
check_const_queue_lem order cs small fair =
    let bound : 2 ^ order ≤ 2 ^ 58 = pow-le-pow_right {n = 2} (omega arith) small in
    let (b, b', e, e', h) = check_new order cs small fair in
    let half : 2 ^ order * 2 % word_mod / 2 ≡ 2 ^ order = omega arith in
    (b', rw (const_queue_lem order (omega arith), e, half) e', h)

-- A ring returns the indices that it holds.
ring_dequeues_lem :
    (cs : ℕ → Cpu) (left i : ℕ) (r : ScqRing)
    → ((k : ℕ) → IsFair (cs k))
    → Holds r (range i left)
    → r.tail + left < 2 ^ 61
    → (r' : ScqRing) × (ring_dequeues cs left i r ≡ done r') × Holds r' []
unfolding ring_dequeues
ring_dequeues_lem cs zero i r fair h young = (r, refl, h)
ring_dequeues_lem cs (suc left) i r fair h young =
    let (r1, e1, h1, kept, t) = dequeue_removes (cs i) h (omega arith) (fair i) in
    let (r', e, h') = ring_dequeues_lem cs left (i + 1) r1 fair h1 (omega (arith, kept.tickets)) in
    (r', rw (e1, assert_eq_refl (some i)) e, h')

-- For each order up to 59 and on fair processors: a new full ring returns each index below its
-- capacity, in order, and is empty in the end.
pub fullinit_lem :
    (order : ℕ) (cs : ℕ → Cpu)
    → order ≤ 59
    → ((i : ℕ) → IsFair (cs i))
    → (r' : ScqRing) × (fullinit cs order (2 ^ order) ≡ done r') × Holds r' []
unfolding fullinit
fullinit_lem order cs small fair =
    let bound : 2 ^ order ≤ 2 ^ 59 = pow-le-pow_right {n = 2} (omega arith) small in
    let (r, e, h, n) = new_alloc_ring_full_lem 0 order small in
    let (r', e', h') = ring_dequeues_lem cs (2 ^ order) 0 r fair h (omega (arith, n.tickets)) in
    (r', rw e e', h')
