-- ===== src/Grind/Agrees.antt =====
-- The queue and the mock give the same replies.
use lfqueue.Base.{ℕ, suc, ◌+◌, ◌^◌, ◌≤◌, ◌<◌, ◌≡◌, refl, arith, ◌∙◌, ltb, if◌then◌else◌}
use lfqueue.Base.{
  false, Option, none, some, List, [], ◌∷◌, ◌++◌, length, done, ==_iff, dec_lt, lt→ltb, lt→leb,
  le→ltb, le→leb,
}
use lfqueue.Ring.{Cpu}
use lfqueue.Ring.Holds.{IsFair}
use lfqueue.Lfring.Order.{IsAccepted-pow, IsLog-pow}
use lfqueue.Lfring.Laws.{pow-le_60}
use lfqueue.Bounded.{BoundedQueue}
use lfqueue.Bounded.Cycle.{Represents, closed}
use lfqueue.Bounded.Fifo.{head_of, tail_of, enqueue_lem, dequeue_lem}
use lfqueue.Bounded.New.{new_lem}
use lfqueue.Mock
use lfqueue.Mock.{MockQueue}
use lfqueue.Grind.{GrindInstr, enqueue, dequeue, assert_eq, grind_step, grind_loop, scq_grind}

-- The mock holds the values of the queue, and both have the same capacity. `room` calls may follow
-- before a counter reaches 2 ^ 61.
pub record Agrees (order room : ℕ) (mock : MockQueue ℕ) (queue : BoundedQueue ℕ) : Type 0 where
  pub represents : Represents queue order mock.queue
  pub same_size : mock.size ≡ 2 ^ order
  pub is_open : closed queue ≡ false
  pub free_young : queue.free_queue.tail + room < 2 ^ 61
  pub alloc_young : queue.alloc_queue.tail + room < 2 ^ 61

pub assert_eq_refl : (reply : Option ℕ) → assert_eq reply reply ≡ done tt
unfolding assert_eq
assert_eq_refl none = refl
assert_eq_refl (some x) = rw ((==_iff x x).1 refl)

pub mock_dequeue :
    (m : MockQueue ℕ) → Mock.dequeue m ≡ (head_of m.queue, record m { queue = tail_of m.queue })
unfolding Mock.dequeue
mock_dequeue m = by_queue m m.queue refl
  where
    by_queue :
        (m : MockQueue ℕ) (q : List ℕ)
        → m.queue ≡ q
        → Mock.dequeue m ≡ (head_of m.queue, record m { queue = tail_of m.queue })
    by_queue m [] e = rw e refl
    by_queue m (x ∷ q) e = rw e refl

mock_enqueue :
    (m : MockQueue ℕ) (x : ℕ)
    → Mock.enqueue m x ≡ (
      (if ltb (length m.queue) m.size then none else some x),
      record m { queue = if ltb (length m.queue) m.size then m.queue ++ (x ∷ []) else m.queue },
    )
unfolding Mock.enqueue
mock_enqueue m x = elim (dec_lt (length m.queue) m.size) [
  | yes h ↦ rw (lt→ltb (length m.queue) m.size h, lt→leb m.size (length m.queue) h)
  | no h ↦
      rw
        (le→ltb (length m.queue) m.size (omega arith), le→leb m.size (length m.queue) (omega arith))
]

-- A round ends with the two still alike.
grind_step_lem :
    (order room : ℕ) (c : Cpu) (mock : MockQueue ℕ) (queue : BoundedQueue ℕ) (instr : GrindInstr)
    → IsFair c
    → Agrees order (suc room) mock queue
    → (mock' : MockQueue ℕ) × (queue' : BoundedQueue ℕ) × (grind_step c mock queue instr
        ≡ done (mock', queue'))
      × Agrees order room mock' queue'
unfolding grind_step
grind_step_lem order room c mock queue dequeue fair a =
    let (b, e, h, l, f, t) =
      dequeue_lem c a.represents (omega (arith, a.free_young), omega (arith, a.alloc_young)) fair in
    (
      record mock { queue = tail_of mock.queue },
      b,
      rw (mock_dequeue mock, e, assert_eq_refl (head_of mock.queue)),
      record {
        represents = h;
        same_size = a.same_size;
        is_open = f ∙ a.is_open;
        free_young = omega (arith, l.free_tickets, a.free_young);
        alloc_young = omega (arith, l.alloc_tickets, a.alloc_young);
      },
    )
grind_step_lem order room c mock queue (enqueue x) fair a =
    let (b, e, h, l, f) =
      enqueue_lem c a.represents (omega (arith, a.free_young), omega (arith, a.alloc_young)) fair x
        a.is_open in
    (
      record mock {
        queue = if ltb (length mock.queue) (2 ^ order) then mock.queue ++ (x ∷ []) else mock.queue;
      },
      b,
      rw (
        mock_enqueue mock x,
        a.same_size,
        e,
        assert_eq_refl (if ltb (length mock.queue) (2 ^ order) then none else some x),
      ),
      record {
        represents = h;
        same_size = a.same_size;
        is_open = f;
        free_young = omega (arith, l.free_tickets, a.free_young);
        alloc_young = omega (arith, l.alloc_tickets, a.alloc_young);
      },
    )

-- Nor does any sequence of rounds make them differ.
pub grind_loop_lem :
    (order : ℕ) (cs : ℕ → Cpu)
    → ((k : ℕ) → IsFair (cs k))
    → (k : ℕ) (instrs : List GrindInstr) (mock : MockQueue ℕ) (queue : BoundedQueue ℕ)
    → Agrees order (length instrs) mock queue
    → (mock' : MockQueue ℕ) × (queue' : BoundedQueue ℕ) × (grind_loop cs k instrs mock queue
        ≡ done (mock', queue'))
      × Agrees order 0 mock' queue'
unfolding grind_loop
grind_loop_lem order cs fair k [] mock queue a = (mock, queue, refl, a)
grind_loop_lem order cs fair k (instr ∷ instrs) mock queue a =
    let (mock1, queue1, e1, a1) =
      grind_step_lem order (length instrs) (cs k) mock queue instr (fair k) a in
    let (mock2, queue2, e2, a2) = grind_loop_lem order cs fair (k + 1) instrs mock1 queue1 a1 in
    (mock2, queue2, rw e1 e2, a2)

-- On a queue made for `2 ^ order` items, and whatever exchanges fail spuriously before the last 16
-- rounds of each loop, a run of the fuzz target on any sequence of calls ends with no failed
-- assertion: each reply of the queue is the mock's. The queue then holds what the mock holds.
pub scq_grind_lem :
    (order : ℕ) (cs : ℕ → Cpu) (instrs : List GrindInstr)
    → order ≤ 59
    → ((k : ℕ) → IsFair (cs k))
    → length instrs < 2 ^ 60
    → (mock : MockQueue ℕ) × (queue : BoundedQueue ℕ) × (scq_grind cs
          (record { order = 2 ^ order; instructions = instrs })
        ≡ done (mock, queue))
      × Represents queue order mock.queue
unfolding scq_grind
scq_grind_lem order cs instrs small fair few =
    let bound : 2 ^ order ≤ 2 ^ 60 = pow-le_60 order (omega arith) in
    let (b, e, h, o, m, f, a) =
      new_lem ℕ 0 (2 ^ order) order small (omega arith) (IsAccepted-pow order) (IsLog-pow order) in
    let (mock, queue, e', agrees) =
      grind_loop_lem order cs fair 0 instrs (record { queue = []; size = 2 ^ order }) b
        (record {
          represents = h;
          same_size = refl;
          is_open = o;
          free_young = omega arith;
          alloc_young = omega arith;
        }) in
    (mock, queue, rw e e', agrees.represents)
