-- ===== src/Grind/Tests.antt =====
-- Runs of the bounded queue, and of the comparison with the mock, on concrete inputs.
use lfqueue.Base.{ℕ, ◌≤◌, ◌≡◌, ◌∙◌, arith, true, false, none, some}
use lfqueue.Base.{[], ◌∷◌, done, inl}
use lfqueue.Ring.{finalizable}
use lfqueue.Ring.Holds.{IsTight}
use lfqueue.Ring.Tests.{flaky, flaky-IsFair}
use lfqueue.Bounded
use lfqueue.Bounded.{BoundedQueue, accepted, returned, queue_finalized, new, new_const}
use lfqueue.Bounded.Store.{IsYoungQueue}
use lfqueue.Bounded.Cycle.{Represents, closed, Later, enqueue_cycle_lem}
use lfqueue.Bounded.Fifo.{enqueue_lem, dequeue_lem}
use lfqueue.Bounded.Enqueue.{close_when, close_when-Store}
use lfqueue.Bounded.Const.{new_const_lem}
use lfqueue.Bounded.Drop.{drop_lem}
use lfqueue.Bounded.Closed.{enqueue_cycle_closed_lem}
use lfqueue.Ring.Finalize.{tail-finalize, finalized-flag}
use lfqueue.Bounded.New.{new_lem}
use lfqueue.Mock.{MockQueue}
use lfqueue.Base.{Option, ◌^◌}
use lfqueue.Unbounded.{UnboundedQueue}
use lfqueue.Unbounded.Chain.{Contains}
use lfqueue.Unbounded.Tests.{plain}
use lfqueue.Grind.Const.{const_grind_lem}
use lfqueue.Grind.Lscq.{lscq_grind_lem}
use lfqueue.Grind.{
  GrindInstr, enqueue, dequeue, scq_grind, configure_grind, const_grind, lscq_grind,
}
use lfqueue.Base.{List}
use lfqueue.Grind.Agrees.{scq_grind_lem}

abbrev New : Type 0
New =
    (b : BoundedQueue ℕ) × (new ℕ 1 2 ≡ done b)
    × Represents b 1 []
    × (closed b ≡ false)
    × (finalizable b.alloc_queue ≡ true)
    × (b.free_queue.tail ≤ 2)
    × (b.alloc_queue.tail ≡ 0)

made : New
made =
    new_lem ℕ 1 2 1 (omega arith) (omega arith) (omega arith, inl (omega arith))
      (record { below = omega arith; above = omega arith })

new_lem_example : New
new_lem_example =
    new_lem ℕ 1 2 1 (omega arith) (omega arith) (omega arith, inl (omega arith))
      (record { below = omega arith; above = omega arith })

-- A queue for two numbers that can be closed, and the same queue with 7 in it.
abbrev empty : BoundedQueue ℕ
empty = made.0

empty-Represents : Represents empty 1 []
empty-Represents = made.2

empty-IsYoungQueue : IsYoungQueue empty
empty-IsYoungQueue = (omega (arith, made.5), omega (arith, made.6))

abbrev Entered : Type 0
Entered =
    (b' : BoundedQueue ℕ) × (Bounded.enqueue flaky empty 7 ≡ done (none, b'))
    × Represents b' 1 (7 ∷ [])
    × Later empty b'
    × (closed b' ≡ false)

entered : Entered
entered = enqueue_lem flaky empty-Represents empty-IsYoungQueue flaky-IsFair 7 made.3

enqueue_lem_example : Entered
enqueue_lem_example = enqueue_lem flaky empty-Represents empty-IsYoungQueue flaky-IsFair 7 made.3

abbrev with_seven : BoundedQueue ℕ
with_seven = entered.0

with_seven-IsYoungQueue : IsYoungQueue with_seven
with_seven-IsYoungQueue =
    (omega (arith, entered.3.free_tickets, made.5), omega (arith, entered.3.alloc_tickets, made.6))

dequeue_lem_example :
    (b' : BoundedQueue ℕ) × (Bounded.dequeue flaky with_seven ≡ done (some 7, b'))
    × Represents b' 1 []
    × Later with_seven b'
    × (closed b' ≡ closed with_seven)
    × (IsTight with_seven.alloc_queue 1 → IsTight b'.alloc_queue 0)
dequeue_lem_example = dequeue_lem flaky entered.2 with_seven-IsYoungQueue flaky-IsFair

-- The second number fills the queue, which `FINALIZE` closes if its rings can be finalized.
enqueue_cycle_lem_example :
    (b' : BoundedQueue ℕ) × (Bounded.enqueue_cycle true flaky with_seven 8 ≡ done (accepted, b'))
    × Represents b' 1 (7 ∷ 8 ∷ [])
    × Later with_seven b'
    × (closed b' ≡ finalizable with_seven.alloc_queue)
enqueue_cycle_lem_example =
    enqueue_cycle_lem flaky 8 entered.2 with_seven-IsYoungQueue flaky-IsFair true entered.4

scq_grind_lem_example :
    (mock : MockQueue ℕ) × (queue : BoundedQueue ℕ) × (scq_grind
        (λ k. flaky)
        (record {
          order = 2;
          instructions =
              enqueue 5 ∷ dequeue ∷ dequeue ∷ enqueue 6 ∷ enqueue 7 ∷ enqueue 8 ∷ dequeue ∷ [];
        })
      ≡ done (mock, queue))
    × Represents queue 1 mock.queue
scq_grind_lem_example =
    scq_grind_lem 1 (λ k. flaky)
      (enqueue 5 ∷ dequeue ∷ dequeue ∷ enqueue 6 ∷ enqueue 7 ∷ enqueue 8 ∷ dequeue ∷ [])
      (omega arith) (λ k. flaky-IsFair) (omega arith)

drop_lem_example : (b' : BoundedQueue ℕ) × (Bounded.drop 3 flaky with_seven ≡ done (7 ∷ [], b'))
drop_lem_example =
    drop_lem flaky flaky-IsFair 3 entered.2 (omega arith)
      (omega (arith, entered.3.alloc_tickets, made.6))

-- The empty queue after it has been closed.
abbrev shut : BoundedQueue ℕ
shut = close_when true empty

shut-Represents : Represents shut 1 []
shut-Represents = record {
  free_indices = empty-Represents.free_indices;
  allocated = empty-Represents.allocated;
  store = close_when-Store true empty-Represents.store;
  order_is = empty-Represents.order_is;
}

no_tickets : shut.alloc_queue.tail ≡ 0
no_tickets = tail-finalize empty.alloc_queue ∙ made.6

enqueue_cycle_closed_lem_example :
    (b' : BoundedQueue ℕ) × (Bounded.enqueue_cycle true flaky shut 8
      ≡ done (returned 8 queue_finalized, b'))
    × Represents b' 1 []
    × Later shut b'
    × (closed b' ≡ true)
enqueue_cycle_closed_lem_example =
    enqueue_cycle_closed_lem flaky 8 shut-Represents
      (omega (arith, made.5), omega (arith, no_tickets)) flaky-IsFair true
      (finalized-flag empty.alloc_queue made.3 ∙ made.4)
      (omega (arith, no_tickets, shut-Represents.store.alloc_ring.ends))

new_const_lem_example : new_const ℕ 8 ≡ new ℕ 0 4
new_const_lem_example = new_const_lem ℕ 2 (omega arith)

abbrev some_calls : List GrindInstr
some_calls = enqueue 5 ∷ dequeue ∷ dequeue ∷ enqueue 6 ∷ enqueue 7 ∷ enqueue 8 ∷ dequeue ∷ []

const_grind_lem_example :
    (mock : MockQueue ℕ) × (queue : BoundedQueue ℕ) × (const_grind
        (λ k. flaky)
        1
        (configure_grind 0 some_calls)
      ≡ done (mock, queue))
    × Represents queue 1 mock.queue
unfolding configure_grind
const_grind_lem_example =
    const_grind_lem 1 (λ k. flaky) (configure_grind 0 some_calls) (omega arith) (omega arith)
      (λ k. flaky-IsFair) (omega arith)

lscq_grind_lem_example :
    (mock : MockQueue ℕ) × (queue : UnboundedQueue ℕ (Option ℕ)) × (lscq_grind plain 2
        (λ k. flaky)
        (configure_grind 0 some_calls)
      ≡ done (mock, queue))
    × Contains plain queue.internal (2 ^ 1) 1 0 mock.queue
lscq_grind_lem_example =
    lscq_grind_lem plain 0 0 (λ k. flaky) some_calls (omega arith) (λ k. flaky-IsFair) (omega arith)
