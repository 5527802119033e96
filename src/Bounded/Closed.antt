-- ===== src/Bounded/Closed.antt =====
-- `enqueue_cycle` on a queue that is closed.
use lfqueue.Base.{ℕ, ◌+◌, ◌^◌, ◌≡◌, refl, arith, ltb, lt→ltb, le→ltb, if◌then◌else◌}
use lfqueue.Base.{Bool, true, List, [], ◌∷◌, ◌++◌, length, done}
use lfqueue.Ring.{Cpu}
use lfqueue.Ring.Holds.{IsFair}
use lfqueue.Bounded.{BoundedQueue, returned, queue_full, queue_finalized, enqueue_cycle}
use lfqueue.Bounded.Store.{Store, IsYoungQueue, length-Stored}
use lfqueue.Bounded.Enqueue.{enqueue-full, bounced, enqueue-bounced, bounced-Store}
use lfqueue.Bounded.Cycle.{Represents, closed, Later, length-Represents}

module _ {ℓ} {A : Type ℓ} {b : BoundedQueue A} {order : ℕ} {q : List A} (c : Cpu) (x : A)
    (r : Represents b order q) (young : IsYoungQueue b) (fair : IsFair c) where
  -- What a call on a closed queue does.
  abbrev pub Turned : Bool → Type ℓ
  Turned fin =
      (b' : BoundedQueue A) × (enqueue_cycle fin c b x
        ≡ done
            (returned x (if ltb (length q) (2 ^ order) then queue_finalized else queue_full), b'))
      × Represents b' order q
      × Later b b'
      × (closed b' ≡ true)

  by_free :
      (fin : Bool)
      → closed b ≡ true
      → b.alloc_queue.tail ≡ b.alloc_queue.head + length q
      → (fs : List ℕ) → Store b fs r.allocated q
      → length fs + length q ≡ 2 ^ order
      → Turned fin
  by_free fin shut tight [] s e = rw (le→ltb (length q) (2 ^ order) (omega arith)) (
    b,
    enqueue-full c fair x s fin refl,
    r,
    record { free_tickets = omega arith; alloc_tickets = omega arith },
    shut,
  )
  by_free fin shut tight (pos ∷ fs) s e =
      let same : b.alloc_queue.tail ≡ b.alloc_queue.head + length r.allocated =
        omega (arith, tight, length-Stored b.backing r.allocated q s.stored) in
      rw (lt→ltb (length q) (2 ^ order) (omega arith)) (
        bounced c fair x s young,
        enqueue-bounced c fair x s young fin shut same,
        record {
          free_indices = fs ++ (pos ∷ []);
          allocated = r.allocated;
          store = bounced-Store c fair x s young shut same;
          order_is = r.order_is;
        },
        record { free_tickets = omega arith; alloc_tickets = omega arith },
        shut,
      )

  -- On a fair processor, and while fewer than 2 ^ 61 tickets of each ring have been taken:
  -- on a closed queue whose tickets all carry an index, `enqueue_cycle` hands the item back, as
  -- `QueueFinalized` if the queue has room and as `QueueFull` if it has none; the queue keeps its
  -- values and stays closed.
  pub enqueue_cycle_closed_lem :
      (fin : Bool)
      → closed b ≡ true
      → b.alloc_queue.tail ≡ b.alloc_queue.head + length q
      → Turned fin
  enqueue_cycle_closed_lem fin shut tight =
      by_free fin shut tight r.free_indices r.store (length-Represents r)
