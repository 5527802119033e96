-- ===== src/Bounded/Fifo.antt =====
-- The bounded queue against the list that it implements: the calls of its users.
use lfqueue.Base.{ℕ, ◌^◌, ◌≡◌, refl, arith, ltb, if◌then◌else◌}
use lfqueue.Base.{Bool, true, false, Option, none, some, List, [], ◌∷◌, ◌++◌, length, Exec, done}
use lfqueue.Ring.{ScqRing, Cpu, finalized}
use lfqueue.Ring.Holds.{IsFair, IsTight}
use lfqueue.Bounded.{BoundedQueue, accepted, returned, queue_full, enqueue, dequeue}
use lfqueue.Bounded.Store.{Store, IsYoungQueue}
use lfqueue.Bounded.Cycle.{Represents, closed, Later, enqueue_cycle_lem}
use lfqueue.Bounded.Dequeue.{taken_out, dequeue-taken, taken_out-Store, dequeue-empty}

-- The list without its first value, and that value.
abbrev pub tail_of {ℓ} : {A : Type ℓ} → List A → List A
tail_of [] = []
tail_of (x ∷ q) = q

abbrev pub head_of {ℓ} : {A : Type ℓ} → List A → Option A
head_of [] = none
head_of (x ∷ q) = some x

finalized_of_flags : (r s : ScqRing) → r.is_finalized ≡ s.is_finalized → finalized r ≡ finalized s
finalized_of_flags r s e = rw e

module _ {ℓ} {A : Type ℓ} where
  module _ {b : BoundedQueue A} {order : ℕ} {q : List A} (c : Cpu) (r : Represents b order q)
      (young : IsYoungQueue b) (fair : IsFair c) where
    -- On a fair processor, and while fewer than 2 ^ 61 tickets of each ring have been taken: on an
    -- open queue `enqueue` appends the item to a queue with room and returns `Ok`, and hands the
    -- item of a call on a full queue back; the queue is as open afterwards as before.
    pub enqueue_lem :
        (x : A)
        → closed b ≡ false
        → (b' : BoundedQueue A) × (enqueue c b x
            ≡ done ((if ltb (length q) (2 ^ order) then none else some x), b'))
          × Represents b' order (if ltb (length q) (2 ^ order) then q ++ (x ∷ []) else q)
          × Later b b'
          × (closed b' ≡ false)
    unfolding enqueue
    enqueue_lem x open_queue =
        let (b', e, h, l, f) = enqueue_cycle_lem c x r young fair false open_queue in
        (b', rw e (forget (ltb (length q) (2 ^ order)) b'), h, l, f)
      where
        forget :
            (t : Bool) (b' : BoundedQueue A)
            → ◌≡◌ {A = Exec (Option A × BoundedQueue A)}
                (elim (if t then accepted else returned x queue_full) [
                  | accepted ↦ done (none, b')
                  | returned a e ↦ done (some a, b')
                ])
                (done ((if t then none else some x), b'))
        forget true b' = refl
        forget false b' = refl

    -- On a fair processor, and while fewer than 2 ^ 61 tickets of each ring have been taken:
    -- `dequeue` returns the oldest value and leaves the others, or nothing if there is none; and if
    -- every ticket of `alloc_queue` carried an index, so it is still.
    pub dequeue_lem :
        (b' : BoundedQueue A) × (dequeue c b ≡ done (head_of q, b'))
        × Represents b' order (tail_of q)
        × Later b b'
        × (closed b' ≡ closed b)
        × (IsTight b.alloc_queue (length q) → IsTight b'.alloc_queue (length (tail_of q)))
    dequeue_lem = by_alloc r.allocated q r.store
      where
        by_alloc :
            (al : List ℕ) (p : List A)
            → Store b r.free_indices al p
            → (b' : BoundedQueue A) × (dequeue c b ≡ done (head_of p, b'))
              × Represents b' order (tail_of p)
              × Later b b'
              × (closed b' ≡ closed b)
              × (IsTight b.alloc_queue (length p) → IsTight b'.alloc_queue (length (tail_of p)))
        by_alloc [] [] s =
            let (ring, e, s', k, t) = dequeue-empty c fair s young in
            (
              record b { alloc_queue = ring },
              e,
              record {
                free_indices = r.free_indices;
                allocated = [];
                store = s';
                order_is = r.order_is;
              },
              record { free_tickets = omega arith; alloc_tickets = k.tickets },
              finalized_of_flags ring b.alloc_queue k.flags,
              t,
            )
        by_alloc [] (x ∷ p) s = absurd (s.stored.1)
        by_alloc (i ∷ al) [] s = absurd (s.stored.1)
        by_alloc (pos ∷ al) (x ∷ p) s = (
          taken_out b pos,
          dequeue-taken c fair s young,
          record {
            free_indices = r.free_indices ++ (pos ∷ []);
            allocated = al;
            store = taken_out-Store c fair s young;
            order_is = r.order_is;
          },
          record { free_tickets = omega arith; alloc_tickets = omega arith },
          refl,
          λ e. omega (arith, e),
        )
