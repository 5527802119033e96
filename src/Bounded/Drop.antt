-- ===== src/Bounded/Drop.antt =====
-- What dropping a bounded queue drops.
use lfqueue.Base.{ℕ, zero, suc, ◌+◌, ◌^◌, ◌≤◌, ◌<◌, ◌≡◌, refl, arith, ap, lt→ltb}
use lfqueue.Base.{Option, none, List, [], ◌∷◌, length, set, length-set, done}
use lfqueue.Ring.{Cpu}
use lfqueue.Ring.Holds.{Holds, IsFair}
use lfqueue.Ring.Fifo.{dequeue_removes}
use lfqueue.Bounded.{BoundedQueue, drop}
use lfqueue.Bounded.Store.{count, count-cons, Stored, Stored-set, length-Stored, read_slot_lem}
use lfqueue.Bounded.Cycle.{Represents}

module _ {ℓ} {A : Type ℓ} (c : Cpu) (fair : IsFair c) where
  -- The part of a queue that `drop` looks at.
  record Droppable (b : BoundedQueue A) (al : List ℕ) (q : List A) : Type ℓ where
    ring : Holds b.alloc_queue al
    stored : Stored b.backing al q
    distinct : (i : ℕ) → count i al ≤ 1
    backed : 2 ^ b.alloc_queue.order ≤ length b.backing
    young : b.alloc_queue.tail + length al < 2 ^ 61

  drop_list :
      (fuel : ℕ) (b : BoundedQueue A) (al : List ℕ) (q : List A)
      → length al < fuel
      → Droppable b al q
      → (b' : BoundedQueue A) × (drop fuel c b ≡ done (q, b'))
  unfolding drop
  drop_list zero b al q enough d = absurd (omega arith)
  drop_list (suc fuel) b [] [] enough d =
      let (r, e, h, k, t) = dequeue_removes c d.ring (omega (arith, d.young)) fair in
      (record b { alloc_queue = r }, rw e)
  drop_list (suc fuel) b [] (x ∷ q) enough d = absurd (d.stored.1)
  drop_list (suc fuel) b (i ∷ al) [] enough d = absurd (d.stored.1)
  drop_list (suc fuel) b (i ∷ al) (x ∷ q) enough d =
      let (r, e, h, k, t) = dequeue_removes c d.ring (omega (arith, d.young)) fair in
      let small = (d.ring.held 0 i refl).0 in
      let unique : count i al ≡ 0 = ground (arith, d.distinct i, count-cons i i al) in
      let (b', e') =
        drop_list fuel (record b { alloc_queue = r; backing = set b.backing i none }) al q
          (omega arith)
          (record {
            ring = h;
            stored = Stored-set b.backing i none al q unique d.stored.1;
            distinct = λ j. omega (arith, d.distinct j, count-cons j i al);
            backed = omega (
              arith,
              d.backed,
              length-set {A = Option A} b.backing i none,
              ap (λ (k : ℕ). 2 ^ k) k.order,
            );
            young = omega (arith, d.young, k.tickets);
          }) in
      (
        b',
        rw (
          e,
          lt→ltb i (length b.backing) (omega (arith, small, d.backed)),
          read_slot_lem b.backing i x d.stored.0,
          e',
        ),
      )

  -- On a fair processor `drop` ends, without a panic, and drops exactly the values that the queue
  -- holds, oldest first, when its fuel is more than their number and the tickets of the ring do not
  -- reach 2 ^ 61.
  pub drop_lem :
      {b : BoundedQueue A} {order : ℕ} {q : List A} (fuel : ℕ)
      → Represents b order q
      → length q < fuel
      → b.alloc_queue.tail + length q < 2 ^ 61
      → (b' : BoundedQueue A) × (drop fuel c b ≡ done (q, b'))
  drop_lem {b} {order} {q} fuel r enough young =
      let same = length-Stored b.backing r.allocated q r.store.stored in
      drop_list fuel b r.allocated q (omega arith) (record {
        ring = r.store.alloc_ring;
        stored = r.store.stored;
        distinct = λ i. omega (arith, r.store.distinct i);
        backed = omega (arith, r.store.backed, ap (λ (k : ℕ). 2 ^ k) r.store.same_order);
        young = omega (arith, young);
      })
