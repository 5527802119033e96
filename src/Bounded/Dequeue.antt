-- ===== src/Bounded/Dequeue.antt =====
-- `dequeue` and `drop` on a queue that holds a list.
use lfqueue.Base.{ℕ, ◌-◌, ◌^◌, ◌<◌, ◌≡◌, refl, arith, ◌∙◌}
use lfqueue.Base.{none, some, List, [], ◌∷◌, ◌++◌, set}
use lfqueue.Base.{done, length-set, length-append}
use lfqueue.Word.{wrapping_sub}
use lfqueue.Ring.{ScqRing, Cpu}
use lfqueue.Ring.Holds.{IsFair, IsTight, sizes}
use lfqueue.Ring.Enqueue.{pushed, enqueue-pushed}
use lfqueue.Ring.Pushed.{pushed-Holds}
use lfqueue.Ring.Dequeue.{popped, dequeue-popped}
use lfqueue.Ring.Popped.{popped-Holds}
use lfqueue.Ring.Fifo.{dequeue_removes, Kept}
use lfqueue.Bounded.{BoundedQueue, dequeue}
use lfqueue.Bounded.Store.{
  count, count-cons, count-append, Stored-set, read_slot_lem, Store, IsYoungQueue,
}

module _ {ℓ} {A : Type ℓ} where
  -- The queue after the value at the index `pos` has left it.
  abbrev pub taken_out : BoundedQueue A → ℕ → BoundedQueue A
  taken_out b pos = record b {
    backing = set b.backing pos none;
    free_queue = pushed b.free_queue pos;
    alloc_queue = popped b.alloc_queue;
    used = b.used - 1;
  }

  module _ {b : BoundedQueue A} {pos : ℕ} {fs al : List ℕ} {x : A} {q : List A} (c : Cpu)
      (fair : IsFair c) (s : Store b fs (pos ∷ al) (x ∷ q)) (young : IsYoungQueue b) where
    open s use {
      free_ring, alloc_ring, same_order, total, distinct, stored, used_is, backed, free_open,
    }

    pos_fits : pos < 2 ^ b.free_queue.order
    pos_fits = rw (← same_order) ((alloc_ring.held 0 pos refl).0)

    count_down : wrapping_sub b.used 1 ≡ b.used - 1
    count_down = omega (arith, alloc_ring.room, sizes b.alloc_queue.order alloc_ring.order_small)

    -- The oldest value is returned.
    pub dequeue-taken : dequeue c b ≡ done (some x, taken_out b pos)
    unfolding dequeue
    dequeue-taken = rw (
      dequeue-popped alloc_ring young.1 fair,
      read_slot_lem b.backing pos x stored.0,
      enqueue-pushed free_ring young.0 fair pos pos_fits (omega (arith, total)) free_open,
      count_down,
    )

    not_allocated : count pos al ≡ 0
    not_allocated = ground (arith, distinct pos, count-cons pos pos al)

    pub taken_out-Store : Store (taken_out b pos) (fs ++ (pos ∷ [])) al q
    taken_out-Store = record {
      free_ring = pushed-Holds free_ring pos pos_fits (omega (arith, total)) free_open;
      alloc_ring = popped-Holds alloc_ring young.1;
      same_order = same_order;
      total = omega (arith, length-append fs (pos ∷ []), total);
      distinct = λ i. omega (arith, distinct i, count-cons i pos al, count-append i pos fs);
      stored = Stored-set b.backing pos none al q not_allocated stored.1;
      used_is = omega (arith, used_is);
      backed = omega (arith, backed, length-set b.backing pos none);
      free_open = free_open;
    }

  -- An empty queue returns nothing, and stays empty.
  pub dequeue-empty :
      {b : BoundedQueue A} {fs : List ℕ} (c : Cpu)
      → IsFair c
      → Store b fs [] []
      → IsYoungQueue b
      → (r : ScqRing) × (dequeue c b ≡ done (none, record b { alloc_queue = r }))
        × Store (record b { alloc_queue = r }) fs [] []
        × Kept b.alloc_queue r
        × (IsTight b.alloc_queue 0 → IsTight r 0)
  unfolding dequeue
  dequeue-empty {b} {fs} c fair s young =
      let (r, e, h, k, t) = dequeue_removes c s.alloc_ring young.1 fair in
      (
        r,
        rw e,
        record {
          free_ring = s.free_ring;
          alloc_ring = h;
          same_order = k.order ∙ s.same_order;
          total = s.total;
          distinct = s.distinct;
          stored = tt;
          used_is = s.used_is;
          backed = s.backed;
          free_open = s.free_open;
        },
        k,
        t,
      )
