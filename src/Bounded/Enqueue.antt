-- ===== src/Bounded/Enqueue.antt =====
-- `enqueue_cycle` on a queue that holds a list: what it returns, and what the queue holds then.
use lfqueue.Base.{ℕ, ◌+◌, ◌^◌, ◌<◌, ◌≡◌, refl, arith, ap, ◌∙◌, leb, if◌then◌else◌}
use lfqueue.Base.{Bool, true, false, ◌&&◌, none, some, List, [], ◌∷◌, ◌++◌, length, set}
use lfqueue.Base.{Exec, done, length-set, length-append, get_elem?-set_self, le→leb, lt→leb}
use lfqueue.Word.{wrapping_add, wrapping_sub}
use lfqueue.Ring.{Cpu, finalized, finalize}
use lfqueue.Ring.Holds.{Holds, IsFair, sizes}
use lfqueue.Ring.Enqueue.{pushed, refused, enqueue-pushed, enqueue-refused, capacity_lem}
use lfqueue.Ring.Pushed.{pushed-Holds, refused-Holds}
use lfqueue.Ring.Dequeue.{popped, dequeue-popped}
use lfqueue.Ring.Popped.{popped-Holds}
use lfqueue.Ring.Finalize.{finalize-Holds, order-finalize}
use lfqueue.Bounded.{
  BoundedQueue, Sent, accepted, returned, queue_full, queue_finalized, enqueue_cycle, capacity,
  claim, take_back,
}
use lfqueue.Bounded.Store.{
  count, count-cons, count-append, Stored-set, Stored-append, write_slot_lem, read_slot_lem, Store,
  IsYoungQueue,
}

module _ {ℓ} {A : Type ℓ} where
  -- The queue after `x` has gone to the free index `pos`.
  abbrev pub stored_in : BoundedQueue A → ℕ → A → BoundedQueue A
  stored_in b pos x = record b {
    backing = set b.backing pos (some x);
    free_queue = popped b.free_queue;
    alloc_queue = pushed b.alloc_queue pos;
    used = b.used + 1;
  }

  -- With `FINALIZE` a queue that has become full is closed.
  abbrev pub close_when : Bool → BoundedQueue A → BoundedQueue A
  close_when true b = record b { alloc_queue = finalize b.alloc_queue }
  close_when false b = b

  abbrev pub is_last : Bool → BoundedQueue A → Bool
  is_last finalize_full b = finalize_full && leb (2 ^ b.free_queue.order) b.used

  close_split :
      (t : Bool) (b : BoundedQueue A)
      → ◌≡◌ {A = Exec (Sent A × BoundedQueue A)}
          (if t
            then done (accepted, record b { alloc_queue = finalize b.alloc_queue })
            else done (accepted, b))
          (done (accepted, close_when t b))
  close_split true b = refl
  close_split false b = refl

  pub capacity_of :
      (b : BoundedQueue A) {fs : List ℕ}
      → Holds b.free_queue fs
      → capacity b ≡ 2 ^ b.free_queue.order
  unfolding capacity
  capacity_of b h = capacity_lem b.free_queue h.order_small

  module _ {b : BoundedQueue A} {fs al : List ℕ} {q : List A} (c : Cpu) (fair : IsFair c) (x : A)
      (s : Store b fs al q) where
    open s use {
      free_ring, alloc_ring, same_order, total, distinct, stored, used_is, backed, free_open,
    }

    count_up : wrapping_add b.used 1 ≡ b.used + 1
    count_up = omega (arith, alloc_ring.room, sizes b.alloc_queue.order alloc_ring.order_small)

    count_down : wrapping_sub (b.used + 1) 1 ≡ b.used
    count_down = omega (arith, alloc_ring.room, sizes b.alloc_queue.order alloc_ring.order_small)

    -- A full queue hands the item back and is left as it was.
    pub enqueue-full :
        (fin : Bool) → fs ≡ [] → enqueue_cycle fin c b x ≡ done (returned x queue_full, b)
    unfolding enqueue_cycle
    enqueue-full fin e =
        let none_free : length fs ≡ 0 = ap length e in
        let above : leb (capacity (claim b)) b.used ≡ true =
          le→leb _ _ (omega (arith, capacity_of (claim b) free_ring, total, used_is)) in
        rw (above, count_up, count_down)

  module _ {b : BoundedQueue A} {pos : ℕ} {fs al : List ℕ} {q : List A} (c : Cpu) (fair : IsFair c)
      (x : A) (s : Store b (pos ∷ fs) al q) (young : IsYoungQueue b) where
    open s use {
      free_ring, alloc_ring, same_order, total, distinct, stored, used_is, backed, free_open,
    }

    pos_fits : pos < 2 ^ b.free_queue.order
    pos_fits = (free_ring.held 0 pos refl).0

    alloc_fits : pos < 2 ^ b.alloc_queue.order
    alloc_fits = rw same_order pos_fits

    alloc_space : length al < 2 ^ b.alloc_queue.order
    alloc_space = rw same_order (omega (arith, total))

    not_full : leb (capacity (claim b)) b.used ≡ false
    not_full = lt→leb _ _ (omega (arith, capacity_of (claim b) free_ring, total, used_is))

    counted : wrapping_add b.used 1 ≡ b.used + 1
    counted = count_up c fair x s

    -- A queue with room that is not finalized takes the item.
    pub enqueue-accepted :
        (fin : Bool)
        → finalized b.alloc_queue ≡ false
        → enqueue_cycle fin c b x
          ≡ done (accepted, close_when (is_last fin (stored_in b pos x)) (stored_in b pos x))
    unfolding enqueue_cycle
    enqueue-accepted fin open_ring =
        rw
          (
            not_full,
            dequeue-popped free_ring young.0 fair,
            write_slot_lem b.backing pos x (omega (arith, pos_fits, backed)),
            enqueue-pushed alloc_ring young.1 fair pos alloc_fits alloc_space open_ring,
            counted,
            capacity_of (stored_in b pos x) (popped-Holds free_ring young.0),
          )
          (close_split (is_last fin (stored_in b pos x)) (stored_in b pos x))

    not_allocated : count pos al ≡ 0
    not_allocated = ground (arith, distinct pos, count-cons pos pos fs)

    pub stored_in-Store :
        finalized b.alloc_queue ≡ false
        → Store (stored_in b pos x) fs (al ++ (pos ∷ [])) (q ++ (x ∷ []))
    stored_in-Store open_ring = record {
      free_ring = popped-Holds free_ring young.0;
      alloc_ring = pushed-Holds alloc_ring pos alloc_fits alloc_space open_ring;
      same_order = same_order;
      total = omega (arith, length-append al (pos ∷ []));
      distinct = λ i. omega (arith, distinct i, count-cons i pos fs, count-append i pos al);
      stored =
          Stored-append (set b.backing pos (some x)) pos x al q
            (get_elem?-set_self b.backing pos (some x) (omega (arith, pos_fits, backed)))
            (Stored-set b.backing pos (some x) al q not_allocated stored);
      used_is = omega (arith, length-append al (pos ∷ []));
      backed = omega (arith, backed, length-set b.backing pos (some x));
      free_open = free_open;
    }

    -- The queue after an item has been turned away because of the finalization.
    abbrev pub bounced : BoundedQueue A
    bounced = record b {
      backing = set (set b.backing pos (some x)) pos none;
      free_queue = pushed (popped b.free_queue) pos;
      alloc_queue = refused b.alloc_queue;
    }

    -- A finalized queue with room hands the item back.
    pub enqueue-bounced :
        (fin : Bool)
        → finalized b.alloc_queue ≡ true
        → b.alloc_queue.tail ≡ b.alloc_queue.head + length al
        → enqueue_cycle fin c b x ≡ done (returned x queue_finalized, bounced)
    unfolding enqueue_cycle take_back
    enqueue-bounced fin closed tight = rw (
      not_full,
      dequeue-popped free_ring young.0 fair,
      write_slot_lem b.backing pos x (omega (arith, pos_fits, backed)),
      enqueue-refused alloc_ring young.1 fair pos alloc_fits alloc_space closed tight,
      read_slot_lem (set b.backing pos (some x)) pos x
          (get_elem?-set_self b.backing pos (some x) (omega (arith, pos_fits, backed))),
      enqueue-pushed (popped-Holds free_ring young.0) young.0 fair pos pos_fits
          (omega (arith, total)) free_open,
      counted,
      count_down c fair x s,
    )

    pub bounced-Store :
        finalized b.alloc_queue ≡ true
        → b.alloc_queue.tail ≡ b.alloc_queue.head + length al
        → Store bounced (fs ++ (pos ∷ [])) al q
    bounced-Store closed tight = record {
      free_ring =
          pushed-Holds (popped-Holds free_ring young.0) pos pos_fits (omega (arith, total))
            free_open;
      alloc_ring = refused-Holds alloc_ring closed tight;
      same_order = same_order;
      total = omega (arith, length-append fs (pos ∷ []), total);
      distinct = λ i. omega (arith, distinct i, count-cons i pos fs, count-append i pos fs);
      stored =
          Stored-set (set b.backing pos (some x)) pos none al q not_allocated
            (Stored-set b.backing pos (some x) al q not_allocated stored);
      used_is = used_is;
      backed = omega (
        arith,
        backed,
        length-set b.backing pos (some x),
        length-set (set b.backing pos (some x)) pos none,
      );
      free_open = free_open;
    }

  pub close_when-Store :
      {b : BoundedQueue A} {fs al : List ℕ} {q : List A} (t : Bool)
      → Store b fs al q
      → Store (close_when t b) fs al q
  close_when-Store false s = s
  close_when-Store {b} true s = record {
    free_ring = s.free_ring;
    alloc_ring = finalize-Holds s.alloc_ring;
    same_order = order-finalize b.alloc_queue ∙ s.same_order;
    total = s.total;
    distinct = s.distinct;
    stored = s.stored;
    used_is = s.used_is;
    backed = s.backed;
    free_open = s.free_open;
  }
