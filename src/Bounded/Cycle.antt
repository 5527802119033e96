-- ===== src/Bounded/Cycle.antt =====
-- The bounded queue against the list that it implements: `enqueue_cycle`.
use lfqueue.Base.{ℕ, ◌+◌, ◌^◌, ◌≤◌, ◌≡◌, refl, arith, ap, ◌∙◌, ltb, leb, if◌then◌else◌}
use lfqueue.Base.{Bool, true, false, ◌&&◌, List, [], ◌∷◌, ◌++◌, length, lt→ltb, le→ltb, ne→==, ◌==◌}
use lfqueue.Base.{done}
use lfqueue.Ring.{ScqRing, Cpu, finalized, finalizable}
use lfqueue.Ring.Holds.{IsFair}
use lfqueue.Ring.Finalize.{tail-finalize, finalized-flag}
use lfqueue.Bounded.{BoundedQueue, accepted, returned, queue_full, enqueue_cycle}
use lfqueue.Bounded.Store.{Store, IsYoungQueue, length-Stored}
use lfqueue.Bounded.Enqueue.{
  stored_in, close_when, is_last, enqueue-full, enqueue-accepted, stored_in-Store, close_when-Store,
}

module _ {ℓ} {A : Type ℓ} where
  -- The queue holds the values `q`, oldest first, and its capacity is `2 ^ order`.
  pub record Represents (b : BoundedQueue A) (order : ℕ) (q : List A) : Type ℓ where
    pub free_indices : List ℕ
    pub allocated : List ℕ
    pub store : Store b free_indices allocated q
    pub order_is : b.free_queue.order ≡ order

  abbrev pub closed : BoundedQueue A → Bool
  closed b = finalized b.alloc_queue

  -- A call takes at most one ticket of each ring.
  pub record Later (b b' : BoundedQueue A) : Type 0 where
    pub free_tickets : b'.free_queue.tail ≤ b.free_queue.tail + 1
    pub alloc_tickets : b'.alloc_queue.tail ≤ b.alloc_queue.tail + 1

  pub length-Represents :
      {b : BoundedQueue A} {order : ℕ} {q : List A} (r : Represents b order q)
      → length r.free_indices + length q ≡ 2 ^ order
  length-Represents {b} {order} {q} r =
      rw (← r.order_is, ← length-Stored b.backing r.allocated q r.store.stored) r.store.total

  -- What closing changes.
  record Closing (t : Bool) (b b' : BoundedQueue A) : Type 0 where
    same_free : b'.free_queue ≡ b.free_queue
    same_tail : b'.alloc_queue.tail ≡ b.alloc_queue.tail
    flag : closed b ≡ false → closed b' ≡ (t && finalizable b.alloc_queue)

  closing : (t : Bool) (b : BoundedQueue A) → Closing t b (close_when t b)
  closing false b = record { same_free = refl; same_tail = refl; flag = λ e. e }
  closing true b = record {
    same_free = refl;
    same_tail = tail-finalize b.alloc_queue;
    flag = λ e. finalized-flag b.alloc_queue e;
  }

  module _ {b : BoundedQueue A} {order : ℕ} {q : List A} (c : Cpu) (x : A)
      (r : Represents b order q) (young : IsYoungQueue b) (fair : IsFair c) where
    -- With room and not closed, `enqueue_cycle` appends the item, and the queue is closed after it
    -- exactly when `FINALIZE` is set, the queue has become full, and its rings can be finalized.
    pub record Accepts (fin : Bool) (b' : BoundedQueue A) : Type ℓ where
      pub returns : enqueue_cycle fin c b x ≡ done (accepted, b')
      pub holds : Represents b' order (q ++ (x ∷ []))
      pub later : Later b b'
      pub closes :
          closed b' ≡ ((fin && leb (2 ^ order) (length q + 1)) && finalizable b.alloc_queue)

    pub cycle-Accepts :
        (fin : Bool)
        → closed b ≡ false
        → (pos : ℕ) (fs : List ℕ) → Store b (pos ∷ fs) r.allocated q
        → Accepts fin (close_when (is_last fin (stored_in b pos x)) (stored_in b pos x))
    cycle-Accepts fin open_queue pos fs s = record {
      returns = enqueue-accepted c fair x s young fin open_queue;
      holds = record {
        free_indices = fs;
        allocated = r.allocated ++ (pos ∷ []);
        store =
            close_when-Store (is_last fin (stored_in b pos x))
              (stored_in-Store c fair x s young open_queue);
        order_is = ap (λ (f : ScqRing). f.order) close.same_free ∙ r.order_is;
      };
      later = record {
        free_tickets = omega (arith, ap (λ (f : ScqRing). f.tail) close.same_free);
        alloc_tickets = omega (arith, close.same_tail);
      };
      closes = close.flag open_queue ∙ ap (λ t. t && finalizable b.alloc_queue) last;
    }
      where
        close :
            Closing
              (is_last fin (stored_in b pos x))
              (stored_in b pos x)
              (close_when (is_last fin (stored_in b pos x)) (stored_in b pos x))
        close = closing (is_last fin (stored_in b pos x)) (stored_in b pos x)

        last : is_last fin (stored_in b pos x) ≡ (fin && leb (2 ^ order) (length q + 1))
        last = rw (r.order_is, s.used_is, length-Stored b.backing r.allocated q s.stored)

    -- The result of a call on a queue that is not closed, with room or without.
    abbrev pub Cycled : Bool → Type ℓ
    Cycled fin =
        (b' : BoundedQueue A) × (enqueue_cycle fin c b x
          ≡ done ((if ltb (length q) (2 ^ order) then accepted else returned x queue_full), b'))
        × Represents b' order (if ltb (length q) (2 ^ order) then q ++ (x ∷ []) else q)
        × Later b b'
        × (closed b' ≡ ((fin && (length q + 1 == 2 ^ order)) && finalizable b.alloc_queue))

    by_free :
        (fin : Bool)
        → closed b ≡ false
        → (fs : List ℕ) → Store b fs r.allocated q
        → length fs + length q ≡ 2 ^ order
        → Cycled fin
    by_free fin open_queue [] s e = rw (le→ltb (length q) (2 ^ order) (omega arith)) (
      b,
      enqueue-full c fair x s fin refl,
      r,
      record { free_tickets = omega arith; alloc_tickets = omega arith },
      rw (ne→== (length q + 1) (2 ^ order) (λ h. omega arith)) (open_queue ∙ ground arith),
    )
    by_free fin open_queue (pos ∷ fs) s e =
        let a = cycle-Accepts fin open_queue pos fs s in
        rw (lt→ltb (length q) (2 ^ order) (omega arith)) (
          close_when (is_last fin (stored_in b pos x)) (stored_in b pos x),
          a.returns,
          a.holds,
          a.later,
          a.closes
              ∙ rw (
                  let same : leb (2 ^ order) (length q + 1) ≡ (length q + 1 == 2 ^ order) =
                    ground arith in
                  same),
        )

    -- On a fair processor, and while fewer than 2 ^ 61 tickets of each ring have been taken: on a
    -- queue that is not closed, `enqueue_cycle` appends the item if the queue has room, and else
    -- hands it back; the queue is closed afterwards exactly when `FINALIZE` is set, the queue has
    -- one free place before the call, and its rings can be finalized.
    pub enqueue_cycle_lem : (fin : Bool) → closed b ≡ false → Cycled fin
    enqueue_cycle_lem fin open_queue =
        by_free fin open_queue r.free_indices r.store (length-Represents r)
