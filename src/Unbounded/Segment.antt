-- ===== src/Unbounded/Segment.antt =====
-- A bounded queue as a segment of an unbounded one.
use lfqueue.Base.{
  ℕ, suc, ◌+◌, ◌*◌, ◌-◌, ◌^◌, ◌≤◌, ◌<◌, ◌≡◌, refl, subst, arith, ◌∙◌, ◌⊎◌, inl, inr, Bool-cases,
  ltb, lt→ltb, if◌then◌else◌,
}
use lfqueue.Base.{Bool, true, false, none, List, [], ◌∷◌, ◌++◌, length, length-append, done}
use lfqueue.Word.{sign_bit, wrapping_sub, wrapping_add, shift_left}
use lfqueue.Lfring.{lfring_pow2}
use lfqueue.Lfring.Laws.{lfring_pow2_lem}
use lfqueue.Lfring.Order.{IsLog, IsAccepted}
use lfqueue.Ring.{ScqRing, Cpu}
use lfqueue.Ring.Holds.{Holds, IsFair, IsTight, sizes}
use lfqueue.Ring.Finalize.{head-finalize, tail-finalize}
use lfqueue.Bounded
use lfqueue.Bounded.{
  BoundedQueue, accepted, returned, QueueError, queue_full, queue_finalized, enqueue_cycle,
}
use lfqueue.Bounded.Store.{Store, IsYoungQueue, length-Stored}
use lfqueue.Bounded.Enqueue.{enqueue-full, close_when, is_last, stored_in}
use lfqueue.Bounded.Cycle.{Represents, closed, Later, cycle-Accepts}
use lfqueue.Bounded.Closed.{enqueue_cycle_closed_lem}
use lfqueue.Bounded.Fifo.{head_of, tail_of, enqueue_lem, dequeue_lem}
use lfqueue.Bounded.New.{new_lem}
use lfqueue.Unbounded.{rearm}

with_threshold :
    {r : ScqRing} {q : List ℕ} {t : ℕ}
    → Holds r q
    → t < sign_bit
    → Holds (record r { threshold = t }) q
with_threshold h positive = record {
  order_small = h.order_small;
  size = h.size;
  room = h.room;
  ends = h.ends;
  hole = h.hole;
  tight = h.tight;
  held = h.held;
  rest = λ t lo hi.
      let f = h.rest t lo hi in
      record { entry = f.entry; here = f.here; word = f.word; free = f.free };
  armed = λ p. positive;
  threshold_word = omega arith;
}

rearm_threshold :
    (order : ℕ)
    → order ≤ 59
    → wrapping_sub (3 * shift_left 1 (wrapping_add order 1)) 1 ≡ 3 * 2 ^ suc order - 1
unfolding lfring_pow2
rearm_threshold order small =
    let up : wrapping_add order 1 ≡ suc order = omega arith in
    let pow : shift_left 1 (suc order) ≡ 2 ^ suc order =
      lfring_pow2_lem (suc order) (omega arith) in
    rw (up, pow) (omega (arith, sizes order small))

module _ {ℓ} {A : Type ℓ} where
  -- The segment holds the values `q`, and `room` more calls leave its counters below 2 ^ 61.
  pub record Segment (order room : ℕ) (b : BoundedQueue A) (q : List A) : Type ℓ where
    pub represents : Represents b order q
    pub free_young : b.free_queue.tail + room < 2 ^ 61
    pub alloc_young : b.alloc_queue.tail + room < 2 ^ 61

  pub Segment-Later :
      {order room more : ℕ} {b b' : BoundedQueue A} {q q' : List A}
      → Segment order more b q
      → room < more
      → Represents b' order q'
      → Later b b'
      → Segment order room b' q'
  Segment-Later s less r l = record {
    represents = r;
    free_young = omega (arith, s.free_young, l.free_tickets);
    alloc_young = omega (arith, s.alloc_young, l.alloc_tickets);
  }

  pub Segment-weaken :
      {order room more : ℕ} {b : BoundedQueue A} {q : List A}
      → Segment order more b q
      → room ≤ more
      → Segment order room b q
  Segment-weaken s le = record {
    represents = s.represents;
    free_young = omega (arith, s.free_young);
    alloc_young = omega (arith, s.alloc_young);
  }

  -- On an open queue every ticket carries an index.
  pub open-IsTight :
      {b : BoundedQueue A} {order : ℕ} {q : List A}
      → Represents b order q
      → closed b ≡ false
      → IsTight b.alloc_queue (length q)
  open-IsTight {b} {order} {q} r open_queue = omega (
    arith,
    r.store.alloc_ring.tight open_queue,
    length-Stored b.backing r.allocated q r.store.stored,
  )

  module _ {b : BoundedQueue A} {order room : ℕ} {q : List A} (c : Cpu) (fair : IsFair c)
      (s : Segment order (suc room) b q) where
    young : IsYoungQueue b
    young = (omega (arith, s.free_young), omega (arith, s.alloc_young))

    -- `enqueue_cycle` accepts the item, or hands it back and leaves the values as they were.
    abbrev pub Entered : A → Type ℓ
    Entered x =
        ((b' : BoundedQueue A) × (enqueue_cycle true c b x ≡ done (accepted, b'))
          × Segment order room b' (q ++ (x ∷ []))
          × IsTight b'.alloc_queue (length (q ++ (x ∷ []))))
        ⊎ ((b' : BoundedQueue A) × (e : QueueError) × (enqueue_cycle true c b x
              ≡ done (returned x e, b'))
            × Segment order room b' q)

    IsTight-close_when :
        (t : Bool) (d : BoundedQueue A) (n : ℕ)
        → IsTight d.alloc_queue n
        → IsTight (close_when t d).alloc_queue n
    IsTight-close_when false d n e = e
    IsTight-close_when true d n e =
        omega (arith, e, head-finalize d.alloc_queue, tail-finalize d.alloc_queue)

    by_free :
        (x : A)
        → closed b ≡ false
        → IsTight b.alloc_queue (length q)
        → (fs : List ℕ) → Store b fs s.represents.allocated q
        → Entered x
    by_free x open_queue tight [] st =
        inr (b, queue_full, enqueue-full c fair x st true refl, Segment-weaken s (omega arith))
    by_free x open_queue tight (pos ∷ fs) st =
        let a = cycle-Accepts c x s.represents young fair true open_queue pos fs st in
        inl (
          close_when (is_last true (stored_in b pos x)) (stored_in b pos x),
          a.returns,
          Segment-Later s (omega arith) a.holds a.later,
          IsTight-close_when (is_last true (stored_in b pos x)) (stored_in b pos x) _
              (omega (arith, tight, length-append q (x ∷ []))),
        )

    pub enter : (x : A) → IsTight b.alloc_queue (length q) → Entered x
    enter x tight = elim (Bool-cases (closed b)) [
      | inl shut ↦
          let (b', e, h, l, o) =
            enqueue_cycle_closed_lem c x s.represents young fair true shut tight in
          inr (b', _, e, Segment-Later s (omega arith) h l)
      | inr open_queue ↦ by_free x open_queue tight s.represents.free_indices s.represents.store
    ]

    -- `dequeue` takes the first value, if there is one.
    pub leave :
        (b' : BoundedQueue A) × (Bounded.dequeue c b ≡ done (head_of q, b'))
        × Segment order room b' (tail_of q)
        × (IsTight b.alloc_queue (length q) → IsTight b'.alloc_queue (length (tail_of q)))
    leave =
        let (b', e, h, l, o, t) = dequeue_lem c s.represents young fair in
        (b', e, Segment-Later s (omega arith) h l, t)

  -- The threshold that `dequeue` stores changes nothing of what a segment holds.
  pub rearm-Segment :
      {order room : ℕ} {b : BoundedQueue A} {q : List A}
      → Segment order room b q
      → Segment order room (rearm b) q
  unfolding rearm
  rearm-Segment {order} {room} {b} {q} s =
      let st = s.represents.store in
      let small = st.free_ring.order_small in
      let bound = sizes b.free_queue.order small in
      record {
        represents = record {
          free_indices = s.represents.free_indices;
          allocated = s.represents.allocated;
          store = record {
            free_ring = st.free_ring;
            alloc_ring =
                with_threshold st.alloc_ring
                  (omega (arith, rearm_threshold b.free_queue.order small, bound));
            same_order = st.same_order;
            total = st.total;
            distinct = st.distinct;
            stored = st.stored;
            used_is = st.used_is;
            backed = st.backed;
            free_open = st.free_open;
          };
          order_is = s.represents.order_is;
        };
        free_young = s.free_young;
        alloc_young = s.alloc_young;
      }

  -- A new segment holds the item that it is made for.
  pub Segment-new :
      (size order room : ℕ) (c : Cpu) (x : A)
      → IsFair c
      → order ≤ 59
      → size < 2 ^ 62
      → IsAccepted size
      → IsLog size order
      → room < 2 ^ 60
      → (b : BoundedQueue A) × (b' : BoundedQueue A) × (Bounded.new A 1 size ≡ done b)
        × (Bounded.enqueue c b x ≡ done (none, b'))
        × Segment order room b' (x ∷ [])
        × IsTight b'.alloc_queue 1
  Segment-new size order room c x fair small fits ok log few =
      let (b, e, r, o, m, f, a) = new_lem A 1 size order small fits ok log in
      let bound = sizes order small in
      let (b', e', r', l, o') = enqueue_lem c r (omega arith, omega arith) fair x o in
      let space : ltb 0 (2 ^ order) ≡ true = lt→ltb 0 (2 ^ order) (omega arith) in
      (
        b,
        b',
        e,
        e' ∙ rw space refl,
        record {
          represents = subst (λ t. Represents b' order (if t then x ∷ [] else [])) space r';
          free_young = omega (arith, l.free_tickets);
          alloc_young = omega (arith, l.alloc_tickets);
        },
        open-IsTight (subst (λ t. Represents b' order (if t then x ∷ [] else [])) space r') o',
      )
