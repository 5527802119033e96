-- ===== src/Unbounded/Fifo.antt =====
-- The unbounded queues against the list that they implement: the calls of their users.
use lfqueue.Base.{ℕ, suc, ◌+◌, ◌-◌, ◌^◌, ◌<◌, ◌≡◌, ◌↔◌, refl, arith, subst}
use lfqueue.Base.{true, none, some, List, [], ◌∷◌, ◌++◌, length, length-append, done}
use lfqueue.Word.{wrapping_add, wrapping_sub}
use lfqueue.Ring.{Cpu}
use lfqueue.Ring.Holds.{IsFair, sizes}
use lfqueue.Bounded.New.{new_lem}
use lfqueue.Bounded.Fifo.{head_of, tail_of}
use lfqueue.Unbounded.{
  UnboundedQueue, CountedUnboundedQueue, with_segment_size, enqueue, dequeue, new, new_node,
}
use lfqueue.Unbounded.{counted_with_segment_size, counted_enqueue, counted_dequeue, len, is_empty}
use lfqueue.Unbounded.Pointers.{AtomicPtr}
use lfqueue.Unbounded.Segment.{open-IsTight}
use lfqueue.Unbounded.Chain.{IsSize, Contains}
use lfqueue.Unbounded.Enqueue.{enqueue_loop_lem}
use lfqueue.Unbounded.Dequeue.{Taken, dequeue_loop_lem}

module _ {ℓ} {A : Type ℓ} {P : Type 0} (ops : AtomicPtr P) where
  -- A new queue for segments of a size that the assertion accepts is empty.
  pub with_segment_size_lem :
      (size order room : ℕ)
      → IsSize size order
      → room < 2 ^ 60
      → (q : UnboundedQueue A P) × (with_segment_size ops size ≡ done q)
        × Contains ops q.internal size order room []
        × (q.size ≡ size)
  unfolding with_segment_size new new_node
  with_segment_size_lem size order room z few =
      let (b, e, r, o, m, f, a) = new_lem A 1 size order z.small z.fits z.is_accepted z.log in
      let bound = sizes order z.small in
      (
        record {
          internal = record {
            head = ops.make (some 0);
            tail = ops.make (some 0);
            internal_order = size;
            heap = some (record { value = b; next = ops.make none }) ∷ [];
          };
          size = size;
        },
        rw e refl,
        record {
          front = [];
          last = [];
          spans = record {
            start = 0;
            head_is = ops.load-make (some 0);
            tail_is = ops.load-make (some 0);
            size_is = refl;
            heap_end = refl;
            nodes = tt;
            end = record {
              at = record {
                node = record { value = b; next = ops.make none };
                here = refl;
                links = ops.load-make none;
                segment = record {
                  represents = r;
                  free_young = omega arith;
                  alloc_young = omega arith;
                };
              };
              tight = open-IsTight r o;
            };
            is_filled = tt;
          };
          values = refl;
        },
        refl,
      )

  module _ (q : UnboundedQueue A P) {size order : ℕ} {l : List A} (c : Cpu) (fair : IsFair c) where
    -- On a fair processor, with fuel for one round, and while no counter comes near 2 ^ 61:
    -- `enqueue` ends, and appends the item to the values of the queue.
    pub unbounded_enqueue_lem :
        (fuel room : ℕ) (x : A)
        → IsSize size order
        → room < 2 ^ 60
        → Contains ops q.internal size order (suc room) l
        → (q' : UnboundedQueue A P) × (enqueue ops (suc fuel) c q x ≡ done q')
          × Contains ops q'.internal size order room (l ++ (x ∷ []))
    unfolding enqueue
    unbounded_enqueue_lem fuel room x z few h =
        let (i, e, s) = enqueue_loop_lem ops c fair h.spans x fuel z few in
        (
          record q { internal = i },
          rw e refl,
          subst (λ v. Contains ops i size order room (v ++ (x ∷ []))) h.values s,
        )

    -- On a fair processor, with fuel for two rounds, and while no counter comes near 2 ^ 61:
    -- `dequeue` ends, and returns the oldest value of the queue, which then holds the others, or
    -- nothing if there is none.
    pub unbounded_dequeue_lem :
        (fuel room : ℕ)
        → Contains ops q.internal size order (suc (suc (suc room))) l
        → (q' : UnboundedQueue A P) × (dequeue ops (suc (suc fuel)) c q ≡ done (head_of l, q'))
          × Contains ops q'.internal size order room (tail_of l)
    unfolding dequeue
    unbounded_dequeue_lem fuel room h =
        let (i, e, s) =
          subst (λ v. Taken ops q.internal size order room c (suc (suc fuel)) v) h.values
            (dequeue_loop_lem ops c fair fuel h.front h.last h.spans) in
        (record q { internal = i }, rw e refl, s)

  -- The counted queue holds the values `l`, and its counter is their number.
  pub record Counts (q : CountedUnboundedQueue A P) (size order room : ℕ) (l : List A)
      : Type ℓ where
    pub inner : Contains ops q.queue.internal size order room l
    pub counted : q.counter ≡ length l
    pub fits : length l + room < 2 ^ 62

  -- A new counted queue is empty.
  pub counted_with_segment_size_lem :
      (size order room : ℕ)
      → IsSize size order
      → room < 2 ^ 60
      → (q : CountedUnboundedQueue A P) × (counted_with_segment_size ops size ≡ done q)
        × Counts q size order room []
  unfolding counted_with_segment_size
  counted_with_segment_size_lem size order room z few =
      let (q, e, h, same) = with_segment_size_lem size order room z few in
      (
        record { queue = q; counter = 0 },
        rw e refl,
        record { inner = h; counted = refl; fits = omega arith },
      )

  module _ (q : CountedUnboundedQueue A P) {size order : ℕ} {l : List A} (c : Cpu)
      (fair : IsFair c) where
    -- On a fair processor, with fuel for one round, and while no counter comes near 2 ^ 61:
    -- `enqueue` of the counted queue ends, appends the item, and `len` is the number of values
    -- before and after.
    pub counted_enqueue_lem :
        (fuel room : ℕ) (x : A)
        → IsSize size order
        → room < 2 ^ 60
        → Counts q size order (suc room) l
        → (q' : CountedUnboundedQueue A P) × (counted_enqueue ops (suc fuel) c q x ≡ done q')
          × Counts q' size order room (l ++ (x ∷ []))
          × (len ops q' ≡ len ops q + 1)
    unfolding counted_enqueue
    counted_enqueue_lem fuel room x z few h =
        let (i, e, s) = unbounded_enqueue_lem q.queue c fair fuel room x z few h.inner in
        (
          record { queue = i; counter = q.counter + 1 },
          rw
              (
                e,
                let up : wrapping_add q.counter 1 ≡ q.counter + 1 =
                      omega (arith, h.counted, h.fits) in
                    up,
              )
              refl,
          record {
            inner = s;
            counted = omega (arith, h.counted, length-append l (x ∷ []));
            fits = omega (arith, h.fits, length-append l (x ∷ []));
          },
          refl,
        )

    -- On a fair processor, with fuel for two rounds, and while no counter comes near 2 ^ 61:
    -- `dequeue` of the counted queue ends, returns the oldest value, if any, and `len` falls by one
    -- exactly if `is_empty` was false before.
    pub counted_dequeue_lem :
        (fuel room : ℕ)
        → Counts q size order (suc (suc (suc room))) l
        → (q' : CountedUnboundedQueue A P) × (counted_dequeue ops (suc (suc fuel)) c q
            ≡ done (head_of l, q'))
          × Counts q' size order room (tail_of l)
          × ((is_empty ops q ≡ true) ↔ (l ≡ []))
          × (len ops q' ≡ len ops q - 1)
    unfolding counted_dequeue
    counted_dequeue_lem fuel room h =
        let (q', e, s, t) = counted_dequeue_list fuel room l h in
        (q', e, s, empty_iff l h.counted, t)
      where
        empty_iff : (p : List A) → q.counter ≡ length p → (is_empty ops q ≡ true) ↔ (p ≡ [])
        empty_iff [] e = (λ t. refl, λ t. rw e refl)
        empty_iff (x ∷ p) e = (λ t. absurd (ground arith), λ t. cc)

        counted_dequeue_list :
            (fuel room : ℕ) (p : List A)
            → Counts q size order (suc (suc (suc room))) p
            → (q' : CountedUnboundedQueue A P) × (counted_dequeue ops (suc (suc fuel)) c q
                ≡ done (head_of p, q'))
              × Counts q' size order room (tail_of p)
              × (len ops q' ≡ len ops q - 1)
        counted_dequeue_list fuel room [] h =
            let (i, e, s) = unbounded_dequeue_lem q.queue c fair fuel room h.inner in
            (
              record { queue = i; counter = q.counter },
              rw e refl,
              record { inner = s; counted = h.counted; fits = omega (arith, h.fits) },
              omega (arith, h.counted),
            )
        counted_dequeue_list fuel room (x ∷ p) h =
            let (i, e, s) = unbounded_dequeue_lem q.queue c fair fuel room h.inner in
            (
              record { queue = i; counter = q.counter - 1 },
              rw
                  (
                    e,
                    let down : wrapping_sub q.counter 1 ≡ q.counter - 1 =
                          omega (arith, h.counted, h.fits) in
                        down,
                  )
                  refl,
              record {
                inner = s;
                counted = omega (arith, h.counted);
                fits = omega (arith, h.fits);
              },
              refl,
            )
