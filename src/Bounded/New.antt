-- ===== src/Bounded/New.antt =====
-- New bounded queues: empty, and of the order that the length has.
use lfqueue.Base.{
  dec_lt, ℕ, zero, suc, ◌+◌, ◌*◌, ◌%◌, ◌^◌, ◌≤◌, ◌<◌, ◌≡◌, refl, arith, ap, ◌∙◌, sym, false,
}
use lfqueue.Base.{Option, none, [], replicate, length-replicate, done, ◌==◌}
use lfqueue.Word.{word_mod}
use lfqueue.Lfring.Order.{IsLog, IsAccepted, determine_order_exact}
use lfqueue.Ring.{finalizable}
use lfqueue.Alloc.{new_alloc_ring_empty}
use lfqueue.Alloc.Fresh.{range, length-range, new_alloc_ring_empty_lem, new_alloc_ring_full_lem}
use lfqueue.Bounded.{BoundedQueue, new}
use lfqueue.Bounded.Store.{count}
use lfqueue.Bounded.Cycle.{Represents, closed}

count-range_below : (i start n : ℕ) → i < start → count i (range start n) ≡ 0
unfolding count
count-range_below i start zero h = refl
count-range_below i start (suc n) h =
    ground (arith, count-range_below i (start + 1) n (omega arith))

count-none : (i : ℕ) → count i [] ≡ 0
unfolding count
count-none i = refl

count-range : (i start n : ℕ) → count i (range start n) ≤ 1
unfolding count
count-range i start zero = omega arith
count-range i start (suc n) = elim (dec_lt i (start + 1)) [
  | yes h ↦ ground (arith, count-range_below i (start + 1) n h)
  | no h ↦ ground (arith, count-range i (start + 1) n)
]

module _ {ℓ} (A : Type ℓ) (mode size order : ℕ) (small : order ≤ 59) where
  -- A new queue whose length is below 2 ^ 62, of an order up to 59, and accepted by the assertion,
  -- is empty and open, and its capacity is the largest power of two up to the length.
  pub new_lem :
      size < 2 ^ 62
      → IsAccepted size
      → IsLog size order
      → (b : BoundedQueue A) × (new A mode size ≡ done b)
        × Represents b order []
        × (closed b ≡ false)
        × (finalizable b.alloc_queue ≡ (mode == 1))
        × (b.free_queue.tail ≤ 2 ^ order)
        × (b.alloc_queue.tail ≡ 0)
  unfolding new
  new_lem fits ok log =
      let (free, e, h, new_free) = new_alloc_ring_full_lem mode order small in
      let alloc = new_alloc_ring_empty mode order in
      let (empty, new_alloc, no_tickets) = new_alloc_ring_empty_lem mode order small in
      (
        record {
          backing = replicate (2 * size % word_mod) none;
          free_queue = free;
          alloc_queue = alloc;
          used = 0;
        },
        rw ((determine_order_exact size order (omega arith)).0.1 (ok, log), e),
        record {
          free_indices = range 0 (2 ^ order);
          allocated = [];
          store = record {
            free_ring = h;
            alloc_ring = empty;
            same_order = new_alloc.order_is ∙ sym new_free.order_is;
            total =
                omega (arith, length-range 0 (2 ^ order), ap (λ (k : ℕ). 2 ^ k) new_free.order_is);
            distinct = λ i. omega (arith, count-range i 0 (2 ^ order), count-none i);
            stored = tt;
            used_is = refl;
            backed = omega (
              arith,
              length-replicate {A = Option A} (2 * size % word_mod) none,
              ap (λ (k : ℕ). 2 ^ k) new_free.order_is,
              log.below,
            );
            free_open = new_free.not_finalized;
          };
          order_is = new_free.order_is;
        },
        new_alloc.not_finalized,
        ap (λ (k : ℕ). k == 1) new_alloc.flags,
        new_free.tickets,
        no_tickets,
      )
