-- ===== src/Bounded/Shared/Slots.antt =====
-- The accesses of a thread to the slots and to the counter.
use lfqueue.Base.{
  ℕ, suc, ◌+◌, ◌-◌, ◌^◌, ◌≤◌, ◌<◌, ◌≡◌, refl, arith, ap, sym, ◌∙◌, subst, bit_xor, leb, lt→ltb,
}
use lfqueue.Base.{Bool, false, Option, none, some, List, length, length-set, get_elem?, set, done}
use lfqueue.Word.{wrapping_sub}
use lfqueue.Ring
use lfqueue.Ring.{ScqRing, finalized, finalizable}
use lfqueue.Ring.Holds.{slots, sizes}
use lfqueue.Ring.Enqueue.{capacity_lem}
use lfqueue.Ring.Shared.{claim_tail, outside, check_threshold, begin_enqueue, n_enqueue}
use lfqueue.Ring.Shared.Steps.{IsSized, n_enqueue_lem}
use lfqueue.Ring.Shared.View.{enq, deq}
use lfqueue.Bounded.{BoundedQueue, returned, queue_finalized, write_slot, read_slot, capacity}
use lfqueue.Bounded.Shared.{
  Spot, Ended, writing, entering, taking_back, reading, freeing, sent, received, after_enter,
  after_free, step_queue,
}
use lfqueue.Bounded.Shared.Rings.{Log}
use lfqueue.Bounded.Shared.Counts.{ind, ind_self, filled_value, filled-write, filled-read}
use lfqueue.Bounded.Shared.Owned.{
  IsSafe, IsLinked, keeps, owned, owns, holds, free_place, alloc_place, get_elem?-places,
}
use lfqueue.Bounded.Shared.Moves.{IsStill, outside-IsStill, goes, raise_bound}
use lfqueue.Bounded.Shared.Takes.{Advanced}
use lfqueue.Bounded.Shared.Puts.{after_enter-onward, after_free-onward}

pub check_threshold-IsStill : (n : ℕ) → IsStill n check_threshold
check_threshold-IsStill n = record {
  no_enq = refl;
  no_deq = refl;
  in_order = λ r. tt;
  good = λ v. tt;
}

abbrev turned : ℕ → ℕ → ℕ
turned order pos = bit_xor pos (2 ^ suc order - 1)

claim_tail-IsStill :
    (order pos : ℕ)
    → order ≤ 59
    → pos < 2 ^ order
    → IsStill (2 ^ suc order) (claim_tail (turned order pos))
claim_tail-IsStill order pos small below = record {
  no_enq = refl;
  no_deq = refl;
  in_order = λ r. tt;
  good = λ v. (pos, omega (arith, sizes order small), refl);
}

begins :
    (order : ℕ) (r : ScqRing) (pos : ℕ)
    → IsSized r
    → r.order ≡ order
    → pos < 2 ^ order
    → begin_enqueue r pos ≡ claim_tail (turned order pos)
unfolding begin_enqueue
begins order r pos z same below =
    let fits : leb (Ring.capacity r) pos ≡ false =
      ground (arith, capacity_lem r z.small, ap (λ (k : ℕ). 2 ^ k) same, below) in
    let masked : wrapping_sub (n_enqueue r) 1 ≡ slots r - 1 =
      rw (n_enqueue_lem r z.small) (omega (arith, sizes r.order z.small)) in
    rw fits (ap claim_tail (ap (bit_xor pos) (masked ∙ ap (λ (k : ℕ). 2 ^ suc k - 1) same)))

module _ {ℓ} {A : Type ℓ} where
  write_slot_lem :
      (backing : List (Option A)) (pos : ℕ) (v : A)
      → pos < length backing
      → write_slot backing pos v ≡ done (set backing pos (some v))
  unfolding write_slot
  write_slot_lem backing pos v inside = rw (lt→ltb pos (length backing) inside) refl

  read_slot_lem :
      (backing : List (Option A)) (pos : ℕ) (v : A)
      → get_elem? backing pos ≡ some (some v)
      → read_slot backing pos ≡ done (v, set backing pos none)
  unfolding read_slot
  read_slot_lem backing pos v here = rw (read_slot, here) refl

  step_queue-writing :
      (finalize spurious : Bool) (b : BoundedQueue A) (item : A) (size pos : ℕ)
      (backing : List (Option A)) (spot : Spot A)
      → write_slot b.backing pos item ≡ done backing
      → after_enter finalize (capacity b) size pos (begin_enqueue b.alloc_queue pos) ≡ spot
      → step_queue finalize spurious (writing item size pos) b
        ≡ done (spot, record b { backing = backing })
  unfolding step_queue
  step_queue-writing finalize spurious b item size pos backing spot e f = rw (e, f) refl

  step_queue-reading :
      (finalize spurious : Bool) (b : BoundedQueue A) (pos : ℕ) (v : A) (backing : List (Option A))
      (spot : Spot A)
      → read_slot b.backing pos ≡ done (v, backing)
      → after_free (received (some v)) pos (begin_enqueue b.free_queue pos) ≡ done spot
      → step_queue finalize spurious (reading pos) b ≡ done (spot, record b { backing = backing })
  unfolding step_queue
  step_queue-reading finalize spurious b pos v backing spot e f = rw (e, f) refl

  step_queue-taking_back :
      (finalize spurious : Bool) (b : BoundedQueue A) (pos : ℕ) (v : A) (backing : List (Option A))
      (spot : Spot A)
      → read_slot b.backing pos ≡ done (v, backing)
      → after_free (sent (returned v queue_finalized)) pos (begin_enqueue b.free_queue pos)
        ≡ done spot
      → step_queue finalize spurious (taking_back pos) b
        ≡ done (spot, record b { backing = backing })
  unfolding step_queue
  step_queue-taking_back finalize spurious b pos v backing spot e f = rw (e, f) refl

module _ {ℓ} {A : Type ℓ} (order bound : ℕ) (finalize spurious : Bool) (b : BoundedQueue A)
    (spots : List (Spot A)) (fl al : Log) (s : IsSafe order bound b spots fl al)
    (few : bound + 1 < 2 ^ 61) (i : ℕ) where
  small : order ≤ 59
  small = omega (arith, s.free.sized.small, s.free.order_is)

  -- An access that touches neither ring nor slot, and leaves the thread what it has.
  pub idles :
      (spot next : Spot A) (u : ℕ)
      → get_elem? spots i ≡ some spot
      → free_place spot ≡ outside
      → free_place next ≡ outside
      → alloc_place spot ≡ outside
      → IsStill (2 ^ suc order) (alloc_place next)
      → IsLinked (2 ^ suc order) next
      → ((j : ℕ) → owns j next ≡ owns j spot)
      → ((j : ℕ) → holds j next ≡ holds j spot)
      → IsSafe order (bound + 1) (record b { used = u }) (set spots i next) fl al
  idles spot next u here f f' a still link o h =
      keeps s i spot next (record b { used = u }) fl al here
        (goes i (free_place spot) (free_place next) s.free
          (get_elem?-places free_place spots i spot here) (ap enq f) (ap deq f)
          (subst (IsStill (2 ^ suc order)) (sym f') (outside-IsStill (2 ^ suc order))))
        (goes i (alloc_place spot) (alloc_place next) s.alloc
          (get_elem?-places alloc_place spots i spot here) (ap enq a) (ap deq a) still)
        (raise_bound bound b.free_queue s.low_free) (raise_bound bound b.alloc_queue s.low_alloc)
        s.unfinalized refl link (λ j. omega (arith, o j)) (λ j. omega (arith, h j))

  pub writes_slot :
      (item : A) (size pos : ℕ)
      → get_elem? spots i ≡ some (writing item size pos)
      → Advanced order bound finalize spurious b spots fl al s few i (writing item size pos)
  writes_slot item size pos here =
      let spot = writing item size pos in
      let (below, free) = owned s i spot pos here (ind_self pos) in
      let inside : pos < length b.backing = omega (arith, s.room, below) in
      let p = claim_tail (turned order pos) in
      let b' : BoundedQueue A = record b { backing = set b.backing pos (some item) } in
      let still = claim_tail-IsStill order pos small below in
      record {
        next = entering size pos p;
        queue = b';
        free_log = fl;
        alloc_log = al;
        advances =
            step_queue-writing finalize spurious b item size pos _ _
              (write_slot_lem b.backing pos item inside)
              (ap (after_enter finalize (capacity b) size pos)
                  (begins order b.alloc_queue pos s.alloc.sized s.alloc.order_is below)
                ∙ after_enter-onward finalize (capacity b) size pos p tt);
        safe =
            keeps s i spot (entering size pos p) b' fl al here
              (goes i outside outside s.free (get_elem?-places free_place spots i spot here) refl
                refl (outside-IsStill (2 ^ suc order)))
              (goes i outside p s.alloc (get_elem?-places alloc_place spots i spot here) refl refl
                still)
              (raise_bound bound b.free_queue s.low_free)
              (raise_bound bound b.alloc_queue s.low_alloc) s.unfinalized
              (length-set b.backing pos (some item))
              (tt, λ e h. (let same : turned order pos ≡ e = cc in sym same)) (λ j. omega arith)
              (λ j. omega (arith, filled-write b.backing pos item inside free j));
      }

  -- A read of the slot of an index that the thread has, with a value in it.
  pub reads_slot :
      (spot : Spot A) (pos : ℕ) (result : A → Ended A)
      → get_elem? spots i ≡ some spot
      → ((j : ℕ) → owns j spot ≡ ind pos j)
      → ((j : ℕ) → holds j spot ≡ ind pos j)
      → free_place spot ≡ outside
      → alloc_place spot ≡ outside
      → ((v : A) (backing : List (Option A)) (next : Spot A)
          → read_slot b.backing pos ≡ done (v, backing)
          → after_free (result v) pos (begin_enqueue b.free_queue pos) ≡ done next
          → step_queue finalize spurious spot b ≡ done (next, record b { backing = backing }))
      → Advanced order bound finalize spurious b spots fl al s few i spot
  reads_slot spot pos result here o h f a step =
      let (below, full) = owned s i spot pos here (o pos ∙ ind_self pos) in
      let inside : pos < length b.backing = omega (arith, s.room, below) in
      let (v, value) = filled_value b.backing pos (omega (arith, full, h pos, ind_self pos)) in
      let p = claim_tail (turned order pos) in
      let b' : BoundedQueue A = record b { backing = set b.backing pos none } in
      let still = claim_tail-IsStill order pos small below in
      record {
        next = freeing (result v) pos p;
        queue = b';
        free_log = fl;
        alloc_log = al;
        advances =
            step v (set b.backing pos none) (freeing (result v) pos p)
              (read_slot_lem b.backing pos v value)
              (ap (after_free (result v) pos)
                  (begins order b.free_queue pos s.free.sized s.free.order_is below)
                ∙ after_free-onward (result v) pos p tt);
        safe =
            keeps s i spot (freeing (result v) pos p) b' fl al here
              (goes i (free_place spot) p s.free (get_elem?-places free_place spots i spot here)
                (ap enq f) (ap deq f) still)
              (goes i (alloc_place spot) outside s.alloc
                (get_elem?-places alloc_place spots i spot here) (ap enq a) (ap deq a)
                (outside-IsStill (2 ^ suc order)))
              (raise_bound bound b.free_queue s.low_free)
              (raise_bound bound b.alloc_queue s.low_alloc) s.unfinalized
              (length-set b.backing pos none)
              (tt, λ e h. (let same : turned order pos ≡ e = cc in sym same))
              (λ j. omega (arith, o j))
              (λ j. omega (arith, h j, filled-read b.backing pos v inside value j));
      }

  pub reads_value :
      (pos : ℕ)
      → get_elem? spots i ≡ some (reading pos)
      → Advanced order bound finalize spurious b spots fl al s few i (reading pos)
  reads_value pos here =
      reads_slot (reading pos) pos (λ v. received (some v)) here (λ j. refl) (λ j. refl) refl refl
        (step_queue-reading finalize spurious b pos)

  pub takes_value_back :
      (pos : ℕ)
      → get_elem? spots i ≡ some (taking_back pos)
      → Advanced order bound finalize spurious b spots fl al s few i (taking_back pos)
  takes_value_back pos here =
      reads_slot (taking_back pos) pos (λ v. sent (returned v queue_finalized)) here (λ j. refl)
        (λ j. refl) refl refl (step_queue-taking_back finalize spurious b pos)
