-- ===== src/Bounded/Shared/Safety.antt =====
-- What the threads on one bounded queue cannot do.
use lfqueue.Base.{
  ℕ, zero, suc, ◌+◌, ◌*◌, ◌%◌, ◌^◌, ◌≤◌, ◌<◌, ◌≡◌, refl, arith, ap, sym, ◌∙◌, subst, ℕ_discrete,
}
use lfqueue.Base.{
  Bool, Option, none, some, List, [], ◌∷◌, length, length-replicate, get_elem?, get_elem?-set_ne,
  set, replicate, done,
}
use lfqueue.Word.{word_mod}
use lfqueue.Lfring.Order.{determine_order_exact, IsAccepted, IsLog}
use lfqueue.Alloc.{new_alloc_ring_empty}
use lfqueue.Alloc.Fresh.{range, IsNew, new_alloc_ring_empty_lem, new_alloc_ring_full_lem}
use lfqueue.Ring.{ScqRing}
use lfqueue.Ring.Holds.{Holds}
use lfqueue.Ring.Shared.{Place, outside}
use lfqueue.Ring.Shared.Opened.{
  numbered, opened, opened-IsSized, opened-IsOrdered, opened-IsConsistent,
}
use lfqueue.Ring.Shared.{share}
use lfqueue.Bounded.{BoundedQueue, new}
use lfqueue.Bounded.Shared.{Spot, resting, Turn, run}
use lfqueue.Bounded.Shared.Rings.{Log, IsWell}
use lfqueue.Bounded.Shared.Counts.{ind, count, count-le, total, total-set, total-le, filled}
use lfqueue.Bounded.Shared.Owned.{
  IsSafe, IsLinked, owns, holds, owned, quota, free_place, alloc_place, places,
}
use lfqueue.Bounded.Shared.Runs.{run_lem}

-- The log of a ring that was made with the indices `q`.
abbrev log_of : List ℕ → Log
log_of q = record { stored = numbered 0 q; removed = []; passed = [] }

opened_well :
    (order : ℕ) (r : ScqRing) (q : List ℕ) (count : ℕ)
    → Holds r q
    → r.head ≡ 0
    → r.order ≡ order
    → IsWell order r (log_of q) (replicate count outside)
unfolding opened share
opened_well order r q count h first same = record {
  order_is = same;
  sized = opened-IsSized r q h first count;
  in_order = (opened-IsOrdered r q h first count).in_order;
  kept = opened-IsConsistent r q h first count;
}

count_numbered :
    (i a from many : ℕ)
    → count i (numbered a (range from many)) + quota from i ≡ quota (from + many) i
unfolding count numbered
count_numbered i a from zero =
    let bound : quota from i ≡ quota (from + 0) i =
      ap (λ (c : ℕ). quota c i) (let same : from ≡ from + 0 = omega arith in same) in
    omega (arith, bound)
count_numbered i a from (suc many) =
    let next : quota (from + 1) i ≡ quota from i + ind from i = ground arith in
    let bound : quota (from + 1 + many) i ≡ quota (from + suc many) i =
      ap (λ (c : ℕ). quota c i)
        (let same : from + 1 + many ≡ from + suc many = omega arith in same) in
    omega (arith, count_numbered i (a + 1) (from + 1) many, next, bound)

count_nothing : (i : ℕ) → count i [] ≡ 0
unfolding count
count_nothing i = refl

count_no_indices : (i : ℕ) → count i (numbered 0 []) ≡ 0
unfolding count numbered
count_no_indices i = refl

not_filled {ℓ} : (A : Type ℓ) (many i : ℕ) → filled {A = A} (replicate many none) i ≡ 0
unfolding filled
not_filled A zero i = refl
not_filled A (suc many) zero = refl
not_filled A (suc many) (suc i) = not_filled A many i

module _ {ℓ} {A : Type ℓ} where
  places_resting :
      (f : Spot A → Place) (threads : ℕ)
      → f resting ≡ outside
      → places f (replicate threads resting) ≡ replicate threads outside
  places_resting f zero e = refl
  places_resting f (suc threads) e =
      ap (λ (p : Place). p ∷ places f (replicate threads resting)) e
      ∙ ap (λ (l : List Place). outside ∷ l) (places_resting f threads e)

  total_resting :
      (f : Spot A → ℕ) (threads : ℕ) → f resting ≡ 0 → total f (replicate threads resting) ≡ 0
  unfolding total
  total_resting f zero e = refl
  total_resting f (suc threads) e = omega (arith, e, total_resting f threads e)

  all_resting :
      (P : Spot A → Type 0) (threads : ℕ)
      → P resting
      → (i : ℕ) (x : Spot A) → get_elem? (replicate threads resting) i ≡ some x
      → P x
  all_resting P zero p i x h = absurd (cc)
  all_resting P (suc threads) p zero x h = let same : resting ≡ x = cc in subst P same p
  all_resting P (suc threads) p (suc i) x h = all_resting P threads p i x h

  -- A new queue is safe for threads in no call.
  made_safe :
      (order threads many : ℕ) (free alloc : ScqRing)
      → Holds free (range 0 (2 ^ order))
      → Holds alloc []
      → (mode : ℕ) → IsNew mode order free
      → IsNew mode order alloc
      → 2 ^ order ≤ many
      → IsSafe {A = A} order
          (2 ^ order)
          (record {
            backing = replicate many none;
            free_queue = free;
            alloc_queue = alloc;
            used = 0;
          })
          (replicate threads resting)
          (log_of (range 0 (2 ^ order)))
          (log_of [])
  made_safe order threads many free alloc hf ha mode nf na big = record {
    free =
        subst (IsWell order free (log_of (range 0 (2 ^ order))))
          (sym (places_resting free_place threads refl))
          (opened_well order free (range 0 (2 ^ order)) threads hf nf.no_heads nf.order_is);
    alloc =
        subst (IsWell order alloc (log_of [])) (sym (places_resting alloc_place threads refl))
          (opened_well order alloc [] threads ha na.no_heads na.order_is);
    low_free = (omega (arith, nf.no_heads), omega (arith, nf.tickets));
    low_alloc = (omega (arith, na.no_heads), omega (arith, na.tickets));
    unfinalized = nf.not_finalized;
    room = omega (arith, length-replicate {A = Option A} many none, big);
    linked = all_resting (IsLinked (2 ^ suc order)) threads tt;
    once = λ i.
        let none_below : quota 0 i ≡ 0 = ground arith in
        let all : quota (0 + 2 ^ order) i ≡ quota (2 ^ order) i =
          ap (λ (c : ℕ). quota c i) (let same : 0 + 2 ^ order ≡ 2 ^ order = omega arith in same) in
        omega (
          arith,
          count_numbered i 0 0 (2 ^ order),
          none_below,
          all,
          count_no_indices i,
          count_nothing i,
          total_resting (owns i) threads refl,
        );
    full = λ i. omega (
      arith,
      not_filled A many i,
      count_no_indices i,
      count_nothing i,
      total_resting (holds i) threads refl,
    );
  }

  -- No two threads have the same index, and an index that a thread has is one of the slots.
  abbrev pub IsExclusive : ℕ → List (Spot A) → Type ℓ
  IsExclusive capacity spots =
      (i j : ℕ) (x y : Spot A) (pos : ℕ)
      → get_elem? spots i ≡ some x
      → get_elem? spots j ≡ some y
      → owns pos x ≡ 1
      → owns pos y ≡ 1
      → (i ≡ j) × (pos < capacity)

  safe-IsExclusive :
      {order bound : ℕ} {b : BoundedQueue A} {spots : List (Spot A)} {fl al : Log}
      → IsSafe order bound b spots fl al
      → IsExclusive (2 ^ order) spots
  safe-IsExclusive {order} {bound} {b} {spots} {fl} {al} s i j x y pos hx hy ox oy = (
    elim (ℕ_discrete i j) [
      | yes same ↦ same
      | no ne ↦
          let f =
            count-le fl.removed fl.stored s.free.kept.sound.removed_once
              s.free.kept.sound.removed_stored pos in
          let a =
            count-le al.removed al.stored s.alloc.kept.sound.removed_once
              s.alloc.kept.sound.removed_stored pos in
          let others = total-set (owns pos) spots i x resting hx in
          let there =
            total-le (owns pos) (set spots i resting) j y
              (get_elem?-set_ne spots i j resting ne ∙ hy) in
          let only : quota (2 ^ order) pos ≤ 1 = ground arith in
          absurd (omega (arith, s.once pos, f, a, others, there, ox, oy, only))
    ],
    (owned s i x pos hx ox).0,
  )

-- On a new queue whose length is below 2 ^ 62, of an order up to 59, and accepted by the assertion,
-- however the accesses of any number of threads in calls of `enqueue` (or of `enqueue_cycle` with
-- `FINALIZE`) and `dequeue` follow one another, whichever exchanges fail spuriously, and while fewer
-- than 2 ^ 61 tickets can have been taken: the run ends, so no slot is read that holds no value, no
-- slot is written out of bounds, and no index that is given back is refused; and no two threads have
-- the same index at once.
pub shared_queue_lem {ℓ} :
    (A : Type ℓ) (mode size order threads : ℕ) (finalize : Bool) (turns : List (Turn A))
    → order ≤ 59
    → size < 2 ^ 62
    → IsAccepted size
    → IsLog size order
    → 2 ^ order + length turns < 2 ^ 61
    → (b b' : BoundedQueue A) × (spots : List (Spot A)) × (new A mode size ≡ done b)
      × (run finalize (b, replicate threads resting) turns ≡ done (b', spots))
      × IsExclusive (2 ^ order) spots
unfolding new
shared_queue_lem A mode size order threads finalize turns small fits ok log few =
    let (free, e, h, new_free) = new_alloc_ring_full_lem mode order small in
    let alloc = new_alloc_ring_empty mode order in
    let (empty, new_alloc, no_tickets) = new_alloc_ring_empty_lem mode order small in
    let b : BoundedQueue A = record {
      backing = replicate (2 * size % word_mod) none;
      free_queue = free;
      alloc_queue = alloc;
      used = 0;
    } in
    let safe =
      made_safe {A = A} order threads (2 * size % word_mod) free alloc h empty mode new_free
        new_alloc (omega (arith, log.below)) in
    let ran =
      run_lem {A = A} order finalize (2 ^ order) b (replicate threads resting) _ _ turns safe few in
    (
      b,
      ran.queue,
      ran.spots,
      rw ((determine_order_exact size order (omega arith)).0.1 (ok, log), e) refl,
      ran.ends,
      safe-IsExclusive ran.safe,
    )
