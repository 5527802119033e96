-- ===== src/Bounded/Shared/Takes.antt =====
-- The accesses of a thread in a call of `dequeue` of one of the rings.
use lfqueue.Base.{ℕ, suc, ◌+◌, ◌^◌, ◌<◌, ◌≡◌, refl, arith, ap, subst}
use lfqueue.Base.{Bool, none, some, List, get_elem?, set, done}
use lfqueue.Ring.{ScqRing}
use lfqueue.Ring.Shared.{
  Place, claim_tail, load_entry, check_head, check_finalized, exchange_entry, load_threshold,
  store_threshold, enqueued, outside, check_threshold, claim_head, probe_entry, take_entry,
  swap_entry, load_tail, catch_tail, reload_head, reload_tail, lower_empty, lower_threshold,
  dequeued, step, inserts, removes,
}
use lfqueue.Ring.Shared.View.{enq, deq}
use lfqueue.Bounded.{BoundedQueue}
use lfqueue.Bounded.Shared.{
  Spot, uncounting, taking, writing, removing, uncounted, ended, received, after_take, after_remove,
  dequeue_result, step_queue,
}
use lfqueue.Bounded.Shared.Rings.{Log, accesses, logged}
use lfqueue.Bounded.Shared.Shapes.{
  IsDequeue, Removed, onward, empty, found, leaves, inserts-dequeue,
}
use lfqueue.Bounded.Shared.Owned.{IsSafe, keeps, free_place, alloc_place, places, get_elem?-places}
use lfqueue.Bounded.Shared.Moves.{
  outside-IsStill, goes, ends, count-none, count-one, raise_bound, same_step, finalized_same,
}

dequeue_result-none : (p : Place) → IsDequeue p → dequeue_result p ≡ none
unfolding dequeue_result
dequeue_result-none check_threshold h = refl
dequeue_result-none claim_head h = refl
dequeue_result-none (probe_entry t a) h = refl
dequeue_result-none (take_entry t e) h = refl
dequeue_result-none (swap_entry t a e new) h = refl
dequeue_result-none (load_tail t) h = refl
dequeue_result-none (catch_tail t u) h = refl
dequeue_result-none reload_head h = refl
dequeue_result-none (reload_tail t) h = refl
dequeue_result-none lower_empty h = refl
dequeue_result-none lower_threshold h = refl
dequeue_result-none outside h = absurd h
dequeue_result-none (claim_tail x) h = absurd h
dequeue_result-none (load_entry x t) h = absurd h
dequeue_result-none (check_head x t e) h = absurd h
dequeue_result-none (check_finalized x t e) h = absurd h
dequeue_result-none (exchange_entry x t e) h = absurd h
dequeue_result-none load_threshold h = absurd h
dequeue_result-none store_threshold h = absurd h
dequeue_result-none (enqueued x) h = absurd h
dequeue_result-none (dequeued x) h = absurd h

module _ {ℓ} {A : Type ℓ} where
  step_queue-taking :
      (finalize spurious : Bool) (b : BoundedQueue A) (item : A) (size : ℕ) (p next : Place)
      (ring : ScqRing) (spot : Spot A)
      → step spurious p b.free_queue ≡ done (next, ring)
      → after_take item size next ≡ spot
      → step_queue finalize spurious (taking item size p) b
        ≡ done (spot, record b { free_queue = ring })
  unfolding step_queue
  step_queue-taking finalize spurious b item size p next ring spot e f = rw (e, f) refl

  step_queue-removing :
      (finalize spurious : Bool) (b : BoundedQueue A) (p next : Place) (ring : ScqRing)
      (spot : Spot A)
      → step spurious p b.alloc_queue ≡ done (next, ring)
      → after_remove next ≡ spot
      → step_queue finalize spurious (removing p) b ≡ done (spot, record b { alloc_queue = ring })
  unfolding step_queue
  step_queue-removing finalize spurious b p next ring spot e f = rw (e, f) refl

  after_take-onward :
      (item : A) (size : ℕ) (q : Place) → IsDequeue q → after_take item size q ≡ taking item size q
  unfolding after_take
  after_take-onward item size q d = rw (after_take, dequeue_result-none q d) refl

  after_remove-onward : (q : Place) → IsDequeue q → after_remove {A = A} q ≡ removing q
  unfolding after_remove
  after_remove-onward q d = rw (after_remove, dequeue_result-none q d) refl

module _ {ℓ} {A : Type ℓ} (order bound : ℕ) (finalize spurious : Bool) (b : BoundedQueue A)
    (spots : List (Spot A)) (fl al : Log) (s : IsSafe order bound b spots fl al)
    (few : bound + 1 < 2 ^ 61) (i : ℕ) where
  pub record Advanced (spot : Spot A) : Type ℓ where
    pub next : Spot A
    pub queue : BoundedQueue A
    pub free_log : Log
    pub alloc_log : Log
    pub advances : step_queue finalize spurious spot b ≡ done (next, queue)
    pub safe : IsSafe order (bound + 1) queue (set spots i next) free_log alloc_log

  module _ (p : Place) (is_dequeue : IsDequeue p) where
    pub takes :
        (item : A) (size : ℕ)
        → get_elem? spots i ≡ some (taking item size p)
        → Advanced (taking item size p)
    unfolding after_take dequeue_result
    takes item size here =
        let spot = taking item size p in
        let m =
          accesses order bound spurious b.free_queue fl (places free_place spots) i p s.free
            (get_elem?-places free_place spots i spot here) s.low_free few in
        let (nx, rg, st, shape) = leaves spurious b.free_queue s.free.sized p is_dequeue in
        let quiet = inserts-dequeue p m.next b.free_queue is_dequeue in
        let log = logged p m.next b.free_queue fl in
        let other =
          goes i outside outside s.alloc (get_elem?-places alloc_place spots i spot here) refl refl
            (outside-IsStill (2 ^ suc order)) in
        let b' : BoundedQueue A = record b { free_queue = m.ring } in
        let unfinalized = finalized_same b.free_queue m.ring m.same_flags s.unfinalized in
        elim (subst (Removed p) (same_step p b.free_queue rg m.ring spurious nx m.next st m.steps)
          shape) [
            | onward d none_out ↦ record {
              next = taking item size m.next;
              queue = b';
              free_log = log;
              alloc_log = al;
              advances =
                  step_queue-taking finalize spurious b item size p m.next m.ring _ m.steps
                    (after_take-onward item size m.next d);
              safe =
                  keeps s i spot (taking item size m.next) b' log al here m.well other m.low
                    (raise_bound bound b.alloc_queue s.low_alloc) unfinalized refl d
                    (λ j. omega (
                      arith,
                      count-none j (inserts p m.next b.free_queue) fl.stored quiet,
                      count-none j (removes p m.next) fl.removed none_out,
                    ))
                    (λ j. omega arith);
            }
            | empty e none_out ↦ record {
              next = uncounting item;
              queue = b';
              free_log = log;
              alloc_log = al;
              advances =
                  step_queue-taking finalize spurious b item size p m.next m.ring _ m.steps
                    (ap (after_take item size) e);
              safe =
                  keeps s i spot (uncounting item) b' log al here
                    (ends order m.ring log (places free_place spots) i p m.next
                      (get_elem?-places free_place spots i spot here) m.well (ap enq e) (ap deq e))
                    other m.low (raise_bound bound b.alloc_queue s.low_alloc) unfinalized refl tt
                    (λ j. omega (
                      arith,
                      count-none j (inserts p m.next b.free_queue) fl.stored quiet,
                      count-none j (removes p m.next) fl.removed none_out,
                    ))
                    (λ j. omega arith);
            }
            | found t pos e one_out ↦ record {
              next = writing item size pos;
              queue = b';
              free_log = log;
              alloc_log = al;
              advances =
                  step_queue-taking finalize spurious b item size p m.next m.ring _ m.steps
                    (ap (after_take item size) e);
              safe =
                  keeps s i spot (writing item size pos) b' log al here
                    (ends order m.ring log (places free_place spots) i p m.next
                      (get_elem?-places free_place spots i spot here) m.well (ap enq e) (ap deq e))
                    other m.low (raise_bound bound b.alloc_queue s.low_alloc) unfinalized refl tt
                    (λ j. omega (
                      arith,
                      count-none j (inserts p m.next b.free_queue) fl.stored quiet,
                      count-one j t pos (removes p m.next) fl.removed one_out,
                    ))
                    (λ j. omega arith);
            }
          ]

    pub removes_index : get_elem? spots i ≡ some (removing p) → Advanced (removing p)
    unfolding after_remove dequeue_result
    removes_index here =
        let spot : Spot A = removing p in
        let m =
          accesses order bound spurious b.alloc_queue al (places alloc_place spots) i p s.alloc
            (get_elem?-places alloc_place spots i spot here) s.low_alloc few in
        let (nx, rg, st, shape) = leaves spurious b.alloc_queue s.alloc.sized p is_dequeue in
        let quiet = inserts-dequeue p m.next b.alloc_queue is_dequeue in
        let log = logged p m.next b.alloc_queue al in
        let other =
          goes i outside outside s.free (get_elem?-places free_place spots i spot here) refl refl
            (outside-IsStill (2 ^ suc order)) in
        let b' : BoundedQueue A = record b { alloc_queue = m.ring } in
        elim (subst (Removed p) (same_step p b.alloc_queue rg m.ring spurious nx m.next st m.steps)
          shape) [
            | onward d none_out ↦ record {
              next = removing m.next;
              queue = b';
              free_log = fl;
              alloc_log = log;
              advances =
                  step_queue-removing finalize spurious b p m.next m.ring _ m.steps
                    (after_remove-onward m.next d);
              safe =
                  keeps s i spot (removing m.next) b' fl log here other m.well
                    (raise_bound bound b.free_queue s.low_free) m.low s.unfinalized refl d
                    (λ j. omega (
                      arith,
                      count-none j (inserts p m.next b.alloc_queue) al.stored quiet,
                      count-none j (removes p m.next) al.removed none_out,
                    ))
                    (λ j. omega (
                      arith,
                      count-none j (inserts p m.next b.alloc_queue) al.stored quiet,
                      count-none j (removes p m.next) al.removed none_out,
                    ));
            }
            | empty e none_out ↦ record {
              next = ended (received none);
              queue = b';
              free_log = fl;
              alloc_log = log;
              advances =
                  step_queue-removing finalize spurious b p m.next m.ring _ m.steps
                    (ap (after_remove) e);
              safe =
                  keeps s i spot (ended (received none)) b' fl log here other
                    (ends order m.ring log (places alloc_place spots) i p m.next
                      (get_elem?-places alloc_place spots i spot here) m.well (ap enq e) (ap deq e))
                    (raise_bound bound b.free_queue s.low_free) m.low s.unfinalized refl tt
                    (λ j. omega (
                      arith,
                      count-none j (inserts p m.next b.alloc_queue) al.stored quiet,
                      count-none j (removes p m.next) al.removed none_out,
                    ))
                    (λ j. omega (
                      arith,
                      count-none j (inserts p m.next b.alloc_queue) al.stored quiet,
                      count-none j (removes p m.next) al.removed none_out,
                    ));
            }
            | found t pos e one_out ↦ record {
              next = uncounted pos;
              queue = b';
              free_log = fl;
              alloc_log = log;
              advances =
                  step_queue-removing finalize spurious b p m.next m.ring _ m.steps
                    (ap (after_remove) e);
              safe =
                  keeps s i spot (uncounted pos) b' fl log here other
                    (ends order m.ring log (places alloc_place spots) i p m.next
                      (get_elem?-places alloc_place spots i spot here) m.well (ap enq e) (ap deq e))
                    (raise_bound bound b.free_queue s.low_free) m.low s.unfinalized refl tt
                    (λ j. omega (
                      arith,
                      count-none j (inserts p m.next b.alloc_queue) al.stored quiet,
                      count-one j t pos (removes p m.next) al.removed one_out,
                    ))
                    (λ j. omega (
                      arith,
                      count-none j (inserts p m.next b.alloc_queue) al.stored quiet,
                      count-one j t pos (removes p m.next) al.removed one_out,
                    ));
            }
          ]
