-- ===== src/Bounded/Shared/Puts.antt =====
-- The accesses of a thread in a call of `enqueue` of one of the rings.
use lfqueue.Base.{
  ℕ, suc, ◌+◌, ◌-◌, ◌^◌, ◌≤◌, ◌<◌, ◌≡◌, refl, arith, ap, sym, ◌∙◌, subst, bit_xor, leb, ◌&&◌,
}
use lfqueue.Base.{Bool, Bool-cases, Option, none, some, List, [], ◌∷◌, get_elem?, done, inl, inr}
use lfqueue.Word.{wrapping_sub, wrapping_add}
use lfqueue.Word.Fields.{bit_xor_ones}
use lfqueue.Ring.{ScqRing}
use lfqueue.Ring.Holds.{slots, sizes}
use lfqueue.Ring.Shared.{
  Place, claim_tail, load_entry, check_head, check_finalized, exchange_entry, load_threshold,
  store_threshold, enqueued, outside, check_threshold, claim_head, probe_entry, take_entry,
  swap_entry, load_tail, catch_tail, reload_head, reload_tail, lower_empty, lower_threshold,
  dequeued, step, inserts, removes, n_enqueue,
}
use lfqueue.Ring.Shared.View.{enq, deq}
use lfqueue.Ring.Shared.Steps.{n_enqueue_lem}
use lfqueue.Bounded.{BoundedQueue, accepted, capacity}
use lfqueue.Bounded.Shared.{
  Spot, Ended, entering, giving_up, finalizing, freeing, ended, sent, after_enter, after_free,
  enqueue_result, step_queue,
}
use lfqueue.Bounded.Shared.Rings.{Log, accesses, logged}
use lfqueue.Bounded.Shared.Shapes.{
  carried, IsEnqueue, Entered, onward, stores, refused, waiting, finished, enters, removes-enqueue,
}
use lfqueue.Bounded.Shared.Counts.{ind, ind_self}
use lfqueue.Bounded.Shared.Owned.{
  IsSafe, keeps, owned, carrying, free_place, alloc_place, places, get_elem?-places,
}
use lfqueue.Bounded.Shared.Moves.{
  outside-IsStill, goes, ends, count-none, count-one, raise_bound, same_step,
}
use lfqueue.Bounded.Shared.Takes.{Advanced}

enqueue_result-none : (p : Place) → IsEnqueue p → enqueue_result p ≡ none
unfolding enqueue_result
enqueue_result-none (claim_tail x) h = refl
enqueue_result-none (load_entry x t) h = refl
enqueue_result-none (check_head x t e) h = refl
enqueue_result-none (check_finalized x t e) h = refl
enqueue_result-none (exchange_entry x t e) h = refl
enqueue_result-none load_threshold h = refl
enqueue_result-none store_threshold h = refl
enqueue_result-none outside h = absurd h
enqueue_result-none (enqueued x) h = absurd h
enqueue_result-none check_threshold h = absurd h
enqueue_result-none claim_head h = absurd h
enqueue_result-none (probe_entry t a) h = absurd h
enqueue_result-none (take_entry t e) h = absurd h
enqueue_result-none (swap_entry t a e new) h = absurd h
enqueue_result-none (load_tail t) h = absurd h
enqueue_result-none (catch_tail t u) h = absurd h
enqueue_result-none reload_head h = absurd h
enqueue_result-none (reload_tail t) h = absurd h
enqueue_result-none lower_empty h = absurd h
enqueue_result-none lower_threshold h = absurd h
enqueue_result-none (dequeued x) h = absurd h

-- To turn an index over twice.
pub turned_back :
    (r : ScqRing) (e pos : ℕ)
    → r.order ≤ 59
    → pos < 2 ^ r.order
    → e ≡ bit_xor pos (slots r - 1)
    → bit_xor e (wrapping_sub (n_enqueue r) 1) ≡ pos
turned_back r e pos small below turned =
    let masked : wrapping_sub (n_enqueue r) 1 ≡ slots r - 1 =
      rw (n_enqueue_lem r small) (omega (arith, sizes r.order small)) in
    rw (masked, turned, bit_xor_ones (suc r.order) pos (omega (arith, sizes r.order small)))
      (bit_xor_ones (suc r.order) (slots r - 1 - pos) (omega (arith, sizes r.order small))
        ∙ omega (arith, sizes r.order small))

pub carries :
    (q : Place) (pos e j : ℕ) → carried q ≡ some e → carrying (carried q) pos j ≡ ind pos j
carries q pos e j c = ap (λ (o : Option ℕ). carrying o pos j) c

pub carries_no : (q : Place) (pos j : ℕ) → carried q ≡ none → carrying (carried q) pos j ≡ 0
carries_no q pos j c = ap (λ (o : Option ℕ). carrying o pos j) c

module _ {ℓ} {A : Type ℓ} where
  step_queue-entering :
      (finalize spurious : Bool) (b : BoundedQueue A) (size pos : ℕ) (p next : Place)
      (ring : ScqRing) (spot : Spot A)
      → step spurious p b.alloc_queue ≡ done (next, ring)
      → after_enter finalize (capacity b) size pos next ≡ spot
      → step_queue finalize spurious (entering size pos p) b
        ≡ done (spot, record b { alloc_queue = ring })
  unfolding step_queue
  step_queue-entering finalize spurious b size pos p next ring spot e f = rw (e, f) refl

  pub after_enter-onward :
      (finalize : Bool) (cap size pos : ℕ) (q : Place)
      → IsEnqueue q
      → after_enter {A = A} finalize cap size pos q ≡ entering size pos q
  unfolding after_enter
  after_enter-onward finalize cap size pos q d = rw (after_enter, enqueue_result-none q d) refl

  pub after_free-onward :
      (result : Ended A) (pos : ℕ) (q : Place)
      → IsEnqueue q
      → after_free result pos q ≡ done (freeing result pos q)
  unfolding after_free
  after_free-onward result pos q d = rw (after_free, enqueue_result-none q d) refl

module _ {ℓ} {A : Type ℓ} (order bound : ℕ) (finalize spurious : Bool) (b : BoundedQueue A)
    (spots : List (Spot A)) (fl al : Log) (s : IsSafe order bound b spots fl al)
    (few : bound + 1 < 2 ^ 61) (i : ℕ) (p : Place) (is_enqueue : IsEnqueue p) (pos : ℕ)
    (turned : (e : ℕ) → carried p ≡ some e → e ≡ bit_xor pos (2 ^ suc order - 1)) where
  still_turned :
      (q : Place) (e : ℕ)
      → carried p ≡ some e
      → carried q ≡ some e
      → (x : ℕ) → carried q ≡ some x
      → x ≡ bit_xor pos (2 ^ suc order - 1)
  still_turned q e c c' x h = (let same : x ≡ e = cc in same) ∙ turned e c

  no_more :
      (q : Place)
      → carried q ≡ none
      → (x : ℕ) → carried q ≡ some x
      → x ≡ bit_xor pos (2 ^ suc order - 1)
  no_more q c x h = absurd (let no : none ≡ some x = sym c ∙ h in cc)

  pub enters_index :
      (size : ℕ)
      → get_elem? spots i ≡ some (entering size pos p)
      → Advanced order bound finalize spurious b spots fl al s few i (entering size pos p)
  unfolding after_enter enqueue_result
  enters_index size here =
      let spot : Spot A = entering size pos p in
      let m =
        accesses order bound spurious b.alloc_queue al (places alloc_place spots) i p s.alloc
          (get_elem?-places alloc_place spots i spot here) s.low_alloc few in
      let (nx, rg, st, shape) = enters spurious b.alloc_queue s.alloc.sized p is_enqueue in
      let quiet = removes-enqueue p m.next is_enqueue in
      let log = logged p m.next b.alloc_queue al in
      let other =
        goes i outside outside s.free (get_elem?-places free_place spots i spot here) refl refl
          (outside-IsStill (2 ^ suc order)) in
      let low = raise_bound bound b.free_queue s.low_free in
      let b' : BoundedQueue A = record b { alloc_queue = m.ring } in
      let gone = λ (j : ℕ). count-none j (removes p m.next) al.removed quiet in
      let none_in = λ (ins : inserts p m.next b.alloc_queue ≡ []) (j : ℕ).
        count-none j (inserts p m.next b.alloc_queue) al.stored ins in
      let stays = λ (q : Place) (d : IsEnqueue q).
        after_enter-onward {A = A} finalize (capacity b) size pos q d in
      elim (subst (λ (q : Place). Entered p q b.alloc_queue)
        (same_step p b.alloc_queue rg m.ring spurious nx m.next st m.steps) shape) [
          | onward e c c' d ins ↦ record {
            next = entering size pos m.next;
            queue = b';
            free_log = fl;
            alloc_log = log;
            advances =
                step_queue-entering finalize spurious b size pos p m.next m.ring _ m.steps
                  (stays m.next d);
            safe =
                keeps s i spot (entering size pos m.next) b' fl log here other m.well low m.low
                  s.unfinalized refl (d, still_turned m.next e c c')
                  (λ j.
                    omega (
                      arith,
                      gone j,
                      none_in ins j,
                      carries p pos e j c,
                      carries m.next pos e j c',
                    ))
                  (λ j.
                    omega (
                      arith,
                      gone j,
                      none_in ins j,
                      carries p pos e j c,
                      carries m.next pos e j c',
                    ));
          }
          | stores e t c nxt ins ↦
              let mine : carrying (carried p) pos pos ≡ 1 = carries p pos e pos c ∙ ind_self pos in
              let below = (owned s i spot pos here mine).0 in
              let back : bit_xor e (wrapping_sub (n_enqueue b.alloc_queue) 1) ≡ pos =
                turned_back b.alloc_queue e pos s.alloc.sized.small
                  (subst (λ (k : ℕ). pos < 2 ^ k) (sym s.alloc.order_is) below)
                  (subst (λ (k : ℕ). e ≡ bit_xor pos (2 ^ suc k - 1)) (sym s.alloc.order_is)
                    (turned e c)) in
              let one_in = λ (j : ℕ).
                count-one j t pos (inserts p m.next b.alloc_queue) al.stored
                  (ins ∙ ap (λ (x : ℕ). (t, x) ∷ []) back) in
              let d : IsEnqueue m.next = subst IsEnqueue (sym nxt) tt in
              record {
                next = entering size pos m.next;
                queue = b';
                free_log = fl;
                alloc_log = log;
                advances =
                    step_queue-entering finalize spurious b size pos p m.next m.ring _ m.steps
                      (stays m.next d);
                safe =
                    keeps s i spot (entering size pos m.next) b' fl log here other m.well low m.low
                      s.unfinalized refl (d, no_more m.next (ap carried nxt))
                      (λ j. omega (
                        arith,
                        gone j,
                        one_in j,
                        carries p pos e j c,
                        carries_no m.next pos j (ap carried nxt),
                      ))
                      (λ j. omega (
                        arith,
                        gone j,
                        one_in j,
                        carries p pos e j c,
                        carries_no m.next pos j (ap carried nxt),
                      ));
              }
          | refused e c nxt shut ins ↦ record {
            next = giving_up pos;
            queue = b';
            free_log = fl;
            alloc_log = log;
            advances =
                step_queue-entering finalize spurious b size pos p m.next m.ring _ m.steps
                  (ap (after_enter finalize (capacity b) size pos) nxt);
            safe =
                keeps s i spot (giving_up pos) b' fl log here other
                  (ends order m.ring log (places alloc_place spots) i p m.next
                    (get_elem?-places alloc_place spots i spot here) m.well (ap enq nxt)
                    (ap deq nxt))
                  low m.low s.unfinalized refl tt
                  (λ j. omega (arith, gone j, none_in ins j, carries p pos e j c))
                  (λ j. omega (arith, gone j, none_in ins j, carries p pos e j c));
          }
          | waiting c nxt ins ↦
              let d : IsEnqueue m.next = subst IsEnqueue (sym nxt) tt in
              record {
                next = entering size pos m.next;
                queue = b';
                free_log = fl;
                alloc_log = log;
                advances =
                    step_queue-entering finalize spurious b size pos p m.next m.ring _ m.steps
                      (stays m.next d);
                safe =
                    keeps s i spot (entering size pos m.next) b' fl log here other m.well low m.low
                      s.unfinalized refl (d, no_more m.next (ap carried nxt))
                      (λ j. omega (
                        arith,
                        gone j,
                        none_in ins j,
                        carries_no p pos j c,
                        carries_no m.next pos j (ap carried nxt),
                      ))
                      (λ j. omega (
                        arith,
                        gone j,
                        none_in ins j,
                        carries_no p pos j c,
                        carries_no m.next pos j (ap carried nxt),
                      ));
              }
          | finished c nxt ins ↦
              let well =
                ends order m.ring log (places alloc_place spots) i p m.next
                  (get_elem?-places alloc_place spots i spot here) m.well (ap enq nxt)
                  (ap deq nxt) in
              elim (Bool-cases (finalize && leb (capacity b) (wrapping_add size 1))) [
                | inl last ↦ record {
                  next = finalizing;
                  queue = b';
                  free_log = fl;
                  alloc_log = log;
                  advances =
                      step_queue-entering finalize spurious b size pos p m.next m.ring finalizing
                        m.steps
                        (ap (after_enter finalize (capacity b) size pos) nxt ∙ rw last refl);
                  safe =
                      keeps s i spot finalizing b' fl log here other well low m.low s.unfinalized
                        refl tt (λ j. omega (arith, gone j, none_in ins j, carries_no p pos j c))
                        (λ j. omega (arith, gone j, none_in ins j, carries_no p pos j c));
                }
                | inr more ↦ record {
                  next = ended (sent accepted);
                  queue = b';
                  free_log = fl;
                  alloc_log = log;
                  advances =
                      step_queue-entering finalize spurious b size pos p m.next m.ring
                        (ended (sent accepted)) m.steps
                        (ap (after_enter finalize (capacity b) size pos) nxt ∙ rw more refl);
                  safe =
                      keeps s i spot (ended (sent accepted)) b' fl log here other well low m.low
                        s.unfinalized refl tt
                        (λ j. omega (arith, gone j, none_in ins j, carries_no p pos j c))
                        (λ j. omega (arith, gone j, none_in ins j, carries_no p pos j c));
                }
              ]
        ]
