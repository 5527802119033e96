-- ===== src/Bounded/Shared/Frees.antt =====
-- The accesses of a thread that gives an index back to the ring of the free ones.
use lfqueue.Base.{ℕ, suc, ◌+◌, ◌-◌, ◌^◌, ◌<◌, ◌≡◌, refl, arith, ap, sym, ◌∙◌, subst, bit_xor}
use lfqueue.Base.{Bool, true, false, none, some, List, [], ◌∷◌, get_elem?, done}
use lfqueue.Word.{wrapping_sub}
use lfqueue.Ring.{ScqRing}
use lfqueue.Ring.Shared.{Place, outside, step, inserts, removes, n_enqueue}
use lfqueue.Ring.Shared.View.{enq, deq}
use lfqueue.Bounded.{BoundedQueue}
use lfqueue.Bounded.Shared.{Spot, Ended, freeing, ended, after_free, enqueue_result, step_queue}
use lfqueue.Bounded.Shared.Rings.{Log, accesses, logged}
use lfqueue.Bounded.Shared.Shapes.{
  carried, IsEnqueue, Entered, onward, stores, refused, waiting, finished, enters, removes-enqueue,
}
use lfqueue.Bounded.Shared.Counts.{ind_self}
use lfqueue.Bounded.Shared.Owned.{
  IsSafe, keeps, owned, carrying, free_place, alloc_place, places, get_elem?-places,
}
use lfqueue.Bounded.Shared.Moves.{
  outside-IsStill, goes, ends, count-none, count-one, raise_bound, same_step, finalized_same,
}
use lfqueue.Bounded.Shared.Takes.{Advanced}
use lfqueue.Bounded.Shared.Puts.{turned_back, carries, carries_no, after_free-onward}

module _ {ℓ} {A : Type ℓ} where
  step_queue-freeing :
      (finalize spurious : Bool) (b : BoundedQueue A) (result : Ended A) (pos : ℕ) (p next : Place)
      (ring : ScqRing) (spot : Spot A)
      → step spurious p b.free_queue ≡ done (next, ring)
      → after_free result pos next ≡ done spot
      → step_queue finalize spurious (freeing result pos p) b
        ≡ done (spot, record b { free_queue = ring })
  unfolding step_queue
  step_queue-freeing finalize spurious b result pos p next ring spot e f = rw (e, f) refl

module _ {ℓ} {A : Type ℓ} (order bound : ℕ) (finalize spurious : Bool) (b : BoundedQueue A)
    (spots : List (Spot A)) (fl al : Log) (s : IsSafe order bound b spots fl al)
    (few : bound + 1 < 2 ^ 61) (i : ℕ) (p : Place) (is_enqueue : IsEnqueue p) (pos : ℕ)
    (turned : (e : ℕ) → carried p ≡ some e → e ≡ bit_xor pos (2 ^ suc order - 1)) where
  still_turned :
      (q : Place) (e : ℕ)
      → carried p ≡ some e
      → carried q ≡ some e
      → (x : ℕ) → carried q ≡ some x
      → x ≡ bit_xor pos (2 ^ suc order - 1)
  still_turned q e c c' x h = (let same : x ≡ e = cc in same) ∙ turned e c

  no_more :
      (q : Place)
      → carried q ≡ none
      → (x : ℕ) → carried q ≡ some x
      → x ≡ bit_xor pos (2 ^ suc order - 1)
  no_more q c x h = absurd (let no : none ≡ some x = sym c ∙ h in cc)

  pub frees_index :
      (result : Ended A)
      → get_elem? spots i ≡ some (freeing result pos p)
      → Advanced order bound finalize spurious b spots fl al s few i (freeing result pos p)
  unfolding after_free enqueue_result
  frees_index result here =
      let spot : Spot A = freeing result pos p in
      let m =
        accesses order bound spurious b.free_queue fl (places free_place spots) i p s.free
          (get_elem?-places free_place spots i spot here) s.low_free few in
      let (nx, rg, st, shape) = enters spurious b.free_queue s.free.sized p is_enqueue in
      let quiet = removes-enqueue p m.next is_enqueue in
      let log = logged p m.next b.free_queue fl in
      let other =
        goes i outside outside s.alloc (get_elem?-places alloc_place spots i spot here) refl refl
          (outside-IsStill (2 ^ suc order)) in
      let low = raise_bound bound b.alloc_queue s.low_alloc in
      let b' : BoundedQueue A = record b { free_queue = m.ring } in
      let unfinalized = finalized_same b.free_queue m.ring m.same_flags s.unfinalized in
      let gone = λ (j : ℕ). count-none j (removes p m.next) fl.removed quiet in
      let none_in = λ (ins : inserts p m.next b.free_queue ≡ []) (j : ℕ).
        count-none j (inserts p m.next b.free_queue) fl.stored ins in
      elim (subst (λ (q : Place). Entered p q b.free_queue)
        (same_step p b.free_queue rg m.ring spurious nx m.next st m.steps) shape) [
          | onward e c c' d ins ↦ record {
            next = freeing result pos m.next;
            queue = b';
            free_log = log;
            alloc_log = al;
            advances =
                step_queue-freeing finalize spurious b result pos p m.next m.ring _ m.steps
                  (after_free-onward result pos m.next d);
            safe =
                keeps s i spot (freeing result pos m.next) b' log al here m.well other m.low low
                  unfinalized refl (d, still_turned m.next e c c')
                  (λ j.
                    omega (
                      arith,
                      gone j,
                      none_in ins j,
                      carries p pos e j c,
                      carries m.next pos e j c',
                    ))
                  (λ j. omega arith);
          }
          | stores e t c nxt ins ↦
              let mine : carrying (carried p) pos pos ≡ 1 = carries p pos e pos c ∙ ind_self pos in
              let below = (owned s i spot pos here mine).0 in
              let back : bit_xor e (wrapping_sub (n_enqueue b.free_queue) 1) ≡ pos =
                turned_back b.free_queue e pos s.free.sized.small
                  (subst (λ (k : ℕ). pos < 2 ^ k) (sym s.free.order_is) below)
                  (subst (λ (k : ℕ). e ≡ bit_xor pos (2 ^ suc k - 1)) (sym s.free.order_is)
                    (turned e c)) in
              let one_in = λ (j : ℕ).
                count-one j t pos (inserts p m.next b.free_queue) fl.stored
                  (ins ∙ ap (λ (x : ℕ). (t, x) ∷ []) back) in
              let d : IsEnqueue m.next = subst IsEnqueue (sym nxt) tt in
              record {
                next = freeing result pos m.next;
                queue = b';
                free_log = log;
                alloc_log = al;
                advances =
                    step_queue-freeing finalize spurious b result pos p m.next m.ring _ m.steps
                      (after_free-onward result pos m.next d);
                safe =
                    keeps s i spot (freeing result pos m.next) b' log al here m.well other m.low low
                      unfinalized refl (d, no_more m.next (ap carried nxt))
                      (λ j. omega (
                        arith,
                        gone j,
                        one_in j,
                        carries p pos e j c,
                        carries_no m.next pos j (ap carried nxt),
                      ))
                      (λ j. omega arith);
              }
          | refused e c nxt shut ins ↦
              absurd (let no : false ≡ true = sym s.unfinalized ∙ shut in cc)
          | waiting c nxt ins ↦
              let d : IsEnqueue m.next = subst IsEnqueue (sym nxt) tt in
              record {
                next = freeing result pos m.next;
                queue = b';
                free_log = log;
                alloc_log = al;
                advances =
                    step_queue-freeing finalize spurious b result pos p m.next m.ring _ m.steps
                      (after_free-onward result pos m.next d);
                safe =
                    keeps s i spot (freeing result pos m.next) b' log al here m.well other m.low low
                      unfinalized refl (d, no_more m.next (ap carried nxt))
                      (λ j. omega (
                        arith,
                        gone j,
                        none_in ins j,
                        carries_no p pos j c,
                        carries_no m.next pos j (ap carried nxt),
                      ))
                      (λ j. omega arith);
              }
          | finished c nxt ins ↦ record {
            next = ended result;
            queue = b';
            free_log = log;
            alloc_log = al;
            advances =
                step_queue-freeing finalize spurious b result pos p m.next m.ring _ m.steps
                  (ap (after_free result pos) nxt);
            safe =
                keeps s i spot (ended result) b' log al here
                  (ends order m.ring log (places free_place spots) i p m.next
                    (get_elem?-places free_place spots i spot here) m.well (ap enq nxt)
                    (ap deq nxt))
                  other m.low low unfinalized refl tt
                  (λ j. omega (arith, gone j, none_in ins j, carries_no p pos j c))
                  (λ j. omega arith);
          }
        ]
