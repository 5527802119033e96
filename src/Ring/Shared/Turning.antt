-- ===== src/Ring/Shared/Turning.antt =====
-- Each access of a good thread to a sound ring is a turn of it, wherever the thread is.
use lfqueue.Base.{ℕ, ◌+◌, ◌^◌, ◌≤◌, ◌<◌, ◌≡◌, ◌≢◌, refl, arith, sym, ◌∙◌, subst}
use lfqueue.Base.{
  Bool, true, false, Bool-cases, ◌==◌, if◌then◌else◌, ◌||◌, none, some, List, [], done, inl, inr,
}
use lfqueue.Word.{wrapping_add, wrapping_sub, is_negative}
use lfqueue.Lfring.{lfring_pow2, lfring_threshold3, lfring_signed_cmp, is_le, is_ge}
use lfqueue.Ring.{ScqRing, finalized, exchanges, ok, err, queue_finalized}
use lfqueue.Ring.Holds.{slots}
use lfqueue.Ring.Shared.{
  Place, claim_tail, load_entry, check_head, check_finalized, exchange_entry, load_threshold,
  store_threshold, enqueued, outside, check_threshold, claim_head, probe_entry, take_entry,
  swap_entry, load_tail, catch_tail, reload_head, reload_tail, lower_empty, lower_threshold,
  dequeued, n_enqueue, step, inserts, removes, passes,
}
use lfqueue.Ring.Shared.Steps.{IsSized, IsInOrder}
use lfqueue.Ring.Shared.Access.{exchanged}
use lfqueue.Ring.Shared.View.{IsGood, enq, deq}
use lfqueue.Ring.Shared.Sound.{IsSound, Turns, claims_tail, claims_head}
use lfqueue.Ring.Shared.Moves.{view, Moved, calm, reads}
use lfqueue.Ring.Shared.Fills.{loads_entry, checks_head, exchanges_entry}
use lfqueue.Ring.Shared.Probes.{probes_entry, empties_entry, swaps_entry}

module _ (spurious : Bool) (r : ScqRing) (stored removed : List (ℕ × ℕ)) (passed : List ℕ)
    (s : IsSound (slots r) (view r stored removed passed)) where
  abbrev M : Place → Type 0
  M = Moved spurious r stored removed passed

  -- An access of a thread that has no ticket before and after it.
  goes :
      {p : Place} (next : Place) (ring : ScqRing)
      → step spurious p r ≡ done (next, ring)
      → inserts p next r ≡ []
      → removes p next ≡ []
      → passes p next ≡ []
      → r.tail ≤ ring.tail
      → ring.array ≡ r.array
      → ring.head ≡ r.head
      → IsGood (slots r) (view (record r { tail = ring.tail }) stored removed passed) next
      → (enq next ≡ none)
      → (deq next ≡ none)
      → (deq p ≡ none)
      → M p
  goes {p} next ring steps i m a up array head good e d l =
      calm spurious r stored removed passed s {p = p} next ring steps i m a up array head good
        (λ t h. absurd (some_none t (sym h ∙ e))) (λ t h. absurd (some_none t (sym h ∙ d)))
        (λ t h. absurd (some_none t (sym h ∙ l)))
    where
      some_none : (t : ℕ) → some t ≢ none
      some_none t h = cc

  unticketed :
      {p : Place} (b : Bool) (yes_place no_place : Place) (yes_ring no_ring : ScqRing)
      → step spurious p r ≡ (if b then done (yes_place, yes_ring) else done (no_place, no_ring))
      → (step spurious p r ≡ done (yes_place, yes_ring) → M p)
      → (step spurious p r ≡ done (no_place, no_ring) → M p)
      → M p
  unticketed true y n yr nr e f g = f e
  unticketed false y n yr nr e f g = g e

  pub moved :
      (p : Place)
      → IsSized r
      → r.head < 2 ^ 61
      → r.tail < 2 ^ 61
      → IsInOrder p r
      → IsGood (slots r) (view r stored removed passed) p
      → M p
  unfolding step inserts removes passes
  moved outside z hh ht o g =
      goes {p = outside} outside r refl refl refl refl (omega arith) refl refl tt refl refl refl
  moved (claim_tail eidx) z hh ht o g = record {
    next = load_entry eidx r.tail;
    ring = record r { tail = wrapping_add r.tail 1 };
    steps = refl;
    turns =
        let up : wrapping_add r.tail 1 ≡ r.tail + 1 = omega arith in
        subst
          (λ (t : ℕ).
            Turns (slots r) (view r stored removed passed) (claim_tail eidx)
              (view (record r { tail = t }) stored removed passed) (load_entry eidx r.tail))
          (sym up) (claims_tail (slots r) {v = view r stored removed passed} eidx s g);
  }
  moved (load_entry eidx t) z hh ht o g =
      loads_entry spurious r stored removed passed s z hh ht eidx t g
  moved (check_head eidx t e) z hh ht o g =
      checks_head spurious r stored removed passed s z hh ht eidx t e g
  moved (check_finalized eidx t e) z hh ht o g = elim (Bool-cases (finalized r)) [
    | inl shut ↦
        reads spurious r stored removed passed s {p = check_finalized eidx t e}
          (enqueued (err queue_finalized)) (rw shut refl) refl refl refl tt (λ u h. absurd (cc))
          (λ u h. absurd (cc)) (λ u h. absurd (cc))
    | inr open_ring ↦
        reads spurious r stored removed passed s {p = check_finalized eidx t e}
          (exchange_entry eidx t e) (rw open_ring refl) refl refl refl g (λ u h. h) (λ u h. h)
          (λ u h. h)
  ]
  moved (exchange_entry eidx t e) z hh ht o g =
      exchanges_entry spurious r stored removed passed s z hh ht eidx t e g
  moved load_threshold z hh ht o g =
      unticketed {p = load_threshold}
        (r.threshold == lfring_threshold3 (lfring_pow2 r.order) (n_enqueue r)) (enqueued ok)
        store_threshold r r refl
        (λ e.
          goes {p = load_threshold} (enqueued ok) r e refl refl refl (omega arith) refl refl tt refl
            refl refl)
        (λ e.
          goes {p = load_threshold} store_threshold r e refl refl refl (omega arith) refl refl tt
            refl refl refl)
  moved store_threshold z hh ht o g =
      goes {p = store_threshold} (enqueued ok)
        (record r { threshold = lfring_threshold3 (lfring_pow2 r.order) (n_enqueue r) }) refl refl
        refl refl (omega arith) refl refl tt refl refl refl
  moved (enqueued x) z hh ht o g =
      goes {p = enqueued x} (enqueued x) r refl refl refl refl (omega arith) refl refl tt refl refl
        refl
  moved check_threshold z hh ht o g =
      unticketed {p = check_threshold} (is_negative r.threshold) (dequeued none) claim_head r r refl
        (λ e.
          goes {p = check_threshold} (dequeued none) r e refl refl refl (omega arith) refl refl tt
            refl refl refl)
        (λ e.
          goes {p = check_threshold} claim_head r e refl refl refl (omega arith) refl refl tt refl
            refl refl)
  moved claim_head z hh ht o g = record {
    next = probe_entry r.head 0;
    ring = record r { head = wrapping_add r.head 1 };
    steps = refl;
    turns =
        let up : wrapping_add r.head 1 ≡ r.head + 1 = omega arith in
        subst
          (λ (t : ℕ).
            Turns (slots r) (view r stored removed passed) claim_head
              (view (record r { head = t }) stored removed passed) (probe_entry r.head 0))
          (sym up) (claims_head (slots r) {v = view r stored removed passed} s);
  }
  moved (probe_entry t a) z hh ht o g = probes_entry spurious r stored removed passed s z hh t a g
  moved (take_entry t e) z hh ht o g = empties_entry spurious r stored removed passed s z hh t e g
  moved (swap_entry t a e new) z hh ht o g =
      swaps_entry spurious r stored removed passed s z hh t a e new g
  moved (load_tail t) z hh ht o g =
      unticketed {p = load_tail t} (is_le (lfring_signed_cmp r.tail (wrapping_add t 1)))
        (catch_tail r.tail (wrapping_add t 1)) lower_threshold r r refl
        (λ e.
          goes {p = load_tail t} (catch_tail r.tail (wrapping_add t 1)) r e refl refl refl
            (omega arith) refl refl tt refl refl refl)
        (λ e.
          goes {p = load_tail t} lower_threshold r e refl refl refl (omega arith) refl refl tt refl
            refl refl)
  moved (catch_tail t u) z hh ht o g = elim (Bool-cases (exchanges spurious r.tail t)) [
    | inl swapped ↦
        goes {p = catch_tail t u} lower_empty (record r { tail = u }) (rw swapped refl) refl refl
          refl (omega (arith, o.0, exchanged spurious r.tail t swapped)) refl refl tt refl refl refl
    | inr fails ↦
        goes {p = catch_tail t u} reload_head r (rw fails refl) refl refl refl (omega arith) refl
          refl tt refl refl refl
  ]
  moved reload_head z hh ht o g =
      goes {p = reload_head} (reload_tail r.head) r refl refl refl refl (omega arith) refl refl tt
        refl refl refl
  moved (reload_tail t) z hh ht o g =
      unticketed {p = reload_tail t} (is_ge (lfring_signed_cmp r.tail t)) lower_empty
        (catch_tail r.tail t) r r refl
        (λ e.
          goes {p = reload_tail t} lower_empty r e refl refl refl (omega arith) refl refl tt refl
            refl refl)
        (λ e.
          goes {p = reload_tail t} (catch_tail r.tail t) r e refl refl refl (omega arith) refl refl
            tt refl refl refl)
  moved lower_empty z hh ht o g =
      goes {p = lower_empty} (dequeued none) (record r { threshold = wrapping_sub r.threshold 1 })
        refl refl refl refl (omega arith) refl refl tt refl refl refl
  moved lower_threshold z hh ht o g =
      let lowered = record r { threshold = wrapping_sub r.threshold 1 } in
      unticketed {p = lower_threshold} (is_negative r.threshold || (r.threshold == 0))
        (dequeued none) claim_head lowered lowered refl
        (λ e.
          goes {p = lower_threshold} (dequeued none) lowered e refl refl refl (omega arith) refl
            refl tt refl refl refl)
        (λ e.
          goes {p = lower_threshold} claim_head lowered e refl refl refl (omega arith) refl refl tt
            refl refl refl)
  moved (dequeued x) z hh ht o g =
      goes {p = dequeued x} (dequeued x) r refl refl refl refl (omega arith) refl refl tt refl refl
        refl
