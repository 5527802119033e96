-- ===== src/Bounded/Shared/Shapes.antt =====
-- Where an access of a call of a ring leads to, and what it stores or removes.
use lfqueue.Base.{ℕ, ◌≡◌, refl, bit_xor, bit_and, bit_or}
use lfqueue.Base.{
  Bool, true, false, Bool-cases, ◌==◌, ◌||◌, if◌then◌else◌, none, some, Option, [], ◌∷◌, set, done,
  inl, inr,
}
use lfqueue.Word.{wrapping_sub, wrapping_add, shift_left, is_negative}
use lfqueue.Lfring.{
  lfring_map, lfring_pow2, lfring_threshold3, modup, lfring_signed_cmp, is_le, is_ge,
}
use lfqueue.Ring.{ScqRing, finalized, exchanges, ok, err, queue_finalized}
use lfqueue.Ring.Shared.{
  Place, claim_tail, load_entry, check_head, check_finalized, exchange_entry, load_threshold,
  store_threshold, enqueued, outside, check_threshold, claim_head, probe_entry, take_entry,
  swap_entry, load_tail, catch_tail, reload_head, reload_tail, lower_empty, lower_threshold,
  dequeued, n_enqueue, n_dequeue, step, inserts, removes, test_entry, after_test, after_probe,
}
use lfqueue.Ring.Shared.Steps.{IsSized, loads, n_enqueue_lem, n_dequeue_lem}
use lfqueue.Ring.Shared.Access.{after_test_cases, test_entry_cases, after_probe_cases}

-- The index that a call of `enqueue` has turned over and not yet stored.
abbrev pub carried : Place → Option ℕ
carried (claim_tail e) = some e
carried (load_entry e t) = some e
carried (check_head e t x) = some e
carried (check_finalized e t x) = some e
carried (exchange_entry e t x) = some e
carried p = none

-- In a call of `enqueue`.
abbrev pub IsEnqueue : Place → Type 0
IsEnqueue (claim_tail e) = Unit
IsEnqueue (load_entry e t) = Unit
IsEnqueue (check_head e t x) = Unit
IsEnqueue (check_finalized e t x) = Unit
IsEnqueue (exchange_entry e t x) = Unit
IsEnqueue load_threshold = Unit
IsEnqueue store_threshold = Unit
IsEnqueue p = ⊥

-- In a call of `dequeue`.
abbrev pub IsDequeue : Place → Type 0
IsDequeue check_threshold = Unit
IsDequeue claim_head = Unit
IsDequeue (probe_entry t a) = Unit
IsDequeue (take_entry t e) = Unit
IsDequeue (swap_entry t a e new) = Unit
IsDequeue (load_tail t) = Unit
IsDequeue (catch_tail t u) = Unit
IsDequeue reload_head = Unit
IsDequeue (reload_tail t) = Unit
IsDequeue lower_empty = Unit
IsDequeue lower_threshold = Unit
IsDequeue p = ⊥

-- After an access in a call of `enqueue`: it still carries its index, it has just stored it, it is
-- refused, or it has stored it before.
pub data Entered (p next : Place) (r : ScqRing) : Type 0 where
  onward :
      (e : ℕ)
      → carried p ≡ some e
      → carried next ≡ some e
      → IsEnqueue next
      → inserts p next r ≡ []
      → Entered p next r
  stores :
      (e t : ℕ)
      → carried p ≡ some e
      → next ≡ load_threshold
      → inserts p next r ≡ (t, bit_xor e (wrapping_sub (n_enqueue r) 1)) ∷ []
      → Entered p next r
  refused :
      (e : ℕ)
      → carried p ≡ some e
      → next ≡ enqueued (err queue_finalized)
      → finalized r ≡ true
      → inserts p next r ≡ []
      → Entered p next r
  waiting : carried p ≡ none → next ≡ store_threshold → inserts p next r ≡ [] → Entered p next r
  finished : carried p ≡ none → next ≡ enqueued ok → inserts p next r ≡ [] → Entered p next r

-- After an access in a call of `dequeue`: it goes on, it ends without an index, or it has one.
pub data Removed (p next : Place) : Type 0 where
  onward : IsDequeue next → removes p next ≡ [] → Removed p next
  empty : next ≡ dequeued none → removes p next ≡ [] → Removed p next
  found : (t i : ℕ) → next ≡ dequeued (some i) → removes p next ≡ (t, i) ∷ [] → Removed p next

module _ (spurious : Bool) (r : ScqRing) (z : IsSized r) where
  abbrev Enters : Place → Type 0
  Enters p =
      (next : Place) × (ring : ScqRing) × (step spurious p r ≡ done (next, ring)) × Entered p next r

  abbrev Removes : Place → Type 0
  Removes p =
      (next : Place) × (ring : ScqRing) × (step spurious p r ≡ done (next, ring)) × Removed p next

  by_test_in :
      {p : Place} (b : Bool) (y n : Place) (yr nr : ScqRing)
      → step spurious p r ≡ (if b then done (y, yr) else done (n, nr))
      → Entered p y r
      → Entered p n r
      → Enters p
  by_test_in true y n yr nr e f g = (y, yr, e, f)
  by_test_in false y n yr nr e f g = (n, nr, e, g)

  by_test_out :
      {p : Place} (b : Bool) (y n : Place) (yr nr : ScqRing)
      → step spurious p r ≡ (if b then done (y, yr) else done (n, nr))
      → Removed p y
      → Removed p n
      → Removes p
  by_test_out true y n yr nr e f g = (y, yr, e, f)
  by_test_out false y n yr nr e f g = (n, nr, e, g)

  pub enters : (p : Place) → IsEnqueue p → Enters p
  unfolding step inserts
  enters (claim_tail x) h = (
    load_entry x r.tail,
    record r { tail = wrapping_add r.tail 1 },
    refl,
    onward x refl refl tt refl,
  )
  enters (load_entry x t) h =
      let (entry, e) = loads r t (n_enqueue r) z (n_enqueue_lem r z.small) in
      (
        test_entry r x t entry,
        r,
        rw e refl,
        test_entry_cases r x t entry (λ q. Entered (load_entry x t) q r)
            (after_test_cases r x t entry (λ q. Entered (load_entry x t) q r)
              (onward x refl refl tt refl) (λ o. onward x refl refl tt refl))
            (onward x refl refl tt refl) (onward x refl refl tt refl),
      )
  enters (check_head x t e) h =
      by_test_in {p = check_head x t e} (is_le (lfring_signed_cmp r.head t)) (after_test r x t e)
        (claim_tail x) r r refl
        (after_test_cases r x t e (λ q. Entered (check_head x t e) q r) (onward x refl refl tt refl)
          (λ o. onward x refl refl tt refl))
        (onward x refl refl tt refl)
  enters (check_finalized x t e) h = elim (Bool-cases (finalized r)) [
    | inl shut ↦ (enqueued (err queue_finalized), r, rw shut refl, refused x refl refl shut refl)
    | inr open_ring ↦ (exchange_entry x t e, r, rw open_ring refl, onward x refl refl tt refl)
  ]
  enters (exchange_entry x t e) h =
      let (now, f) = loads r t (n_enqueue r) z (n_enqueue_lem r z.small) in
      elim (Bool-cases (exchanges spurious now e)) [
        | inl swapped ↦ (
          load_threshold,
          record r {
            array =
                set r.array (lfring_map t (n_enqueue r))
                  (bit_xor (modup (shift_left t 1) (n_enqueue r)) x);
          },
          rw (f, swapped) refl,
          stores x t refl refl refl,
        )
        | inr fails ↦ (load_entry x t, r, rw (f, fails) refl, onward x refl refl tt refl)
      ]
  enters load_threshold h =
      by_test_in {p = load_threshold}
        (r.threshold == lfring_threshold3 (lfring_pow2 r.order) (n_enqueue r)) (enqueued ok)
        store_threshold r r refl (finished refl refl refl) (waiting refl refl refl)
  enters store_threshold h = (
    enqueued ok,
    record r { threshold = lfring_threshold3 (lfring_pow2 r.order) (n_enqueue r) },
    refl,
    finished refl refl refl,
  )
  enters outside h = absurd h
  enters (enqueued x) h = absurd h
  enters check_threshold h = absurd h
  enters claim_head h = absurd h
  enters (probe_entry t a) h = absurd h
  enters (take_entry t e) h = absurd h
  enters (swap_entry t a e new) h = absurd h
  enters (load_tail t) h = absurd h
  enters (catch_tail t u) h = absurd h
  enters reload_head h = absurd h
  enters (reload_tail t) h = absurd h
  enters lower_empty h = absurd h
  enters lower_threshold h = absurd h
  enters (dequeued x) h = absurd h

  pub leaves : (p : Place) → IsDequeue p → Removes p
  unfolding step removes
  leaves check_threshold h =
      by_test_out {p = check_threshold} (is_negative r.threshold) (dequeued none) claim_head r r
        refl (empty refl refl) (onward tt refl)
  leaves claim_head h =
      (probe_entry r.head 0, record r { head = wrapping_add r.head 1 }, refl, onward tt refl)
  leaves (probe_entry t a) h =
      let (entry, e) = loads r t (n_dequeue r) z (n_dequeue_lem r z.small) in
      (
        after_probe r t a entry,
        r,
        rw e refl,
        after_probe_cases r t a entry (Removed (probe_entry t a)) (onward tt refl) (onward tt refl)
            (λ k. onward tt refl) (λ k new. onward tt refl),
      )
  leaves (take_entry t e) h =
      let (now, f) = loads r t (n_dequeue r) z (n_dequeue_lem r z.small) in
      let index = bit_and e (wrapping_sub (n_dequeue r) 1) in
      (
        dequeued (some index),
        record r {
          array =
              set r.array (lfring_map t (n_dequeue r)) (bit_or now (wrapping_sub (n_dequeue r) 1));
        },
        rw f refl,
        found t index refl refl,
      )
  leaves (swap_entry t a e new) h =
      let (now, f) = loads r t (n_dequeue r) z (n_dequeue_lem r z.small) in
      elim (Bool-cases (exchanges spurious now e)) [
        | inl swapped ↦ (
          load_tail t,
          record r { array = set r.array (lfring_map t (n_dequeue r)) new },
          rw (f, swapped) refl,
          onward tt refl,
        )
        | inr fails ↦ (probe_entry t a, r, rw (f, fails) refl, onward tt refl)
      ]
  leaves (load_tail t) h =
      by_test_out {p = load_tail t} (is_le (lfring_signed_cmp r.tail (wrapping_add t 1)))
        (catch_tail r.tail (wrapping_add t 1)) lower_threshold r r refl (onward tt refl)
        (onward tt refl)
  leaves (catch_tail t u) h =
      by_test_out {p = catch_tail t u} (exchanges spurious r.tail t) lower_empty reload_head
        (record r { tail = u }) r refl (onward tt refl) (onward tt refl)
  leaves reload_head h = (reload_tail r.head, r, refl, onward tt refl)
  leaves (reload_tail t) h =
      by_test_out {p = reload_tail t} (is_ge (lfring_signed_cmp r.tail t)) lower_empty
        (catch_tail r.tail t) r r refl (onward tt refl) (onward tt refl)
  leaves lower_empty h =
      (dequeued none, record r { threshold = wrapping_sub r.threshold 1 }, refl, empty refl refl)
  leaves lower_threshold h =
      let lowered = record r { threshold = wrapping_sub r.threshold 1 } in
      by_test_out {p = lower_threshold} (is_negative r.threshold || (r.threshold == 0))
        (dequeued none) claim_head lowered lowered refl (empty refl refl) (onward tt refl)
  leaves outside h = absurd h
  leaves (claim_tail x) h = absurd h
  leaves (load_entry x t) h = absurd h
  leaves (check_head x t e) h = absurd h
  leaves (check_finalized x t e) h = absurd h
  leaves (exchange_entry x t e) h = absurd h
  leaves load_threshold h = absurd h
  leaves store_threshold h = absurd h
  leaves (enqueued x) h = absurd h
  leaves (dequeued x) h = absurd h

-- Calls of `enqueue` remove nothing, and those of `dequeue` store nothing.
pub removes-enqueue : (p next : Place) → IsEnqueue p → removes p next ≡ []
unfolding removes
removes-enqueue (claim_tail x) next h = refl
removes-enqueue (load_entry x t) next h = refl
removes-enqueue (check_head x t e) next h = refl
removes-enqueue (check_finalized x t e) next h = refl
removes-enqueue (exchange_entry x t e) next h = refl
removes-enqueue load_threshold next h = refl
removes-enqueue store_threshold next h = refl
removes-enqueue outside next h = absurd h
removes-enqueue (enqueued x) next h = absurd h
removes-enqueue check_threshold next h = absurd h
removes-enqueue claim_head next h = absurd h
removes-enqueue (probe_entry t a) next h = absurd h
removes-enqueue (take_entry t e) next h = absurd h
removes-enqueue (swap_entry t a e new) next h = absurd h
removes-enqueue (load_tail t) next h = absurd h
removes-enqueue (catch_tail t u) next h = absurd h
removes-enqueue reload_head next h = absurd h
removes-enqueue (reload_tail t) next h = absurd h
removes-enqueue lower_empty next h = absurd h
removes-enqueue lower_threshold next h = absurd h
removes-enqueue (dequeued x) next h = absurd h

pub inserts-dequeue : (p next : Place) (r : ScqRing) → IsDequeue p → inserts p next r ≡ []
unfolding inserts
inserts-dequeue check_threshold next r h = refl
inserts-dequeue claim_head next r h = refl
inserts-dequeue (probe_entry t a) next r h = refl
inserts-dequeue (take_entry t e) next r h = refl
inserts-dequeue (swap_entry t a e new) next r h = refl
inserts-dequeue (load_tail t) next r h = refl
inserts-dequeue (catch_tail t u) next r h = refl
inserts-dequeue reload_head next r h = refl
inserts-dequeue (reload_tail t) next r h = refl
inserts-dequeue lower_empty next r h = refl
inserts-dequeue lower_threshold next r h = refl
inserts-dequeue outside next r h = absurd h
inserts-dequeue (claim_tail x) next r h = absurd h
inserts-dequeue (load_entry x t) next r h = absurd h
inserts-dequeue (check_head x t e) next r h = absurd h
inserts-dequeue (check_finalized x t e) next r h = absurd h
inserts-dequeue (exchange_entry x t e) next r h = absurd h
inserts-dequeue load_threshold next r h = absurd h
inserts-dequeue store_threshold next r h = absurd h
inserts-dequeue (enqueued x) next r h = absurd h
inserts-dequeue (dequeued x) next r h = absurd h
