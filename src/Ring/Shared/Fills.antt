-- ===== src/Ring/Shared/Fills.antt =====
-- The accesses of `enqueue` to a slot are turns of the thread.
use lfqueue.Base.{ℕ, suc, ◌-◌, ◌%◌, ◌^◌, ◌≤◌, ◌<◌, ◌≡◌, refl, arith, ap, sym, ◌∙◌, subst}
use lfqueue.Base.{Bool, Bool-cases, none, some, List, ◌∷◌, length, set, bit_xor, inl, inr}
use lfqueue.Word.{wrapping_sub, shift_left}
use lfqueue.Lfring.{lfring_map, modup, lfring_signed_cmp, is_le}
use lfqueue.Lfring.Laws.{lfring_map_lem}
use lfqueue.Ring.{ScqRing, exchanges}
use lfqueue.Ring.Holds.{slots, sizes}
use lfqueue.Ring.Entry.{live, live_word, ticket_cycle}
use lfqueue.Word.Fields.{bit_xor_ones}
use lfqueue.Ring.Shared.{
  Place, claim_tail, load_entry, check_head, exchange_entry, load_threshold, n_enqueue, step,
  inserts, removes, passes, test_entry, after_test,
}
use lfqueue.Ring.Shared.Steps.{IsSized, n_enqueue_lem}
use lfqueue.Ring.Shared.Access.{exchanged, signed_le, after_test_cases}
use lfqueue.Ring.Shared.Fields.{age, idx, IsWord, live_fields}
use lfqueue.Ring.Shared.View.{View, enq, deq, at, IsGood}
use lfqueue.Ring.Shared.Sound.{IsSound, Turns}
use lfqueue.Ring.Shared.Store.{stores_entry}
use lfqueue.Ring.Shared.Tested.{loads_slot, tested, Unpassed-safe, Unpassed-ahead}
use lfqueue.Ring.Shared.Moves.{view, Moved, reads}

module _ (spurious : Bool) (r : ScqRing) (stored removed : List (ℕ × ℕ)) (passed : List ℕ) where
  abbrev v : View
  v = view r stored removed passed

  abbrev n : ℕ
  n = slots r

  module _ (s : IsSound n v) (z : IsSized r) (young_head : r.head < 2 ^ 61)
      (young_tail : r.tail < 2 ^ 61) where
    pos : 0 < n
    pos = omega (arith, sizes r.order z.small)

    few : suc r.order ≤ 60
    few = omega (arith, z.small)

    inside : (t : ℕ) → t % n < n
    inside t = omega (arith, pos)

    here : (t : ℕ) → t % n < length r.array
    here t = omega (arith, inside t, z.size)

    -- A thread with an entry that it may exchange.
    after_test_moves :
        (p : Place) (eidx t e : ℕ)
        → IsGood n v (exchange_entry eidx t e)
        → IsGood n v (after_test r eidx t e)
          × (enq (after_test r eidx t e) ≡ some t)
          × (deq (after_test r eidx t e) ≡ none)
    after_test_moves p eidx t e g =
        after_test_cases r eidx t e (λ q. IsGood n v q × (enq q ≡ some t) × (deq q ≡ none))
          (g, refl, refl) (λ o. (g, refl, refl))

    pub loads_entry :
        (eidx t : ℕ)
        → IsGood n v (load_entry eidx t)
        → Moved spurious r stored removed passed (load_entry eidx t)
    unfolding step inserts removes passes
    loads_entry eidx t g =
        let e = at n v t in
        let next = test_entry r eidx t e in
        let known : IsGood n v next
            × ((u : ℕ) → enq next ≡ some u → some t ≡ some u)
            × (deq next ≡ none) =
          tested r z eidx t e
            (λ q. IsGood n v q × ((u : ℕ) → enq q ≡ some u → some t ≡ some u) × (deq q ≡ none))
            (omega (arith, (g.1).0)) (s.words t)
            (λ lt empty one.
              let (k, a, b) =
                after_test_moves (load_entry eidx t) eidx t e
                  (g.0, g.1, (empty, lt, inl refl), Unpassed-safe n v s pos t e refl one lt) in
              (k, λ u h. sym a ∙ h, b))
            (λ lt empty. ((g.0, g.1, (empty, lt, inl refl)), λ u h. h, refl))
            (g.0, λ u h. absurd (cc), refl) in
        reads spurious r stored removed passed s {p = load_entry eidx t} next
          (rw (loads_slot r z t (n_enqueue r) (n_enqueue_lem r z.small)) refl) refl refl refl
          (known.0) (known.1) (λ u h. absurd (let no : none ≡ some u = sym (known.2) ∙ h in cc))
          (λ u h. absurd (cc))

    pub checks_head :
        (eidx t e : ℕ)
        → IsGood n v (check_head eidx t e)
        → Moved spurious r stored removed passed (check_head eidx t e)
    unfolding step inserts removes passes
    checks_head eidx t e g = elim (Bool-cases (is_le (lfring_signed_cmp r.head t))) [
      | inl le ↦
          let (k, a, b) = after_test_moves (check_head eidx t e) eidx t e (
            g.0,
            g.1,
            g.2,
            Unpassed-ahead n v s pos t e
                (signed_le r.head t (omega arith) (omega (arith, (g.1).0)) le),
          ) in
          reads spurious r stored removed passed s {p = check_head eidx t e} (after_test r eidx t e)
            (rw le refl) refl refl refl k (λ u h. sym a ∙ h)
            (λ u h. absurd (let no : none ≡ some u = sym b ∙ h in cc)) (λ u h. absurd (cc))
      | inr gt ↦
          reads spurious r stored removed passed s {p = check_head eidx t e} (claim_tail eidx)
            (rw gt refl) refl refl refl (g.0) (λ u h. absurd (cc)) (λ u h. h) (λ u h. h)
    ]

    pub exchanges_entry :
        (eidx t e : ℕ)
        → IsGood n v (exchange_entry eidx t e)
        → Moved spurious r stored removed passed (exchange_entry eidx t e)
    unfolding step inserts removes passes
    exchanges_entry eidx t e g =
        let loaded = loads_slot r z t (n_enqueue r) (n_enqueue_lem r z.small) in
        elim (Bool-cases (exchanges spurious (at n v t) e)) [
          | inr fails ↦
              reads spurious r stored removed passed s {p = exchange_entry eidx t e}
                (load_entry eidx t) (rw (loaded, fails) refl) refl refl refl (g.0, g.1) (λ u h. h)
                (λ u h. h) (λ u h. h)
          | inl swapped ↦
              let m = n_enqueue r in
              let (i, fits, turned) = g.0 in
              let x = bit_xor (modup (shift_left t 1) m) eidx in
              let same : m ≡ n = n_enqueue_lem r z.small in
              let back : bit_xor eidx (wrapping_sub m 1) ≡ i = turned_back eidx i fits turned in
              let word : x ≡ live n t i =
                stored_word eidx t i (omega (arith, (g.1).0)) fits turned in
              let f = live_fields (suc r.order) few t i (omega (arith, (g.1).0)) (omega arith) in
              let place : lfring_map t m ≡ t % n =
                rw same (lfring_map_lem (suc r.order) t (omega (arith, z.small))) in
              record {
                next = load_threshold;
                ring = record r { array = set r.array (lfring_map t m) x };
                steps = rw (loaded, swapped) refl;
                turns =
                    subst
                      (λ (j : ℕ).
                        Turns n v (exchange_entry eidx t e)
                          (view (record r { array = set r.array j x })
                            ((t, bit_xor eidx (wrapping_sub m 1)) ∷ stored) removed passed)
                          load_threshold)
                      (sym place)
                      (subst
                        (λ (y : ℕ).
                          Turns n v (exchange_entry eidx t e)
                            (view (record r { array = set r.array (t % n) x }) ((t, y) ∷ stored)
                              removed passed)
                            load_threshold)
                        (sym back)
                        (stores_entry n v t i e x s (inside t) pos fits (g.1) (g.2) (g.3)
                          (exchanged spurious (at n v t) e swapped)
                          (record {
                            age_is = ap (age n) word ∙ f.0;
                            idx_is = ap (idx n) word ∙ f.2;
                            is_word = subst IsWord (sym word) (f.3);
                          })
                          eidx));
              }
        ]
      where
        masked : wrapping_sub (n_enqueue r) 1 ≡ n - 1
        masked = rw (n_enqueue_lem r z.small) (omega (arith, sizes r.order z.small))

        turned_back :
            (eidx i : ℕ)
            → i < n - 1
            → eidx ≡ bit_xor i (n - 1)
            → bit_xor eidx (wrapping_sub (n_enqueue r) 1) ≡ i
        turned_back eidx i fits turned =
            rw (masked, turned, bit_xor_ones (suc r.order) i (omega arith))
              (bit_xor_ones (suc r.order) (n - 1 - i) (omega arith) ∙ omega arith)

        stored_word :
            (eidx t i : ℕ)
            → t < 2 ^ 63
            → i < n - 1
            → eidx ≡ bit_xor i (n - 1)
            → bit_xor (modup (shift_left t 1) (n_enqueue r)) eidx ≡ live n t i
        stored_word eidx t i young fits turned =
            rw
              (
                n_enqueue_lem r z.small,
                ticket_cycle (suc r.order) (omega (arith, z.small)) t young,
                turned,
              )
              (live_word (suc r.order) (omega (arith, z.small)) t i (omega arith))
