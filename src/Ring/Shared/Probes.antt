-- ===== src/Ring/Shared/Probes.antt =====
-- The accesses of `dequeue` to a slot are turns of the thread.
use lfqueue.Base.{ℕ, suc, ◌-◌, ◌%◌, ◌^◌, ◌≤◌, ◌<◌, ◌≡◌, refl, arith, ap, sym, ◌∙◌, subst}
use lfqueue.Base.{
  Bool, Bool-cases, some, List, ◌∷◌, length-set, set, done, bit_or, bit_and, inl, inr,
}
use lfqueue.Word.{wrapping_sub}
use lfqueue.Lfring.{lfring_map}
use lfqueue.Lfring.Laws.{lfring_map_lem}
use lfqueue.Ring.{ScqRing, exchanges}
use lfqueue.Ring.Holds.{slots, sizes}
use lfqueue.Word.Fields.{bit_and_mask}
use lfqueue.Ring.Shared.{
  probe_entry, take_entry, swap_entry, load_tail, dequeued, n_dequeue, step, inserts, removes,
  passes,
}
use lfqueue.Ring.Shared.Steps.{IsSized, n_dequeue_lem}
use lfqueue.Ring.Shared.Access.{exchanged}
use lfqueue.Ring.Shared.Fields.{age, idx, safe, age_of, IsWord, taken_fields}
use lfqueue.Ring.Shared.Looks.{Swapped, used_look}
use lfqueue.Ring.Shared.View.{View, slot, slot-set_self, at, IsGood, Claims}
use lfqueue.Ring.Shared.Sound.{IsSound, Turns, slot_cases}
use lfqueue.Ring.Shared.Take.{takes_entry}
use lfqueue.Ring.Shared.Pass.{passes_ticket}
use lfqueue.Ring.Shared.Tested.{loads_slot, probed}
use lfqueue.Ring.Shared.Moves.{view, Moved, reads}

module _ (spurious : Bool) (r : ScqRing) (stored removed : List (ℕ × ℕ)) (passed : List ℕ) where
  abbrev v : View
  v = view r stored removed passed

  abbrev n : ℕ
  n = slots r

  module _ (s : IsSound n v) (z : IsSized r) (young_head : r.head < 2 ^ 61) where
    pos : 0 < n
    pos = omega (arith, sizes r.order z.small)

    few : suc r.order ≤ 60
    few = omega (arith, z.small)

    inside : (t : ℕ) → t % n < n
    inside t = omega (arith, pos)

    place : (t : ℕ) → lfring_map t (n_dequeue r) ≡ t % n
    place t = rw (n_dequeue_lem r z.small) (lfring_map_lem (suc r.order) t (omega (arith, z.small)))

    masked : wrapping_sub (n_dequeue r) 1 ≡ n - 1
    masked = rw (n_dequeue_lem r z.small) (omega (arith, sizes r.order z.small))

    pub probes_entry :
        (t a : ℕ) → Claims n v t → Moved spurious r stored removed passed (probe_entry t a)
    unfolding step inserts removes passes
    probes_entry t a c =
        let e = at n v t in
        probed r z t a e
          (λ q.
            (step spurious (probe_entry t a) r ≡ done (q, r))
            → Moved spurious r stored removed passed (probe_entry t a))
          (omega (arith, c.given)) (s.words t)
          (λ mine st.
            reads spurious r stored removed passed s {p = probe_entry t a} (take_entry t e) st refl
              refl refl (c, mine, refl) (λ u h. h) (λ u h. h) (λ u h. h))
          (λ other over st. record {
            next = load_tail t;
            ring = r;
            steps = st;
            turns =
                passes_ticket n v t r.array s c s.size (λ u. inl refl) other over (probe_entry t a)
                  refl refl;
          })
          (λ k st.
            reads spurious r stored removed passed s {p = probe_entry t a} (probe_entry t k) st refl
              refl refl c (λ u h. h) (λ u h. h) (λ u h. h))
          (λ k new w lt sw st.
            reads spurious r stored removed passed s {p = probe_entry t a} (swap_entry t k e new) st
              refl refl refl (c, w, lt, sw) (λ u h. h) (λ u h. h) (λ u h. h))
          (rw (loads_slot r z t (n_dequeue r) (n_dequeue_lem r z.small)) refl)

    pub empties_entry :
        (t e : ℕ)
        → IsGood n v (take_entry t e)
        → Moved spurious r stored removed passed (take_entry t e)
    unfolding step inserts removes passes
    empties_entry t e (c, mine, same) =
        let mask = wrapping_sub (n_dequeue r) 1 in
        let x = bit_or (at n v t) mask in
        let below =
          used_look (suc r.order) few (at n v t) t (s.words t) (omega (arith, c.given))
            (c.not_emptied mine) in
        let f = taken_fields (suc r.order) few (at n v t) below in
        let word : x ≡ bit_or (at n v t) (n - 1) = ap (bit_or (at n v t)) masked in
        let index : bit_and e mask ≡ idx n e =
          ap (bit_and e) masked ∙ bit_and_mask (suc r.order) e in
        record {
          next = dequeued (some (bit_and e mask));
          ring = record r { array = set r.array (lfring_map t (n_dequeue r)) x };
          steps = rw (loads_slot r z t (n_dequeue r) (n_dequeue_lem r z.small)) refl;
          turns =
              subst
                (λ (j : ℕ).
                  Turns n v (take_entry t e)
                    (view (record r { array = set r.array j x }) stored
                      ((t, bit_and e mask) ∷ removed) passed)
                    (dequeued (some (bit_and e mask))))
                (sym (place t))
                (takes_entry n v t (bit_and e mask) x s (inside t) c mine (same ∙ sym index)
                  (record {
                    age_is = ap (age n) word ∙ f.0;
                    safe_is = ap (safe n) word ∙ f.1;
                    idx_is = ap (idx n) word ∙ f.2;
                    is_word = subst IsWord (sym word) (inr (f.3));
                  })
                  e (some (bit_and e mask)));
        }

    pub swaps_entry :
        (t a e new : ℕ)
        → IsGood n v (swap_entry t a e new)
        → Moved spurious r stored removed passed (swap_entry t a e new)
    unfolding step inserts removes passes
    swaps_entry t a e new (c, w, lt, sw) =
        let loaded = loads_slot r z t (n_dequeue r) (n_dequeue_lem r z.small) in
        elim (Bool-cases (exchanges spurious (at n v t) e)) [
          | inr fails ↦
              reads spurious r stored removed passed s {p = swap_entry t a e new} (probe_entry t a)
                (rw (loaded, fails) refl) refl refl refl c (λ u h. h) (λ u h. h) (λ u h. h)
          | inl swapped ↦
              let here : at n v t ≡ e = exchanged spurious (at n v t) e swapped in
              let array = set r.array (t % n) new in
              let self : slot array (t % n) ≡ new =
                slot-set_self r.array (t % n) new (omega (arith, inside t, z.size)) in
              let old : age n (at n v t) < age_of n t = omega (arith, ap (age n) here) in
              record {
                next = load_tail t;
                ring = record r { array = set r.array (lfring_map t (n_dequeue r)) new };
                steps = rw (loaded, swapped) refl;
                turns =
                    subst
                      (λ (j : ℕ).
                        Turns n v (swap_entry t a e new)
                          (view (record r { array = set r.array j new }) stored removed
                            (t ∷ passed))
                          (load_tail t))
                      (sym (place t))
                      (passes_ticket n v t array s c (length-set r.array (t % n) new ∙ z.size)
                        (λ u.
                          elim (slot_cases n r.array t new u (omega (arith, inside t, z.size))) [
                            | inl same ↦ inl same
                            | inr k ↦ inr (
                              new,
                              k.0,
                              k.1,
                              k.2,
                              w,
                              old,
                              subst (λ y. Swapped n t y new) (sym here) sw,
                            )
                          ])
                        (λ same. omega (arith, old, same))
                        (elim sw [
                          | inl f ↦ inr (
                            (λ h. f.0 (sym (f.3) ∙ ap (idx n) (sym self) ∙ h)),
                            ap (safe n) self ∙ f.2,
                          )
                          | inr f ↦ inl (omega (arith, ap (age n) self, f.1))
                        ])
                        (swap_entry t a e new) refl refl);
              }
        ]
