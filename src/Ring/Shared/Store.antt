-- ===== src/Ring/Shared/Store.antt =====
-- The exchange of `enqueue`, which stores an index for a ticket.
use lfqueue.Base.{ℕ, ◌-◌, ◌%◌, ◌≤◌, ◌<◌, ◌≡◌, ◌≢◌, arith, ap, sym, ◌∙◌, subst, dec_lt}
use lfqueue.Base.{none, some, ◌∷◌, set, length-set, ◌⊎◌, inl, inr}
use lfqueue.Ring.Shared.{exchange_entry, load_threshold}
use lfqueue.Ring.Shared.Fields.{age, idx, safe, age_of, IsWord}
use lfqueue.Ring.Shared.View.{
  View, Has, HasTicket, ticket_of_Has, In, slot-set_self, at, Affects, same_ticket, age_later, Old,
  Unpassed, Holding,
}
use lfqueue.Ring.Shared.Sound.{IsSound, Turns, slot_cases, index_of}

-- A word that carries the index `i` for the ticket `t`.
pub record IsLive (n t i x : ℕ) : Type 0 where
  pub age_is : age n x ≡ age_of n t
  pub idx_is : idx n x ≡ i
  pub is_word : IsWord x

module _ (n : ℕ) (v : View) (t i e x : ℕ) (s : IsSound n v) (inside : t % n < n) (pos : 0 < n)
    (fits : i < n - 1) (holds : Holding n v t) (old : Old n v t e) (unpassed : Unpassed n v t e)
    (here : at n v t ≡ e) (new : IsLive n t i x) where
  abbrev after : View
  after = record v { array = set v.array (t % n) x; stored = (t, i) ∷ v.stored }

  at_cases :
      (u : ℕ)
      → (at n after u ≡ at n v u) ⊎ ((u % n ≡ t % n) × (at n after u ≡ x) × (at n v u ≡ at n v t))
  at_cases u = slot_cases n v.array t x u (omega (arith, s.size))

  at_self : at n after t ≡ x
  at_self = slot-set_self v.array (t % n) x (omega (arith, s.size))

  not_passed : (u : ℕ) → In u v.passed → u % n ≡ t % n → t ≤ u → ⊥
  not_passed u h m le = omega (arith, unpassed u h m le, ap (age n) here)

  empty_before : idx n (at n v t) ≡ n - 1
  empty_before = ap (idx n) here ∙ old.0

  age_before : age n (at n v t) < age_of n t
  age_before = omega (arith, ap (age n) here, old.1)

  affects : Affects n v after (some t) none
  affects = record {
    tail_up = omega arith;
    head_up = omega arith;
    stores = λ u h. elim h [ inl same ↦ inr (ap some (sym same)) | inr before ↦ inl before ];
    removes = λ u h. inl h;
    passes = λ u h. inl h;
    ages = λ u. elim (at_cases u) [
      | inl same ↦ omega (arith, ap (age n) same)
      | inr c ↦ omega (arith, ap (age n) (c.1), ap (age n) (c.2), new.age_is, age_before)
    ];
    refills = λ u. elim (at_cases u) [
      | inl same ↦ inl same
      | inr c ↦
          inr (inr (omega (arith, ap (age n) (c.1), ap (age n) (c.2), new.age_is, age_before)))
    ];
    keeps = λ u a f o. elim (at_cases u) [
      | inl same ↦ (ap (age n) same, ap (idx n) same)
      | inr c ↦ absurd (f (ap (idx n) (c.2) ∙ empty_before))
    ];
    empties = λ u a f. elim (at_cases u) [
      | inl same ↦ inl same
      | inr c ↦ absurd (omega (arith, ap (idx n) (c.1), new.idx_is))
    ];
  }

  behind :
      (u : ℕ) → In u v.passed → (age_of n u ≤ age n (at n after u)) ⊎ (safe n (at n after u) ≡ 0)
  behind u h = elim (at_cases u) [
    | inl same ↦ subst (λ y. (age_of n u ≤ age n y) ⊎ (safe n y ≡ 0)) (sym same) (s.behind u h)
    | inr c ↦ elim (dec_lt u t) [
      | yes lt ↦
          inl (omega (arith, age_later n u t pos (omega arith), ap (age n) (c.1), new.age_is))
      | no ge ↦ absurd (not_passed u h (c.0) (omega arith))
    ]
  ]

  unremoved : ¬ HasTicket t v.removed
  unremoved h =
      let (j, m) = index_of v.removed t h in
      holds.1 (ticket_of_Has v.stored t j (s.removed_stored t j m))

  filled :
      (u : ℕ)
      → age n (at n after u) ≡ age_of n u
      → idx n (at n after u) ≢ n - 1
      → Has u (idx n (at n after u)) after.stored × ¬ HasTicket u v.removed
  filled u a f = elim (at_cases u) [
    | inl same ↦
        let (h, r) = s.filled u (ap (age n) (sym same) ∙ a) (λ k. f (ap (idx n) same ∙ k)) in
        (inr (subst (λ j. Has u j v.stored) (ap (idx n) (sym same)) h), r)
    | inr c ↦
        let same : u ≡ t = same_ticket n u t (c.0) (sym a ∙ ap (age n) (c.1) ∙ new.age_is) in
        (
          inl (same, ap (idx n) (c.1) ∙ new.idx_is),
          subst (λ y. ¬ HasTicket y v.removed) (sym same) unremoved,
        )
  ]

  kept :
      (u j : ℕ)
      → Has u j after.stored
      → HasTicket u v.removed
        ⊎ ((age n (at n after u) ≡ age_of n u) × (idx n (at n after u) ≡ j) × ¬ In u v.passed)
  kept u j (inl h) = inr (
    subst (λ y. age n (at n after y) ≡ age_of n y) (sym (h.0)) (ap (age n) at_self ∙ new.age_is),
    subst (λ y. idx n (at n after y) ≡ j) (sym (h.0)) (ap (idx n) at_self ∙ new.idx_is ∙ sym (h.1)),
    λ k. not_passed u k (ap (λ y. y % n) (h.0)) (omega (arith, h.0)),
  )
  kept u j (inr h) = elim (s.kept u j h) [
    | inl r ↦ inl r
    | inr k ↦ elim (at_cases u) [
      | inl same ↦ inr (ap (age n) same ∙ k.0, ap (idx n) same ∙ k.1, k.2)
      | inr c ↦ absurd (omega (arith, s.stored_index u j h, k.1, ap (idx n) (c.2), empty_before))
    ]
  ]

  pub stores_entry : (eidx : ℕ) → Turns n v (exchange_entry eidx t e) after load_threshold
  stores_entry eidx = record {
    affects = affects;
    sound = record {
      size = length-set v.array (t % n) x ∙ s.size;
      words = λ u. elim (at_cases u) [
        | inl same ↦ subst IsWord (sym same) (s.words u)
        | inr c ↦ subst IsWord (sym (c.1)) new.is_word
      ];
      stored_below = λ u h. elim h [
        | inl same ↦ omega (arith, holds.0)
        | inr before ↦ s.stored_below u before
      ];
      stored_index = λ u j h. elim h [
        | inl same ↦ omega (arith, same.1)
        | inr before ↦ s.stored_index u j before
      ];
      stored_once = (holds.1, s.stored_once);
      removed_below = s.removed_below;
      removed_stored = λ u j h. inr (s.removed_stored u j h);
      removed_once = s.removed_once;
      passed_below = s.passed_below;
      behind = behind;
      filled = filled;
      emptied = λ u a f. elim (at_cases u) [
        | inl same ↦ s.emptied u (ap (age n) (sym same) ∙ a) (ap (idx n) (sym same) ∙ f)
        | inr c ↦ absurd (omega (arith, ap (idx n) (c.1), new.idx_is))
      ];
      kept = kept;
    };
    good = tt;
    enq_new = λ u h. absurd (cc);
    deq_new = λ u h. absurd (cc);
    claimed = λ u h. inl h;
    released = λ u h. absurd (cc);
    more_passed = λ u h. h;
    more_removed = λ u h. h;
  }
