-- ===== src/Ring/Shared/Take.antt =====
-- The store of `dequeue` that empties the slot of its ticket.
use lfqueue.Base.{ℕ, ◌-◌, ◌%◌, ◌≤◌, ◌<◌, ◌≡◌, ◌≢◌, arith, ap, sym, ◌∙◌, subst}
use lfqueue.Base.{Option, none, some, ◌∷◌, set, length-set, ◌⊎◌, inl, inr}
use lfqueue.Ring.Shared.{take_entry, dequeued}
use lfqueue.Ring.Shared.Fields.{age, idx, safe, age_of, IsWord}
use lfqueue.Ring.Shared.View.{
  View, Has, HasTicket, In, slot-set_self, at, Affects, Claims, same_ticket,
}
use lfqueue.Ring.Shared.Sound.{IsSound, Turns, slot_cases}

-- A word that says that the slot is empty, in the place of `w`.
pub record IsTaken (n w x : ℕ) : Type 0 where
  pub age_is : age n x ≡ age n w
  pub safe_is : safe n x ≡ safe n w
  pub idx_is : idx n x ≡ n - 1
  pub is_word : IsWord x

module _ (n : ℕ) (v : View) (t i x : ℕ) (s : IsSound n v) (inside : t % n < n)
    (claims : Claims n v t) (mine : age n (at n v t) ≡ age_of n t) (index : idx n (at n v t) ≡ i)
    (new : IsTaken n (at n v t) x) where
  abbrev after : View
  after = record v { array = set v.array (t % n) x; removed = (t, i) ∷ v.removed }

  at_cases :
      (u : ℕ)
      → (at n after u ≡ at n v u) ⊎ ((u % n ≡ t % n) × (at n after u ≡ x) × (at n v u ≡ at n v t))
  at_cases u = slot_cases n v.array t x u (omega (arith, s.size))

  full : idx n (at n v t) ≢ n - 1
  full = claims.not_emptied mine

  same_age : (u : ℕ) → at n v u ≡ at n v t → age n (at n v u) ≡ age_of n t
  same_age u same = ap (age n) same ∙ mine

  affects : Affects n v after none (some t)
  affects = record {
    tail_up = omega arith;
    head_up = omega arith;
    stores = λ u h. inl h;
    removes = λ u h. elim h [ inl same ↦ inr (ap some (sym same)) | inr before ↦ inl before ];
    passes = λ u h. inl h;
    ages = λ u. elim (at_cases u) [
      | inl same ↦ omega (arith, ap (age n) same)
      | inr c ↦ omega (arith, ap (age n) (c.1), same_age u (c.2), new.age_is, mine)
    ];
    refills = λ u. elim (at_cases u) [
      | inl same ↦ inl same
      | inr c ↦ inr (inl (λ e. full (ap (idx n) (sym (c.2)) ∙ e)))
    ];
    keeps = λ u a f o. elim (at_cases u) [
      | inl same ↦ (ap (age n) same, ap (idx n) same)
      | inr c ↦ absurd (o (ap some (sym (same_ticket n u t (c.0) (sym a ∙ same_age u (c.2))))))
    ];
    empties = λ u a f. elim (at_cases u) [
      | inl same ↦ inl same
      | inr c ↦
          inr
            (ap some (sym (same_ticket n u t (c.0) (sym a ∙ ap (age n) (c.1) ∙ new.age_is ∙ mine))))
    ];
  }

  behind :
      (u : ℕ) → In u v.passed → (age_of n u ≤ age n (at n after u)) ⊎ (safe n (at n after u) ≡ 0)
  behind u h = elim (at_cases u) [
    | inl same ↦ subst (λ y. (age_of n u ≤ age n y) ⊎ (safe n y ≡ 0)) (sym same) (s.behind u h)
    | inr c ↦ elim (s.behind u h) [
      | inl le ↦ inl (omega (arith, ap (age n) (c.1), ap (age n) (c.2), new.age_is))
      | inr z ↦ inr (ap (safe n) (c.1) ∙ new.safe_is ∙ ap (safe n) (sym (c.2)) ∙ z)
    ]
  ]

  filled :
      (u : ℕ)
      → age n (at n after u) ≡ age_of n u
      → idx n (at n after u) ≢ n - 1
      → Has u (idx n (at n after u)) v.stored × ¬ HasTicket u after.removed
  filled u a f = elim (at_cases u) [
    | inl same ↦
        let (h, r) = s.filled u (ap (age n) (sym same) ∙ a) (λ k. f (ap (idx n) same ∙ k)) in
        (
          subst (λ j. Has u j v.stored) (ap (idx n) (sym same)) h,
          λ g. elim g [
            | inl me ↦ f (
                subst (λ y. idx n (at n after y) ≡ n - 1) (sym me)
                  (ap (idx n) (slot-set_self v.array (t % n) x (omega (arith, s.size)))
                    ∙ new.idx_is))
            | inr before ↦ r before
          ],
        )
    | inr c ↦ absurd (f (ap (idx n) (c.1) ∙ new.idx_is))
  ]

  kept :
      (u j : ℕ)
      → Has u j v.stored
      → HasTicket u after.removed
        ⊎ ((age n (at n after u) ≡ age_of n u) × (idx n (at n after u) ≡ j) × ¬ In u v.passed)
  kept u j h = elim (s.kept u j h) [
    | inl r ↦ inl (inr r)
    | inr k ↦ elim (at_cases u) [
      | inl same ↦ inr (ap (age n) same ∙ k.0, ap (idx n) same ∙ k.1, k.2)
      | inr c ↦ inl (inl (same_ticket n u t (c.0) (sym (k.0) ∙ same_age u (c.2))))
    ]
  ]

  removed_stored : (u j : ℕ) → Has u j after.removed → Has u j v.stored
  removed_stored u j (inl h) =
      subst (λ y. Has y j v.stored) (sym (h.0))
        (subst (λ y. Has t y v.stored) (index ∙ sym (h.1)) ((s.filled t mine full).0))
  removed_stored u j (inr h) = s.removed_stored u j h

  pub takes_entry : (e : ℕ) (result : Option ℕ) → Turns n v (take_entry t e) after (dequeued result)
  takes_entry e result = record {
    affects = affects;
    sound = record {
      size = length-set v.array (t % n) x ∙ s.size;
      words = λ u. elim (at_cases u) [
        | inl same ↦ subst IsWord (sym same) (s.words u)
        | inr c ↦ subst IsWord (sym (c.1)) new.is_word
      ];
      stored_below = s.stored_below;
      stored_index = s.stored_index;
      stored_once = s.stored_once;
      removed_below = λ u h. elim h [
        | inl same ↦ omega (arith, claims.given)
        | inr before ↦ s.removed_below u before
      ];
      removed_stored = removed_stored;
      removed_once = (claims.unremoved, s.removed_once);
      passed_below = s.passed_below;
      behind = behind;
      filled = filled;
      emptied = λ u a f. elim (at_cases u) [
        | inl same ↦ s.emptied u (ap (age n) (sym same) ∙ a) (ap (idx n) (sym same) ∙ f)
        | inr c ↦
            let me = same_ticket n u t (c.0) (sym a ∙ ap (age n) (c.1) ∙ new.age_is ∙ mine) in
            omega (arith, me, claims.given)
      ];
      kept = kept;
    };
    good = tt;
    enq_new = λ u h. absurd (cc);
    deq_new = λ u h. absurd (cc);
    claimed = λ u h. inl h;
    released = λ u h. inr (inr (inl (let same : t ≡ u = cc in sym same)));
    more_passed = λ u h. h;
    more_removed = λ u h. inr h;
  }
