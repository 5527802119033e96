-- ===== src/Ring/Shared/Pass.antt =====
-- A round of `dequeue` that goes on without an index, with or without an exchange of the entry.
use lfqueue.Base.{ℕ, ◌-◌, ◌%◌, ◌≤◌, ◌<◌, ◌≡◌, ◌≢◌, arith, ap, sym, ◌∙◌, subst}
use lfqueue.Base.{none, some, List, ◌∷◌, length, ◌⊎◌, inl, inr}
use lfqueue.Ring.Shared.{Place, load_tail}
use lfqueue.Ring.Shared.Fields.{age, idx, safe, age_of, IsWord}
use lfqueue.Ring.Shared.Looks.{Swapped}
use lfqueue.Ring.Shared.View.{
  View, Has, HasTicket, In, slot, enq, deq, at, Affects, Claims, same_ticket,
}
use lfqueue.Ring.Shared.Sound.{IsSound, Turns}

-- After the exchange the slot of the ticket has the word `x`.
abbrev pub Changed : ℕ → View → ℕ → List ℕ → ℕ → Type 0
Changed n v t array u =
    (x : ℕ) × (u % n ≡ t % n)
    × (slot array (u % n) ≡ x)
    × (at n v u ≡ at n v t)
    × IsWord x
    × (age n (at n v t) < age_of n t)
    × Swapped n t (at n v t) x

module _ (n : ℕ) (v : View) (t : ℕ) (array : List ℕ) (s : IsSound n v) (claims : Claims n v t)
    (size : length array ≡ n)
    (cases : (u : ℕ) → (slot array (u % n) ≡ at n v u) ⊎ Changed n v t array u)
    (other : age n (at n v t) ≢ age_of n t)
    (over : (age_of n t ≤ age n (slot array (t % n)))
      ⊎ ((idx n (slot array (t % n)) ≢ n - 1) × (safe n (slot array (t % n)) ≡ 0))) where
  abbrev after : View
  after = record v { array = array; passed = t ∷ v.passed }

  not_mine : (u : ℕ) → age n (at n v u) ≡ age_of n u → u ≢ t
  not_mine u a same = other (subst (λ y. age n (at n v y) ≡ age_of n y) same a)

  affects : Affects n v after none (some t)
  affects = record {
    tail_up = omega arith;
    head_up = omega arith;
    stores = λ u h. inl h;
    removes = λ u h. inl h;
    passes = λ u h. elim h [
      | inl me ↦ inr (
        ap some (sym me),
        elim over [
          | inl le ↦ inl (subst (λ y. age_of n y ≤ age n (at n after y)) (sym me) le)
          | inr f ↦ inr (subst (λ y. idx n (at n after y) ≢ n - 1) (sym me) (f.0))
        ],
      )
      | inr before ↦ inl before
    ];
    ages = λ u. elim (cases u) [
      | inl same ↦ omega (arith, ap (age n) same)
      | inr (x, m, e, b, w, lt, inl f) ↦ omega (arith, ap (age n) e, ap (age n) b, f.1)
      | inr (x, m, e, b, w, lt, inr f) ↦ omega (arith, ap (age n) e, ap (age n) b, f.1)
    ];
    refills = λ u. elim (cases u) [
      | inl same ↦ inl same
      | inr (x, m, e, b, w, lt, inl f) ↦ inr (inl (λ k. f.0 (ap (idx n) (sym b) ∙ k)))
      | inr (x, m, e, b, w, lt, inr f) ↦ inr (inr (omega (arith, ap (age n) e, ap (age n) b, f.1)))
    ];
    keeps = λ u a f o. elim (cases u) [
      | inl same ↦ (ap (age n) same, ap (idx n) same)
      | inr (x, m, e, b, w, lt, inl g) ↦
          (ap (age n) e ∙ g.1 ∙ ap (age n) (sym b), ap (idx n) e ∙ g.3 ∙ ap (idx n) (sym b))
      | inr (x, m, e, b, w, lt, inr g) ↦ absurd (f (ap (idx n) b ∙ g.0))
    ];
    empties = λ u a f. elim (cases u) [
      | inl same ↦ inl same
      | inr (x, m, e, b, w, lt, inl g) ↦ absurd (g.0 (sym (g.3) ∙ ap (idx n) (sym e) ∙ f))
      | inr (x, m, e, b, w, lt, inr g) ↦
          inr (ap some (sym (same_ticket n u t m (sym a ∙ ap (age n) e ∙ g.1))))
    ];
  }

  behind :
      (u : ℕ)
      → In u after.passed
      → (age_of n u ≤ age n (at n after u)) ⊎ (safe n (at n after u) ≡ 0)
  behind u (inl me) = elim over [
    | inl le ↦ inl (subst (λ y. age_of n y ≤ age n (at n after y)) (sym me) le)
    | inr f ↦ inr (subst (λ y. safe n (at n after y) ≡ 0) (sym me) (f.1))
  ]
  behind u (inr h) = elim (cases u) [
    | inl same ↦ subst (λ y. (age_of n u ≤ age n y) ⊎ (safe n y ≡ 0)) (sym same) (s.behind u h)
    | inr (x, m, e, b, w, lt, inl g) ↦ inr (ap (safe n) e ∙ g.2)
    | inr (x, m, e, b, w, lt, inr g) ↦ elim (s.behind u h) [
      | inl le ↦ inl (omega (arith, ap (age n) e, ap (age n) b, g.1))
      | inr z ↦ inr (ap (safe n) e ∙ g.2 ∙ ap (safe n) (sym b) ∙ z)
    ]
  ]

  filled :
      (u : ℕ)
      → age n (at n after u) ≡ age_of n u
      → idx n (at n after u) ≢ n - 1
      → Has u (idx n (at n after u)) v.stored × ¬ HasTicket u v.removed
  filled u a f = elim (cases u) [
    | inl same ↦
        let (h, r) = s.filled u (ap (age n) (sym same) ∙ a) (λ k. f (ap (idx n) same ∙ k)) in
        (subst (λ j. Has u j v.stored) (ap (idx n) (sym same)) h, r)
    | inr (x, m, e, b, w, lt, inl g) ↦
        let ages : age n (at n after u) ≡ age n (at n v u) =
          ap (age n) e ∙ g.1 ∙ ap (age n) (sym b) in
        let indices : idx n (at n after u) ≡ idx n (at n v u) =
          ap (idx n) e ∙ g.3 ∙ ap (idx n) (sym b) in
        let (h, r) = s.filled u (sym ages ∙ a) (λ k. f (indices ∙ k)) in
        (subst (λ j. Has u j v.stored) (sym indices) h, r)
    | inr (x, m, e, b, w, lt, inr g) ↦ absurd (f (ap (idx n) e ∙ g.3))
  ]

  emptied : (u : ℕ) → age n (at n after u) ≡ age_of n u → idx n (at n after u) ≡ n - 1 → u < v.head
  emptied u a f = elim (cases u) [
    | inl same ↦ s.emptied u (ap (age n) (sym same) ∙ a) (ap (idx n) (sym same) ∙ f)
    | inr (x, m, e, b, w, lt, inl g) ↦ absurd (g.0 (sym (g.3) ∙ ap (idx n) (sym e) ∙ f))
    | inr (x, m, e, b, w, lt, inr g) ↦
        let me = same_ticket n u t m (sym a ∙ ap (age n) e ∙ g.1) in omega (arith, me, claims.given)
  ]

  kept :
      (u j : ℕ)
      → Has u j v.stored
      → HasTicket u v.removed
        ⊎ ((age n (at n after u) ≡ age_of n u) × (idx n (at n after u) ≡ j) × ¬ In u after.passed)
  kept u j h = elim (s.kept u j h) [
    | inl r ↦ inl r
    | inr k ↦
        let unpassed : ¬ In u after.passed =
          λ i. elim i [ inl me ↦ not_mine u (k.0) me | inr before ↦ k.2 before ] in
        elim (cases u) [
          | inl same ↦ inr (ap (age n) same ∙ k.0, ap (idx n) same ∙ k.1, unpassed)
          | inr (x, m, e, b, w, lt, inl g) ↦ inr (
            ap (age n) e ∙ g.1 ∙ ap (age n) (sym b) ∙ k.0,
            ap (idx n) e ∙ g.3 ∙ ap (idx n) (sym b) ∙ k.1,
            unpassed,
          )
          | inr (x, m, e, b, w, lt, inr g) ↦
              absurd (omega (arith, s.stored_index u j h, k.1, ap (idx n) b, g.0))
        ]
  ]

  pub passes_ticket : (p : Place) → none ≡ enq p → some t ≡ deq p → Turns n v p after (load_tail t)
  passes_ticket p e d = record {
    affects = subst (λ y. Affects n v after y (deq p)) e (subst (Affects n v after none) d affects);
    sound = record {
      size = size;
      words = λ u. elim (cases u) [
        | inl same ↦ subst IsWord (sym same) (s.words u)
        | inr c ↦ subst IsWord (sym (c.2)) (c.4)
      ];
      stored_below = s.stored_below;
      stored_index = s.stored_index;
      stored_once = s.stored_once;
      removed_below = s.removed_below;
      removed_stored = s.removed_stored;
      removed_once = s.removed_once;
      passed_below = λ u h. elim h [
        | inl same ↦ omega (arith, claims.given)
        | inr before ↦ s.passed_below u before
      ];
      behind = behind;
      filled = filled;
      emptied = emptied;
      kept = kept;
    };
    good = tt;
    enq_new = λ u h. absurd (cc);
    deq_new = λ u h. absurd (cc);
    claimed = λ u h. inl h;
    released = λ u h. inr (inl (inl (let same : t ≡ u = cc in sym same)));
    more_passed = λ u h. inr h;
    more_removed = λ u h. h;
  }
