-- ===== src/Ring/Shared/Kept.antt =====
-- What holds of a ring and of all the threads on it, and that the turn of one thread keeps it.
use lfqueue.Base.{ℕ, zero, suc, ◌≤◌, ◌<◌, ◌≡◌, ◌≢◌, refl, arith, ap, sym, ◌∙◌, subst, ℕ_discrete}
use lfqueue.Base.{Option, some, List, [], ◌∷◌, get_elem?, set, ◌⊎◌, inl, inr}
use lfqueue.Ring.Shared.{
  Place, claim_tail, load_entry, check_head, check_finalized, exchange_entry, load_threshold,
  store_threshold, enqueued, outside, check_threshold, claim_head, probe_entry, take_entry,
  swap_entry, load_tail, catch_tail, reload_head, reload_tail, lower_empty, lower_threshold,
  dequeued,
}
use lfqueue.Ring.Shared.Places.{Every}
use lfqueue.Ring.Shared.View.{Holding, Claims, View, HasTicket, In, enq, deq, IsGood, IsGood-later}
use lfqueue.Ring.Shared.Sound.{IsSound, Turns}

-- What became of a ticket of `head`: a thread has it, or `dequeue` returned an index for it or
-- passed it.
abbrev pub Gone : View → List Place → ℕ → Type 0
Gone v ps t =
    ((i : ℕ) × (p : Place) × (get_elem? ps i ≡ some p) × (deq p ≡ some t))
    ⊎ (In t v.passed ⊎ HasTicket t v.removed)

-- No two threads have the same ticket.
abbrev pub IsApart : (Place → Option ℕ) → List Place → Type 0
IsApart ticket ps =
    (i j : ℕ) (p q : Place) (t : ℕ)
    → get_elem? ps i ≡ some p
    → get_elem? ps j ≡ some q
    → ticket p ≡ some t
    → ticket q ≡ some t
    → i ≡ j

module _ (n : ℕ) where
  pub record IsKept (v : View) (ps : List Place) : Type 0 where
    pub sound : IsSound n v
    pub good : Every (IsGood n v) ps
    pub enq_apart : IsApart enq ps
    pub deq_apart : IsApart deq ps
    pub gone : (t : ℕ) → t < v.head → Gone v ps t

  -- What is known of a ticket that a thread has.
  pub enq_held : (v : View) (p : Place) (t : ℕ) → IsGood n v p → enq p ≡ some t → Holding n v t
  enq_held v (load_entry x u) t g h = let same : u ≡ t = cc in subst (Holding n v) same (g.1)
  enq_held v (check_head x u e) t g h = let same : u ≡ t = cc in subst (Holding n v) same (g.1)
  enq_held v (check_finalized x u e) t g h = let same : u ≡ t = cc in subst (Holding n v) same (g.1)
  enq_held v (exchange_entry x u e) t g h = let same : u ≡ t = cc in subst (Holding n v) same (g.1)
  enq_held v outside t g h = absurd (cc)
  enq_held v (claim_tail x) t g h = absurd (cc)
  enq_held v load_threshold t g h = absurd (cc)
  enq_held v store_threshold t g h = absurd (cc)
  enq_held v (enqueued x) t g h = absurd (cc)
  enq_held v check_threshold t g h = absurd (cc)
  enq_held v claim_head t g h = absurd (cc)
  enq_held v (probe_entry u a) t g h = absurd (cc)
  enq_held v (take_entry u e) t g h = absurd (cc)
  enq_held v (swap_entry u a e new) t g h = absurd (cc)
  enq_held v (load_tail u) t g h = absurd (cc)
  enq_held v (catch_tail x u) t g h = absurd (cc)
  enq_held v reload_head t g h = absurd (cc)
  enq_held v (reload_tail u) t g h = absurd (cc)
  enq_held v lower_empty t g h = absurd (cc)
  enq_held v lower_threshold t g h = absurd (cc)
  enq_held v (dequeued x) t g h = absurd (cc)

  pub deq_held : (v : View) (p : Place) (t : ℕ) → IsGood n v p → deq p ≡ some t → Claims n v t
  deq_held v (probe_entry u a) t g h = let same : u ≡ t = cc in subst (Claims n v) same g
  deq_held v (take_entry u e) t g h = let same : u ≡ t = cc in subst (Claims n v) same (g.0)
  deq_held v (swap_entry u a e new) t g h = let same : u ≡ t = cc in subst (Claims n v) same (g.0)
  deq_held v outside t g h = absurd (cc)
  deq_held v (claim_tail x) t g h = absurd (cc)
  deq_held v (load_entry x u) t g h = absurd (cc)
  deq_held v (check_head x u e) t g h = absurd (cc)
  deq_held v (check_finalized x u e) t g h = absurd (cc)
  deq_held v (exchange_entry x u e) t g h = absurd (cc)
  deq_held v load_threshold t g h = absurd (cc)
  deq_held v store_threshold t g h = absurd (cc)
  deq_held v (enqueued x) t g h = absurd (cc)
  deq_held v check_threshold t g h = absurd (cc)
  deq_held v claim_head t g h = absurd (cc)
  deq_held v (load_tail u) t g h = absurd (cc)
  deq_held v (catch_tail x u) t g h = absurd (cc)
  deq_held v reload_head t g h = absurd (cc)
  deq_held v (reload_tail u) t g h = absurd (cc)
  deq_held v lower_empty t g h = absurd (cc)
  deq_held v lower_threshold t g h = absurd (cc)
  deq_held v (dequeued x) t g h = absurd (cc)

-- The place of a thread after that of the thread `i` was set.
pub set_cases :
    (ps : List Place) (i j : ℕ) (p p' q : Place)
    → get_elem? ps i ≡ some p
    → get_elem? (set ps i p') j ≡ some q
    → ((j ≡ i) × (p' ≡ q)) ⊎ ((i ≢ j) × (get_elem? ps j ≡ some q))
set_cases [] i j p p' q h e = absurd (cc)
set_cases (x ∷ ps) zero zero p p' q h e = inl (refl, cc)
set_cases (x ∷ ps) zero (suc j) p p' q h e = inr (λ (k : 0 ≡ suc j). omega (arith, k), e)
set_cases (x ∷ ps) (suc i) zero p p' q h e = inr (λ (k : suc i ≡ 0). omega (arith, k), e)
set_cases (x ∷ ps) (suc i) (suc j) p p' q h e = elim (set_cases ps i j p p' q h e) [
  | inl k ↦ inl (ap suc (k.0), k.1)
  | inr k ↦ inr ((λ (same : suc i ≡ suc j). k.0 (omega (arith, same))), k.1)
]

pub set_here :
    (ps : List Place) (i : ℕ) (p p' : Place)
    → get_elem? ps i ≡ some p
    → get_elem? (set ps i p') i ≡ some p'
set_here [] i p p' h = absurd (cc)
set_here (x ∷ ps) zero p p' h = refl
set_here (x ∷ ps) (suc i) p p' h = set_here ps i p p' h

pub set_there :
    (ps : List Place) (i j : ℕ) (p' q : Place)
    → i ≢ j
    → get_elem? ps j ≡ some q
    → get_elem? (set ps i p') j ≡ some q
set_there [] i j p' q ne h = h
set_there (x ∷ ps) zero zero p' q ne h = absurd (ne refl)
set_there (x ∷ ps) zero (suc j) p' q ne h = h
set_there (x ∷ ps) (suc i) zero p' q ne h = h
set_there (x ∷ ps) (suc i) (suc j) p' q ne h = set_there ps i j p' q (λ e. ne (ap suc e)) h

-- A turn that takes a ticket takes a new one, so the tickets of the threads stay apart.
IsApart-set :
    (ticket : Place → Option ℕ) (bound : ℕ) (ps : List Place) (i : ℕ) (p p' : Place)
    → get_elem? ps i ≡ some p
    → IsApart ticket ps
    → ((j t : ℕ) (q : Place) → get_elem? ps j ≡ some q → ticket q ≡ some t → t < bound)
    → ((t : ℕ) → ticket p' ≡ some t → (ticket p ≡ some t) ⊎ (bound ≤ t))
    → IsApart ticket (set ps i p')
IsApart-set ticket bound ps i p p' here apart below new j1 j2 q1 q2 t e1 e2 t1 t2 =
    elim (set_cases ps i j1 p p' q1 here e1) [
      | inl a ↦ elim (set_cases ps i j2 p p' q2 here e2) [
        | inl b ↦ a.0 ∙ sym (b.0)
        | inr b ↦ absurd (b.0 (mine j2 q2 (b.1) (ap ticket (a.1) ∙ t1) t2))
      ]
      | inr a ↦ elim (set_cases ps i j2 p p' q2 here e2) [
        | inl b ↦ absurd (a.0 (mine j1 q1 (a.1) (ap ticket (b.1) ∙ t2) t1))
        | inr b ↦ apart j1 j2 q1 q2 t (a.1) (b.1) t1 t2
      ]
    ]
  where
    mine :
        (j : ℕ) (q : Place)
        → get_elem? ps j ≡ some q
        → ticket p' ≡ some t
        → ticket q ≡ some t
        → i ≡ j
    mine j q e held other = elim (new t held) [
      | inl had ↦ apart i j p q t here e had other
      | inr high ↦ absurd (omega (arith, below j t q e other))
    ]

module _ (n : ℕ) (pos : 0 < n) where
  pub turn_lem :
      (v v' : View) (ps : List Place) (i : ℕ) (p p' : Place)
      → get_elem? ps i ≡ some p
      → IsKept n v ps
      → Turns n v p v' p'
      → IsKept n v' (set ps i p')
  turn_lem v v' ps i p p' here k turn = record {
    sound = turn.sound;
    good = λ j q e. elim (set_cases ps i j p p' q here e) [
      | inl a ↦ subst (IsGood n v') (a.1) turn.good
      | inr a ↦
          IsGood-later n pos {v = v} {v' = v'} {e = enq p} {d = deq p} turn.affects q
            (λ t held mine. a.0 (k.enq_apart i j p q t here (a.1) mine held))
            (λ t held mine. a.0 (k.deq_apart i j p q t here (a.1) mine held)) (k.good j q (a.1))
    ];
    enq_apart =
        IsApart-set enq v.tail ps i p p' here k.enq_apart
          (λ j t q e held. (enq_held n v q t (k.good j q e) held).0) turn.enq_new;
    deq_apart =
        IsApart-set deq v.head ps i p p' here k.deq_apart
          (λ j t q e held. (deq_held n v q t (k.good j q e) held).given) turn.deq_new;
    gone = λ t lt. elim (turn.claimed t lt) [
      | inr mine ↦ inl (i, p', set_here ps i p p' here, mine)
      | inl old ↦ elim (k.gone t old) [
        | inr (inl out) ↦ inr (inl (turn.more_passed t out))
        | inr (inr out) ↦ inr (inr (turn.more_removed t out))
        | inl (j, q, e, held) ↦ elim (ℕ_discrete i j) [
          | no ne ↦ inl (j, q, set_there ps i j p' q ne e, held)
          | yes same ↦
              let me : p ≡ q =
                (let both : some p ≡ some q = sym here ∙ ap (get_elem? ps) same ∙ e in cc) in
              elim (turn.released t (ap deq me ∙ held)) [
                | inl still ↦ inl (i, p', set_here ps i p p' here, still)
                | inr out ↦ inr out
              ]
        ]
      ]
    ];
  }
