-- ===== src/Ring/Shared/View.antt =====
-- What the threads on a ring rely on: the words of the array, the two counters, and what has become
-- of each ticket so far.
use native.Mathlib.Nat.{div-add-mod'}
use lfqueue.Base.{ℕ, ◌-◌, ◌*◌, ◌/◌, ◌%◌, ◌≤◌, ◌<◌, ◌≡◌, ◌≢◌, refl, arith, ap, sym, ◌∙◌, subst}
use lfqueue.Base.{
  Option, none, some, List, [], ◌∷◌, get_elem?, set, length, get_elem?-set_self, get_elem?-set_ne,
  bit_xor, ◌⊎◌, inl, inr,
}
use lfqueue.Ring.Shared.{
  Place, outside, claim_tail, load_entry, check_head, check_finalized, exchange_entry,
  load_threshold, store_threshold, enqueued, check_threshold, claim_head, probe_entry, take_entry,
  swap_entry, load_tail, catch_tail, reload_head, reload_tail, lower_empty, lower_threshold,
  dequeued,
}
use lfqueue.Ring.Shared.Fields.{age, idx, age_of, IsWord}
use lfqueue.Ring.Shared.Looks.{Swapped}

-- A ticket with its index, in a log.
abbrev pub Has : ℕ → ℕ → List (ℕ × ℕ) → Type 0
Has t i [] = ⊥
Has t i (p ∷ l) = ((t ≡ p.0) × (i ≡ p.1)) ⊎ Has t i l

abbrev pub HasTicket : ℕ → List (ℕ × ℕ) → Type 0
HasTicket t [] = ⊥
HasTicket t (p ∷ l) = (t ≡ p.0) ⊎ HasTicket t l

pub ticket_of_Has : (l : List (ℕ × ℕ)) (t i : ℕ) → Has t i l → HasTicket t l
ticket_of_Has [] t i h = h
ticket_of_Has (p ∷ l) t i (inl e) = inl (e.0)
ticket_of_Has (p ∷ l) t i (inr h) = inr (ticket_of_Has l t i h)

-- No ticket stands in the log twice.
abbrev pub IsOnce : List (ℕ × ℕ) → Type 0
IsOnce [] = Unit
IsOnce (p ∷ l) = (¬ HasTicket (p.0) l) × IsOnce l

abbrev pub In : ℕ → List ℕ → Type 0
In t [] = ⊥
In t (x ∷ l) = (t ≡ x) ⊎ In t l

-- `stored` are the tickets of `tail` with the indices that `enqueue` stored for them, `removed` the
-- tickets of `head` with the indices that `dequeue` returned, and `passed` the tickets of `head`
-- for which `dequeue` went on without an index.
pub record View : Type 0 where
  pub array : List ℕ
  pub head : ℕ
  pub tail : ℕ
  pub stored : List (ℕ × ℕ)
  pub removed : List (ℕ × ℕ)
  pub passed : List ℕ

-- The word in a slot.
abbrev pub slot : List ℕ → ℕ → ℕ
slot a j = elim (get_elem? a j) [ none ↦ 0 | some e ↦ e ]

pub slot-set_self : (a : List ℕ) (j x : ℕ) → j < length a → slot (set a j x) j ≡ x
slot-set_self a j x h = rw (slot, get_elem?-set_self a j x h) refl

pub slot-set_ne : (a : List ℕ) (i j x : ℕ) → i ≢ j → slot (set a i x) j ≡ slot a j
slot-set_ne a i j x h = rw (slot, get_elem?-set_ne a i j x h) refl

-- The tickets that a thread has in its hands.
abbrev pub enq : Place → Option ℕ
enq (load_entry eidx t) = some t
enq (check_head eidx t e) = some t
enq (check_finalized eidx t e) = some t
enq (exchange_entry eidx t e) = some t
enq p = none

abbrev pub deq : Place → Option ℕ
deq (probe_entry t a) = some t
deq (take_entry t e) = some t
deq (swap_entry t a e new) = some t
deq p = none

module _ (n : ℕ) where
  abbrev pub at : View → ℕ → ℕ
  at v t = slot v.array (t % n)

  pub same_ticket : (t u : ℕ) → t % n ≡ u % n → age_of n t ≡ age_of n u → t ≡ u
  same_ticket t u m a =
      let same : t / n ≡ u / n = omega arith in
      omega (arith, div-add-mod' t n, div-add-mod' u n, ap (λ (x : ℕ). x * n) same)

  pub age_later : (t u : ℕ) → 0 < n → t ≤ u → age_of n t ≤ age_of n u
  age_later t u pos le = grind (arith, div-add-mod' t n, div-add-mod' u n)

  -- The index as `enqueue` turns it over.
  abbrev pub Turned : ℕ → Type 0
  Turned eidx = (i : ℕ) × (i < n - 1) × (eidx ≡ bit_xor i (n - 1))

  -- A ticket of `tail` that a thread has, for which nothing is stored.
  abbrev pub Holding : View → ℕ → Type 0
  Holding v t = (t < v.tail) × ¬ HasTicket t v.stored

  -- An empty entry of an age before the ticket's: it still stands there, or a younger one does.
  abbrev pub Old : View → ℕ → ℕ → Type 0
  Old v t e =
      (idx n e ≡ n - 1) × (age n e < age_of n t) × ((at v t ≡ e) ⊎ (age n e < age n (at v t)))

  -- If the ticket of `head` or a later one of the slot was passed, the entry stands there no more.
  abbrev pub Unpassed : View → ℕ → ℕ → Type 0
  Unpassed v t e = (u : ℕ) → In u v.passed → u % n ≡ t % n → t ≤ u → age n e < age n (at v t)

  -- A ticket of `head` that a thread has: nothing was returned for it, nor was it passed, and its
  -- slot has not been emptied for it.
  pub record Claims (v : View) (t : ℕ) : Type 0 where
    pub given : t < v.head
    pub unremoved : ¬ HasTicket t v.removed
    pub unpassed : ¬ In t v.passed
    pub not_emptied : age n (at v t) ≡ age_of n t → idx n (at v t) ≢ n - 1

  -- What a thread relies on at its place.
  abbrev pub IsGood : View → Place → Type 0
  IsGood v (claim_tail eidx) = Turned eidx
  IsGood v (load_entry eidx t) = Turned eidx × Holding v t
  IsGood v (check_head eidx t e) = Turned eidx × Holding v t × Old v t e
  IsGood v (check_finalized eidx t e) = Turned eidx × Holding v t × Old v t e × Unpassed v t e
  IsGood v (exchange_entry eidx t e) = Turned eidx × Holding v t × Old v t e × Unpassed v t e
  IsGood v (probe_entry t a) = Claims v t
  IsGood v (take_entry t e) =
      Claims v t × (age n (at v t) ≡ age_of n t) × (idx n (at v t) ≡ idx n e)
  IsGood v (swap_entry t a e new) =
      Claims v t × IsWord new × (age n e < age_of n t) × Swapped n t e new
  IsGood v p = Unit

  -- How the step of a thread with the tickets `e` and `d` in its hands looks to the others.
  pub record Affects (v v' : View) (e d : Option ℕ) : Type 0 where
    pub tail_up : v.tail ≤ v'.tail
    pub head_up : v.head ≤ v'.head
    pub stores : (t : ℕ) → HasTicket t v'.stored → HasTicket t v.stored ⊎ (e ≡ some t)
    pub removes : (t : ℕ) → HasTicket t v'.removed → HasTicket t v.removed ⊎ (d ≡ some t)
    pub passes :
        (t : ℕ)
        → In t v'.passed
        → In t v.passed
          ⊎ ((d ≡ some t) × ((age_of n t ≤ age n (at v' t)) ⊎ (idx n (at v' t) ≢ n - 1)))
    pub ages : (t : ℕ) → age n (at v t) ≤ age n (at v' t)
    pub refills :
        (t : ℕ)
        → (at v' t ≡ at v t) ⊎ ((idx n (at v t) ≢ n - 1) ⊎ (age n (at v t) < age n (at v' t)))
    pub keeps :
        (t : ℕ)
        → age n (at v t) ≡ age_of n t
        → idx n (at v t) ≢ n - 1
        → d ≢ some t
        → (age n (at v' t) ≡ age n (at v t)) × (idx n (at v' t) ≡ idx n (at v t))
    pub empties :
        (t : ℕ)
        → age n (at v' t) ≡ age_of n t
        → idx n (at v' t) ≡ n - 1
        → (at v' t ≡ at v t) ⊎ (d ≡ some t)

  module _ (pos : 0 < n) {v v' : View} {e d : Option ℕ} (a : Affects v v' e d) where
    Holding-later : (t : ℕ) → e ≢ some t → Holding v t → Holding v' t
    Holding-later t other h = (
      omega (arith, a.tail_up),
      λ s. elim (a.stores t s) [ inl old ↦ h.1 old | inr mine ↦ other mine ],
    )

    Old-later : (t x : ℕ) → Old v t x → Old v' t x
    Old-later t x o = (o.0, o.1, stands (o.2) (a.refills t))
      where
        stands :
            (at v t ≡ x) ⊎ (age n x < age n (at v t))
            → (at v' t ≡ at v t) ⊎ ((idx n (at v t) ≢ n - 1) ⊎ (age n (at v t) < age n (at v' t)))
            → (at v' t ≡ x) ⊎ (age n x < age n (at v' t))
        stands (inr younger) r = inr (omega (arith, a.ages t))
        stands (inl here) (inl same) = inl (same ∙ here)
        stands (inl here) (inr (inl full)) = absurd (full (ap (idx n) here ∙ o.0))
        stands (inl here) (inr (inr up)) = inr (subst (λ y. age n y < age n (at v' t)) here up)

    Unpassed-later : (t x : ℕ) → Old v' t x → Unpassed v t x → Unpassed v' t x
    Unpassed-later t x o h u i m le = by_log (a.passes u i)
      where
        younger :
            (at v' t ≡ x) ⊎ (age n x < age n (at v' t))
            → (age_of n u ≤ age n (at v' t)) ⊎ (idx n (at v' t) ≢ n - 1)
            → age n x < age n (at v' t)
        younger (inr up) k = up
        younger (inl here) (inl old) = omega (arith, o.1, age_later t u pos le)
        younger (inl here) (inr full) = absurd (full (ap (idx n) here ∙ o.0))

        by_log :
            In u v.passed
              ⊎ ((d ≡ some u) × ((age_of n u ≤ age n (at v' u)) ⊎ (idx n (at v' u) ≢ n - 1)))
            → age n x < age n (at v' t)
        by_log (inl old) = omega (arith, h u old m le, a.ages t)
        by_log (inr new) = younger (o.2) (
            subst (λ j. (age_of n u ≤ age n (slot v'.array j)) ⊎ (idx n (slot v'.array j) ≢ n - 1))
              m (new.1))

    Claims-later : (t : ℕ) → d ≢ some t → Claims v t → Claims v' t
    Claims-later t other c = record {
      given = omega (arith, c.given, a.head_up);
      unremoved = λ h. elim (a.removes t h) [ inl old ↦ c.unremoved old | inr mine ↦ other mine ];
      unpassed = λ h. elim (a.passes t h) [ inl old ↦ c.unpassed old | inr mine ↦ other (mine.0) ];
      not_emptied = λ same empty. elim (a.empties t same empty) [
        | inl as_before ↦
            c.not_emptied (ap (age n) (sym as_before) ∙ same) (ap (idx n) (sym as_before) ∙ empty)
        | inr mine ↦ other mine
      ];
    }

    -- The other threads stay good.
    pub IsGood-later :
        (p : Place)
        → ((t : ℕ) → enq p ≡ some t → e ≢ some t)
        → ((t : ℕ) → deq p ≡ some t → d ≢ some t)
        → IsGood v p
        → IsGood v' p
    IsGood-later (claim_tail i) f g h = h
    IsGood-later (load_entry i t) f g h = (h.0, Holding-later t (f t refl) (h.1))
    IsGood-later (check_head i t x) f g h =
        (h.0, Holding-later t (f t refl) (h.1), Old-later t x (h.2))
    IsGood-later (check_finalized i t x) f g h =
        let o = Old-later t x (h.2) in
        (h.0, Holding-later t (f t refl) (h.1), o, Unpassed-later t x o (h.3))
    IsGood-later (exchange_entry i t x) f g h =
        let o = Old-later t x (h.2) in
        (h.0, Holding-later t (f t refl) (h.1), o, Unpassed-later t x o (h.3))
    IsGood-later (probe_entry t k) f g h = Claims-later t (g t refl) h
    IsGood-later (take_entry t x) f g h =
        let (a1, i1) = a.keeps t (h.1) ((h.0).not_emptied (h.1)) (g t refl) in
        (Claims-later t (g t refl) (h.0), a1 ∙ h.1, i1 ∙ h.2)
    IsGood-later (swap_entry t k x new) f g h = (Claims-later t (g t refl) (h.0), h.1, h.2, h.3)
    IsGood-later outside f g h = tt
    IsGood-later load_threshold f g h = tt
    IsGood-later store_threshold f g h = tt
    IsGood-later (enqueued x) f g h = tt
    IsGood-later check_threshold f g h = tt
    IsGood-later claim_head f g h = tt
    IsGood-later (load_tail t) f g h = tt
    IsGood-later (catch_tail t u) f g h = tt
    IsGood-later reload_head f g h = tt
    IsGood-later (reload_tail t) f g h = tt
    IsGood-later lower_empty f g h = tt
    IsGood-later lower_threshold f g h = tt
    IsGood-later (dequeued x) f g h = tt
