-- ===== src/Ring/Shared/Sound.antt =====
-- The invariant of a ring that threads share, and the steps that leave the array as it is.
use lfqueue.Base.{ℕ, ◌+◌, ◌-◌, ◌%◌, ◌≤◌, ◌<◌, ◌≡◌, ◌≢◌, refl, arith, ap, sym, subst, ℕ_discrete}
use lfqueue.Base.{some, List, [], ◌∷◌, set, length, ◌⊎◌, inl, inr}
use lfqueue.Ring.Shared.{Place, claim_tail, load_entry, claim_head, probe_entry}
use lfqueue.Ring.Shared.Fields.{age, idx, safe, age_of, IsWord}
use lfqueue.Ring.Shared.View.{
  View, Has, HasTicket, In, IsOnce, slot, slot-set_self, slot-set_ne, enq, deq, at, Affects, IsGood,
  Turned,
}

pub index_of : (l : List (ℕ × ℕ)) (t : ℕ) → HasTicket t l → (i : ℕ) × Has t i l
index_of [] t h = absurd h
index_of (p ∷ l) t (inl e) = (p.1, inl (e, refl))
index_of (p ∷ l) t (inr h) = let (i, m) = index_of l t h in (i, inr m)

module _ (n : ℕ) where
  -- What has become of the tickets: each index that was returned had been stored for the same
  -- ticket, no ticket is in a log twice, and an index that was stored and not returned stands in
  -- the slot of its ticket, which no thread has passed.
  pub record IsSound (v : View) : Type 0 where
    pub size : length v.array ≡ n
    pub words : (t : ℕ) → IsWord (at n v t)
    pub stored_below : (t : ℕ) → HasTicket t v.stored → t < v.tail
    pub stored_index : (t i : ℕ) → Has t i v.stored → i < n - 1
    pub stored_once : IsOnce v.stored
    pub removed_below : (t : ℕ) → HasTicket t v.removed → t < v.head
    pub removed_stored : (t i : ℕ) → Has t i v.removed → Has t i v.stored
    pub removed_once : IsOnce v.removed
    pub passed_below : (t : ℕ) → In t v.passed → t < v.head
    pub behind : (t : ℕ) → In t v.passed → (age_of n t ≤ age n (at n v t)) ⊎ (safe n (at n v t) ≡ 0)
    pub filled :
        (t : ℕ)
        → age n (at n v t) ≡ age_of n t
        → idx n (at n v t) ≢ n - 1
        → Has t (idx n (at n v t)) v.stored × ¬ HasTicket t v.removed
    pub emptied : (t : ℕ) → age n (at n v t) ≡ age_of n t → idx n (at n v t) ≡ n - 1 → t < v.head
    pub kept :
        (t i : ℕ)
        → Has t i v.stored
        → HasTicket t v.removed
          ⊎ ((age n (at n v t) ≡ age_of n t) × (idx n (at n v t) ≡ i) × ¬ In t v.passed)

  -- What a step of a thread from `p` to `p'` does.
  pub record Turns (v : View) (p : Place) (v' : View) (p' : Place) : Type 0 where
    pub affects : Affects n v v' (enq p) (deq p)
    pub sound : IsSound v'
    pub good : IsGood n v' p'
    pub enq_new : (t : ℕ) → enq p' ≡ some t → (enq p ≡ some t) ⊎ (v.tail ≤ t)
    pub deq_new : (t : ℕ) → deq p' ≡ some t → (deq p ≡ some t) ⊎ (v.head ≤ t)
    pub claimed : (t : ℕ) → t < v'.head → (t < v.head) ⊎ (deq p' ≡ some t)
    pub released :
        (t : ℕ) → deq p ≡ some t → (deq p' ≡ some t) ⊎ (In t v'.passed ⊎ HasTicket t v'.removed)
    pub more_passed : (t : ℕ) → In t v.passed → In t v'.passed
    pub more_removed : (t : ℕ) → HasTicket t v.removed → HasTicket t v'.removed

  -- A word after a store to the slot of the ticket `t`.
  pub slot_cases :
      (a : List ℕ) (t x u : ℕ)
      → t % n < length a
      → (slot (set a (t % n) x) (u % n) ≡ slot a (u % n))
        ⊎ ((u % n ≡ t % n)
            × (slot (set a (t % n) x) (u % n) ≡ x)
            × (slot a (u % n) ≡ slot a (t % n)))
  slot_cases a t x u inside = elim (ℕ_discrete (t % n) (u % n)) [
    | yes e ↦ inr (
      sym e,
      subst (λ j. slot (set a (t % n) x) j ≡ x) e (slot-set_self a (t % n) x inside),
      ap (slot a) (sym e),
    )
    | no ne ↦ inl (slot-set_ne a (t % n) (u % n) x ne)
  ]

  -- A step that stores nothing in the array, and takes no ticket.
  pub rests :
      {v : View} {p p' : Place} (tail : ℕ)
      → IsSound v
      → v.tail ≤ tail
      → IsGood n (record v { tail = tail }) p'
      → ((t : ℕ) → enq p' ≡ some t → enq p ≡ some t)
      → ((t : ℕ) → deq p' ≡ some t → deq p ≡ some t)
      → ((t : ℕ) → deq p ≡ some t → deq p' ≡ some t)
      → Turns v p (record v { tail = tail }) p'
  rests {v} {p} {p'} tail s up good e d r = record {
    affects = record {
      tail_up = up;
      head_up = omega arith;
      stores = λ t h. inl h;
      removes = λ t h. inl h;
      passes = λ t h. inl h;
      ages = λ t. omega arith;
      refills = λ t. inl refl;
      keeps = λ t a f o. (refl, refl);
      empties = λ t a f. inl refl;
    };
    sound = record {
      size = s.size;
      words = s.words;
      stored_below = λ t h. omega (arith, s.stored_below t h);
      stored_index = s.stored_index;
      stored_once = s.stored_once;
      removed_below = s.removed_below;
      removed_stored = s.removed_stored;
      removed_once = s.removed_once;
      passed_below = s.passed_below;
      behind = s.behind;
      filled = s.filled;
      emptied = s.emptied;
      kept = s.kept;
    };
    good = good;
    enq_new = λ t h. inl (e t h);
    deq_new = λ t h. inl (d t h);
    claimed = λ t h. inl h;
    released = λ t h. inl (r t h);
    more_passed = λ t h. h;
    more_removed = λ t h. h;
  }

  -- To take a ticket from `tail`.
  pub claims_tail :
      {v : View} (eidx : ℕ)
      → IsSound v
      → Turned n eidx
      → Turns v (claim_tail eidx) (record v { tail = v.tail + 1 }) (load_entry eidx v.tail)
  claims_tail {v} eidx s turned =
      let r =
        rests {v = v} {p = claim_tail eidx} {p' = claim_tail eidx} (v.tail + 1) s (omega arith)
          turned (λ t h. h) (λ t h. h) (λ t h. h) in
      record {
        affects = r.affects;
        sound = r.sound;
        good = (turned, (omega arith, λ h. omega (arith, s.stored_below v.tail h)));
        enq_new = λ t h. inr (let same : v.tail ≡ t = cc in omega arith);
        deq_new = λ t h. absurd (cc);
        claimed = λ t h. inl h;
        released = λ t h. absurd (cc);
        more_passed = λ t h. h;
        more_removed = λ t h. h;
      }

  -- To take a ticket from `head`.
  pub claims_head :
      {v : View}
      → IsSound v
      → Turns v claim_head (record v { head = v.head + 1 }) (probe_entry v.head 0)
  claims_head {v} s = record {
    affects = record {
      tail_up = omega arith;
      head_up = omega arith;
      stores = λ t h. inl h;
      removes = λ t h. inl h;
      passes = λ t h. inl h;
      ages = λ t. omega arith;
      refills = λ t. inl refl;
      keeps = λ t a f o. (refl, refl);
      empties = λ t a f. inl refl;
    };
    sound = record {
      size = s.size;
      words = s.words;
      stored_below = s.stored_below;
      stored_index = s.stored_index;
      stored_once = s.stored_once;
      removed_below = λ t h. omega (arith, s.removed_below t h);
      removed_stored = s.removed_stored;
      removed_once = s.removed_once;
      passed_below = λ t h. omega (arith, s.passed_below t h);
      behind = s.behind;
      filled = s.filled;
      emptied = λ t a f. omega (arith, s.emptied t a f);
      kept = s.kept;
    };
    good = record {
      given = omega arith;
      unremoved = λ h. omega (arith, s.removed_below v.head h);
      unpassed = λ h. omega (arith, s.passed_below v.head h);
      not_emptied = λ a f. omega (arith, s.emptied v.head a f);
    };
    enq_new = λ t h. absurd (cc);
    deq_new = λ t h. inr (let same : v.head ≡ t = cc in omega arith);
    claimed =
        λ t h. elim (ℕ_discrete v.head t) [ yes e ↦ inr (ap some e) | no ne ↦ inl (omega arith) ];
    released = λ t h. absurd (cc);
    more_passed = λ t h. h;
    more_removed = λ t h. h;
  }
