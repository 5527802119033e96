-- ===== src/Bounded/Shared/Rings.antt =====
-- One of the two rings of a shared queue, with the places of the threads in its calls.
use lfqueue.Base.{ℕ, zero, suc, ◌+◌, ◌^◌, ◌≤◌, ◌<◌, ◌≡◌, ◌≢◌, arith, ap, sym, ◌∙◌, subst}
use lfqueue.Base.{Bool, none, some, List, ◌++◌, get_elem?, set, Exec, done, if◌then◌else◌, ◌==◌}
use lfqueue.Word.{wrapping_add}
use lfqueue.Ring.{ScqRing}
use lfqueue.Ring.Holds.{slots, sizes}
use lfqueue.Ring.Shared.{Place, step, inserts, removes, passes}
use lfqueue.Ring.Shared.View.{View, enq, deq, IsGood}
use lfqueue.Ring.Shared.Sound.{Turns, rests}
use lfqueue.Ring.Shared.Steps.{IsSized, IsInOrder}
use lfqueue.Ring.Shared.Access.{step_lem}
use lfqueue.Ring.Shared.Places.{Every, Every-set, IsInOrder-later}
use lfqueue.Ring.Shared.Given.{at_claim, at_tail, few_claims}
use lfqueue.Ring.Shared.Moves.{view}
use lfqueue.Ring.Shared.Turning.{moved}
use lfqueue.Ring.Shared.Kept.{IsKept, turn_lem}

-- What a ring's calls have stored, removed and passed.
pub record Log : Type 0 where
  pub stored : List (ℕ × ℕ)
  pub removed : List (ℕ × ℕ)
  pub passed : List ℕ

abbrev pub view_of : ScqRing → Log → View
view_of r l = view r l.stored l.removed l.passed

-- The log after an access.
abbrev pub logged : Place → Place → ScqRing → Log → Log
logged p next r l = record {
  stored = inserts p next r ++ l.stored;
  removed = removes p next ++ l.removed;
  passed = passes p next ++ l.passed;
}

pub record IsWell (order : ℕ) (r : ScqRing) (l : Log) (ps : List Place) : Type 0 where
  pub order_is : r.order ≡ order
  pub sized : IsSized r
  pub in_order : Every (λ p. IsInOrder p r) ps
  pub kept : IsKept (slots r) (view_of r l) ps

-- Both counters are below a bound.
abbrev pub IsLow : ℕ → ScqRing → Type 0
IsLow bound r = (r.head ≤ bound) × (r.tail ≤ bound)

pub record Accessed (order bound : ℕ) (spurious : Bool) (r : ScqRing) (l : Log) (ps : List Place)
    (i : ℕ) (p : Place) : Type 0 where
  pub next : Place
  pub ring : ScqRing
  pub steps : step spurious p r ≡ done (next, ring)
  pub well : IsWell order ring (logged p next r l) (set ps i next)
  pub low : IsLow (bound + 1) ring
  pub same_flags : ring.is_finalized ≡ r.is_finalized

module _ (order bound : ℕ) (spurious : Bool) (r : ScqRing) (l : Log) (ps : List Place) (i : ℕ)
    (p : Place) (w : IsWell order r l ps) (here : get_elem? ps i ≡ some p) (low : IsLow bound r)
    (few : bound + 1 < 2 ^ 61) where
  pos : 0 < slots r
  pos = omega (arith, sizes r.order w.sized.small)

  pub accesses : Accessed order bound spurious r l ps i p
  accesses =
      let m = step_lem spurious r w.sized p in
      let t =
        moved spurious r l.stored l.removed l.passed w.kept.sound p w.sized (omega arith)
          (omega arith) (w.in_order i p here) (w.kept.good i p here) in
      let both : ◌≡◌ {A = Exec (Place × ScqRing)} (done (t.next, t.ring)) (done (m.next, m.ring)) =
        sym t.steps ∙ m.steps in
      let same_next : t.next ≡ m.next = cc in
      let same_ring : t.ring ≡ m.ring = cc in
      let up = m.raised (omega arith) (omega arith) (w.in_order i p here) in
      let kept1 : IsKept (slots r) (view_of m.ring (logged p m.next r l)) (set ps i m.next) =
        turn_lem (slots r) pos (view_of r l) (view_of m.ring (logged p m.next r l)) ps i p m.next
          here w.kept
          (subst
            (λ (x : ScqRing).
              Turns (slots r) (view_of r l) p (view_of x (logged p m.next r l)) m.next)
            same_ring
            (subst
              (λ (x : Place). Turns (slots r) (view_of r l) p (view_of t.ring (logged p x r l)) x)
              same_next t.turns)) in
      record {
        next = m.next;
        ring = m.ring;
        steps = m.steps;
        well = record {
          order_is = m.same_order ∙ w.order_is;
          sized = record {
            small = omega (arith, w.sized.small, m.same_order);
            size = m.same_length ∙ w.sized.size ∙ ap (λ (k : ℕ). 2 ^ suc k) (sym m.same_order);
          };
          in_order =
              Every-set (λ q. IsInOrder q m.ring) ps i m.next up.in_order
                (λ j q f.
                  IsInOrder-later q r m.ring (head_up (at_claim p) (few_claims p).0 m.ticket)
                    (w.in_order j q f));
          kept =
              subst
                (λ (k : ℕ).
                  IsKept (2 ^ suc k) (view_of m.ring (logged p m.next r l)) (set ps i m.next))
                (sym m.same_order) kept1;
        };
        low = (
          head_low (at_claim p) (few_claims p).0 m.ticket,
          up.below (bound + 1) (tail_low p) (omega arith),
        );
        same_flags = m.same_flags;
      }
    where
      head_up :
          {x : ℕ} (k : ℕ)
          → k ≤ 1
          → x ≡ (if k == 1 then wrapping_add r.head 1 else r.head)
          → r.head ≤ x
      head_up zero le e = omega (arith, e)
      head_up (suc zero) le e = omega (arith, e)
      head_up (suc (suc k)) le e = absurd (omega arith)

      head_low :
          {x : ℕ} (k : ℕ)
          → k ≤ 1
          → x ≡ (if k == 1 then wrapping_add r.head 1 else r.head)
          → x ≤ bound + 1
      head_low zero le e = omega (arith, e)
      head_low (suc zero) le e = omega (arith, e)
      head_low (suc (suc k)) le e = absurd (omega arith)

      tail_low : (p : Place) → r.tail + at_tail p ≤ bound + 1
      tail_low p = omega (arith, (few_claims p).1)

-- A thread without a ticket goes to another place without one.
pub settles :
    (order : ℕ) (r : ScqRing) (l : Log) (ps : List Place) (i : ℕ) (p q : Place)
    → IsWell order r l ps
    → get_elem? ps i ≡ some p
    → enq p ≡ none
    → deq p ≡ none
    → enq q ≡ none
    → deq q ≡ none
    → IsInOrder q r
    → IsGood (slots r) (view_of r l) q
    → IsWell order r l (set ps i q)
settles order r l ps i p q w here e d e' d' o g = record {
  order_is = w.order_is;
  sized = w.sized;
  in_order = Every-set (λ x. IsInOrder x r) ps i q o w.in_order;
  kept =
      turn_lem (slots r) (omega (arith, sizes r.order w.sized.small)) (view_of r l) (view_of r l) ps
        i p q here w.kept
        (rests (slots r) {v = view_of r l} {p = p} {p' = q} r.tail w.kept.sound (omega arith) g
          (λ t h. absurd (some_none t (sym h ∙ e'))) (λ t h. absurd (some_none t (sym h ∙ d')))
          (λ t h. absurd (some_none t (sym h ∙ d))));
}
  where
    some_none : (t : ℕ) → some t ≢ none
    some_none t h = cc
