-- ===== src/Ring/Shared/Runs.antt =====
-- The runs of several threads on one ring.
use mathlib.Core.List.{append_assoc, append-nil}
use lfqueue.Base.{
  ℕ, zero, suc, ◌+◌, ◌-◌, ◌^◌, ◌≤◌, ◌<◌, ◌≡◌, refl, arith, ap, sym, ◌∙◌, subst, if◌then◌else◌, ◌==◌,
}
use lfqueue.Base.{
  Bool, true, false, Bool-cases, inl, inr, Option, none, some, List, [], ◌∷◌, ◌++◌, length,
  get_elem?, set,
}
use lfqueue.Base.{done}
use lfqueue.Word.{wrapping_add}
use lfqueue.Alloc.Fresh.{range}
use lfqueue.Ring
use lfqueue.Ring.{ScqRing, Enqueued, finalizable, finalized}
use lfqueue.Ring.Shared.{
  Place, SharedRing, Action, start_enqueue, start_dequeue, access, finalizes, begin, begin_enqueue,
  tickets, tail_tickets, inserts, removes, passes, act, play, step, check_threshold,
}
use lfqueue.Ring.Shared.Steps.{IsSized, at_exchange, IsInOrder}
use lfqueue.Ring.Shared.Given.{at_claim, at_tail, few_claims}
use lfqueue.Ring.Shared.Access.{step_lem}
use lfqueue.Ring.Finalize.{order-finalize, head-finalize, tail-finalize, finalized-finalize}
use lfqueue.Ring.Shared.Places.{
  Every, Every-set, AreRefused, IsFalling, IsFalling-above, IsOrdered, IsInOrder-later,
  IsFalling-range, begin_cases, begin_enqueue_cases,
}

-- What an action leaves.
pub record Acted (s : SharedRing) (a : Action) : Type 0 where
  pub after : SharedRing
  pub acts : act s a ≡ done after
  pub sized : IsSized after.ring
  pub same_order : after.ring.order ≡ s.ring.order
  pub count : ℕ
  pub few : count ≤ 1
  pub heads : after.heads ≡ s.heads ++ range s.ring.head count
  pub head : s.ring.head + 1 < 2 ^ 64 → after.ring.head ≡ s.ring.head + count
  pub refused :
      finalized s.ring ≡ true
      → AreRefused s.places
      → (finalized after.ring ≡ true) × AreRefused after.places × (after.stored ≡ s.stored)
  pub ordered : s.ring.head + 1 < 2 ^ 62 → s.ring.tail < 2 ^ 62 → IsOrdered s → IsOrdered after
  pub below :
      (bound : ℕ)
      → s.ring.head + 1 < 2 ^ 62
      → s.ring.tail < 2 ^ 62
      → IsOrdered s
      → s.ring.tail + 1 ≤ bound
      → s.ring.head ≤ bound
      → after.ring.tail ≤ bound

-- A call that starts changes nothing but the place of the thread.
starts :
    (s : SharedRing) (a : Action) (places : List Place)
    → IsSized s.ring
    → act s a ≡ done (record s { places = places })
    → (AreRefused s.places → AreRefused places)
    → (Every (λ p. IsInOrder p s.ring) s.places → Every (λ p. IsInOrder p s.ring) places)
    → Acted s a
starts s a places z e n g = record {
  after = record s { places = places };
  acts = e;
  sized = z;
  same_order = refl;
  count = 0;
  few = omega arith;
  heads = sym (append-nil s.heads);
  head = λ few. omega arith;
  refused = λ shut all. (shut, n all, refl);
  ordered = λ hh ht o. record { in_order = g o.in_order; falling = o.falling };
  below = λ bound hh ht o le he. omega arith;
}

starts_call :
    (s : SharedRing) (a : Action) (i : ℕ) (call : Place)
    → IsSized s.ring
    → at_exchange call ≡ 0
    → IsInOrder call s.ring
    → act s a ≡ (elim (get_elem? s.places i) [
      | none ↦ done s
      | some place ↦ done (record s { places = set s.places i (begin place call) })
    ])
    → Acted s a
starts_call s a i call z c g e = by_place (get_elem? s.places i) refl e
  where
    by_place :
        (o : Option Place)
        → get_elem? s.places i ≡ o
        → act s a ≡ (elim o [
          | none ↦ done s
          | some place ↦ done (record s { places = set s.places i (begin place call) })
        ])
        → Acted s a
    by_place none h e = starts s a s.places z e (λ all. all) (λ all. all)
    by_place (some p) h e =
        starts s a (set s.places i (begin p call)) z e
          (λ all.
            Every-set (λ q. at_exchange q ≡ 0) s.places i (begin p call)
              (begin_cases (λ q. at_exchange q ≡ 0) p call (λ e d. c) (all i p h)) all)
          (λ all.
            Every-set (λ q. IsInOrder q s.ring) s.places i (begin p call)
              (begin_cases (λ q. IsInOrder q s.ring) p call (λ e d. g) (all i p h)) all)

pub act_access :
    (s : SharedRing) (i : ℕ) (spurious : Bool) (p next : Place) (ring : ScqRing)
    → get_elem? s.places i ≡ some p
    → step spurious p s.ring ≡ done (next, ring)
    → act s (access i spurious)
      ≡ done (record {
        ring = ring;
        places = set s.places i next;
        heads = s.heads ++ tickets p next;
        tails = tail_tickets p next ++ s.tails;
        stored = inserts p next s.ring ++ s.stored;
        removed = removes p next ++ s.removed;
        passed = passes p next ++ s.passed;
      })
unfolding act
act_access s i spurious p next ring h e = rw (act, h, e) refl

moves :
    (s : SharedRing) (i : ℕ) (spurious : Bool) (p : Place)
    → IsSized s.ring
    → get_elem? s.places i ≡ some p
    → Acted s (access i spurious)
moves s i spurious p z h =
    let m = step_lem spurious s.ring z p in
    record {
      after = record {
        ring = m.ring;
        places = set s.places i m.next;
        heads = s.heads ++ tickets p m.next;
        tails = tail_tickets p m.next ++ s.tails;
        stored = inserts p m.next s.ring ++ s.stored;
        removed = removes p m.next ++ s.removed;
        passed = passes p m.next ++ s.passed;
      };
      acts = act_access s i spurious p m.next m.ring h m.steps;
      sized = record {
        small = omega (arith, z.small, m.same_order);
        size = m.same_length ∙ z.size ∙ ap (λ (k : ℕ). 2 ^ suc k) (sym m.same_order);
      };
      same_order = m.same_order;
      count = at_claim p;
      few = (few_claims p).0;
      heads = ap (λ (l : List ℕ). s.heads ++ l) m.head_ticket;
      head = λ few. m.ticket ∙ by_count (at_claim p) ((few_claims p).0) few;
      refused = λ shut all.
          let before = all i p h in
          let (quiet, none_in) = m.no_insert shut before in
          (
            (let same : finalized m.ring ≡ finalized s.ring = rw m.same_flags refl in same ∙ shut),
            Every-set (λ q. at_exchange q ≡ 0) s.places i m.next quiet all,
            ap (λ (l : List (ℕ × ℕ)). l ++ s.stored) none_in,
          );
      ordered = λ hh ht o.
          let up = m.raised (omega arith) ht (o.in_order i p h) in
          let risen = m.ticket ∙ by_count (at_claim p) (few_claims p).0 (omega arith) in
          record {
            in_order =
                Every-set (λ q. IsInOrder q m.ring) s.places i m.next up.in_order
                  (λ j q f.
                    IsInOrder-later q s.ring m.ring (omega (arith, risen)) (o.in_order j q f));
            falling =
                subst (λ (l : List ℕ). IsFalling m.ring.tail (l ++ s.tails)) (sym m.tail_ticket)
                  (IsFalling-range s.ring.tail (at_tail p) m.ring.tail s.tails (few_claims p).1
                    up.above o.falling);
          };
      below = λ bound hh ht o le he.
          (m.raised (omega arith) ht (o.in_order i p h)).below bound
            (omega (arith, (few_claims p).1)) he;
    }
  where
    by_count :
        (k : ℕ)
        → k ≤ 1
        → s.ring.head + 1 < 2 ^ 64
        → (if k == 1 then wrapping_add s.ring.head 1 else s.ring.head) ≡ s.ring.head + k
    by_count zero le few = omega arith
    by_count (suc zero) le few = omega arith
    by_count (suc (suc k)) le few = absurd (omega arith)

finalized-finalized : (r : ScqRing) → finalized r ≡ true → finalized (Ring.finalize r) ≡ true
finalized-finalized r shut = elim (Bool-cases (finalizable r)) [
  | inl can ↦ finalized-finalize r can
  | inr cannot ↦ absurd (let no : finalized r ≡ false = rw cannot refl in cc)
]

length-finalize : (r : ScqRing) → length (Ring.finalize r).array ≡ length r.array
unfolding Ring.finalize
length-finalize r = elim (Bool-cases (finalizable r)) [
  | inl can ↦ rw can refl
  | inr cannot ↦ rw cannot refl
]

pub act_lem : (s : SharedRing) (a : Action) → IsSized s.ring → Acted s a
unfolding act
act_lem s (start_enqueue i eidx) z =
    starts_call s (start_enqueue i eidx) i (begin_enqueue s.ring eidx) z
      (begin_enqueue_cases s.ring eidx (λ p. at_exchange p ≡ 0) (λ x. refl) (λ k. refl))
      (begin_enqueue_cases s.ring eidx (λ p. IsInOrder p s.ring) (λ x. tt) (λ k. tt)) refl
act_lem s (start_dequeue i) z = starts_call s (start_dequeue i) i check_threshold z refl tt refl
act_lem s (access i spurious) z = by_place (get_elem? s.places i) refl
  where
    by_place : (o : Option Place) → get_elem? s.places i ≡ o → Acted s (access i spurious)
    by_place none h =
        starts s (access i spurious) s.places z (rw (act, h) refl) (λ all. all) (λ all. all)
    by_place (some p) h = moves s i spurious p z h
act_lem s finalizes z = record {
  after = record s { ring = Ring.finalize s.ring };
  acts = refl;
  sized = record {
    small = omega (arith, z.small, order-finalize s.ring);
    size =
        length-finalize s.ring ∙ z.size ∙ ap (λ (k : ℕ). 2 ^ suc k) (sym (order-finalize s.ring));
  };
  same_order = order-finalize s.ring;
  count = 0;
  few = omega arith;
  heads = sym (append-nil s.heads);
  head = λ few. omega (arith, head-finalize s.ring);
  refused = λ shut all. (finalized-finalized s.ring shut, all, refl);
  ordered = λ hh ht o. record {
    in_order = λ j q f.
        IsInOrder-later q s.ring (Ring.finalize s.ring) (omega (arith, head-finalize s.ring))
          (o.in_order j q f);
    falling = IsFalling-above s.tails (omega (arith, tail-finalize s.ring)) o.falling;
  };
  below = λ bound hh ht o le he. omega (arith, tail-finalize s.ring);
}

range-append : (i a b : ℕ) → range i a ++ range (i + a) b ≡ range i (a + b)
range-append i zero b =
    rw (let e : i + 0 ≡ i = omega arith in e)
      (let e : 0 + b ≡ b = omega arith in ap (range i) (sym e))
range-append i (suc a) b =
    let next : i + suc a ≡ i + 1 + a = omega arith in
    let count : suc a + b ≡ suc (a + b) = omega arith in
    rw (next, count) (ap (λ (l : List ℕ). i ∷ l) (range-append (i + 1) a b))

-- What a run leaves.
pub record Played (s : SharedRing) (actions : List Action) : Type 0 where
  pub after : SharedRing
  pub plays : play s actions ≡ done after
  pub sized : IsSized after.ring
  pub same_order : after.ring.order ≡ s.ring.order
  pub count : ℕ
  pub few : count ≤ length actions
  pub heads :
      s.ring.head + length actions < 2 ^ 64
      → (after.heads ≡ s.heads ++ range s.ring.head count) × (after.ring.head ≡ s.ring.head + count)
  pub refused :
      finalized s.ring ≡ true
      → AreRefused s.places
      → (finalized after.ring ≡ true) × AreRefused after.places × (after.stored ≡ s.stored)
  pub ordered :
      s.ring.head + length actions < 2 ^ 62
      → s.ring.tail + length actions < 2 ^ 62
      → IsOrdered s
      → IsOrdered after

pub play_lem : (s : SharedRing) (actions : List Action) → IsSized s.ring → Played s actions
unfolding play
play_lem s [] z = record {
  after = s;
  plays = refl;
  sized = z;
  same_order = refl;
  count = 0;
  few = omega arith;
  heads = λ few. (sym (append-nil s.heads), omega arith);
  refused = λ shut all. (shut, all, refl);
  ordered = λ hh ht o. o;
}
play_lem s (a ∷ actions) z =
    let m = act_lem s a z in
    let p = play_lem m.after actions m.sized in
    record {
      after = p.after;
      plays = rw m.acts p.plays;
      sized = p.sized;
      same_order = p.same_order ∙ m.same_order;
      count = m.count + p.count;
      few = omega (arith, m.few, p.few);
      heads = λ few.
          let mid = m.head (omega arith) in
          let (h, e) = p.heads (omega (arith, m.few)) in
          (
            h
                ∙ rw (m.heads, mid)
                    (append_assoc s.heads (range s.ring.head m.count)
                        (range (s.ring.head + m.count) p.count)
                      ∙ ap (λ (l : List ℕ). s.heads ++ l)
                          (range-append s.ring.head m.count p.count)),
            omega (arith, e, mid),
          );
      refused = λ shut all.
          let (shut1, all1, same1) = m.refused shut all in
          let (shut2, all2, same2) = p.refused shut1 all1 in (shut2, all2, same2 ∙ same1);
      ordered = λ hh ht o.
          let risen = m.head (omega arith) in
          let tail_below =
            m.below (2 ^ 62 - 1 - length actions) (omega arith) (omega arith) o (omega arith)
              (omega arith) in
          p.ordered (omega (arith, risen, m.few)) (omega (arith, tail_below))
            (m.ordered (omega arith) (omega arith) o);
    }
