-- ===== src/Bounded/Shared/Moves.antt =====
-- How a thread goes from place to place in the calls of a ring, and what that does to the logs.
use lfqueue.Base.{ℕ, zero, suc, ◌+◌, ◌^◌, ◌≡◌, refl, arith, ap, sym, ◌∙◌, subst}
use lfqueue.Base.{Bool, false, none, some, List, [], ◌∷◌, ◌++◌, get_elem?, set, Exec, done}
use lfqueue.Ring.{ScqRing, finalized}
use lfqueue.Ring.Shared.{Place, outside, step}
use lfqueue.Ring.Shared.View.{View, enq, deq, IsGood}
use lfqueue.Ring.Shared.Steps.{IsInOrder}
use lfqueue.Ring.Shared.Kept.{set_here}
use lfqueue.Bounded.Shared.Rings.{Log, IsWell, IsLow, settles, view_of}
use lfqueue.Bounded.Shared.Counts.{ind, count}

-- A place without a ticket, which any thread without one may go to.
pub record IsStill (n : ℕ) (p : Place) : Type 0 where
  pub no_enq : enq p ≡ none
  pub no_deq : deq p ≡ none
  pub in_order : (r : ScqRing) → IsInOrder p r
  pub good : (v : View) → IsGood n v p

pub outside-IsStill : (n : ℕ) → IsStill n outside
outside-IsStill n = record { no_enq = refl; no_deq = refl; in_order = λ r. tt; good = λ v. tt }

pub goes :
    {order : ℕ} {r : ScqRing} {l : Log} {ps : List Place} (i : ℕ) (p q : Place)
    → IsWell order r l ps
    → get_elem? ps i ≡ some p
    → enq p ≡ none
    → deq p ≡ none
    → IsStill (2 ^ suc order) q
    → IsWell order r l (set ps i q)
goes {order} {r} {l} {ps} i p q w here e d s =
    settles order r l ps i p q w here e d s.no_enq s.no_deq (s.in_order r) (
      subst (λ (k : ℕ). IsGood (2 ^ suc k) (view_of r l) q) (sym w.order_is) (s.good (view_of r l)))

set-set : (ps : List Place) (i : ℕ) (a b : Place) → set (set ps i a) i b ≡ set ps i b
set-set [] i a b = refl
set-set (p ∷ ps) zero a b = refl
set-set (p ∷ ps) (suc i) a b = ap (λ (l : List Place). p ∷ l) (set-set ps i a b)

-- A thread leaves a call at a place without a ticket.
pub ends :
    (order : ℕ) (r : ScqRing) (l : Log) (ps : List Place) (i : ℕ) (p q : Place)
    → get_elem? ps i ≡ some p
    → IsWell order r l (set ps i q)
    → enq q ≡ none
    → deq q ≡ none
    → IsWell order r l (set ps i outside)
ends order r l ps i p q here w e d = subst (IsWell order r l) (set-set ps i q outside) (
    goes {order = order} {r = r} {l = l} i q outside w (set_here ps i p q here) e d
      (outside-IsStill (2 ^ suc order)))

pub count-none : (j : ℕ) (x l : List (ℕ × ℕ)) → x ≡ [] → count j (x ++ l) ≡ count j l
count-none j x l e = ap (λ (y : List (ℕ × ℕ)). count j (y ++ l)) e

pub count-one :
    (j t i : ℕ) (x l : List (ℕ × ℕ)) → x ≡ (t, i) ∷ [] → count j (x ++ l) ≡ ind i j + count j l
unfolding count
count-one j t i x l e = ap (λ (y : List (ℕ × ℕ)). count j (y ++ l)) e

pub raise_bound : (bound : ℕ) (r : ScqRing) → IsLow bound r → IsLow (bound + 1) r
raise_bound bound r h = (omega arith, omega arith)

pub same_step :
    (p : Place) (r r1 r2 : ScqRing) (spurious : Bool) (n1 n2 : Place)
    → step spurious p r ≡ done (n1, r1)
    → step spurious p r ≡ done (n2, r2)
    → n1 ≡ n2
same_step p r r1 r2 spurious n1 n2 e f =
    let both : ◌≡◌ {A = Exec (Place × ScqRing)} (done (n1, r1)) (done (n2, r2)) = sym e ∙ f in cc

pub finalized_same :
    (r r' : ScqRing) → r'.is_finalized ≡ r.is_finalized → finalized r ≡ false → finalized r' ≡ false
finalized_same r r' e h = (let same : finalized r' ≡ finalized r = rw e refl in same) ∙ h
