-- ===== src/Ring/Shared/Places.antt =====
-- Where the threads are, and the tickets that they take.
use lfqueue.Base.{ℕ, zero, suc, ◌+◌, ◌≤◌, ◌<◌, ◌≡◌, refl, arith, subst, leb}
use lfqueue.Base.{Bool-cases, inl, inr, none, some, List, [], ◌∷◌, ◌++◌, get_elem?, set}
use lfqueue.Base.{replicate}
use lfqueue.Alloc.Fresh.{range}
use lfqueue.Ring
use lfqueue.Ring.{ScqRing, Enqueued, finalizable, finalized}
use lfqueue.Ring.Shared.{
  claim_tail, load_entry, check_head, check_finalized, exchange_entry, load_threshold,
  store_threshold, probe_entry, take_entry, swap_entry, load_tail, catch_tail, reload_head,
  reload_tail, lower_empty, lower_threshold, Place, outside, enqueued, dequeued, claim_head,
  SharedRing, begin, begin_enqueue, check_threshold,
}
use lfqueue.Ring.Shared.View.{enq, deq}
use lfqueue.Ring.Shared.Steps.{at_exchange, IsInOrder}

-- Every thread is at a place with the property `P`.
abbrev pub Every : (Place → Type 0) → List Place → Type 0
Every P ps = (i : ℕ) (p : Place) → get_elem? ps i ≡ some p → P p

pub Every-set :
    (P : Place → Type 0) (ps : List Place) (i : ℕ) (next : Place)
    → P next
    → Every P ps
    → Every P (set ps i next)
Every-set P [] i next n all j p e = absurd (cc)
Every-set P (q ∷ ps) zero next n all zero p e = let same : next ≡ p = cc in subst P same n
Every-set P (q ∷ ps) zero next n all (suc j) p e = all (suc j) p e
Every-set P (q ∷ ps) (suc i) next n all zero p e = all zero p e
Every-set P (q ∷ ps) (suc i) next n all (suc j) p e =
    Every-set P ps i next n (λ k o f. all (suc k) o f) j p e

pub Every-outside : (P : Place → Type 0) (count : ℕ) → P outside → Every P (replicate count outside)
Every-outside P zero o i p e = absurd (cc)
Every-outside P (suc count) o zero p e = let same : outside ≡ p = cc in subst P same o
Every-outside P (suc count) o (suc i) p e = Every-outside P count o i p e

-- No thread is before the exchange that inserts an entry.
abbrev pub AreRefused : List Place → Type 0
AreRefused ps = Every (λ p. at_exchange p ≡ 0) ps

-- Each number is below the one before it, and the first below the bound.
abbrev pub IsFalling : ℕ → List ℕ → Type 0
IsFalling bound [] = Unit
IsFalling bound (t ∷ ts) = (t < bound) × IsFalling t ts

pub IsFalling-above : (ts : List ℕ) {a b : ℕ} → a ≤ b → IsFalling a ts → IsFalling b ts
IsFalling-above [] le f = tt
IsFalling-above (t ∷ ts) le f = (omega (arith, f.0), f.1)

-- Every thread is in order, and the tickets of `tail` were given out once each.
pub record IsOrdered (s : SharedRing) : Type 0 where
  pub in_order : Every (λ p. IsInOrder p s.ring) s.places
  pub falling : IsFalling s.ring.tail s.tails

pub IsInOrder-later :
    (p : Place) (r r' : ScqRing) → r.head ≤ r'.head → IsInOrder p r → IsInOrder p r'
IsInOrder-later outside r r' le o = tt
IsInOrder-later (claim_tail e) r r' le o = tt
IsInOrder-later (load_entry e t) r r' le o = tt
IsInOrder-later (check_head e t x) r r' le o = tt
IsInOrder-later (check_finalized e t x) r r' le o = tt
IsInOrder-later (exchange_entry e t x) r r' le o = tt
IsInOrder-later load_threshold r r' le o = tt
IsInOrder-later store_threshold r r' le o = tt
IsInOrder-later (enqueued e) r r' le o = tt
IsInOrder-later check_threshold r r' le o = tt
IsInOrder-later claim_head r r' le o = tt
IsInOrder-later (probe_entry h a) r r' le o = omega arith
IsInOrder-later (take_entry h e) r r' le o = omega arith
IsInOrder-later (swap_entry h a e f) r r' le o = omega arith
IsInOrder-later (load_tail h) r r' le o = omega arith
IsInOrder-later (catch_tail t h) r r' le o = (o.0, omega arith)
IsInOrder-later reload_head r r' le o = tt
IsInOrder-later (reload_tail h) r r' le o = omega arith
IsInOrder-later lower_empty r r' le o = tt
IsInOrder-later lower_threshold r r' le o = tt
IsInOrder-later (dequeued e) r r' le o = tt

-- To give out the next ticket, if any.
pub IsFalling-range :
    (from k b : ℕ) (ts : List ℕ)
    → k ≤ 1
    → from + k ≤ b
    → IsFalling from ts
    → IsFalling b (range from k ++ ts)
IsFalling-range from zero b ts few le f = IsFalling-above ts (omega arith) f
IsFalling-range from (suc zero) b ts few le f = (omega arith, f)
IsFalling-range from (suc (suc k)) b ts few le f = absurd (omega arith)

-- A call starts only in a thread that has no ticket.
pub begin_cases :
    (P : Place → Type 0) (p call : Place)
    → (enq p ≡ none → deq p ≡ none → P call)
    → P p
    → P (begin p call)
unfolding begin
begin_cases P outside call c before = c refl refl
begin_cases P (claim_tail e) call c before = before
begin_cases P (load_entry e t) call c before = before
begin_cases P (check_head e t x) call c before = before
begin_cases P (check_finalized e t x) call c before = before
begin_cases P (exchange_entry e t x) call c before = before
begin_cases P load_threshold call c before = before
begin_cases P store_threshold call c before = before
begin_cases P (enqueued e) call c before = c refl refl
begin_cases P check_threshold call c before = before
begin_cases P claim_head call c before = before
begin_cases P (probe_entry h a) call c before = before
begin_cases P (take_entry h e) call c before = before
begin_cases P (swap_entry h a e f) call c before = before
begin_cases P (load_tail h) call c before = before
begin_cases P (catch_tail t h) call c before = before
begin_cases P reload_head call c before = before
begin_cases P (reload_tail h) call c before = before
begin_cases P lower_empty call c before = before
begin_cases P lower_threshold call c before = before
begin_cases P (dequeued e) call c before = c refl refl

pub begin_enqueue_cases :
    (r : ScqRing) (eidx : ℕ) (P : Place → Type 0)
    → ((result : Enqueued) → P (enqueued result))
    → ((k : ℕ) → P (claim_tail k))
    → P (begin_enqueue r eidx)
unfolding begin_enqueue
begin_enqueue_cases r eidx P end claim = elim (Bool-cases (leb (Ring.capacity r) eidx)) [
  | inl t ↦ rw t (end _)
  | inr t ↦ rw t (claim _)
]
