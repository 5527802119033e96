-- ===== src/Ring/Shared/Steps.antt =====
-- What one access of a thread keeps.
use lfqueue.Base.{
  ℕ, suc, ◌+◌, ◌%◌, ◌^◌, ◌≤◌, ◌<◌, ◌≡◌, refl, arith, ap, sym, ◌∙◌, ◌==◌, if◌then◌else◌,
}
use lfqueue.Base.{Bool, true, false, some, List, [], length, get_elem?, get_elem?_total}
use lfqueue.Base.{done}
use lfqueue.Word.{wrapping_add}
use lfqueue.Lfring.{lfring_map}
use lfqueue.Lfring.Laws.{lfring_pow2_lem, lfring_map_lem}
use lfqueue.Ring.{ScqRing, finalized, load}
use lfqueue.Ring.Holds.{slots, sizes}
use lfqueue.Ring.Shared.{
  Place, claim_tail, load_entry, check_head, check_finalized, exchange_entry, load_threshold,
  store_threshold, enqueued, outside, check_threshold, claim_head, probe_entry, take_entry,
  swap_entry, load_tail, catch_tail, reload_head, reload_tail, lower_empty, lower_threshold,
  dequeued,
}
use lfqueue.Ring.Shared.{n_enqueue, n_dequeue, step, inserts, tickets, tail_tickets}
use lfqueue.Ring.Shared.Given.{at_claim, at_tail, tickets_none, tail_tickets_none}
use lfqueue.Alloc.Fresh.{range}

-- The ring has an order up to 59 and an array of its size.
pub record IsSized (r : ScqRing) : Type 0 where
  pub small : r.order ≤ 59
  pub size : length r.array ≡ slots r

pub n_enqueue_lem : (r : ScqRing) → r.order ≤ 59 → n_enqueue r ≡ slots r
n_enqueue_lem r small =
    rw (lfring_pow2_lem r.order (omega arith)) (omega (arith, sizes r.order small))

pub n_dequeue_lem : (r : ScqRing) → r.order ≤ 59 → n_dequeue r ≡ slots r
n_dequeue_lem r small =
    let up : wrapping_add r.order 1 ≡ suc r.order = omega arith in
    rw up (lfring_pow2_lem (suc r.order) (omega arith))

pub load_lem : (a : List ℕ) (i e : ℕ) → get_elem? a i ≡ some e → load a i ≡ done e
load_lem a i e h = rw (h, load)

-- The slot of a ticket is in the array.
pub loads :
    (r : ScqRing) (ticket n : ℕ)
    → IsSized r
    → n ≡ slots r
    → (entry : ℕ) × (load r.array (lfring_map ticket n) ≡ done entry)
loads r ticket n z e =
    let slot : lfring_map ticket n ≡ ticket % slots r =
      rw e (lfring_map_lem (suc r.order) ticket (omega (arith, z.small))) in
    let positive : 0 < slots r = omega (arith, sizes r.order z.small) in
    let inside : lfring_map ticket n < length r.array = omega (arith, slot, z.size, positive) in
    let (entry, here) = get_elem?_total r.array (lfring_map ticket n) inside in
    (entry, load_lem r.array (lfring_map ticket n) entry here)

-- Is the thread before the exchange that inserts an entry?
abbrev pub at_exchange : Place → ℕ
at_exchange (exchange_entry eidx tail entry) = 1
at_exchange place = 0

-- A ticket of `head` that a thread has is one that was given out, and `catchup` only raises `tail`.
abbrev pub IsInOrder : Place → ScqRing → Type 0
IsInOrder (probe_entry head attempt) r = head < r.head
IsInOrder (take_entry head entry) r = head < r.head
IsInOrder (swap_entry head attempt entry entry_new) r = head < r.head
IsInOrder (load_tail head) r = head < r.head
IsInOrder (catch_tail tail head) r = (tail ≤ head) × (head ≤ r.head)
IsInOrder (reload_tail head) r = head ≤ r.head
IsInOrder place r = Unit

-- What becomes of `tail`, where the counters have not come near the sign bit.
pub record Raised (p : Place) (r : ScqRing) (next : Place) (ring : ScqRing) : Type 0 where
  pub in_order : IsInOrder next ring
  pub above : r.tail + at_tail p ≤ ring.tail
  pub below : (bound : ℕ) → r.tail + at_tail p ≤ bound → r.head ≤ bound → ring.tail ≤ bound

-- What an access leads to, and what it keeps.
pub record Stepped (spurious : Bool) (p : Place) (r : ScqRing) : Type 0 where
  pub next : Place
  pub ring : ScqRing
  pub steps : step spurious p r ≡ done (next, ring)
  pub same_order : ring.order ≡ r.order
  pub same_length : length ring.array ≡ length r.array
  pub same_flags : ring.is_finalized ≡ r.is_finalized
  pub ticket : ring.head ≡ (if at_claim p == 1 then wrapping_add r.head 1 else r.head)
  pub head_ticket : tickets p next ≡ range r.head (at_claim p)
  pub tail_ticket : tail_tickets p next ≡ range r.tail (at_tail p)
  pub raised : r.head < 2 ^ 62 → r.tail < 2 ^ 62 → IsInOrder p r → Raised p r next ring
  pub no_insert :
      finalized r ≡ true → at_exchange p ≡ 0 → (at_exchange next ≡ 0) × (inserts p next r ≡ [])

inserts_lem : (p next : Place) (r : ScqRing) → at_exchange p ≡ 0 → inserts p next r ≡ []
unfolding inserts
inserts_lem (exchange_entry e t x) next r before = absurd (omega arith)
inserts_lem outside next r before = refl
inserts_lem (claim_tail e) next r before = refl
inserts_lem (load_entry e t) next r before = refl
inserts_lem (check_head e t x) next r before = refl
inserts_lem (check_finalized e t x) next r before = refl
inserts_lem load_threshold next r before = refl
inserts_lem store_threshold next r before = refl
inserts_lem (enqueued e) next r before = refl
inserts_lem check_threshold next r before = refl
inserts_lem claim_head next r before = refl
inserts_lem (probe_entry h a) next r before = refl
inserts_lem (take_entry h e) next r before = refl
inserts_lem (swap_entry h a e f) next r before = refl
inserts_lem (load_tail h) next r before = refl
inserts_lem (catch_tail t h) next r before = refl
inserts_lem reload_head next r before = refl
inserts_lem (reload_tail h) next r before = refl
inserts_lem lower_empty next r before = refl
inserts_lem lower_threshold next r before = refl
inserts_lem (dequeued e) next r before = refl

module _ {spurious : Bool} {p : Place} {r : ScqRing} where
  -- An access that takes no ticket from `head`.
  pub arrives :
      (next : Place) (ring : ScqRing)
      → step spurious p r ≡ done (next, ring)
      → ring.order ≡ r.order
      → length ring.array ≡ length r.array
      → ring.is_finalized ≡ r.is_finalized
      → ring.head ≡ r.head
      → ring.tail ≡ r.tail
      → at_claim p ≡ 0
      → at_tail p ≡ 0
      → (finalized r ≡ true → at_exchange p ≡ 0 → at_exchange next ≡ 0)
      → (r.head < 2 ^ 62 → r.tail < 2 ^ 62 → IsInOrder p r → IsInOrder next ring)
      → Stepped spurious p r
  arrives next ring steps o l f h t c a n g = record {
    next = next;
    ring = ring;
    steps = steps;
    same_order = o;
    same_length = l;
    same_flags = f;
    ticket = h ∙ rw c refl;
    head_ticket = tickets_none p next c ∙ ap (range r.head) (sym c);
    tail_ticket = tail_tickets_none p next a ∙ ap (range r.tail) (sym a);
    raised = λ small_head small_tail good. record {
      in_order = g small_head small_tail good;
      above = omega (arith, t, a);
      below = λ bound le he. omega (arith, t);
    };
    no_insert = λ shut before. (n shut before, inserts_lem p next r before);
  }

  -- An access that stores nothing.
  pub reads :
      (next : Place)
      → step spurious p r ≡ done (next, r)
      → at_claim p ≡ 0
      → at_tail p ≡ 0
      → (finalized r ≡ true → at_exchange p ≡ 0 → at_exchange next ≡ 0)
      → (r.head < 2 ^ 62 → r.tail < 2 ^ 62 → IsInOrder p r → IsInOrder next r)
      → Stepped spurious p r
  reads next steps = arrives next r steps refl refl refl refl refl

  -- An access that stores nothing and leads to one of two places.
  pub branches :
      (t : Bool) (yes_place no_place : Place)
      → step spurious p r ≡ (if t then done (yes_place, r) else done (no_place, r))
      → at_claim p ≡ 0
      → at_tail p ≡ 0
      → at_exchange yes_place ≡ 0
      → at_exchange no_place ≡ 0
      → IsInOrder yes_place r
      → IsInOrder no_place r
      → Stepped spurious p r
  branches true yes_place no_place steps c a y n g g' =
      reads yes_place steps c a (λ shut before. y) (λ hh ht h. g)
  branches false yes_place no_place steps c a y n g g' =
      reads no_place steps c a (λ shut before. n) (λ hh ht h. g')
