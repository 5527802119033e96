-- ===== src/Ring/Shared/Given.antt =====
-- The tickets that an access gives a thread.
use lfqueue.Base.{ℕ, ◌≤◌, ◌≡◌, refl, arith, []}
use lfqueue.Ring.Shared.{
  Place, claim_tail, load_entry, check_head, check_finalized, exchange_entry, load_threshold,
  store_threshold, enqueued, outside, check_threshold, claim_head, probe_entry, take_entry,
  swap_entry, load_tail, catch_tail, reload_head, reload_tail, lower_empty, lower_threshold,
  dequeued, tickets, tail_tickets,
}

-- Is the thread before the access that takes a ticket of `head`, or of `tail`?
abbrev pub at_claim : Place → ℕ
at_claim claim_head = 1
at_claim place = 0

abbrev pub at_tail : Place → ℕ
at_tail (claim_tail eidx) = 1
at_tail place = 0

-- An access takes one ticket at most.
pub few_claims : (p : Place) → (at_claim p ≤ 1) × (at_tail p ≤ 1)
few_claims outside = (omega arith, omega arith)
few_claims (claim_tail e) = (omega arith, omega arith)
few_claims (load_entry e t) = (omega arith, omega arith)
few_claims (check_head e t x) = (omega arith, omega arith)
few_claims (check_finalized e t x) = (omega arith, omega arith)
few_claims (exchange_entry e t x) = (omega arith, omega arith)
few_claims load_threshold = (omega arith, omega arith)
few_claims store_threshold = (omega arith, omega arith)
few_claims (enqueued e) = (omega arith, omega arith)
few_claims check_threshold = (omega arith, omega arith)
few_claims claim_head = (omega arith, omega arith)
few_claims (probe_entry h a) = (omega arith, omega arith)
few_claims (take_entry h e) = (omega arith, omega arith)
few_claims (swap_entry h a e f) = (omega arith, omega arith)
few_claims (load_tail h) = (omega arith, omega arith)
few_claims (catch_tail t h) = (omega arith, omega arith)
few_claims reload_head = (omega arith, omega arith)
few_claims (reload_tail h) = (omega arith, omega arith)
few_claims lower_empty = (omega arith, omega arith)
few_claims lower_threshold = (omega arith, omega arith)
few_claims (dequeued e) = (omega arith, omega arith)

pub tickets_none : (p next : Place) → at_claim p ≡ 0 → tickets p next ≡ []
unfolding tickets
tickets_none outside next none_taken = refl
tickets_none (claim_tail e) next none_taken = refl
tickets_none (load_entry e t) next none_taken = refl
tickets_none (check_head e t x) next none_taken = refl
tickets_none (check_finalized e t x) next none_taken = refl
tickets_none (exchange_entry e t x) next none_taken = refl
tickets_none load_threshold next none_taken = refl
tickets_none store_threshold next none_taken = refl
tickets_none (enqueued e) next none_taken = refl
tickets_none check_threshold next none_taken = refl
tickets_none claim_head next none_taken = absurd (omega arith)
tickets_none (probe_entry h a) next none_taken = refl
tickets_none (take_entry h e) next none_taken = refl
tickets_none (swap_entry h a e f) next none_taken = refl
tickets_none (load_tail h) next none_taken = refl
tickets_none (catch_tail t h) next none_taken = refl
tickets_none reload_head next none_taken = refl
tickets_none (reload_tail h) next none_taken = refl
tickets_none lower_empty next none_taken = refl
tickets_none lower_threshold next none_taken = refl
tickets_none (dequeued e) next none_taken = refl

pub tail_tickets_none : (p next : Place) → at_tail p ≡ 0 → tail_tickets p next ≡ []
unfolding tail_tickets
tail_tickets_none outside next none_taken = refl
tail_tickets_none (claim_tail e) next none_taken = absurd (omega arith)
tail_tickets_none (load_entry e t) next none_taken = refl
tail_tickets_none (check_head e t x) next none_taken = refl
tail_tickets_none (check_finalized e t x) next none_taken = refl
tail_tickets_none (exchange_entry e t x) next none_taken = refl
tail_tickets_none load_threshold next none_taken = refl
tail_tickets_none store_threshold next none_taken = refl
tail_tickets_none (enqueued e) next none_taken = refl
tail_tickets_none check_threshold next none_taken = refl
tail_tickets_none claim_head next none_taken = refl
tail_tickets_none (probe_entry h a) next none_taken = refl
tail_tickets_none (take_entry h e) next none_taken = refl
tail_tickets_none (swap_entry h a e f) next none_taken = refl
tail_tickets_none (load_tail h) next none_taken = refl
tail_tickets_none (catch_tail t h) next none_taken = refl
tail_tickets_none reload_head next none_taken = refl
tail_tickets_none (reload_tail h) next none_taken = refl
tail_tickets_none lower_empty next none_taken = refl
tail_tickets_none lower_threshold next none_taken = refl
tail_tickets_none (dequeued e) next none_taken = refl
