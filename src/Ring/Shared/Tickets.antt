-- ===== src/Ring/Shared/Tickets.antt =====
-- Who has which ticket.
use lfqueue.Base.{ℕ, ◌+◌, ◌^◌, ◌<◌, ◌≡◌, arith, some, List, length, get_elem?, done}
use lfqueue.Ring.{ScqRing}
use lfqueue.Ring.Holds.{Holds, slots}
use lfqueue.Ring.Shared.{Place, SharedRing, Action, play, share}
use lfqueue.Ring.Shared.View.{HasTicket, In, enq, deq}
use lfqueue.Ring.Shared.Kept.{IsApart, Gone, enq_held, deq_held}
use lfqueue.Ring.Shared.Consistent.{view_of, play_kept}
use lfqueue.Ring.Shared.Opened.{opened, opened-IsSized, opened-IsOrdered, opened-IsConsistent}

-- Where the tickets are: no two threads have the same one, a thread has tickets below the counter,
-- for which nothing has been stored, removed or passed yet, and each ticket that `head` has passed
-- is with a thread, was passed, or an index was removed with it.
pub record IsAccounted (s : SharedRing) : Type 0 where
  pub enq_apart : IsApart enq s.places
  pub deq_apart : IsApart deq s.places
  pub enq_open :
      (i t : ℕ) (p : Place)
      → get_elem? s.places i ≡ some p
      → enq p ≡ some t
      → (t < s.ring.tail) × ¬ HasTicket t s.stored
  pub deq_open :
      (i t : ℕ) (p : Place)
      → get_elem? s.places i ≡ some p
      → deq p ≡ some t
      → (t < s.ring.head) × (¬ HasTicket t s.removed) × ¬ In t s.passed
  pub gone : (t : ℕ) → t < s.ring.head → Gone (view_of s) s.places t

-- On a new ring that was made with the indices `q`, however the accesses of any number of threads
-- follow one another, whichever exchanges fail spuriously, and while fewer than 2 ^ 61 tickets can
-- have been taken: no two threads work on the same ticket of `tail`, or of `head`; a thread in
-- `enqueue` has a ticket below `tail` for which nothing has been stored, and one in `dequeue` a
-- ticket below `head` that was neither passed nor brought an index; and each ticket below `head` is
-- with a thread, was passed, or an index was removed with it.
pub tickets_apart :
    (r : ScqRing) (q : List ℕ) (count : ℕ) (actions : List Action)
    → Holds r q
    → r.head ≡ 0
    → r.tail + length actions < 2 ^ 61
    → (s' : SharedRing) × (play (opened r q count) actions ≡ done s') × IsAccounted s'
unfolding opened share
tickets_apart r q count actions h first few =
    let (s', plays, order, k, head, tail) =
      play_kept (opened r q count) actions (opened-IsSized r q h first count)
        (opened-IsOrdered r q h first count) (opened-IsConsistent r q h first count)
        (omega (arith, first)) few in
    (
      s',
      plays,
      record {
        enq_apart = k.enq_apart;
        deq_apart = k.deq_apart;
        enq_open =
            λ i t p here has. enq_held (slots s'.ring) (view_of s') p t (k.good i p here) has;
        deq_open = λ i t p here has.
            let c = deq_held (slots s'.ring) (view_of s') p t (k.good i p here) has in
            (c.given, c.unremoved, c.unpassed);
        gone = k.gone;
      },
    )
