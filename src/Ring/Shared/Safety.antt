-- ===== src/Ring/Shared/Safety.antt =====
-- What the threads on one ring cannot do.
use lfqueue.Base.{ℕ, suc, ◌+◌, ◌^◌, ◌<◌, ◌≡◌, ap, ◌∙◌, true, List, ◌++◌, length, done}
use lfqueue.Alloc.Fresh.{range}
use lfqueue.Ring.{finalized}
use lfqueue.Ring.Shared.{SharedRing, Action, play}
use lfqueue.Ring.Shared.Steps.{IsSized}
use lfqueue.Ring.Shared.Places.{AreRefused, IsOrdered}
use lfqueue.Ring.Shared.Runs.{play_lem}

-- On a ring of an order up to 59 with an array of `2 ^ (order + 1)` slots, however the accesses of
-- any number of threads follow one another, and whichever exchanges fail spuriously: every run
-- ends, so no access is out of the bounds of the array, and the order and the length of the array
-- stay.
pub in_bounds :
    (s : SharedRing) (actions : List Action)
    → IsSized s.ring
    → (s' : SharedRing) × (play s actions ≡ done s')
      × (s'.ring.order ≡ s.ring.order)
      × (length s'.ring.array ≡ 2 ^ suc s.ring.order)
in_bounds s actions z =
    let p = play_lem s actions z in
    (p.after, p.plays, p.same_order, p.sized.size ∙ ap (λ (k : ℕ). 2 ^ suc k) p.same_order)

-- However the accesses follow one another, and while `head` does not wrap: the tickets that threads
-- in `dequeue` are given are the numbers from the first value of `head` on, in order and each of
-- them once, and `head` stands behind the last.
pub heads_once :
    (s : SharedRing) (actions : List Action)
    → IsSized s.ring
    → s.ring.head + length actions < 2 ^ 64
    → (s' : SharedRing) × (count : ℕ) × (play s actions ≡ done s')
      × (s'.heads ≡ s.heads ++ range s.ring.head count)
      × (s'.ring.head ≡ s.ring.head + count)
heads_once s actions z few =
    let p = play_lem s actions z in let (h, e) = p.heads few in (p.after, p.count, p.plays, h, e)

-- However the accesses follow one another from a state in order, and while neither counter comes near
-- 2 ^ 62: the tickets that threads in `enqueue` are given rise, so that none is given to two of them,
-- though `catchup` moves `tail` too, and a thread in `dequeue` that has a ticket of `head` has one
-- below `head`.
pub tails_once :
    (s : SharedRing) (actions : List Action)
    → IsSized s.ring
    → IsOrdered s
    → s.ring.head + length actions < 2 ^ 62
    → s.ring.tail + length actions < 2 ^ 62
    → (s' : SharedRing) × (play s actions ≡ done s') × IsOrdered s'
tails_once s actions z o few_heads few_tails =
    let p = play_lem s actions z in (p.after, p.plays, p.ordered few_heads few_tails o)

-- When a ring has been finalized, and no thread is past the check of the flag and before its
-- exchange: however the accesses follow one another from then on, no entry is inserted any more,
-- and the ring stays finalized.
pub finalized_for_good :
    (s : SharedRing) (actions : List Action)
    → IsSized s.ring
    → finalized s.ring ≡ true
    → AreRefused s.places
    → (s' : SharedRing) × (play s actions ≡ done s')
      × (finalized s'.ring ≡ true)
      × AreRefused s'.places
      × (s'.stored ≡ s.stored)
finalized_for_good s actions z shut all =
    let p = play_lem s actions z in
    let (f, r, same) = p.refused shut all in (p.after, p.plays, f, r, same)
