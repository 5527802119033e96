-- ===== src/Ring/Shared/Tests.antt =====
-- Two threads on a ring of order 0.
use lfqueue.Base.{
  ℕ, suc, ◌+◌, ◌^◌, ◌≡◌, refl, arith, Bool, true, false, List, [], ◌∷◌, ◌++◌, length, Exec, done,
  zero, ap, sym, none, some, inl, ◌<◌, ◌>>=◌,
}
use lfqueue.Alloc.Fresh.{range}
use lfqueue.Lfring.{lfring_map, lfring_pow2, lfring_threshold3, lfring_signed_cmp, modup}
use lfqueue.Ring.{ScqRing, finalized, capacity, look, finalize, ok}
use lfqueue.Ring.Shared.{
  SharedRing, outside, Action, start_enqueue, start_dequeue, access, finalizes, play, act, step,
  share, enqueued, dequeued, removes, passes, tickets, tail_tickets, begin, begin_enqueue,
  test_entry, after_test, after_probe, inserts,
}
use lfqueue.Ring.Shared.Steps.{IsSized}
use lfqueue.Ring.Shared.Places.{AreRefused, IsOrdered, Every, Every-outside}
use lfqueue.Alloc.{
  new_alloc_ring_empty, new_from_sqalloc, allocate_atomic_array_empty,
  allocate_standard_atomic_array,
}
use lfqueue.Alloc.Fresh.{new_alloc_ring_empty_lem}
use lfqueue.Ring.Shared.Conserved.{IsConserved, exactly_once, nothing_lost}
use lfqueue.Ring.Shared.Tickets.{IsAccounted, tickets_apart}
use lfqueue.Ring.Shared.Opened.{opened, numbered}
use lfqueue.Ring.Shared.View.{Has, deq}
use lfqueue.Word.{minus_one}
use lfqueue.Ring.Shared.Safety.{in_bounds, heads_once, tails_once, finalized_for_good}

-- An empty ring, open or finalized.
abbrev ring_of : Bool → ScqRing
ring_of shut = record {
  is_finalized = shut ∷ [];
  head = 2;
  tail = 2;
  threshold = 2;
  array = 3 ∷ 3 ∷ [];
  order = 0;
}

abbrev two_threads : Bool → SharedRing
two_threads shut = record {
  ring = ring_of shut;
  places = outside ∷ outside ∷ [];
  heads = [];
  tails = [];
  stored = [];
  removed = [];
  passed = [];
}

two_threads-IsSized : (shut : Bool) → IsSized (ring_of shut)
two_threads-IsSized shut = record { small = omega arith; size = omega arith }

-- Both are in a call, and their accesses alternate; the first exchange of the enqueuer fails.
abbrev both : List Action
both =
    start_enqueue 0 0
    ∷ start_dequeue 1
    ∷ access 0 false
    ∷ access 1 false
    ∷ access 0 false
    ∷ access 1 false
    ∷ access 0 false
    ∷ access 1 false
    ∷ access 0 true
    ∷ access 1 false
    ∷ access 0 false
    ∷ access 0 false
    ∷ finalizes
    ∷ access 0 false
    ∷ access 1 false
    ∷ []

in_bounds_example :
    (s' : SharedRing) × (play (two_threads false) both ≡ done s')
    × (s'.ring.order ≡ 0)
    × (length s'.ring.array ≡ 2 ^ suc 0)
in_bounds_example = in_bounds (two_threads false) both (two_threads-IsSized false)

heads_once_example :
    (s' : SharedRing) × (count : ℕ) × (play (two_threads false) both ≡ done s')
    × (s'.heads ≡ [] ++ range 2 count)
    × (s'.ring.head ≡ 2 + count)
heads_once_example = heads_once (two_threads false) both (two_threads-IsSized false) (omega arith)

two_threads-IsOrdered : IsOrdered (two_threads false)
two_threads-IsOrdered = record { in_order = Every-outside _ 2 tt; falling = tt }

tails_once_example : (s' : SharedRing) × (play (two_threads false) both ≡ done s') × IsOrdered s'
tails_once_example =
    tails_once (two_threads false) both (two_threads-IsSized false) two_threads-IsOrdered
      (omega arith) (omega arith)

two_threads-AreRefused : AreRefused (outside ∷ outside ∷ [])
two_threads-AreRefused = Every-outside _ 2 refl

finalized_for_good_example :
    (s' : SharedRing) × (play (two_threads true) both ≡ done s')
    × (finalized s'.ring ≡ true)
    × AreRefused s'.places
    × (s'.stored ≡ [])
finalized_for_good_example =
    finalized_for_good (two_threads true) both (two_threads-IsSized true) refl
      two_threads-AreRefused

-- In the open ring the enqueuer inserts its entry though the ring is finalized after its check, and
-- in the finalized one it does not.
entries : Bool → Exec (List (ℕ × ℕ))
entries shut = play (two_threads shut) both >>= λ s. done s.stored

open_inserts : entries false ≡ done ((2, 0) ∷ [])
unfolding entries play act step begin begin_enqueue capacity lfring_map lfring_pow2 test_entry
    after_test lfring_signed_cmp modup after_probe look finalize inserts
open_inserts = refl

shut_refuses : entries true ≡ done []
unfolding entries play act step begin begin_enqueue capacity lfring_map lfring_pow2 test_entry
    after_test lfring_signed_cmp modup after_probe look finalize inserts
shut_refuses = refl

-- Thread 0 inserts the index 0, and thread 1, which is in its call by then, removes it.
abbrev hands_over : List Action
hands_over =
    start_dequeue 1
    ∷ start_enqueue 0 0
    ∷ access 0 false
    ∷ access 0 false
    ∷ access 0 false
    ∷ access 0 false
    ∷ access 0 false
    ∷ access 0 false
    ∷ access 1 false
    ∷ access 1 false
    ∷ access 1 false
    ∷ access 1 false
    ∷ []

new_ring_head : (new_alloc_ring_empty 1 0).head ≡ 0
unfolding new_alloc_ring_empty new_from_sqalloc
new_ring_head = refl

new_ring_few : (new_alloc_ring_empty 1 0).tail + length hands_over < 2 ^ 61
new_ring_few = omega (arith, (new_alloc_ring_empty_lem 1 0 (omega arith)).2)

exactly_once_example :
    (s' : SharedRing) × (play (opened (new_alloc_ring_empty 1 0) [] 2) hands_over ≡ done s')
    × IsConserved s'
exactly_once_example =
    exactly_once (new_alloc_ring_empty 1 0) [] 2 hands_over
      ((new_alloc_ring_empty_lem 1 0 (omega arith)).0) new_ring_head new_ring_few

tickets_apart_example :
    (s' : SharedRing) × (play (opened (new_alloc_ring_empty 1 0) [] 2) hands_over ≡ done s')
    × IsAccounted s'
tickets_apart_example =
    tickets_apart (new_alloc_ring_empty 1 0) [] 2 hands_over
      (new_alloc_ring_empty_lem 1 0 (omega arith)).0 new_ring_head new_ring_few

-- What it leaves.
abbrev handed_over : SharedRing
handed_over = record {
  ring = record {
    is_finalized = false ∷ [];
    head = 1;
    tail = 1;
    threshold = 2;
    array = 3 ∷ minus_one ∷ [];
    order = 0;
  };
  places = enqueued ok ∷ dequeued (some 0) ∷ [];
  heads = 0 ∷ [];
  tails = 0 ∷ [];
  stored = (0, 0) ∷ [];
  removed = (0, 0) ∷ [];
  passed = [];
}

hands_over-play : play (opened (new_alloc_ring_empty 1 0) [] 2) hands_over ≡ done handed_over
unfolding new_alloc_ring_empty new_from_sqalloc allocate_atomic_array_empty
    allocate_standard_atomic_array opened share numbered play act step begin begin_enqueue capacity
    lfring_map lfring_pow2 lfring_threshold3 test_entry after_test lfring_signed_cmp modup
    after_probe look inserts removes passes tickets tail_tickets
hands_over-play = refl

handed_over-idle : Every (λ p. deq p ≡ none) handed_over.places
handed_over-idle zero p e = ap deq (let same : enqueued ok ≡ p = cc in sym same)
handed_over-idle (suc zero) p e = ap deq (let same : dequeued (some 0) ≡ p = cc in sym same)
handed_over-idle (suc (suc i)) p e = absurd (cc)

nothing_lost_example : Has 0 0 handed_over.removed
nothing_lost_example =
    nothing_lost (new_alloc_ring_empty 1 0) [] 2 hands_over handed_over
      ((new_alloc_ring_empty_lem 1 0 (omega arith)).0) new_ring_head new_ring_few hands_over-play
      handed_over-idle 0 0 (inl (refl, refl)) (omega arith)
