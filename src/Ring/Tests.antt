-- ===== src/Ring/Tests.antt =====
-- Runs of the ring on concrete inputs.
use lfqueue.Base.{
  true, false, ℕ, zero, suc, ◌≤◌, ◌≡◌, ◌↔◌, refl, arith, leb, lt→leb, Option, none, some, List, [],
  ◌∷◌, Exec, done, panic, ◌>>=◌,
}
use lfqueue.Lfring.{
  lfring_pow2, lfring_map, lfring_threshold3, lfring_signed_cmp, modup, determine_order,
  determine_order_const,
}
use lfqueue.Lfring.Order.{determine_order_exact, determine_order_const_lem, IsAccepted, IsLog}
use lfqueue.Ring.{ScqRing, Cpu, ok, err, queue_finalized, finalize, enqueue, dequeue, eq}
use lfqueue.Ring.Holds.{Holds, IsFair, IsTight}
use lfqueue.Ring.Finalize.{finalize-Holds}
use lfqueue.Ring.Equal.{eq_lem}
use lfqueue.Ring.Fifo.{Kept, enqueue_refuses, enqueue_appends, dequeue_removes}
use lfqueue.Alloc.{
  new_alloc_ring_empty, new_alloc_ring_full, new_from_sqalloc, allocate_atomic_array_empty, store,
  allocate_standard_atomic_array, allocate_atomic_array_full, initialize_atomic_array_full,
}
use lfqueue.Alloc.Fresh.{IsNew, new_alloc_ring_empty_lem, new_alloc_ring_full_lem}

-- A processor whose exchanges fail in the first four rounds of a loop.
abbrev pub flaky : Cpu
flaky = record { fails = λ k. leb 16 k; fuel = 20 }

pub flaky-IsFair : IsFair flaky
flaky-IsFair = record { enough = omega arith; calm = λ k h. lt→leb 16 k h }

abbrev empty : ScqRing
empty = new_alloc_ring_empty 0 2

empty-Holds : Holds empty []
empty-Holds = (new_alloc_ring_empty_lem 0 2 (omega arith)).0

enqueue_appends_example :
    (r' : ScqRing) × (enqueue flaky empty 3 ≡ done (ok, r'))
    × Holds r' (3 ∷ [])
    × Kept empty r'
    × (4 ≤ 3 → r' ≡ empty)
unfolding new_alloc_ring_empty new_from_sqalloc allocate_atomic_array_empty
enqueue_appends_example =
    enqueue_appends flaky empty-Holds (omega arith) flaky-IsFair 3 (omega arith) refl

abbrev full : ScqRing
full = (new_alloc_ring_full_lem 1 2 (omega arith)).0

full-Holds : Holds full (0 ∷ 1 ∷ 2 ∷ 3 ∷ [])
full-Holds = (new_alloc_ring_full_lem 1 2 (omega arith)).2

full_tickets : full.tail ≤ 4
full_tickets = (new_alloc_ring_full_lem 1 2 (omega arith)).3.tickets

abbrev closed : ScqRing
closed = finalize (new_alloc_ring_empty 1 2)

empty-Holds_one : Holds (new_alloc_ring_empty 1 2) []
empty-Holds_one = (new_alloc_ring_empty_lem 1 2 (omega arith)).0

enqueue_refuses_example :
    (r' : ScqRing) × (enqueue flaky closed 3 ≡ done (err queue_finalized, r'))
    × Holds r' []
    × Kept closed r'
unfolding finalize new_alloc_ring_empty new_from_sqalloc allocate_atomic_array_empty
enqueue_refuses_example =
    enqueue_refuses flaky (finalize-Holds empty-Holds_one) (omega arith) flaky-IsFair 3
      (omega arith) (omega arith) refl refl

dequeue_removes_example :
    (r' : ScqRing) × (dequeue flaky full ≡ done (some 0, r'))
    × Holds r' (1 ∷ 2 ∷ 3 ∷ [])
    × Kept full r'
    × (IsTight full 4 → IsTight r' 3)
dequeue_removes_example =
    dequeue_removes flaky full-Holds (omega (arith, full_tickets)) flaky-IsFair

new_alloc_ring_full_lem_example :
    (r : ScqRing) × (new_alloc_ring_full 1 2 ≡ done r) × Holds r (0 ∷ 1 ∷ 2 ∷ 3 ∷ []) × IsNew 1 2 r
new_alloc_ring_full_lem_example = new_alloc_ring_full_lem 1 2 (omega arith)

determine_order_exact_example :
    ((determine_order 12 ≡ done 3) ↔ (IsAccepted 12 × IsLog 12 3))
    × (¬ IsAccepted 12 → determine_order 12 ≡ panic)
determine_order_exact_example = determine_order_exact 12 3 (omega arith)

determine_order_const_lem_example : determine_order_const 12 ≡ done 2
determine_order_const_lem_example =
    determine_order_const_lem 6 2 (omega arith)
      (record { below = omega arith; above = omega arith })

-- A full ring gives its indices in order, and an empty ring nothing.
drain : ℕ → ScqRing → Exec (List (Option ℕ))
drain zero r = done []
drain (suc k) r = do (x, r') ← dequeue flaky r; xs ← drain k r'; done (x ∷ xs)

drain_full : (new_alloc_ring_full 0 1 >>= drain 3) ≡ done (some 0 ∷ some 1 ∷ none ∷ [])
unfolding drain new_alloc_ring_full new_from_sqalloc allocate_atomic_array_full
    initialize_atomic_array_full lfring_pow2 store lfring_map allocate_standard_atomic_array dequeue
    lfring_threshold3 modup lfring_signed_cmp
drain_full = refl

-- Two rings of order 0 that differ in the threshold.
abbrev ring_of : ℕ → ScqRing
ring_of threshold = record {
  is_finalized = false ∷ [];
  head = 2;
  tail = 2;
  threshold = threshold;
  array = 3 ∷ 3 ∷ [];
  order = 0;
}

eq_lem_example : (eq (ring_of 2) (ring_of 1) ≡ true) ↔ (ring_of 2 ≡ ring_of 1)
eq_lem_example = eq_lem (ring_of 2) (ring_of 1) (omega arith) refl
