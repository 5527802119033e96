-- ===== src/Suite/Tests.antt =====
-- Runs of the tests at sizes of the source.
use lfqueue.Base.{ℕ, ◌^◌, ◌≡◌, arith, Option, [], done}
use lfqueue.Ring.{ScqRing}
use lfqueue.Ring.Holds.{Holds}
use lfqueue.Ring.Tests.{flaky, flaky-IsFair}
use lfqueue.Bounded.{BoundedQueue}
use lfqueue.Bounded.Cycle.{Represents}
use lfqueue.Unbounded.{UnboundedQueue}
use lfqueue.Unbounded.Chain.{Contains}
use lfqueue.Unbounded.Tests.{plain}
use lfqueue.Grind.Lscq.{IsSize-pow}
use lfqueue.Suite.{check_alloc_queue, check_const_queue, fullinit, test_lcsq_ptr}
use lfqueue.Suite.Check.{check_alloc_queue_lem, check_const_queue_lem, fullinit_lem}
use lfqueue.Suite.Filled.{test_lcsq_ptr_lem}

check_alloc_queue_lem_example :
    (b' : BoundedQueue ℕ) × (check_alloc_queue (λ k i. flaky) (2 ^ 7) ≡ done b')
    × Represents b' 7 []
check_alloc_queue_lem_example =
    check_alloc_queue_lem 7 (λ k i. flaky) (omega arith) (λ k i. flaky-IsFair)

check_const_queue_lem_example :
    (b' : BoundedQueue ℕ) × (check_const_queue (λ k i. flaky) (2 ^ 3) ≡ done b')
    × Represents b' 3 []
check_const_queue_lem_example =
    check_const_queue_lem 3 (λ k i. flaky) (omega arith) (λ k i. flaky-IsFair)

fullinit_lem_example : (r' : ScqRing) × (fullinit (λ i. flaky) 3 (2 ^ 3) ≡ done r') × Holds r' []
fullinit_lem_example = fullinit_lem 3 (λ i. flaky) (omega arith) (λ i. flaky-IsFair)

test_lcsq_ptr_lem_example :
    (q' : UnboundedQueue ℕ (Option ℕ)) × (test_lcsq_ptr plain 2 (λ k i. flaky) (2 ^ 4) 16 ≡ done q')
    × Contains plain q'.internal (2 ^ 4) 4 0 []
test_lcsq_ptr_lem_example =
    test_lcsq_ptr_lem plain (2 ^ 4) 4 0 (λ k i. flaky) 16 (IsSize-pow 4 (omega arith))
      (λ k i. flaky-IsFair) (omega arith)
