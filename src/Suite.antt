-- ===== src/Suite.antt =====
-- The tests of the crate that fill a queue and empty it, for queues of any size: `check_queue` of
-- the tests in src/lfstd.rs and in src/scq.rs, `fullinit` and `test_lcsq_ptr` of src/lfstd.rs.
pub mod Loops
pub mod Check
pub mod Filled
pub mod Tests
use lfqueue.Base.{ℕ, zero, suc, ◌+◌, ◌*◌, ◌/◌, ◌%◌, ◌==◌, if◌then◌else◌, Option, none, some}
use lfqueue.Base.{Exec, done, panic, ◌>>=◌}
use lfqueue.Word.{word_mod}
use lfqueue.Ring
use lfqueue.Ring.{ScqRing, Cpu}
use lfqueue.Alloc.{new_alloc_ring_full}
use lfqueue.Bounded
use lfqueue.Bounded.{BoundedQueue}
use lfqueue.Unbounded
use lfqueue.Unbounded.{UnboundedQueue}
use lfqueue.Unbounded.Pointers.{AtomicPtr}
use lfqueue.Grind.{assert_eq}

-- `left` calls of `enqueue` from the number `i` on, with an assertion of each reply. The call for
-- `i` runs on the processor `cs i`.
unfoldable pub enqueues :
    (ℕ → Cpu) → (ℕ → Option ℕ) → ℕ → ℕ → BoundedQueue ℕ → Exec (BoundedQueue ℕ)
enqueues cs expected zero i b = done b
enqueues cs expected (suc left) i b = do
  (reply, b') ← Bounded.enqueue (cs i) b i
  same ← assert_eq reply (expected i)
  enqueues cs expected left (i + 1) b'

unfoldable pub dequeues :
    (ℕ → Cpu) → (ℕ → Option ℕ) → ℕ → ℕ → BoundedQueue ℕ → Exec (BoundedQueue ℕ)
dequeues cs expected zero i b = done b
dequeues cs expected (suc left) i b = do
  (reply, b') ← Bounded.dequeue (cs i) b
  same ← assert_eq reply (expected i)
  dequeues cs expected left (i + 1) b'

-- The body that both functions `check_queue` have: the queue takes `size` items, refuses as many,
-- returns them, and is empty then. The loop `k` runs on the processors `cs k`.
unfoldable pub check_queue : (ℕ → ℕ → Cpu) → ℕ → BoundedQueue ℕ → Exec (BoundedQueue ℕ)
check_queue cs size queue =
    if Bounded.capacity queue == size
    then (do
      filled ← enqueues (cs 0) (λ i. none) size 0 queue
      full ← enqueues (cs 1) (λ i. some i) size 0 filled
      emptied ← dequeues (cs 2) (λ i. some i) size 0 full
      dequeues (cs 3) (λ i. none) size 0 emptied)
    else panic

unfoldable pub check_alloc_queue : (ℕ → ℕ → Cpu) → ℕ → Exec (BoundedQueue ℕ)
check_alloc_queue cs size = do queue ← Bounded.new ℕ 0 size; check_queue cs size queue

-- `check_queue(const_queue!(usize; size))`, whose `N` is `size * 2`.
unfoldable pub check_const_queue : (ℕ → ℕ → Cpu) → ℕ → Exec (BoundedQueue ℕ)
check_const_queue cs size = do
  queue ← Bounded.const_queue ℕ size
  check_queue cs (size * 2 % word_mod / 2) queue

-- `fullinit`: a full ring of the given order (3 in the source) returns the indices in order.
unfoldable pub ring_dequeues : (ℕ → Cpu) → ℕ → ℕ → ScqRing → Exec ScqRing
ring_dequeues cs zero i r = done r
ring_dequeues cs (suc left) i r = do
  (reply, r') ← Ring.dequeue (cs i) r
  same ← assert_eq reply (some i)
  ring_dequeues cs left (i + 1) r'

unfoldable pub fullinit : (ℕ → Cpu) → ℕ → ℕ → Exec ScqRing
fullinit cs order count = do ring ← new_alloc_ring_full 0 order; ring_dequeues cs count 0 ring

module _ {P : Type 0} (ops : AtomicPtr P) where
  unfoldable pub lcsq_enqueues :
      ℕ → (ℕ → Cpu) → ℕ → ℕ → UnboundedQueue ℕ P → Exec (UnboundedQueue ℕ P)
  lcsq_enqueues fuel cs zero i q = done q
  lcsq_enqueues fuel cs (suc left) i q = do
    q' ← Unbounded.enqueue ops fuel (cs i) q i
    lcsq_enqueues fuel cs left (i + 1) q'

  unfoldable pub lcsq_dequeues :
      ℕ → (ℕ → Cpu) → ℕ → ℕ → UnboundedQueue ℕ P → Exec (UnboundedQueue ℕ P)
  lcsq_dequeues fuel cs zero i q = done q
  lcsq_dequeues fuel cs (suc left) i q = do
    (reply, q') ← Unbounded.dequeue ops fuel (cs i) q
    same ← assert_eq reply (some i)
    lcsq_dequeues fuel cs left (i + 1) q'

  -- `test_lcsq_ptr`, with `size` for the segment size and `count` for the number of items; both are
  -- 16 in the source.
  unfoldable pub test_lcsq_ptr : ℕ → (ℕ → ℕ → Cpu) → ℕ → ℕ → Exec (UnboundedQueue ℕ P)
  test_lcsq_ptr fuel cs size count = do
    ring ← Unbounded.with_segment_size ops size
    filled ← lcsq_enqueues fuel (cs 0) count 0 ring
    lcsq_dequeues fuel (cs 1) count 0 filled
