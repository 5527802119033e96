-- ===== src/Grind.antt =====
-- The comparison of a queue with a mock: the module `fuzzing` of src/lib.rs, and the fuzz targets
-- scq_grind.rs, const_grind.rs and lscq_grind.rs of fuzz/fuzz_targets.
pub mod Agrees
pub mod Const
pub mod Lscq
pub mod Tests
use lfqueue.Base.{
  ℕ, ◌+◌, ◌*◌, ◌/◌, ◌%◌, ◌==◌, leb, ◌&&◌, if◌then◌else◌, Bool, true, false, Option, none, some,
}
use lfqueue.Base.{List, [], ◌∷◌, Exec, done, panic, ◌>>=◌}
use lfqueue.Word.{word_mod, wrapping_add, shift_left}
use lfqueue.Ring.{Cpu}
use lfqueue.Mock
use lfqueue.Mock.{MockQueue}
use lfqueue.Bounded
use lfqueue.Bounded.{BoundedQueue}
use lfqueue.Unbounded
use lfqueue.Unbounded.{UnboundedQueue}
use lfqueue.Unbounded.Pointers.{AtomicPtr}

pub data GrindInstr : Type 0 where
  enqueue : ℕ → GrindInstr
  dequeue : GrindInstr

pub record GrindConfiguration : Type 0 where
  pub order : ℕ
  pub instructions : List GrindInstr

-- `==` on the replies.
same_reply : Option ℕ → Option ℕ → Bool
same_reply none none = true
same_reply none (some y) = false
same_reply (some x) none = false
same_reply (some x) (some y) = x == y

-- `assert_eq!`
unfoldable pub assert_eq : Option ℕ → Option ℕ → Exec {0} Unit
unfolding same_reply
assert_eq expected reply = if same_reply expected reply then done tt else panic

-- One round of the loop: the same call on both, and the comparison of their replies.
unfoldable pub grind_step :
    Cpu → MockQueue ℕ → BoundedQueue ℕ → GrindInstr → Exec (MockQueue ℕ × BoundedQueue ℕ)
grind_step c mock queue dequeue = do
  let (expected, mock') = Mock.dequeue mock
  (reply, queue') ← Bounded.dequeue c queue
  same ← assert_eq expected reply
  done (mock', queue')
grind_step c mock queue (enqueue item) = do
  let (expected, mock') = Mock.enqueue mock item
  (reply, queue') ← Bounded.enqueue c queue item
  same ← assert_eq expected reply
  done (mock', queue')

-- The `k`-th call runs on the processor `cs k`.
unfoldable pub grind_loop :
    (ℕ → Cpu)
    → ℕ
    → List GrindInstr
    → MockQueue ℕ
    → BoundedQueue ℕ
    → Exec (MockQueue ℕ × BoundedQueue ℕ)
grind_loop cs k [] mock queue = done (mock, queue)
grind_loop cs k (instr ∷ instrs) mock queue = do
  (mock', queue') ← grind_step (cs k) mock queue instr
  grind_loop cs (k + 1) instrs mock' queue'

unfoldable pub scq_grind : (ℕ → Cpu) → GrindConfiguration → Exec (MockQueue ℕ × BoundedQueue ℕ)
scq_grind cs g = do
  queue ← Bounded.new ℕ 0 g.order
  grind_loop cs 0 g.instructions (record { queue = []; size = g.order }) queue

-- `configure_grind`, where `scaled` is the random number `(14.0 * delta) as usize`, from 0 to 14.
unfoldable pub configure_grind : ℕ → List GrindInstr → GrindConfiguration
configure_grind scaled instructions = record {
  order = shift_left 1 (wrapping_add scaled 1);
  instructions = instructions;
}

-- `fuzz_queue`, with `n` for the const parameter `N`.
unfoldable pub fuzz_queue :
    (ℕ → Cpu) → ℕ → GrindConfiguration → BoundedQueue ℕ → Exec (MockQueue ℕ × BoundedQueue ℕ)
fuzz_queue cs n g queue = grind_loop cs 0 g.instructions (record { queue = []; size = n / 2 }) queue

-- `const_grind`: the match of `generate_switch!` has the cases 1 to 6.
unfoldable pub const_grind :
    (ℕ → Cpu) → ℕ → GrindConfiguration → Exec (MockQueue ℕ × BoundedQueue ℕ)
const_grind cs switch g =
    if leb 1 switch && leb switch 6
    then (do
      queue ← Bounded.const_queue ℕ (shift_left 1 switch)
      fuzz_queue cs (shift_left 1 switch * 2 % word_mod) g queue)
    else panic

module _ {P : Type 0} (ops : AtomicPtr P) where
  -- One round of `lscq_grind`. Each call of the queue has `fuel` rounds.
  unfoldable pub lscq_step :
      ℕ
      → Cpu
      → MockQueue ℕ
      → UnboundedQueue ℕ P
      → GrindInstr
      → Exec (MockQueue ℕ × UnboundedQueue ℕ P)
  lscq_step fuel c mock queue dequeue = do
    let (expected, mock') = Mock.dequeue mock
    (reply, queue') ← Unbounded.dequeue ops fuel c queue
    same ← assert_eq expected reply
    done (mock', queue')
  lscq_step fuel c mock queue (enqueue item) = do
    queue' ← Unbounded.enqueue ops fuel c queue item
    done (Mock.enqueue_boundless mock item, queue')

  unfoldable pub lscq_loop :
      ℕ
      → (ℕ → Cpu)
      → ℕ
      → List GrindInstr
      → MockQueue ℕ
      → UnboundedQueue ℕ P
      → Exec (MockQueue ℕ × UnboundedQueue ℕ P)
  lscq_loop fuel cs k [] mock queue = done (mock, queue)
  lscq_loop fuel cs k (instr ∷ instrs) mock queue = do
    (mock', queue') ← lscq_step fuel (cs k) mock queue instr
    lscq_loop fuel cs (k + 1) instrs mock' queue'

  unfoldable pub lscq_grind :
      ℕ → (ℕ → Cpu) → GrindConfiguration → Exec (MockQueue ℕ × UnboundedQueue ℕ P)
  lscq_grind fuel cs g = do
    queue ← Unbounded.with_segment_size ops g.order
    lscq_loop fuel cs 0 g.instructions (record { queue = []; size = g.order }) queue
