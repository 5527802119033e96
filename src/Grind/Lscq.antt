-- ===== src/Grind/Lscq.antt =====
-- The unbounded queue and the mock give the same replies.
use lfqueue.Base.{ℕ, suc, ◌+◌, ◌*◌, ◌^◌, ◌≤◌, ◌<◌, ◌≡◌, refl, arith, ◌∙◌}
use lfqueue.Base.{List, [], ◌∷◌, ◌++◌, length, done}
use lfqueue.Word.{wrapping_add, shift_left}
use lfqueue.Ring.{Cpu}
use lfqueue.Ring.Holds.{IsFair}
use lfqueue.Lfring.{lfring_pow2}
use lfqueue.Lfring.Order.{IsAccepted-pow, IsLog-pow}
use lfqueue.Lfring.Laws.{pow-le_60, lfring_pow2_lem}
use lfqueue.Bounded.Fifo.{head_of, tail_of}
use lfqueue.Mock
use lfqueue.Mock.{MockQueue}
use lfqueue.Unbounded.{UnboundedQueue, with_segment_size}
use lfqueue.Unbounded.Pointers.{AtomicPtr}
use lfqueue.Unbounded.Chain.{IsSize, Contains, Contains-weaken}
use lfqueue.Unbounded.Fifo.{with_segment_size_lem, unbounded_enqueue_lem, unbounded_dequeue_lem}
use lfqueue.Grind.{GrindInstr, enqueue, dequeue, configure_grind, lscq_step, lscq_loop, lscq_grind}
use lfqueue.Grind.Agrees.{mock_dequeue, assert_eq_refl}

pub IsSize-pow : (order : ℕ) → order ≤ 59 → IsSize (2 ^ order) order
IsSize-pow order small = record {
  small = small;
  fits = omega (arith, pow-le_60 order (omega arith));
  is_accepted = IsAccepted-pow order;
  log = IsLog-pow order;
}

module _ {P : Type 0} (ops : AtomicPtr P) (size order fuel : ℕ) (z : IsSize size order) where
  -- A round ends with the two still alike.
  lscq_step_lem :
      (room : ℕ) (c : Cpu) (mock : MockQueue ℕ) (queue : UnboundedQueue ℕ P) (instr : GrindInstr)
      → IsFair c
      → room < 2 ^ 59
      → Contains ops queue.internal size order (suc (suc (suc room))) mock.queue
      → (mock' : MockQueue ℕ) × (queue' : UnboundedQueue ℕ P) × (lscq_step ops
            (suc (suc fuel))
            c
            mock
            queue
            instr
          ≡ done (mock', queue'))
        × Contains ops queue'.internal size order room mock'.queue
  unfolding lscq_step Mock.enqueue_boundless
  lscq_step_lem room c mock queue dequeue fair few h =
      let (q, e, h') = unbounded_dequeue_lem ops queue c fair fuel room h in
      (
        record mock { queue = tail_of mock.queue },
        q,
        rw (mock_dequeue mock, e, assert_eq_refl (head_of mock.queue)),
        h',
      )
  lscq_step_lem room c mock queue (enqueue x) fair few h =
      let (q, e, h') =
        unbounded_enqueue_lem ops queue c fair (suc fuel) (suc (suc room)) x z (omega arith) h in
      (
        record mock { queue = mock.queue ++ (x ∷ []) },
        q,
        rw e refl,
        Contains-weaken ops (omega arith) h',
      )

  lscq_loop_lem :
      (cs : ℕ → Cpu)
      → ((k : ℕ) → IsFair (cs k))
      → (k room : ℕ) (instrs : List GrindInstr) (mock : MockQueue ℕ) (queue : UnboundedQueue ℕ P)
      → 3 * length instrs + room < 2 ^ 59
      → Contains ops queue.internal size order (3 * length instrs + room) mock.queue
      → (mock' : MockQueue ℕ) × (queue' : UnboundedQueue ℕ P) × (lscq_loop ops
            (suc (suc fuel))
            cs
            k
            instrs
            mock
            queue
          ≡ done (mock', queue'))
        × Contains ops queue'.internal size order room mock'.queue
  unfolding lscq_loop
  lscq_loop_lem cs fair k room [] mock queue few h =
      (mock, queue, refl, Contains-weaken ops (omega arith) h)
  lscq_loop_lem cs fair k room (instr ∷ instrs) mock queue few h =
      let (mock1, queue1, e1, h1) =
        lscq_step_lem (3 * length instrs + room) (cs k) mock queue instr (fair k) (omega arith)
          (Contains-weaken ops (omega arith) h) in
      let (mock2, queue2, e2, h2) =
        lscq_loop_lem cs fair (k + 1) room instrs mock1 queue1 (omega arith) h1 in
      (mock2, queue2, rw e1 e2, h2)

lscq_grind_starts :
    {P : Type 0} (ops : AtomicPtr P) (fuel scaled : ℕ) (cs : ℕ → Cpu) (instrs : List GrindInstr)
    (b : UnboundedQueue ℕ P)
    → scaled ≤ 14
    → with_segment_size ops (2 ^ suc scaled) ≡ done b
    → lscq_grind ops fuel cs (configure_grind scaled instrs)
      ≡ lscq_loop ops fuel cs 0 instrs (record { queue = []; size = 2 ^ suc scaled }) b
unfolding lscq_grind configure_grind lfring_pow2
lscq_grind_starts ops fuel scaled cs instrs b lo made =
    let up : wrapping_add scaled 1 ≡ suc scaled = omega arith in
    let pow : shift_left 1 (suc scaled) ≡ 2 ^ suc scaled =
      lfring_pow2_lem (suc scaled) (omega arith) in
    rw (up, pow, made) refl

-- For every configuration that `configure_grind` makes of fewer than 2 ^ 57 calls, on processors
-- whose exchanges fail spuriously only before the last 16 rounds of each loop, and with fuel for
-- two rounds of each call, the fuzz target `lscq_grind` ends with no failed assertion, and the
-- unbounded queue then holds what the mock holds.
pub lscq_grind_lem :
    {P : Type 0} (ops : AtomicPtr P) (fuel scaled : ℕ) (cs : ℕ → Cpu) (instrs : List GrindInstr)
    → scaled ≤ 14
    → ((k : ℕ) → IsFair (cs k))
    → length instrs < 2 ^ 57
    → (mock : MockQueue ℕ) × (queue : UnboundedQueue ℕ P) × (lscq_grind ops
          (suc (suc fuel))
          cs
          (configure_grind scaled instrs)
        ≡ done (mock, queue))
      × Contains ops queue.internal (2 ^ suc scaled) (suc scaled) 0 mock.queue
lscq_grind_lem ops fuel scaled cs instrs lo fair few =
    let z = IsSize-pow (suc scaled) (omega arith) in
    let (b, e, h, same) =
      with_segment_size_lem {A = ℕ} ops (2 ^ suc scaled) (suc scaled) (3 * length instrs + 0) z
        (omega arith) in
    let (mock, queue, e', h') =
      lscq_loop_lem ops (2 ^ suc scaled) (suc scaled) fuel z cs fair 0 0 instrs
        (record { queue = []; size = 2 ^ suc scaled }) b (omega arith) h in
    (mock, queue, lscq_grind_starts ops (suc (suc fuel)) scaled cs instrs b lo e ∙ e', h')
