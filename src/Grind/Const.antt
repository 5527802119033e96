-- ===== src/Grind/Const.antt =====
-- Constant queues and the mock give the same replies.
use native.Mathlib.Nat.{pow-succ'}
use lfqueue.Base.{
  ℕ, zero, suc, true, ◌||◌, ◌*◌, ◌/◌, ◌%◌, ◌^◌, ◌≤◌, ◌<◌, ◌≡◌, refl, arith, ◌∙◌, ◌==◌, eq→==, ne→==,
  le→leb,
}
use lfqueue.Base.{[], length, done}
use lfqueue.Word.{word_mod, shift_left}
use lfqueue.Ring.{Cpu}
use lfqueue.Ring.Holds.{IsFair, sizes}
use lfqueue.Lfring.{lfring_pow2}
use lfqueue.Lfring.Order.{IsAccepted-pow, IsLog-pow}
use lfqueue.Lfring.Laws.{pow-le_60, lfring_pow2_lem}
use lfqueue.Bounded.{BoundedQueue, const_queue, new}
use lfqueue.Bounded.Cycle.{Represents}
use lfqueue.Bounded.New.{new_lem}
use lfqueue.Bounded.Const.{new_const_lem}
use lfqueue.Mock.{MockQueue}
use lfqueue.Grind.{GrindConfiguration, fuzz_queue, const_grind, grind_loop}
use lfqueue.Grind.Agrees.{grind_loop_lem}

valid : (order : ℕ) → ((2 ^ order % 2 == 0) || (2 ^ order == 1)) ≡ true
valid zero = refl
valid (suc order) =
    let even : 2 ^ suc order % 2 ≡ 0 = omega (arith, pow-succ' 2 order) in
    rw (eq→== (2 ^ suc order % 2) 0 even) refl

-- For a size `2 ^ order`, `const_queue!` makes the queue that is allocated for that size.
pub const_queue_lem : (order : ℕ) → order ≤ 59 → const_queue ℕ (2 ^ order) ≡ new ℕ 0 (2 ^ order)
unfolding const_queue
const_queue_lem order small =
    let bound = sizes order small in
    let size : 2 ^ order * 2 % word_mod ≡ 2 ^ suc order = omega arith in
    rw (ne→== (2 ^ order) 0 (λ e. omega arith), valid order, size) (new_const_lem ℕ order small)

const_grind_starts :
    (switch : ℕ) (cs : ℕ → Cpu) (g : GrindConfiguration) (b : BoundedQueue ℕ)
    → 1 ≤ switch
    → switch ≤ 6
    → new ℕ 0 (2 ^ switch) ≡ done b
    → const_grind cs switch g
      ≡ grind_loop cs 0 g.instructions (record { queue = []; size = 2 ^ switch }) b
unfolding const_grind fuzz_queue lfring_pow2
const_grind_starts switch cs g b lo hi made =
    let bound : 2 ^ switch ≤ 2 ^ 60 = pow-le_60 switch (omega arith) in
    let pow : shift_left 1 switch ≡ 2 ^ switch = lfring_pow2_lem switch (omega arith) in
    let half : 2 ^ switch * 2 % word_mod / 2 ≡ 2 ^ switch = omega arith in
    rw
      (
        le→leb 1 switch lo,
        le→leb switch 6 hi,
        pow,
        const_queue_lem switch (omega arith),
        made,
        half,
      )
      refl

-- For a switch from 1 to 6 and fewer than 2 ^ 60 calls, on processors whose exchanges fail
-- spuriously only before the last 16 rounds of each loop, the fuzz target ends with no failed
-- assertion, and the constant queue then holds what the mock holds.
pub const_grind_lem :
    (switch : ℕ) (cs : ℕ → Cpu) (g : GrindConfiguration)
    → 1 ≤ switch
    → switch ≤ 6
    → ((k : ℕ) → IsFair (cs k))
    → length g.instructions < 2 ^ 60
    → (mock : MockQueue ℕ) × (queue : BoundedQueue ℕ) × (const_grind cs switch g
        ≡ done (mock, queue))
      × Represents queue switch mock.queue
const_grind_lem switch cs g lo hi fair few =
    let bound : 2 ^ switch ≤ 2 ^ 60 = pow-le_60 switch (omega arith) in
    let (b, e, h, o, m, f, a) =
      new_lem ℕ 0 (2 ^ switch) switch (omega arith) (omega arith) (IsAccepted-pow switch)
        (IsLog-pow switch) in
    let (mock, queue, e', agrees) =
      grind_loop_lem switch cs fair 0 g.instructions (record { queue = []; size = 2 ^ switch }) b
        (record {
          represents = h;
          same_size = refl;
          is_open = o;
          free_young = omega arith;
          alloc_young = omega arith;
        }) in
    (mock, queue, const_grind_starts switch cs g b lo hi e ∙ e', agrees.represents)
