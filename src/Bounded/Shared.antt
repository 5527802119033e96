-- ===== src/Bounded/Shared.antt =====
-- `BoundedQueue` of src/scq.rs shared by threads: `enqueue_cycle` and `dequeue` as their accesses to
-- the two rings, the slots and the counter, which follow one another in any order.
pub mod Rings
pub mod Shapes
pub mod Counts
pub mod Owned
pub mod Moves
pub mod Takes
pub mod Puts
pub mod Frees
pub mod Slots
pub mod Accesses
pub mod Runs
pub mod Safety
pub mod Tests
use lfqueue.Base.{
  ℕ, ◌+◌, leb, ◌&&◌, if◌then◌else◌, Bool, Option, none, some, List, [], ◌∷◌, ◌++◌, get_elem?, set,
}
use lfqueue.Base.{Exec, done, panic, ◌>>=◌}
use lfqueue.Word.{wrapping_add}
use lfqueue.Ring
use lfqueue.Ring.{Enqueued, ok, err}
use lfqueue.Ring.Shared.{Place, enqueued, dequeued, check_threshold, begin_enqueue, step}
use lfqueue.Bounded.{
  BoundedQueue, Sent, accepted, returned, queue_full, queue_finalized, write_slot, read_slot, claim,
  release, capacity,
}

-- What a call returned.
pub data Ended {ℓ} (A : Type ℓ) : Type ℓ where
  sent : Sent A → Ended A
  received : Option A → Ended A

-- Where a thread is: before the access that the name says, in a call of a ring at a place of it, or
-- in no call. `size` is what `used` was, and `pos` the index of the slot.
pub data Spot {ℓ} (A : Type ℓ) : Type ℓ where
  resting : Spot A
  counting uncounting : A → Spot A
  taking : A → (size : ℕ) → Place → Spot A
  writing : A → (size pos : ℕ) → Spot A
  entering : (size pos : ℕ) → Place → Spot A
  giving_up taking_back : (pos : ℕ) → Spot A
  finalizing : Spot A
  removing : Place → Spot A
  uncounted reading : (pos : ℕ) → Spot A
  freeing : Ended A → (pos : ℕ) → Place → Spot A
  ended : Ended A → Spot A

-- What a call of a ring has returned at a place, if it has.
unfoldable pub dequeue_result : Place → Option (Option ℕ)
dequeue_result (dequeued found) = some found
dequeue_result place = none

unfoldable pub enqueue_result : Place → Option Enqueued
enqueue_result (enqueued result) = some result
enqueue_result place = none

module _ {ℓ} {A : Type ℓ} where
  -- What follows a place in `free_queue.dequeue`.
  unfoldable pub after_take : A → ℕ → Place → Spot A
  after_take item size place = elim (dequeue_result place) [
    | none ↦ taking item size place
    | some found ↦ elim found [ none ↦ uncounting item | some pos ↦ writing item size pos ]
  ]

  -- What follows a place in `alloc_queue.enqueue`. `FINALIZE` is the flag `finalize`.
  unfoldable pub after_enter : Bool → ℕ → ℕ → ℕ → Place → Spot A
  after_enter finalize capacity size pos place = elim (enqueue_result place) [
    | none ↦ entering size pos place
    | some result ↦ elim result [
      | ok ↦
          if finalize && leb capacity (wrapping_add size 1)
          then finalizing
          else ended (sent accepted)
      | err e ↦ giving_up pos
    ]
  ]

  -- What follows a place in `free_queue.enqueue`, which is unwrapped.
  unfoldable pub after_free : Ended A → ℕ → Place → Exec (Spot A)
  after_free result pos place = elim (enqueue_result place) [
    | none ↦ done (freeing result pos place)
    | some freed ↦ elim freed [ ok ↦ done (ended result) | err e ↦ panic ]
  ]

  -- What follows a place in `alloc_queue.dequeue`.
  unfoldable pub after_remove : Place → Spot A
  after_remove place = elim (dequeue_result place) [
    | none ↦ removing place
    | some found ↦ elim found [ none ↦ ended (received none) | some pos ↦ uncounted pos ]
  ]

  -- One access of a thread.
  unfoldable pub step_queue : Bool → Bool → Spot A → BoundedQueue A → Exec (Spot A × BoundedQueue A)
  step_queue finalize spurious resting b = done (resting, b)
  step_queue finalize spurious (counting item) b =
      let claimed = claim b in
      if leb (capacity claimed) b.used
      then done (uncounting item, claimed)
      else done (taking item b.used check_threshold, claimed)
  step_queue finalize spurious (uncounting item) b =
      done (ended (sent (returned item queue_full)), release b)
  step_queue finalize spurious (taking item size place) b = do
    (next, ring) ← step spurious place b.free_queue
    done (after_take item size next, record b { free_queue = ring })
  step_queue finalize spurious (writing item size pos) b = do
    backing ← write_slot b.backing pos item
    done (
      after_enter finalize (capacity b) size pos (begin_enqueue b.alloc_queue pos),
      record b { backing = backing },
    )
  step_queue finalize spurious (entering size pos place) b = do
    (next, ring) ← step spurious place b.alloc_queue
    done (after_enter finalize (capacity b) size pos next, record b { alloc_queue = ring })
  step_queue finalize spurious (giving_up pos) b = done (taking_back pos, release b)
  step_queue finalize spurious (taking_back pos) b = do
    (item, backing) ← read_slot b.backing pos
    spot ← after_free (sent (returned item queue_finalized)) pos (begin_enqueue b.free_queue pos)
    done (spot, record b { backing = backing })
  step_queue finalize spurious finalizing b =
      done (ended (sent accepted), record b { alloc_queue = Ring.finalize b.alloc_queue })
  step_queue finalize spurious (removing place) b = do
    (next, ring) ← step spurious place b.alloc_queue
    done (after_remove next, record b { alloc_queue = ring })
  step_queue finalize spurious (uncounted pos) b = done (reading pos, release b)
  step_queue finalize spurious (reading pos) b = do
    (value, backing) ← read_slot b.backing pos
    spot ← after_free (received (some value)) pos (begin_enqueue b.free_queue pos)
    done (spot, record b { backing = backing })
  step_queue finalize spurious (freeing result pos place) b = do
    (next, ring) ← step spurious place b.free_queue
    spot ← after_free result pos next
    done (spot, record b { free_queue = ring })
  step_queue finalize spurious (ended result) b = done (ended result, b)

-- What happens next: a thread in no call starts one, or a thread makes its next access.
pub data Turn {ℓ} (A : Type ℓ) : Type ℓ where
  send : (thread : ℕ) → A → Turn A
  receive : (thread : ℕ) → Turn A
  proceed : (thread : ℕ) (spurious : Bool) → Turn A

module _ {ℓ} {A : Type ℓ} where
  unfoldable pub start : Spot A → Spot A → Spot A
  start resting call = call
  start (ended result) call = call
  start spot call = spot

  -- Threads on one queue.
  unfoldable pub turn :
      Bool → BoundedQueue A × List (Spot A) → Turn A → Exec (BoundedQueue A × List (Spot A))
  turn finalize (b, spots) (send i item) = elim (get_elem? spots i) [
    | none ↦ done (b, spots)
    | some spot ↦ done (b, set spots i (start spot (counting item)))
  ]
  turn finalize (b, spots) (receive i) = elim (get_elem? spots i) [
    | none ↦ done (b, spots)
    | some spot ↦ done (b, set spots i (start spot (removing check_threshold)))
  ]
  turn finalize (b, spots) (proceed i spurious) = elim (get_elem? spots i) [
    | none ↦ done (b, spots)
    | some spot ↦ do (next, b') ← step_queue finalize spurious spot b; done (b', set spots i next)
  ]

  -- A run of `turns`.
  unfoldable pub run :
      Bool → BoundedQueue A × List (Spot A) → List (Turn A) → Exec (BoundedQueue A × List (Spot A))
  run finalize s [] = done s
  run finalize s (t ∷ turns) = do s' ← turn finalize s t; run finalize s' turns
