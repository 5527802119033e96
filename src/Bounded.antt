-- ===== src/Bounded.antt =====
-- `BoundedQueue` of src/scq.rs, with the constructor for allocated queues of src/lfstd.rs: two
-- rings of indices and the slots that the indices stand for.
pub mod Store
pub mod Enqueue
pub mod Dequeue
pub mod Cycle
pub mod Fifo
pub mod New
pub mod Drop
pub mod Closed
pub mod Const
pub mod Shared
use lfqueue.Base.{
  ◌||◌, ℕ, zero, suc, ◌+◌, ◌*◌, ◌%◌, ltb, leb, ◌==◌, not, if◌then◌else◌, Bool, true, false, ◌&&◌,
}
use lfqueue.Base.{Option, none, some, List, [], ◌∷◌, length, get_elem?, set, replicate}
use lfqueue.Base.{Exec, done, panic, undefined, out_of_fuel, ◌>>=◌}
use lfqueue.Word.{word_mod, wrapping_add, wrapping_sub}
use lfqueue.Lfring.{determine_order}
use lfqueue.Ring
use lfqueue.Ring.{ScqRing, ScqError, Enqueued, ok, err, Cpu}
use lfqueue.Alloc.{
  new_alloc_ring_empty, new_alloc_ring_full, new_const_ring_empty, new_const_ring_full,
}

pub data QueueError : Type 0 where
  queue_full queue_finalized : QueueError

-- `Result<(), (T, QueueError)>`: an error hands the item back.
pub data Sent {ℓ} (A : Type ℓ) : Type ℓ where
  accepted : Sent A
  returned : A → QueueError → Sent A

-- A slot is `none` while it holds no value: before the first write, and from when its value has
-- been read out, since a read moves the value.
pub record BoundedQueue {ℓ} (A : Type ℓ) : Type ℓ where
  pub backing : List (Option A)
  pub free_queue : ScqRing
  pub alloc_queue : ScqRing
  pub used : ℕ

module _ {ℓ} {A : Type ℓ} where
  -- `(*index_ptr(pos)).write(item)`; an index out of bounds is not checked for.
  unfoldable pub write_slot : List (Option A) → ℕ → A → Exec (List (Option A))
  write_slot backing pos item =
      if ltb pos (length backing) then done (set backing pos (some item)) else undefined

  -- `(*index_ptr(pos)).assume_init_read()`
  unfoldable pub read_slot : List (Option A) → ℕ → Exec (A × List (Option A))
  read_slot backing pos = elim (get_elem? backing pos) [
    | none ↦ undefined
    | some slot ↦ elim slot [ none ↦ undefined | some v ↦ done (v, set backing pos none) ]
  ]

  unfoldable pub capacity : BoundedQueue A → ℕ
  unfolding Ring.capacity
  capacity b = Ring.capacity b.free_queue

  -- `used.fetch_add(1)` and `used.fetch_sub(1)`
  abbrev pub claim : BoundedQueue A → BoundedQueue A
  claim b = record b { used = wrapping_add b.used 1 }

  abbrev pub release : BoundedQueue A → BoundedQueue A
  release b = record b { used = wrapping_sub b.used 1 }

  -- What follows a refusal by `alloc_queue`: the item is read back and the index is freed.
  unfoldable pub take_back : Cpu → ℕ → BoundedQueue A → Exec (Sent A × BoundedQueue A)
  take_back c pos b = do
    (item, backing) ← read_slot b.backing pos
    (freed, free) ← Ring.enqueue c b.free_queue pos
    elim freed [
      | ok ↦ done (
        returned item queue_finalized,
        record (release b) { backing = backing; free_queue = free },
      )
      | err e ↦ panic
    ]

  -- `FINALIZE` is the flag `finalize`.
  unfoldable pub enqueue_cycle : Bool → Cpu → BoundedQueue A → A → Exec (Sent A × BoundedQueue A)
  enqueue_cycle finalize c b item =
      let size = b.used in
      let claimed = claim b in
      if leb (capacity claimed) size then done (returned item queue_full, release claimed) else do
        (found, free) ← Ring.dequeue c claimed.free_queue
        elim found [
          | none ↦ done (returned item queue_full, release (record claimed { free_queue = free }))
          | some pos ↦ do
            backing ← write_slot claimed.backing pos item
            (entered, alloc) ← Ring.enqueue c claimed.alloc_queue pos
            let b' = record claimed { backing = backing; free_queue = free; alloc_queue = alloc }
            elim entered [
              | err e ↦ take_back c pos b'
              | ok ↦
                  if finalize && leb (capacity b') (wrapping_add size 1)
                  then done (accepted, record b' { alloc_queue = Ring.finalize alloc })
                  else done (accepted, b')
            ]
        ]

  -- `enqueue`: `none` is `Ok(())`, and an error keeps only the item.
  unfoldable pub enqueue : Cpu → BoundedQueue A → A → Exec (Option A × BoundedQueue A)
  enqueue c b item = do
    (sent, b') ← enqueue_cycle false c b item
    elim sent [ accepted ↦ done (none, b') | returned a e ↦ done (some a, b') ]

  unfoldable pub dequeue : Cpu → BoundedQueue A → Exec (Option A × BoundedQueue A)
  dequeue c b = do
    (found, alloc) ← Ring.dequeue c b.alloc_queue
    elim found [
      | none ↦ done (none, record b { alloc_queue = alloc })
      | some pos ↦ do
        let b' = release (record b { alloc_queue = alloc })
        (value, backing) ← read_slot b'.backing pos
        (freed, free) ← Ring.enqueue c b'.free_queue pos
        elim freed [
          | ok ↦ done (some value, record b' { backing = backing; free_queue = free })
          | err e ↦ panic
        ]
    ]

  -- `drop`: the values that it drops, in order. An index out of bounds is checked for here.
  unfoldable pub drop : ℕ → Cpu → BoundedQueue A → Exec (List A × BoundedQueue A)
  drop zero c b = out_of_fuel
  drop (suc fuel) c b = do
    (found, alloc) ← Ring.dequeue c b.alloc_queue
    elim found [
      | none ↦ done ([], record b { alloc_queue = alloc })
      | some inner ↦
          if ltb inner (length b.backing)
          then (do
            (value, backing) ← read_slot b.backing inner
            (values, b') ← drop fuel c (record b { backing = backing; alloc_queue = alloc })
            done (value ∷ values, b'))
          else panic
    ]

-- `AllocBoundedQueueInternal::new`, with `mode` for the const parameter `MODE`.
unfoldable pub new {ℓ} : (A : Type ℓ) → ℕ → ℕ → Exec (BoundedQueue A)
new A mode size = do
  order ← determine_order size
  free ← new_alloc_ring_full mode order
  done (record {
    backing = replicate (2 * size % word_mod) none;
    free_queue = free;
    alloc_queue = new_alloc_ring_empty mode order;
    used = 0;
  })

-- `ConstBoundedQueue::new_const`, with `size` for the const parameter `N`.
unfoldable pub new_const {ℓ} : (A : Type ℓ) → ℕ → Exec (BoundedQueue A)
new_const A size = if not (size % 2 == 0) then panic else if size == 0 then panic else do
  alloc ← new_const_ring_empty 0 size
  free ← new_const_ring_full 0 size
  done (record { backing = replicate size none; free_queue = free; alloc_queue = alloc; used = 0 })

-- `const_queue!`, whose assertions fail at compile time.
unfoldable pub const_queue {ℓ} : (A : Type ℓ) → ℕ → Exec (BoundedQueue A)
const_queue A size =
    if size == 0
    then panic
    else if (size % 2 == 0) || (size == 1)
    then new_const A (size * 2 % word_mod)
    else panic
