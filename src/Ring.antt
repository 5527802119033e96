-- ===== src/Ring.antt =====
-- `ScqRing` of src/scq.rs: the ring of indices, as one thread at a time runs it. An operation takes
-- the ring and returns the new ring beside its result. Cache padding and back-off change no value
-- and are left out; the debug assertions are those of a debug build and are left out too.
pub mod Entry
pub mod Holds
pub mod Enqueue
pub mod Pushed
pub mod Dequeue
pub mod Popped
pub mod Fifo
pub mod Equal
pub mod Finalize
pub mod Shared
pub mod Tests
use lfqueue.Base.{ℕ, zero, suc, ◌+◌, bit_and, bit_or, bit_xor, ◌==◌, leb, if◌then◌else◌}
use lfqueue.Base.{Bool, true, false, not, ◌&&◌, ◌||◌, Option, none, some, List, [], ◌∷◌}
use lfqueue.Base.{length, get_elem?, set, Exec, done, panic, out_of_fuel, ◌>>=◌}
use lfqueue.Word.{wrapping_add, wrapping_sub, bit_not, shift_left, is_negative}
use lfqueue.Lfring.{lfring_threshold3, lfring_pow2, modup, lfring_map, lfring_signed_cmp}
use lfqueue.Lfring.{is_lt, is_le, is_ge}

-- `MODE` is the length of `is_finalized`: 1 for a ring that can be finalized, else 0. The words of
-- `array` carry no padding, and `threshold` is the bit pattern of an `isize`.
pub record ScqRing : Type 0 where
  pub is_finalized : List Bool
  pub head : ℕ
  pub tail : ℕ
  pub threshold : ℕ
  pub array : List ℕ
  pub order : ℕ

pub data ScqError : Type 0 where
  index_larger_than_order queue_finalized : ScqError

-- `Result<(), ScqError>`
pub data Enqueued : Type 0 where
  ok : Enqueued
  err : ScqError → Enqueued

-- What the language leaves open in a run: `compare_exchange_weak` may fail though the values agree.
-- `fails k` tells whether it does while `k` rounds of fuel are left, and each loop has `fuel`
-- rounds.
pub record Cpu : Type 0 where
  pub fails : ℕ → Bool
  pub fuel : ℕ

-- `const { MODE == 1 }`
abbrev pub finalizable : ScqRing → Bool
finalizable r = length r.is_finalized == 1

-- The flag of a ring that can be finalized, and `false` for any other.
abbrev pub finalized : ScqRing → Bool
finalized r = finalizable r && elim r.is_finalized [ [] ↦ false | b ∷ _ ↦ b ]

-- As in a release build: with debug assertions it panics where `MODE` is not 1.
unfoldable pub finalize : ScqRing → ScqRing
finalize r = if finalizable r then record r { is_finalized = true ∷ [] } else r

unfoldable pub capacity : ScqRing → ℕ
capacity r = shift_left 1 r.order

-- `array[i].load(..)`, which panics out of bounds.
abbrev pub load : List ℕ → ℕ → Exec ℕ
load a i = elim (get_elem? a i) [ none ↦ panic | some e ↦ done e ]

-- `compare_exchange_weak` on a cell that holds `now`: does the exchange take place?
abbrev pub exchanges : Bool → ℕ → ℕ → Bool
exchanges spurious now expected = not spurious && (now == expected)

-- The last statements of `enqueue`, once the entry stands in the array.
unfoldable pub raise_threshold : ℕ → ℕ → ScqRing → ScqRing
raise_threshold half n r =
    let threshold = lfring_threshold3 half n in
    if not (r.threshold == threshold) then record r { threshold = threshold } else r

-- May an entry be replaced by the one of the ticket `tail`?
unfoldable pub replaceable : ℕ → ScqRing → ℕ → ℕ → ℕ → Bool
replaceable n r tail tcycle entry =
    let ecycle = modup entry n in
    is_lt (lfring_signed_cmp ecycle tcycle)
    && ((entry == ecycle) || ((entry == bit_xor ecycle n) && is_le (lfring_signed_cmp r.head tail)))

-- What `dequeue` does about the entry that it has loaded: take its index, leave it, load it once
-- more, or put `entry_new` in its place.
pub data Look : Type 0 where
  take leave wait : Look
  swap : (entry_new attempts : ℕ) → Look

unfoldable pub look : ℕ → ℕ → ℕ → ℕ → Look
look n hcycle attempt entry =
    let ecycle = modup entry n in
    if ecycle == hcycle
    then take
    else if not (bit_or entry n == ecycle)
    then if entry == bit_and entry (bit_not n)
      then leave
      else swap (bit_and entry (bit_not n)) attempt
    else if leb (attempt + 1) 10
    then wait
    else swap (bit_xor hcycle (bit_and (bit_not entry) n)) (attempt + 1)

module _ (fails : ℕ → Bool) where
  -- The loop `'retry`: `none` is its `break`. Between the load and the exchange nothing else runs,
  -- so the exchange meets the entry that was loaded, unless it fails spuriously.
  pub enqueue_retry : ℕ → ℕ → ℕ → ℕ → ℕ → ℕ → ℕ → ScqRing → Exec (Option Enqueued × ScqRing)
  enqueue_retry zero half n eidx tail tcycle tidx r = out_of_fuel
  enqueue_retry (suc fuel) half n eidx tail tcycle tidx r =
      let again = enqueue_retry fuel half n eidx tail tcycle tidx r in
      do
        entry ← load r.array tidx
        if replaceable n r tail tcycle entry
            then if finalized r
              then done (some (err queue_finalized), r)
              else if exchanges (fails fuel) entry entry
              then done (
                some ok,
                raise_threshold half n
                    (record r { array = set r.array tidx (bit_xor tcycle eidx) }),
              )
              else again
            else done (none, r)

  -- The outer loop: each round takes a ticket.
  pub enqueue_loop : ℕ → ℕ → ℕ → ℕ → ScqRing → Exec (Enqueued × ScqRing)
  enqueue_loop zero half n eidx r = out_of_fuel
  enqueue_loop (suc fuel) half n eidx r =
      let tail = r.tail in
      let taken = record r { tail = wrapping_add tail 1 } in
      let tcycle = modup (shift_left tail 1) n in
      let tidx = lfring_map tail n in
      do
        (returned, r') ← enqueue_retry fuel half n eidx tail tcycle tidx taken
        elim returned [ some result ↦ done (result, r') | none ↦ enqueue_loop fuel half n eidx r' ]

  -- The loops `'again` and below it: `some` is the index that is returned, `none` the `break`.
  pub probe : ℕ → ℕ → ℕ → ℕ → ℕ → ScqRing → Exec (Option ℕ × ScqRing)
  probe zero n hcycle hidx attempt r = out_of_fuel
  probe (suc fuel) n hcycle hidx attempt r = do
    entry ← load r.array hidx
    elim (look n hcycle attempt entry) [
      | take ↦ done (
        some (bit_and entry (wrapping_sub n 1)),
        record r { array = set r.array hidx (bit_or entry (wrapping_sub n 1)) },
      )
      | leave ↦ done (none, r)
      | wait ↦ probe fuel n hcycle hidx (attempt + 1) r
      | swap entry_new attempts ↦
          let again = probe fuel n hcycle hidx attempts r in
          if is_lt (lfring_signed_cmp (modup entry n) hcycle)
          then if exchanges (fails fuel) entry entry
            then done (none, record r { array = set r.array hidx entry_new })
            else again
          else done (none, r)
    ]

  -- `catchup`: the fields are loaded again after an exchange that failed.
  pub catchup : ℕ → ℕ → ℕ → ScqRing → Exec ScqRing
  catchup zero tail head r = out_of_fuel
  catchup (suc fuel) tail head r =
      let again = catchup fuel r.tail r.head r in
      if exchanges (fails fuel) r.tail tail
      then done (record r { tail = head })
      else if is_ge (lfring_signed_cmp r.tail r.head)
      then done r
      else again

  -- The outer loop of `dequeue`: each round takes a ticket.
  pub dequeue_loop : ℕ → ℕ → ScqRing → Exec (Option ℕ × ScqRing)
  dequeue_loop zero n r = out_of_fuel
  dequeue_loop (suc fuel) n r =
      let head = r.head in
      let next = wrapping_add head 1 in
      let hcycle = modup (shift_left head 1) n in
      do
        (found, r') ← probe fuel n hcycle (lfring_map head n) 0 (record r { head = next })
        let lower = λ (s : ScqRing). record s { threshold = wrapping_sub s.threshold 1 }
        elim found [
          | some idx ↦ done (some idx, r')
          | none ↦
              let rest = dequeue_loop fuel n (lower r') in
              if is_le (lfring_signed_cmp r'.tail next)
              then (catchup fuel r'.tail next r' >>= λ caught. done (none, lower caught))
              else if is_negative r'.threshold || (r'.threshold == 0)
              then done (none, lower r')
              else rest
        ]

-- `enqueue`. The index is turned over within the low bits, so that all ones mean an empty slot.
unfoldable pub enqueue : Cpu → ScqRing → ℕ → Exec (Enqueued × ScqRing)
unfolding enqueue_loop enqueue_retry replaceable raise_threshold capacity
enqueue c r eidx =
    if leb (capacity r) eidx
    then done (err index_larger_than_order, r)
    else let half = lfring_pow2 r.order in
      let n = shift_left half 1 in
      enqueue_loop c.fails c.fuel half n (bit_xor eidx (wrapping_sub n 1)) r

unfoldable pub dequeue : Cpu → ScqRing → Exec (Option ℕ × ScqRing)
unfolding dequeue_loop probe look catchup
dequeue c r =
    if is_negative r.threshold
    then done (none, r)
    else dequeue_loop c.fails c.fuel (lfring_pow2 (wrapping_add r.order 1)) r

-- `eq`: the arrays are compared as far as the shorter one goes.
same_words : List ℕ → List ℕ → Bool
same_words [] ys = true
same_words (x ∷ xs) [] = true
same_words (x ∷ xs) (y ∷ ys) = (x == y) && same_words xs ys

first_differs : List Bool → List Bool → Bool
first_differs (x ∷ xs) (y ∷ ys) = elim x [ true ↦ not y | false ↦ y ]
first_differs _ _ = false

same_flags : List Bool → List Bool → Bool
unfolding first_differs
same_flags xs ys = (length xs == length ys) && not (first_differs xs ys)

unfoldable pub eq : ScqRing → ScqRing → Bool
unfolding same_words same_flags
eq a b =
    same_flags a.is_finalized b.is_finalized
    && (a.head == b.head)
    && (a.tail == b.tail)
    && (a.threshold == b.threshold)
    && (a.order == b.order)
    && same_words a.array b.array
