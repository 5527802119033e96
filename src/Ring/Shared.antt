-- ===== src/Ring/Shared.antt =====
-- `ScqRing` of src/scq.rs shared by threads: `enqueue`, `dequeue`, `catchup` and `finalize` as
-- their accesses to the atomic fields, which follow one another in any order, one at a time. A load
-- reads the last value stored. Back-off is left out.
pub mod Words
pub mod Fields
pub mod Older
pub mod Looks
pub mod View
pub mod Sound
pub mod Store
pub mod Take
pub mod Pass
pub mod Given
pub mod Steps
pub mod Tested
pub mod Access
pub mod Moves
pub mod Fills
pub mod Probes
pub mod Turning
pub mod Places
pub mod Kept
pub mod Runs
pub mod Consistent
pub mod Opened
pub mod Conserved
pub mod Tickets
pub mod Safety
pub mod Tests
use lfqueue.Base.{ℕ, zero, suc, ◌+◌, bit_and, bit_or, bit_xor, ◌==◌, leb, if◌then◌else◌}
use lfqueue.Base.{Bool, true, false, not, ◌||◌, Option, none, some, List, [], ◌∷◌, ◌++◌}
use lfqueue.Base.{get_elem?, set, replicate, Exec, done, ◌>>=◌}
use lfqueue.Word.{wrapping_add, wrapping_sub, bit_not, shift_left, is_negative}
use lfqueue.Lfring.{lfring_threshold3, lfring_pow2, modup, lfring_map, lfring_signed_cmp}
use lfqueue.Lfring.{is_lt, is_le, is_ge}
use lfqueue.Ring
use lfqueue.Ring.{
  ScqRing, Enqueued, ok, err, queue_finalized, index_larger_than_order, finalizable, finalized,
  capacity, load, exchanges, look, take, leave, wait, swap,
}

-- Where a thread is: before the access that the name says, or in no call, or at the end of one.
pub data Place : Type 0 where
  outside : Place
  claim_tail : (eidx : ℕ) → Place
  load_entry : (eidx tail : ℕ) → Place
  check_head check_finalized exchange_entry : (eidx tail entry : ℕ) → Place
  load_threshold store_threshold : Place
  enqueued : Enqueued → Place
  check_threshold claim_head : Place
  probe_entry : (head attempt : ℕ) → Place
  take_entry : (head entry : ℕ) → Place
  swap_entry : (head attempt entry entry_new : ℕ) → Place
  load_tail : (head : ℕ) → Place
  catch_tail : (tail head : ℕ) → Place
  reload_head : Place
  reload_tail : (head : ℕ) → Place
  lower_empty lower_threshold : Place
  dequeued : Option ℕ → Place

-- `n` as `enqueue` and as `dequeue` compute it.
abbrev pub n_enqueue : ScqRing → ℕ
n_enqueue r = shift_left (lfring_pow2 r.order) 1

abbrev pub n_dequeue : ScqRing → ℕ
n_dequeue r = lfring_pow2 (wrapping_add r.order 1)

-- A call of `enqueue` up to its first access.
unfoldable pub begin_enqueue : ScqRing → ℕ → Place
begin_enqueue r eidx =
    if leb (capacity r) eidx
    then enqueued (err index_larger_than_order)
    else claim_tail (bit_xor eidx (wrapping_sub (n_enqueue r) 1))

-- After the test of the entry: only a ring that can be finalized has the next access.
unfoldable pub after_test : ScqRing → ℕ → ℕ → ℕ → Place
after_test r eidx tail entry =
    if finalizable r then check_finalized eidx tail entry else exchange_entry eidx tail entry

-- The test of an entry that was loaded, up to the load of `head` in it.
unfoldable pub test_entry : ScqRing → ℕ → ℕ → ℕ → Place
unfolding after_test
test_entry r eidx tail entry =
    let n = n_enqueue r in
    let ecycle = modup entry n in
    if is_lt (lfring_signed_cmp ecycle (modup (shift_left tail 1) n))
    then if entry == ecycle
      then after_test r eidx tail entry
      else if entry == bit_xor ecycle n
      then check_head eidx tail entry
      else claim_tail eidx
    else claim_tail eidx

-- What follows the load of an entry in `dequeue`.
unfoldable pub after_probe : ScqRing → ℕ → ℕ → ℕ → Place
after_probe r head attempt entry =
    let n = n_dequeue r in
    let hcycle = modup (shift_left head 1) n in
    elim (look n hcycle attempt entry) [
      | take ↦ take_entry head entry
      | leave ↦ load_tail head
      | wait ↦ probe_entry head (attempt + 1)
      | swap entry_new attempts ↦
          if is_lt (lfring_signed_cmp (modup entry n) hcycle)
          then swap_entry head attempts entry entry_new
          else load_tail head
    ]

-- One access of a thread. A `compare_exchange_weak` may fail spuriously.
unfoldable pub step : Bool → Place → ScqRing → Exec (Place × ScqRing)
step spurious outside r = done (outside, r)
step spurious (claim_tail eidx) r =
    done (load_entry eidx r.tail, record r { tail = wrapping_add r.tail 1 })
step spurious (load_entry eidx tail) r = do
  entry ← load r.array (lfring_map tail (n_enqueue r))
  done (test_entry r eidx tail entry, r)
step spurious (check_head eidx tail entry) r =
    if is_le (lfring_signed_cmp r.head tail)
    then done (after_test r eidx tail entry, r)
    else done (claim_tail eidx, r)
step spurious (check_finalized eidx tail entry) r =
    if finalized r
    then done (enqueued (err queue_finalized), r)
    else done (exchange_entry eidx tail entry, r)
step spurious (exchange_entry eidx tail entry) r =
    let n = n_enqueue r in
    let tidx = lfring_map tail n in
    do
      now ← load r.array tidx
      if exchanges spurious now entry
          then done (
            load_threshold,
            record r { array = set r.array tidx (bit_xor (modup (shift_left tail 1) n) eidx) },
          )
          else done (load_entry eidx tail, r)
step spurious load_threshold r =
    if r.threshold == lfring_threshold3 (lfring_pow2 r.order) (n_enqueue r)
    then done (enqueued ok, r)
    else done (store_threshold, r)
step spurious store_threshold r =
    done
      (enqueued ok, record r { threshold = lfring_threshold3 (lfring_pow2 r.order) (n_enqueue r) })
step spurious (enqueued result) r = done (enqueued result, r)
step spurious check_threshold r =
    if is_negative r.threshold then done (dequeued none, r) else done (claim_head, r)
step spurious claim_head r = done (probe_entry r.head 0, record r { head = wrapping_add r.head 1 })
step spurious (probe_entry head attempt) r = do
  entry ← load r.array (lfring_map head (n_dequeue r))
  done (after_probe r head attempt entry, r)
step spurious (take_entry head entry) r =
    let mask = wrapping_sub (n_dequeue r) 1 in
    let hidx = lfring_map head (n_dequeue r) in
    do
      now ← load r.array hidx
      done (
        dequeued (some (bit_and entry mask)),
        record r { array = set r.array hidx (bit_or now mask) },
      )
step spurious (swap_entry head attempt entry entry_new) r =
    let hidx = lfring_map head (n_dequeue r) in
    do
      now ← load r.array hidx
      if exchanges spurious now entry
          then done (load_tail head, record r { array = set r.array hidx entry_new })
          else done (probe_entry head attempt, r)
step spurious (load_tail head) r =
    let next = wrapping_add head 1 in
    if is_le (lfring_signed_cmp r.tail next)
    then done (catch_tail r.tail next, r)
    else done (lower_threshold, r)
step spurious (catch_tail tail head) r =
    if exchanges spurious r.tail tail
    then done (lower_empty, record r { tail = head })
    else done (reload_head, r)
step spurious reload_head r = done (reload_tail r.head, r)
step spurious (reload_tail head) r =
    if is_ge (lfring_signed_cmp r.tail head)
    then done (lower_empty, r)
    else done (catch_tail r.tail head, r)
step spurious lower_empty r =
    done (dequeued none, record r { threshold = wrapping_sub r.threshold 1 })
step spurious lower_threshold r =
    let lowered = record r { threshold = wrapping_sub r.threshold 1 } in
    if is_negative r.threshold || (r.threshold == 0)
    then done (dequeued none, lowered)
    else done (claim_head, lowered)
step spurious (dequeued result) r = done (dequeued result, r)

-- Threads on one ring. `heads` are the tickets of `head` that threads were given, oldest first,
-- `tails` those of `tail`, newest first. `stored` and `removed` are the tickets with the indices that
-- `enqueue` has stored and `dequeue` has returned, and `passed` the tickets for which `dequeue` went
-- on without an index, all of them newest first.
pub record SharedRing : Type 0 where
  pub ring : ScqRing
  pub places : List Place
  pub heads : List ℕ
  pub tails : List ℕ
  pub stored : List (ℕ × ℕ)
  pub removed : List (ℕ × ℕ)
  pub passed : List ℕ

-- What happens next: a thread in no call starts one, a thread makes its next access, or the ring is
-- finalized.
pub data Action : Type 0 where
  start_enqueue : (thread eidx : ℕ) → Action
  start_dequeue : (thread : ℕ) → Action
  access : (thread : ℕ) (spurious : Bool) → Action
  finalizes : Action

unfoldable pub begin : Place → Place → Place
begin outside call = call
begin (enqueued result) call = call
begin (dequeued result) call = call
begin place call = place

-- The ticket of `head` that a thread has after an access, if the access gave it one.
unfoldable pub tickets : Place → Place → List ℕ
tickets claim_head (probe_entry head attempt) = head ∷ []
tickets place next = []

-- The ticket of `tail` that a thread has after an access, if the access gave it one.
unfoldable pub tail_tickets : Place → Place → List ℕ
tail_tickets (claim_tail eidx) (load_entry turned tail) = tail ∷ []
tail_tickets place next = []

-- The ticket and the index that an access stores for `enqueue`: only the exchange leads from the
-- entry to the threshold. The place has the index as `enqueue` turned it over.
unfoldable pub inserts : Place → Place → ScqRing → List (ℕ × ℕ)
inserts (exchange_entry eidx tail entry) load_threshold r =
    (tail, bit_xor eidx (wrapping_sub (n_enqueue r) 1)) ∷ []
inserts place next r = []

-- The ticket and the index that `dequeue` returns after an access.
unfoldable pub removes : Place → Place → List (ℕ × ℕ)
removes (take_entry head entry) (dequeued (some index)) = (head, index) ∷ []
removes place next = []

-- The ticket for which `dequeue` goes on without an index.
unfoldable pub passes : Place → Place → List ℕ
passes (probe_entry head attempt) (load_tail ticket) = head ∷ []
passes (swap_entry head attempt entry entry_new) (load_tail ticket) = head ∷ []
passes place next = []

unfoldable pub act : SharedRing → Action → Exec SharedRing
act s (start_enqueue i eidx) = elim (get_elem? s.places i) [
  | none ↦ done s
  | some place ↦
      done (record s { places = set s.places i (begin place (begin_enqueue s.ring eidx)) })
]
act s (start_dequeue i) = elim (get_elem? s.places i) [
  | none ↦ done s
  | some place ↦ done (record s { places = set s.places i (begin place check_threshold) })
]
act s (access i spurious) = elim (get_elem? s.places i) [
  | none ↦ done s
  | some place ↦ do
    (next, ring) ← step spurious place s.ring
    done (record {
      ring = ring;
      places = set s.places i next;
      heads = s.heads ++ tickets place next;
      tails = tail_tickets place next ++ s.tails;
      stored = inserts place next s.ring ++ s.stored;
      removed = removes place next ++ s.removed;
      passed = passes place next ++ s.passed;
    })
]
act s finalizes = done (record s { ring = Ring.finalize s.ring })

-- A run of `actions`.
unfoldable pub play : SharedRing → List Action → Exec SharedRing
play s [] = done s
play s (a ∷ rest) = do s' ← act s a; play s' rest

-- `count` threads in no call, on the ring `r`.
unfoldable pub share : ScqRing → ℕ → SharedRing
share r count = record {
  ring = r;
  places = replicate count outside;
  heads = [];
  tails = [];
  stored = [];
  removed = [];
  passed = [];
}
