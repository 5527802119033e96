-- ===== src/Single.antt =====
-- `SingleSize` of src/single.rs, the queue for one value: its calls run alone, and the same calls
-- taken apart into the accesses of memory that the calls of several threads interleave.
pub mod Alone
pub mod Shared
pub mod Runs
pub mod Safety
pub mod Tests
use lfqueue.Base.{ℕ, zero, suc, ◌+◌, ◌==◌, not, if◌then◌else◌, Bool, Option, none, some}
use lfqueue.Base.{List, [], ◌∷◌, ◌++◌, get_elem?, set, replicate, Exec, done, undefined, ◌>>=◌}

abbrev pub state_empty : ℕ
state_empty = 0

abbrev pub state_writing : ℕ
state_writing = 1

abbrev pub state_ready : ℕ
state_ready = 2

abbrev pub state_reading : ℕ
state_reading = 3

-- The payload is `none` while the memory holds no value.
pub record SingleSize {ℓ} (A : Type ℓ) : Type ℓ where
  pub payload : Option A
  pub state : ℕ

-- Where a thread is in a call; `enqueue_returned none` stands for `Ok(())`.
pub data Pc {ℓ} (A : Type ℓ) : Type ℓ where
  idle : Pc A
  enqueue_load : A → Pc A
  enqueue_exchange : A → Pc A
  enqueue_write : A → Pc A
  enqueue_store : Pc A
  enqueue_returned : Option A → Pc A
  dequeue_load : Pc A
  dequeue_exchange : Pc A
  dequeue_read : Pc A
  dequeue_store : A → Pc A
  dequeue_returned : Option A → Pc A

module _ {ℓ} {A : Type ℓ} where
  unfoldable pub new : SingleSize A
  new = record { payload = none; state = state_empty }

  abbrev pub store : ℕ → SingleSize A → SingleSize A
  store s q = record q { state = s }

  -- `assume_init_read`, which moves the value out.
  unfoldable pub read_payload : SingleSize A → Exec (A × SingleSize A)
  read_payload q = elim q.payload [
    | none ↦ undefined
    | some v ↦ done (v, record q { payload = none })
  ]

  -- A call of one thread with no other between. The exchange finds the state that the load found.
  unfoldable pub enqueue : SingleSize A → A → Exec (Option A × SingleSize A)
  enqueue q message =
      if not (q.state == state_empty)
      then done (some message, q)
      else let q1 = store state_writing q in
        let q2 = record q1 { payload = some message } in done (none, store state_ready q2)

  unfoldable pub dequeue : SingleSize A → Exec (Option A × SingleSize A)
  dequeue q = if not (q.state == state_ready) then done (none, q) else do
    (value, q') ← read_payload (store state_reading q)
    done (some value, store state_empty q')

  -- `drop`: the values that it drops.
  unfoldable pub drop : SingleSize A → Exec (List A)
  drop q =
      if q.state == state_ready
      then (do (value, q') ← read_payload q; done (value ∷ []))
      else done []

  -- The next access of a call. `seen` is what a relaxed load reads, which need not be the last
  -- value stored; an exchange always reads the last one.
  unfoldable pub advance : ℕ → Pc A → SingleSize A → Exec (Pc A × SingleSize A)
  advance seen idle q = done (idle, q)
  advance seen (enqueue_load message) q =
      if not (seen == state_empty)
      then done (enqueue_returned (some message), q)
      else done (enqueue_exchange message, q)
  advance seen (enqueue_exchange message) q =
      if q.state == state_empty
      then done (enqueue_write message, store state_writing q)
      else done (enqueue_returned (some message), q)
  advance seen (enqueue_write message) q = done (enqueue_store, record q { payload = some message })
  advance seen enqueue_store q = done (enqueue_returned none, store state_ready q)
  advance seen (enqueue_returned r) q = done (enqueue_returned r, q)
  advance seen dequeue_load q =
      if not (seen == state_ready)
      then done (dequeue_returned none, q)
      else done (dequeue_exchange, q)
  advance seen dequeue_exchange q =
      if q.state == state_ready
      then done (dequeue_read, store state_reading q)
      else done (dequeue_returned none, q)
  advance seen dequeue_read q = do (value, q') ← read_payload q; done (dequeue_store value, q')
  advance seen (dequeue_store value) q = done (dequeue_returned (some value), store state_empty q)
  advance seen (dequeue_returned r) q = done (dequeue_returned r, q)

  -- `moves` accesses of one call alone: its loads read the last value stored.
  unfoldable pub solo : ℕ → Pc A → SingleSize A → Exec (Pc A × SingleSize A)
  solo zero pc q = done (pc, q)
  solo (suc moves) pc q = do (pc', q') ← advance q.state pc q; solo moves pc' q'

-- Several threads on one queue. `written` and `taken` are the values written to the payload and
-- read from it so far, oldest first.
pub record Threads {ℓ} (A : Type ℓ) : Type ℓ where
  pub queue : SingleSize A
  pub threads : List (Pc A)
  pub written : List A
  pub taken : List A

-- What happens next: a thread that is in no call starts one, or a thread makes its next access.
pub data Event {ℓ} (A : Type ℓ) : Type ℓ where
  call_enqueue : ℕ → A → Event A
  call_dequeue : ℕ → Event A
  move : ℕ → ℕ → Event A

module _ {ℓ} {A : Type ℓ} where
  unfoldable pub start_call : Pc A → Pc A → Pc A
  start_call idle call = call
  start_call (enqueue_returned r) call = call
  start_call (dequeue_returned r) call = call
  start_call pc call = pc

  -- What the access of a thread writes to the payload or takes from it.
  unfoldable pub writes : Pc A → List A
  writes (enqueue_write message) = message ∷ []
  writes pc = []

  unfoldable pub takes : Pc A → List A
  takes (dequeue_store value) = value ∷ []
  takes pc = []

  unfoldable pub takes_at : Pc A → Pc A → List A
  takes_at dequeue_read pc' = takes pc'
  takes_at pc pc' = []

  unfoldable pub perform : Threads A → Event A → Exec (Threads A)
  perform s (call_enqueue i message) = elim (get_elem? s.threads i) [
    | none ↦ done s
    | some pc ↦ done (record s { threads = set s.threads i (start_call pc (enqueue_load message)) })
  ]
  perform s (call_dequeue i) = elim (get_elem? s.threads i) [
    | none ↦ done s
    | some pc ↦ done (record s { threads = set s.threads i (start_call pc dequeue_load) })
  ]
  perform s (move i seen) = elim (get_elem? s.threads i) [
    | none ↦ done s
    | some pc ↦ do
      (pc', q) ← advance seen pc s.queue
      done (record {
        queue = q;
        threads = set s.threads i pc';
        written = s.written ++ writes pc;
        taken = s.taken ++ takes_at pc pc';
      })
  ]

  -- A run of `events`.
  unfoldable pub run : Threads A → List (Event A) → Exec (Threads A)
  run s [] = done s
  run s (e ∷ es) = do s' ← perform s e; run s' es

  -- `count` threads in no call, on a new queue.
  unfoldable pub start : ℕ → Threads A
  start count = record { queue = new; threads = replicate count idle; written = []; taken = [] }
