-- ===== src/Single/Tests.antt =====
-- Runs of the queue for one value on concrete inputs.
use lfqueue.Base.{ℕ, ◌≤◌, ◌≡◌, refl, none, some, List, [], ◌∷◌, ◌++◌, done}
use lfqueue.Single.{
  SingleSize, Threads, Event, call_enqueue, call_dequeue, move, new, perform, start_call, advance,
  read_payload, writes, takes, takes_at, run, start, solo, enqueue, dequeue, drop,
}
use lfqueue.Single.{enqueue_load, enqueue_returned, dequeue_load, dequeue_returned, state_ready}
use lfqueue.Single.Shared.{owners, held}
use lfqueue.Single.Alone.{Contains, calls_lem, solo_lem}
use lfqueue.Single.Safety.{exclusive, settled}

-- Two threads: the first writes 4 while the second fails to take it, and takes it later.
abbrev events : List (Event ℕ)
events =
    call_enqueue 0 4
    ∷ move 0 0
    ∷ move 0 0
    ∷ call_dequeue 1
    ∷ move 1 2
    ∷ move 1 1
    ∷ move 0 1
    ∷ move 0 1
    ∷ call_dequeue 1
    ∷ move 1 2
    ∷ move 1 2
    ∷ move 1 3
    ∷ move 1 3
    ∷ []

exclusive_example :
    (s : Threads ℕ) × (run (start 2) events ≡ done s)
    × (owners s.threads ≤ 1)
    × (s.written ≡ s.taken ++ held s.queue.payload)
exclusive_example = exclusive 2 events

abbrev at_end : Threads ℕ
at_end = record {
  queue = record { payload = none; state = 0 };
  threads = enqueue_returned none ∷ dequeue_returned (some 4) ∷ [];
  written = 4 ∷ [];
  taken = 4 ∷ [];
}

run-events : run (start 2) events ≡ done at_end
unfolding run start new perform start_call advance read_payload writes takes takes_at
run-events = refl

settled_example : (l : List ℕ) × Contains at_end.queue l × (at_end.written ≡ at_end.taken ++ l)
settled_example = settled 2 events at_end run-events refl

abbrev with_nine : SingleSize ℕ
with_nine = record { payload = some 9; state = state_ready }

calls_lem_example :
    ((q' : SingleSize ℕ) × (enqueue with_nine 5 ≡ done (some 5, q')) × Contains q' (9 ∷ []))
    × ((q' : SingleSize ℕ) × (dequeue with_nine ≡ done (some 9, q')) × Contains q' [])
    × (drop with_nine ≡ done (9 ∷ []))
calls_lem_example = calls_lem with_nine (9 ∷ []) 5 (refl, refl)

solo_lem_example :
    ((q' : SingleSize ℕ) × (solo 4 (enqueue_load 5) with_nine
        ≡ done (enqueue_returned (some 5), q'))
      × Contains q' (9 ∷ []))
    × ((q' : SingleSize ℕ) × (solo 4 dequeue_load with_nine ≡ done (dequeue_returned (some 9), q'))
        × Contains q' [])
solo_lem_example = solo_lem with_nine (9 ∷ []) 5 (refl, refl)
