-- ===== src/Bounded/Shared/Tests.antt =====
-- Two threads on a queue for two numbers.
use lfqueue.Base.{ℕ, ◌^◌, ◌≡◌, arith, true, false, inl, List, [], ◌∷◌, replicate, done}
use lfqueue.Bounded.{BoundedQueue, new}
use lfqueue.Bounded.Shared.{Spot, resting, Turn, send, receive, proceed, run}
use lfqueue.Bounded.Shared.Safety.{IsExclusive, shared_queue_lem}

-- Thread 0 sends 7 while thread 1 asks for a value, and their accesses alternate.
abbrev crossing : List (Turn ℕ)
crossing =
    send 0 7
    ∷ receive 1
    ∷ proceed 0 false
    ∷ proceed 1 false
    ∷ proceed 0 false
    ∷ proceed 1 false
    ∷ proceed 0 false
    ∷ proceed 0 false
    ∷ proceed 0 false
    ∷ proceed 0 false
    ∷ proceed 0 false
    ∷ proceed 0 true
    ∷ proceed 0 false
    ∷ proceed 0 false
    ∷ proceed 0 false
    ∷ proceed 0 false
    ∷ receive 1
    ∷ proceed 1 false
    ∷ proceed 1 false
    ∷ proceed 1 false
    ∷ proceed 1 false
    ∷ proceed 1 false
    ∷ proceed 1 false
    ∷ []

shared_queue_lem_example :
    (b b' : BoundedQueue ℕ) × (spots : List (Spot ℕ)) × (new ℕ 1 2 ≡ done b)
    × (run false (b, replicate 2 resting) crossing ≡ done (b', spots))
    × IsExclusive (2 ^ 1) spots
shared_queue_lem_example =
    shared_queue_lem ℕ 1 2 1 2 false crossing (omega arith) (omega arith)
      (omega arith, inl (omega arith)) (record { below = omega arith; above = omega arith })
      (omega arith)
