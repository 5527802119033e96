-- ===== src/Single/Safety.antt =====
-- What the threads on one queue cannot do, and what they leave.
use lfqueue.Base.{ℕ, ◌≤◌, ◌<◌, ◌≡◌, ◌≢◌, refl, subst, arith, Option, none, some}
use lfqueue.Base.{List, ◌++◌, done}
use lfqueue.Single.{Threads, Event, run, start}
use lfqueue.Single.Shared.{owners, held, filled, indicator}
use lfqueue.Single.Runs.{Inv, run_lem, Inv-start}
use lfqueue.Single.Alone.{Contains}

module _ {ℓ} {A : Type ℓ} where
  -- However the accesses of any number of threads follow one another, and whatever the relaxed
  -- loads read, no thread reads a payload that holds no value, at most one thread is between its
  -- exchange and its last store, and the values written are those taken, in the same order, and
  -- then the one that the payload holds, so that none is taken twice, lost or overwritten.
  pub exclusive :
      (count : ℕ) (events : List (Event A))
      → (s : Threads A) × (run (start count) events ≡ done s)
        × (owners s.threads ≤ 1)
        × (s.written ≡ s.taken ++ held s.queue.payload)
  exclusive count events =
      let (s, e, v) = run_lem (start count) events (Inv-start count) in
      (s, e, ground (arith, v.writing, v.reading), v.history)

  Contains-held :
      (p : Option A) (st : ℕ)
      → st < 4
      → filled p ≡ indicator st 2
      → st ≢ 1
      → st ≢ 3
      → Contains (record { payload = p; state = st }) (held p)
  Contains-held none st b h w r = (ground arith, refl)
  Contains-held (some x) st b h w r = (ground arith, refl)

  -- When no thread is between its exchange and its last store, the queue contains the values that
  -- were written and not taken, none or one, and its state says which.
  pub settled :
      (count : ℕ) (events : List (Event A)) (s : Threads A)
      → run (start count) events ≡ done s
      → owners s.threads ≡ 0
      → (l : List A) × Contains s.queue l × (s.written ≡ s.taken ++ l)
  settled count events s e none_in =
      let (s', e', v) = run_lem (start count) events (Inv-start count) in
      let same : s' ≡ s = cc in by_inv (subst (λ t. Inv t) same v)
    where
      by_inv : Inv s → (l : List A) × Contains s.queue l × (s.written ≡ s.taken ++ l)
      by_inv v = (
        held s.queue.payload,
        Contains-held s.queue.payload s.queue.state v.bound (omega (arith, v.full))
            (λ w. ground (arith, v.writing)) (λ r. ground (arith, v.reading)),
        v.history,
      )
