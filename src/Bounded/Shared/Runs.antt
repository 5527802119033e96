-- ===== src/Bounded/Shared/Runs.antt =====
-- A run of the accesses of threads to a safe queue ends, and leaves it safe.
use lfqueue.Base.{ℕ, zero, suc, ◌+◌, ◌^◌, ◌<◌, ◌≡◌, refl, arith, ap, sym, ◌∙◌, subst}
use lfqueue.Base.{
  Bool, false, Option, none, some, List, [], ◌∷◌, length, get_elem?, set, Exec, done, ◌>>=◌,
}
use lfqueue.Ring.Shared.{outside, check_threshold}
use lfqueue.Bounded.{BoundedQueue}
use lfqueue.Bounded.Shared.{
  Spot, resting, counting, uncounting, taking, writing, entering, giving_up, taking_back,
  finalizing, uncounted, reading, freeing, ended, removing, step_queue, start, Turn, send, receive,
  proceed, turn, run,
}
use lfqueue.Bounded.Shared.Rings.{Log}
use lfqueue.Bounded.Shared.Owned.{IsSafe, IsLinked, owns, holds, free_place, alloc_place}
use lfqueue.Bounded.Shared.Moves.{IsStill, outside-IsStill, raise_bound}
use lfqueue.Bounded.Shared.Slots.{idles, check_threshold-IsStill}
use lfqueue.Bounded.Shared.Accesses.{step_queue_lem}

module _ {ℓ} {A : Type ℓ} where
  -- A call starts only in a thread that is in none.
  start_cases :
      (P : Spot A → Type ℓ) (spot call : Spot A)
      → (free_place spot ≡ outside
          → alloc_place spot ≡ outside
          → ((j : ℕ) → owns j spot ≡ 0)
          → ((j : ℕ) → holds j spot ≡ 0)
          → P call)
      → P spot
      → P (start spot call)
  unfolding start
  start_cases P resting call c p = c refl refl (λ j. refl) (λ j. refl)
  start_cases P (ended result) call c p = c refl refl (λ j. refl) (λ j. refl)
  start_cases P (counting item) call c p = p
  start_cases P (uncounting item) call c p = p
  start_cases P (taking item size place) call c p = p
  start_cases P (writing item size pos) call c p = p
  start_cases P (entering size pos place) call c p = p
  start_cases P (giving_up pos) call c p = p
  start_cases P (taking_back pos) call c p = p
  start_cases P finalizing call c p = p
  start_cases P (removing place) call c p = p
  start_cases P (uncounted pos) call c p = p
  start_cases P (reading pos) call c p = p
  start_cases P (freeing result pos place) call c p = p

  set_same : (xs : List (Spot A)) (i : ℕ) (x : Spot A) → get_elem? xs i ≡ some x → xs ≡ set xs i x
  set_same [] i x h = refl
  set_same (y ∷ xs) zero x h = let same : y ≡ x = cc in ap (λ (z : Spot A). z ∷ xs) same
  set_same (y ∷ xs) (suc i) x h = ap (λ (l : List (Spot A)). y ∷ l) (set_same xs i x h)

  safe_up :
      {order bound : ℕ} {b : BoundedQueue A} {spots : List (Spot A)} {fl al : Log}
      → IsSafe order bound b spots fl al
      → IsSafe order (bound + 1) b spots fl al
  safe_up {order} {bound} {b} {spots} {fl} {al} s = record {
    free = s.free;
    alloc = s.alloc;
    low_free = raise_bound bound b.free_queue s.low_free;
    low_alloc = raise_bound bound b.alloc_queue s.low_alloc;
    unfinalized = s.unfinalized;
    room = s.room;
    linked = s.linked;
    once = s.once;
    full = s.full;
  }

  -- The queue and the threads after an action.
  pub record Ran (order bound : ℕ) (outcome : Exec (BoundedQueue A × List (Spot A))) : Type ℓ where
    pub queue : BoundedQueue A
    pub spots : List (Spot A)
    pub free_log : Log
    pub alloc_log : Log
    pub ends : outcome ≡ done (queue, spots)
    pub safe : IsSafe order bound queue spots free_log alloc_log

  module _ (order : ℕ) (finalize : Bool) where
    starts :
        (bound : ℕ) (b : BoundedQueue A) (spots : List (Spot A)) (fl al : Log) (i : ℕ)
        (call : Spot A) (o : Option (Spot A))
        → IsSafe order bound b spots fl al
        → bound + 1 < 2 ^ 61
        → get_elem? spots i ≡ o
        → free_place call ≡ outside
        → IsStill (2 ^ suc order) (alloc_place call)
        → IsLinked (2 ^ suc order) call
        → ((j : ℕ) → owns j call ≡ 0)
        → ((j : ℕ) → holds j call ≡ 0)
        → Ran order (bound + 1) (elim o [
          | none ↦ done (b, spots)
          | some spot ↦ done (b, set spots i (start spot call))
        ])
    starts bound b spots fl al i call none s few h f quiet link own hold = record {
      queue = b;
      spots = spots;
      free_log = fl;
      alloc_log = al;
      ends = refl;
      safe = safe_up s;
    }
    starts bound b spots fl al i call (some spot) s few h f quiet link own hold = record {
      queue = b;
      spots = set spots i (start spot call);
      free_log = fl;
      alloc_log = al;
      ends = refl;
      safe =
          start_cases (λ x. IsSafe order (bound + 1) b (set spots i x) fl al) spot call
            (λ f0 a0 own0 hold0.
              idles order bound finalize false b spots fl al s few i spot call b.used h f0 f a0
                quiet link (λ j. own j ∙ sym (own0 j)) (λ j. hold j ∙ sym (hold0 j)))
            (subst (λ xs. IsSafe order (bound + 1) b xs fl al) (set_same spots i spot h)
              (safe_up s));
    }

    turns_lem :
        (bound : ℕ) (b : BoundedQueue A) (spots : List (Spot A)) (fl al : Log)
        → IsSafe order bound b spots fl al
        → bound + 1 < 2 ^ 61
        → (t : Turn A) → Ran order (bound + 1) (turn finalize (b, spots) t)
    unfolding turn
    turns_lem bound b spots fl al s few (send i item) =
        starts bound b spots fl al i (counting item) (get_elem? spots i) s few refl refl
          (outside-IsStill (2 ^ suc order)) tt (λ j. refl) (λ j. refl)
    turns_lem bound b spots fl al s few (receive i) =
        starts bound b spots fl al i (removing check_threshold) (get_elem? spots i) s few refl refl
          (check_threshold-IsStill (2 ^ suc order)) tt (λ j. refl) (λ j. refl)
    turns_lem bound b spots fl al s few (proceed i spurious) = by_spot (get_elem? spots i) refl
      where
        by_spot :
            (o : Option (Spot A))
            → get_elem? spots i ≡ o
            → Ran order (bound + 1) (elim o [
              | none ↦ done (b, spots)
              | some spot ↦
                  step_queue finalize spurious spot b >>= λ r. done (r.1, set spots i (r.0))
            ])
        by_spot none h = record {
          queue = b;
          spots = spots;
          free_log = fl;
          alloc_log = al;
          ends = refl;
          safe = safe_up s;
        }
        by_spot (some spot) h =
            let m = step_queue_lem order bound finalize spurious b spots fl al s few i spot h in
            record {
              queue = m.queue;
              spots = set spots i m.next;
              free_log = m.free_log;
              alloc_log = m.alloc_log;
              ends =
                  ap
                    (λ (x : Exec (Spot A × BoundedQueue A)).
                      x >>= λ r. done (r.1, set spots i (r.0)))
                    m.advances;
              safe = m.safe;
            }

    run_first :
        (s s1 : BoundedQueue A × List (Spot A)) (t : Turn A) (turns : List (Turn A))
        (s2 : BoundedQueue A × List (Spot A))
        → turn finalize s t ≡ done s1
        → run finalize s1 turns ≡ done s2
        → run finalize s (t ∷ turns) ≡ done s2
    unfolding run
    run_first s s1 t turns s2 e f = rw e f

    pub run_lem :
        (bound : ℕ) (b : BoundedQueue A) (spots : List (Spot A)) (fl al : Log)
        (turns : List (Turn A))
        → IsSafe order bound b spots fl al
        → bound + length turns < 2 ^ 61
        → Ran order (bound + length turns) (run finalize (b, spots) turns)
    unfolding run
    run_lem bound b spots fl al [] s few = record {
      queue = b;
      spots = spots;
      free_log = fl;
      alloc_log = al;
      ends = refl;
      safe =
          subst (λ (k : ℕ). IsSafe order k b spots fl al)
            (let same : bound ≡ bound + 0 = omega arith in same) s;
    }
    run_lem bound b spots fl al (t ∷ turns) s few =
        let m = turns_lem bound b spots fl al s (omega arith) t in
        let n =
          run_lem (bound + 1) m.queue m.spots m.free_log m.alloc_log turns m.safe (omega arith) in
        record {
          queue = n.queue;
          spots = n.spots;
          free_log = n.free_log;
          alloc_log = n.alloc_log;
          ends = run_first (b, spots) (m.queue, m.spots) t turns (n.queue, n.spots) m.ends n.ends;
          safe =
              subst (λ (k : ℕ). IsSafe order k n.queue n.spots n.free_log n.alloc_log)
                (let same : bound + 1 + length turns ≡ bound + suc (length turns) = omega arith in
                  same)
                n.safe;
        }
