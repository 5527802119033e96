-- ===== src/Bounded/Shared/Accesses.antt =====
-- Every access of a thread to a safe queue ends, and leaves it safe.
use lfqueue.Base.{ℕ, suc, ◌+◌, ◌^◌, ◌<◌, ◌≡◌, refl, arith, sym, subst, leb}
use lfqueue.Base.{Bool, Bool-cases, some, List, get_elem?, set, done, inl, inr}
use lfqueue.Word.{wrapping_add, wrapping_sub}
use lfqueue.Ring
use lfqueue.Ring.{finalizable}
use lfqueue.Ring.Shared.{outside, check_threshold}
use lfqueue.Ring.Shared.Places.{IsInOrder-later}
use lfqueue.Bounded.{BoundedQueue, accepted, returned, queue_full, claim, capacity}
use lfqueue.Bounded.Shared.{
  Spot, resting, counting, uncounting, taking, writing, entering, giving_up, taking_back,
  finalizing, uncounted, reading, freeing, ended, sent, removing, step_queue,
}
use lfqueue.Bounded.Shared.Rings.{Log, IsWell}
use lfqueue.Bounded.Shared.Owned.{
  IsSafe, IsLinked, keeps, owns, holds, free_place, alloc_place, places, get_elem?-places,
}
use lfqueue.Bounded.Shared.Moves.{IsStill, outside-IsStill, goes, raise_bound}
use lfqueue.Bounded.Shared.Takes.{Advanced, takes, removes_index}
use lfqueue.Bounded.Shared.Puts.{enters_index}
use lfqueue.Bounded.Shared.Frees.{frees_index}
use lfqueue.Bounded.Shared.Slots.{
  idles, writes_slot, reads_value, takes_value_back, check_threshold-IsStill,
}

module _ {ℓ} {A : Type ℓ} (order bound : ℕ) (finalize spurious : Bool) (b : BoundedQueue A)
    (spots : List (Spot A)) (fl al : Log) (s : IsSafe order bound b spots fl al)
    (few : bound + 1 < 2 ^ 61) (i : ℕ) where
  abbrev Done : Spot A → Type ℓ
  Done = Advanced order bound finalize spurious b spots fl al s few i

  still : IsStill (2 ^ suc order) outside
  still = outside-IsStill (2 ^ suc order)

  -- An access to the counter, or none.
  rests :
      {spot : Spot A} (next : Spot A) (u : ℕ)
      → step_queue finalize spurious spot b ≡ done (next, record b { used = u })
      → get_elem? spots i ≡ some spot
      → free_place spot ≡ outside
      → free_place next ≡ outside
      → alloc_place spot ≡ outside
      → alloc_place next ≡ outside
      → IsLinked (2 ^ suc order) next
      → ((j : ℕ) → owns j next ≡ owns j spot)
      → ((j : ℕ) → holds j next ≡ holds j spot)
      → Done spot
  rests {spot} next u e here f f' a a' link o h = record {
    next = next;
    queue = record b { used = u };
    free_log = fl;
    alloc_log = al;
    advances = e;
    safe =
        idles order bound finalize spurious b spots fl al s few i spot next u here f f' a
          (subst (IsStill (2 ^ suc order)) (sym a') still) link o h;
  }

  counts : (item : A) → get_elem? spots i ≡ some (counting item) → Done (counting item)
  unfolding step_queue
  counts item here = elim (Bool-cases (leb (capacity (claim b)) b.used)) [
    | inl no_room ↦
        rests {spot = counting item} (uncounting item) (wrapping_add b.used 1) (rw no_room refl)
          here refl refl refl refl tt (λ j. refl) (λ j. refl)
    | inr room ↦ record {
      next = taking item b.used check_threshold;
      queue = claim b;
      free_log = fl;
      alloc_log = al;
      advances = rw room refl;
      safe =
          keeps s i (counting item) (taking item b.used check_threshold) (claim b) fl al here
            (goes i outside check_threshold s.free
              (get_elem?-places free_place spots i (counting item) here) refl refl
              (check_threshold-IsStill (2 ^ suc order)))
            (goes i outside outside s.alloc
              (get_elem?-places alloc_place spots i (counting item) here) refl refl still)
            (raise_bound bound b.free_queue s.low_free)
            (raise_bound bound b.alloc_queue s.low_alloc) s.unfinalized refl tt (λ j. omega arith)
            (λ j. omega arith);
    }
  ]

  finalizes_queue : get_elem? spots i ≡ some finalizing → Done finalizing
  unfolding step_queue Ring.finalize
  finalizes_queue here = record {
    next = ended (sent accepted);
    queue = record b { alloc_queue = Ring.finalize b.alloc_queue };
    free_log = fl;
    alloc_log = al;
    advances = refl;
    safe = elim (Bool-cases (finalizable b.alloc_queue)) [
      | inl can ↦ rw can kept
      | inr cannot ↦ rw cannot kept
    ];
  }
    where
      gone : IsWell order b.alloc_queue al (set (places alloc_place spots) i outside)
      gone =
          goes i outside outside s.alloc (get_elem?-places alloc_place spots i finalizing here) refl
            refl still

      kept :
          {flags : List Bool}
          → IsSafe order
              (bound + 1)
              (record b { alloc_queue = record (b.alloc_queue) { is_finalized = flags } })
              (set spots i (ended (sent accepted)))
              fl
              al
      kept {flags} =
          keeps s i finalizing (ended (sent accepted))
            (record b { alloc_queue = record (b.alloc_queue) { is_finalized = flags } }) fl al here
            (goes i outside outside s.free (get_elem?-places free_place spots i finalizing here)
              refl refl still)
            (record {
              order_is = gone.order_is;
              sized = record { small = gone.sized.small; size = gone.sized.size };
              in_order = λ j q f.
                  IsInOrder-later q b.alloc_queue (record (b.alloc_queue) { is_finalized = flags })
                    (omega arith) (gone.in_order j q f);
              kept = gone.kept;
            })
            (raise_bound bound b.free_queue s.low_free)
            (raise_bound bound b.alloc_queue s.low_alloc) s.unfinalized refl tt (λ j. omega arith)
            (λ j. omega arith)

  pub step_queue_lem : (spot : Spot A) → get_elem? spots i ≡ some spot → Done spot
  unfolding step_queue
  step_queue_lem resting here =
      rests {spot = resting} resting b.used refl here refl refl refl refl tt (λ j. refl) (λ j. refl)
  step_queue_lem (counting item) here = counts item here
  step_queue_lem (uncounting item) here =
      rests {spot = uncounting item} (ended (sent (returned item queue_full)))
        (wrapping_sub b.used 1) refl here refl refl refl refl tt (λ j. refl) (λ j. refl)
  step_queue_lem (taking item size p) here =
      takes order bound finalize spurious b spots fl al s few i p (s.linked i _ here) item size here
  step_queue_lem (writing item size pos) here =
      writes_slot order bound finalize spurious b spots fl al s few i item size pos here
  step_queue_lem (entering size pos p) here =
      let link = s.linked i _ here in
      enters_index order bound finalize spurious b spots fl al s few i p (link.0) pos (link.1) size
        here
  step_queue_lem (giving_up pos) here =
      rests {spot = giving_up pos} (taking_back pos) (wrapping_sub b.used 1) refl here refl refl
        refl refl tt (λ j. refl) (λ j. refl)
  step_queue_lem (taking_back pos) here =
      takes_value_back order bound finalize spurious b spots fl al s few i pos here
  step_queue_lem finalizing here = finalizes_queue here
  step_queue_lem (removing p) here =
      removes_index order bound finalize spurious b spots fl al s few i p (s.linked i _ here) here
  step_queue_lem (uncounted pos) here =
      rests {spot = uncounted pos} (reading pos) (wrapping_sub b.used 1) refl here refl refl refl
        refl tt (λ j. refl) (λ j. refl)
  step_queue_lem (reading pos) here =
      reads_value order bound finalize spurious b spots fl al s few i pos here
  step_queue_lem (freeing result pos p) here =
      let link = s.linked i _ here in
      frees_index order bound finalize spurious b spots fl al s few i p (link.0) pos (link.1) result
        here
  step_queue_lem (ended result) here =
      rests {spot = ended result} (ended result) b.used refl here refl refl refl refl tt (λ j. refl)
        (λ j. refl)
