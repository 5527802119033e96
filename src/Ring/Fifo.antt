-- ===== src/Ring/Fifo.antt =====
-- The ring against the queue that it implements: a list of indices, oldest first.
use lfqueue.Base.{ℕ, ◌+◌, ◌^◌, ◌≤◌, ◌<◌, ◌≡◌, true, refl, arith, ltb, if◌then◌else◌}
use lfqueue.Base.{false, List, [], ◌∷◌, ◌++◌, Option, none, some, length, dec_lt, le→ltb, lt→ltb}
use lfqueue.Base.{done}
use lfqueue.Word.{sign_bit}
use lfqueue.Ring.{
  ScqRing, Cpu, ok, err, queue_finalized, index_larger_than_order, finalized, enqueue, dequeue,
}
use lfqueue.Ring.Holds.{Holds, IsYoung, IsFair, IsTight}
use lfqueue.Ring.Enqueue.{pushed, refused, enqueue-pushed, enqueue-refused, enqueue-rejected}
use lfqueue.Ring.Pushed.{pushed-Holds, refused-Holds}
use lfqueue.Ring.Dequeue.{popped, passed, dequeue-popped, dequeue-passed, dequeue-unarmed}
use lfqueue.Ring.Popped.{popped-Holds, passed-Holds}

-- The list without its first index, and that index.
abbrev pub rest_of : List ℕ → List ℕ
rest_of [] = []
rest_of (i ∷ q) = q

abbrev pub first_of_list : List ℕ → Option ℕ
first_of_list [] = none
first_of_list (i ∷ q) = some i

-- What a call may do to the fields that the list does not show.
pub record Kept (r r' : ScqRing) : Type 0 where
  pub order : r'.order ≡ r.order
  pub flags : r'.is_finalized ≡ r.is_finalized
  pub tickets : r'.tail ≤ r.tail + 1

module _ {r : ScqRing} {q : List ℕ} (c : Cpu) (h : Holds r q) (young : IsYoung r)
    (fair : IsFair c) where
  -- On a fair processor, and while fewer than 2 ^ 61 tickets have been taken: a ring that holds
  -- fewer indices than its capacity and is not finalized accepts every index below the capacity,
  -- and then holds it behind the others; any other index is an error, and leaves the ring as it
  -- was.
  pub enqueue_appends :
      (i : ℕ)
      → length q < 2 ^ r.order
      → finalized r ≡ false
      → (r' : ScqRing) × (enqueue c r i
          ≡ done ((if ltb i (2 ^ r.order) then ok else err index_larger_than_order), r'))
        × Holds r' (if ltb i (2 ^ r.order) then q ++ (i ∷ []) else q)
        × Kept r r'
        × (2 ^ r.order ≤ i → r' ≡ r)
  enqueue_appends i space open_ring = elim (dec_lt i (2 ^ r.order)) [
    | yes fits ↦ rw (lt→ltb i (2 ^ r.order) fits) (
      pushed r i,
      enqueue-pushed h young fair i fits space open_ring,
      pushed-Holds h i fits space open_ring,
      record { order = refl; flags = refl; tickets = omega arith },
      λ above. absurd (omega arith),
    )
    | no big ↦ rw (le→ltb i (2 ^ r.order) (omega arith)) (
      r,
      enqueue-rejected c r i h.order_small (omega arith),
      h,
      record { order = refl; flags = refl; tickets = omega arith },
      λ above. refl,
    )
  ]

  -- On a fair processor, and while fewer than 2 ^ 61 tickets have been taken:
  -- a finalized ring with room, whose tickets all carry an index, refuses every index below the
  -- capacity, and holds what it held.
  pub enqueue_refuses :
      (i : ℕ)
      → i < 2 ^ r.order
      → length q < 2 ^ r.order
      → finalized r ≡ true
      → r.tail ≡ r.head + length q
      → (r' : ScqRing) × (enqueue c r i ≡ done (err queue_finalized, r')) × Holds r' q × Kept r r'
  enqueue_refuses i fits space closed tight = (
    refused r,
    enqueue-refused h young fair i fits space closed tight,
    refused-Holds h closed tight,
    record { order = refl; flags = refl; tickets = omega arith },
  )

  -- On a fair processor, and while fewer than 2 ^ 61 tickets have been taken: `dequeue` returns the
  -- oldest index of the ring, which then holds the others, or nothing if the ring is empty, which
  -- it stays; and if every ticket that was taken carried an index, so it is still.
  pub dequeue_removes :
      (r' : ScqRing) × (dequeue c r ≡ done (first_of_list q, r'))
      × Holds r' (rest_of q)
      × Kept r r'
      × (IsTight r (length q) → IsTight r' (length (rest_of q)))
  dequeue_removes = by_list q h
    where
      by_list :
          (p : List ℕ)
          → Holds r p
          → (r' : ScqRing) × (dequeue c r ≡ done (first_of_list p, r'))
            × Holds r' (rest_of p)
            × Kept r r'
            × (IsTight r (length p) → IsTight r' (length (rest_of p)))
      by_list [] g = elim (dec_lt r.threshold sign_bit) [
        | yes armed ↦ (
          passed r,
          dequeue-passed g young fair armed,
          passed-Holds g young,
          record { order = refl; flags = refl; tickets = omega (arith, g.ends) },
          λ e. omega arith,
        )
        | no negative ↦ (
          r,
          dequeue-unarmed c r (omega arith),
          g,
          record { order = refl; flags = refl; tickets = omega arith },
          λ e. e,
        )
      ]
      by_list (i ∷ p) g = (
        popped r,
        dequeue-popped g young fair,
        popped-Holds g young,
        record { order = refl; flags = refl; tickets = omega arith },
        λ e. omega (arith, e),
      )
