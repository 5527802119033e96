-- ===== src/Single/Alone.antt =====
-- The calls of one thread alone.
use lfqueue.Base.{
  ℕ, zero, suc, ◌≡◌, refl, arith, ap, ◌∙◌, ◌==◌, ltb, if◌then◌else◌, false, Option, none, some,
}
use lfqueue.Base.{List, [], ◌∷◌, ◌++◌, length, done, ◌>>=◌, ne→==}
use lfqueue.Bounded.Fifo.{head_of, tail_of}
use lfqueue.Single.{SingleSize, enqueue_load, enqueue_returned, dequeue_load, dequeue_returned}
use lfqueue.Single.{state_empty, state_ready, enqueue, dequeue, drop, solo, advance, read_payload}

module _ {ℓ} {A : Type ℓ} where
  -- The accesses of a call alone are the call.
  solo_at :
      (p : Option A) (s : ℕ) (x : A)
      → (let q : SingleSize A = record { payload = p; state = s } in
          (solo 4 (enqueue_load x) q ≡ (enqueue q x >>= λ (r, q'). done (enqueue_returned r, q')))
          × (solo 4 dequeue_load q ≡ (dequeue q >>= λ (r, q'). done (dequeue_returned r, q'))))
  unfolding solo advance enqueue dequeue read_payload
  solo_at none zero x = (refl, refl)
  solo_at (some v) zero x = (refl, refl)
  solo_at none (suc zero) x = (refl, refl)
  solo_at (some v) (suc zero) x = (refl, refl)
  solo_at none (suc (suc zero)) x = (refl, refl)
  solo_at (some v) (suc (suc zero)) x = (refl, refl)
  solo_at p (suc (suc (suc s))) x =
      let not_empty : (suc (suc (suc s)) == state_empty) ≡ false =
        ne→== (suc (suc (suc s))) 0 (omega arith) in
      let not_ready : (suc (suc (suc s)) == state_ready) ≡ false =
        ne→== (suc (suc (suc s))) 2 (omega arith) in
      (rw (not_empty), rw (not_ready))

  -- The queue is in no call, and holds the values `l`, one at most.
  abbrev pub Contains : SingleSize A → List A → Type ℓ
  Contains q [] = (q.state ≡ state_empty) × (q.payload ≡ none)
  Contains q (x ∷ []) = (q.state ≡ state_ready) × (q.payload ≡ some x)
  Contains q (x ∷ y ∷ l) = Unit × ⊥

  -- The queue is a queue of capacity 1: an empty one accepts the message and a full one hands it
  -- back, `dequeue` returns the value if there is one, and `drop` drops exactly the value left.
  pub calls_lem :
      (q : SingleSize A) (l : List A) (x : A)
      → Contains q l
      → ((q' : SingleSize A) × (enqueue q x
            ≡ done ((if ltb (length l) 1 then none else some x), q'))
          × Contains q' (if ltb (length l) 1 then l ++ (x ∷ []) else l))
        × ((q' : SingleSize A) × (dequeue q ≡ done (head_of l, q')) × Contains q' (tail_of l))
        × (drop q ≡ done l)
  unfolding enqueue dequeue drop read_payload
  calls_lem q [] x h = ((_, rw (h.0), (refl, refl)), (_, rw (h.0), h), rw (h.0))
  calls_lem q (y ∷ []) x h = ((_, rw (h.0), h), (_, rw (h.0, h.1), (refl, refl)), rw (h.0, h.1))
  calls_lem q (y ∷ z ∷ l) x h = absurd (h.1)

  -- A thread that makes the accesses of its call with no other between ends after four at most, and
  -- together they are those of a queue of capacity 1: an empty one takes the message and a full one
  -- hands it back, and `dequeue` returns the value if there is one.
  pub solo_lem :
      (q : SingleSize A) (l : List A) (x : A)
      → Contains q l
      → ((q' : SingleSize A) × (solo 4 (enqueue_load x) q
            ≡ done (enqueue_returned (if ltb (length l) 1 then none else some x), q'))
          × Contains q' (if ltb (length l) 1 then l ++ (x ∷ []) else l))
        × ((q' : SingleSize A) × (solo 4 dequeue_load q ≡ done (dequeue_returned (head_of l), q'))
            × Contains q' (tail_of l))
  solo_lem q l x h =
      let (e, d) = solo_at q.payload q.state x in
      let ((q1, e1, c1), (q2, d2, c2), dropped) = calls_lem q l x h in
      (
        (q1, e ∙ ap (λ y. y >>= λ (r, q'). done (enqueue_returned r, q')) e1, c1),
        (q2, d ∙ ap (λ y. y >>= λ (r, q'). done (dequeue_returned r, q')) d2, c2),
      )
