-- ===== src/Ring/Shared/Moves.antt =====
-- Every access of a thread to a sound ring is a turn of it.
use lfqueue.Base.{ℕ, ◌≤◌, ◌≡◌, refl, arith, sym, subst}
use lfqueue.Base.{Bool, some, List, [], ◌++◌, done}
use lfqueue.Ring.{ScqRing}
use lfqueue.Ring.Holds.{slots}
use lfqueue.Ring.Shared.{Place, step, inserts, removes, passes}
use lfqueue.Ring.Shared.View.{View, enq, deq, IsGood}
use lfqueue.Ring.Shared.Sound.{IsSound, Turns, rests}

abbrev pub view : ScqRing → List (ℕ × ℕ) → List (ℕ × ℕ) → List ℕ → View
view r stored removed passed = record {
  array = r.array;
  head = r.head;
  tail = r.tail;
  stored = stored;
  removed = removed;
  passed = passed;
}

module _ (spurious : Bool) (r : ScqRing) (stored removed : List (ℕ × ℕ)) (passed : List ℕ) where
  abbrev v : View
  v = view r stored removed passed

  abbrev n : ℕ
  n = slots r

  pub record Moved (p : Place) : Type 0 where
    pub next : Place
    pub ring : ScqRing
    pub steps : step spurious p r ≡ done (next, ring)
    pub turns :
        Turns n v p
          (view ring
            (inserts p next r ++ stored)
            (removes p next ++ removed)
            (passes p next ++ passed))
          next

  -- An access that is in no log.
  pub quiet :
      {p : Place} (next : Place) (ring : ScqRing)
      → step spurious p r ≡ done (next, ring)
      → inserts p next r ≡ []
      → removes p next ≡ []
      → passes p next ≡ []
      → Turns n v p (view ring stored removed passed) next
      → Moved p
  quiet next ring steps i m a turns = record {
    next = next;
    ring = ring;
    steps = steps;
    turns = rw (i, m, a) turns;
  }

  module _ (s : IsSound n v) where
    -- An access that changes neither counter nor array, in no call.
    pub calm :
        {p : Place} (next : Place) (ring : ScqRing)
        → step spurious p r ≡ done (next, ring)
        → inserts p next r ≡ []
        → removes p next ≡ []
        → passes p next ≡ []
        → r.tail ≤ ring.tail
        → ring.array ≡ r.array
        → ring.head ≡ r.head
        → IsGood n (view (record r { tail = ring.tail }) stored removed passed) next
        → ((t : ℕ) → enq next ≡ some t → enq p ≡ some t)
        → ((t : ℕ) → deq next ≡ some t → deq p ≡ some t)
        → ((t : ℕ) → deq p ≡ some t → deq next ≡ some t)
        → Moved p
    calm {p} next ring steps i m a up array head good e d l = quiet next ring steps i m a (
        subst
          (λ (h : ℕ).
            Turns n v p
              (record {
                array = ring.array;
                head = h;
                tail = ring.tail;
                stored = stored;
                removed = removed;
                passed = passed;
              })
              next)
          (sym head)
          (subst
            (λ (w : List ℕ).
              Turns n v p
                (record {
                  array = w;
                  head = r.head;
                  tail = ring.tail;
                  stored = stored;
                  removed = removed;
                  passed = passed;
                })
                next)
            (sym array) (rests n {v = v} {p = p} {p' = next} ring.tail s up good e d l)))

    -- An access that stores nothing, and keeps the ticket.
    pub reads :
        {p : Place} (next : Place)
        → step spurious p r ≡ done (next, r)
        → inserts p next r ≡ []
        → removes p next ≡ []
        → passes p next ≡ []
        → IsGood n v next
        → ((t : ℕ) → enq next ≡ some t → enq p ≡ some t)
        → ((t : ℕ) → deq next ≡ some t → deq p ≡ some t)
        → ((t : ℕ) → deq p ≡ some t → deq next ≡ some t)
        → Moved p
    reads {p} next steps i m a good e d l =
        calm {p = p} next r steps i m a (omega arith) refl refl good e d l
