-- ===== src/Suite/Loops.antt =====
-- What the loops of the tests do with a queue.
use lfqueue.Base.{
  ℕ, zero, suc, ◌+◌, ◌^◌, ◌≤◌, ◌<◌, ◌≡◌, refl, arith, sym, subst, ◌∙◌, lt→ltb, le→ltb, ltb,
}
use lfqueue.Base.{
  true, false, none, some, List, [], ◌∷◌, ◌++◌, length, length-append, done, if◌then◌else◌,
}
use mathlib.Core.List.{append_assoc, append-nil}
use lfqueue.Ring.{Cpu}
use lfqueue.Ring.Holds.{IsFair}
use lfqueue.Alloc.Fresh.{range}
use lfqueue.Bounded.{BoundedQueue}
use lfqueue.Bounded.Store.{IsYoungQueue}
use lfqueue.Bounded.Cycle.{Represents, closed, Later}
use lfqueue.Bounded.Fifo.{enqueue_lem, dequeue_lem}
use lfqueue.Grind.Agrees.{assert_eq_refl}
use lfqueue.Suite.{enqueues, dequeues}

-- An open queue with the numbers `l`, for which `room` more calls leave the counters below 2 ^ 61.
pub record IsUsable (order room : ℕ) (l : List ℕ) (b : BoundedQueue ℕ) : Type 0 where
  pub represents : Represents b order l
  pub is_open : closed b ≡ false
  pub free_young : b.free_queue.tail + room < 2 ^ 61
  pub alloc_young : b.alloc_queue.tail + room < 2 ^ 61

IsUsable-weaken :
    {order room more : ℕ} {l : List ℕ} {b : BoundedQueue ℕ}
    → room ≤ more
    → IsUsable order more l b
    → IsUsable order room l b
IsUsable-weaken le u = record {
  represents = u.represents;
  is_open = u.is_open;
  free_young = omega (arith, u.free_young);
  alloc_young = omega (arith, u.alloc_young);
}

IsUsable-IsYoungQueue :
    {order room : ℕ} {l : List ℕ} {b : BoundedQueue ℕ} → IsUsable order room l b → IsYoungQueue b
IsUsable-IsYoungQueue u = (omega (arith, u.free_young), omega (arith, u.alloc_young))

-- One call less is left after a call.
IsUsable-Later :
    {order room more : ℕ} {l l' : List ℕ} {b b' : BoundedQueue ℕ}
    → IsUsable order more l b
    → room < more
    → Represents b' order l'
    → Later b b'
    → closed b' ≡ false
    → IsUsable order room l' b'
IsUsable-Later u less h later o = record {
  represents = h;
  is_open = o;
  free_young = omega (arith, later.free_tickets, u.free_young);
  alloc_young = omega (arith, later.alloc_tickets, u.alloc_young);
}

module _ (order : ℕ) (cs : ℕ → Cpu) (fair : (i : ℕ) → IsFair (cs i)) where
  -- A queue with room takes the numbers from `i` on.
  pub enqueues-accepted :
      (left i room : ℕ) (l : List ℕ) (b : BoundedQueue ℕ)
      → length l + left ≤ 2 ^ order
      → IsUsable order (left + room) l b
      → (b' : BoundedQueue ℕ) × (enqueues cs (λ k. none) left i b ≡ done b')
        × IsUsable order room (l ++ range i left) b'
  unfolding enqueues
  enqueues-accepted zero i room l b fits u = (
    b,
    refl,
    subst (λ q. IsUsable order room q b) (sym (append-nil l)) (IsUsable-weaken (omega arith) u),
  )
  enqueues-accepted (suc left) i room l b fits u =
      let (b1, e1, h1, later, o1) =
        enqueue_lem (cs i) u.represents (IsUsable-IsYoungQueue u) (fair i) i u.is_open in
      let space : ltb (length l) (2 ^ order) ≡ true = lt→ltb _ _ (omega arith) in
      let h2 = subst (λ t. Represents b1 order (if t then l ++ (i ∷ []) else l)) space h1 in
      let (b', e, v) =
        enqueues-accepted left (i + 1) room (l ++ (i ∷ [])) b1
          (omega (arith, length-append l (i ∷ []))) (IsUsable-Later u (omega arith) h2 later o1) in
      (
        b',
        rw (e1, space, assert_eq_refl none) e,
        subst (λ q. IsUsable order room q b') (append_assoc l (i ∷ []) (range (i + 1) left)) v,
      )

  -- A full queue hands each number back.
  pub enqueues-refused :
      (left i room : ℕ) (l : List ℕ) (b : BoundedQueue ℕ)
      → length l ≡ 2 ^ order
      → IsUsable order (left + room) l b
      → (b' : BoundedQueue ℕ) × (enqueues cs (λ k. some k) left i b ≡ done b')
        × IsUsable order room l b'
  unfolding enqueues
  enqueues-refused zero i room l b full u = (b, refl, IsUsable-weaken (omega arith) u)
  enqueues-refused (suc left) i room l b full u =
      let (b1, e1, h1, later, o1) =
        enqueue_lem (cs i) u.represents (IsUsable-IsYoungQueue u) (fair i) i u.is_open in
      let space : ltb (length l) (2 ^ order) ≡ false = le→ltb _ _ (omega arith) in
      let h2 = subst (λ t. Represents b1 order (if t then l ++ (i ∷ []) else l)) space h1 in
      let (b', e, v) =
        enqueues-refused left (i + 1) room l b1 full (IsUsable-Later u (omega arith) h2 later o1) in
      (b', rw (e1, space, assert_eq_refl (some i)) e, v)

  -- A queue returns the numbers that it holds.
  pub dequeues-returned :
      (left i room : ℕ) (b : BoundedQueue ℕ)
      → IsUsable order (left + room) (range i left) b
      → (b' : BoundedQueue ℕ) × (dequeues cs (λ k. some k) left i b ≡ done b')
        × IsUsable order room [] b'
  unfolding dequeues
  dequeues-returned zero i room b u = (b, refl, IsUsable-weaken (omega arith) u)
  dequeues-returned (suc left) i room b u =
      let (b1, e1, h1, later, o1, t) =
        dequeue_lem (cs i) u.represents (IsUsable-IsYoungQueue u) (fair i) in
      let (b', e, v) =
        dequeues-returned left (i + 1) room b1
          (IsUsable-Later u (omega arith) h1 later (o1 ∙ u.is_open)) in
      (b', rw (e1, assert_eq_refl (some i)) e, v)

  -- An empty queue returns nothing.
  pub dequeues-nothing :
      (left i room : ℕ) (b : BoundedQueue ℕ)
      → IsUsable order (left + room) [] b
      → (b' : BoundedQueue ℕ) × (dequeues cs (λ k. none) left i b ≡ done b')
        × IsUsable order room [] b'
  unfolding dequeues
  dequeues-nothing zero i room b u = (b, refl, IsUsable-weaken (omega arith) u)
  dequeues-nothing (suc left) i room b u =
      let (b1, e1, h1, later, o1, t) =
        dequeue_lem (cs i) u.represents (IsUsable-IsYoungQueue u) (fair i) in
      let (b', e, v) =
        dequeues-nothing left (i + 1) room b1
          (IsUsable-Later u (omega arith) h1 later (o1 ∙ u.is_open)) in
      (b', rw (e1, assert_eq_refl none) e, v)
