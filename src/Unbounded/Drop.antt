-- ===== src/Unbounded/Drop.antt =====
-- What dropping an unbounded queue drops.
use mathlib.Core.List.{append_assoc, append-nil}
use lfqueue.Base.{ℕ, zero, suc, ◌+◌, ◌*◌, ◌≤◌, ◌<◌, ◌≡◌, refl, arith, ap, sym, subst, ◌∙◌}
use lfqueue.Base.{
  Option, none, some, List, [], ◌∷◌, ◌++◌, length, set, length-append, get_elem?-set_ne, done,
}
use lfqueue.Ring.{Cpu}
use lfqueue.Ring.Holds.{IsFair}
use lfqueue.Bounded.Drop.{drop_lem}
use lfqueue.Unbounded.{LscqNode, UnboundedQueueInternal, deref, drop_loop}
use lfqueue.Unbounded
use lfqueue.Unbounded.Pointers.{AtomicPtr}
use lfqueue.Unbounded.Enqueue.{deref_lem}
use lfqueue.Unbounded.Chain.{
  Heap, Contains, NodeAt, Last, Last-frame, Front, Front-frame, concat, contents, AreFilled,
  IsFilled,
}

module _ {ℓ} {A : Type ℓ} where
  filled_few : (qs : List (List A)) → AreFilled qs → length qs ≤ length (concat qs)
  filled_few [] f = omega arith
  filled_few (q ∷ qs) f = omega (arith, f.0, filled_few qs f.1, length-append q (concat qs))

  front_few :
      (front : List (List A)) (last : List A)
      → IsFilled front last
      → length front ≤ length (contents front last)
  front_few [] last f = omega arith
  front_few (q ∷ front) last f = omega (
    arith,
    f.1,
    filled_few front f.0,
    length-append q (concat front),
    length-append (q ++ concat front) last,
  )

module _ {ℓ} {A : Type ℓ} {P : Type 0} (ops : AtomicPtr P) (c : Cpu) (fair : IsFair c) where
  -- A node whose values are dropped before the rest.
  drop_node :
      (h : Heap A P) (order room a fuel : ℕ) (q rest : List A) (next : Option ℕ)
      → NodeAt ops h order room a q next
      → length q < fuel
      → length q ≤ room
      → drop_loop ops fuel c next (set h a none) ≡ done rest
      → drop_loop ops (suc fuel) c (some a) h ≡ done (q ++ rest)
  unfolding drop_loop
  drop_node h order room a fuel q rest next n enough space tail =
      let (b, e) =
        drop_lem c fair fuel n.segment.represents enough (omega (arith, n.segment.alloc_young)) in
      rw (deref_lem h a n.node n.here, e, n.links, tail) refl

  drop_chain :
      (fuel : ℕ) (h : Heap A P) (order room a : ℕ) (front : List (List A)) (last : List A)
      → Front ops h order room a front
      → Last ops h order room (a + length front) last
      → length front + length (contents front last) + 1 < fuel
      → length (contents front last) ≤ room
      → drop_loop ops fuel c (some a) h ≡ done (contents front last)
  unfolding drop_loop
  drop_chain zero h order room a front last f l enough space = absurd (omega arith)
  drop_chain (suc zero) h order room a [] last f l enough space = absurd (omega arith)
  drop_chain (suc (suc fuel)) h order room a [] last f l enough space =
      let at =
        subst (λ b. NodeAt ops h order room b last none) (let e : a + 0 ≡ a = omega arith in e)
          l.at in
      drop_node h order room a (suc fuel) last [] none at (omega arith) space refl
      ∙ ap done (append-nil last)
  drop_chain (suc fuel) h order room a (q ∷ front) last f l enough space =
      let size : length (contents (q ∷ front) last) ≡ length q + length (contents front last) =
        rw (append_assoc q (concat front) last) (length-append q (contents front last)) in
      let next : a + suc (length front) ≡ suc a + length front = omega arith in
      drop_node h order room a fuel q (contents front last) (some (suc a)) f.0 (omega (arith, size))
        (omega (arith, size))
        (drop_chain fuel (set h a none) order room (suc a) front last
          (Front-frame ops h _ order room room (suc a) front (omega arith)
            (λ i lo hi. get_elem?-set_ne h a i none (λ e. omega arith)) f.1)
          (Last-frame ops (omega arith) (get_elem?-set_ne h a _ none (λ e. omega arith))
            (subst (λ b. Last ops h order room b last) next l))
          (omega (arith, size)) (omega (arith, size)))
      ∙ ap done (sym (append_assoc q (concat front) last))

  -- On a fair processor, with more fuel than twice the number of values and one, and while no
  -- counter comes near 2 ^ 61: `drop` ends, without a panic or an access to freed memory, and drops
  -- exactly the values that the queue holds, oldest first.
  pub drop_internal_lem :
      (q : UnboundedQueueInternal A P) {size order room : ℕ} {l : List A} (fuel : ℕ)
      (h : Contains ops q size order room l)
      → 2 * length l + 1 < fuel
      → length l ≤ room
      → Unbounded.drop ops fuel c q ≡ done l
  unfolding Unbounded.drop
  drop_internal_lem q {size} {order} {room} {l} fuel h enough space =
      let s = h.spans in
      let same = ap length h.values in
      let few = front_few h.front h.last s.is_filled in
      rw (s.head_is) (
        drop_chain fuel q.heap order room s.start h.front h.last s.nodes s.end
          (omega (arith, same, few)) (omega (arith, same))
        ∙ ap done h.values)
