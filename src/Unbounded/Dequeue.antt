-- ===== src/Unbounded/Dequeue.antt =====
-- `dequeue` on an unbounded queue: the first segment gives its oldest value, and when it is empty
-- and another follows, it is left behind.
use lfqueue.Base.{ℕ, suc, ◌+◌, ◌<◌, ◌≡◌, refl, arith, ap, sym, subst, ◌∙◌}
use lfqueue.Base.{Option, none, some, List, [], ◌∷◌, length, get_elem?, set, done, length-set}
use lfqueue.Base.{get_elem?-set_self, get_elem?-set_ne}
use lfqueue.Ring.{Cpu}
use lfqueue.Ring.Holds.{IsFair}
use lfqueue.Bounded
use lfqueue.Bounded.{BoundedQueue}
use lfqueue.Bounded.Fifo.{head_of, tail_of}
use lfqueue.Unbounded.{LscqNode, UnboundedQueueInternal, put, dequeue_loop, rearm}
use lfqueue.Unbounded.Pointers.{AtomicPtr}
use lfqueue.Unbounded.Segment.{leave, rearm-Segment}
use lfqueue.Unbounded.Enqueue.{deref_lem}
use lfqueue.Unbounded.Chain.{
  Spans, Spans-weaken, Contains, NodeAt, Last, Last-frame, Front, Front-frame, contents, IsFilled,
  AreFilled,
}

module _ {ℓ} {A : Type ℓ} {P : Type 0} (ops : AtomicPtr P) where
  module _ (q : UnboundedQueueInternal A P) (c : Cpu) (fuel p : ℕ) (node : LscqNode A P)
      (head_is : ops.load q.head ≡ some p) (here : get_elem? q.heap p ≡ some (some node)) where
    takes :
        (x : A) (b : BoundedQueue A)
        → Bounded.dequeue c node.value ≡ done (some x, b)
        → dequeue_loop ops (suc fuel) c q ≡ done (some x, put ops q p (record node { value = b }))
    unfolding dequeue_loop
    takes x b e = rw (head_is, deref_lem q.heap p node here, e)

    finds_nothing :
        (b : BoundedQueue A)
        → Bounded.dequeue c node.value ≡ done (none, b)
        → ops.load node.next ≡ none
        → dequeue_loop ops (suc fuel) c q ≡ done (none, put ops q p (record node { value = b }))
    unfolding dequeue_loop
    finds_nothing b e links = rw (head_is, deref_lem q.heap p node here, e, links)

    -- The queue without its first segment, which is `b` and then `b2` before it is freed.
    abbrev advanced : BoundedQueue A → BoundedQueue A → UnboundedQueueInternal A P
    advanced b b2 = record q {
      head = (ops.compare_exchange q.head (some p) (some (suc p))).1;
      heap =
          set
            (set (set q.heap p (some (record node { value = b }))) p
              (some (record node { value = b2 })))
            p none;
    }

    advances :
        (b b2 : BoundedQueue A) (next : LscqNode A P)
        → Bounded.dequeue c node.value ≡ done (none, b)
        → ops.load node.next ≡ some (suc p)
        → get_elem? q.heap (suc p) ≡ some (some next)
        → Bounded.dequeue c (rearm b) ≡ done (none, b2)
        → dequeue_loop ops (suc fuel) c q ≡ dequeue_loop ops fuel c (advanced b b2)
    unfolding dequeue_loop
    advances b b2 next e links there again =
        let still : get_elem? (set q.heap p (some (record node { value = b }))) (suc p)
            ≡ some (some next) =
          get_elem?-set_ne q.heap p (suc p) _ (λ e. omega arith) ∙ there in
        rw
          (
            head_is,
            deref_lem q.heap p node here,
            e,
            links,
            deref_lem (set q.heap p (some (record node { value = b }))) (suc p) next still,
            again,
            (ops.exchange_same q.head (some p) (some (suc p)) head_is).0,
          )
          refl

  module _ {q : UnboundedQueueInternal A P} {size order room : ℕ} (c : Cpu) (fair : IsFair c) where
    -- The first segment of several gives a value.
    take_front :
        (fuel : ℕ) (x : A) (p : List A) (front : List (List A)) (last : List A)
        → Spans ops q size order (suc room) ((x ∷ p) ∷ front) last
        → (q' : UnboundedQueueInternal A P) × (dequeue_loop ops (suc fuel) c q ≡ done (some x, q'))
          × Spans ops q' size order room (p ∷ front) last
    take_front fuel x p front last s =
        let n = s.nodes.0 in
        let (b, e, seg, tight) = leave c fair n.segment in
        (
          put ops q s.start (record n.node { value = b }),
          takes q c fuel s.start n.node s.head_is n.here x b e,
          record {
            start = s.start;
            head_is = s.head_is;
            tail_is = s.tail_is;
            size_is = s.size_is;
            heap_end = length-set q.heap s.start _ ∙ s.heap_end;
            nodes = (
              record {
                node = record n.node { value = b };
                here = get_elem?-set_self q.heap s.start _ (omega (arith, s.heap_end));
                links = n.links;
                segment = seg;
              },
              Front-frame ops q.heap _ order room (suc room) (suc s.start) front (omega arith)
                  (λ i lo hi. get_elem?-set_ne q.heap s.start i _ (λ e. omega arith)) s.nodes.1,
            );
            end =
                Last-frame ops (omega arith)
                  (get_elem?-set_ne q.heap s.start _ _ (λ e. omega arith)) s.end;
            is_filled = s.is_filled;
          },
        )

    -- The only segment gives its oldest value, if it has one.
    take_last :
        (fuel : ℕ) (last : List A)
        → Spans ops q size order (suc room) [] last
        → (q' : UnboundedQueueInternal A P) × (dequeue_loop ops (suc fuel) c q
            ≡ done (head_of last, q'))
          × Spans ops q' size order room [] (tail_of last)
    take_last fuel last s =
        let n = s.end.at in
        let (b, e, seg, tight) = leave c fair n.segment in
        let only : s.start + 0 ≡ s.start = omega arith in
        let here : get_elem? q.heap s.start ≡ some (some n.node) =
          ap (get_elem? q.heap) (sym only) ∙ n.here in
        (
          put ops q s.start (record n.node { value = b }),
          by_last fuel last s.start n.node b s.head_is here n.links e,
          record {
            start = s.start;
            head_is = s.head_is;
            tail_is = s.tail_is;
            size_is = s.size_is;
            heap_end = length-set q.heap s.start _ ∙ s.heap_end;
            nodes = tt;
            end = record {
              at = record {
                node = record n.node { value = b };
                here =
                    ap (get_elem? (set q.heap s.start _)) only
                    ∙ get_elem?-set_self q.heap s.start _ (omega (arith, s.heap_end));
                links = n.links;
                segment = seg;
              };
              tight = tight s.end.tight;
            };
            is_filled = tt;
          },
        )
      where
        by_last :
            (fuel : ℕ) (last : List A) (p : ℕ) (node : LscqNode A P) (b : BoundedQueue A)
            → ops.load q.head ≡ some p
            → get_elem? q.heap p ≡ some (some node)
            → ops.load node.next ≡ none
            → Bounded.dequeue c node.value ≡ done (head_of last, b)
            → dequeue_loop ops (suc fuel) c q
              ≡ done (head_of last, put ops q p (record node { value = b }))
        by_last fuel [] p node b head_is here links e =
            finds_nothing q c fuel p node head_is here b e links
        by_last fuel (x ∷ last) p node b head_is here links e =
            takes q c fuel p node head_is here x b e

    -- An empty segment is left behind.
    leave_behind :
        (fuel : ℕ) (front : List (List A)) (last : List A)
        → Spans ops q size order (suc (suc room)) ([] ∷ front) last
        → (q' : UnboundedQueueInternal A P) × (dequeue_loop ops (suc fuel) c q
            ≡ dequeue_loop ops fuel c q')
          × Spans ops q' size order room front last
    leave_behind fuel front last s =
        let n = s.nodes.0 in
        let (b, e, seg, tight) = leave c fair n.segment in
        let (b2, e2, seg2, tight2) = leave c fair (rearm-Segment seg) in
        let (next, there) = second s.start (suc (suc room)) front s.nodes.1 s.end.at in
        (
          advanced q c 0 s.start n.node s.head_is n.here b b2,
          advances q c fuel s.start n.node s.head_is n.here b b2 next e n.links there e2,
          record {
            start = suc s.start;
            head_is = (ops.exchange_same q.head _ _ s.head_is).1;
            tail_is =
                s.tail_is
                ∙ ap some (
                    let e : s.start + suc (length front) ≡ suc s.start + length front =
                      omega arith in
                    e);
            size_is = s.size_is;
            heap_end = thrice_length s.start _ _ _ ∙ omega (arith, s.heap_end);
            nodes =
                Front-frame ops q.heap _ order room (suc (suc room)) (suc s.start) front
                  (omega arith) (λ i lo hi. thrice_other s.start _ _ _ i (omega arith)) s.nodes.1;
            end = Last-frame ops (omega arith) (thrice_other s.start _ _ _ _ (omega arith)) (
                subst (λ a. Last ops q.heap order (suc (suc room)) a last)
                  (let e : s.start + suc (length front) ≡ suc s.start + length front =
                      omega arith in
                    e)
                  s.end);
            is_filled = filled_rest front s.is_filled;
          },
        )
      where
        second :
            (a more : ℕ) (front : List (List A))
            → Front ops q.heap order more (suc a) front
            → NodeAt ops q.heap order more (a + suc (length front)) last none
            → (node : LscqNode A P) × (get_elem? q.heap (suc a) ≡ some (some node))
        second a more [] f n =
            (n.node, ap (get_elem? q.heap) (let e : suc a ≡ a + 1 = omega arith in e) ∙ n.here)
        second a more (p ∷ front) f n = (f.0.node, f.0.here)

        thrice_length :
            (p : ℕ) (u v w : Option (LscqNode A P))
            → length (set (set (set q.heap p u) p v) p w) ≡ length q.heap
        thrice_length p u v w = length-set _ p w ∙ length-set _ p v ∙ length-set _ p u

        thrice_other :
            (p : ℕ) (u v w : Option (LscqNode A P)) (i : ℕ)
            → p < i
            → get_elem? (set (set (set q.heap p u) p v) p w) i ≡ get_elem? q.heap i
        thrice_other p u v w i lt =
            get_elem?-set_ne _ p i w (λ e. omega arith)
            ∙ get_elem?-set_ne _ p i v (λ e. omega arith)
            ∙ get_elem?-set_ne _ p i u (λ e. omega arith)

        filled_rest :
            (front : List (List A)) → AreFilled front × (0 < length last) → IsFilled front last
        filled_rest [] f = tt
        filled_rest (p ∷ front) f = (f.0.1, f.1)

  -- What `dequeue` returns and leaves.
  abbrev pub Taken : UnboundedQueueInternal A P → (size order room : ℕ) → Cpu → ℕ → List A → Type ℓ
  Taken q size order room c fuel l =
      (q' : UnboundedQueueInternal A P) × (dequeue_loop ops fuel c q ≡ done (head_of l, q'))
      × Contains ops q' size order room (tail_of l)

  module _ {q : UnboundedQueueInternal A P} {size order room : ℕ} (c : Cpu) (fair : IsFair c) where
    -- The first segment is not empty, or it is the only one.
    take_first :
        (fuel : ℕ) (front : List (List A)) (last : List A)
        → AreFilled front
        → Spans ops q size order (suc room) front last
        → Taken q size order room c (suc fuel) (contents front last)
    take_first fuel [] last f s =
        let (q', e, s') = take_last c fair fuel last s in
        (q', e, record { front = []; last = tail_of last; spans = s'; values = refl })
    take_first fuel ([] ∷ front) last f s = absurd (omega (arith, f.0))
    take_first fuel ((x ∷ p) ∷ front) last f s =
        let (q', e, s') = take_front c fair fuel x p front last s in
        (q', e, record { front = p ∷ front; last = last; spans = s'; values = refl })

  -- On a fair processor, while the segments have room for three more calls, and with fuel for two
  -- rounds: `dequeue` ends, and returns the oldest value of the queue, which then holds the others,
  -- or nothing if there is none.
  pub dequeue_loop_lem :
      {q : UnboundedQueueInternal A P} {size order room : ℕ} (c : Cpu) (fair : IsFair c) (fuel : ℕ)
      (front : List (List A)) (last : List A)
      → Spans ops q size order (suc (suc (suc room))) front last
      → Taken q size order room c (suc (suc fuel)) (contents front last)
  dequeue_loop_lem c fair fuel [] last s =
      take_first c fair (suc fuel) [] last tt (Spans-weaken ops (omega arith) s)
  dequeue_loop_lem c fair fuel ((x ∷ p) ∷ front) last s =
      take_first c fair (suc fuel) ((x ∷ p) ∷ front) last (omega arith, s.is_filled.0)
        (Spans-weaken ops (omega arith) s)
  dequeue_loop_lem c fair fuel ([] ∷ front) last s =
      let (q1, e1, s1) = leave_behind c fair (suc fuel) front last s in
      let (q2, e2, h2) = take_first c fair fuel front last s.is_filled.0 s1 in (q2, e1 ∙ e2, h2)
