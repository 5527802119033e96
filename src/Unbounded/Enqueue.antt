-- ===== src/Unbounded/Enqueue.antt =====
-- `enqueue` on an unbounded queue: the last segment takes the item, or a new one is linked behind
-- it.
use mathlib.Core.List.{append_assoc}
use lfqueue.Base.{ℕ, suc, ◌+◌, ◌^◌, ◌<◌, ◌≡◌, refl, arith, ap, sym, ◌∙◌, inl, inr}
use lfqueue.Base.{
  true, none, some, List, [], ◌∷◌, ◌++◌, length, get_elem?, set, done, length-append, length-set,
}
use lfqueue.Base.{get_elem?-set_self, get_elem?-set_ne, get_elem?-append, get_elem?-append_last}
use lfqueue.Ring.{Cpu}
use lfqueue.Ring.Holds.{IsFair, IsTight}
use lfqueue.Bounded
use lfqueue.Bounded.{BoundedQueue, accepted, returned, QueueError, enqueue_cycle}
use lfqueue.Unbounded.{LscqNode, UnboundedQueueInternal, deref, put, enqueue_loop, new_node}
use lfqueue.Unbounded.Pointers.{AtomicPtr}
use lfqueue.Unbounded.Segment.{Segment, enter, Segment-new}
use lfqueue.Unbounded.Chain.{
  Heap, IsSize, Spans, Contains, Front-frame, Front-snoc, concat, concat-snoc, contents, IsFilled,
  AreFilled-snoc,
}

pub deref_lem {ℓ} :
    {A : Type ℓ} {P : Type 0} (h : Heap A P) (a : ℕ) (node : LscqNode A P)
    → get_elem? h a ≡ some (some node)
    → deref h a ≡ done node
unfolding deref
deref_lem h a node here = rw (here, deref)

-- A heap to which `w` has been added, with a write at `p` before and after.
module _ {ℓ} {B : Type ℓ} (h : List B) (p : ℕ) (u v w : B) (inside : p < length h) where
  abbrev linked_heap : List B
  linked_heap = set (set h p u ++ (w ∷ [])) p v

  length-linked_heap : length linked_heap ≡ suc (length h)
  length-linked_heap =
      length-set (set h p u ++ (w ∷ [])) p v
      ∙ omega (arith, length-append (set h p u) (w ∷ []), length-set h p u)

  linked_heap_self : get_elem? linked_heap p ≡ some v
  linked_heap_self =
      get_elem?-set_self _ p v (omega (arith, length-append (set h p u) (w ∷ []), length-set h p u))

  linked_heap_new : get_elem? linked_heap (length h) ≡ some w
  linked_heap_new =
      get_elem?-set_ne (set h p u ++ (w ∷ [])) p (length h) v (λ e. omega arith)
      ∙ rw (← length-set h p u) (get_elem?-append_last (set h p u) w)

  linked_heap_other : (i : ℕ) → i < p → get_elem? linked_heap i ≡ get_elem? h i
  linked_heap_other i lt =
      get_elem?-set_ne (set h p u ++ (w ∷ [])) p i v (λ e. omega arith)
      ∙ get_elem?-append (set h p u) (w ∷ []) i (omega (arith, length-set h p u))
      ∙ get_elem?-set_ne h p i u (λ e. omega arith)

module _ {ℓ} {A : Type ℓ} {P : Type 0} (ops : AtomicPtr P) where
  -- The queue after the segment `n` has been linked behind the last, which is `b` now.
  abbrev extended :
      UnboundedQueueInternal A P
      → ℕ
      → LscqNode A P
      → BoundedQueue A
      → BoundedQueue A
      → UnboundedQueueInternal A P
  extended q p node b n =
      let h1 : Heap A P = set q.heap p (some (record node { value = b })) in
      record q {
        tail = (ops.compare_exchange q.tail (some p) (some (length h1))).1;
        heap = set (h1 ++ (some (record { value = n; next = ops.make none }) ∷ [])) p (
            some (record {
              value = b;
              next = (ops.compare_exchange node.next none (some (length h1))).1;
            }));
      }

  module _ (q : UnboundedQueueInternal A P) (c : Cpu) (x : A) (fuel p : ℕ) (node : LscqNode A P)
      (tail_is : ops.load q.tail ≡ some p) (here : get_elem? q.heap p ≡ some (some node))
      (links : ops.load node.next ≡ none) where
    accepts :
        (b : BoundedQueue A)
        → enqueue_cycle true c node.value x ≡ done (accepted, b)
        → enqueue_loop ops (suc fuel) c q x ≡ done (put ops q p (record node { value = b }))
    unfolding enqueue_loop
    accepts b e = rw (tail_is, deref_lem q.heap p node here, links, e)

    extends :
        (b n0 n : BoundedQueue A) (e : QueueError)
        → enqueue_cycle true c node.value x ≡ done (returned x e, b)
        → Bounded.new A 1 q.internal_order ≡ done n0
        → Bounded.enqueue c n0 x ≡ done (none, n)
        → enqueue_loop ops (suc fuel) c q x ≡ done (extended q p node b n)
    unfolding enqueue_loop new_node
    extends b n0 n e turned made entered =
        let h1 : Heap A P = set q.heap p (some (record node { value = b })) in
        rw
          (
            tail_is,
            deref_lem q.heap p node here,
            links,
            turned,
            made,
            entered,
            (ops.exchange_same node.next none (some (length h1)) links).0,
          )
          refl

  IsFilled-last :
      (front : List (List A)) (last last' : List A)
      → IsFilled front last
      → 0 < length last'
      → IsFilled front last'
  IsFilled-last [] last last' f g = tt
  IsFilled-last (q ∷ front) last last' f g = (f.0, g)

  IsFilled-snoc :
      (front : List (List A)) (last : List A) (x : A)
      → IsFilled front last
      → IsFilled (front ++ (last ∷ [])) (x ∷ [])
  IsFilled-snoc [] last x f = (tt, omega arith)
  IsFilled-snoc (q ∷ front) last x f = (AreFilled-snoc front last f.0 f.1, omega arith)

  module _ {q : UnboundedQueueInternal A P} {size order room : ℕ} {front : List (List A)}
      {last : List A} (c : Cpu) (fair : IsFair c) (s : Spans ops q size order (suc room) front last)
      (x : A) where
    in_heap : (s.start + length front) < length q.heap
    in_heap = omega (arith, s.heap_end)

    -- The last segment has taken the item.
    in_last :
        (b : BoundedQueue A)
        → Segment order room b (last ++ (x ∷ []))
        → IsTight b.alloc_queue (length (last ++ (x ∷ [])))
        → Spans ops
            (put ops q (s.start + length front) (record s.end.at.node { value = b }))
            size
            order
            room
            front
            (last ++ (x ∷ []))
    in_last b seg tight = record {
      start = s.start;
      head_is = s.head_is;
      tail_is = s.tail_is;
      size_is = s.size_is;
      heap_end = length-set q.heap (s.start + length front) _ ∙ s.heap_end;
      nodes =
          Front-frame ops q.heap _ order room (suc room) s.start front (omega arith)
            (λ i lo hi. get_elem?-set_ne q.heap (s.start + length front) i _ (λ e. omega arith))
            s.nodes;
      end = record {
        at = record {
          node = record s.end.at.node { value = b };
          here = get_elem?-set_self q.heap (s.start + length front) _ in_heap;
          links = s.end.at.links;
          segment = seg;
        };
        tight = tight;
      };
      is_filled =
          IsFilled-last front last (last ++ (x ∷ [])) s.is_filled
            (omega (arith, length-append last (x ∷ [])));
    }

    -- The last segment is full or closed, and a new one with the item is linked behind it.
    in_new :
        (b n : BoundedQueue A)
        → Segment order room b last
        → Segment order room n (x ∷ [])
        → IsTight n.alloc_queue 1
        → Spans ops
            (extended q (s.start + length front) s.end.at.node b n)
            size
            order
            room
            (front ++ (last ∷ []))
            (x ∷ [])
    in_new b n seg new tight = record {
      start = s.start;
      head_is = s.head_is;
      tail_is =
          (ops.exchange_same q.tail (some (s.start + length front)) _ s.tail_is).1
          ∙ ap some (
              let e =
                length-set q.heap (s.start + length front)
                  (some (record s.end.at.node { value = b })) in
              omega (arith, e, length-append front (last ∷ []), s.heap_end));
      size_is = s.size_is;
      heap_end =
          length-linked_heap q.heap (s.start + length front) _ _ _ in_heap
          ∙ omega (arith, length-append front (last ∷ []), s.heap_end);
      nodes =
          Front-snoc ops _ order room s.start front last
            (Front-frame ops q.heap _ order room (suc room) s.start front (omega arith)
              (λ i lo hi. linked_heap_other q.heap (s.start + length front) _ _ _ in_heap i hi)
              s.nodes)
            (record {
              node = _;
              here = linked_heap_self q.heap (s.start + length front) _ _ _ in_heap;
              links =
                  (ops.exchange_same s.end.at.node.next none _ s.end.at.links).1
                  ∙ ap some (
                      let e =
                        length-set q.heap (s.start + length front)
                          (some (record s.end.at.node { value = b })) in
                      omega (arith, e, s.heap_end));
              segment = seg;
            });
      end = record {
        at = record {
          node = record { value = n; next = ops.make none };
          here =
              ap (get_elem? (extended q (s.start + length front) s.end.at.node b n).heap) (
                let e : s.start + length (front ++ (last ∷ [])) ≡ length q.heap =
                  omega (arith, length-append front (last ∷ []), s.heap_end) in
                e)
              ∙ linked_heap_new q.heap (s.start + length front) _ _ _ in_heap;
          links = ops.load-make none;
          segment = new;
        };
        tight = tight;
      };
      is_filled = IsFilled-snoc front last x s.is_filled;
    }

    -- On a fair processor, while the segments have room for one more call, and with fuel for one
    -- round: `enqueue` ends, and appends the item to the values of the queue.
    pub enqueue_loop_lem :
        (fuel : ℕ)
        → IsSize size order
        → room < 2 ^ 60
        → (q' : UnboundedQueueInternal A P) × (enqueue_loop ops (suc fuel) c q x ≡ done q')
          × Contains ops q' size order room (contents front last ++ (x ∷ []))
    enqueue_loop_lem fuel z few = elim (enter c fair s.end.at.segment x s.end.tight) [
      | inl (b, e, seg, tight) ↦ (
        put ops q (s.start + length front) (record s.end.at.node { value = b }),
        accepts q c x fuel (s.start + length front) s.end.at.node s.tail_is s.end.at.here
            s.end.at.links b e,
        record {
          front = front;
          last = last ++ (x ∷ []);
          spans = in_last b seg tight;
          values = sym (append_assoc (concat front) last (x ∷ []));
        },
      )
      | inr (b, err, e, seg) ↦
          let (n0, n, made, entered, new, tight) =
            Segment-new size order room c x fair z.small z.fits z.is_accepted z.log few in
          (
            extended q (s.start + length front) s.end.at.node b n,
            extends q c x fuel (s.start + length front) s.end.at.node s.tail_is s.end.at.here
                s.end.at.links b n0 n err e (rw (s.size_is) made) entered,
            record {
              front = front ++ (last ∷ []);
              last = x ∷ [];
              spans = in_new b n seg new tight;
              values = ap (λ (l : List A). l ++ (x ∷ [])) (concat-snoc front last);
            },
          )
    ]
