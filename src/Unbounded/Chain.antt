-- ===== src/Unbounded/Chain.antt =====
-- The list of segments on the heap: from `head` on each node links to the one at the next address,
-- and `tail` is the last.
use mathlib.Core.List.{append_assoc, append-nil}
use lfqueue.Base.{ℕ, suc, ◌+◌, ◌^◌, ◌≤◌, ◌<◌, ◌≡◌, refl, arith, ap, sym, subst, ◌∙◌}
use lfqueue.Base.{Option, none, some, List, [], ◌∷◌, ◌++◌, length, get_elem?}
use lfqueue.Lfring.Order.{IsLog, IsAccepted}
use lfqueue.Ring.Holds.{IsTight}
use lfqueue.Unbounded.{LscqNode, UnboundedQueueInternal}
use lfqueue.Unbounded.Pointers.{AtomicPtr}
use lfqueue.Unbounded.Segment.{Segment, Segment-weaken}

-- A segment size that the assertion accepts, of an order up to 59.
pub record IsSize (size order : ℕ) : Type 0 where
  pub small : order ≤ 59
  pub fits : size < 2 ^ 62
  pub is_accepted : IsAccepted size
  pub log : IsLog size order

abbrev pub Heap {ℓ} : Type ℓ → Type 0 → Type ℓ
Heap A P = List (Option (LscqNode A P))

module _ {ℓ} {A : Type ℓ} where
  abbrev pub concat : List (List A) → List A
  concat [] = []
  concat (q ∷ qs) = q ++ concat qs

  -- The values of the segments `front` and of the `last` one.
  abbrev pub contents : List (List A) → List A → List A
  contents front last = concat front ++ last

  pub concat-snoc :
      (front : List (List A)) (last : List A) → concat (front ++ (last ∷ [])) ≡ concat front ++ last
  concat-snoc [] last = append-nil last
  concat-snoc (q ∷ qs) last =
      ap (λ (l : List A). q ++ l) (concat-snoc qs last) ∙ sym (append_assoc q (concat qs) last)

  abbrev pub AreFilled : List (List A) → Type 0
  AreFilled [] = Unit
  AreFilled (q ∷ qs) = (0 < length q) × AreFilled qs

  pub AreFilled-snoc :
      (front : List (List A)) (last : List A)
      → AreFilled front
      → 0 < length last
      → AreFilled (front ++ (last ∷ []))
  AreFilled-snoc [] last f g = (g, tt)
  AreFilled-snoc (q ∷ qs) last f g = (f.0, AreFilled-snoc qs last f.1 g)

  -- Only the first segment may be empty.
  abbrev pub IsFilled : List (List A) → List A → Type 0
  IsFilled [] last = Unit
  IsFilled (q ∷ front) last = AreFilled front × (0 < length last)

  module _ {P : Type 0} (ops : AtomicPtr P) where
    -- At the address `a` stands a segment with the values `q`, which links to `next`.
    pub record NodeAt (h : Heap A P) (order room a : ℕ) (q : List A) (next : Option ℕ)
        : Type ℓ where
      pub node : LscqNode A P
      pub here : get_elem? h a ≡ some (some node)
      pub links : ops.load node.next ≡ next
      pub segment : Segment order room node.value q

    pub record Last (h : Heap A P) (order room a : ℕ) (q : List A) : Type ℓ where
      pub at : NodeAt h order room a q none
      pub tight : IsTight at.node.value.alloc_queue (length q)

    abbrev pub Front : Heap A P → ℕ → ℕ → ℕ → List (List A) → Type ℓ
    Front h order room a [] = Unit
    Front h order room a (q ∷ qs) =
        NodeAt h order room a q (some (suc a)) × Front h order room (suc a) qs

    pub NodeAt-frame :
        {h h' : Heap A P} {order room more a : ℕ} {q : List A} {next : Option ℕ}
        → room ≤ more
        → get_elem? h' a ≡ get_elem? h a
        → NodeAt h order more a q next
        → NodeAt h' order room a q next
    NodeAt-frame le same n = record {
      node = n.node;
      here = same ∙ n.here;
      links = n.links;
      segment = Segment-weaken n.segment le;
    }

    pub Last-frame :
        {h h' : Heap A P} {order room more a : ℕ} {q : List A}
        → room ≤ more
        → get_elem? h' a ≡ get_elem? h a
        → Last h order more a q
        → Last h' order room a q
    Last-frame le same l = record {
      at = record {
        node = l.at.node;
        here = same ∙ l.at.here;
        links = l.at.links;
        segment = Segment-weaken l.at.segment le;
      };
      tight = l.tight;
    }

    -- A change of the heap at other addresses keeps the segments.
    pub Front-frame :
        (h h' : Heap A P) (order room more a : ℕ) (qs : List (List A))
        → room ≤ more
        → ((i : ℕ) → a ≤ i → i < a + length qs → get_elem? h' i ≡ get_elem? h i)
        → Front h order more a qs
        → Front h' order room a qs
    Front-frame h h' order room more a [] le same f = tt
    Front-frame h h' order room more a (q ∷ qs) le same f = (
      NodeAt-frame le (same a (omega arith) (omega arith)) f.0,
      Front-frame h h' order room more (suc a) qs le (λ i lo hi. same i (omega arith) (omega arith))
          f.1,
    )

    pub Front-snoc :
        (h : Heap A P) (order room a : ℕ) (qs : List (List A)) (q : List A)
        → Front h order room a qs
        → NodeAt h order room (a + length qs) q (some (suc (a + length qs)))
        → Front h order room a (qs ++ (q ∷ []))
    Front-snoc h order room a [] q f n = (
      subst (λ b. NodeAt h order room b q (some (suc b))) (let e : a + 0 ≡ a = omega arith in e) n,
      tt,
    )
    Front-snoc h order room a (p ∷ qs) q f n = (
      f.0,
      Front-snoc h order room (suc a) qs q f.1 (
          subst (λ b. NodeAt h order room b q (some (suc b)))
            (let e : a + suc (length qs) ≡ suc a + length qs = omega arith in e) n),
    )

    -- The queue consists of the segments `front`, and then of `last`.
    pub record Spans (q : UnboundedQueueInternal A P) (size order room : ℕ) (front : List (List A))
        (last : List A) : Type ℓ where
      pub start : ℕ
      pub head_is : ops.load q.head ≡ some start
      pub tail_is : ops.load q.tail ≡ some (start + length front)
      pub size_is : q.internal_order ≡ size
      pub heap_end : length q.heap ≡ suc (start + length front)
      pub nodes : Front q.heap order room start front
      pub end : Last q.heap order room (start + length front) last
      pub is_filled : IsFilled front last

    pub Spans-weaken :
        {q : UnboundedQueueInternal A P} {size order room more : ℕ} {front : List (List A)}
        {last : List A}
        → room ≤ more
        → Spans q size order more front last
        → Spans q size order room front last
    Spans-weaken {q} {size} {order} {room} {more} {front} le s = record {
      start = s.start;
      head_is = s.head_is;
      tail_is = s.tail_is;
      size_is = s.size_is;
      heap_end = s.heap_end;
      nodes = Front-frame q.heap q.heap order room more s.start front le (λ i lo hi. refl) s.nodes;
      end = Last-frame le refl s.end;
      is_filled = s.is_filled;
    }

    -- The queue holds the values `l`, oldest first, in segments of `2 ^ order`, and `room` more
    -- calls leave every counter below 2 ^ 61.
    pub record Contains (q : UnboundedQueueInternal A P) (size order room : ℕ) (l : List A)
        : Type ℓ where
      pub front : List (List A)
      pub last : List A
      pub spans : Spans q size order room front last
      pub values : contents front last ≡ l

    pub Contains-weaken :
        {q : UnboundedQueueInternal A P} {size order room more : ℕ} {l : List A}
        → room ≤ more
        → Contains q size order more l
        → Contains q size order room l
    Contains-weaken le h = record {
      front = h.front;
      last = h.last;
      spans = Spans-weaken le h.spans;
      values = h.values;
    }
