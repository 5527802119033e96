-- ===== src/Ring/Pushed.antt =====
-- After `enqueue` the ring holds the list with the index at its end; a refusal leaves the list
-- alone.
use lfqueue.Base.{ℕ, ◌+◌, ◌^◌, ◌≤◌, ◌<◌, ◌≡◌, arith, ◌∙◌, inl, inr}
use lfqueue.Base.{true, false, List, [], ◌∷◌, ◌++◌, some, length, get_elem?}
use lfqueue.Base.{length-set, length-append, get_elem?-append_cases}
use lfqueue.Ring.{ScqRing, finalized}
use lfqueue.Ring.Entry.{live}
use lfqueue.Ring.Enqueue.{pushed, refused}
use lfqueue.Ring.Holds.{slots, at, IsFreeAt, Holds, sizes, at-set_self, at-set_before, at-set_after}

module _ {r : ScqRing} {q : List ℕ} (h : Holds r q) where
  open h use {order_small, tight, ends, rest, size, held}

  module _ (i : ℕ) (fits : i < 2 ^ r.order) (space : length q < 2 ^ r.order)
      (open_ring : finalized r ≡ false) where
    entry : ℕ
    entry = live (slots r) r.tail i

    slots_pos : 0 < slots r
    slots_pos = omega (arith, sizes r.order order_small)

    longer : length (q ++ (i ∷ [])) ≡ length q + 1
    longer = omega (arith, length-append q (i ∷ []))

    pushed-held :
        (j x : ℕ)
        → get_elem? (q ++ (i ∷ [])) j ≡ some x
        → (x < 2 ^ r.order) × (at (pushed r i) (r.head + j) ≡ some (live (slots r) (r.head + j) x))
    pushed-held j x e = elim (get_elem?-append_cases q i j x e) [
      | inl old ↦ (
        (held j x old.1).0,
        at-set_before r.array (slots r) r.tail (live (slots r) r.tail i) slots_pos size (r.head + j)
              (omega (arith, tight open_ring))
              (omega (arith, tight open_ring, sizes r.order order_small))
            ∙ (held j x old.1).1,
      )
      | inr new ↦
          let same : r.head + j ≡ r.tail = omega (arith, tight open_ring) in
          (
            rw (← new.1) fits,
            rw (same, ← new.1)
                (at-set_self r.array (slots r) r.tail (live (slots r) r.tail i) slots_pos size),
          )
    ]

    pushed-rest :
        (t : ℕ) → r.head + (length q + 1) ≤ t → t < r.head + slots r → IsFreeAt (pushed r i) t
    pushed-rest t lo hi =
        let f = rest t (omega arith) hi in
        record {
          entry = f.entry;
          here =
              at-set_after r.array (slots r) r.tail (live (slots r) r.tail i) slots_pos size t
                (omega (arith, tight open_ring)) (omega (arith, ends))
              ∙ f.here;
          word = f.word;
          free = f.free;
        }

    pub pushed-Holds : Holds (pushed r i) (q ++ (i ∷ []))
    pushed-Holds = record {
      order_small = order_small;
      size = length-set r.array _ _ ∙ size;
      room = omega (arith, longer);
      ends = omega (arith, longer, tight open_ring);
      hole = omega (arith, longer, tight open_ring);
      tight = λ e. omega (arith, longer, tight open_ring);
      held = pushed-held;
      rest = λ t lo hi. pushed-rest t (omega (arith, longer)) hi;
      armed = λ p. omega (arith, sizes r.order order_small);
      threshold_word = omega (arith, sizes r.order order_small);
    }

  pub refused-Holds : finalized r ≡ true → r.tail ≡ r.head + length q → Holds (refused r) q
  refused-Holds closed t = record {
    order_small = order_small;
    size = size;
    room = h.room;
    ends = omega arith;
    hole = omega arith;
    tight = λ e. cc;
    held = held;
    rest = λ x lo hi.
        let f = rest x lo hi in
        record { entry = f.entry; here = f.here; word = f.word; free = f.free };
    armed = h.armed;
    threshold_word = h.threshold_word;
  }
