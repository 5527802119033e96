-- ===== src/Ring/Popped.antt =====
-- After `dequeue` the ring holds the list without its first index.
use lfqueue.Base.{ℕ, suc, ◌+◌, ◌-◌, ◌*◌, ◌/◌, ◌^◌, ◌≤◌, ◌<◌, ◌≡◌, arith, ◌∙◌, inr}
use lfqueue.Base.{List, [], ◌∷◌, some, length, get_elem?, dec_lt, length-set, get_elem?-lt}
use lfqueue.Ring.{ScqRing}
use lfqueue.Ring.Entry.{live, cycle_word, mod_fields, double_ticket}
use lfqueue.Ring.Dequeue.{popped, passed}
use lfqueue.Ring.Holds.{
  slots, at, IsFreeAt, Holds, IsYoung, sizes, at-set_self, at-set_after, slot-next, round-next,
  times_suc,
}

module _ {r : ScqRing} {q : List ℕ} (h : Holds r q) (young : IsYoung r) where
  open h use {order_small, size, rest, ends}

  slots_pos : 0 < slots r
  slots_pos = omega (arith, sizes r.order order_small)

  abbrev n : ℕ
  n = slots r

  -- The slot of the head is free for the next round.
  next_round : IsFreeAt (popped r) (r.head + n)
  next_round = record {
    entry = cycle_word n r.head;
    here =
        rw (slot-next n r.head slots_pos)
          (at-set_self r.array n r.head (cycle_word n r.head) slots_pos size);
    word = omega (arith, ends, sizes r.order order_small, double_ticket r.head n);
    free = (
      mod_fields (r.head / n) (2 * n) (2 * n - 1) (omega (arith, slots_pos)),
      inr (
          rw (round-next n r.head slots_pos)
            (omega (arith, slots_pos, times_suc (r.head / n) (2 * n)))),
    );
  }

  -- The other slots of the round are as before.
  old_round : (t : ℕ) → r.head < t → r.head + length q ≤ t → t < r.head + n → IsFreeAt (popped r) t
  old_round t after lo hi =
      let f = rest t lo hi in
      record {
        entry = f.entry;
        here =
            at-set_after r.array n r.head (cycle_word n r.head) slots_pos size t after hi ∙ f.here;
        word = f.word;
        free = f.free;
      }

  pub popped_rest :
      (t : ℕ) → r.head < t → r.head + length q ≤ t → t < r.head + 1 + n → IsFreeAt (popped r) t
  popped_rest t after lo hi = elim (dec_lt t (r.head + n)) [
    | yes old ↦ old_round t after lo old
    | no new ↦ let last : t ≡ r.head + n = omega arith in rw last next_round
  ]

module _ {r : ScqRing} where
  pub popped-Holds : {i : ℕ} {q : List ℕ} → Holds r (i ∷ q) → IsYoung r → Holds (popped r) q
  popped-Holds {i} {q} h young = record {
    order_small = h.order_small;
    size = length-set r.array _ _ ∙ h.size;
    room = omega (arith, h.room);
    ends = omega (arith, h.ends);
    hole = omega (arith, h.hole);
    tight = λ e. omega (arith, h.tight e);
    held = later;
    rest = λ t lo hi. popped_rest h young t (omega arith) (omega arith) hi;
    armed = λ p. h.armed (omega arith);
    threshold_word = h.threshold_word;
  }
    where
      later :
          (j x : ℕ)
          → get_elem? q j ≡ some x
          → (x < 2 ^ r.order)
            × (at (popped r) (r.head + 1 + j) ≡ some (live (slots r) (r.head + 1 + j) x))
      later j x e =
          let old = h.held (suc j) x e in
          let same : r.head + suc j ≡ r.head + 1 + j = omega arith in
          let near : r.head + 1 + j < r.head + slots r =
            omega (arith, h.room, sizes r.order h.order_small, get_elem?-lt q j x e) in
          (
            old.0,
            at-set_after r.array (slots r) r.head (cycle_word (slots r) r.head)
                  (omega (arith, sizes r.order h.order_small)) h.size (r.head + 1 + j) (omega arith)
                  near
                ∙ (rw same at (old.1)),
          )

  pub passed-Holds : Holds r [] → IsYoung r → Holds (passed r) []
  passed-Holds h young = record {
    order_small = h.order_small;
    size = length-set r.array _ _ ∙ h.size;
    room = omega arith;
    ends = omega arith;
    hole = omega arith;
    tight = λ e. omega arith;
    held = λ j x e. absurd (omega (arith, get_elem?-lt [] j x e));
    rest = λ t lo hi.
        let f = popped_rest h young t (omega arith) (omega arith) hi in
        record { entry = f.entry; here = f.here; word = f.word; free = f.free };
    armed = λ p. absurd (omega arith);
    threshold_word = omega arith;
  }
