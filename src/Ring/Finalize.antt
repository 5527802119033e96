-- ===== src/Ring/Finalize.antt =====
-- `finalize` keeps what a ring holds, and closes the rings that can be finalized.
use lfqueue.Base.{ℕ, ◌≡◌, arith, true, false, List, Bool-cases, inl, inr, sym}
use lfqueue.Ring.{ScqRing, finalizable, finalized, finalize}
use lfqueue.Ring.Holds.{Holds}

pub finalize-Holds : {r : ScqRing} {q : List ℕ} → Holds r q → Holds (finalize r) q
unfolding finalize
finalize-Holds {r} {q} h = elim (Bool-cases (finalizable r)) [
  | inl can ↦ rw can (record {
    order_small = h.order_small;
    size = h.size;
    room = h.room;
    ends = h.ends;
    hole = h.hole;
    tight = λ e. cc;
    held = h.held;
    rest = λ t lo hi.
        let f = h.rest t lo hi in
        record { entry = f.entry; here = f.here; word = f.word; free = f.free };
    armed = h.armed;
    threshold_word = h.threshold_word;
  })
  | inr cannot ↦ rw cannot h
]

pub order-finalize : (r : ScqRing) → (finalize r).order ≡ r.order
unfolding finalize
order-finalize r = ground arith

pub head-finalize : (r : ScqRing) → (finalize r).head ≡ r.head
unfolding finalize
head-finalize r = ground arith

pub tail-finalize : (r : ScqRing) → (finalize r).tail ≡ r.tail
unfolding finalize
tail-finalize r = ground arith

pub finalized-finalize : (r : ScqRing) → finalizable r ≡ true → finalized (finalize r) ≡ true
unfolding finalize
finalized-finalize r can = rw can

pub finalized-flag : (r : ScqRing) → finalized r ≡ false → finalized (finalize r) ≡ finalizable r
unfolding finalize
finalized-flag r e = elim (Bool-cases (finalizable r)) [
  | inl can ↦ rw (finalized-finalize r can) (sym can)
  | inr cannot ↦ rw (cannot, cannot)
]
