-- ===== src/Unbounded/Tests.antt =====
-- Runs of the unbounded queue, over pointers that are plain options.
use lfqueue.Base.{ℕ, zero, suc, ◌+◌, ◌≡◌, ◌≢◌, ap, refl, Bool, true, false, Option, none, some}
use lfqueue.Base.{List, [], ◌∷◌, Exec, done, ◌>>=◌, if◌then◌else◌, ◌==◌, eq→==, ne→==}
use lfqueue.Base.{◌-◌, ◌↔◌, length, arith, inl}
use lfqueue.Ring.Tests.{flaky, flaky-IsFair}
use lfqueue.Unbounded
use lfqueue.Unbounded.Pointers.{AtomicPtr}
use lfqueue.Unbounded.Chain.{IsSize, Contains}
use lfqueue.Unbounded.Fifo.{
  with_segment_size_lem, unbounded_enqueue_lem, unbounded_dequeue_lem, Counts,
  counted_with_segment_size_lem, counted_enqueue_lem, counted_dequeue_lem,
}
use lfqueue.Unbounded.Handles.{enqueue_all, dequeue_all, new_full_handle, bulk_roundtrip}
use lfqueue.Unbounded.Drop.{drop_internal_lem}
use lfqueue.Unbounded.{
  UnboundedQueue, with_segment_size, enqueue, dequeue, is_empty, CountedUnboundedQueue,
  counted_with_segment_size, counted_enqueue, counted_dequeue, len,
}

same_pointer : Option ℕ → Option ℕ → Bool
same_pointer none none = true
same_pointer none (some b) = false
same_pointer (some a) none = false
same_pointer (some a) (some b) = a == b

same_pointer_lem :
    (p e : Option ℕ) → (p ≡ e → same_pointer p e ≡ true) × (p ≢ e → same_pointer p e ≡ false)
unfolding same_pointer
same_pointer_lem none none = (λ h. refl, λ h. absurd (h refl))
same_pointer_lem none (some b) = (λ h. cc, λ h. refl)
same_pointer_lem (some a) none = (λ h. cc, λ h. refl)
same_pointer_lem (some a) (some b) = (λ h. eq→== a b cc, λ h. ne→== a b (λ e. h (ap some e)))

unfoldable pub plain : AtomicPtr (Option ℕ)
unfolding same_pointer same_pointer_lem
plain = record {
  make = λ a. a;
  load = λ p. p;
  compare_exchange = λ p e a. if same_pointer p e then (true, a) else (false, p);
  load-make = λ a. refl;
  exchange_same = λ p e a h. rw ((same_pointer_lem p e).0 h) (refl, refl);
  exchange_other = λ p e a h. rw ((same_pointer_lem p e).1 h) refl;
}

-- `left` calls of `dequeue`, the length after them, and what they return.
abbrev drain : ℕ → CountedUnboundedQueue ℕ (Option ℕ) → Exec (List (Option ℕ) × ℕ)
drain zero q = done ([], len plain q)
drain (suc left) q = do
  (found, q') ← counted_dequeue plain 20 flaky q
  (rest, length) ← drain left q'
  done (found ∷ rest, length)

abbrev fill : ℕ → ℕ → CountedUnboundedQueue ℕ (Option ℕ) → Exec (CountedUnboundedQueue ℕ (Option ℕ))
fill zero i q = done q
fill (suc left) i q = do q' ← counted_enqueue plain 20 flaky q i; fill left (i + 1) q'

-- Five numbers in segments of two: what comes back, and the length in the end.
abbrev five_numbers : Exec (List (Option ℕ) × ℕ)
five_numbers = counted_with_segment_size plain 2 >>= fill 5 0 >>= drain 6

two-IsSize : IsSize 2 1
two-IsSize = record {
  small = omega arith;
  fits = omega arith;
  is_accepted = (omega arith, inl (omega arith));
  log = record { below = omega arith; above = omega arith };
}

abbrev New : Type 0
New =
    (q : UnboundedQueue ℕ (Option ℕ)) × (with_segment_size plain 2 ≡ done q)
    × Contains plain q.internal 2 1 100 []
    × (q.size ≡ 2)

made : New
made = with_segment_size_lem plain 2 1 100 two-IsSize (omega arith)

with_segment_size_lem_example : New
with_segment_size_lem_example = with_segment_size_lem plain 2 1 100 two-IsSize (omega arith)

abbrev Entered : Type 0
Entered =
    (q : UnboundedQueue ℕ (Option ℕ)) × (enqueue plain 1 flaky made.0 7 ≡ done q)
    × Contains plain q.internal 2 1 99 (7 ∷ [])

entered : Entered
entered =
    unbounded_enqueue_lem plain made.0 flaky flaky-IsFair 0 99 7 two-IsSize (omega arith) made.2

unbounded_enqueue_lem_example : Entered
unbounded_enqueue_lem_example =
    unbounded_enqueue_lem plain made.0 flaky flaky-IsFair 0 99 7 two-IsSize (omega arith) made.2

unbounded_dequeue_lem_example :
    (q : UnboundedQueue ℕ (Option ℕ)) × (dequeue plain 2 flaky entered.0 ≡ done (some 7, q))
    × Contains plain q.internal 2 1 96 []
unbounded_dequeue_lem_example =
    unbounded_dequeue_lem plain entered.0 flaky flaky-IsFair 0 96 entered.2

drop_internal_lem_example : Unbounded.drop plain 4 flaky entered.0.internal ≡ done (7 ∷ [])
drop_internal_lem_example =
    drop_internal_lem plain flaky flaky-IsFair entered.0.internal 4 entered.2 (omega arith)
      (omega arith)

abbrev Counted : Type 0
Counted =
    (q : CountedUnboundedQueue ℕ (Option ℕ)) × (counted_with_segment_size plain 2 ≡ done q)
    × Counts plain q 2 1 100 []

counted : Counted
counted = counted_with_segment_size_lem plain 2 1 100 two-IsSize (omega arith)

counted_with_segment_size_lem_example : Counted
counted_with_segment_size_lem_example =
    counted_with_segment_size_lem plain 2 1 100 two-IsSize (omega arith)

abbrev CountedOne : Type 0
CountedOne =
    (q : CountedUnboundedQueue ℕ (Option ℕ)) × (counted_enqueue plain 1 flaky counted.0 7 ≡ done q)
    × Counts plain q 2 1 99 (7 ∷ [])
    × (len plain q ≡ len plain counted.0 + 1)

counted_one : CountedOne
counted_one =
    counted_enqueue_lem plain counted.0 flaky flaky-IsFair 0 99 7 two-IsSize (omega arith) counted.2

counted_enqueue_lem_example : CountedOne
counted_enqueue_lem_example =
    counted_enqueue_lem plain counted.0 flaky flaky-IsFair 0 99 7 two-IsSize (omega arith) counted.2

abbrev one_value : List ℕ
one_value = 7 ∷ []

counted_dequeue_lem_example :
    (q : CountedUnboundedQueue ℕ (Option ℕ)) × (counted_dequeue plain 2 flaky counted_one.0
      ≡ done (some 7, q))
    × Counts plain q 2 1 96 []
    × ((is_empty plain counted_one.0 ≡ true) ↔ (one_value ≡ []))
    × (len plain q ≡ len plain counted_one.0 - 1)
counted_dequeue_lem_example =
    counted_dequeue_lem plain counted_one.0 flaky flaky-IsFair 0 96 counted_one.2

bulk_roundtrip_example :
    (q : UnboundedQueue ℕ (Option ℕ)) × (filled : UnboundedQueue ℕ (Option ℕ))
    × (emptied : UnboundedQueue ℕ (Option ℕ)) × (with_segment_size plain 2 ≡ done q)
    × (enqueue_all plain 2 (λ k. flaky) 0 (new_full_handle q) (7 ∷ 8 ∷ 9 ∷ [])
        ≡ done (new_full_handle filled))
    × (dequeue_all plain 2 (λ k. flaky) 0 (new_full_handle filled) 3
        ≡ done (some 7 ∷ some 8 ∷ some 9 ∷ [], new_full_handle emptied))
    × Contains plain emptied.internal 2 1 0 []
bulk_roundtrip_example =
    bulk_roundtrip plain 2 1 0 (λ k. flaky) (7 ∷ 8 ∷ 9 ∷ []) two-IsSize (λ k. flaky-IsFair)
      (omega arith)
