-- ===== src/Ring/Shared/Access.antt =====
-- Every access of a thread to a ring of the right size ends, and keeps what `Stepped` says.
use lfqueue.Base.{ℕ, ◌+◌, ◌^◌, ◌≤◌, ◌<◌, ◌≡◌, ==_iff, refl, arith, ◌==◌, if◌then◌else◌, ◌||◌}
use lfqueue.Base.{
  Bool, true, false, Bool-cases, inl, inr, length-set, bit_or, bit_xor, bit_and, set,
}
use lfqueue.Word.{wrapping_add, wrapping_sub, shift_left, is_negative}
use lfqueue.Lfring.{
  lfring_pow2, lfring_map, lfring_threshold3, modup, lfring_signed_cmp, is_lt, is_le, is_ge,
}
use lfqueue.Lfring.Laws.{signed_cmp_small}
use lfqueue.Ring.{
  ScqRing, finalizable, finalized, exchanges, look, take, leave, wait, swap, Look, err, ok,
  queue_finalized,
}
use lfqueue.Base.{none, some}
use lfqueue.Ring.Shared.{
  Place, claim_tail, load_entry, check_head, check_finalized, exchange_entry, load_threshold,
  store_threshold, enqueued, outside, check_threshold, claim_head, probe_entry, take_entry,
  swap_entry, load_tail, catch_tail, reload_head, reload_tail, lower_empty, lower_threshold,
  dequeued,
}
use lfqueue.Ring.Shared.{
  n_enqueue, n_dequeue, step, inserts, tickets, tail_tickets, test_entry, after_test, after_probe,
}
use lfqueue.Ring.Shared.Steps.{
  IsSized, Stepped, IsInOrder, at_exchange, arrives, reads, branches, loads, n_enqueue_lem,
  n_dequeue_lem,
}

-- Where the test of an entry leads to: on a finalized ring never straight to the exchange.
pub after_test_cases :
    (r : ScqRing) (eidx tail entry : ℕ) (P : Place → Type 0)
    → P (check_finalized eidx tail entry)
    → (finalizable r ≡ false → P (exchange_entry eidx tail entry))
    → P (after_test r eidx tail entry)
unfolding after_test
after_test_cases r eidx tail entry P check exchange = elim (Bool-cases (finalizable r)) [
  | inl mode ↦ rw mode check
  | inr other ↦ rw other (exchange other)
]

pub test_entry_cases :
    (r : ScqRing) (eidx tail entry : ℕ) (P : Place → Type 0)
    → P (after_test r eidx tail entry)
    → P (check_head eidx tail entry)
    → P (claim_tail eidx)
    → P (test_entry r eidx tail entry)
unfolding test_entry
test_entry_cases r eidx tail entry P after check claim =
    let n = n_enqueue r in
    let ecycle = modup entry n in
    by_tests (is_lt (lfring_signed_cmp ecycle (modup (shift_left tail 1) n))) (entry == ecycle)
      (entry == bit_xor ecycle n)
  where
    by_tests :
        (a b c : Bool)
        → P (
            if a
            then if b
              then after_test r eidx tail entry
              else if c
              then check_head eidx tail entry
              else claim_tail eidx
            else claim_tail eidx)
    by_tests true true c = after
    by_tests true false true = check
    by_tests true false false = claim
    by_tests false b c = claim

pub after_probe_cases :
    (r : ScqRing) (head attempt entry : ℕ) (P : Place → Type 0)
    → P (take_entry head entry)
    → P (load_tail head)
    → ((k : ℕ) → P (probe_entry head k))
    → ((k e : ℕ) → P (swap_entry head k entry e))
    → P (after_probe r head attempt entry)
unfolding after_probe
after_probe_cases r head attempt entry P taken left waits swaps =
    let n = n_dequeue r in
    let hcycle = modup (shift_left head 1) n in
    by_look (look n hcycle attempt entry) (is_lt (lfring_signed_cmp (modup entry n) hcycle))
  where
    by_look :
        (l : Look) (t : Bool)
        → P (elim l [
          | take ↦ take_entry head entry
          | leave ↦ load_tail head
          | wait ↦ probe_entry head (attempt + 1)
          | swap entry_new attempts ↦
              if t then swap_entry head attempts entry entry_new else load_tail head
        ])
    by_look take t = taken
    by_look leave t = left
    by_look wait t = waits (attempt + 1)
    by_look (swap e a) true = swaps a e
    by_look (swap e a) false = left

not_exchange : (r : ScqRing) (n : ℕ) → finalized r ≡ true → finalizable r ≡ false → n ≡ 0
not_exchange r n shut other = absurd (let no : finalized r ≡ false = rw other refl in cc)

pub signed_le : (a b : ℕ) → a < 2 ^ 63 → b < 2 ^ 63 → is_le (lfring_signed_cmp a b) ≡ true → a ≤ b
signed_le a b ha hb e = let same = signed_cmp_small a b ha hb in ground (arith, same, e)

signed_lt : (a b : ℕ) → a < 2 ^ 63 → b < 2 ^ 63 → is_ge (lfring_signed_cmp a b) ≡ false → a < b
signed_lt a b ha hb e = let same = signed_cmp_small a b ha hb in ground (arith, same, e)

pub exchanged :
    (spurious : Bool) (now expected : ℕ) → exchanges spurious now expected ≡ true → now ≡ expected
exchanged true now expected e = absurd (cc)
exchanged false now expected e = (==_iff now expected).0 e

module _ (spurious : Bool) (r : ScqRing) (z : IsSized r) where
  exchange_lem : (eidx tail entry : ℕ) → Stepped spurious (exchange_entry eidx tail entry) r
  unfolding step
  exchange_lem eidx tail entry =
      let n = n_enqueue r in
      let (now, e) = loads r tail n z (n_enqueue_lem r z.small) in
      elim (Bool-cases (exchanges spurious now entry)) [
        | inl t ↦
            arrives load_threshold
              (record r {
                array =
                    set r.array (lfring_map tail n) (bit_xor (modup (shift_left tail 1) n) eidx);
              })
              (rw (e, t) refl) refl (length-set r.array _ _) refl refl refl refl refl
              (λ shut before. refl) (λ hh ht g. tt)
        | inr t ↦
            reads (load_entry eidx tail) (rw (e, t) refl) refl refl (λ shut before. refl)
              (λ hh ht g. tt)
      ]

  -- `catchup` moves `tail` up to a ticket of `head`.
  caught :
      (tail head : ℕ)
      → exchanges spurious r.tail tail ≡ true
      → Stepped spurious (catch_tail tail head) r
  unfolding step inserts tickets tail_tickets
  caught tail head t = record {
    next = lower_empty;
    ring = record r { tail = head };
    steps = rw t refl;
    same_order = refl;
    same_length = refl;
    same_flags = refl;
    ticket = refl;
    head_ticket = refl;
    tail_ticket = refl;
    raised = λ hh ht g. record {
      in_order = tt;
      above = omega (arith, exchanged spurious r.tail tail t);
      below = λ bound le he. omega arith;
    };
    no_insert = λ shut before. (refl, refl);
  }

  pub step_lem : (p : Place) → Stepped spurious p r
  unfolding step inserts tickets tail_tickets
  step_lem outside = reads outside refl refl refl (λ shut before. refl) (λ hh ht g. tt)
  step_lem (claim_tail eidx) = record {
    next = load_entry eidx r.tail;
    ring = record r { tail = wrapping_add r.tail 1 };
    steps = refl;
    same_order = refl;
    same_length = refl;
    same_flags = refl;
    ticket = refl;
    head_ticket = refl;
    tail_ticket = refl;
    raised = λ hh ht g. record {
      in_order = tt;
      above = omega arith;
      below = λ bound le he. omega arith;
    };
    no_insert = λ shut before. (refl, refl);
  }
  step_lem (load_entry eidx tail) =
      let (entry, e) = loads r tail (n_enqueue r) z (n_enqueue_lem r z.small) in
      reads (test_entry r eidx tail entry) (rw e refl) refl refl
        (λ shut before.
          test_entry_cases r eidx tail entry (λ p. at_exchange p ≡ 0)
            (after_test_cases r eidx tail entry (λ p. at_exchange p ≡ 0) refl
              (not_exchange r 1 shut))
            refl refl)
        (λ hh ht g.
          test_entry_cases r eidx tail entry (λ p. IsInOrder p r)
            (after_test_cases r eidx tail entry (λ p. IsInOrder p r) tt (λ o. tt)) tt tt)
  step_lem (check_head eidx tail entry) =
      elim (Bool-cases (is_le (lfring_signed_cmp r.head tail))) [
        | inl t ↦
            reads (after_test r eidx tail entry) (rw t refl) refl refl
              (λ shut before.
                after_test_cases r eidx tail entry (λ p. at_exchange p ≡ 0) refl
                  (not_exchange r 1 shut))
              (λ hh ht g. after_test_cases r eidx tail entry (λ p. IsInOrder p r) tt (λ o. tt))
        | inr t ↦
            reads (claim_tail eidx) (rw t refl) refl refl (λ shut before. refl) (λ hh ht g. tt)
      ]
  step_lem (check_finalized eidx tail entry) = elim (Bool-cases (finalized r)) [
    | inl t ↦
        reads (enqueued (err queue_finalized)) (rw t refl) refl refl (λ shut before. refl)
          (λ hh ht g. tt)
    | inr t ↦
        reads (exchange_entry eidx tail entry) (rw t refl) refl refl (λ shut before. absurd (cc))
          (λ hh ht g. tt)
  ]
  step_lem (exchange_entry eidx tail entry) = exchange_lem eidx tail entry
  step_lem load_threshold =
      branches (r.threshold == lfring_threshold3 (lfring_pow2 r.order) (n_enqueue r)) (enqueued ok)
        store_threshold refl refl refl refl refl tt tt
  step_lem store_threshold =
      arrives (enqueued ok)
        (record r { threshold = lfring_threshold3 (lfring_pow2 r.order) (n_enqueue r) }) refl refl
        refl refl refl refl refl refl (λ shut before. refl) (λ hh ht g. tt)
  step_lem (enqueued result) =
      reads (enqueued result) refl refl refl (λ shut before. refl) (λ hh ht g. tt)
  step_lem check_threshold =
      branches (is_negative r.threshold) (dequeued none) claim_head refl refl refl refl refl tt tt
  step_lem claim_head = record {
    next = probe_entry r.head 0;
    ring = record r { head = wrapping_add r.head 1 };
    steps = refl;
    same_order = refl;
    same_length = refl;
    same_flags = refl;
    ticket = refl;
    head_ticket = refl;
    tail_ticket = refl;
    raised = λ hh ht g. record {
      in_order = omega arith;
      above = omega arith;
      below = λ bound le he. omega arith;
    };
    no_insert = λ shut before. (refl, refl);
  }
  step_lem (probe_entry head attempt) =
      let (entry, e) = loads r head (n_dequeue r) z (n_dequeue_lem r z.small) in
      reads (after_probe r head attempt entry) (rw e refl) refl refl
        (λ shut before.
          after_probe_cases r head attempt entry (λ p. at_exchange p ≡ 0) refl refl (λ k. refl)
            (λ k e. refl))
        (λ hh ht g.
          after_probe_cases r head attempt entry (λ p. IsInOrder p r) g g (λ k. g) (λ k e. g))
  step_lem (take_entry head entry) =
      let (now, e) = loads r head (n_dequeue r) z (n_dequeue_lem r z.small) in
      arrives (dequeued (some (bit_and entry (wrapping_sub (n_dequeue r) 1))))
        (record r {
          array =
              set r.array (lfring_map head (n_dequeue r))
                (bit_or now (wrapping_sub (n_dequeue r) 1));
        })
        (rw e refl) refl (length-set r.array _ _) refl refl refl refl refl (λ shut before. refl)
        (λ hh ht g. tt)
  step_lem (swap_entry head attempt entry entry_new) =
      let (now, e) = loads r head (n_dequeue r) z (n_dequeue_lem r z.small) in
      elim (Bool-cases (exchanges spurious now entry)) [
        | inl t ↦
            arrives (load_tail head)
              (record r { array = set r.array (lfring_map head (n_dequeue r)) entry_new })
              (rw (e, t) refl) refl (length-set r.array _ _) refl refl refl refl refl
              (λ shut before. refl) (λ hh ht g. g)
        | inr t ↦
            reads (probe_entry head attempt) (rw (e, t) refl) refl refl (λ shut before. refl)
              (λ hh ht g. g)
      ]
  step_lem (load_tail head) =
      elim (Bool-cases (is_le (lfring_signed_cmp r.tail (wrapping_add head 1)))) [
        | inl t ↦
            reads (catch_tail r.tail (wrapping_add head 1)) (rw t refl) refl refl
              (λ shut before. refl)
              (λ hh ht g.
                (signed_le r.tail (wrapping_add head 1) (omega arith) (omega arith) t, omega arith))
        | inr t ↦ reads lower_threshold (rw t refl) refl refl (λ shut before. refl) (λ hh ht g. tt)
      ]
  step_lem (catch_tail tail head) = elim (Bool-cases (exchanges spurious r.tail tail)) [
    | inl t ↦ caught tail head t
    | inr t ↦ reads reload_head (rw t refl) refl refl (λ shut before. refl) (λ hh ht g. tt)
  ]
  step_lem reload_head =
      reads (reload_tail r.head) refl refl refl (λ shut before. refl) (λ hh ht g. omega arith)
  step_lem (reload_tail head) = elim (Bool-cases (is_ge (lfring_signed_cmp r.tail head))) [
    | inl t ↦ reads lower_empty (rw t refl) refl refl (λ shut before. refl) (λ hh ht g. tt)
    | inr t ↦
        reads (catch_tail r.tail head) (rw t refl) refl refl (λ shut before. refl)
          (λ hh ht g. (
            let h : r.tail < head = signed_lt r.tail head (omega arith) (omega arith) t in
                omega arith,
            g,
          ))
  ]
  step_lem lower_empty =
      arrives (dequeued none) (record r { threshold = wrapping_sub r.threshold 1 }) refl refl refl
        refl refl refl refl refl (λ shut before. refl) (λ hh ht g. tt)
  step_lem lower_threshold = elim (Bool-cases (is_negative r.threshold || (r.threshold == 0))) [
    | inl t ↦
        arrives (dequeued none) (record r { threshold = wrapping_sub r.threshold 1 }) (rw t refl)
          refl refl refl refl refl refl refl (λ shut before. refl) (λ hh ht g. tt)
    | inr t ↦
        arrives claim_head (record r { threshold = wrapping_sub r.threshold 1 }) (rw t refl) refl
          refl refl refl refl refl refl (λ shut before. refl) (λ hh ht g. tt)
  ]
  step_lem (dequeued result) =
      reads (dequeued result) refl refl refl (λ shut before. refl) (λ hh ht g. tt)
