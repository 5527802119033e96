-- ===== src/Ring/Enqueue.antt =====
-- `enqueue` on a ring that holds a list: it takes one ticket and appends the index.
use lfqueue.Base.{ℕ, zero, suc, ◌+◌, ◌-◌, ◌%◌, ◌^◌, ◌≤◌, ◌<◌, ◌≡◌, arith, ◌∙◌}
use lfqueue.Base.{Bool, true, false, List, some, length, get_elem?, set}
use lfqueue.Base.{done}
use lfqueue.Base.{bit_xor, dec_lt, leb, le→leb, lt→leb}
use lfqueue.Word.{shift_left, wrapping_sub, wrapping_add}
use lfqueue.Lfring.{lfring_threshold3, lfring_pow2, lfring_map, modup}
use lfqueue.Lfring.Laws.{lfring_pow2_lem, lfring_map_lem}
use lfqueue.Ring.{
  ScqRing, ok, err, index_larger_than_order, queue_finalized, Cpu, finalized, raise_threshold,
  replaceable, enqueue_retry, enqueue_loop, enqueue, capacity,
}
use lfqueue.Ring.Entry.{cycle_word, live, IsFree, ticket_cycle, live_word, modup-free, free-before}
use lfqueue.Ring.Holds.{slots, IsFreeAt, Holds, IsYoung, IsFair, sizes}

raise_threshold_lem :
    (half n : ℕ) (r : ScqRing)
    → raise_threshold half n r ≡ record r { threshold = lfring_threshold3 half n }
unfolding raise_threshold
raise_threshold_lem half n r = ground arith

-- The retries end with the exchange, once it does not fail.
module _ (fails : ℕ → Bool) (calm : (k : ℕ) → k < 16 → fails k ≡ false)
    (half n eidx tail tcycle tidx : ℕ) (r : ScqRing) (e : ℕ)
    (here : get_elem? r.array tidx ≡ some e) (usable : replaceable n r tail tcycle e ≡ true) where
  retry_places :
      (fuel : ℕ)
      → 0 < fuel
      → finalized r ≡ false
      → enqueue_retry fails fuel half n eidx tail tcycle tidx r
        ≡ done (
          some ok,
          raise_threshold half n (record r { array = set r.array tidx (bit_xor tcycle eidx) }),
        )
  unfolding enqueue_retry
  retry_places zero pos open_ring = absurd (omega arith)
  retry_places (suc fuel) pos open_ring = elim (dec_lt 0 fuel) [
    | yes more ↦ ground (arith, retry_places fuel more open_ring)
    | no last ↦ ground (arith, calm fuel)
  ]

  retry_refuses :
      (fuel : ℕ)
      → 0 < fuel
      → finalized r ≡ true
      → enqueue_retry fails fuel half n eidx tail tcycle tidx r
        ≡ done (some (err queue_finalized), r)
  unfolding enqueue_retry
  retry_refuses zero pos closed = absurd (omega arith)
  retry_refuses (suc fuel) pos closed = ground arith

replaceable-free :
    (r : ScqRing) (k t e : ℕ)
    → k ≤ 60
    → t < 2 ^ 61
    → IsFree (2 ^ k) t e
    → replaceable (2 ^ k) r t (cycle_word (2 ^ k) t) e ≡ true
unfolding replaceable
replaceable-free r k t e small young f =
    ground (arith, modup-free k (omega arith) e f.0, free-before k small e t f young)

-- The ring after the index `i` has been placed.
abbrev pub pushed : ScqRing → ℕ → ScqRing
pushed r i = record r {
  tail = r.tail + 1;
  threshold = 2 ^ r.order + slots r - 1;
  array = set r.array (r.tail % slots r) (live (slots r) r.tail i);
}

abbrev pub refused : ScqRing → ScqRing
refused r = record r { tail = r.tail + 1 }

pub threshold3_lem :
    (order : ℕ)
    → order ≤ 59
    → lfring_threshold3 (2 ^ order) (2 ^ suc order) ≡ 2 ^ order + 2 ^ suc order - 1
unfolding lfring_threshold3
threshold3_lem order h = omega (arith, sizes order h)

module _ {r : ScqRing} {q : List ℕ} (h : Holds r q) (young : IsYoung r) (i : ℕ)
    (fits : i < 2 ^ r.order) where
  open h use {order_small, size, rest, ends, tight}

  abbrev n : ℕ
  n = slots r

  abbrev eidx : ℕ
  eidx = bit_xor i (slots r - 1)

  tcycle_lem : modup (shift_left r.tail 1) n ≡ cycle_word n r.tail
  tcycle_lem = ticket_cycle (suc r.order) (omega arith) r.tail (omega arith)

  tidx_lem : lfring_map r.tail n ≡ r.tail % n
  tidx_lem = lfring_map_lem (suc r.order) r.tail (omega arith)

  placed_word : bit_xor (cycle_word n r.tail) eidx ≡ live n r.tail i
  placed_word =
      live_word (suc r.order) (omega arith) r.tail i (omega (arith, sizes r.order order_small))

  module _ (fails : ℕ → Bool) (calm : (k : ℕ) → k < 16 → fails k ≡ false)
      (free : IsFreeAt r r.tail) where
    usable : replaceable n (refused r) r.tail (cycle_word n r.tail) free.entry ≡ true
    usable =
        replaceable-free (refused r) (suc r.order) r.tail free.entry (omega arith) young free.free

    loop_places :
        (fuel : ℕ)
        → 1 < fuel
        → finalized r ≡ false
        → enqueue_loop fails fuel (2 ^ r.order) n eidx r ≡ done (ok, pushed r i)
    unfolding enqueue_loop
    loop_places zero pos open_ring = absurd (omega arith)
    loop_places (suc fuel) pos open_ring = rw (
      let next : wrapping_add r.tail 1 ≡ r.tail + 1 = omega arith in next,
      tcycle_lem,
      tidx_lem,
      retry_places fails calm (2 ^ r.order) n eidx r.tail (cycle_word n r.tail) (r.tail % n)
          (refused r) free.entry free.here usable fuel (omega arith) open_ring,
      raise_threshold_lem,
      placed_word,
      threshold3_lem r.order order_small,
    )

    loop_refuses :
        (fuel : ℕ)
        → 1 < fuel
        → finalized r ≡ true
        → enqueue_loop fails fuel (2 ^ r.order) n eidx r ≡ done (err queue_finalized, refused r)
    unfolding enqueue_loop
    loop_refuses zero pos closed = absurd (omega arith)
    loop_refuses (suc fuel) pos closed = rw (
      let next : wrapping_add r.tail 1 ≡ r.tail + 1 = omega arith in next,
      tcycle_lem,
      tidx_lem,
      retry_refuses fails calm (2 ^ r.order) n eidx r.tail (cycle_word n r.tail) (r.tail % n)
          (refused r) free.entry free.here usable fuel (omega arith) closed,
    )

pub capacity_lem : (r : ScqRing) → r.order ≤ 59 → capacity r ≡ 2 ^ r.order
unfolding capacity lfring_pow2
capacity_lem r h = lfring_pow2_lem r.order (omega arith)

enqueue_starts :
    (c : Cpu) (r : ScqRing) (i : ℕ)
    → r.order ≤ 59
    → i < 2 ^ r.order
    → enqueue c r i
      ≡ enqueue_loop c.fails c.fuel (2 ^ r.order) (slots r) (bit_xor i (slots r - 1)) r
unfolding enqueue
enqueue_starts c r i small fits =
    let above : leb (shift_left 1 r.order) i ≡ false =
      lt→leb _ _ (omega (arith, fits, capacity_word)) in
    let slots_word : shift_left (2 ^ r.order) 1 ≡ slots r = omega (arith, sizes r.order small) in
    let mask : wrapping_sub (slots r) 1 ≡ slots r - 1 = omega (arith, sizes r.order small) in
    rw (above, lfring_pow2_lem r.order (omega arith), slots_word, mask)
  where
    capacity_word : shift_left 1 r.order ≡ 2 ^ r.order
    capacity_word = capacity_lem r small

pub enqueue-rejected :
    (c : Cpu) (r : ScqRing) (i : ℕ)
    → r.order ≤ 59
    → 2 ^ r.order ≤ i
    → enqueue c r i ≡ done (err index_larger_than_order, r)
unfolding enqueue
enqueue-rejected c r i small big =
    let above : leb (shift_left 1 r.order) i ≡ true =
      le→leb _ _ (omega (arith, big, capacity_word)) in
    rw above
  where
    capacity_word : shift_left 1 r.order ≡ 2 ^ r.order
    capacity_word = capacity_lem r small

module _ {r : ScqRing} {q : List ℕ} {c : Cpu} (h : Holds r q) (young : IsYoung r) (fair : IsFair c)
    (i : ℕ) where
  open h use {order_small, tight, ends, rest, size, held}

  free_at : r.tail ≡ r.head + length q → length q < 2 ^ r.order → IsFreeAt r r.tail
  free_at t space = rest r.tail ends (omega (arith, sizes r.order order_small))

  -- An index that fits is placed at the ticket `tail`.
  pub enqueue-pushed :
      i < 2 ^ r.order
      → length q < 2 ^ r.order
      → finalized r ≡ false
      → enqueue c r i ≡ done (ok, pushed r i)
  enqueue-pushed fits space open_ring =
      enqueue_starts c r i order_small fits
      ∙ loop_places h young i fits c.fails fair.calm (free_at (tight open_ring) space) c.fuel
          (omega (arith, fair.enough)) open_ring

  -- A finalized ring refuses it, and has taken the ticket.
  pub enqueue-refused :
      i < 2 ^ r.order
      → length q < 2 ^ r.order
      → finalized r ≡ true
      → r.tail ≡ r.head + length q
      → enqueue c r i ≡ done (err queue_finalized, refused r)
  enqueue-refused fits space closed t =
      enqueue_starts c r i order_small fits
      ∙ loop_refuses h young i fits c.fails fair.calm (free_at t space) c.fuel
          (omega (arith, fair.enough)) closed
