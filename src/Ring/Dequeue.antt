-- ===== src/Ring/Dequeue.antt =====
-- `dequeue` on a ring that holds a list: the head's entry is taken, and an empty ring is left so.
use native.Mathlib.Nat.{one-le-pow, div-add-mod'}
use lfqueue.Base.{ℕ, zero, suc, ◌+◌, ◌-◌, ◌*◌, ◌%◌, ◌^◌, ◌≤◌, ◌<◌, ◌≡◌, ◌≢◌, refl, arith, ◌∙◌}
use lfqueue.Base.{Bool, true, false, List, [], ◌∷◌, none, some, length, get_elem?, set}
use lfqueue.Base.{done, inl, inr, Bool-cases, dec_lt, leb, le→leb, lt→leb, if◌then◌else◌}
use lfqueue.Base.{bit_and, bit_or}
use lfqueue.Word.{word_mod, sign_bit, shift_left, wrapping_sub, wrapping_add}
use lfqueue.Lfring.{lfring_map, lfring_signed_cmp, modup, is_lt, is_le}
use lfqueue.Lfring.Laws.{lfring_pow2_lem, lfring_map_lem, pow-le_60, signed_cmp_small}
use lfqueue.Ring.{ScqRing, Cpu, look, take, wait, swap, probe, catchup, dequeue_loop, dequeue}
use lfqueue.Ring.Entry.{
  cycle_word, live, IsFree, ticket_cycle, look-live, look-free, free-before, modup-free, index-live,
  empty-live, double_ticket,
}
use lfqueue.Ring.Holds.{slots, at, IsFreeAt, Holds, IsYoung, IsFair, sizes}

module _ (fails : ℕ → Bool) (calm : (k : ℕ) → k < 16 → fails k ≡ false) where
  -- An entry of the ticket's own cycle is taken at the first look.
  probe_takes :
      (fuel n hcycle hidx attempt : ℕ) (r : ScqRing) (e : ℕ)
      → 0 < fuel
      → get_elem? r.array hidx ≡ some e
      → look n hcycle attempt e ≡ take
      → probe fails fuel n hcycle hidx attempt r
        ≡ done (
          some (bit_and e (wrapping_sub n 1)),
          record r { array = set r.array hidx (bit_or e (wrapping_sub n 1)) },
        )
  unfolding probe
  probe_takes zero n hcycle hidx attempt r e pos here seen = absurd (omega arith)
  probe_takes (suc fuel) n hcycle hidx attempt r e pos here seen = ground arith

  -- A free entry is looked at ten more times, and then given the ticket's cycle.
  module _ (k hcycle hidx : ℕ) (small : k ≤ 60) (r : ScqRing) (e : ℕ)
      (here : get_elem? r.array hidx ≡ some e) (word : e < word_mod)
      (empty : e % (2 * 2 ^ k) ≡ 2 * 2 ^ k - 1) (other : e ≢ hcycle)
      (before : is_lt (lfring_signed_cmp e hcycle) ≡ true) where
    probe_passes :
        (fuel attempt : ℕ)
        → 11 ≤ fuel + attempt
        → 0 < fuel
        → probe fails fuel (2 ^ k) hcycle hidx attempt r
          ≡ done (none, record r { array = set r.array hidx hcycle })
    unfolding probe
    probe_passes zero attempt enough pos = absurd (omega arith)
    probe_passes (suc fuel) attempt enough pos = elim (Bool-cases (leb (attempt + 1) 10)) [
      | inl more ↦ ground (arith, looked, probe_passes fuel (attempt + 1))
      | inr last ↦ elim (Bool-cases (fails fuel)) [
        | inl f ↦ ground (arith, looked, safe, probe_passes fuel (attempt + 1), calm fuel)
        | inr t ↦ ground (arith, looked, safe)
      ]
    ]
      where
        looked :
            look (2 ^ k) hcycle attempt e
            ≡ (if leb (attempt + 1) 10 then wait else swap hcycle (attempt + 1))
        looked = look-free k small e hcycle attempt word empty other

        safe : modup e (2 ^ k) ≡ e
        safe = modup-free k (omega arith) e empty

  -- The tail is set to the head, unless it has come up to it already.
  catchup_lem :
      (fuel : ℕ) (r : ScqRing)
      → 0 < fuel
      → r.tail ≤ r.head
      → r.head < sign_bit
      → catchup fails fuel r.tail r.head r ≡ done (record r { tail = r.head })
  unfolding catchup
  catchup_lem zero r pos le young = absurd (omega arith)
  catchup_lem (suc fuel) r pos le young = elim (dec_lt 0 fuel) [
    | yes more ↦ ground (arith, catchup_lem fuel r more le young, signed_cmp_small r.tail r.head)
    | no last ↦ ground (arith, calm fuel)
  ]

-- The ring after the head's index has been taken.
abbrev pub popped : ScqRing → ScqRing
popped r = record r {
  head = r.head + 1;
  array = set r.array (r.head % slots r) (cycle_word (slots r) r.head);
}

-- The empty ring after a call that found it so.
abbrev pub passed : ScqRing → ScqRing
passed r = record r {
  head = r.head + 1;
  tail = r.head + 1;
  threshold = wrapping_sub r.threshold 1;
  array = set r.array (r.head % slots r) (cycle_word (slots r) r.head);
}

free-ne-cycle : (k e t : ℕ) → k ≤ 60 → IsFree (2 ^ k) t e → t < 2 ^ 61 → e ≢ cycle_word (2 ^ k) t
free-ne-cycle k e t small f young e_is =
    ground
      (arith, one-le-pow k 2, pow-le_60 k small, div-add-mod' t (2 ^ k), double_ticket t (2 ^ k))

module _ {r : ScqRing} {q : List ℕ} (h : Holds r q) (young : IsYoung r) where
  open h use {order_small, size, rest, ends, hole, held}

  abbrev n : ℕ
  n = slots r

  abbrev moved : ScqRing
  moved = record r { head = r.head + 1 }

  -- The ring between `probe` and `catchup`, when the slot of the head was free.
  abbrev swapped : ScqRing
  swapped = record moved { array = set r.array (r.head % n) (cycle_word n r.head) }

  reached : length q ≡ 0 → is_le (lfring_signed_cmp r.tail (r.head + 1)) ≡ true
  reached none_held = ground (arith, signed_cmp_small r.tail (r.head + 1), hole, ends)

  hcycle_lem : modup (shift_left r.head 1) n ≡ cycle_word n r.head
  hcycle_lem = ticket_cycle (suc r.order) (omega arith) r.head (omega (arith, ends))

  hidx_lem : lfring_map r.head n ≡ r.head % n
  hidx_lem = lfring_map_lem (suc r.order) r.head (omega arith)

  next_lem : wrapping_add r.head 1 ≡ r.head + 1
  next_lem = omega (arith, ends)

  mask_lem : wrapping_sub n 1 ≡ n - 1
  mask_lem = omega (arith, sizes r.order order_small)

  module _ (fails : ℕ → Bool) (calm : (k : ℕ) → k < 16 → fails k ≡ false) where
    loop_takes :
        (fuel i : ℕ)
        → 1 < fuel
        → i < 2 ^ r.order
        → at r r.head ≡ some (live n r.head i)
        → dequeue_loop fails fuel n r ≡ done (some i, popped r)
    unfolding dequeue_loop
    loop_takes zero i pos fits here = absurd (omega arith)
    loop_takes (suc fuel) i pos fits here =
        let below : i < n = omega (arith, sizes r.order order_small) in
        rw (
          next_lem,
          hcycle_lem,
          hidx_lem,
          probe_takes fails calm fuel n (cycle_word n r.head) (r.head % n) 0 moved (live n r.head i)
              (omega arith) here (look-live (suc r.order) (omega arith) r.head i 0 below),
          mask_lem,
          index-live (suc r.order) (omega arith) r.head i below,
          empty-live (suc r.order) (omega arith) r.head i below,
        )

    loop_passes :
        (fuel : ℕ) → 13 < fuel → length q ≡ 0 → dequeue_loop fails fuel n r ≡ done (none, passed r)
    unfolding dequeue_loop
    loop_passes zero pos none_held = absurd (omega arith)
    loop_passes (suc fuel) pos none_held =
        let f : IsFreeAt r r.head =
          rest r.head (omega arith) (omega (arith, sizes r.order order_small)) in
        rw
          (
            next_lem,
            hcycle_lem,
            hidx_lem,
            probe_passes fails calm (suc r.order) (cycle_word n r.head) (r.head % n) (omega arith)
                moved f.entry f.here f.word f.free.0
                (free-ne-cycle (suc r.order) f.entry r.head (omega arith) f.free
                  (omega (arith, ends)))
                (free-before (suc r.order) (omega arith) f.entry r.head f.free
                  (omega (arith, ends)))
                fuel 0 (omega arith) (omega arith),
          )
          (rw (
            next_lem,
            reached none_held,
            catchup_lem fails calm fuel swapped (omega arith) (omega (arith, hole))
                (omega (arith, ends)),
          ))

dequeue_starts :
    (c : Cpu) (r : ScqRing)
    → r.order ≤ 59
    → r.threshold < sign_bit
    → dequeue c r ≡ dequeue_loop c.fails c.fuel (slots r) r
unfolding dequeue
dequeue_starts c r small positive =
    let up : wrapping_add r.order 1 ≡ suc r.order = omega arith in
    rw (lt→leb sign_bit r.threshold positive, up, lfring_pow2_lem (suc r.order) (omega arith))

-- A ring with a negative threshold is not touched.
pub dequeue-unarmed :
    (c : Cpu) (r : ScqRing) → sign_bit ≤ r.threshold → dequeue c r ≡ done (none, r)
unfolding dequeue
dequeue-unarmed c r negative = rw (le→leb sign_bit r.threshold negative)

module _ {r : ScqRing} {c : Cpu} where
  -- The oldest index is taken.
  pub dequeue-popped :
      {i : ℕ} {q : List ℕ}
      → Holds r (i ∷ q)
      → IsYoung r
      → IsFair c
      → dequeue c r ≡ done (some i, popped r)
  dequeue-popped {i} h young fair =
      let (fits, here) = h.held 0 i refl in
      let start : r.head + 0 ≡ r.head = omega arith in
      dequeue_starts c r h.order_small (h.armed (omega arith))
      ∙ loop_takes h young c.fails fair.calm c.fuel i (omega (arith, fair.enough)) fits
          (rw start at here)

  -- An empty ring whose threshold is not yet negative takes one ticket and lowers the threshold.
  pub dequeue-passed :
      Holds r []
      → IsYoung r
      → IsFair c
      → r.threshold < sign_bit
      → dequeue c r ≡ done (none, passed r)
  dequeue-passed h young fair positive =
      dequeue_starts c r h.order_small positive
      ∙ loop_passes h young c.fails fair.calm c.fuel (omega (arith, fair.enough)) refl
