-- ===== src/Alloc/Fresh.antt =====
-- A fresh ring holds nothing, and a full one holds every index in order.
use native.Mathlib.Nat.{mod-eq_of_lt, one-le-pow, pow-succ', mod-lt}
use lfqueue.Base.{ℕ, zero, suc, ◌+◌, ◌-◌, ◌*◌, ◌/◌, ◌%◌, ◌^◌, ◌≤◌, ◌<◌, ◌≡◌, refl, arith, ◌∙◌, inl}
use lfqueue.Base.{
  List, [], ◌∷◌, some, length, get_elem?, done, ap, replicate, false, length-replicate,
  get_elem?-replicate, get_elem?-lt,
}
use lfqueue.Word.{word_mod, minus_one, wrapping_add}
use lfqueue.Lfring.Laws.{lfring_pow2_lem}
use lfqueue.Ring.{ScqRing, finalized}
use lfqueue.Ring.Entry.{IsFree, live, word_splits, mod_fields}
use lfqueue.Ring.Enqueue.{threshold3_lem}
use lfqueue.Ring.Holds.{Holds, sizes}
use lfqueue.Alloc.{
  allocate_atomic_array_empty, allocate_atomic_array_full, allocate_standard_atomic_array,
  new_from_sqalloc, new_alloc_ring_empty, new_alloc_ring_full,
}
use lfqueue.Alloc.Arrays.{IsFull, initialize_atomic_array_full_lem}

-- `count` numbers from `i` on.
abbrev pub range : ℕ → ℕ → List ℕ
range i zero = []
range i (suc count) = i ∷ range (i + 1) count

pub length-range : (i count : ℕ) → length (range i count) ≡ count
length-range i zero = refl
length-range i (suc count) = ap suc (length-range (i + 1) count)

pub get_elem?-range :
    (i count j x : ℕ) → get_elem? (range i count) j ≡ some x → (x ≡ i + j) × (j < count)
get_elem?-range i zero j x e = absurd (cc)
get_elem?-range i (suc count) zero x e = ground arith
get_elem?-range i (suc count) (suc j) x e = omega (arith, get_elem?-range (i + 1) count j x e)

div_small : (j m : ℕ) → j < m → j / m ≡ 0
div_small j m h = grind arith

last_block : (m w : ℕ) → 0 < w → m * w ≡ (w - 1) * m + m
last_block m w pos =
    let split : w ≡ (w - 1) + 1 = omega arith in omega (arith, ap (λ (x : ℕ). m * x) split)

module _ (order : ℕ) (small : order ≤ 59) where
  abbrev n : ℕ
  n = 2 ^ suc order

  never_used : (t : ℕ) → IsFree n t minus_one
  never_used t =
      let two_n : 2 * n ≡ 2 ^ suc (suc order) = omega (arith, pow-succ' 2 (suc order)) in
      let word : word_mod ≡ 2 * n * 2 ^ (62 - order) =
        word_splits (62 - order) (suc (suc order)) (omega arith) ∙ rw two_n refl in
      let pos : 0 < 2 ^ (62 - order) = one-le-pow (62 - order) 2 (omega arith) in
      let ones : minus_one ≡ (2 ^ (62 - order) - 1) * (2 * n) + (2 * n - 1) =
        omega (arith, word, last_block (2 * n) (2 ^ (62 - order)) pos, sizes order small) in
      (
        rw (ones) (
            mod_fields (2 ^ (62 - order) - 1) (2 * n) (2 * n - 1)
              (omega (arith, sizes order small))),
        inl refl,
      )

  fresh : ℕ → ScqRing
  fresh mode = record {
    is_finalized = replicate mode false;
    head = 0;
    tail = 0;
    threshold = minus_one;
    array = replicate n minus_one;
    order = order;
  }

  empty_ring : (mode : ℕ) → new_alloc_ring_empty mode order ≡ fresh mode
  unfolding new_alloc_ring_empty new_from_sqalloc allocate_atomic_array_empty
      allocate_standard_atomic_array fresh
  empty_ring mode =
      let up : wrapping_add order 1 ≡ suc order = omega arith in
      rw (up, lfring_pow2_lem (suc order) (omega arith))

  fresh-Holds : (mode : ℕ) → Holds (fresh mode) []
  unfolding fresh
  fresh-Holds mode = record {
    order_small = small;
    size = length-replicate n minus_one;
    room = omega arith;
    ends = omega arith;
    hole = omega arith;
    tight = λ e. omega arith;
    held = λ j x e. absurd (omega (arith, get_elem?-lt [] j x e));
    rest = λ t lo hi. record {
      entry = minus_one;
      here = get_elem?-replicate n minus_one (t % n) (mod-lt t (omega (arith, sizes order small)));
      word = omega arith;
      free = never_used t;
    };
    armed = λ p. absurd (omega arith);
    threshold_word = omega arith;
  }

  full : ℕ → List ℕ → ScqRing
  full mode a = record {
    is_finalized = replicate mode false;
    head = 0;
    tail = 2 ^ order;
    threshold = 2 ^ order + n - 1;
    array = a;
    order = order;
  }

  full-Holds :
      (mode : ℕ) (a : List ℕ) → IsFull order small a → Holds (full mode a) (range 0 (2 ^ order))
  unfolding full
  full-Holds mode a f = record {
    order_small = small;
    size = f.size;
    room = omega (arith, length-range 0 (2 ^ order));
    ends = omega (arith, length-range 0 (2 ^ order));
    hole = omega (arith, length-range 0 (2 ^ order));
    tight = λ e. omega (arith, length-range 0 (2 ^ order));
    held = λ j x e.
        let (same, lt) = get_elem?-range 0 (2 ^ order) j x e in
        (omega arith, held_word j x (omega arith) lt);
    rest = λ t lo hi. record {
      entry = minus_one;
      here =
          ap (get_elem? a) (mod-eq_of_lt {n = t} {m = n} (omega arith))
          ∙ f.second_half t (omega (arith, length-range 0 (2 ^ order))) (omega arith);
      word = omega arith;
      free = never_used t;
    };
    armed = λ p. omega (arith, sizes order small);
    threshold_word = omega (arith, sizes order small);
  }
    where
      held_word :
          (j x : ℕ) → x ≡ j → j < 2 ^ order → get_elem? a ((0 + j) % n) ≡ some (live n (0 + j) x)
      held_word j x same lt =
          let start : 0 + j ≡ j = omega arith in
          let inside : j < n = omega (arith, sizes order small) in
          let first : j / n ≡ 0 = div_small j n inside in
          let word : live n j x ≡ n + j = rw (first, same) (omega arith) in
          rw (start, word, mod-eq_of_lt inside) (f.first_half j lt)

-- What a new ring is like beside the indices that it holds.
pub record IsNew (mode order : ℕ) (r : ScqRing) : Type 0 where
  pub order_is : r.order ≡ order
  pub not_finalized : finalized r ≡ false
  pub flags : length r.is_finalized ≡ mode
  pub tickets : r.tail ≤ 2 ^ order
  pub no_heads : r.head ≡ 0

finalized-new :
    (mode : ℕ) (r : ScqRing) → r.is_finalized ≡ replicate mode false → finalized r ≡ false
finalized-new zero r e = rw e
finalized-new (suc mode) r e = rw e (ground arith)

module _ (mode order : ℕ) (small : order ≤ 59) where
  -- A new empty ring of an order up to 59 holds nothing, is not finalized, and has given no ticket.
  pub new_alloc_ring_empty_lem :
      Holds (new_alloc_ring_empty mode order) []
      × IsNew mode order (new_alloc_ring_empty mode order)
      × ((new_alloc_ring_empty mode order).tail ≡ 0)
  unfolding fresh
  new_alloc_ring_empty_lem = rw (empty_ring order small mode) (
    fresh-Holds order small mode,
    record {
      order_is = refl;
      not_finalized = finalized-new mode (fresh order small mode) refl;
      flags = length-replicate mode false;
      tickets = omega arith;
      no_heads = refl;
    },
    refl,
  )

  -- A new full ring of an order up to 59 is made without a panic, is not finalized, and holds every
  -- index below its capacity, in order.
  pub new_alloc_ring_full_lem :
      (r : ScqRing) × (new_alloc_ring_full mode order ≡ done r)
      × Holds r (range 0 (2 ^ order))
      × IsNew mode order r
  unfolding full new_alloc_ring_full allocate_atomic_array_full new_from_sqalloc
      allocate_standard_atomic_array
  new_alloc_ring_full_lem =
      let (a, e, f) =
        initialize_atomic_array_full_lem order small
          (allocate_standard_atomic_array (2 ^ suc order))
          (length-replicate (2 ^ suc order) minus_one) in
      let slots_word : 2 ^ order * 2 % word_mod ≡ 2 ^ suc order =
        omega (arith, sizes order small) in
      (
        full order small mode a,
        rw (lfring_pow2_lem order (omega arith), slots_word, e, threshold3_lem order small),
        full-Holds order small mode a f,
        record {
          order_is = refl;
          not_finalized = finalized-new mode (full order small mode a) refl;
          flags = length-replicate mode false;
          tickets = omega arith;
          no_heads = refl;
        },
      )
