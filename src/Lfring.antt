-- ===== src/Lfring.antt =====
-- The index arithmetic of the ring: the `lfring_*` functions, `modup` and the two `determine_order`
-- of src/scq.rs.
pub mod Laws
pub mod Order
use lfqueue.Base.{ℕ, zero, suc, ◌+◌, ◌/◌, ◌%◌, bit_and, bit_or, Ordering, Bool, true, false, ◌||◌}
use lfqueue.Base.{Option, none, some, ◌==◌, ltb, if◌then◌else◌, Exec, done, panic}
use lfqueue.Word.{wrapping_add, wrapping_sub, shift_left, is_negative}

-- The value of `half + n - 1` fits an `isize`, so the cast keeps it.
unfoldable pub lfring_threshold3 : ℕ → ℕ → ℕ
lfring_threshold3 half n = wrapping_sub (wrapping_add half n) 1

unfoldable pub lfring_pow2 : ℕ → ℕ
lfring_pow2 order = shift_left 1 order

unfoldable pub modup : ℕ → ℕ → ℕ
modup value n = bit_or value (wrapping_sub (shift_left n 1) 1)

unfoldable pub lfring_map : ℕ → ℕ → ℕ
lfring_map idx n = bit_and idx (wrapping_sub n 1)

-- The sign of the wrapped difference.
unfoldable pub lfring_signed_cmp : ℕ → ℕ → Ordering
lfring_signed_cmp a b =
    let d = wrapping_sub a b in
    if d == 0 then Ordering.eq else if is_negative d then Ordering.lt else Ordering.gt

abbrev pub is_lt : Ordering → Bool
is_lt Ordering.lt = true
is_lt _ = false

abbrev pub is_le : Ordering → Bool
is_le Ordering.gt = false
is_le _ = true

abbrev pub is_ge : Ordering → Bool
is_ge Ordering.lt = false
is_ge _ = true

-- The number of halvings that bring a number to 1; `none` when they are not among the first `fuel`.
ilog2_within : ℕ → ℕ → Option ℕ
ilog2_within zero x = none
ilog2_within (suc fuel) x =
    let rest = ilog2_within fuel (x / 2) in
    if x == 0
    then none
    else if x == 1
    then some 0
    else elim rest [ none ↦ none | some k ↦ some (k + 1) ]

-- `usize::checked_ilog2`: a word has at most 64 digits.
unfoldable pub checked_ilog2 : ℕ → Option ℕ
unfolding ilog2_within
checked_ilog2 x = ilog2_within 64 x

unfoldable pub determine_order : ℕ → Exec ℕ
determine_order length =
    if (length % 2 == 0) || (length == 1)
    then elim (checked_ilog2 length) [ none ↦ panic | some value ↦ done value ]
    else panic

unfoldable pub determine_order_const : ℕ → Exec ℕ
determine_order_const length =
    if (length % 2 == 0) || (length == 1)
    then elim (checked_ilog2 length) [ none ↦ panic | some value ↦ done (wrapping_sub value 1) ]
    else panic
