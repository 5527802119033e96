-- ===== src/Alloc.antt =====
-- How rings are made: `ScqAlloc` and the functions that fill it, for the constant rings of
-- src/scq.rs and the allocated rings of src/lfstd.rs.
pub mod Arrays
pub mod Fresh
use lfqueue.Base.{ℕ, zero, suc, ◌+◌, ◌-◌, ◌*◌, ◌/◌, ◌%◌, ltb, if◌then◌else◌, List, false}
use lfqueue.Base.{length, set, replicate, Exec, done, panic, ◌>>=◌}
use lfqueue.Word.{word_mod, minus_one, wrapping_add}
use lfqueue.Lfring.{lfring_threshold3, lfring_pow2, lfring_map, determine_order_const}
use lfqueue.Ring.{ScqRing}

pub record ScqAlloc : Type 0 where
  pub array : List ℕ
  pub tail : ℕ
  pub thresh : ℕ

-- `buffer[i].store(v)`, which panics out of bounds.
unfoldable pub store : List ℕ → ℕ → ℕ → Exec (List ℕ)
store buffer i v = if ltb i (length buffer) then done (set buffer i v) else panic

-- The two loops count up from `i`; `left` rounds remain. A slot that a loop `while i != half` would
-- never reach does not occur, as `half ≤ n`.
module _ (half n : ℕ) where
  fill_live : ℕ → ℕ → List ℕ → Exec (List ℕ)
  fill_live zero i buffer = done buffer
  fill_live (suc left) i buffer = do
    buffer' ← store buffer (lfring_map i n) (wrapping_add n (lfring_map i half))
    fill_live left (i + 1) buffer'

  fill_free : ℕ → ℕ → List ℕ → Exec (List ℕ)
  fill_free zero i buffer = done buffer
  fill_free (suc left) i buffer = do
    buffer' ← store buffer (lfring_map i n) minus_one
    fill_free left (i + 1) buffer'

unfoldable pub initialize_atomic_array_full : List ℕ → ℕ → ℕ → Exec (List ℕ)
unfolding fill_live fill_free
initialize_atomic_array_full buffer half n = do
  filled ← fill_live half n half 0 buffer
  fill_free half n (n - half) half filled

unfoldable pub allocate_standard_atomic_array : ℕ → List ℕ
allocate_standard_atomic_array n = replicate n minus_one

unfoldable pub allocate_atomic_array_full : ℕ → Exec ScqAlloc
allocate_atomic_array_full order =
    let half = lfring_pow2 order in
    let n = half * 2 % word_mod in
    do
      vector ← initialize_atomic_array_full (allocate_standard_atomic_array n) half n
      done (record { array = vector; tail = half; thresh = lfring_threshold3 half n })

unfoldable pub allocate_atomic_array_empty : ℕ → ScqAlloc
allocate_atomic_array_empty order = record {
  array = allocate_standard_atomic_array (lfring_pow2 (wrapping_add order 1));
  tail = 0;
  thresh = minus_one;
}

unfoldable pub create_const_atomic_array_empty : ℕ → ScqAlloc
create_const_atomic_array_empty size = record {
  array = replicate size minus_one;
  tail = 0;
  thresh = minus_one;
}

unfoldable pub create_const_atomic_array_full : ℕ → Exec ScqAlloc
create_const_atomic_array_full size =
    let half = size / 2 in
    do
      array ← initialize_atomic_array_full (replicate size minus_one) half size
      done (record { array = array; tail = half; thresh = lfring_threshold3 half size })

-- `mode` is the const parameter `MODE`.
unfoldable pub new_from_sqalloc : ℕ → ℕ → ScqAlloc → ScqRing
new_from_sqalloc mode order a = record {
  is_finalized = replicate mode false;
  head = 0;
  tail = a.tail;
  threshold = a.thresh;
  array = a.array;
  order = order;
}

unfoldable pub new_alloc_ring_empty : ℕ → ℕ → ScqRing
new_alloc_ring_empty mode order = new_from_sqalloc mode order (allocate_atomic_array_empty order)

unfoldable pub new_alloc_ring_full : ℕ → ℕ → Exec ScqRing
new_alloc_ring_full mode order = do
  a ← allocate_atomic_array_full order
  done (new_from_sqalloc mode order a)

unfoldable pub new_const_ring_empty : ℕ → ℕ → Exec ScqRing
new_const_ring_empty mode size = do
  order ← determine_order_const size
  done (new_from_sqalloc mode order (create_const_atomic_array_empty size))

unfoldable pub new_const_ring_full : ℕ → ℕ → Exec ScqRing
new_const_ring_full mode size = do
  order ← determine_order_const size
  a ← create_const_atomic_array_full size
  done (new_from_sqalloc mode order a)
