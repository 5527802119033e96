-- ===== src/Lfring/Laws.antt =====
-- What the index arithmetic computes at a ring of `2 ^ k` slots.
use native.Mathlib.Nat.{pow-suc, one-le-pow, pow-le-pow_right, mod-eq_of_lt}
use lfqueue.Base.{ℕ, suc, ◌+◌, ◌-◌, ◌*◌, ◌/◌, ◌%◌, ◌^◌, ◌≤◌, ◌<◌, compare, Ordering}
use lfqueue.Base.{◌≡◌, arith}
use lfqueue.Word.{sign_bit, minus_one}
use lfqueue.Word.Fields.{bit_and_mask, bit_or_mask}
use lfqueue.Lfring.{lfring_pow2, modup, lfring_map, lfring_signed_cmp}

pub pow-le_63 : (k : ℕ) → k ≤ 63 → 2 ^ k ≤ sign_bit
pow-le_63 k h = pow-le-pow_right {n = 2} (omega arith) h

pub pow-le_60 : (k : ℕ) → k ≤ 60 → 2 ^ k ≤ 2 ^ 60
pow-le_60 k h = pow-le-pow_right {n = 2} (omega arith) h

pub lfring_pow2_lem : (k : ℕ) → k ≤ 63 → lfring_pow2 k ≡ 2 ^ k
unfolding lfring_pow2
lfring_pow2_lem k h =
    rw (mod-eq_of_lt {n = k} {m = 64} (omega arith)) (omega (arith, pow-le_63 k h))

-- The slot of a ticket is its remainder by the number of slots.
pub lfring_map_lem : (k x : ℕ) → k ≤ 63 → lfring_map x (2 ^ k) ≡ x % 2 ^ k
unfolding lfring_map
lfring_map_lem k x h = ground (arith, pow-le_63 k h, one-le-pow k 2, bit_and_mask k x)

-- With `n = 2 ^ k` and `k ≤ 62`, `modup` sets the low `k + 1` bits of a number and keeps the
-- others.
pub modup_lem : (k x : ℕ) → k ≤ 62 → modup x (2 ^ k) ≡ x / 2 ^ suc k * 2 ^ suc k + (2 ^ suc k - 1)
unfolding modup
modup_lem k x h =
    ground
      (arith, pow-suc 2 k, one-le-pow k 2, pow-le_63 (suc k) (omega arith), bit_or_mask (suc k) x)

pub signed_cmp_small : (a b : ℕ) → a < sign_bit → b < sign_bit → lfring_signed_cmp a b ≡ compare a b
unfolding lfring_signed_cmp
signed_cmp_small a b ha hb = ground arith

pub signed_cmp_minus_one : (b : ℕ) → b < sign_bit - 1 → lfring_signed_cmp minus_one b ≡ Ordering.lt
unfolding lfring_signed_cmp
signed_cmp_minus_one b hb = ground arith
