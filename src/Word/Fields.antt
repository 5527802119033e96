-- ===== src/Word/Fields.antt =====
-- `&`, `|` and `^` on words that are made of two fields, `a * 2 ^ k + b` with `b < 2 ^ k`, and what
-- a mask of `k` ones does to a word.
use native.Mathlib.Nat.{pow-suc, one-le-pow, div-add-mod'}
use lfqueue.Base.{ℕ, zero, suc, ◌+◌, ◌-◌, ◌*◌, ◌/◌, ◌%◌, ◌^◌, ◌≤◌, ◌<◌, min, max}
use lfqueue.Base.{bit_and, bit_or, bit_xor, ◌≡◌, refl, ap, arith}
use lfqueue.Word.Bits.{bit_and_step, bit_or_step, bit_xor_step}

double_field : (a k : ℕ) → a * 2 ^ suc k ≡ a * 2 ^ k * 2
double_field a k = omega (arith, ap (λ (t : ℕ). a * t) (pow-suc 2 k))

-- An operation that works digit by digit works field by field.
module _ (op join : ℕ → ℕ → ℕ)
    (step : (x y : ℕ) → op x y ≡ op (x / 2) (y / 2) * 2 + join (x % 2) (y % 2))
    (flat : join 0 0 ≡ 0) where
  op_zero : op 0 0 ≡ 0
  op_zero = omega (arith, step 0 0)

  fieldwise :
      (k a b c d : ℕ)
      → b < 2 ^ k
      → d < 2 ^ k
      → op (a * 2 ^ k + b) (c * 2 ^ k + d) ≡ op a c * 2 ^ k + op b d
  fieldwise zero a b c d p q = ground (arith, op_zero)
  fieldwise (suc k) a b c d p q = ground (
    arith,
    double_field a k,
    double_field c k,
    double_field (op a c) k,
    pow-suc 2 k,
    step (a * 2 ^ suc k + b) (c * 2 ^ suc k + d),
    step b d,
    fieldwise k a (b / 2) c (d / 2),
  )

pub bit_and_fields :
    (k a b c d : ℕ)
    → b < 2 ^ k
    → d < 2 ^ k
    → bit_and (a * 2 ^ k + b) (c * 2 ^ k + d) ≡ bit_and a c * 2 ^ k + bit_and b d
bit_and_fields = fieldwise bit_and min bit_and_step refl

pub bit_or_fields :
    (k a b c d : ℕ)
    → b < 2 ^ k
    → d < 2 ^ k
    → bit_or (a * 2 ^ k + b) (c * 2 ^ k + d) ≡ bit_or a c * 2 ^ k + bit_or b d
bit_or_fields = fieldwise bit_or max bit_or_step refl

pub bit_xor_fields :
    (k a b c d : ℕ)
    → b < 2 ^ k
    → d < 2 ^ k
    → bit_xor (a * 2 ^ k + b) (c * 2 ^ k + d) ≡ bit_xor a c * 2 ^ k + bit_xor b d
bit_xor_fields = fieldwise bit_xor (λ p q. (p + q) % 2) bit_xor_step refl

-- With zero.
and-zero_below : (fuel x : ℕ) → x ≤ fuel → bit_and x 0 ≡ 0
and-zero_below fuel zero h = refl
and-zero_below zero (suc x) h = absurd (omega arith)
and-zero_below (suc fuel) (suc x) h =
    omega (arith, bit_and_step (suc x) 0, and-zero_below fuel (suc x / 2) (omega arith))

or-zero_below : (fuel x : ℕ) → x ≤ fuel → bit_or x 0 ≡ x
or-zero_below fuel zero h = refl
or-zero_below zero (suc x) h = absurd (omega arith)
or-zero_below (suc fuel) (suc x) h =
    omega (arith, bit_or_step (suc x) 0, or-zero_below fuel (suc x / 2) (omega arith))

xor-zero_below : (fuel x : ℕ) → x ≤ fuel → bit_xor x 0 ≡ x
xor-zero_below fuel zero h = refl
xor-zero_below zero (suc x) h = absurd (omega arith)
xor-zero_below (suc fuel) (suc x) h =
    omega (arith, bit_xor_step (suc x) 0, xor-zero_below fuel (suc x / 2) (omega arith))

pub bit_and-zero : (x : ℕ) → bit_and x 0 ≡ 0
bit_and-zero x = and-zero_below x x (omega arith)

pub bit_or-zero : (x : ℕ) → bit_or x 0 ≡ x
bit_or-zero x = or-zero_below x x (omega arith)

pub bit_xor-zero : (x : ℕ) → bit_xor x 0 ≡ x
bit_xor-zero x = xor-zero_below x x (omega arith)

-- With a mask of `k` ones: `&` keeps the low field, `|` fills it, `^` complements it.
and_ones : (k r : ℕ) → r < 2 ^ k → bit_and r (2 ^ k - 1) ≡ r
and_ones zero r h = ground (arith, bit_and-zero 0)
and_ones (suc k) r h =
    ground (arith, pow-suc 2 k, one-le-pow k 2, bit_and_step r (2 ^ suc k - 1), and_ones k (r / 2))

or_ones : (k r : ℕ) → r < 2 ^ k → bit_or r (2 ^ k - 1) ≡ 2 ^ k - 1
or_ones zero r h = ground (arith, bit_or-zero 0)
or_ones (suc k) r h =
    ground (arith, pow-suc 2 k, one-le-pow k 2, bit_or_step r (2 ^ suc k - 1), or_ones k (r / 2))

pub bit_and_mask : (k x : ℕ) → bit_and x (2 ^ k - 1) ≡ x % 2 ^ k
bit_and_mask k x = ground (
  arith,
  one-le-pow k 2,
  div-add-mod' x (2 ^ k),
  bit_and_fields k (x / 2 ^ k) (x % 2 ^ k) 0 (2 ^ k - 1),
  bit_and-zero (x / 2 ^ k),
  and_ones k (x % 2 ^ k),
)

pub bit_or_mask : (k x : ℕ) → bit_or x (2 ^ k - 1) ≡ x / 2 ^ k * 2 ^ k + (2 ^ k - 1)
bit_or_mask k x = ground (
  arith,
  one-le-pow k 2,
  div-add-mod' x (2 ^ k),
  bit_or_fields k (x / 2 ^ k) (x % 2 ^ k) 0 (2 ^ k - 1),
  bit_or-zero (x / 2 ^ k),
  or_ones k (x % 2 ^ k),
)

pub bit_xor_mask : (k x : ℕ) → x < 2 ^ k → bit_xor (2 ^ k - 1) x ≡ 2 ^ k - 1 - x
bit_xor_mask zero x h = ground (arith, bit_xor-zero 0)
bit_xor_mask (suc k) x h =
    ground
      (arith, pow-suc 2 k, one-le-pow k 2, bit_xor_step (2 ^ suc k - 1) x, bit_xor_mask k (x / 2))

pub bit_xor_ones : (k x : ℕ) → x < 2 ^ k → bit_xor x (2 ^ k - 1) ≡ 2 ^ k - 1 - x
bit_xor_ones zero x h = ground (arith, bit_xor-zero 0)
bit_xor_ones (suc k) x h =
    ground
      (arith, pow-suc 2 k, one-le-pow k 2, bit_xor_step x (2 ^ suc k - 1), bit_xor_ones k (x / 2))

-- With the single bit `2 ^ k`.
pub bit_and_bit : (k x : ℕ) → bit_and x (2 ^ k) ≡ x / 2 ^ k % 2 * 2 ^ k
bit_and_bit k x = ground (
  arith,
  one-le-pow k 2,
  div-add-mod' x (2 ^ k),
  bit_and_fields k (x / 2 ^ k) (x % 2 ^ k) 1 0,
  bit_and_mask 1 (x / 2 ^ k),
  bit_and-zero (x % 2 ^ k),
)

pub bit_or_bit : (k x : ℕ) → bit_or x (2 ^ k) ≡ (x / 2 ^ k / 2 * 2 + 1) * 2 ^ k + x % 2 ^ k
bit_or_bit k x = ground (
  arith,
  one-le-pow k 2,
  div-add-mod' x (2 ^ k),
  bit_or_fields k (x / 2 ^ k) (x % 2 ^ k) 1 0,
  bit_or_mask 1 (x / 2 ^ k),
  bit_or-zero (x % 2 ^ k),
)
