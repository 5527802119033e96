-- ===== src/Lfring/Order.antt =====
-- The order that `determine_order` finds: the largest power of two that fits in the length.
use native.Mathlib.Nat.{pow-suc, one-le-pow, pow-le-pow_right}
use lfqueue.Base.{ℕ, zero, suc, ◌*◌, ◌/◌, ◌%◌, ◌^◌, ◌≤◌, ◌<◌, ◌≡◌, refl, ap, ◌∙◌, subst, arith}
use lfqueue.Base.{none, some, done, panic, ◌⊎◌, inl, inr, dec_lt, ℕ_discrete, ◌↔◌}
use lfqueue.Word.{word_mod}
use lfqueue.Lfring.{ilog2_within, checked_ilog2, determine_order, determine_order_const}

-- `2 ^ k` is the largest power of two up to `x`.
pub record IsLog (x k : ℕ) : Type 0 where
  pub below : 2 ^ k ≤ x
  pub above : x < 2 ^ suc k

IsLog-double : (x k : ℕ) → IsLog (x / 2) k → IsLog x (suc k)
IsLog-double x k h = omega (arith, pow-suc 2 k, pow-suc 2 (suc k))

pub IsLog-half : (x k : ℕ) → IsLog x k → IsLog (2 * x) (suc k)
IsLog-half x k h = omega (arith, pow-suc 2 k, pow-suc 2 (suc k))

ilog2_within-IsLog :
    (fuel x : ℕ) → 0 < x → x < 2 ^ fuel → (k : ℕ) × (ilog2_within fuel x ≡ some k) × IsLog x k
unfolding ilog2_within
ilog2_within-IsLog zero x p h = absurd (omega arith)
ilog2_within-IsLog (suc fuel) x p h = elim (dec_lt 1 x) [
  | yes more ↦
      let (k, e, l) =
        ilog2_within-IsLog fuel (x / 2) (omega arith) (omega (arith, pow-suc 2 fuel)) in
      (suc k, ground arith, IsLog-double x k l)
  | no one ↦ (0, ground arith, omega arith)
]

not-shorter : (x j k : ℕ) → IsLog x j → IsLog x k → j < k → ⊥
not-shorter x j k a b h = omega (arith, pow-le-pow_right {n = 2} (omega arith) h)

IsLog-unique : (x j k : ℕ) → IsLog x j → IsLog x k → j ≡ k
IsLog-unique x j k a b = elim (dec_lt j k) [
  | yes lt ↦ absurd (not-shorter x j k a b lt)
  | no ge ↦ elim (dec_lt k j) [ yes gt ↦ absurd (not-shorter x k j b a gt) | no le ↦ omega arith ]
]

pub IsLog-pow : (k : ℕ) → IsLog (2 ^ k) k
IsLog-pow k = omega (arith, pow-suc 2 k, one-le-pow k 2)

checked_ilog2-IsLog :
    (x : ℕ) → 0 < x → x < word_mod → (k : ℕ) × (checked_ilog2 x ≡ some k) × IsLog x k
unfolding checked_ilog2
checked_ilog2-IsLog x p h = ilog2_within-IsLog 64 x p h

pub checked_ilog2_lem : (x k : ℕ) → x < word_mod → IsLog x k → checked_ilog2 x ≡ some k
checked_ilog2_lem x k h l =
    let (j, e, m) = checked_ilog2-IsLog x (omega (arith, one-le-pow k 2)) h in
    e ∙ ap some (IsLog-unique x j k m l)

checked_ilog2-zero : checked_ilog2 0 ≡ none
unfolding checked_ilog2
checked_ilog2-zero = refl

-- The lengths that pass the assertion of `determine_order`.
abbrev pub IsAccepted : ℕ → Type 0
IsAccepted length = (0 < length) × ((length % 2 ≡ 0) ⊎ (length ≡ 1))

pub IsAccepted-pow : (order : ℕ) → IsAccepted (2 ^ order)
IsAccepted-pow zero = (omega arith, inr refl)
IsAccepted-pow (suc order) =
    (omega (arith, one-le-pow (suc order) 2), inl (omega (arith, pow-suc 2 order)))

determine_order_accepts :
    (length k : ℕ)
    → length < word_mod
    → IsAccepted length
    → IsLog length k
    → determine_order length ≡ done k
unfolding determine_order
determine_order_accepts length k h a l = ground (arith, checked_ilog2_lem length k h l)

determine_order_rejects : (length : ℕ) → ¬ IsAccepted length → determine_order length ≡ panic
unfolding determine_order
determine_order_rejects zero n = rw checked_ilog2-zero
determine_order_rejects (suc l) n = elim (ℕ_discrete (suc l % 2) 0) [
  | yes even ↦ absurd (n (omega arith, inl even))
  | no odd ↦ elim (ℕ_discrete (suc l) 1) [
    | yes one ↦ absurd (n (omega arith, inr one))
    | no more ↦ ground arith
  ]
]

IsAccepted-dec : (length : ℕ) → Dec (IsAccepted length)
IsAccepted-dec length = elim (dec_lt 0 length) [
  | yes pos ↦ elim (ℕ_discrete (length % 2) 0) [
    | yes even ↦ yes (pos, inl even)
    | no odd ↦ elim (ℕ_discrete length 1) [
      | yes one ↦ yes (pos, inr one)
      | no more ↦ no (λ a. ground arith)
    ]
  ]
  | no none_left ↦ no (λ a. none_left a.0)
]

-- For a length below 2 ^ 64, `determine_order` returns `order` exactly when the length is even or
-- 1, is not 0, and `2 ^ order` is the largest power of two that does not exceed it; for any other
-- length it panics.
pub determine_order_exact :
    (length order : ℕ)
    → length < word_mod
    → ((determine_order length ≡ done order) ↔ (IsAccepted length × IsLog length order))
      × (¬ IsAccepted length → determine_order length ≡ panic)
determine_order_exact length order h = (
  (
    λ e. elim (IsAccepted-dec length) [
      | yes a ↦
          let (k, f, l) = checked_ilog2-IsLog length a.0 h in
          let same : k ≡ order = done-injective (determine_order_accepts length k h a l) e in
          (a, subst (λ o. IsLog length o) same l)
      | no n ↦ cc (determine_order_rejects length n)
    ],
    λ p. determine_order_accepts length order h p.0 p.1,
  ),
  determine_order_rejects length,
)
  where
    done-injective :
        {k : ℕ} → determine_order length ≡ done k → determine_order length ≡ done order → k ≡ order
    done-injective p q = cc

lt-two-pow : (k : ℕ) → k < 2 ^ k
lt-two-pow zero = omega arith
lt-two-pow (suc k) = omega (arith, pow-suc 2 k, lt-two-pow k)

-- With `2 * size` below 2 ^ 64, a constant ring of `2 * size` slots has the order `order` where `2
-- ^ order` is the largest power of two up to `size`, whatever the parity of `size`.
pub determine_order_const_lem :
    (size order : ℕ)
    → 2 * size < word_mod
    → IsLog size order
    → determine_order_const (2 * size) ≡ done order
unfolding determine_order_const
determine_order_const_lem size order h l =
    ground (
      arith,
      lt-two-pow order,
      checked_ilog2_lem (2 * size) (suc order) h (IsLog-half size order l),
    )
