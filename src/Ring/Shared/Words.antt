-- ===== src/Ring/Shared/Words.antt =====
-- The words of the array by their three fields: the cycle, the safe bit and the index.
use native.Mathlib.Nat.{pow-succ', one-le-pow, mod-eq_of_lt, div-add-mod'}
use lfqueue.Base.{ℕ, suc, ◌+◌, ◌-◌, ◌*◌, ◌/◌, ◌%◌, ◌^◌, ◌≤◌, ◌<◌, ◌≡◌, refl, arith, ap, sym, ◌∙◌}
use lfqueue.Base.{bit_and, bit_or, bit_xor}
use lfqueue.Word.{word_mod, minus_one, bit_not}
use lfqueue.Word.Fields.{
  bit_xor_fields, bit_and_fields, bit_and-zero, bit_xor-zero, bit_and_mask, bit_or_mask,
  bit_and_bit, bit_or_bit,
}
use lfqueue.Lfring.{modup}
use lfqueue.Lfring.Laws.{modup_lem, pow-le_60}
use lfqueue.Ring.Entry.{cycle_word, live, div_fields, mod_fields, word_splits, covered}

-- With `n` slots: the word of the cycle `q`, the safe bit `s` and the index `i`.
abbrev pub word : ℕ → ℕ → ℕ → ℕ → ℕ
word n q s i = (q * 2 + s) * n + i

module _ (n q s i : ℕ) (bit : s < 2) (fits : i < n) where
  word_div : word n q s i / n ≡ q * 2 + s
  word_div = div_fields (q * 2 + s) n i fits

  pub word_idx : word n q s i % n ≡ i
  word_idx = mod_fields (q * 2 + s) n i fits

  pub word_safe : word n q s i / n % 2 ≡ s
  word_safe = ap (λ x. x % 2) word_div ∙ omega arith

  pub word_cycle : word n q s i / n / 2 ≡ q
  word_cycle = ap (λ x. x / 2) word_div ∙ omega arith

pub word_split :
    (n e : ℕ) → 0 < n → (e ≡ word n (e / n / 2) (e / n % 2) (e % n)) × (e / n % 2 < 2) × (e % n < n)
word_split n e pos = (
  (let digit : e / n / 2 * 2 + e / n % 2 ≡ e / n = omega arith in
      rw digit (sym (div-add-mod' e n))),
  omega arith,
  omega arith,
)

pub bit_times : (s n : ℕ) → s < 2 → s * n ≤ n
bit_times s n h = grind arith

-- The complement of a number, by its fields.
complement_fields :
    (v n q s i : ℕ)
    → s < 2
    → i < n
    → q < v
    → v * 2 * n - 1 - word n q s i ≡ word n (v - 1 - q) (1 - s) (n - 1 - i)
complement_fields v n q s i bit fits lt =
    let split : v ≡ (v - 1 - q) + 1 + q = omega arith in
    let digit : s + (1 - s) ≡ 1 = omega arith in
    omega (arith, ap (λ (x : ℕ). x * 2 * n) split, ap (λ (x : ℕ). x * n) digit)

xor_one : (q : ℕ) → bit_xor (q * 2 + 1) 1 ≡ q * 2
xor_one q = bit_xor_fields 1 q 1 0 1 (omega arith) (omega arith) ∙ rw (bit_xor-zero q) (omega arith)

and_even : (j q s : ℕ) → s < 2 → q < 2 ^ j → bit_and (q * 2 + s) (2 ^ j * 2 - 2) ≡ q * 2
and_even j q s bit lt =
    let even : 2 ^ j * 2 - 2 ≡ (2 ^ j - 1) * 2 + 0 = omega arith in
    rw even (
      bit_and_fields 1 q s (2 ^ j - 1) 0 bit (omega arith)
      ∙ rw (bit_and_mask j q, mod-eq_of_lt {n = q} {m = 2 ^ j} lt, bit_and-zero s) (omega arith))

module _ (k : ℕ) (small : k ≤ 60) where
  abbrev n : ℕ
  n = 2 ^ k

  pub pos : 0 < n
  pos = one-le-pow k 2 (omega arith)

  module _ (q s i : ℕ) (bit : s < 2) (fits : i < n) where
    pub modup-word : modup (word n q s i) n ≡ word n q 1 (n - 1)
    modup-word =
        let double : 2 ^ suc k ≡ 2 * n = pow-succ' 2 k in
        let low : s * n + i < 2 * n = omega (arith, bit_times s n bit) in
        let shape : word n q s i ≡ q * (2 * n) + (s * n + i) = omega arith in
        modup_lem k (word n q s i) (omega arith)
        ∙ rw (double, shape, div_fields q (2 * n) (s * n + i) low) (omega (arith, pos))

    pub or_mask-word : bit_or (word n q s i) (n - 1) ≡ word n q s (n - 1)
    or_mask-word = bit_or_mask k (word n q s i) ∙ rw (word_div n q s i bit fits) refl

    pub and_mask-word : bit_and (word n q s i) (n - 1) ≡ i
    and_mask-word = bit_and_mask k (word n q s i) ∙ word_idx n q s i bit fits

    pub or_bit-word : bit_or (word n q s i) n ≡ word n q 1 i
    or_bit-word =
        bit_or_bit k (word n q s i)
        ∙ rw (word_cycle n q s i bit fits, word_idx n q s i bit fits) refl

    halves : word_mod ≡ 2 ^ (63 - k) * 2 * n
    halves =
        word_splits k (64 - k) (omega arith)
        ∙ rw (let up : 64 - k ≡ suc (63 - k) = omega arith in up, pow-succ' 2 (63 - k))
            (omega arith)

    cycle_below : word n q s i < word_mod → q < 2 ^ (63 - k)
    cycle_below below =
        covered q (2 ^ (63 - k)) (2 * n) (omega (arith, pos)) (omega (arith, halves))

    -- The bit `n` of the complement.
    pub not-word : word n q s i < word_mod → bit_and (bit_not (word n q s i)) n ≡ (1 - s) * n
    not-word below =
        let v = 2 ^ (63 - k) in
        let shape : bit_not (word n q s i) ≡ word n (v - 1 - q) (1 - s) (n - 1 - i) =
          omega (arith, halves, complement_fields v n q s i bit fits (cycle_below below)) in
        rw shape (
          bit_and_bit k (word n (v - 1 - q) (1 - s) (n - 1 - i))
          ∙ rw (word_safe n (v - 1 - q) (1 - s) (n - 1 - i) (omega arith) (omega arith)) refl)

    pub clear-word : word n q s i < word_mod → bit_and (word n q s i) (bit_not n) ≡ word n q 0 i
    clear-word below =
        let v = 2 ^ (63 - k) in
        let split : v ≡ (v - 1) + 1 = omega (arith, one-le-pow (63 - k) 2) in
        let even : v * 2 - 2 ≡ (v - 1) * 2 = omega arith in
        let mask : bit_not n ≡ (v * 2 - 2) * n + (n - 1) =
          rw even (omega (arith, halves, pos, ap (λ (x : ℕ). x * 2 * n) split)) in
        rw mask (
          bit_and_fields k (q * 2 + s) i (v * 2 - 2) (n - 1) fits (omega (arith, pos))
          ∙ rw
              (
                and_even (63 - k) q s bit (cycle_below below),
                bit_and_mask k i,
                mod-eq_of_lt {n = i} {m = n} fits,
              )
              (omega arith))

  pub xor_bit-word : (q : ℕ) → bit_xor (word n q 1 (n - 1)) n ≡ word n q 0 (n - 1)
  xor_bit-word q =
      let one : bit_xor (word n q 1 (n - 1)) (1 * n + 0)
          ≡ bit_xor (q * 2 + 1) 1 * n + bit_xor (n - 1) 0 =
        bit_xor_fields k (q * 2 + 1) (n - 1) 1 0 (omega (arith, pos)) pos in
      ap (bit_xor (word n q 1 (n - 1))) (let same : n ≡ 1 * n + 0 = omega arith in same)
      ∙ one
      ∙ rw (xor_one q, bit_xor-zero (n - 1)) (omega arith)

  pub cycle_word-word : (t : ℕ) → cycle_word n t ≡ word n (t / n) 1 (n - 1)
  cycle_word-word t = omega (arith, pos)

  pub live-word : (t i : ℕ) → live n t i ≡ word n (t / n) 1 i
  live-word t i = omega arith

  -- 2 ^ 63 by the slots.
  half_word : 2 ^ 63 ≡ 2 ^ (62 - k) * (2 * n)
  half_word =
      let all : word_mod ≡ 2 ^ (63 - k) * 2 * n =
        word_splits k (64 - k) (omega arith)
        ∙ rw (let up : 64 - k ≡ suc (63 - k) = omega arith in up, pow-succ' 2 (63 - k))
            (omega arith) in
      let up : 2 ^ (63 - k) ≡ 2 * 2 ^ (62 - k) =
        (let next : 63 - k ≡ suc (62 - k) = omega arith in rw next (pow-succ' 2 (62 - k))) in
      omega (arith, all, ap (λ (x : ℕ). x * 2 * n) up)

  -- The word of a cycle stays below 2 ^ 63 with its other fields filled.
  pub full_below : (q s i : ℕ) → word n q s i < 2 ^ 63 → word n q 1 (n - 1) < 2 ^ 63
  full_below q s i below =
      let lt = covered q (2 ^ (62 - k)) (2 * n) (omega (arith, pos)) (omega (arith, half_word)) in
      omega (arith, half_word, pos, times (q + 1) (2 ^ (62 - k)) (2 * n) (omega (arith, lt)))
    where
      times : (x y m : ℕ) → x ≤ y → x * m ≤ y * m
      times x y m h = grind arith

  pub ones-word : minus_one ≡ word n (2 ^ (62 - k) * 2 - 1) 1 (n - 1)
  ones-word =
      let top = 2 ^ (62 - k) * 2 in
      let split : top ≡ (top - 1) + 1 = omega (arith, one-le-pow (62 - k) 2) in
      omega (arith, half_word, pos, ap (λ (x : ℕ). x * 2 * n) split)

  -- The cycle of a ticket is below that of the word of ones.
  pub ticket_below : (t : ℕ) → t < 2 ^ 61 → t / n < 2 ^ (62 - k) * 2 - 1
  ticket_below t young =
      let lt =
        covered (t / n + 1) (2 ^ (62 - k) * 2) (2 * n) (omega (arith, pos))
          (omega (arith, half_word, div-add-mod' t n, pow-le_60 k small)) in
      omega (arith, lt)
