-- ===== src/Ring/Entry.antt =====
-- The words of the array. With `n` slots, an entry is `cycle * 2 * n + safe * n + index`, where the
-- index `n - 1` says that the slot is empty.
use native.Mathlib.Nat.{pow-succ', one-le-pow, add_assoc, mul_comm, div-add-mod'}
use lfqueue.Base.{ℕ, suc, ◌+◌, ◌-◌, ◌*◌, ◌/◌, ◌%◌, ◌^◌, ◌≤◌, ◌<◌, ◌≡◌, ◌≢◌, ap, ◌∙◌, arith}
use lfqueue.Base.{bit_and, bit_or, bit_xor, ◌⊎◌, zero, refl, leb, if◌then◌else◌, true}
use lfqueue.Word.{word_mod, sign_bit, minus_one, bit_not, shift_left}
use lfqueue.Word.Fields.{
  bit_xor_fields, bit_xor_mask, bit_xor_ones, bit_xor-zero, bit_and_mask, bit_or_mask, bit_and_bit,
  bit_or_bit,
}
use lfqueue.Lfring.{modup, is_lt, lfring_signed_cmp}
use lfqueue.Lfring.Laws.{modup_lem, pow-le_60, signed_cmp_small, signed_cmp_minus_one}
use lfqueue.Ring.{take, wait, swap, look}

-- The word that a ticket compares entries with: its cycle, and ones below.
abbrev pub cycle_word : ℕ → ℕ → ℕ
cycle_word n t = t / n * (2 * n) + (2 * n - 1)

-- The entry that holds the index `i` for the ticket `t`.
abbrev pub live : ℕ → ℕ → ℕ → ℕ
live n t i = t / n * (2 * n) + n + i

-- An empty and safe entry, of a cycle before that of the ticket `t` or never used.
abbrev pub IsFree : ℕ → ℕ → ℕ → Type 0
IsFree n t e = (e % (2 * n) ≡ 2 * n - 1) × ((e ≡ minus_one) ⊎ (e < t / n * (2 * n)))

-- A number by its quotient and remainder.
pub div_fields : (q m r : ℕ) → r < m → (q * m + r) / m ≡ q
div_fields q m r h = grind arith

pub mod_fields : (q m r : ℕ) → r < m → (q * m + r) % m ≡ r
mod_fields q m r h = grind arith

split_live : (q m i : ℕ) → q * (2 * m) + m + i ≡ (q * 2 + 1) * m + i
split_live q m i = omega arith

pub double_ticket : (t m : ℕ) → t * 2 ≡ t / m * (2 * m) + 2 * (t % m)
double_ticket t m = omega (arith, div-add-mod' t m, assoc (t / m) m)
  where
    assoc : (a b : ℕ) → a * (2 * b) ≡ 2 * (a * b)
    assoc a b = omega arith

module _ (k : ℕ) (small : k ≤ 62) where
  abbrev n : ℕ
  n = 2 ^ k

  modup_div : (x : ℕ) → modup x n ≡ x / (2 * n) * (2 * n) + (2 * n - 1)
  modup_div x = rw (← pow-succ' 2 k) (modup_lem k x small)

  modup_fields : (q r : ℕ) → r < 2 * n → modup (q * (2 * n) + r) n ≡ q * (2 * n) + (2 * n - 1)
  modup_fields q r h = rw (modup_div (q * (2 * n) + r), div_fields q (2 * n) r h)

  pub ticket_cycle : (t : ℕ) → t < sign_bit → modup (shift_left t 1) n ≡ cycle_word n t
  ticket_cycle t h =
      let word : shift_left t 1 ≡ t / n * (2 * n) + 2 * (t % n) =
        omega (arith, double_ticket t n) in
      rw word (modup_fields (t / n) (2 * (t % n)) (omega (arith, one-le-pow k 2)))

  pub live_word : (t i : ℕ) → i < n → bit_xor (cycle_word n t) (bit_xor i (n - 1)) ≡ live n t i
  live_word t i h = rw (bit_xor_ones k i h) (
      ground (
        arith,
        pow-succ' 2 k,
        bit_xor_fields (suc k) (t / n) (2 * n - 1) 0 (n - 1 - i),
        bit_xor-zero (t / n),
        bit_xor_mask (suc k) (n - 1 - i),
      ))

  pub modup-live : (t i : ℕ) → i < n → modup (live n t i) n ≡ cycle_word n t
  modup-live t i h =
      rw (add_assoc (t / n * (2 * n)) n i) (modup_fields (t / n) (n + i) (omega arith))

  pub modup-free : (e : ℕ) → e % (2 * n) ≡ 2 * n - 1 → modup e n ≡ e
  modup-free e h = omega (arith, modup_div e, div-add-mod' e (2 * n))

  pub index-live : (t i : ℕ) → i < n → bit_and (live n t i) (n - 1) ≡ i
  index-live t i h =
      bit_and_mask k (live n t i) ∙ rw (split_live (t / n) n i) (mod_fields (t / n * 2 + 1) n i h)

  pub empty-live : (t i : ℕ) → i < n → bit_or (live n t i) (n - 1) ≡ cycle_word n t
  empty-live t i h =
      bit_or_mask k (live n t i)
      ∙ rw (split_live (t / n) n i, div_fields (t / n * 2 + 1) n i h)
          (omega (arith, one-le-pow k 2, split_live (t / n) n (n - 1)))

-- 2 ^ 64 is a multiple of each smaller power of two.
pub word_splits : (j i : ℕ) → i + j ≡ 64 → word_mod ≡ 2 ^ i * 2 ^ j
word_splits zero i e = rw (let all : i ≡ 64 = omega arith in all) refl
word_splits (suc j) i e =
    word_splits j (suc i) (omega arith) ∙ rw (pow-succ' 2 i, pow-succ' 2 j) (omega arith)

-- The digit of an empty, safe entry at `m` and, in its complement, the lack of it.
empty_parts : (e m : ℕ) → 0 < m → e % (2 * m) ≡ 2 * m - 1 → e ≡ (e / (2 * m) * 2 + 1) * m + (m - 1)
empty_parts e m pos h = omega (arith, div-add-mod' e (2 * m), split_live (e / (2 * m)) m (m - 1))

even_digit : (x m : ℕ) → x * 2 % 2 * m ≡ 0
even_digit x m = rw (let even : x * 2 % 2 ≡ 0 = omega arith in even) (omega arith)

pub covered : (q w m : ℕ) → 0 < m → q * m < w * m → q < w
covered q w m pos h = grind arith

complement :
    (e w m : ℕ)
    → 0 < m
    → e % (2 * m) ≡ 2 * m - 1
    → e < w * (2 * m)
    → w * (2 * m) - 1 - e ≡ (w - 1 - e / (2 * m)) * 2 * m + 0
complement e w m pos h lt =
    let q = e / (2 * m) in
    let qw : q < w = covered q w (2 * m) (omega arith) (omega (arith, div-add-mod' e (2 * m))) in
    let split : w ≡ (w - 1 - q) + 1 + q = omega arith in
    omega (arith, div-add-mod' e (2 * m), ap (λ (x : ℕ). x * (2 * m)) split)

module _ (k : ℕ) (small : k ≤ 60) where
  -- What `dequeue` does about the entry of its ticket.
  pub look-live :
      (t i attempt : ℕ)
      → i < 2 ^ k
      → look (2 ^ k) (cycle_word (2 ^ k) t) attempt (live (2 ^ k) t i) ≡ take
  unfolding look
  look-live t i attempt h = ground (arith, modup-live k (omega arith) t i h)

  or_safe : (e : ℕ) → e % (2 * 2 ^ k) ≡ 2 * 2 ^ k - 1 → bit_or e (2 ^ k) ≡ e
  or_safe e h =
      let pos : 0 < 2 ^ k = one-le-pow k 2 (omega arith) in
      let parts = empty_parts e (2 ^ k) pos h in
      let q = e / (2 * 2 ^ k) in
      let digit : e / 2 ^ k ≡ q * 2 + 1 =
        ap (λ x. x / 2 ^ k) parts ∙ div_fields (q * 2 + 1) (2 ^ k) (2 ^ k - 1) (omega arith) in
      bit_or_bit k e
      ∙ rw digit (
          rw (let odd : (q * 2 + 1) / 2 * 2 + 1 ≡ q * 2 + 1 = omega arith in odd)
            (omega (arith, div-add-mod' e (2 ^ k), ap (λ (x : ℕ). x * 2 ^ k) digit)))

  not_safe :
      (e : ℕ) → e < word_mod → e % (2 * 2 ^ k) ≡ 2 * 2 ^ k - 1 → bit_and (bit_not e) (2 ^ k) ≡ 0
  not_safe e w h =
      let pos : 0 < 2 ^ k = one-le-pow k 2 (omega arith) in
      let word : word_mod ≡ 2 ^ (63 - k) * (2 * 2 ^ k) =
        word_splits (63 - k) (suc k) (omega arith) ∙ rw (pow-succ' 2 k) (mul_comm _ _) in
      let rest = 2 ^ (63 - k) - 1 - e / (2 * 2 ^ k) in
      let ones : minus_one ≡ 2 ^ (63 - k) * (2 * 2 ^ k) - 1 = omega (arith, word) in
      let shape : bit_not e ≡ rest * 2 * 2 ^ k + 0 =
        ap (λ x. x - e) ones ∙ complement e (2 ^ (63 - k)) (2 ^ k) pos h (omega (arith, word)) in
      bit_and_bit k (bit_not e)
      ∙ rw (shape, div_fields (rest * 2) (2 ^ k) 0 pos) (even_digit rest (2 ^ k))

  pub look-free :
      (e hcycle attempt : ℕ)
      → e < word_mod
      → e % (2 * 2 ^ k) ≡ 2 * 2 ^ k - 1
      → e ≢ hcycle
      → look (2 ^ k) hcycle attempt e
        ≡ (if leb (attempt + 1) 10 then wait else swap hcycle (attempt + 1))
  unfolding look
  look-free e hcycle attempt w h ne =
      ground
        (arith, modup-free k (omega arith) e h, or_safe e h, not_safe e w h, bit_xor-zero hcycle)

  pub free-before :
      (e t : ℕ)
      → IsFree (2 ^ k) t e
      → t < 2 ^ 61
      → is_lt (lfring_signed_cmp e (cycle_word (2 ^ k) t)) ≡ true
  free-before e t f young = ground (
    arith,
    signed_cmp_minus_one (cycle_word (2 ^ k) t),
    signed_cmp_small e (cycle_word (2 ^ k) t),
    one-le-pow k 2,
    pow-le_60 k small,
    div-add-mod' t (2 ^ k),
    double_ticket t (2 ^ k),
  )
