-- ===== src/Ring/Shared/Fields.antt =====
-- The fields of a word, and the words of the empty and the filled entries by their fields.
use native.Mathlib.Nat.{div-add-mod'}
use lfqueue.Base.{ℕ, suc, ◌-◌, ◌*◌, ◌/◌, ◌%◌, ◌^◌, ◌≤◌, ◌<◌, ◌≡◌, ◌≢◌, refl, arith, ap, sym, ◌∙◌}
use lfqueue.Base.{Bool-cases, if◌then◌else◌, ◌==◌, ==_iff, ne→==, bit_or, bit_xor, ◌⊎◌, inl, inr}
use lfqueue.Word.{minus_one}
use lfqueue.Lfring.{modup}
use lfqueue.Lfring.Laws.{pow-le_60}
use lfqueue.Ring.Entry.{live}
use lfqueue.Ring.Shared.Words.{
  bit_times, word, word_split, word_idx, word_safe, word_cycle, pos, modup-word, or_mask-word,
  xor_bit-word, live-word, full_below, ones-word, ticket_below,
}

-- With `n` slots: the fields of a word. The age of a word that was never used is 0, and else the
-- cycle and one.
abbrev pub idx : ℕ → ℕ → ℕ
idx n e = e % n

abbrev pub safe : ℕ → ℕ → ℕ
safe n e = e / n % 2

abbrev pub age : ℕ → ℕ → ℕ
age n e = if e == minus_one then 0 else suc (e / n / 2)

-- The age of the entries of a ticket.
abbrev pub age_of : ℕ → ℕ → ℕ
age_of n t = suc (t / n)

-- A word that was never used, or one of a ticket.
abbrev pub IsWord : ℕ → Type 0
IsWord e = (e ≡ minus_one) ⊎ (e < 2 ^ 63)

module _ (k : ℕ) (small : k ≤ 60) where
  abbrev n : ℕ
  n = 2 ^ k

  module _ (q s i : ℕ) (bit : s < 2) (fits : i < n) where
    pub age-word : word n q s i < 2 ^ 63 → age n (word n q s i) ≡ suc q
    age-word below =
        let used = ne→== (word n q s i) minus_one (λ e. omega arith) in
        rw used (ap suc (word_cycle n q s i bit fits))

  -- The cycle of a ticket is small.
  pub cycle_small : (t : ℕ) → t < 2 ^ 61 → word n (t / n) 1 (n - 1) < 2 ^ 63 - 1
  cycle_small t young = omega (arith, pos k small, pow-le_60 k small, div-add-mod' t n)

  pub minus_one-cycle : minus_one / n / 2 ≡ 2 ^ (62 - k) * 2 - 1
  minus_one-cycle =
      ap (λ (x : ℕ). x / n / 2) (ones-word k small)
      ∙ word_cycle n (2 ^ (62 - k) * 2 - 1) 1 (n - 1) (omega arith) (omega (arith, pos k small))

  -- An age by its cycle.
  pub age_same : (e t : ℕ) → t < 2 ^ 61 → e / n / 2 ≡ t / n → age n e ≡ age_of n t
  age_same e t young same = elim (Bool-cases (e == minus_one)) [
    | inl h ↦
        let ones : e ≡ minus_one = (==_iff e minus_one).0 h in
        let cycle : e / n / 2 ≡ 2 ^ (62 - k) * 2 - 1 =
          ap (λ (x : ℕ). x / n / 2) ones ∙ minus_one-cycle in
        absurd (omega (arith, cycle, same, ticket_below k small t young))
    | inr h ↦ rw h (ap suc same)
  ]

  pub age_other : (e t : ℕ) → e / n / 2 ≢ t / n → age n e ≢ age_of n t
  age_other e t other same = elim (Bool-cases (e == minus_one)) [
    | inl h ↦ let zero_age : age n e ≡ 0 = rw h refl in omega (arith, zero_age, same)
    | inr h ↦
        let one_more : age n e ≡ suc (e / n / 2) = rw h refl in
        other (omega (arith, one_more, same))
  ]

  module _ (e : ℕ) where
    abbrev q : ℕ
    q = e / n / 2

    pub shape : e ≡ word n q (safe n e) (idx n e)
    shape = (word_split n e (pos k small)).0

    pub bit : safe n e < 2
    bit = (word_split n e (pos k small)).1

    pub fits : idx n e < n
    fits = (word_split n e (pos k small)).2

    pub cycle_of : modup e n ≡ word n q 1 (n - 1)
    cycle_of = ap (λ (x : ℕ). modup x n) shape ∙ modup-word k small q (safe n e) (idx n e) bit fits

  pub empty_safe : (e : ℕ) → e ≡ modup e n → (idx n e ≡ n - 1) × (safe n e ≡ 1)
  empty_safe e h =
      let same : e ≡ word n (q e) 1 (n - 1) = h ∙ cycle_of e in
      let top : n - 1 < n = omega (arith, pos k small) in
      (
        ap (λ (x : ℕ). x % n) same ∙ word_idx n (q e) 1 (n - 1) (omega arith) top,
        ap (λ (x : ℕ). x / n % 2) same ∙ word_safe n (q e) 1 (n - 1) (omega arith) top,
      )

  pub empty_unsafe : (e : ℕ) → e ≡ bit_xor (modup e n) n → (idx n e ≡ n - 1) × (safe n e ≡ 0)
  empty_unsafe e h =
      let same : e ≡ word n (q e) 0 (n - 1) =
        h ∙ ap (λ (x : ℕ). bit_xor x n) (cycle_of e) ∙ xor_bit-word k small (q e) in
      let top : n - 1 < n = omega (arith, pos k small) in
      (
        ap (λ (x : ℕ). x % n) same ∙ word_idx n (q e) 0 (n - 1) (omega arith) top,
        ap (λ (x : ℕ). x / n % 2) same ∙ word_safe n (q e) 0 (n - 1) (omega arith) top,
      )

  -- A word below 2 ^ 63.
  pub record HasFields (e q s i : ℕ) : Type 0 where
    pub age_is : age n e ≡ suc q
    pub safe_is : safe n e ≡ s
    pub idx_is : idx n e ≡ i

  pub parts_of : (e q s i : ℕ) → e ≡ word n q s i → s < 2 → i < n → e < 2 ^ 63 → HasFields e q s i
  parts_of e q s i h bit fits below = record {
    age_is =
        rw (ne→== e minus_one (λ o. omega arith))
          (ap suc (ap (λ (x : ℕ). x / n / 2) h ∙ word_cycle n q s i bit fits));
    safe_is = ap (λ (x : ℕ). x / n % 2) h ∙ word_safe n q s i bit fits;
    idx_is = ap (λ (x : ℕ). x % n) h ∙ word_idx n q s i bit fits;
  }

  module _ (t i : ℕ) (young : t < 2 ^ 61) (small_index : i < n) where
    pub live_fields :
        (age n (live n t i) ≡ age_of n t)
        × (safe n (live n t i) ≡ 1)
        × (idx n (live n t i) ≡ i)
        × IsWord (live n t i)
    live_fields =
        let below : live n t i < 2 ^ 63 =
          omega (arith, cycle_small t young, live-word k small t i) in
        let f =
          parts_of (live n t i) (t / n) 1 i (live-word k small t i) (omega arith) small_index
            below in
        (f.age_is, f.safe_is, f.idx_is, inr below)

  module _ (e : ℕ) (below : e < 2 ^ 63) where
    pub taken_fields :
        (age n (bit_or e (n - 1)) ≡ age n e)
        × (safe n (bit_or e (n - 1)) ≡ safe n e)
        × (idx n (bit_or e (n - 1)) ≡ n - 1)
        × (bit_or e (n - 1) < 2 ^ 63)
    taken_fields =
        let mine = parts_of e (q e) (safe n e) (idx n e) (shape e) (bit e) (fits e) below in
        let new : bit_or e (n - 1) ≡ word n (q e) (safe n e) (n - 1) =
          ap (λ (x : ℕ). bit_or x (n - 1)) (shape e)
          ∙ or_mask-word k small (q e) (safe n e) (idx n e) (bit e) (fits e) in
        let full = full_below k small (q e) (safe n e) (idx n e) (omega (arith, shape e)) in
        let less : bit_or e (n - 1) < 2 ^ 63 =
          omega (arith, new, full, bit_times (safe n e) n (bit e)) in
        let f =
          parts_of (bit_or e (n - 1)) (q e) (safe n e) (n - 1) new (bit e)
            (omega (arith, pos k small)) less in
        (f.age_is ∙ sym mine.age_is, f.safe_is, f.idx_is, less)
