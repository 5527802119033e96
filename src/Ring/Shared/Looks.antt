-- ===== src/Ring/Shared/Looks.antt =====
-- What a look at an entry tells, and what `dequeue` puts in its place.
use lfqueue.Base.{
  ℕ, zero, suc, ◌+◌, ◌-◌, ◌*◌, ◌/◌, ◌%◌, ◌^◌, ◌≤◌, ◌<◌, ◌≡◌, ◌≢◌, refl, arith, ap, sym, ◌∙◌, subst,
}
use lfqueue.Base.{
  true, false, Bool-cases, ◌==◌, ==_iff, eq→==, leb, bit_and, bit_or, bit_xor, ◌⊎◌, inl, inr,
}
use lfqueue.Word.Fields.{bit_xor-zero}
use lfqueue.Word.{word_mod, minus_one, bit_not}
use lfqueue.Lfring.{modup}
use lfqueue.Ring.{look, Look, take, leave, wait, swap}
use lfqueue.Ring.Entry.{cycle_word}
use lfqueue.Ring.Shared.Words.{
  bit_times, word, word_idx, word_safe, word_cycle, pos, or_bit-word, not-word, clear-word,
  xor_bit-word, cycle_word-word, ones-word,
}
use lfqueue.Ring.Shared.Fields.{
  idx, safe, age, age_of, IsWord, cycle_small, age_same, age_other, shape, bit, fits, cycle_of,
  parts_of,
}

-- What `dequeue` puts in the place of an entry: a filled one loses its safe bit, and an empty one
-- gets the cycle of the ticket and keeps it.
abbrev pub Swapped : ℕ → ℕ → ℕ → ℕ → Type 0
Swapped n t e new =
    ((idx n e ≢ n - 1) × (age n new ≡ age n e) × (safe n new ≡ 0) × (idx n new ≡ idx n e))
    ⊎ ((idx n e ≡ n - 1) × (age n new ≡ age_of n t) × (safe n new ≡ safe n e) × (idx n new ≡ n - 1))

abbrev pub Looked : ℕ → ℕ → ℕ → Look → Type 0
Looked n t e take = age n e ≡ age_of n t
Looked n t e leave = (age n e ≢ age_of n t) × (idx n e ≢ n - 1) × (safe n e ≡ 0)
Looked n t e wait = Unit
Looked n t e (swap new attempts) = (age n e ≢ age_of n t) × IsWord new × Swapped n t e new

look_cases :
    (n hcycle attempt e : ℕ) (P : Look → Type 0)
    → (modup e n ≡ hcycle → P take)
    → (modup e n ≢ hcycle → bit_or e n ≢ modup e n → e ≡ bit_and e (bit_not n) → P leave)
    → (modup e n ≢ hcycle → bit_or e n ≢ modup e n → P (swap (bit_and e (bit_not n)) attempt))
    → P wait
    → (modup e n ≢ hcycle
        → bit_or e n ≡ modup e n
        → P (swap (bit_xor hcycle (bit_and (bit_not e) n)) (attempt + 1)))
    → P (look n hcycle attempt e)
unfolding look
look_cases n hcycle attempt e P taken left cleared waits filled =
    elim (Bool-cases (modup e n == hcycle)) [
      | inl a ↦ rw a (taken ((==_iff _ _).0 a))
      | inr a ↦
          let other : modup e n ≢ hcycle = λ h. false_true (sym a ∙ eq→== _ _ h) in
          elim (Bool-cases (bit_or e n == modup e n)) [
            | inr b ↦
                let full : bit_or e n ≢ modup e n = λ h. false_true (sym b ∙ eq→== _ _ h) in
                elim (Bool-cases (e == bit_and e (bit_not n))) [
                  | inl c ↦ rw (a, b, c) (left other full ((==_iff _ _).0 c))
                  | inr c ↦ rw (a, b, c) (cleared other full)
                ]
            | inl b ↦ elim (Bool-cases (leb (attempt + 1) 10)) [
              | inl c ↦ rw (a, b, c) waits
              | inr c ↦ rw (a, b, c) (filled other ((==_iff _ _).0 b))
            ]
          ]
    ]
  where
    false_true : false ≢ true
    false_true h = cc

module _ (k : ℕ) (small : k ≤ 60) where
  abbrev n : ℕ
  n = 2 ^ k

  abbrev q : ℕ → ℕ
  q e = e / n / 2

  module _ (e t : ℕ) (w : IsWord e) (young : t < 2 ^ 61) where
    in_word : e < word_mod
    in_word = elim w [ inl ones ↦ omega arith | inr below ↦ omega arith ]

    hcycle_is : cycle_word n t ≡ word n (t / n) 1 (n - 1)
    hcycle_is = cycle_word-word k small t

    taken_look : modup e n ≡ cycle_word n t → age n e ≡ age_of n t
    taken_look h =
        let top : n - 1 < n = omega (arith, pos k small) in
        let words : word n (q e) 1 (n - 1) ≡ word n (t / n) 1 (n - 1) =
          sym (cycle_of k small e) ∙ h ∙ hcycle_is in
        age_same k small e t young (
          sym (word_cycle n (q e) 1 (n - 1) (omega arith) top)
          ∙ ap (λ (x : ℕ). x / n / 2) words
          ∙ word_cycle n (t / n) 1 (n - 1) (omega arith) top)

    -- A look that finds the age of the ticket takes the index, and none else does.
    pub look-mine : (attempt : ℕ) → age n e ≡ age_of n t → look n (cycle_word n t) attempt e ≡ take
    unfolding look
    look-mine attempt same = elim (Bool-cases (e == minus_one)) [
      | inl o ↦ absurd (let unused : age n e ≡ 0 = rw o refl in omega (arith, unused, same))
      | inr o ↦
          let used : age n e ≡ suc (q e) = rw o refl in
          let cycle : q e ≡ t / n = omega (arith, used, same) in
          let words : modup e n ≡ cycle_word n t =
            cycle_of k small e ∙ ap (λ (x : ℕ). word n x 1 (n - 1)) cycle ∙ sym hcycle_is in
          rw (eq→== _ _ words) refl
    ]

    other_look : modup e n ≢ cycle_word n t → age n e ≢ age_of n t
    other_look h =
        age_other k small e t
          (λ same. h (cycle_of k small e ∙ ap (λ (x : ℕ). word n x 1 (n - 1)) same ∙ sym hcycle_is))

    or_is : bit_or e n ≡ word n (q e) 1 (idx n e)
    or_is =
        ap (λ (x : ℕ). bit_or x n) (shape k small e)
        ∙ or_bit-word k small (q e) (safe n e) (idx n e) (bit k small e) (fits k small e)

    filled_look : bit_or e n ≢ modup e n → idx n e ≢ n - 1
    filled_look h same =
        h (or_is ∙ ap (λ (x : ℕ). word n (q e) 1 x) same ∙ sym (cycle_of k small e))

    empty_look : bit_or e n ≡ modup e n → idx n e ≡ n - 1
    empty_look h =
        let words : word n (q e) 1 (idx n e) ≡ word n (q e) 1 (n - 1) =
          sym or_is ∙ h ∙ cycle_of k small e in
        omega arith

    clear_is : bit_and e (bit_not n) ≡ word n (q e) 0 (idx n e)
    clear_is =
        ap (λ (x : ℕ). bit_and x (bit_not n)) (shape k small e)
        ∙ clear-word k small (q e) (safe n e) (idx n e) (bit k small e) (fits k small e)
            (omega (arith, in_word, shape k small e))

    unsafe_look : e ≡ bit_and e (bit_not n) → safe n e ≡ 0
    unsafe_look h =
        ap (λ (x : ℕ). x / n % 2) (h ∙ clear_is)
        ∙ word_safe n (q e) 0 (idx n e) (omega arith) (fits k small e)

    pub used_look : idx n e ≢ n - 1 → e < 2 ^ 63
    used_look filled = elim w [
      | inl ones ↦ absurd (
          filled (
            ap (λ (x : ℕ). x % n) (ones ∙ ones-word k small)
            ∙ word_idx n (2 ^ (62 - k) * 2 - 1) 1 (n - 1) (omega arith)
                (omega (arith, pos k small))))
      | inr below ↦ below
    ]

    cleared_look :
        bit_or e n ≢ modup e n
        → IsWord (bit_and e (bit_not n)) × Swapped n t e (bit_and e (bit_not n))
    cleared_look h =
        let filled = filled_look h in
        let below = used_look filled in
        let mine =
          parts_of k small e (q e) (safe n e) (idx n e) (shape k small e) (bit k small e)
            (fits k small e) below in
        let less : bit_and e (bit_not n) < 2 ^ 63 =
          omega (arith, clear_is, shape k small e, below) in
        let f =
          parts_of k small (bit_and e (bit_not n)) (q e) 0 (idx n e) clear_is (omega arith)
            (fits k small e) less in
        (inr less, inl (filled, f.age_is ∙ sym mine.age_is, f.safe_is, f.idx_is))

    filling : bit_xor (cycle_word n t) (bit_and (bit_not e) n) ≡ word n (t / n) (safe n e) (n - 1)
    filling =
        ap (λ (x : ℕ). bit_xor x (bit_and (bit_not e) n)) hcycle_is
        ∙ ap (bit_xor (word n (t / n) 1 (n - 1))) (
            ap (λ (x : ℕ). bit_and (bit_not x) n) (shape k small e)
            ∙ not-word k small (q e) (safe n e) (idx n e) (bit k small e) (fits k small e)
                (omega (arith, in_word, shape k small e)))
        ∙ by_bit (safe n e) (bit k small e)
      where
        by_bit :
            (s : ℕ)
            → s < 2
            → bit_xor (word n (t / n) 1 (n - 1)) ((1 - s) * n) ≡ word n (t / n) s (n - 1)
        by_bit zero h =
            ap (bit_xor (word n (t / n) 1 (n - 1))) (let one : (1 - 0) * n ≡ n = omega arith in one)
            ∙ xor_bit-word k small (t / n)
        by_bit (suc zero) h =
            ap (bit_xor (word n (t / n) 1 (n - 1)))
              (let none : (1 - 1) * n ≡ 0 = omega arith in none)
            ∙ bit_xor-zero _
        by_bit (suc (suc s)) h = absurd (omega arith)

    exchanged_look :
        bit_or e n ≡ modup e n
        → IsWord (bit_xor (cycle_word n t) (bit_and (bit_not e) n))
          × Swapped n t e (bit_xor (cycle_word n t) (bit_and (bit_not e) n))
    exchanged_look h =
        let new = bit_xor (cycle_word n t) (bit_and (bit_not e) n) in
        let less : new < 2 ^ 63 =
          omega
            (arith, filling, cycle_small k small t young, bit_times (safe n e) n (bit k small e)) in
        let f =
          parts_of k small new (t / n) (safe n e) (n - 1) filling (bit k small e)
            (omega (arith, pos k small)) less in
        (inr less, inr (empty_look h, f.age_is, f.safe_is, f.idx_is))

    pub looked : (attempt : ℕ) → Looked n t e (look n (cycle_word n t) attempt e)
    looked attempt =
        look_cases n (cycle_word n t) attempt e (Looked n t e) taken_look
          (λ o f u. (other_look o, filled_look f, unsafe_look u))
          (λ o f. (other_look o, (cleared_look f).0, (cleared_look f).1)) tt
          (λ o f. (other_look o, (exchanged_look f).0, (exchanged_look f).1))

    pub look-take : (attempt : ℕ) → look n (cycle_word n t) attempt e ≡ take → age n e ≡ age_of n t
    look-take attempt h = subst (Looked n t e) h (looked attempt)
