-- ===== src/Ring/Shared/Older.antt =====
-- What the comparison of an entry with the cycle of a ticket tells.
use lfqueue.Base.{ℕ, suc, ◌+◌, ◌-◌, ◌*◌, ◌/◌, ◌^◌, ◌≤◌, ◌<◌, ◌≡◌, refl, arith, ap, sym, ◌∙◌, dec_lt}
use lfqueue.Base.{true, false, Bool-cases, ◌==◌, ne→==, eq→==, inl, inr}
use lfqueue.Word.{minus_one}
use lfqueue.Lfring.{modup, lfring_signed_cmp, is_lt}
use lfqueue.Lfring.Laws.{signed_cmp_small, signed_cmp_minus_one}
use lfqueue.Ring.Entry.{cycle_word, covered}
use lfqueue.Ring.Shared.Words.{word, pos, cycle_word-word, full_below, ones-word}
use lfqueue.Ring.Shared.Fields.{
  idx, safe, age, age_of, IsWord, cycle_small, minus_one-cycle, shape, cycle_of,
}

module _ (k : ℕ) (small : k ≤ 60) where
  abbrev n : ℕ
  n = 2 ^ k

  abbrev q : ℕ → ℕ
  q e = e / n / 2

  covers : (a b : ℕ) → word n a 1 (n - 1) < word n b 1 (n - 1) → a < b
  covers a b lt = covered a b (2 * n) (omega (arith, pos k small)) (omega arith)

  covers_not : (a b : ℕ) → word n b 1 (n - 1) ≤ word n a 1 (n - 1) → b ≤ a
  covers_not a b le = elim (dec_lt a b) [
    | yes lt ↦ absurd (omega (arith, pos k small, times (a + 1) b (2 * n) (omega arith)))
    | no ge ↦ omega arith
  ]
    where
      times : (x y m : ℕ) → x ≤ y → x * m ≤ y * m
      times x y m h = grind arith

  compares :
      (a b : ℕ)
      → a < 2 ^ 63
      → b < 2 ^ 63
      → (is_lt (lfring_signed_cmp a b) ≡ true → a < b)
        × (is_lt (lfring_signed_cmp a b) ≡ false → b ≤ a)
  compares a b ha hb =
      let same = signed_cmp_small a b ha hb in
      (λ h. ground (arith, same), λ h. ground (arith, same))

  module _ (e t : ℕ) (w : IsWord e) (young : t < 2 ^ 61) where
    small_ticket : word n (t / n) 1 (n - 1) < 2 ^ 63 - 1
    small_ticket = cycle_small k small t young

    pub older : is_lt (lfring_signed_cmp (modup e n) (cycle_word n t)) ≡ true → age n e < age_of n t
    older h = elim (Bool-cases (e == minus_one)) [
      | inl o ↦ let zero_age : age n e ≡ 0 = rw o refl in omega (arith, zero_age)
      | inr o ↦
          let used : age n e ≡ suc (q e) = rw o refl in
          let below : e < 2 ^ 63 = elim w [
            | inl ones ↦ absurd (let no : (e == minus_one) ≡ true = eq→== e minus_one ones in cc)
            | inr b ↦ b
          ] in
          let full =
            full_below k small (q e) (safe n e) (idx n e) (omega (arith, shape k small e)) in
          let lt : is_lt (lfring_signed_cmp (word n (q e) 1 (n - 1)) (word n (t / n) 1 (n - 1)))
              ≡ true =
            rw (← cycle_of k small e, ← cycle_word-word k small t) h in
          let low : word n (t / n) 1 (n - 1) < 2 ^ 63 = omega (arith, small_ticket) in
          let less : word n (q e) 1 (n - 1) < word n (t / n) 1 (n - 1) =
            (compares _ _ full low).0 lt in
          omega (arith, used, covers (q e) (t / n) less)
    ]

    pub not_older :
        is_lt (lfring_signed_cmp (modup e n) (cycle_word n t)) ≡ false → age_of n t ≤ age n e
    not_older h = elim w [
      | inl ones ↦
          let top : modup e n ≡ minus_one =
            cycle_of k small e
            ∙ rw
                (let c : q e ≡ 2 ^ (62 - k) * 2 - 1 =
                    ap (λ (x : ℕ). x / n / 2) ones ∙ minus_one-cycle k small in
                  c)
                (sym (ones-word k small)) in
          let lt : is_lt (lfring_signed_cmp (modup e n) (cycle_word n t)) ≡ true =
            rw
              (
                top,
                signed_cmp_minus_one (cycle_word n t)
                    (omega (arith, cycle_word-word k small t, small_ticket)),
              )
              refl in
          absurd (cc)
      | inr below ↦
          let used : age n e ≡ suc (q e) = rw (ne→== e minus_one (λ o. omega arith)) refl in
          let full =
            full_below k small (q e) (safe n e) (idx n e) (omega (arith, shape k small e)) in
          let nlt : is_lt (lfring_signed_cmp (word n (q e) 1 (n - 1)) (word n (t / n) 1 (n - 1)))
              ≡ false =
            rw (← cycle_of k small e, ← cycle_word-word k small t) h in
          let low : word n (t / n) 1 (n - 1) < 2 ^ 63 = omega (arith, small_ticket) in
          let le : word n (t / n) 1 (n - 1) ≤ word n (q e) 1 (n - 1) =
            (compares _ _ full low).1 nlt in
          omega (arith, used, covers_not (q e) (t / n) le)
    ]
