-- ===== src/Word/Bits.antt =====
-- `&`, `|` and `^` one binary digit at a time. The native operations stand for a recursion over the
-- digits of the first operand, on fuel; these equations are free of the fuel.
use Prim.Native.Nat.{digits, bitwise, differ, bit_and-bitwise, bit_or-bitwise, bit_xor-bitwise}
use lfqueue.Base.{ℕ, zero, suc, ◌+◌, ◌*◌, ◌/◌, ◌%◌, ◌≤◌, ◌<◌, min, max, bit_and, bit_or, bit_xor}
use lfqueue.Base.{◌≡◌, refl, sym, ap, ◌∙◌, arith}

module _ (past : ℕ → ℕ) (join : ℕ → ℕ → ℕ) where
  exhausted : (fuel y : ℕ) → digits past join fuel 0 y ≡ past y
  exhausted zero y = refl
  exhausted (suc fuel) y = refl

  spare_fuel :
      (x y fuel more : ℕ)
      → x ≤ fuel
      → x ≤ more
      → digits past join fuel x y ≡ digits past join more x y
  spare_fuel zero y fuel more p q = exhausted fuel y ∙ sym (exhausted more y)
  spare_fuel (suc x) y zero more p q = elim p [ ]
  spare_fuel (suc x) y (suc fuel) zero p q = elim q [ ]
  spare_fuel (suc x) y (suc fuel) (suc more) p q =
      let half = suc x / 2 in
      ap (λ d. d * 2 + join (suc x % 2) (y % 2))
        (spare_fuel half (y / 2) fuel more (omega arith) (omega arith))

  lowest_digit :
      (x y : ℕ)
      → bitwise past join (suc x) y
        ≡ bitwise past join (suc x / 2) (y / 2) * 2 + join (suc x % 2) (y % 2)
  lowest_digit x y =
      let half = suc x / 2 in
      ap (λ d. d * 2 + join (suc x % 2) (y % 2))
        (spare_fuel half (y / 2) x half (omega arith) (omega arith))

differ_digits : (p q : ℕ) → p < 2 → q < 2 → differ p q ≡ (p + q) % 2
differ_digits zero q hp hq = omega arith
differ_digits (suc zero) zero hp hq = refl
differ_digits (suc zero) (suc zero) hp hq = refl
differ_digits (suc zero) (suc (suc q)) hp hq = absurd (omega arith)
differ_digits (suc (suc p)) q hp hq = absurd (omega arith)

pub bit_and_step : (x y : ℕ) → bit_and x y ≡ bit_and (x / 2) (y / 2) * 2 + min (x % 2) (y % 2)
bit_and_step zero y = simp bit_and-bitwise (omega arith)
bit_and_step (suc x) y = simp bit_and-bitwise (lowest_digit (λ b. 0) min x y)

pub bit_or_step : (x y : ℕ) → bit_or x y ≡ bit_or (x / 2) (y / 2) * 2 + max (x % 2) (y % 2)
bit_or_step zero y = simp bit_or-bitwise (omega arith)
bit_or_step (suc x) y = simp bit_or-bitwise (lowest_digit (λ b. b) max x y)

pub bit_xor_step : (x y : ℕ) → bit_xor x y ≡ bit_xor (x / 2) (y / 2) * 2 + (x % 2 + y % 2) % 2
bit_xor_step zero y = simp bit_xor-bitwise (omega arith)
bit_xor_step (suc x) y = simp bit_xor-bitwise (
    lowest_digit (λ b. b) differ x y
    ∙ ap (λ d. bitwise (λ b. b) differ (suc x / 2) (y / 2) * 2 + d)
        (differ_digits (suc x % 2) (y % 2) (omega arith) (omega arith)))
