-- ===== src/Word.antt =====
-- The machine words of the source, `usize` and `isize`, on a target of 64 bits. A word is a number
-- below 2 ^ 64; an `isize` is its two's complement bit pattern.
pub mod Bits
pub mod Fields
use lfqueue.Base.{ℕ, ◌+◌, ◌-◌, ◌*◌, ◌%◌, ◌^◌, Bool, leb}

abbrev pub word_mod : ℕ
word_mod = 2 ^ 64

abbrev pub sign_bit : ℕ
sign_bit = 2 ^ 63

-- `-1isize as usize`
abbrev pub minus_one : ℕ
minus_one = word_mod - 1

-- `fetch_add`, `fetch_sub` and the subtraction of two `isize`, all of which wrap.
abbrev pub wrapping_add : ℕ → ℕ → ℕ
wrapping_add a b = (a + b) % word_mod

abbrev pub wrapping_sub : ℕ → ℕ → ℕ
wrapping_sub a b = (a + word_mod - b) % word_mod

-- `!x`
abbrev pub bit_not : ℕ → ℕ
bit_not x = minus_one - x

-- `x << k`; of the amount only the low six bits count
abbrev pub shift_left : ℕ → ℕ → ℕ
shift_left x k = x * 2 ^ (k % 64) % word_mod

-- `x < 0` of an `isize`
abbrev pub is_negative : ℕ → Bool
is_negative x = leb sign_bit x
