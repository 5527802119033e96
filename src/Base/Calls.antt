-- ===== src/Base/Calls.antt =====
-- How a call ends: with a value, by a panic, by undefined behaviour (a read of memory that holds no
-- value), or not within the fuel that its loops are given.
pub data Exec {ℓ} (A : Type ℓ) : Type ℓ where
  done : A → Exec A
  panic : Exec A
  undefined : Exec A
  out_of_fuel : Exec A

infixl 5 ◌>>=◌
abbrev pub ◌>>=◌ {ℓ κ} : {A : Type ℓ} {B : Type κ} → Exec A → (A → Exec B) → Exec B
done a >>= f = f a
panic >>= f = panic
undefined >>= f = undefined
out_of_fuel >>= f = out_of_fuel
