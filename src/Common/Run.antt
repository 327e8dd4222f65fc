-- ===== src/Common/Run.antt =====
-- The outcome of code that C++ may leave undefined, or whose loop may use up its fuel.
pub data Run {ℓ} (A : Type ℓ) : Type ℓ where
  done : A → Run A
  undefined : Run A
  out_of_fuel : Run A

infixl 5 ◌>>=◌
abbrev pub ◌>>=◌ {ℓ κ} : {A : Type ℓ} {B : Type κ} → Run A → (A → Run B) → Run B
done a >>= f = f a
undefined >>= f = undefined
out_of_fuel >>= f = out_of_fuel
