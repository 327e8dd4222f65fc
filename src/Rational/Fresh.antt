-- ===== src/Rational/Fresh.antt =====
-- What asDouble of EkRational.h returns after the operations that write a fraction.
use pmt.Common.{ℕ, ◌≡◌, refl, Bool, true, false, Bool-cases, inl, inr}
use pmt.Rational.{
  Rational, Doubles, fraction, as_double, calc_fp_val, set_numerator, set_denominator, assign,
  add_assign, subtract_assign, multiply_assign, divide_assign,
}

module _ {D : Type 0} (doubles : Doubles D) where
  -- asDouble returns the quotient of the fraction as it stands.
  abbrev pub IsFresh : Rational D → Type 0
  IsFresh r = as_double doubles r ≡ doubles.quotient r.numerator r.denominator

  calc_fp_val-kept : (r : Rational D) → r.value_changed ≡ false → calc_fp_val doubles r ≡ r
  unfolding calc_fp_val
  calc_fp_val-kept r kept = rw (calc_fp_val, kept) refl

  calc_fp_val-changed : (r : Rational D) → r.value_changed ≡ true → IsFresh (calc_fp_val doubles r)
  unfolding as_double calc_fp_val
  calc_fp_val-changed r changed = simp changed

  calc_fp_val-IsFresh : (r : Rational D) → IsFresh r → IsFresh (calc_fp_val doubles r)
  calc_fp_val-IsFresh r fresh = elim (Bool-cases r.value_changed) [
    | inl changed ↦ calc_fp_val-changed r changed
    | inr kept ↦ rw (calc_fp_val-kept r kept) fresh
  ]

  -- asDouble returns the quotient of the numerator and the denominator of a new fraction and after every
  -- operation that writes one; calcFpVal keeps this.
  operations-IsFresh :
      (n d modulus : ℕ) (is_self : Bool) (rhs r : Rational D)
      → IsFresh r
      → IsFresh (fraction doubles n d)
        × IsFresh (set_numerator n r)
        × IsFresh (set_denominator d r)
        × IsFresh (assign rhs r)
        × IsFresh (add_assign modulus rhs r)
        × IsFresh (subtract_assign modulus rhs r)
        × IsFresh (multiply_assign modulus rhs r)
        × IsFresh (divide_assign modulus is_self rhs r)
        × IsFresh (calc_fp_val doubles r)
  unfolding as_double fraction set_numerator set_denominator assign add_assign subtract_assign
      multiply_assign divide_assign
  operations-IsFresh n d modulus is_self rhs r fresh =
      (refl, refl, refl, refl, refl, refl, refl, refl, calc_fp_val-IsFresh r fresh)
