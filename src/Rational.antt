-- ===== src/Rational.antt =====
-- src/Ek/EkRational.h: fractions of `unsigned long`, whose 2 ^ 32 or 2 ^ 64 is the argument `modulus`.
-- The quotient and the comparison of doubles are arguments. A right operand that is the left one
-- itself is marked, since the steps of an assignment then read what it has written.
pub mod Fresh
use pmt.Common.{ℕ, ◌+◌, ◌-◌, ◌*◌, ◌%◌, Bool, true, false, not, ◌&&◌, ◌||◌, ◌==◌, if◌then◌else◌}

pub record Rational (D : Type 0) : Type 0 where
  pub numerator : ℕ
  pub denominator : ℕ
  pub value_changed : Bool
  pub fp_val : D

-- The doubles that are used: 0.0, the quotient of two numbers, `<` and `<=`.
pub record Doubles (D : Type 0) : Type 0 where
  pub zero_point : D
  pub quotient : ℕ → ℕ → D
  pub lt : D → D → Bool
  pub le : D → D → Bool

module _ {D : Type 0} (doubles : Doubles D) where
  -- The default constructor.
  unfoldable pub empty : Rational D
  empty = record {
    numerator = 0;
    denominator = 1;
    value_changed = false;
    fp_val = doubles.zero_point;
  }

  unfoldable pub fraction : ℕ → ℕ → Rational D
  fraction numer denom = record {
    numerator = numer;
    denominator = denom;
    value_changed = false;
    fp_val = doubles.quotient numer denom;
  }

  -- asDouble, with calcFpVal: the value is kept, but value_changed stays as it is.
  unfoldable pub calc_fp_val : Rational D → Rational D
  calc_fp_val r =
      if r.value_changed
      then record r { fp_val = doubles.quotient r.numerator r.denominator }
      else r

  unfoldable pub as_double : Rational D → D
  unfolding calc_fp_val
  as_double r = (calc_fp_val r).fp_val

  unfoldable pub less : Rational D → Rational D → Bool
  unfolding as_double
  less r rhs = doubles.lt (as_double r) (as_double rhs)

  unfoldable pub less_or_equal : Rational D → Rational D → Bool
  unfolding as_double
  less_or_equal r rhs = doubles.le (as_double r) (as_double rhs)

module _ {D : Type 0} where
  unfoldable pub set_numerator : ℕ → Rational D → Rational D
  set_numerator numer r = record r { numerator = numer; value_changed = true }

  unfoldable pub set_denominator : ℕ → Rational D → Rational D
  set_denominator denom r = record r { denominator = denom; value_changed = true }

  -- `operator=`
  unfoldable pub assign : Rational D → Rational D → Rational D
  assign rhs r = record r {
    numerator = rhs.numerator;
    denominator = rhs.denominator;
    value_changed = true;
  }

  -- Both parts are compared, so that 1/2 and 2/4 differ.
  unfoldable pub equal : Rational D → Rational D → Bool
  equal r rhs = r.numerator == rhs.numerator && r.denominator == rhs.denominator

  unfoldable pub not_equal : Rational D → Rational D → Bool
  not_equal r rhs = not (r.numerator == rhs.numerator) || not (r.denominator == rhs.denominator)

  module _ (modulus : ℕ) where
    -- `operator+=` and `operator-=`; neither reads the numerator of the right operand after it has
    -- written its own.
    unfoldable pub add_assign : Rational D → Rational D → Rational D
    add_assign rhs r = record r {
      numerator = (r.numerator * rhs.denominator + rhs.numerator * r.denominator) % modulus;
      denominator = (r.denominator * rhs.denominator) % modulus;
      value_changed = true;
    }

    unfoldable pub subtract_assign : Rational D → Rational D → Rational D
    subtract_assign rhs r =
        let taken = (rhs.numerator * r.denominator) % modulus in
        record r {
          numerator = (r.numerator * rhs.denominator + (modulus - taken)) % modulus;
          denominator = (r.denominator * rhs.denominator) % modulus;
          value_changed = true;
        }

    unfoldable pub multiply_assign : Rational D → Rational D → Rational D
    multiply_assign rhs r = record r {
      numerator = (r.numerator * rhs.numerator) % modulus;
      denominator = (r.denominator * rhs.denominator) % modulus;
      value_changed = true;
    }

    -- `operator/=`: the second step reads the numerator of the right operand.
    unfoldable pub divide_assign : Bool → Rational D → Rational D → Rational D
    divide_assign is_self rhs r =
        let numer = (r.numerator * rhs.denominator) % modulus in
        let rhs_numer = if is_self then numer else rhs.numerator in
        record r {
          numerator = numer;
          denominator = (r.denominator * rhs_numer) % modulus;
          value_changed = true;
        }
