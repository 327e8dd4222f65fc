-- ===== src/Examples/Rationals.antt =====
-- Fractions of EkRational.h.
use pmt.Common.{ℕ, ◌≡◌, refl, true, false}
use pmt.Rational.{Rational, divide_assign}

abbrev three_halves : Rational ℕ
three_halves = record { numerator = 3; denominator = 2; value_changed = false; fp_val = 1 }

-- Divided by itself it becomes 6/12, and by a copy of itself 6/6.
self_quotient : (divide_assign 4294967296 true three_halves three_halves).denominator ≡ 12
unfolding divide_assign
self_quotient = refl

copy_quotient : (divide_assign 4294967296 false three_halves three_halves).denominator ≡ 6
unfolding divide_assign
copy_quotient = refl
