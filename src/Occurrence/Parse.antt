-- ===== src/Occurrence/Parse.antt =====
-- The arguments of an occurrence specification.
use pmt.Common.{
  ℕ, zero, suc, ◌+◌, ◌-◌, ◌<◌, ◌≡◌, ◌≢◌, refl, true, not, List, [], ◌∷◌, ◌++◌, arith, length,
  length-append, ◌==◌, all,
}
use native.Mathlib.Numerals.{add-one}
use pmt.Common.Run.{done}
use pmt.Common.Text.{Text}
use pmt.Common.Text.Laws.{
  find_char-none, find_char-behind, all_weaken, take-append, drop-append, substr_from-drop,
  substr_zero-take,
}
use pmt.Occurrence.{
  Occurrence, add_occurrence, add_range, is_digit, is_number, digits_value, atoi, parse_range,
  parse_argument, int_max,
}

-- One argument: a number, or a range from one number to another.
pub data Argument : Type 0 where
  number : Text → Argument
  range : Text → Text → Argument

unfoldable pub text_of : Argument → Text
text_of (number n) = n
text_of (range a b) = a ++ b'-' ∷ b

abbrev pub IsNumber : Text → Type 0
IsNumber s = (s ≢ []) × (is_number s ≡ true) × (digits_value 0 s < int_max)

unfoldable pub IsArgument : Argument → Type 0
IsArgument (number n) = IsNumber n
IsArgument (range a b) = IsNumber a × IsNumber b

-- The numbers from `a`, as many as the first argument says.
unfoldable pub count_up : ℕ → ℕ → List ℕ
count_up zero a = []
count_up (suc k) a = a ∷ count_up k (a + 1)

-- What an argument stands for: a range that runs downwards stands for nothing.
unfoldable pub meaning : Argument → List ℕ
unfolding count_up
meaning (number n) = digits_value 0 n ∷ []
meaning (range a b) = count_up (digits_value 0 b + 1 - digits_value 0 a) (digits_value 0 a)

-- The occurrences behind the numbers that are added one by one.
unfoldable pub add_all : List ℕ → Occurrence → Occurrence
add_all [] o = o
add_all (n ∷ ns) o = add_all ns (add_occurrence n o)

add_range-add_all : (k a : ℕ) (o : Occurrence) → add_range k a o ≡ add_all (count_up k a) o
unfolding add_range add_all count_up
add_range-add_all zero a o = refl
add_range-add_all (suc k) a o = add_range-add_all k (a + 1) (add_occurrence a o)

atoi_small : (s : Text) → digits_value 0 s < int_max → atoi s ≡ done (digits_value 0 s)
unfolding atoi
atoi_small s h = ground arith

-- No digit is the sign of a range.
digits-no_sign : (s : Text) → is_number s ≡ true → all (λ x. not (b'-' == x)) s ≡ true
unfolding is_number
digits-no_sign s = all_weaken is_digit (λ x. not (b'-' == x)) s (λ x h. ground arith)

parse_range-meaning :
    (a b : Text) (o : Occurrence)
    → is_number a ≡ true
    → is_number b ≡ true
    → digits_value 0 a < int_max
    → digits_value 0 b < int_max
    → parse_range (a ++ b'-' ∷ b) (length a) o ≡ done (true, add_all (meaning (range a b)) o)
unfolding parse_range meaning
parse_range-meaning a b o da db sa sb =
    rw
      (
        substr_zero-take (a ++ b'-' ∷ b) (length a) (omega (arith, length-append a (b'-' ∷ b))),
        substr_from-drop (a ++ b'-' ∷ b),
        take-append a,
        add-one,
        drop-append a b b'-',
        da,
        db,
        atoi_small a sa,
        atoi_small b sb,
        add_range-add_all,
      )
      (ground arith)

-- A well-formed argument is accepted and adds the numbers that it stands for.
pub parse_argument-meaning :
    (arg : Argument) (o : Occurrence)
    → IsArgument arg
    → parse_argument (text_of arg) o ≡ done (true, add_all (meaning arg) o)
unfolding IsArgument text_of parse_argument
parse_argument-meaning (number n) o (filled, digits, small) =
    rw (find_char-none b'-' n (digits-no_sign n digits), parse_argument, digits, atoi_small n small)
      (unfold meaning add_all in refl)
parse_argument-meaning (range a b) o ((_, da, sa), (_, db, sb)) =
    rw (find_char-behind b'-' a b (digits-no_sign a da), parse_argument)
      (parse_range-meaning a b o da db sa sb)
