-- ===== src/Examples/Facets.antt =====
-- Facets of numbers.
use pmt.Common.{ℕ, ◌≡◌, refl, true, false, List, [], ◌∷◌, ltb, leb, ◌==◌, length, text_eq, arith}
use pmt.Common.Text.{Text, codes}
use pmt.Facet.{
  Values, Facet, max_inclusive, restricted, validate_facet, validate, find_facet, set_facet_value,
  add_facet,
}
use pmt.Facet.Narrowing.{Laws, add_facet-narrows}

-- A text stands for its length.
abbrev lengths : Values ℕ
lengths = record { eq = λ a b. a == b; lt = ltb; le = leb; read_value = λ t. length t }

lengths-eq_trans : (a b c : ℕ) → (a == b) ≡ true → (b == c) ≡ true → (a == c) ≡ true
lengths-eq_trans a b c p q = ground arith

lengths-le_trans : (a b c : ℕ) → leb a b ≡ true → leb b c ≡ true → leb a c ≡ true
lengths-le_trans a b c p q = ground arith

lengths-le_of_not_lt : (a b : ℕ) → ltb a b ≡ false → leb b a ≡ true
lengths-le_of_not_lt a b p = ground arith

abbrev lengths_laws : Laws lengths
lengths_laws = record {
  eq_trans = lengths-eq_trans;
  le_trans = lengths-le_trans;
  le_of_not_lt = lengths-le_of_not_lt;
}

abbrev at_most_nine : List (Facet ℕ)
at_most_nine = max_inclusive false 9 ∷ []

abbrev max_name : Text
max_name = codes "xsd:maxInclusive"

restricts :
    add_facet lengths [] [] max_name (codes "12345" ∷ []) false (0 ∷ []) at_most_nine
    ≡ restricted (0 ∷ [], max_inclusive false 5 ∷ [])
unfolding add_facet find_facet set_facet_value text_eq
restricts = refl

takes_four : validate lengths (0 ∷ []) (max_inclusive false 5 ∷ []) 4 ≡ true
unfolding validate validate_facet
takes_four = refl

-- An instance whose copy is restricted no longer takes 7.
shares_facet : validate lengths (0 ∷ []) (max_inclusive false 5 ∷ []) 7 ≡ false
unfolding validate validate_facet
shares_facet = refl

add_facet-narrows_example : validate lengths (0 ∷ []) at_most_nine 4 ≡ true
add_facet-narrows_example =
    add_facet-narrows lengths lengths_laws [] [] max_name (codes "12345" ∷ []) false (0 ∷ [])
      (0 ∷ []) (0 ∷ []) at_most_nine (max_inclusive false 5 ∷ []) 4 (omega arith, tt) restricts
      takes_four
