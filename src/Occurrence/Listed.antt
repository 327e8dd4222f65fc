-- ===== src/Occurrence/Listed.antt =====
-- What the parser of src/PmtCore/PmtOccurrence.cpp leaves in the object, and where it is undefined.
use pmt.Common.{
  ℕ, zero, suc, ◌+◌, ◌-◌, ◌≤◌, ◌<◌, ◌≡◌, refl, true, not, ◌&&◌, ◌||◌, some, [], ◌∷◌, ltb, leb, ◌==◌,
  length, length-append, get_elem?-some, text_eq, arith, Bool-cases, inl, inr,
}
use pmt.Common.Run.{undefined}
use pmt.Common.Text.{Text, find_char, substr, substr_from, find_first_not_of, find_first_of}
use pmt.Occurrence.{
  int_max, add_occurrence, add_range, Occurrence, delims, is_number, digits_value, atoi,
  parse_range, parse_argument, specification_loop, parse_occurrence_specification,
  parse_key_for_occurrences, start, next,
}
use pmt.Occurrence.Ends.{first_of-lt, rest-shorter}
use pmt.Occurrence.Overflow.{
  IsPart-refl, IsPart-trans, substr-IsPart, substr_from-IsPart, find_char-lt, HasOverflow,
  HasOverflow-part, Meets, Meets-bind, Meets-weaken, Meets-if, Meets-option,
}

-- An object that is marked as a single occurrence has one.
abbrev pub IsListed : Occurrence → Type 0
IsListed o = o.is_explicitly_specified_single ≡ true → 0 < length o.occurrences

add_occurrence-IsListed : (n : ℕ) (o : Occurrence) → IsListed (add_occurrence n o)
unfolding add_occurrence
add_occurrence-IsListed n o single = omega (arith, length-append o.occurrences (n ∷ []))

add_range-IsListed : (k a : ℕ) (o : Occurrence) → IsListed o → IsListed (add_range k a o)
unfolding add_range
add_range-IsListed zero a o listed = listed
add_range-IsListed (suc k) a o listed =
    add_range-IsListed k (a + 1) (add_occurrence a o) (add_occurrence-IsListed a o)

atoi-digits : (s : Text) → Meets (λ n. n ≡ digits_value 0 s) (int_max ≤ digits_value 0 s) (atoi s)
unfolding atoi Meets
atoi-digits s = elim (Bool-cases (leb (digits_value 0 s) int_max)) [
  | inl small ↦ rw small refl
  | inr large ↦ rw large (ground (arith, large))
]

parse_range-IsListed :
    (s : Text) (p : ℕ) (o : Occurrence)
    → p < length s
    → IsListed o
    → Meets (λ r. IsListed r.1) (HasOverflow s) (parse_range s p o)
unfolding parse_range Meets
parse_range-IsListed s p o lt listed =
    let one = substr s 0 p in
    let two = substr_from s (p + 1) in
    let front = substr-IsPart s 0 p (omega arith) (omega arith) in
    let behind = substr_from-IsPart s (p + 1) in
    Meets-if _ _ (is_number one && is_number two) _ _
      (λ numbers.
        let first : is_number one ≡ true = ground (arith, numbers) in
        let second : is_number two ≡ true = ground (arith, numbers) in
        Meets-bind _ _ _ _ (atoi one) _ (atoi-digits one)
          (λ large. record { digits = one; is_part = front; are_digits = first; is_large = large })
          (λ n is_n.
            Meets-bind _ _ _ _ (atoi two) _ (atoi-digits two)
              (λ large. record {
                digits = two;
                is_part = behind;
                are_digits = second;
                is_large = large;
              })
              (λ k is_k.
                Meets-if _ _ (leb n k && k == int_max) undefined _
                  (λ last. record {
                    digits = two;
                    is_part = behind;
                    are_digits = second;
                    is_large = ground (arith, last, is_k);
                  })
                  (add_range-IsListed (k + 1 - n) n o listed))))
      listed

parse_argument-IsListed :
    (s : Text) (o : Occurrence)
    → IsListed o
    → Meets (λ r. IsListed r.1) (HasOverflow s) (parse_argument s o)
unfolding parse_argument Meets
parse_argument-IsListed s o listed =
    Meets-option _ _ (find_char b'-' s) _ _
      (Meets-if _ _ (is_number s) _ _
        (λ number.
          Meets-bind _ _ _ _ (atoi s) _ (atoi-digits s)
            (λ large. record {
              digits = s;
              is_part = IsPart-refl s;
              are_digits = number;
              is_large = large;
            })
            (λ n is_n. add_occurrence-IsListed n o))
        listed)
      (λ p there. parse_range-IsListed s p o (find_char-lt b'-' s p there) listed)

specification_loop-IsListed :
    (fuel : ℕ) (s : Text) (pos : ℕ) (o : Occurrence)
    → length s < fuel
    → IsListed o
    → Meets (λ r. IsListed r.1) (HasOverflow s) (specification_loop fuel s pos o)
unfolding specification_loop Meets
specification_loop-IsListed zero s pos o h listed = absurd (omega arith)
specification_loop-IsListed (suc fuel) s pos o h listed =
    let rest_of = substr_from s pos in
    let part = substr_from-IsPart s pos in
    Meets-option _ _ (find_first_of delims rest_of) _ _
      (Meets-weaken _ _ _ (parse_argument rest_of o) (HasOverflow-part part)
        (parse_argument-IsListed rest_of o listed))
      (λ p there.
        let rest = substr_from rest_of (p + 1) in
        let lt = first_of-lt rest_of p there in
        let shorter : length rest < fuel = rest-shorter s pos p fuel lt (omega arith) in
        let argument = substr-IsPart rest_of 0 p (omega arith) (omega (arith, lt)) in
        Meets-bind _ _ _ _ (parse_argument (substr rest_of 0 p) o) _
          (parse_argument-IsListed (substr rest_of 0 p) o listed)
          (HasOverflow-part (IsPart-trans argument part))
          (λ r kept.
            Meets-if _ _ r.0 _ _
              (λ go_on.
                Meets-weaken _ _ _
                  (specification_loop fuel rest (find_first_not_of delims rest) r.1)
                  (HasOverflow-part (IsPart-trans (substr_from-IsPart rest_of (p + 1)) part))
                  (specification_loop-IsListed fuel rest (find_first_not_of delims rest) r.1 shorter
                    kept))
              kept))

parse_specification-IsListed :
    (s : Text) (o : Occurrence)
    → IsListed o
    → Meets (λ r. IsListed r.1) (HasOverflow s) (parse_occurrence_specification s o)
unfolding parse_occurrence_specification Meets
parse_specification-IsListed s o listed =
    Meets-if _ _ (text_eq s (b'*' ∷ [])) _ _ (λ wildcard single. absurd (cc single))
      (specification_loop-IsListed (length s + 1) s (find_first_not_of delims s) o (omega arith)
        listed)

pub parse_key-IsListed :
    (key : Text) (o : Occurrence)
    → IsListed o
    → Meets (λ r. IsListed r.2) (HasOverflow key) (parse_key_for_occurrences key o)
unfolding parse_key_for_occurrences Meets
parse_key-IsListed key o listed = Meets-option _ _ (find_char b'[' key) _ _ listed (λ p there.
    Meets-if _ _ (ltb 0 p) _ _
      (λ named. Meets-option _ _ (find_char b']' key) _ _ listed (λ q closed.
        Meets-if _ _ (ltb p q && not (q == p + 1)) _ _
          (λ filled.
            let inside = find_char-lt b']' key q closed in
            let opened = find_char-lt b'[' key p there in
            let part =
              substr-IsPart key (p + 1) (q - p - 1) (omega (arith, opened))
                (omega (arith, inside)) in
            Meets-bind _ _ _ _ (parse_occurrence_specification (substr key (p + 1) (q - p - 1)) o) _
              (parse_specification-IsListed _ o listed) (HasOverflow-part part) (λ r kept. kept))
          listed))
      listed)

-- Where the occurrence is unspecified or marked as a single one, start gives an occurrence.
pub start-IsListed :
    (o : Occurrence)
    → IsListed o
    → (o.is_unspecified || o.is_explicitly_specified_single) ≡ true
    → (n : ℕ) × ((start o).0 ≡ some n)
unfolding start next
start-IsListed o listed asked = elim (Bool-cases o.is_unspecified) [
  | inl all ↦ (0, ground (arith, all))
  | inr not_all ↦
      let single : o.is_explicitly_specified_single ≡ true = ground (arith, asked, not_all) in
      let (n, e) = get_elem?-some o.occurrences 0 (listed single) in (n, ground (arith, not_all, e))
]
