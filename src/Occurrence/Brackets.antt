-- ===== src/Occurrence/Brackets.antt =====
-- The loop of PmtOccurrence.cpp over the arguments of a specification, and the brackets around it.
use native.Mathlib.Numerals.{add-one}
use mathlib.Core.List.{append_assoc}
use pmt.Common.{
  ℕ, zero, suc, ◌+◌, ◌-◌, ◌≤◌, ◌<◌, ◌≡◌, refl, ap, ◌∙◌, true, false, not, ◌&&◌, Option, none, some,
  List, [], ◌∷◌, ◌++◌, arith, length, length-append, ◌==◌, all, text_eq,
}
use pmt.Common.Run.{done}
use pmt.Common.Text.{Text, find_char, substr, substr_from, find_first_not_of, find_first_of}
use pmt.Common.Text.Laws.{
  substr-front, substr-middle, all-append, all-cons, all_weaken, find_char-behind, take-append,
  drop-append, substr_from-drop, substr_zero-take,
}
use pmt.Occurrence.{
  Occurrence, add_occurrence, parse_argument, specification_loop, parse_occurrence_specification,
  parse_key_for_occurrences, delims,
}
use pmt.Occurrence.Parse.{Argument, text_of, IsArgument, meaning, add_all, parse_argument-meaning}
use pmt.Occurrence.Specification.{
  Gap, specification_text, meanings, specification_char, AreArguments, is_delim, lead,
  argument-plain, find_first_of-argument, find_first_of-gap, skip-specification, add_all-append,
  length-specification_text, specification-cons, specification-chars,
}

loop-last :
    (fuel pos : ℕ) (my_string s : Text) (o : Occurrence)
    → substr_from my_string pos ≡ s
    → find_first_of delims s ≡ none
    → specification_loop (suc fuel) my_string pos o ≡ parse_argument s o
unfolding specification_loop
loop-last fuel pos my_string s o h e = rw (← h) (rw ((rw (← h) at e), specification_loop))

loop-more :
    (fuel pos p : ℕ) (my_string s rest : Text) (o o' : Occurrence)
    → substr_from my_string pos ≡ s
    → find_first_of delims s ≡ some p
    → parse_argument (substr s 0 p) o ≡ done (true, o')
    → substr_from s (p + 1) ≡ rest
    → specification_loop (suc fuel) my_string pos o
      ≡ specification_loop fuel rest (find_first_not_of delims rest) o'
unfolding specification_loop
loop-more fuel pos p my_string s rest o o' h e parsed r = ground arith

loop-meanings :
    (a : Argument) (r : List (Gap × Argument)) (l : Option ℕ) (fuel : ℕ) (o : Occurrence)
    → IsArgument a
    → AreArguments r
    → ((d : ℕ) → l ≡ some d → is_delim d ≡ true)
    → length r < fuel
    → specification_loop fuel
        (lead l (specification_text a r))
        (find_first_not_of delims (lead l (specification_text a r)))
        o
      ≡ done (true, add_all (meanings a r) o)
unfolding specification_loop
loop-meanings a r l zero o ha hr hl lt = absurd (omega arith)
loop-meanings a [] l (suc fuel) o ha hr hl lt =
    let none_left = find_first_of-argument (text_of a) (argument-plain a ha) in
    loop-last fuel _ _ (specification_text a []) o (skip-specification a [] l ha hl)
      (unfold specification_text in none_left)
    ∙ (unfold specification_text meanings in parse_argument-meaning a o ha)
loop-meanings a ((g, b) ∷ r) l (suc fuel) o ha hr hl lt =
    let s = lead g.second (specification_text b r) in
    let fits : length (text_of a) ≤ length (text_of a ++ g.first ∷ s) =
      omega (arith, length-append (text_of a) (g.first ∷ s)) in
    let found = find_first_of-gap (text_of a) s g.first (argument-plain a ha) hr.0.0.0 in
    let parsed = parse_argument-meaning a o ha in
    loop-more fuel _ (length (text_of a)) _ (specification_text a ((g, b) ∷ r)) s o
      (add_all (meaning a) o) (skip-specification a ((g, b) ∷ r) l ha hl)
      (unfold specification_text in found)
      (unfold specification_text in rw (substr_zero-take _ _ fits, take-append) parsed)
      (unfold specification_text in
        rw (substr_from-drop, add-one) (drop-append (text_of a) s g.first))
    ∙ loop-meanings b r g.second fuel (add_all (meaning a) o) hr.0.1 hr.1 hr.0.0.1 (omega arith)
    ∙ (unfold meanings in rw add_all-append)

not_wildcard : (s : Text) → all specification_char s ≡ true → text_eq s (b'*' ∷ []) ≡ false
unfolding all text_eq
not_wildcard [] h = refl
not_wildcard (c ∷ s) h = ground arith

-- A specification other than `*`, its arguments separated by one or two delimiters, is accepted
-- and adds what they stand for, in order.
pub parse_specification-meanings :
    (a : Argument) (r : List (Gap × Argument)) (o : Occurrence)
    → IsArgument a
    → AreArguments r
    → parse_occurrence_specification (specification_text a r) o
      ≡ done (true, add_all (meanings a r) o)
unfolding parse_occurrence_specification
parse_specification-meanings a r o h hr =
    let s = specification_text a r in
    rw (not_wildcard s (specification-chars a r h hr)) (
      loop-meanings a r none (length s + 1) o h hr (λ d e. cc e)
        (omega (arith, length-specification_text a r)))

pub parse_key-add_all :
    (name : Text) (a : Argument) (r : List (Gap × Argument)) (tail : Text) (o : Occurrence)
    → 0 < length name
    → all (λ x. not (b'[' == x) && not (b']' == x)) name ≡ true
    → IsArgument a
    → AreArguments r
    → parse_key_for_occurrences (name ++ b'[' ∷ (specification_text a r ++ b']' ∷ tail)) o
      ≡ done (true, name, add_all (meanings a r) o)
unfolding parse_key_for_occurrences
parse_key-add_all name a r tail o filled clean h hr =
    let s = specification_text a r in
    let key = name ++ b'[' ∷ (s ++ b']' ∷ tail) in
    let n = length name in
    let opening =
      find_char-behind b'[' name (s ++ b']' ∷ tail)
        (all_weaken _ (λ x. not (b'[' == x)) name (λ x p. ground arith) clean) in
    let unclosed =
      all-append (λ x. not (b']' == x)) name (b'[' ∷ s)
        (all_weaken _ (λ x. not (b']' == x)) name (λ x p. ground arith) clean)
        (all-cons _ b'[' s refl (
          all_weaken _ (λ x. not (b']' == x)) s (λ x p. ground arith)
            (specification-chars a r h hr))) in
    let closing : find_char b']' key ≡ some (n + suc (length s)) = rw (
      ← append_assoc name (b'[' ∷ s) (b']' ∷ tail),
      find_char-behind b']' _ tail unclosed,
      length-append,
    ) in
    let front : substr key 0 n ≡ name = substr-front name _ in
    let middle : substr key (n + 1) (n + suc (length s) - n - 1) ≡ s =
      let width : n + suc (length s) - n - 1 ≡ length s = omega arith in
      rw (width, add-one) (substr-middle name s (b']' ∷ tail) b'[') in
    let (c, s', e, _) = specification-cons a r h in
    ground
      (arith, opening, closing, front, middle, parse_specification-meanings a r o h hr, ap length e)

-- The object behind a specification that stands for `ns`.
unfoldable pub recorded : List ℕ → Occurrence → Occurrence
recorded [] o = o
recorded (n ∷ ns) o = record {
  is_unspecified = false;
  is_wildcard = o.is_wildcard;
  is_explicitly_specified_single = length (o.occurrences ++ n ∷ ns) == 1;
  occurrences = o.occurrences ++ n ∷ ns;
  index = o.index;
}

recorded-add_occurrence :
    (n : ℕ) (ns : List ℕ) (o : Occurrence) → recorded ns (add_occurrence n o) ≡ recorded (n ∷ ns) o
unfolding recorded add_occurrence
recorded-add_occurrence n [] o = refl
recorded-add_occurrence n (k ∷ ns) o = rw append_assoc refl

add_all-recorded : (ns : List ℕ) (o : Occurrence) → add_all ns o ≡ recorded ns o
unfolding add_all
add_all-recorded [] o = unfold recorded in refl
add_all-recorded (n ∷ ns) o =
    add_all-recorded ns (add_occurrence n o) ∙ recorded-add_occurrence n ns o

-- A key of a name, which is not empty and has no bracket, and a specification in brackets, of numbers
-- below INT_MAX and ranges between such with one or two delimiters between them, is accepted and loses
-- the specification and all behind it. The occurrences that the specification stands for are appended, in order, to those that the object had; where there are any
-- (a range that runs downwards stands for none), the object is no longer unspecified, and it is
-- marked as a single one exactly if its list then has one number. The rest of it stays.
pub parse_key-meanings :
    (name : Text) (a : Argument) (r : List (Gap × Argument)) (tail : Text) (o : Occurrence)
    → 0 < length name
    → all (λ x. not (b'[' == x) && not (b']' == x)) name ≡ true
    → IsArgument a
    → AreArguments r
    → parse_key_for_occurrences (name ++ b'[' ∷ (specification_text a r ++ b']' ∷ tail)) o
      ≡ done (true, name, recorded (meanings a r) o)
parse_key-meanings name a r tail o filled clean h hr =
    parse_key-add_all name a r tail o filled clean h hr
    ∙ ap (λ (q : Occurrence). done (true, name, q)) (add_all-recorded (meanings a r) o)
