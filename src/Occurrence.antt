-- ===== src/Occurrence.antt =====
-- src/PmtCore/PmtOccurrence.h and PmtOccurrence.cpp: the occurrences that a key names in brackets,
-- as in `Name[2]`, `Name[0-3,7]` and `Name[*]`. An `int` is a natural number here, since only digits
-- are read; what `atoi` and `++` leave undefined past INT_MAX is `undefined`.
pub mod Parse
pub mod Specification
pub mod Brackets
pub mod Ends
pub mod Overflow
pub mod Listed
pub mod Visits
use pmt.Common.{
  ℕ, zero, suc, ◌+◌, ◌-◌, ◌*◌, ◌^◌, Bool, true, false, not, ◌&&◌, Option, none, some, List, [], ◌∷◌,
  ◌++◌, ltb, leb, ◌==◌, if◌then◌else◌, length, get_elem?, all, text_eq,
}
use pmt.Common.Run.{Run, done, undefined, out_of_fuel, ◌>>=◌}
use pmt.Common.Text.{Text, find_char, substr, substr_from, find_first_not_of, find_first_of}

abbrev pub int_max : ℕ
int_max = 2 ^ 31 - 1

-- PMT_OCCURRENCE_DELIMS
abbrev pub delims : Text
delims = b' ' ∷ b',' ∷ []

pub record Occurrence : Type 0 where
  pub is_unspecified : Bool
  pub is_wildcard : Bool
  pub is_explicitly_specified_single : Bool
  pub occurrences : List ℕ
  pub index : ℕ

-- The constructor.
abbrev pub new : Occurrence
new = record {
  is_unspecified = true;
  is_wildcard = false;
  is_explicitly_specified_single = false;
  occurrences = [];
  index = 0;
}

unfoldable pub add_occurrence : ℕ → Occurrence → Occurrence
add_occurrence occurrence o =
    let all_of = o.occurrences ++ occurrence ∷ [] in
    record o {
      occurrences = all_of;
      is_explicitly_specified_single = length all_of == 1;
      is_unspecified = false;
    }

abbrev pub is_digit : ℕ → Bool
is_digit c = leb b'0' c && leb c b'9'

-- The empty text passes.
unfoldable pub is_number : Text → Bool
is_number s = all is_digit s

-- `atoi` of a text of digits: 0 for the empty text.
unfoldable pub digits_value : ℕ → Text → ℕ
digits_value n [] = n
digits_value n (c ∷ s) = digits_value (n * 10 + (c - b'0')) s

unfoldable pub atoi : Text → Run ℕ
atoi s = let n = digits_value 0 s in if leb n int_max then done n else undefined

-- `for (;numOne <= numTwo;numOne++) addOccurrence(numOne);` over the rounds left
unfoldable pub add_range : ℕ → ℕ → Occurrence → Occurrence
add_range zero num_one o = o
add_range (suc rounds) num_one o = add_range rounds (num_one + 1) (add_occurrence num_one o)

unfoldable pub parse_range : Text → ℕ → Occurrence → Run (Bool × Occurrence)
parse_range argument pos o =
    let part_one = substr argument 0 pos in
    let part_two = substr_from argument (pos + 1) in
    if is_number part_one && is_number part_two
    then (do
      num_one ← atoi part_one
      num_two ← atoi part_two
      let overflows = leb num_one num_two && num_two == int_max
      let added = done (true, add_range (num_two + 1 - num_one) num_one o)
      if overflows then undefined else added)
    else done (false, o)

unfoldable pub parse_argument : Text → Occurrence → Run (Bool × Occurrence)
parse_argument argument o = elim (find_char b'-' argument) [
  | none ↦
      if is_number argument
      then (do result ← atoi argument; done (true, add_occurrence result o))
      else done (false, o)
  | some pos ↦ parse_range argument pos o
]

-- The loop over the arguments. `find_first_not_of` never returns `npos`, so only the branch with no
-- delimiter left, or a bad argument, ends it.
unfoldable pub specification_loop : ℕ → Text → ℕ → Occurrence → Run (Bool × Occurrence)
specification_loop zero my_string pos o = out_of_fuel
specification_loop (suc fuel) my_string pos o =
    let my_string' = substr_from my_string pos in
    elim (find_first_of delims my_string') [
      | none ↦ parse_argument my_string' o
      | some pos2 ↦ do
        (result, o') ← parse_argument (substr my_string' 0 pos2) o
        let rest = substr_from my_string' (pos2 + 1)
        let again = specification_loop fuel rest (find_first_not_of delims rest) o'
        if result then again else done (false, o')
    ]

unfoldable pub parse_occurrence_specification : Text → Occurrence → Run (Bool × Occurrence)
parse_occurrence_specification s o =
    if text_eq s (b'*' ∷ [])
    then done (
      true,
      record o {
        is_unspecified = false;
        is_wildcard = true;
        is_explicitly_specified_single = false;
      },
    )
    else specification_loop (length s + 1) s (find_first_not_of delims s) o

-- The result, the key without its specification, and the new state.
unfoldable pub parse_key_for_occurrences : Text → Occurrence → Run (Bool × Text × Occurrence)
parse_key_for_occurrences key o = elim (find_char b'[' key) [
  | none ↦ done (false, key, o)
  | some pos ↦
      if ltb 0 pos
      then elim (find_char b']' key) [
        | none ↦ done (false, key, o)
        | some pos2 ↦
            if ltb pos pos2 && not (pos2 == pos + 1)
            then (do
              (result, o') ←
                  parse_occurrence_specification (substr key (pos + 1) (pos2 - pos - 1)) o
              done (result, substr key 0 pos, o'))
            else done (false, key, o)
      ]
      else done (false, key, o)
]

-- OCCURRENCE_END is `none`.
unfoldable pub next : Occurrence → Option ℕ × Occurrence
next o = if o.is_unspecified then (none, o) else elim (get_elem? o.occurrences o.index) [
  | none ↦ (none, o)
  | some occurrence ↦ (some occurrence, record o { index = o.index + 1 })
]

unfoldable pub start : Occurrence → Option ℕ × Occurrence
start o = if o.is_unspecified then (some 0, o) else next (record o { index = 0 })
