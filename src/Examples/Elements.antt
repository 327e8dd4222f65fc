-- ===== src/Examples/Elements.antt =====
-- Elements of PmtElement.cpp with instances that are numbered as they are made.
use pmt.Common.{
  Option, none, ℕ, ◌+◌, ◌-◌, ◌^◌, ◌≡◌, refl, true, some, List, [], ◌∷◌, length, get_elem?, arith,
}
use pmt.Common.Text.{Text}
use pmt.Composite.{Object, Heap, metadata}
use pmt.Composite.Numbering.{occurrence_of, numbers}
use pmt.Element.{
  Metadata, Declaration, get_from_vector, create_from_factory, get_or_create, create_occurrences,
  fill, rounds_of, get_filled, get_checking_for_min_occurrences, delete_from_vector, collapse,
}
use pmt.Element.Create.{Gives, get_from_vector-Gives}
use pmt.Element.Delete.{renumber, delete_from_vector_lem}
use pmt.Element.Numbered.{IsDistinct, IsNumbered, delete_from_vector-IsNumbered}
use pmt.Element.Enough.{NeverRefuses, get_from_vector-made}

-- The store counts the instances made, and has the numbers that were set last first.
abbrev counting : Metadata ℕ (ℕ × List (ℕ × ℕ))
counting = record {
  create = λ parent key s. (some s.0, (s.0 + 1, s.1));
  set_parent = λ m parent s. s;
  set_occurrence = λ m n s. (s.0, (m, n) ∷ s.1);
  set_multiple_occurrence = λ m b s. s;
}

abbrev up_to_five : Declaration
up_to_five = record { full_key = b'A' ∷ []; min_occurs = 1; max_occurs = 5; nillable = [] }

counting-NeverRefuses : NeverRefuses counting 9 up_to_five.full_key
counting-NeverRefuses s = (s.0, refl)

-- Occurrence 2 of an empty vector: three instances are made.
made_three : (get_from_vector counting 9 up_to_five 2 true [] (7, [])) ≡ record {
  result = some 9;
  items = 7 ∷ 8 ∷ 9 ∷ [];
  store = (10, (9, 2) ∷ (8, 1) ∷ (7, 0) ∷ []);
}
unfolding get_from_vector create_from_factory get_or_create create_occurrences fill rounds_of
    get_filled get_checking_for_min_occurrences
made_three = refl

-- `minOccurs="-1"`, which is 2 ^ 32 - 1 as an `unsigned int`: asking for occurrence 0 makes that one.
abbrev minus_one : Declaration
minus_one = record { full_key = b'A' ∷ []; min_occurs = 2 ^ 32 - 1; max_occurs = 5; nillable = [] }

made_one : (get_from_vector counting 9 minus_one 0 true [] (7, [])).items ≡ 7 ∷ []
unfolding get_from_vector create_from_factory get_or_create create_occurrences fill rounds_of
    get_filled get_checking_for_min_occurrences
made_one = refl

get_from_vector-Gives_example :
    Gives counting 9 up_to_five 2 [] (get_from_vector counting 9 up_to_five 2 true [] (7, []))
get_from_vector-Gives_example = get_from_vector-Gives counting 9 up_to_five 2 true [] (7, [])

get_from_vector-made_example :
    ((m : ℕ) × ((get_from_vector counting 9 up_to_five 2 true [] (7, [])).result ≡ some m)
      × (get_elem? (get_from_vector counting 9 up_to_five 2 true [] (7, [])).items 2 ≡ some m))
    × (length (get_from_vector counting 9 up_to_five 2 true [] (7, [])).items ≡ 3)
get_from_vector-made_example =
    get_from_vector-made counting 9 up_to_five counting-NeverRefuses (omega arith) 2 [] (7, [])
      (omega arith) (omega arith)

-- Deleting occurrence 1 of three numbers the last instance anew; deleting occurrence 8 takes out
-- the last.
delete_from_vector_lem_example :
    delete_from_vector counting 1 (4 ∷ 5 ∷ 6 ∷ []) (7, [])
    ≡ (4 ∷ 6 ∷ [], renumber counting 1 (6 ∷ []) (7, []))
delete_from_vector_lem_example = delete_from_vector_lem counting 1 (4 ∷ 5 ∷ 6 ∷ []) (7, [])

delete_past_end : delete_from_vector counting 8 (4 ∷ 5 ∷ 6 ∷ []) (7, []) ≡ (4 ∷ 5 ∷ [], (7, []))
unfolding delete_from_vector collapse
delete_past_end = refl

abbrev numbered : ℕ → Object
numbered n = record {
  full_key = [];
  parent = none;
  occurrence = n;
  multiple_occurrence = true;
  model_group = none;
}

-- A heap of three leaves with their occurrences.
abbrev three_leaves : Heap
three_leaves = numbered 0 ∷ numbered 1 ∷ numbered 2 ∷ []

abbrev no_prototype : Text → Option Object
no_prototype key = none

abbrev three : List ℕ
three = 0 ∷ 1 ∷ 2 ∷ []

three-IsDistinct : IsDistinct three
unfolding IsDistinct
three-IsDistinct = ((omega arith, (omega arith, tt)), ((omega arith, tt), (tt, tt)))

three-IsNumbered : IsNumbered (metadata no_prototype) (numbers no_prototype) 0 three three_leaves
unfolding IsNumbered occurrence_of
three-IsNumbered = (refl, (refl, (refl, tt)))

delete_from_vector-IsNumbered_example :
    IsNumbered
      (metadata no_prototype)
      (numbers no_prototype)
      0
      (delete_from_vector (metadata no_prototype) 1 three three_leaves).0
      (delete_from_vector (metadata no_prototype) 1 three three_leaves).1
    × IsDistinct (delete_from_vector (metadata no_prototype) 1 three three_leaves).0
delete_from_vector-IsNumbered_example =
    delete_from_vector-IsNumbered (metadata no_prototype) (numbers no_prototype) 1 three
      three_leaves (omega arith, (omega arith, (omega arith, tt))) three-IsNumbered three-IsDistinct
