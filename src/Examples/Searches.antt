-- ===== src/Examples/Searches.antt =====
-- Searches through composites, and aliases.
use pmt.Factory.{create, add_entry, remove_entry, find_item}
use pmt.Factory.Registry.{create_lem}
use pmt.Common.{
  true, not, is_found, suc, if◌then◌else◌, ℕ, ◌≡◌, refl, false, Option, none, some, List, [], ◌∷◌,
  ◌++◌, text_eq,
}
use pmt.Common.Run.{done}
use pmt.Common.Text.{Text, find, char_at, is_prefix}
use pmt.Element
use pmt.Element.{Element, Declaration}
use pmt.ModelGroup.{Group, group, no_more, sequence}
use pmt.Occurrence
use pmt.Occurrence.{Occurrence}
use pmt.Aliases.{
  AliasMap, insert, find_entry, find_aliases, all_members, sort, put, unique, unique_after,
  get_key_list, text_ltb,
}
use pmt.Aliases.Range.{IsOrdered, starting_with, find_aliases-starting_with}
use pmt.Aliases.Insert.{insert_lem}
use pmt.Composite.{
  Object, Heap, group_of, is_composite, entries, find_metadata, get_metadatum_occurrence,
}
use pmt.Composite.Removal.{find_in, delete_metadata_all}
use pmt.Composite.Search.{
  Search, keys, wildcard_max, occurrence_loop, for_occurrences, for_keys, starts_with, only_under,
  visit, get_metadata_all_under, get_metadata_key_wildcard,
}
use pmt.Composite.Missed.{for_occurrences-missed}
use pmt.Composite.Emptied.{delete_metadata_all-find_in}

abbrev at_most : ℕ → Text → Declaration
at_most n key = record { full_key = key; min_occurs = 0; max_occurs = n; nillable = [] }

abbrev with_group : Option (Group ℕ) → Object
with_group g = record {
  full_key = [];
  parent = none;
  occurrence = 0;
  multiple_occurrence = false;
  model_group = g;
}

-- A composite with one B.
abbrev inner : ℕ → Object
inner m = with_group (
    some (
      group sequence
        ((b'B' ∷ [], Element.optional_or_singular (at_most 1 (b'B' ∷ [])) (some m)) ∷ []) no_more))

-- The root has two A's, 1 and 2, and each has a B, 3 and 4.
abbrev two_composites : Heap
two_composites =
    with_group (
      some (
        group sequence ((b'A' ∷ [], Element.vector (at_most 2 (b'A' ∷ [])) (1 ∷ 2 ∷ [])) ∷ [])
          no_more))
    ∷ inner 3
    ∷ inner 4
    ∷ with_group none
    ∷ with_group none
    ∷ []

abbrev nothing : Text → Option Object
nothing key = none

-- Occurrences 0 and 1, as `[0,1]` is parsed.
abbrev zero_and_one : Occurrence
zero_and_one = record {
  is_unspecified = false;
  is_wildcard = false;
  is_explicitly_specified_single = false;
  occurrences = 0 ∷ 1 ∷ [];
  index = 0;
}

-- Both A's were asked for; the B of the second is not found.
second_is_missed :
    get_metadata_key_wildcard nothing false 2 0
      (b'A' ∷ [])
      (record { iter = []; occurrence = zero_and_one; heap = two_composites })
    ≡ done (record {
      iter = 3 ∷ [];
      occurrence = record zero_and_one { index = 2 };
      heap = two_composites;
    })
unfolding get_metadata_key_wildcard keys wildcard_max occurrence_loop for_occurrences for_keys
    starts_with only_under visit get_metadata_all_under group_of is_composite entries find_metadata
    get_metadatum_occurrence Occurrence.start Occurrence.next Element.existing find is_prefix
    text_eq
second_is_missed = refl

abbrev both : Search
both = record { iter = []; occurrence = zero_and_one; heap = two_composites }

abbrev in_first : Search
in_first = record {
  iter = 3 ∷ [];
  occurrence = record zero_and_one { index = 2 };
  heap = two_composites;
}

first_a-found :
    get_metadatum_occurrence nothing 0 (b'A' ∷ []) false 0 two_composites ≡ (some 1, two_composites)
unfolding get_metadatum_occurrence group_of entries find_metadata Element.existing text_eq
first_a-found = refl

first_a-is_composite : is_composite two_composites 1 ≡ true
unfolding is_composite group_of
first_a-is_composite = refl

first_a-keys : keys 1 two_composites ≡ (b'B' ∷ []) ∷ []
unfolding keys group_of entries
first_a-keys = refl

-- The search in the first A uses both occurrences up.
first_a-searched :
    get_metadata_all_under nothing false 1 1
      (record both { occurrence = record zero_and_one { index = 1 } })
    ≡ done in_first
unfolding get_metadata_all_under keys wildcard_max occurrence_loop for_occurrences for_keys visit
    group_of is_composite entries find_metadata get_metadatum_occurrence Occurrence.start
    Occurrence.next Element.existing text_eq
first_a-searched = refl

for_occurrences-missed_example :
    for_occurrences 0
      (b'A' ∷ [])
      (visit nothing false (get_metadata_all_under nothing false 1) 0 (b'A' ∷ []))
      both
    ≡ done in_first
for_occurrences-missed_example =
    for_occurrences-missed nothing false 1 0 (b'A' ∷ []) 0 (1 ∷ []) 1 two_composites (b'B' ∷ []) []
      both in_first refl refl refl first_a-found first_a-is_composite first_a-keys first_a-searched

delete_metadata_all-find_in_example :
    find_in 0 (b'A' ∷ []) 1 (delete_metadata_all 0 two_composites) ≡ none
delete_metadata_all-find_in_example = delete_metadata_all-find_in 0 (b'A' ∷ []) 1 two_composites

-- The aliases A, with the keys y and x, and B.
abbrev aliases : AliasMap
aliases = (b'A' ∷ [], (b'y' ∷ []) ∷ (b'x' ∷ []) ∷ (b'y' ∷ []) ∷ []) ∷ (b'B' ∷ [], []) ∷ []

aliases-IsOrdered : IsOrdered aliases
unfolding IsOrdered text_ltb
aliases-IsOrdered = ((refl, tt), (tt, tt))

find_aliases-starting_with_example :
    find_aliases ((b'A' ∷ []) ++ b'*' ∷ []) aliases ≡ done (starting_with (b'A' ∷ []) aliases)
find_aliases-starting_with_example =
    find_aliases-starting_with (b'A' ∷ []) aliases aliases-IsOrdered

insert_lem_example :
    IsOrdered (insert (b'B' ∷ []) ((b'z' ∷ []) ∷ []) aliases)
    × (find_entry (b'A' ∷ []) (insert (b'B' ∷ []) ((b'z' ∷ []) ∷ []) aliases) ≡ (
        if text_eq (b'A' ∷ []) (b'B' ∷ [])
        then (b'B' ∷ [], (b'z' ∷ []) ∷ []) ∷ []
        else find_entry (b'A' ∷ []) aliases))
insert_lem_example = insert_lem (b'B' ∷ []) (b'A' ∷ []) ((b'z' ∷ []) ∷ []) aliases aliases-IsOrdered

-- The keys of A, sorted and without the second y.
keys_of_a : get_key_list (b'A' ∷ []) [] aliases ≡ done ((b'x' ∷ []) ∷ (b'y' ∷ []) ∷ [])
unfolding get_key_list find_aliases find_entry char_at text_eq all_members sort put unique
    unique_after text_ltb
keys_of_a = refl

-- A registry of one prototype.
abbrev one_prototype : List (Text × ℕ)
one_prototype = (b'A' ∷ [], 5) ∷ []

create_lem_example :
    (create suc (b'A' ∷ []) (add_entry (b'A' ∷ []) 7 one_prototype).1 ≡ (
      if (add_entry (b'A' ∷ []) 7 one_prototype).0
      then some 8
      else create suc (b'A' ∷ []) one_prototype))
    × (create suc (b'A' ∷ []) (remove_entry (b'A' ∷ []) one_prototype).1 ≡ none)
    × ((add_entry (b'A' ∷ []) 7 one_prototype).0
        ≡ not (is_found (find_item (b'A' ∷ []) one_prototype)))
unfolding text_eq
create_lem_example = create_lem suc (b'A' ∷ []) (b'A' ∷ []) 7 one_prototype
