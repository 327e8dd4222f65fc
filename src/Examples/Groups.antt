-- ===== src/Examples/Groups.antt =====
-- Model groups and composites.
use pmt.Common.{
  ◌⊎◌, if◌then◌else◌, text_eq, ℕ, ◌+◌, ◌≤◌, ◌≡◌, refl, false, Option, none, some, [], ◌∷◌, arith,
  length,
}
use pmt.Common.Text.{Text}
use pmt.Element
use pmt.Element.{Metadata, Declaration, Element}
use pmt.ModelGroup.{
  check_key, check_key_from, ok_to_create, does_directly_reside, get_item_index, entry_index,
  any_created, any_created_entry, is_looked_at, is_some, Group, group, no_more, ◌and◌, choice,
  sequence, get_metadatum, delete_metadatum,
}
use pmt.ModelGroup.Created.{count_entries, created_entries, created_children, IsExclusive, count}
use pmt.ModelGroup.Choice.{get_metadatum-IsExclusive}
use pmt.Composite
use pmt.Composite.{Object, Heap, entries, find_metadata}
use pmt.Composite.Stable.{get_metadatum-find_metadata}
use pmt.Composite.Deleted.{delete_metadatum-find_metadata}
use pmt.Composite.Reading.{get_metadatum_lem}
use pmt.Occurrence.Overflow.{HasOverflow}
use pmt.Common.Run.{done, undefined}

abbrev counting : Metadata ℕ ℕ
counting = record {
  create = λ parent key s. (some s, s + 1);
  set_parent = λ m parent s. s;
  set_occurrence = λ m n s. s;
  set_multiple_occurrence = λ m b s. s;
}

abbrev once : Text → Declaration
once key = record { full_key = key; min_occurs = 0; max_occurs = 1; nillable = [] }

abbrev a : Text
a = b'A' ∷ []

abbrev b : Text
b = b'B' ∷ []

-- A choice between A and a sequence of B's.
abbrev either : Group ℕ
either = group choice ((a, Element.optional_or_singular (once a) none) ∷ []) (
    group sequence
      ((
        b,
        Element.vector (record { full_key = b; min_occurs = 0; max_occurs = 4; nillable = [] }) [],
      )
        ∷ [])
      no_more
    and no_more)

b-count : count b either ≤ 1
unfolding count count_entries text_eq
b-count = omega arith

either-IsExclusive : IsExclusive either
unfolding IsExclusive created_entries created_children any_created any_created_entry is_looked_at
    is_some Element.existing
either-IsExclusive = (omega arith, (tt, tt))

get_metadatum-IsExclusive_example : IsExclusive (get_metadatum counting 9 b 1 either 7).1
get_metadatum-IsExclusive_example =
    get_metadatum-IsExclusive counting 9 b 1 either 7 b-count either-IsExclusive

-- Occurrence 1 of B is the second instance that is made.
b-made : (get_metadatum counting 9 b 1 either 7).0 ≡ some 8
unfolding get_metadatum ok_to_create check_key check_key_from does_directly_reside get_item_index
    entry_index text_eq any_created any_created_entry is_looked_at is_some Element.existing
    Element.get_metadatum Element.get_from_vector Element.create_from_factory Element.get_or_create
    Element.create_occurrences Element.fill Element.rounds_of Element.get_filled
    Element.get_checking_for_min_occurrences
b-made = refl

get_metadatum-find_metadata_example :
    find_metadata b 1 (entries (get_metadatum counting 9 b 1 either 7).1) ≡ some 8
get_metadatum-find_metadata_example =
    get_metadatum-find_metadata counting 9 b 1 either 7 8 b-count b-made

-- B has the instances 5 and 6.
abbrev two_b : Group ℕ
two_b = group sequence ((a, Element.optional_or_singular (once a) none) ∷ []) (
    group choice
      ((
        b,
        Element.vector (record { full_key = b; min_occurs = 0; max_occurs = 4; nillable = [] })
            (5 ∷ 6 ∷ []),
      )
        ∷ [])
      no_more
    and no_more)

two_b-count : count b two_b ≤ 1
unfolding count count_entries text_eq
two_b-count = omega arith

two_b-found : find_metadata b 0 (entries two_b) ≡ some 5
unfolding find_metadata entries text_eq Element.existing
two_b-found = refl

delete_metadatum-find_metadata_example :
    find_metadata b 0 (entries (delete_metadatum counting b 0 two_b 7).1)
    ≡ (if text_eq b b then find_metadata b 1 (entries two_b) else find_metadata b 0 (entries two_b))
delete_metadatum-find_metadata_example =
    delete_metadatum-find_metadata counting 0 b two_b 7 5 b 0 two_b-count two_b-found

abbrev leaf : Text → Option Object
leaf key = some (record {
  full_key = key;
  parent = none;
  occurrence = 1;
  multiple_occurrence = false;
  model_group = none;
})

abbrev root : Heap
root =
    record {
      full_key = [];
      parent = none;
      occurrence = 1;
      multiple_occurrence = false;
      model_group = some either;
    }
    ∷ []

get_metadatum_lem_example :
    ((md : Option ℕ) × (Composite.get_metadatum leaf (length b + 1) 0 b false root
        ≡ done (md, root)))
    ⊎ ((Composite.get_metadatum leaf (length b + 1) 0 b false root ≡ undefined) × HasOverflow b)
get_metadatum_lem_example = get_metadatum_lem leaf 0 b root
