-- ===== src/Composite.antt =====
-- src/PmtCore/PmtCompositeMetadata.h and PmtCompositeMetadata.cpp: a metadata instance that holds
-- others by key, and getMetadatum, which follows a key path through them.
--
-- Instances are shared, so that they stand in a heap and are named by handles. What the factory of
-- src/Ek/EkFactoryT.h clones is a parameter, `prototype`. The model group of a composite is never
-- NULL: the schema's interpreter makes one for each.
pub mod Search
pub mod Removal
pub mod Requests
pub mod Lookup
pub mod Numbering
pub mod Emptied
pub mod Flat
pub mod Deleted
pub mod Stable
pub mod Reading
pub mod Sharing
pub mod Missed
use pmt.Common.{
  ℕ, zero, suc, ◌+◌, ◌-◌, Bool, true, false, not, ◌&&◌, ◌||◌, Option, none, some, List, [], ◌∷◌,
  ◌++◌, ltb, ◌==◌, if◌then◌else◌, length, get_elem?, set, text_eq,
}
use pmt.Common.Run.{Run, done, undefined, out_of_fuel, ◌>>=◌}
use pmt.Common.Text.{Text, find_char, substr, substr_from}
use pmt.Key
use pmt.Occurrence
use pmt.Occurrence.{Occurrence}
use pmt.Element
use pmt.Element.{Element, Metadata}
use pmt.ModelGroup
use pmt.ModelGroup.{Entry, Group, Groups, group, no_more, ◌and◌}

-- The fields of PmtMetadata that a composite reads or writes. A leaf has no `model_group`.
pub record Object : Type 0 where
  pub full_key : Text
  pub parent : Option ℕ
  pub occurrence : ℕ
  pub multiple_occurrence : Bool
  pub model_group : Option (Group ℕ)

abbrev pub Heap : Type 0
Heap = List Object

unfoldable pub update : (Object → Object) → ℕ → Heap → Heap
update f m heap = elim (get_elem? heap m) [ none ↦ heap | some o ↦ set heap m (f o) ]

unfoldable pub group_of : Heap → ℕ → Option (Group ℕ)
group_of heap m = elim (get_elem? heap m) [ none ↦ none | some o ↦ o.model_group ]

unfoldable pub is_composite : Heap → ℕ → Bool
is_composite heap m = elim (group_of heap m) [ none ↦ false | some g ↦ true ]

unfoldable pub put_group : ℕ → Group ℕ → Heap → Heap
put_group m g heap = update (λ o. record o { model_group = some g }) m heap

-- `mMdIterList` in the order that a clone has: a group's own keys, then those of its children.
unfoldable mutual
  pub entries : {M : Type 0} → Group M → List (Entry M)
  entries (group kind es gs) = es ++ entries_of_all gs

  pub entries_of_all : {M : Type 0} → Groups M → List (Entry M)
  entries_of_all no_more = []
  entries_of_all (g and gs) = entries g ++ entries_of_all gs

module _ {M : Type 0} where
  -- findMetadata, over `mMdIterList`
  unfoldable pub find_metadata : Text → ℕ → List (Entry M) → Option M
  find_metadata key occur_num [] = none
  find_metadata key occur_num ((k, e) ∷ es) =
      let later = find_metadata key occur_num es in
      if text_eq k key
      then elim (Element.existing occur_num e) [ some m ↦ some m | none ↦ later ]
      else later

  unfoldable pub get_wildcard_max : Text → List (Entry M) → ℕ
  get_wildcard_max key [] = 0
  get_wildcard_max key ((k, e) ∷ es) =
      let later = get_wildcard_max key es in
      let count = Element.get_wildcard_max e in
      if text_eq k key then (if count == 0 then later else count) else later

  unfoldable pub is_empty : List (Entry M) → Bool
  is_empty [] = true
  is_empty ((k, e) ∷ es) = let later = is_empty es in if Element.is_empty e then later else false

-- The first level of a path, and the rest.
unfoldable pub split_level : Text → Text × Text
split_level key = elim (find_char b'.' key) [
  | none ↦ (key, [])
  | some pos ↦ (substr key 0 pos, substr_from key (pos + 1))
]

unfoldable pub is_occurrence_specified : Text → Bool
is_occurrence_specified key = elim (find_char b'[' key) [ none ↦ false | some pos ↦ true ]

-- The occurrence of a level, which is taken off it; false for a bad specification.
unfoldable pub parse_level : Text → Run (Bool × Text × Occurrence)
parse_level cur_level =
    if is_occurrence_specified cur_level
    then Occurrence.parse_key_for_occurrences cur_level Occurrence.new
    else done (true, cur_level, Occurrence.new)

module _ (prototype : Text → Option Object) where
  unfoldable pub create_object : ℕ → Text → Heap → Option ℕ × Heap
  create_object parent key heap = elim (prototype key) [
    | none ↦ (none, heap)
    | some o ↦ (some (length heap), heap ++ o ∷ [])
  ]

  unfoldable pub metadata : Metadata ℕ Heap
  metadata = record {
    create = create_object;
    set_parent = λ m p heap. update (λ o. record o { parent = some p }) m heap;
    set_occurrence = λ m n heap. update (λ o. record o { occurrence = n }) m heap;
    set_multiple_occurrence = λ m b heap. update (λ o. record o { multiple_occurrence = b }) m heap;
  }

  unfoldable pub get_metadatum_occurrence : ℕ → Text → Bool → ℕ → Heap → Option ℕ × Heap
  get_metadatum_occurrence this cur_level create_if_not_exists occur_num heap =
      elim (group_of heap this) [
        | none ↦ (none, heap)
        | some g ↦
            let (md, g', heap') =
              ModelGroup.get_metadatum metadata this cur_level occur_num g heap in
            elim (find_metadata cur_level occur_num (entries g)) [
              | some m ↦ (some m, heap)
              | none ↦ if create_if_not_exists then (md, put_group this g' heap') else (none, heap)
            ]
      ]

  -- One level of getMetadatum, behind the parsing, and the next levels of the instance found.
  unfoldable pub get_level :
      (ℕ → Text → Heap → Run (Option ℕ × Heap))
      → ℕ
      → Bool
      → Text
      → Bool × Text × Occurrence
      → Heap
      → Run (Option ℕ × Heap)
  get_level again this create_if_not_exists remainder (parsed, level, occurrence) heap =
      if parsed && (occurrence.is_unspecified || occurrence.is_explicitly_specified_single)
      then elim (Occurrence.start occurrence).0 [
        | none ↦ undefined
        | some occur_num ↦
            let (md, heap') =
              get_metadatum_occurrence this level create_if_not_exists occur_num heap in
            elim remainder [
              | [] ↦ done (md, heap')
              | c ∷ rest ↦ elim md [ none ↦ done (none, heap') | some m ↦ again m (c ∷ rest) heap' ]
            ]
      ]
      else done (none, heap)

  -- getMetadatum of either class of metadata: a leaf returns NULL. The fuel bounds the levels.
  unfoldable pub get_metadatum : ℕ → ℕ → Text → Bool → Heap → Run (Option ℕ × Heap)
  get_metadatum zero this key create_if_not_exists heap = out_of_fuel
  get_metadatum (suc fuel) this key create_if_not_exists heap =
      let again : ℕ → Text → Heap → Run (Option ℕ × Heap) =
        λ m rest heap'. get_metadatum fuel m rest create_if_not_exists heap' in
      if is_composite heap this
      then (do
        (ok, parsed_key) ← Key.parse_key key []
        let (cur_level, remainder) = split_level parsed_key
        let level = do
          l ← parse_level cur_level
          get_level again this create_if_not_exists remainder l heap
        if ok then level else done (none, heap))
      else done (none, heap)
