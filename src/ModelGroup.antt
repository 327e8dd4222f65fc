-- ===== src/ModelGroup.antt =====
-- src/PmtCore/PmtModelGroup.h and PmtModelGroup.cpp: the `<sequence>` and `<choice>` groups of a
-- schema, with the keys and the child groups of each.
pub mod Unchanged
pub mod Created
pub mod Choice
pub mod Delete
use pmt.Common.{
  ℕ, zero, suc, ◌+◌, ◌-◌, Bool, true, false, not, ◌&&◌, ◌||◌, Option, none, some, List, [], ◌∷◌,
  ◌++◌, ltb, ◌==◌, if◌then◌else◌, length, set, text_eq,
}
use pmt.Common.Text.{Text}
use pmt.Element
use pmt.Element.{Element, Metadata, Declaration}

-- The class of a group: PmtSequenceModelGroup or PmtChoiceModelGroup.
pub data Kind : Type 0 where
  sequence : Kind
  choice : Kind

-- The pairs of PmtMetadataList.
abbrev pub Entry : Type 0 → Type 0
Entry M = Text × Element M

-- A group: its class, `mMdList` and `mChildren`. A group belongs to one parent, so that a tree of
-- values stands for the shared pointers.
infixr 20 ◌and◌
mutual
  pub data Group (M : Type 0) : Type 0 where
    group : Kind → List (Entry M) → Groups M → Group M

  pub data Groups (M : Type 0) : Type 0 where
    no_more : Groups M
    ◌and◌ : Group M → Groups M → Groups M

-- `(indexToSkip == -1) || (counter != indexToSkip)`
unfoldable pub is_looked_at : Option ℕ → ℕ → Bool
is_looked_at none counter = true
is_looked_at (some index_to_skip) counter = not (counter == index_to_skip)

module _ {M : Type 0} where
  -- The iterator that checkKey returns: its position and the element it points to; the end is `none`.
  unfoldable pub check_key_from : ℕ → Text → List (Entry M) → Option (ℕ × Element M)
  check_key_from counter key [] = none
  check_key_from counter key ((k, e) ∷ entries) =
      if text_eq k key then some (counter, e) else check_key_from (counter + 1) key entries

  unfoldable pub check_key : Text → List (Entry M) → Option (ℕ × Element M)
  check_key key entries = check_key_from 0 key entries

  unfoldable pub does_directly_reside : Text → List (Entry M) → Bool
  does_directly_reside key entries = elim (check_key key entries) [ none ↦ false | some it ↦ true ]

  -- getItemIndex, whose -1 is `none`: the loop over the keys, then that over the child groups.
  unfoldable pub entry_index : ℕ → Text → List (Entry M) → Option ℕ
  entry_index index key [] = none
  entry_index index key ((k, e) ∷ entries) =
      if text_eq k key then some index else entry_index (index + 1) key entries

  unfoldable mutual
    pub get_item_index : Text → Group M → Option ℕ
    get_item_index key (group kind entries children) = elim (entry_index 0 key entries) [
      | some index ↦ some index
      | none ↦ child_index (length entries) key children
    ]

    pub child_index : ℕ → Text → Groups M → Option ℕ
    child_index index key no_more = none
    child_index index key (g and gs) = elim (get_item_index key g) [
      | some i ↦ some index
      | none ↦ child_index (index + 1) key gs
    ]

  unfoldable pub is_some : Option M → Bool
  is_some none = false
  is_some (some m) = true

  unfoldable pub any_created_entry : ℕ → Option ℕ → List (Entry M) → Bool
  any_created_entry counter index_to_skip [] = false
  any_created_entry counter index_to_skip ((k, e) ∷ entries) =
      (is_looked_at index_to_skip counter && is_some (Element.existing 0 e))
      || any_created_entry (counter + 1) index_to_skip entries

  unfoldable mutual
    pub any_created : Option ℕ → Group M → Bool
    any_created index_to_skip (group kind entries children) =
        any_created_entry 0 index_to_skip entries
        || any_created_child (length entries) index_to_skip children

    pub any_created_child : ℕ → Option ℕ → Groups M → Bool
    any_created_child counter index_to_skip no_more = false
    any_created_child counter index_to_skip (g and gs) =
        (is_looked_at index_to_skip counter && any_created none g)
        || any_created_child (counter + 1) index_to_skip gs

  -- okToCreate of either class. `ok_to_create_at index` is that of the child that
  -- getModelGroupFromIndex returns, and false where it returns NULL.
  unfoldable mutual
    pub ok_to_create : Text → Group M → Bool
    ok_to_create key (group sequence entries children) =
        if does_directly_reside key entries
        then true
        else elim (get_item_index key (group sequence entries children)) [
          | none ↦ false
          | some index ↦
              if ltb index (length entries)
              then false
              else ok_to_create_at (index - length entries) key children
        ]
    ok_to_create key (group choice entries children) =
        elim (get_item_index key (group choice entries children)) [
          | none ↦ false
          | some index ↦
              if any_created (some index) (group choice entries children)
              then false
              else if does_directly_reside key entries
              then true
              else if ltb index (length entries)
              then false
              else ok_to_create_at (index - length entries) key children
        ]

    pub ok_to_create_at : ℕ → Text → Groups M → Bool
    ok_to_create_at index key no_more = false
    ok_to_create_at zero key (g and gs) = ok_to_create key g
    ok_to_create_at (suc index) key (g and gs) = ok_to_create_at index key gs

  unfoldable pub append_child : Groups M → Group M → Groups M
  append_child no_more child = child and no_more
  append_child (g and gs) child = g and append_child gs child

  unfoldable pub add_child_model_group : Group M → Group M → Group M
  add_child_model_group child (group kind entries children) =
      group kind entries (append_child children child)

  -- The key comes last among the group's own. The composite's list of keys is in the same order.
  unfoldable pub add_metadata_key : Text → Declaration → Group M → Group M
  add_metadata_key key d (group kind entries children) =
      group kind (entries ++ (key, Element.create d) ∷ []) children

-- addMetadataKey from the texts of the attributes.
unfoldable pub add_metadata_key_from_texts :
    {M : Type 0} → Text → Text → Text → Text → Text → Group M → Option (Group M)
add_metadata_key_from_texts key full_key min_attr max_attr nillable (group kind entries children) =
    elim (Element.create_from_texts full_key min_attr max_attr nillable) [
      | none ↦ none
      | some element ↦ some (group kind (entries ++ (key, element) ∷ []) children)
    ]

module _ {M S : Type 0} (metadata : Metadata M S) (parent : M) where
  unfoldable mutual
    pub get_metadatum : Text → ℕ → Group M → S → Option M × Group M × S
    get_metadatum key occur_num (group kind entries children) s =
        let (found, children', s1) = get_from_children key occur_num children s in
        if ok_to_create key (group kind entries children)
        then elim (check_key key entries) [
          | none ↦ (found, group kind entries children', s1)
          | some (i, e) ↦
              let (md, e', s2) = Element.get_metadatum metadata parent occur_num true e s in
              (md, group kind (set entries i (key, e')) children, s2)
        ]
        else (none, group kind entries children, s)

    -- The loop over the children, which stops at the first that returns an instance.
    pub get_from_children : Text → ℕ → Groups M → S → Option M × Groups M × S
    get_from_children key occur_num no_more s = (none, no_more, s)
    get_from_children key occur_num (g and gs) s =
        let (md, g', s1) = get_metadatum key occur_num g s in
        let (md', gs', s2) = get_from_children key occur_num gs s1 in
        elim md [ some m ↦ (some m, g' and gs, s1) | none ↦ (md', g' and gs', s2) ]

module _ {M S : Type 0} (metadata : Metadata M S) where
  unfoldable mutual
    pub delete_metadatum : Text → ℕ → Group M → S → Bool × Group M × S
    delete_metadatum key occur_num (group kind entries children) s =
        let (deleted, children', s1) = delete_from_children key occur_num children s in
        elim (check_key key entries) [
          | none ↦ (deleted, group kind entries children', s1)
          | some (i, e) ↦
              let (e', s2) = Element.delete_metadatum metadata occur_num e s in
              (true, group kind (set entries i (key, e')) children, s2)
        ]

    -- The loop over the children, which stops at the first that knows the key.
    pub delete_from_children : Text → ℕ → Groups M → S → Bool × Groups M × S
    delete_from_children key occur_num no_more s = (false, no_more, s)
    delete_from_children key occur_num (g and gs) s =
        let (deleted, g', s1) = delete_metadatum key occur_num g s in
        let (deleted', gs', s2) = delete_from_children key occur_num gs s1 in
        if deleted then (true, g' and gs, s1) else (deleted', g' and gs', s2)
