-- ===== src/Composite/Search.antt =====
-- getMetadataPath of src/PmtCore/PmtCompositeMetadata.cpp: all the leaves that a key path
-- with wildcards names.
--
-- One occurrence object serves a whole search: the loops in a child composite start it again, and the
-- loop of the parent then goes on from where the child left it.
use pmt.Common.{
  ℕ, zero, suc, ◌+◌, ◌-◌, Bool, false, Option, none, some, List, [], ◌∷◌, ◌++◌, ltb, ◌==◌,
  if◌then◌else◌, length, map, text_eq,
}
use pmt.Common.Run.{Run, done, undefined, out_of_fuel, ◌>>=◌}
use pmt.Common.Text.{char_at, Text, find, substr}
use pmt.Key
use pmt.Occurrence
use pmt.Occurrence.{Occurrence}
use pmt.Composite.{
  Object, Heap, group_of, is_composite, entries, get_wildcard_max, split_level, parse_level,
  get_metadatum_occurrence,
}

-- The iterator that is filled, the occurrence, and the heap.
pub record Search : Type 0 where
  pub iter : List ℕ
  pub occurrence : Occurrence
  pub heap : Heap

-- The keys of `mMdIterList`: no search changes them.
unfoldable pub keys : ℕ → Heap → List Text
keys this heap = elim (group_of heap this) [
  | none ↦ []
  | some g ↦ map (λ (x : Text × _). x.0) (entries g)
]

-- getWildcardMax of the composite.
unfoldable pub wildcard_max : ℕ → Text → Heap → ℕ
wildcard_max this key heap = elim (group_of heap this) [
  | none ↦ 0
  | some g ↦ get_wildcard_max key (entries g)
]

-- `while (occurNum < getWildcardMax(key))`
unfoldable pub wildcard_loop : ℕ → ℕ → Text → (ℕ → Search → Run Search) → ℕ → Search → Run Search
wildcard_loop zero this key body occur_num st = out_of_fuel
wildcard_loop (suc fuel) this key body occur_num st =
    let round = (do
      st' ← body occur_num st
      wildcard_loop fuel this key body (occur_num + 1) st') in
    if ltb occur_num (wildcard_max this key st.heap) then round else done st

-- `while (occurNum != OCCURRENCE_END)`, from what `start` or `next` returned.
unfoldable pub occurrence_loop : ℕ → (ℕ → Search → Run Search) → Option ℕ → Search → Run Search
occurrence_loop zero body at st = out_of_fuel
occurrence_loop (suc fuel) body none st = done st
occurrence_loop (suc fuel) body (some occur_num) st = do
  st' ← body occur_num st
  let (at', occurrence') = Occurrence.next st'.occurrence
  occurrence_loop fuel body at' (record st' { occurrence = occurrence' })

-- The loop over the occurrences asked for, wildcard or not.
unfoldable pub for_occurrences : ℕ → Text → (ℕ → Search → Run Search) → Search → Run Search
for_occurrences this key body st =
    let (at, occurrence') = Occurrence.start st.occurrence in
    if st.occurrence.is_wildcard
    then wildcard_loop (wildcard_max this key st.heap + 1) this key body 0 st
    else occurrence_loop (length st.occurrence.occurrences + 2) body at
        (record st { occurrence = occurrence' })

-- A loop over `mMdIterList`.
unfoldable pub for_keys : List Text → (Text → Search → Run Search) → Search → Run Search
for_keys [] body st = done st
for_keys (key ∷ ks) body st = do st' ← body key st; for_keys ks body st'

-- `key.find(myKey) == 0`
unfoldable pub starts_with : Text → Text → Bool
starts_with my_key key = elim (find my_key key) [ none ↦ false | some pos ↦ pos == 0 ]

-- A body that runs only for the keys that start with `my_key`.
unfoldable pub only_under : Text → (Text → Search → Run Search) → Text → Search → Run Search
only_under my_key body key st =
    let found = body key st in if starts_with my_key key then found else done st

module _ (prototype : Text → Option Object) (create_if_not_exists : Bool) where
  -- What is done with the instance that getMetadatumOccurrence returns: a composite is searched, a
  -- leaf is inserted.
  unfoldable pub visit : (ℕ → Search → Run Search) → ℕ → Text → ℕ → Search → Run Search
  visit under this key occur_num st =
      let (md, heap') =
        get_metadatum_occurrence prototype this key create_if_not_exists occur_num st.heap in
      let st' : Search = record st { heap = heap' } in
      elim md [
        | none ↦ done st'
        | some m ↦
            if is_composite heap' m
            then under m st'
            else done (record st' { iter = st.iter ++ m ∷ [] })
      ]

  -- getMetadataAllUnderForOccurrences; the fuel bounds the depth of the composites.
  unfoldable pub get_metadata_all_under : ℕ → ℕ → Search → Run Search
  get_metadata_all_under zero this st = out_of_fuel
  get_metadata_all_under (suc fuel) this st =
      for_keys (keys this st.heap)
        (λ key st'. for_occurrences this key (visit (get_metadata_all_under fuel) this key) st') st

  -- getMetadataKeyMultiLevelWildcard
  unfoldable pub get_metadata_key_wildcard : ℕ → ℕ → Text → Search → Run Search
  get_metadata_key_wildcard fuel this my_key st =
      for_keys (keys this st.heap)
        (only_under my_key
          (λ key st'. for_occurrences this key (visit (get_metadata_all_under fuel) this key) st'))
        st

  -- getMetadataPathOccurrenceAndRemainder; `again` searches a child composite, which has an
  -- occurrence object of its own.
  unfoldable pub path_occurrence_and_remainder :
      (ℕ → Text → Search → Run Search) → ℕ → Text → Text → ℕ → Search → Run Search
  path_occurrence_and_remainder again this remainder key occur_num st =
      visit
        (λ m st'. elim remainder [
          | [] ↦ done st'
          | c ∷ rest ↦ do
            st2 ← again m (c ∷ rest) st'
            done (record st2 { occurrence = st'.occurrence })
        ])
        this key occur_num st

  -- getMetadataPathOccurrence
  unfoldable pub path_occurrence :
      (ℕ → Text → Search → Run Search) → ℕ → Text → Text → ℕ → Search → Run Search
  path_occurrence again this cur_level remainder occur_num st =
      let each = λ (key : Text) (st' : Search).
        path_occurrence_and_remainder again this remainder key occur_num st' in
      let all_but_last = substr cur_level 0 (length cur_level - 1) in
      let by_prefix = for_keys (keys this st.heap) (only_under all_but_last each) st in
      if text_eq cur_level (Key.single_level_wildcard_char ∷ [])
      then for_keys (keys this st.heap) each st
      else if char_at cur_level (length cur_level - 1) == Key.single_level_wildcard_char
      then by_prefix
      else each cur_level st

  -- getMetadataPath behind the parsing of its first level. The last character of an empty level is
  -- read out of bounds.
  unfoldable pub path_level :
      ℕ → (ℕ → Text → Search → Run Search) → ℕ → Text → Text → Search → Run Search
  path_level depth again this level remainder st =
      let by_prefix = get_metadata_key_wildcard depth this (substr level 0 (length level - 1)) st in
      let by_path = for_occurrences this level (path_occurrence again this level remainder) st in
      if text_eq level (Key.multi_level_wildcard_char ∷ [])
      then get_metadata_all_under depth this st
      else if length level == 0
      then undefined
      else if char_at level (length level - 1) == Key.multi_level_wildcard_char
      then by_prefix
      else by_path

  -- getMetadataPath; `fuel` bounds the levels of the path, `depth` those of the composites.
  unfoldable pub get_metadata_path : ℕ → ℕ → ℕ → Text → Search → Run Search
  get_metadata_path depth zero this key st = out_of_fuel
  get_metadata_path depth (suc fuel) this [] st = done st
  get_metadata_path depth (suc fuel) this (c ∷ key) st = do
    let (cur_level, remainder) = split_level (c ∷ key)
    (parsed, level, occurrence') ← parse_level cur_level
    let searched =
        path_level depth (get_metadata_path depth fuel) this level remainder
          (record st { occurrence = occurrence' })
    if parsed then searched else done st
