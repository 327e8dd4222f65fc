-- ===== src/Composite/Removal.antt =====
-- deleteMetadataPath and deleteMetadataAll of src/PmtCore/PmtCompositeMetadata.cpp.
use pmt.Common.{
  ℕ, zero, suc, ◌+◌, ◌-◌, ◌||◌, Option, none, some, List, [], ◌∷◌, ◌==◌, if◌then◌else◌, length,
  text_eq,
}
use pmt.Common.Run.{Run, done, out_of_fuel, ◌>>=◌}
use pmt.Common.Text.{Text, substr, find_char, char_at}
use pmt.Key
use pmt.Occurrence
use pmt.Occurrence.{Occurrence}
use pmt.Element
use pmt.ModelGroup
use pmt.ModelGroup.{Entry, Group, Groups, group, no_more, ◌and◌}
use pmt.Composite.{
  Object, Heap, group_of, is_composite, put_group, entries, split_level, parse_level, find_metadata,
  metadata,
}
use pmt.Composite.Search.{keys, starts_with}

-- deleteMetadataAll, over the elements of `mMdIterList`.
unfoldable pub empty_entries : {M : Type 0} → List (Entry M) → List (Entry M)
empty_entries [] = []
empty_entries ((k, e) ∷ es) = (k, Element.delete_metadata_all e) ∷ empty_entries es

unfoldable mutual
  pub empty_group : {M : Type 0} → Group M → Group M
  empty_group (group kind es gs) = group kind (empty_entries es) (empty_groups gs)

  pub empty_groups : {M : Type 0} → Groups M → Groups M
  empty_groups no_more = no_more
  empty_groups (g and gs) = empty_group g and empty_groups gs

unfoldable pub delete_metadata_all : ℕ → Heap → Heap
delete_metadata_all this heap = elim (group_of heap this) [
  | none ↦ heap
  | some g ↦ put_group this (empty_group g) heap
]

-- findMetadata of the composite.
unfoldable pub find_in : ℕ → Text → ℕ → Heap → Option ℕ
find_in this key occur_num heap = elim (group_of heap this) [
  | none ↦ none
  | some g ↦ find_metadata key occur_num (entries g)
]

module _ (prototype : Text → Option Object) where
  -- deleteMetadatum
  unfoldable pub delete_metadatum : ℕ → Text → ℕ → Heap → Heap
  delete_metadatum this key occur_num heap = elim (group_of heap this) [
    | none ↦ heap
    | some g ↦
        let (deleted, g', heap') =
          ModelGroup.delete_metadatum (metadata prototype) key occur_num g heap in
        put_group this g' heap'
  ]

  -- `while (occurNum != OCCURRENCE_END)` around deleteMetadatum
  unfoldable pub delete_loop : ℕ → ℕ → Text → Option ℕ → Occurrence → Heap → Run (Occurrence × Heap)
  delete_loop zero this key at occurrence heap = out_of_fuel
  delete_loop (suc fuel) this key none occurrence heap = done (occurrence, heap)
  delete_loop (suc fuel) this key (some occur_num) occurrence heap =
      let (at', occurrence') = Occurrence.next occurrence in
      delete_loop fuel this key at' occurrence' (delete_metadatum this key occur_num heap)

  unfoldable pub delete_occurrences : ℕ → Text → Occurrence → Heap → Run (Occurrence × Heap)
  delete_occurrences this key occurrence heap =
      let (at, occurrence') = Occurrence.start occurrence in
      delete_loop (length occurrence.occurrences + 2) this key at occurrence' heap

  -- deleteMetadataAllForOccurrence
  unfoldable pub delete_all_for_occurrence : ℕ → List Text → Occurrence → Heap → Run Heap
  delete_all_for_occurrence this [] occurrence heap = done heap
  delete_all_for_occurrence this (key ∷ ks) occurrence heap = do
    (occurrence', heap') ← delete_occurrences this key occurrence heap
    delete_all_for_occurrence this ks occurrence' heap'

  -- deleteMetadataKeyWildcard, without its last character
  unfoldable pub delete_key_wildcard : ℕ → Text → List Text → Occurrence → Heap → Run Heap
  delete_key_wildcard this my_key [] occurrence heap = done heap
  delete_key_wildcard this my_key (key ∷ ks) occurrence heap =
      let matched = (do
        (occurrence', heap') ← delete_occurrences this key occurrence heap
        delete_key_wildcard this my_key ks occurrence' heap') in
      let rest = delete_key_wildcard this my_key ks occurrence heap in
      if starts_with my_key key then matched else rest

  -- The loop at the end of deleteMetadataPath. `deeper` is there for a path of more levels: an
  -- occurrence that is no composite then ends the loop.
  unfoldable pub delete_path_loop :
      ℕ → Option (ℕ → Heap → Run Heap) → ℕ → Text → Option ℕ → Occurrence → Heap → Run Heap
  delete_path_loop zero deeper this key at occurrence heap = out_of_fuel
  delete_path_loop (suc fuel) deeper this key none occurrence heap = done heap
  delete_path_loop (suc fuel) deeper this key (some occur_num) occurrence heap =
      let (at', occurrence') = Occurrence.next occurrence in
      let on = delete_path_loop fuel deeper this key at' occurrence' in
      let crnt_md = find_in this key occur_num heap in
      elim deeper [
        | some go ↦ elim crnt_md [
          | none ↦ done heap
          | some m ↦
              let below = (do heap' ← go m heap; on heap') in
              if is_composite heap m then below else done heap
        ]
        | none ↦ elim crnt_md [
          | none ↦ on heap
          | some m ↦ on (delete_metadatum this key occur_num heap)
        ]
      ]

  -- What deleteMetadataPath does with its first level, behind the parsing.
  unfoldable pub delete_level :
      Option (ℕ → Heap → Run Heap) → ℕ → Text → Occurrence → Heap → Run Heap
  delete_level deeper this level occurrence heap =
      let (at, occurrence') = Occurrence.start occurrence in
      let last = char_at level (length level - 1) in
      let all_but_last = substr level 0 (length level - 1) in
      let everything = delete_all_for_occurrence this (keys this heap) occurrence heap in
      let by_prefix = delete_key_wildcard this all_but_last (keys this heap) occurrence heap in
      if text_eq level (Key.multi_level_wildcard_char ∷ []) || length level == 0
      then everything
      else if last == Key.multi_level_wildcard_char
      then by_prefix
      else if text_eq level (Key.single_level_wildcard_char ∷ [])
      then everything
      else if last == Key.single_level_wildcard_char
      then by_prefix
      else delete_path_loop (length occurrence.occurrences + 2) deeper this level at occurrence'
          heap

  -- deleteMetadataPath; the fuel bounds the levels.
  unfoldable pub delete_metadata_path : ℕ → ℕ → Text → Heap → Run Heap
  delete_metadata_path zero this key heap = out_of_fuel
  delete_metadata_path (suc fuel) this key heap =
      let (cur_level, to_process) = split_level key in
      let deeper : Option (ℕ → Heap → Run Heap) = elim (find_char b'.' key) [
        | none ↦ none
        | some pos ↦ some (λ m heap'. delete_metadata_path fuel m to_process heap')
      ] in
      do
        (parsed, level, occurrence) ← parse_level cur_level
        let deleted = delete_level deeper this level occurrence heap
        if parsed then deleted else done heap
