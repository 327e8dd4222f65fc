-- ===== src/Composite/Requests.antt =====
-- getMetadata and deleteMetadata of src/PmtCore/PmtCompositeMetadata.cpp: requests by keys, by the
-- names of aliases, or by both.
use pmt.Common.{
  ℕ, ◌+◌, Bool, true, false, ◌||◌, Option, List, [], ◌∷◌, ◌==◌, if◌then◌else◌, length, text_eq,
}
use pmt.Common.Run.{Run, done, ◌>>=◌}
use pmt.Common.Text.{Text}
use pmt.Key
use pmt.Occurrence
use pmt.Aliases.{AliasMap, get_key_list}
use pmt.Composite.{Object, Heap}
use pmt.Composite.Search.{Search, get_metadata_path}
use pmt.Composite.Removal.{delete_metadata_path, delete_metadata_all}

-- PmtEntryTypeEnum
pub data EntryType : Type 0 where
  all_keys : EntryType
  metadata_keys_only : EntryType
  alias_keys_only : EntryType

unfoldable pub with_metadata_keys : EntryType → Bool
with_metadata_keys all_keys = true
with_metadata_keys metadata_keys_only = true
with_metadata_keys alias_keys_only = false

unfoldable pub with_alias_keys : EntryType → Bool
with_alias_keys all_keys = true
with_alias_keys metadata_keys_only = false
with_alias_keys alias_keys_only = true

-- An empty iterator over a heap.
abbrev pub nothing_found : Heap → Search
nothing_found heap = record { iter = []; occurrence = Occurrence.new; heap = heap }

module _ (prototype : Text → Option Object) (aliases : AliasMap) (depth this : ℕ) where
  module _ (create_if_not_exists : Bool) where
    unfoldable pub search_path : Text → Search → Run Search
    search_path key st =
        get_metadata_path prototype create_if_not_exists depth (length key + 1) this key st

    -- getMetadataTopLevelPath for metadata keys only, which is what a member of an alias is.
    unfoldable pub search_member : Text → Search → Run Search
    search_member key st = do
      (ok, parsed_key) ← Key.parse_key key []
      let found = search_path parsed_key st
      if ok then found else done st

    unfoldable pub search_members : List Text → Search → Run Search
    search_members [] st = done st
    search_members (key ∷ ks) st = do st' ← search_member key st; search_members ks st'

    -- getMetadataAlias
    unfoldable pub get_metadata_alias : Text → Search → Run Search
    get_metadata_alias key st = do ks ← get_key_list key [] aliases; search_members ks st

    unfoldable pub get_metadata_top_level_path : EntryType → Text → Search → Run Search
    get_metadata_top_level_path entry_to_search key st = do
      (ok, parsed_key) ← Key.parse_key key []
      let by_key = if with_metadata_keys entry_to_search then search_path parsed_key st else done st
      let by_both = do
        st' ← by_key
        let by_alias = get_metadata_alias parsed_key st'
        if with_alias_keys entry_to_search then by_alias else done st'
      if ok then by_both else done st

  -- getMetadata of a key: the empty key asks for what is there already.
  unfoldable pub get_metadata : Bool → EntryType → Text → Heap → Run Search
  get_metadata create_if_not_exists entry_to_search [] heap =
      get_metadata_top_level_path false metadata_keys_only (b'*' ∷ b'[' ∷ b'*' ∷ b']' ∷ [])
        (nothing_found heap)
  get_metadata create_if_not_exists entry_to_search (c ∷ key) heap =
      get_metadata_top_level_path create_if_not_exists entry_to_search (c ∷ key)
        (nothing_found heap)

  unfoldable pub get_metadata_keys : Bool → EntryType → List Text → Search → Run Search
  get_metadata_keys create_if_not_exists entry_to_search [] st = done st
  get_metadata_keys create_if_not_exists entry_to_search (key ∷ ks) st = do
    st' ← get_metadata_top_level_path create_if_not_exists entry_to_search key st
    get_metadata_keys create_if_not_exists entry_to_search ks st'

  unfoldable pub delete_path : Text → Heap → Run Heap
  delete_path key heap = delete_metadata_path prototype (length key + 1) this key heap

  unfoldable pub delete_members : List Text → Heap → Run Heap
  delete_members [] heap = done heap
  delete_members (key ∷ ks) heap = do heap' ← delete_path key heap; delete_members ks heap'

  -- deleteMetadataAlias
  unfoldable pub delete_metadata_alias : Text → Heap → Run Heap
  delete_metadata_alias key heap = do ks ← get_key_list key [] aliases; delete_members ks heap

  unfoldable pub delete_metadata_top_level_path : EntryType → Text → Heap → Run Heap
  delete_metadata_top_level_path entry_to_search key heap =
      let by_key = if with_metadata_keys entry_to_search then delete_path key heap else done heap in
      do
        heap' ← by_key
        let by_alias = delete_metadata_alias key heap'
        if with_alias_keys entry_to_search then by_alias else done heap'

  -- deleteMetadata of a key: "*[*]" and the empty key delete everything.
  unfoldable pub delete_metadata : EntryType → Text → Heap → Run Heap
  delete_metadata entry_to_search key heap =
      let by_path = delete_metadata_top_level_path entry_to_search key heap in
      let everything =
        if with_metadata_keys entry_to_search
        then done (delete_metadata_all this heap)
        else done heap in
      if text_eq key (b'*' ∷ b'[' ∷ b'*' ∷ b']' ∷ []) || length key == 0
      then everything
      else by_path

  unfoldable pub delete_metadata_keys : EntryType → List Text → Heap → Run Heap
  delete_metadata_keys entry_to_search [] heap = done heap
  delete_metadata_keys entry_to_search (key ∷ ks) heap = do
    heap' ← delete_metadata_top_level_path entry_to_search key heap
    delete_metadata_keys entry_to_search ks heap'
