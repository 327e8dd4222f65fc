-- ===== src/XmpNode/Trees.antt =====
-- src/PmtAccessor/XMPDataNode.cpp: the operations that take nodes out of a tree and join trees.
pub mod Removed
use pmt.Common.{
  ℕ, Bool, true, false, ◌==◌, Option, none, some, List, [], ◌∷◌, if◌then◌else◌, text_eq,
}
use pmt.Common.Text.{Text}
use pmt.XmpNode.{
  Node, node, Nodes, nil, cons, key, sub_nodes, new, set_content, set_sub_nodes, add_sub_node,
  add_attribute, update_attribute,
}
use pmt.XmpNode.Arrays.{bag_tag, seq_tag, with_node}

-- Without the first attribute with the key; `none` if there is none.
unfoldable pub erase_attribute : Text → List (Text × Text) → Option (List (Text × Text))
erase_attribute str_key [] = none
erase_attribute str_key ((k, v) ∷ attributes) =
    let later = erase_attribute str_key attributes in
    if text_eq k str_key
    then some attributes
    else elim later [ none ↦ none | some as' ↦ some ((k, v) ∷ as') ]

-- RemoveKey: `none` where it returns false, and so changes nothing.
unfoldable mutual
  unfolding erase_attribute

  pub remove_key : Text → Node → Option Node
  remove_key str_key (node k c attributes name_spaces subs) =
      let below = remove_key_in str_key subs in
      elim (erase_attribute str_key attributes) [
        | some as' ↦ some (node k c as' name_spaces subs)
        | none ↦ elim below [
          | none ↦ none
          | some subs' ↦ some (node k c attributes name_spaces subs')
        ]
      ]

  pub remove_key_in : Text → Nodes → Option Nodes
  remove_key_in str_key nil = none
  remove_key_in str_key (cons n subs) =
      let later = remove_key_in str_key subs in
      let inside = remove_key str_key n in
      if text_eq (key n) str_key then some subs else elim inside [
        | some n' ↦ some (cons n' subs)
        | none ↦ elim later [ none ↦ none | some subs' ↦ some (cons n subs') ]
      ]

abbrev pub is_nil : Nodes → Bool
is_nil nil = true
is_nil (cons n ns) = false

-- The loop over the items of RemoveKeyVectorIndex does not count: `nCount` stays 0.
unfoldable pub erase_item : ℕ → Nodes → Nodes
erase_item index nil = nil
erase_item index (cons n items) = if index == 0 then items else cons n items

-- Whether the array is left empty, and the array.
abbrev pub erase_from : ℕ → Node → Bool × Node
erase_from index bag =
    let items = erase_item index (sub_nodes bag) in (is_nil items, set_sub_nodes items bag)

-- The item is taken from the Seq in the node, or else from its Bag.
unfoldable pub erase_in_array : ℕ → Node → Option (Bool × Node)
unfolding with_node erase_item
erase_in_array index n = elim (with_node seq_tag (erase_from index) n) [
  | some erased ↦ some erased
  | none ↦ with_node bag_tag (erase_from index) n
]

-- RemoveKeyVectorIndex: `none` where it returns false. Where the array is left empty, the key is
-- removed from the node in whose sub nodes it was found.
unfoldable mutual
  unfolding erase_in_array remove_key

  pub remove_key_vector_index : Text → ℕ → Node → Option Node
  remove_key_vector_index str_key index (node k c attributes name_spaces subs) =
      elim (remove_index_in str_key index subs) [
        | none ↦ none
        | some (emptied, subs') ↦
            let this = node k c attributes name_spaces subs' in
            if emptied
            then elim (remove_key str_key this) [ none ↦ some this | some this' ↦ some this' ]
            else some this
      ]

  pub remove_index_in : Text → ℕ → Nodes → Option (Bool × Nodes)
  remove_index_in str_key index nil = none
  remove_index_in str_key index (cons n subs) =
      let later = remove_index_in str_key index subs in
      let inside = remove_key_vector_index str_key index n in
      let here = if text_eq (key n) str_key then erase_in_array index n else none in
      elim here [
        | some (emptied, n') ↦ some (emptied, cons n' subs)
        | none ↦ elim inside [
          | some n' ↦ some (false, cons n' subs)
          | none ↦ elim later [ none ↦ none | some (emptied, subs') ↦ some (emptied, cons n subs') ]
        ]
      ]

-- UpdateAttributeValue without bCreateIfNotExist: `none` where it returns false.
unfoldable mutual
  unfolding update_attribute

  pub update_attribute_found : Text → Text → Node → Option Node
  update_attribute_found str_key v (node k c attributes name_spaces subs) =
      let below = update_attribute_found_in str_key v subs in
      elim (update_attribute str_key v attributes) [
        | some as' ↦ some (node k c as' name_spaces subs)
        | none ↦ elim below [
          | none ↦ none
          | some subs' ↦ some (node k c attributes name_spaces subs')
        ]
      ]

  pub update_attribute_found_in : Text → Text → Nodes → Option Nodes
  update_attribute_found_in str_key v nil = none
  update_attribute_found_in str_key v (cons n subs) =
      let later = update_attribute_found_in str_key v subs in
      elim (update_attribute_found str_key v n) [
        | some n' ↦ some (cons n' subs)
        | none ↦ elim later [ none ↦ none | some subs' ↦ some (cons n subs') ]
      ]

unfoldable pub update_attribute_value : Text → Text → Bool → Node → Bool × Node
unfolding update_attribute_found
update_attribute_value str_key v create n = elim (update_attribute_found str_key v n) [
  | some n' ↦ (true, n')
  | none ↦ if create then (true, add_attribute str_key v n) else (false, n)
]

-- UpdateSubKeyValue
unfoldable mutual
  pub update_sub_found : Text → Text → Node → Option Node
  update_sub_found str_key v (node k c attributes name_spaces subs) =
      let below = update_sub_found_in str_key v subs in
      if text_eq k str_key
      then some (node k v attributes name_spaces subs)
      else elim below [ none ↦ none | some subs' ↦ some (node k c attributes name_spaces subs') ]

  pub update_sub_found_in : Text → Text → Nodes → Option Nodes
  update_sub_found_in str_key v nil = none
  update_sub_found_in str_key v (cons n subs) =
      let later = update_sub_found_in str_key v subs in
      elim (update_sub_found str_key v n) [
        | some n' ↦ some (cons n' subs)
        | none ↦ elim later [ none ↦ none | some subs' ↦ some (cons n subs') ]
      ]

unfoldable pub update_sub_key_value : Text → Text → Bool → Node → Bool × Node
unfolding update_sub_found
update_sub_key_value str_key v create n = elim (update_sub_found str_key v n) [
  | some n' ↦ (true, n')
  | none ↦ if create then (true, add_sub_node n (set_content v (new str_key))) else (false, n)
]
