-- ===== src/XmpNode.antt =====
-- src/PmtAccessor/XMPDataNode.cpp: the tree of an XMP packet. A node owns its attributes, name spaces
-- and sub nodes, so a tree is a value; a pointer to a node that is found is the function that is run
-- on it. `nDeep` and `pParent` follow from the place in the tree and are not kept.
pub mod Arrays
pub mod Trees
pub mod Joins
pub mod Alternatives
pub mod Names
pub mod Prefixes
pub mod Output
pub mod Values
use pmt.Common.{
  ℕ, zero, suc, Bool, true, false, ◌||◌, Option, none, some, List, [], ◌∷◌, ◌++◌, if◌then◌else◌,
  text_eq,
}
use pmt.Common.Text.{Text, codes}

mutual
  pub data Node : Type 0 where
    node : Text → Text → List (Text × Text) → List (Text × Text) → Nodes → Node

  pub data Nodes : Type 0 where
    nil : Nodes
    cons : Node → Nodes → Nodes

abbrev pub key : Node → Text
key (node k c attributes name_spaces subs) = k

abbrev pub content : Node → Text
content (node k c attributes name_spaces subs) = c

abbrev pub sub_nodes : Node → Nodes
sub_nodes (node k c attributes name_spaces subs) = subs

-- XMPDataNode(strKey)
abbrev pub new : Text → Node
new str_key = node str_key [] [] [] nil

abbrev pub set_content : Text → Node → Node
set_content v (node k c attributes name_spaces subs) = node k v attributes name_spaces subs

abbrev pub set_sub_nodes : Nodes → Node → Node
set_sub_nodes subs (node k c attributes name_spaces old) = node k c attributes name_spaces subs

abbrev pub push_back : Nodes → Node → Nodes
push_back nil n = cons n nil
push_back (cons m ms) n = cons m (push_back ms n)

-- AddSubNode
abbrev pub add_sub_node : Node → Node → Node
add_sub_node (node k c attributes name_spaces subs) sub =
    node k c attributes name_spaces (push_back subs sub)

-- AddAttribute
abbrev pub add_attribute : Text → Text → Node → Node
add_attribute str_key v (node k c attributes name_spaces subs) =
    node k c (attributes ++ (str_key, v) ∷ []) name_spaces subs

-- `wstring::c_str`, as a text that ends at the first NUL.
unfoldable pub c_str : Text → Text
c_str [] = []
c_str (zero ∷ s) = []
c_str (suc c ∷ s) = suc c ∷ c_str s

-- The value of the first attribute with the key.
unfoldable pub find_attribute : Text → List (Text × Text) → Option Text
find_attribute str_key [] = none
find_attribute str_key ((k, v) ∷ attributes) =
    let later = find_attribute str_key attributes in if text_eq k str_key then some v else later

-- GetKeyValue; NULL is `none`.
unfoldable mutual
  unfolding c_str find_attribute

  pub get_key_value : Text → Node → Option Text
  get_key_value str_key (node k c attributes name_spaces subs) =
      let below = get_key_value_in str_key subs in
      if text_eq k str_key
      then some (c_str c)
      else elim (find_attribute str_key attributes) [ some v ↦ some (c_str v) | none ↦ below ]

  pub get_key_value_in : Text → Nodes → Option Text
  get_key_value_in str_key nil = none
  get_key_value_in str_key (cons n subs) =
      let later = get_key_value_in str_key subs in
      elim (get_key_value str_key n) [ some v ↦ some v | none ↦ later ]

-- `none` if no attribute has the key.
unfoldable pub update_attribute : Text → Text → List (Text × Text) → Option (List (Text × Text))
update_attribute str_key str_value [] = none
update_attribute str_key str_value ((k, v) ∷ attributes) =
    let later = update_attribute str_key str_value attributes in
    if text_eq k str_key
    then some ((k, str_value) ∷ attributes)
    else elim later [ none ↦ none | some as' ↦ some ((k, v) ∷ as') ]

-- UpdateKeyValue without bCreateIfNotExist: `none` where it returns false, and so changes nothing.
unfoldable mutual
  unfolding update_attribute

  pub update_found : Text → Text → Node → Option Node
  update_found str_key str_value (node k c attributes name_spaces subs) =
      let below = update_found_in str_key str_value subs in
      if text_eq k str_key
      then some (node k str_value attributes name_spaces subs)
      else elim (update_attribute str_key str_value attributes) [
        | some as' ↦ some (node k c as' name_spaces subs)
        | none ↦ elim below [
          | none ↦ none
          | some subs' ↦ some (node k c attributes name_spaces subs')
        ]
      ]

  pub update_found_in : Text → Text → Nodes → Option Nodes
  update_found_in str_key str_value nil = none
  update_found_in str_key str_value (cons n subs) =
      let later = update_found_in str_key str_value subs in
      elim (update_found str_key str_value n) [
        | some n' ↦ some (cons n' subs)
        | none ↦ elim later [ none ↦ none | some subs' ↦ some (cons n subs') ]
      ]

unfoldable pub update_key_value : Text → Text → Bool → Node → Bool × Node
update_key_value str_key str_value create n = elim (update_found str_key str_value n) [
  | some n' ↦ (true, n')
  | none ↦ if create then (true, add_attribute str_key str_value n) else (false, n)
]
