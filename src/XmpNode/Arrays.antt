-- ===== src/XmpNode/Arrays.antt =====
-- src/PmtAccessor/XMPDataNode.cpp: the nodes that are found by their key, and the arrays rdf:Seq and
-- rdf:Bag, whose items are rdf:li nodes. The tags are those of src/PmtAccessor/XMPCommonTags.h.

pub mod Found
pub mod RoundTrip
pub mod Indexed
use pmt.Common.{
  ℕ, zero, suc, Bool, true, false, Option, none, some, List, [], ◌∷◌, ◌++◌, if◌then◌else◌, text_eq,
}
use pmt.Common.Text.{Text, codes}
use pmt.XmpNode.{
  Node, node, Nodes, nil, cons, key, content, sub_nodes, new, set_content, set_sub_nodes,
  add_sub_node, c_str,
}

abbrev pub bag_tag : Text
bag_tag = codes "http://www.w3.org/1999/02/22-rdf-syntax-ns#Bag"

abbrev pub seq_tag : Text
seq_tag = codes "http://www.w3.org/1999/02/22-rdf-syntax-ns#Seq"

abbrev pub alt_tag : Text
alt_tag = codes "http://www.w3.org/1999/02/22-rdf-syntax-ns#Alt"

abbrev pub li_tag : Text
li_tag = codes "http://www.w3.org/1999/02/22-rdf-syntax-ns#li"

-- GetXMPNode without bCreateIfNotExist.
unfoldable mutual
  pub get_xmp_node : Text → Node → Option Node
  get_xmp_node str_key (node k c attributes name_spaces subs) =
      let below = get_xmp_node_in str_key subs in
      if text_eq k str_key then some (node k c attributes name_spaces subs) else below

  pub get_xmp_node_in : Text → Nodes → Option Node
  get_xmp_node_in str_key nil = none
  get_xmp_node_in str_key (cons n subs) =
      let later = get_xmp_node_in str_key subs in
      elim (get_xmp_node str_key n) [ some found ↦ some found | none ↦ later ]

-- What the caller of GetXMPNode does with the node that it returns, in place: `none` for NULL.
unfoldable mutual
  pub with_node : Text → (Node → Bool × Node) → Node → Option (Bool × Node)
  with_node str_key f (node k c attributes name_spaces subs) =
      let below = with_node_in str_key f subs in
      if text_eq k str_key then some (f (node k c attributes name_spaces subs)) else elim below [
        | none ↦ none
        | some (result, subs') ↦ some (result, node k c attributes name_spaces subs')
      ]

  pub with_node_in : Text → (Node → Bool × Node) → Nodes → Option (Bool × Nodes)
  with_node_in str_key f nil = none
  with_node_in str_key f (cons n subs) =
      let later = with_node_in str_key f subs in
      elim (with_node str_key f n) [
        | some (result, n') ↦ some (result, cons n' subs)
        | none ↦ elim later [ none ↦ none | some (result, subs') ↦ some (result, cons n subs') ]
      ]

-- The same with bCreateIfNotExist: the node is added below `this`. The callers return false on NULL.
unfoldable pub with_created : Text → Bool → (Node → Bool × Node) → Node → Bool × Node
unfolding with_node
with_created str_key create f n = elim (with_node str_key f n) [
  | some (result, n') ↦ (result, n')
  | none ↦ if create then ((f (new str_key)).0, add_sub_node n (f (new str_key)).1) else (false, n)
]

abbrev pub array_tag : Bool → Text
array_tag true = seq_tag
array_tag false = bag_tag

-- The items up to the first node that is none, and whether there was no such node.
unfoldable pub collect_items : Nodes → List Text → Bool × List Text
collect_items nil v_string = (true, v_string)
collect_items (cons n subs) v_string =
    let later = collect_items subs (v_string ++ content n ∷ []) in
    if text_eq (key n) li_tag then later else (false, v_string)

-- GetKeyValueVector; GetKeyValueSeq and GetKeyValueBag pass the Boolean.
unfoldable pub get_key_value_vector : Text → List Text → Bool → Node → Bool × List Text
unfolding get_xmp_node collect_items
get_key_value_vector str_key v_string is_seq n = elim (get_xmp_node str_key n) [
  | none ↦ (false, v_string)
  | some found ↦ elim (get_xmp_node (array_tag is_seq) found) [
    | none ↦ (false, v_string)
    | some bag ↦ collect_items (sub_nodes bag) v_string
  ]
]

abbrev pub item : Text → Node
item v = set_content v (new li_tag)

unfoldable pub add_items : List Text → Node → Node
unfolding c_str
add_items [] bag = bag
add_items (v ∷ v_string) bag = add_items v_string (add_sub_node bag (item (c_str v)))

-- UpdateKeyValueVector; UpdateKeyValueSeq and UpdateKeyValueBag pass the Boolean.
unfoldable pub update_key_value_vector : Text → List Text → Bool → Bool → Node → Bool × Node
unfolding with_created add_items
update_key_value_vector str_key v_string is_seq create n =
    with_created str_key create
      (λ found.
        with_created (array_tag is_seq) create
          (λ bag. (true, add_items v_string (set_sub_nodes nil bag))) found)
      n

-- The content of the item at the index; `none` if there are fewer.
unfoldable pub update_item : ℕ → Text → Nodes → Option Nodes
update_item index v nil = none
update_item zero v (cons n subs) = some (cons (set_content v n) subs)
update_item (suc index) v (cons n subs) = elim (update_item index v subs) [
  | none ↦ none
  | some subs' ↦ some (cons n subs')
]

abbrev pub update_at : Text → ℕ → Bool → Node → Bool × Node
update_at v index create bag = elim (update_item index v (sub_nodes bag)) [
  | some subs ↦ (true, set_sub_nodes subs bag)
  | none ↦ if create then (true, add_sub_node bag (item v)) else (false, bag)
]

-- UpdateKeyValueVectorIndex
unfoldable pub update_key_value_vector_index : Text → Text → ℕ → Bool → Bool → Node → Bool × Node
unfolding with_created update_item
update_key_value_vector_index str_key v index is_seq create n =
    with_created str_key create
      (λ found. with_created (array_tag is_seq) create (update_at v index create) found) n
