-- ===== src/XmpNode/Joins.antt =====
-- src/PmtAccessor/XMPDataNode.cpp: UpdateNode and AppendNode, which copy one tree into another.
pub mod Copies
pub mod Appended
use pmt.Common.{
  Bool, true, false, ◌||◌, Option, none, some, List, [], ◌∷◌, ◌++◌, if◌then◌else◌, text_eq,
}
use pmt.Common.Text.{Text}
use pmt.XmpNode.{Node, node, Nodes, nil, cons, key, content, set_content, new, push_back}
use pmt.XmpNode.Arrays.{bag_tag, seq_tag, alt_tag, with_node}
use pmt.XmpNode.Trees.{update_attribute_value}

-- Assign, which adds the attributes, the name spaces and copies of the sub nodes.
unfoldable mutual
  pub assign : Node → Node → Node
  assign (node k c attributes name_spaces subs) (node k' c' attributes' name_spaces' subs') =
      node k c (attributes' ++ attributes) (name_spaces' ++ name_spaces) (assign_subs subs subs')

  pub assign_subs : Nodes → Nodes → Nodes
  assign_subs nil subs' = subs'
  assign_subs (cons n subs) subs' = assign_subs subs (push_back subs' (assign n (new [])))

abbrev pub clear : Node → Node
clear (node k c attributes name_spaces subs) = node k c [] [] nil

unfoldable pub update_node : Node → Node → Bool × Node
unfolding assign
update_node other n =
    if text_eq (key n) (key other) then (true, assign other (clear n)) else (false, n)

-- IsStructureNode
unfoldable pub is_structure_node : Node → Bool
is_structure_node n = text_eq (key n) alt_tag || text_eq (key n) bag_tag || text_eq (key n) seq_tag

unfoldable pub append_attributes : List (Text × Text) → Node → Node
unfolding update_attribute_value
append_attributes [] n = n
append_attributes ((k, v) ∷ attributes) n =
    append_attributes attributes (update_attribute_value k v true n).1

unfoldable pub has_uri : Text → List (Text × Text) → Bool
has_uri uri [] = false
has_uri uri ((prefix, u) ∷ name_spaces) = text_eq u uri || has_uri uri name_spaces

-- The name spaces whose uri is new.
unfoldable pub append_name_spaces : List (Text × Text) → Node → Node
unfolding has_uri
append_name_spaces [] n = n
append_name_spaces ((prefix, uri) ∷ added) (node k c attributes name_spaces subs) =
    append_name_spaces added (
      node k c attributes
        (if has_uri uri name_spaces then name_spaces else name_spaces ++ (prefix, uri) ∷ []) subs)

-- `f` at the first sub node with the key.
unfoldable pub at_sub_node : Text → (Node → Bool × Node) → Nodes → Option (Bool × Nodes)
at_sub_node str_key f nil = none
at_sub_node str_key f (cons n subs) =
    let later = at_sub_node str_key f subs in
    if text_eq (key n) str_key
    then some ((f n).0, cons (f n).1 subs)
    else elim later [ none ↦ none | some (result, subs') ↦ some (result, cons n subs') ]

-- `f` at the first sub node with the key, or at a new one with the key and the content.
unfoldable pub at_or_added : Text → Text → (Node → Bool × Node) → Node → Bool × Node
unfolding at_sub_node
at_or_added str_key c f (node k c' attributes name_spaces subs) =
    elim (at_sub_node str_key f subs) [
      | some (result, subs') ↦ (result, node k c' attributes name_spaces subs')
      | none ↦
          let sub = f (set_content c (new str_key)) in
          (sub.0, node k c' attributes name_spaces (push_back subs sub.1))
    ]

-- AppendNode of a node with the key of `this`.
unfoldable mutual
  unfolding update_node is_structure_node append_attributes append_name_spaces at_or_added

  pub append_same : Node → Node → Bool × Node
  append_same (node k c attributes name_spaces subs) n =
      let appended =
        append_name_spaces name_spaces (append_attributes attributes (set_content c n)) in
      if is_structure_node n
      then update_node (node k c attributes name_spaces subs) n
      else append_subs subs appended

  pub append_subs : Nodes → Node → Bool × Node
  append_subs nil n = (true, n)
  append_subs (cons s subs) n =
      let first = at_or_added (key s) (content s) (append_same s) n in
      if first.0 then append_subs subs first.1 else (false, first.1)

-- AppendNode: a node with another key is appended to the node that GetXMPNode finds for its key.
unfoldable pub append_node : Node → Node → Bool × Node
unfolding append_same with_node
append_node other n =
    if text_eq (key n) (key other)
    then append_same other n
    else elim (with_node (key other) (append_same other) n) [
      | some (result, n') ↦ (result, n')
      | none ↦ (false, n)
    ]
