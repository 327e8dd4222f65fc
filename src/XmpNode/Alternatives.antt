-- ===== src/XmpNode/Alternatives.antt =====
-- src/PmtAccessor/XMPDataNode.cpp: the alternatives rdf:Alt of a text, one rdf:li node for each language.
-- A `map` is the list of its entries with rising keys, and its insertion is that of Factory.
pub mod Items
pub mod RoundTrip
use pmt.Common.{Bool, true, false, none, some, List, [], ◌∷◌, if◌then◌else◌, text_eq}
use pmt.Common.Text.{Text, codes}
use pmt.Factory.{find_item, add_entry}
use pmt.XmpNode.{
  Node, Nodes, nil, cons, key, content, sub_nodes, new, set_content, add_sub_node, add_attribute,
  c_str, get_key_value,
}
use pmt.XmpNode.Arrays.{alt_tag, li_tag, get_xmp_node, with_created}
use pmt.XmpNode.Trees.{remove_key}

abbrev pub x_default : Text
x_default = codes "x-default"

abbrev pub lang_tag : Text
lang_tag = codes "http://www.w3.org/XML/1998/namespacelang"

-- An item with the attribute and the content. Both texts come from `c_str`.
unfoldable pub alternative : Text → Text → Text → Node
unfolding c_str
alternative attribute name value =
    set_content (c_str value) (add_attribute attribute (c_str name) (new li_tag))

-- The loop over the map, which passes over x-default.
unfoldable pub add_alternatives : Text → List (Text × Text) → Node → Node
unfolding alternative
add_alternatives attribute [] alt = alt
add_alternatives attribute ((k, v) ∷ map_string) alt =
    add_alternatives attribute map_string
      (if text_eq k x_default then alt else add_sub_node alt (alternative attribute k v))

-- x-default comes first.
unfoldable pub alternatives : Text → List (Text × Text) → Node
unfolding add_alternatives find_item
alternatives attribute map_string =
    let alt = new alt_tag in
    add_alternatives attribute map_string (elim (find_item x_default map_string) [
      | none ↦ alt
      | some v ↦ add_sub_node alt (alternative attribute x_default v)
    ])

-- The node without the key, where RemoveKey finds it.
unfoldable pub without : Text → Node → Node
unfolding remove_key
without str_key n = elim (remove_key str_key n) [ none ↦ n | some n' ↦ n' ]

unfoldable pub update_key_value_alt : Text → Text → List (Text × Text) → Bool → Node → Bool × Node
unfolding with_created without alternatives
update_key_value_alt str_key attribute map_string create n =
    with_created str_key create
      (λ found. (true, add_sub_node (without alt_tag found) (alternatives attribute map_string))) n

unfoldable pub update_key_value_language : Text → List (Text × Text) → Bool → Node → Bool × Node
unfolding update_key_value_alt
update_key_value_language str_key map_string create n =
    update_key_value_alt str_key lang_tag map_string create n

-- The loop over the items. A second value for a name empties the map and fails.
unfoldable pub collect_alternatives : Text → Nodes → List (Text × Text) → Bool × List (Text × Text)
unfolding get_key_value add_entry
collect_alternatives attribute nil map_string = (true, map_string)
collect_alternatives attribute (cons n subs) map_string =
    let value = if text_eq (key n) li_tag then get_key_value attribute n else none in
    let added = λ (name : Text). add_entry name (content n) map_string in
    let next = elim value as (λ _. List (Text × Text)) [
      | none ↦ map_string
      | some name ↦ (added name).1
    ] in
    let clash = elim value as (λ _. Bool) [
      | none ↦ false
      | some name ↦ if (added name).0 then false else true
    ] in
    let later = collect_alternatives attribute subs next in if clash then (false, []) else later

unfoldable pub get_key_value_alt :
    Text → Text → List (Text × Text) → Node → Bool × List (Text × Text)
unfolding get_xmp_node collect_alternatives
get_key_value_alt str_key attribute map_string n = elim (get_xmp_node str_key n) [
  | none ↦ (false, map_string)
  | some found ↦ elim (get_xmp_node alt_tag found) [
    | none ↦ (false, [])
    | some alt ↦ collect_alternatives attribute (sub_nodes alt) []
  ]
]

unfoldable pub get_key_value_language : Text → List (Text × Text) → Node → Bool × List (Text × Text)
unfolding get_key_value_alt
get_key_value_language str_key map_string n = get_key_value_alt str_key lang_tag map_string n
