-- ===== src/Examples/Packets.antt =====
-- Trees of XMP packets.
use pmt.Common.Run.{undefined}
use pmt.Xml.{encode, mapping}
use pmt.Factory.{insert_item}
use pmt.XmpNode.Output.{write_node}
use pmt.XmpNode.Prefixes.{get_full_name, new_name_space_manager, insert_name_space, uri_to_q_name}
use pmt.Common.{List, ◌≤◌, arith}
use pmt.Common.Text.{Text}
use pmt.Aliases.{text_ltb}
use pmt.MapT.Insertion.{IsRising}
use pmt.XmpNode.Arrays.{alt_tag}
use pmt.XmpNode.Alternatives.{lang_tag, update_key_value_alt, get_key_value_alt}
use pmt.XmpNode.Alternatives.Items.{AreWhole}
use pmt.XmpNode.Alternatives.RoundTrip.{uses_of_alt, update_key_value_alt-read}
use pmt.Common.{
  ◌≡◌, ◌<◌, refl, true, false, ◌||◌, ◌⊎◌, ◌++◌, none, some, is_found, [], ◌∷◌, map, if◌then◌else◌,
  text_eq, ltb, length, set,
}
use pmt.Common.Text.{codes}
use pmt.XmpNode.{Node, node, nil, cons, key, content, get_key_value, update_key_value, c_str}
use pmt.XmpNode.Values.{update_key_value_lem}
use pmt.XmpNode.Arrays.{
  get_xmp_node, get_key_value_vector, update_key_value_vector, update_key_value_vector_index,
  li_tag, seq_tag, collect_items,
}
use pmt.XmpNode.Arrays.RoundTrip.{update_key_value_vector-read}
use pmt.XmpNode.Arrays.Indexed.{update_key_value_vector_index-read}
use pmt.XmpNode.Trees.{remove_key, remove_key_vector_index}
use pmt.XmpNode.Trees.Removed.{uses, remove_key_lem}
use pmt.XmpNode.Joins.{append_node}
use pmt.XmpNode.Joins.Appended.{append_node_lem}
use pmt.XmpNode.Names.{validate_name_space}
use pmt.XmpNode.Names.Qualified.{all_qualified, validate_name_space-AllQualified}

abbrev items : Node
items =
    node seq_tag [] [] []
      (cons (node li_tag (codes "a") [] [] nil) (cons (node li_tag (codes "b") [] [] nil) nil))

-- A root with the attribute about and the sequence dates/Seq.
abbrev packet : Node
packet =
    node (codes "root") [] ((codes "about", codes "me") ∷ []) []
      (cons (node (codes "dates") [] [] [] (cons items nil)) nil)

update_key_value_lem_example :
    ((update_key_value (codes "about") (codes "you") true packet).0
      ≡ (true || is_found (get_key_value (codes "about") packet)))
    × ((((update_key_value (codes "about") (codes "you") true packet).0 ≡ true)
          × (get_key_value
                (codes "root")
                (update_key_value (codes "about") (codes "you") true packet).1
              ≡ (if text_eq (codes "about") (codes "root")
                  then some (c_str (codes "you"))
                  else get_key_value (codes "root") packet)))
        ⊎ (update_key_value (codes "about") (codes "you") true packet ≡ (false, packet)))
update_key_value_lem_example =
    update_key_value_lem (codes "about") (codes "you") (codes "root") true packet

update_key_value_vector-read_example :
    ((update_key_value_vector (codes "names") (codes "x" ∷ []) false true packet).0 ≡ true)
    × (get_key_value_vector
          (codes "names")
          []
          false
          (update_key_value_vector (codes "names") (codes "x" ∷ []) false true packet).1
        ≡ (true, [] ++ map c_str (codes "x" ∷ [])))
update_key_value_vector-read_example =
    update_key_value_vector-read (codes "names") (codes "x" ∷ []) [] false packet

dates_read :
    get_key_value_vector (codes "dates") [] true packet ≡ (true, codes "a" ∷ codes "b" ∷ [])
unfolding get_key_value_vector get_xmp_node text_eq collect_items
dates_read = refl

update_key_value_vector_index-read_example :
    ((update_key_value_vector_index (codes "dates") (codes "c") 1 true false packet).0
      ≡ (ltb 1 (length (codes "a" ∷ codes "b" ∷ [])) || false))
    × (get_key_value_vector
          (codes "dates")
          []
          true
          (update_key_value_vector_index (codes "dates") (codes "c") 1 true false packet).1
        ≡ (
          true,
          if ltb 1 (length (codes "a" ∷ codes "b" ∷ []))
              then set (codes "a" ∷ codes "b" ∷ []) 1 (codes "c")
              else if false
              then (codes "a" ∷ codes "b" ∷ []) ++ codes "c" ∷ []
              else codes "a" ∷ codes "b" ∷ [],
        ))
update_key_value_vector_index-read_example =
    update_key_value_vector_index-read (codes "dates") (codes "c") 1 true false packet
      (codes "a" ∷ codes "b" ∷ []) dates_read

-- Only the index 0 takes an item out.
index_one_stays : remove_key_vector_index (codes "dates") 1 packet ≡ some packet
unfolding remove_key_vector_index text_eq
index_one_stays = refl

remove_key_lem_example :
    ((text_eq (key packet) (codes "about") || is_found (remove_key (codes "about") packet))
      ≡ is_found (get_key_value (codes "about") packet))
    × (((n' : Node) × (remove_key (codes "about") packet ≡ some n')
          × (uses (codes "about") n' < uses (codes "about") packet))
        ⊎ ((remove_key (codes "about") packet ≡ none) × (uses (codes "about") packet ≡ 0)))
remove_key_lem_example = remove_key_lem (codes "about") packet

abbrev titled : Node
titled = node (codes "dates") (codes "t") ((codes "lang", codes "en") ∷ []) [] nil

append_node_lem_example :
    ((append_node titled packet).0 ≡ is_found (get_xmp_node (codes "dates") packet))
    × (((m : Node) × ((append_node titled packet).0 ≡ true)
          × (get_xmp_node (codes "dates") (append_node titled packet).1 ≡ some m)
          × (content m ≡ codes "t"))
        ⊎ (append_node titled packet ≡ (false, packet)))
append_node_lem_example = append_node_lem titled packet

validate_name_space-AllQualified_example :
    all_qualified (λ uri. codes "p") [] (validate_name_space (λ uri. codes "p") [] packet) ≡ true
validate_name_space-AllQualified_example =
    validate_name_space-AllQualified (λ uri. codes "p") [] packet

abbrev titles : List (Text × Text)
titles = (codes "de", codes "Bild") ∷ (codes "x-default", codes "Image") ∷ []

titles-IsRising : IsRising titles
unfolding IsRising text_ltb
titles-IsRising = ((refl, tt), (tt, tt))

titles-AreWhole : AreWhole titles
unfolding c_str
titles-AreWhole = ((refl, refl), ((refl, refl), tt))

-- The title has an old text in one language.
abbrev titled_packet : Node
titled_packet = node (codes "root") [] [] [] (
    cons
      (node (codes "title") [] [] [] (
        cons
          (node alt_tag [] [] []
            (cons (node li_tag (codes "Old") ((lang_tag, codes "en") ∷ []) [] nil) nil))
          nil))
      nil)

one_alt : uses_of_alt (codes "title") titled_packet ≤ 1
unfolding uses_of_alt get_xmp_node uses text_eq
one_alt = ground arith

title_is_no_alt : text_eq (codes "title") alt_tag ≡ false
unfolding text_eq
title_is_no_alt = refl

item_is_no_language : text_eq li_tag lang_tag ≡ false
unfolding text_eq
item_is_no_language = refl

update_key_value_alt-read_example :
    ((update_key_value_alt (codes "title") lang_tag titles true titled_packet).0 ≡ true)
    × (get_key_value_alt
          (codes "title")
          lang_tag
          []
          (update_key_value_alt (codes "title") lang_tag titles true titled_packet).1
        ≡ (true, titles))
update_key_value_alt-read_example =
    update_key_value_alt-read (codes "title") lang_tag titles [] titled_packet title_is_no_alt
      item_is_no_language titles-IsRising titles-AreWhole one_alt

-- The value of an attribute is written as it is, while the content is escaped.
abbrev quoted : Node
quoted =
    node (codes "http://purl.org/dc/elements/1.1/format") (codes "a<b")
      ((codes "note", codes "x\"y") ∷ [])
      ((codes "dc", codes "http://purl.org/dc/elements/1.1/") ∷ []) nil

quoted_written :
    write_node 1 [] quoted
    ≡ codes
        " <dc:format xmlns:dc=\"http://purl.org/dc/elements/1.1/\" note=\"x\"y\">a&lt;b</dc:format>"
unfolding write_node text_eq encode mapping
quoted_written = refl

-- A prefix that is not known has no text, and GetFullName makes one of NULL.
unknown_full_name : get_full_name (codes "nope") new_name_space_manager ≡ undefined
unfolding get_full_name new_name_space_manager insert_name_space text_eq text_ltb insert_item
unknown_full_name = refl

known_q_name :
    uri_to_q_name (codes "http://ns.adobe.com/tiff/1.0/Make") new_name_space_manager
    ≡ some (codes "tiff:Make")
unfolding uri_to_q_name new_name_space_manager insert_name_space text_eq text_ltb insert_item
known_q_name = refl

unknown_q_name : uri_to_q_name (codes "http://nope/Make") new_name_space_manager ≡ none
unfolding uri_to_q_name new_name_space_manager insert_name_space text_eq text_ltb insert_item
unknown_q_name = refl
