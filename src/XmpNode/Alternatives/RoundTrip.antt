-- ===== src/XmpNode/Alternatives/RoundTrip.antt =====
-- What GetKeyValueAlt of XMPDataNode.cpp reads after UpdateKeyValueAlt.
use pmt.Common.{
  ℕ, ◌≤◌, ◌⊎◌, ◌≡◌, refl, ◌∙◌, Bool, true, false, none, some, List, [], ◌∷◌, if◌then◌else◌, text_eq,
  text_eq_refl, text_eq_sound, arith, Bool-cases, Option-cases, inl, inr,
}
use pmt.Common.Text.{Text}
use pmt.Factory.{find_item}
use pmt.MapT.Insertion.{IsRising}
use pmt.XmpNode.{Node, node, Nodes, nil, cons, key, new, add_sub_node}
use pmt.XmpNode.Arrays.{alt_tag, li_tag, get_xmp_node, get_xmp_node_in}
use pmt.XmpNode.Arrays.Found.{
  with_created_lem, get_xmp_node-key, get_xmp_node-add_sub_node, key-add_sub_node,
}
use pmt.XmpNode.Trees.{remove_key}
use pmt.XmpNode.Trees.Removed.{uses, uses_in, remove_key-some, remove_key-none}
use pmt.XmpNode.Alternatives.{
  x_default, alternative, alternatives, add_alternatives, without, update_key_value_alt,
  get_key_value_alt,
}
use pmt.XmpNode.Alternatives.Items.{AreWhole, collect-alternatives}

-- How many attributes and nodes below the node of the key are named rdf:Alt.
unfoldable pub uses_of_alt : Text → Node → ℕ
uses_of_alt k n = elim (get_xmp_node k n) [ none ↦ 0 | some found ↦ uses alt_tag found ]

key-add_alternatives :
    (a : Text) (m : List (Text × Text)) (alt : Node) → key (add_alternatives a m alt) ≡ key alt
unfolding add_alternatives
key-add_alternatives a [] alt = refl
key-add_alternatives a ((k, v) ∷ m) alt =
    key-add_alternatives a m
      (if text_eq k x_default then alt else add_sub_node alt (alternative a k v))
    ∙ elim (Bool-cases (text_eq k x_default)) [
      | inl same ↦ rw same refl
      | inr other ↦ rw other (key-add_sub_node alt (alternative a k v))
    ]

key-alternatives : (a : Text) (m : List (Text × Text)) → key (alternatives a m) ≡ alt_tag
unfolding alternatives
key-alternatives a m = elim (Option-cases (find_item x_default m)) [
  | inl absent ↦ rw absent (key-add_alternatives a m (new alt_tag))
  | inr (v, there) ↦
      rw there (key-add_alternatives a m (add_sub_node (new alt_tag) (alternative a x_default v)))
]

key-without : (k : Text) (n : Node) → key (without k n) ≡ key n
unfolding without
key-without k n = elim (Option-cases (remove_key k n)) [
  | inl absent ↦ rw (without, absent) refl
  | inr (n', there) ↦ rw (without, there) (remove_key-some k n n' there).1
]

uses-without : (k : Text) (n : Node) → uses k n ≤ 1 → uses k (without k n) ≡ 0
unfolding without
uses-without k n once = elim (Option-cases (remove_key k n)) [
  | inl absent ↦ rw (without, absent) (remove_key-none k n absent)
  | inr (n', there) ↦
      let fewer = (remove_key-some k n n' there).0 in
      rw (without, there) (ground (arith, once, fewer))
]

mutual
  unfolding uses get_xmp_node

  unused_get_xmp_node :
      (k : Text) (n : Node) → text_eq (key n) k ≡ false → uses k n ≡ 0 → get_xmp_node k n ≡ none
  unused_get_xmp_node k (node i c a s subs) other h =
      rw other (unused_get_xmp_node_in k subs (ground (arith, h)))

  unused_get_xmp_node_in : (k : Text) (ns : Nodes) → uses_in k ns ≡ 0 → get_xmp_node_in k ns ≡ none
  unused_get_xmp_node_in k nil h = refl
  unused_get_xmp_node_in k (cons n ns) h = elim (Bool-cases (text_eq (key n) k)) [
    | inl here ↦ absurd (ground (arith, h, here))
    | inr other ↦
        let not_here = unused_get_xmp_node k n other (ground (arith, h, other)) in
        let not_later = unused_get_xmp_node_in k ns (ground (arith, h, other)) in
        ground (arith, not_here, not_later)
  ]

uses_of_alt-some :
    (k : Text) (n found : Node)
    → get_xmp_node k n ≡ some found
    → uses_of_alt k n ≡ uses alt_tag found
unfolding uses_of_alt
uses_of_alt-some k n found there = rw (uses_of_alt, there) refl

-- What is asked of the tree holds at the node that is found or new.
found_once :
    (k : Text) (n found : Node)
    → text_eq k alt_tag ≡ false
    → uses_of_alt k n ≤ 1
    → (get_xmp_node k n ≡ some found)
      ⊎ ((get_xmp_node k n ≡ none) × (true ≡ true) × (found ≡ new k))
    → (text_eq (key found) alt_tag ≡ false) × (uses alt_tag found ≤ 1)
unfolding uses_of_alt uses
found_once k n found other once (inl there) =
    let same = text_eq_sound (key found) k (get_xmp_node-key k n found there) in
    (rw same other, rw (← uses_of_alt-some k n found there) once)
found_once k n found other once (inr (_, _, is_new)) = rw is_new (other, ground arith)

write_alternatives-read :
    (a : Text) (m : List (Text × Text)) (found : Node)
    → text_eq (key found) alt_tag ≡ false
    → uses alt_tag found ≤ 1
    → get_xmp_node alt_tag (add_sub_node (without alt_tag found) (alternatives a m))
      ≡ some (alternatives a m)
write_alternatives-read a m found other once =
    get_xmp_node-add_sub_node alt_tag (alternatives a m)
      (rw (key-alternatives a m) (text_eq_refl alt_tag)) (without alt_tag found)
      (unused_get_xmp_node alt_tag (without alt_tag found) (rw (key-without alt_tag found) other)
        (uses-without alt_tag found once))

-- UpdateKeyValueAlt with bCreateIfNotExist succeeds, and GetKeyValueAlt then reads the map that was
-- written, for a key other than rdf:Alt and an attribute other than rdf:li, if no text of the map has a
-- NUL, the keys of the map rise and the node of the key has at most one rdf:Alt.
pub update_key_value_alt-read :
    (k a : Text) (m out : List (Text × Text)) (n : Node)
    → text_eq k alt_tag ≡ false
    → text_eq li_tag a ≡ false
    → IsRising m
    → AreWhole m
    → uses_of_alt k n ≤ 1
    → ((update_key_value_alt k a m true n).0 ≡ true)
      × (get_key_value_alt k a out (update_key_value_alt k a m true n).1 ≡ (true, m))
unfolding update_key_value_alt get_key_value_alt uses_of_alt
update_key_value_alt-read k a m out n other plain rising whole once =
    let f : Node → Bool × Node =
      λ found. (true, add_sub_node (without alt_tag found) (alternatives a m)) in
    let keeps : (found : Node) → key (f found).1 ≡ key found = λ found.
      key-add_sub_node (without alt_tag found) (alternatives a m) ∙ key-without alt_tag found in
    elim (with_created_lem f keeps k true n) [
      | inr (_, no_create, _) ↦ absurd (ground (arith, no_create))
      | inl (found, origin, ok, now) ↦
          let (other_key, once_there) = found_once k n found other once origin in
          (
            ok,
            rw (now, get_key_value_alt, write_alternatives-read a m found other_key once_there)
                (collect-alternatives a plain m rising whole),
          )
    ]
