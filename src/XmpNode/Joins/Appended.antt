-- ===== src/XmpNode/Joins/Appended.antt =====
-- When AppendNode of XMPDataNode.cpp succeeds, and what stands under the key then.
use pmt.XmpNode.Joins.Copies.{update_node_lem}
use pmt.Common.{
  ◌⊎◌, sym, sym, ◌≡◌, refl, ap, ◌∙◌, Bool, true, false, some, is_found, List, [], ◌∷◌, ◌++◌,
  if◌then◌else◌, text_eq, text_eq_refl, text_eq_sound, arith, Bool-cases, Option-cases, inl, inr,
}
use pmt.Common.Text.{Text}
use pmt.XmpNode.{Node, node, Nodes, nil, cons, key, content, set_content}
use pmt.XmpNode.Arrays.{get_xmp_node, with_node}
use pmt.XmpNode.Arrays.Found.{get_xmp_node-key, get_xmp_node_self, with_node-none, with_node-some}
use pmt.XmpNode.Trees.{update_attribute_value, update_attribute_found}
use pmt.XmpNode.Joins.{
  has_uri, is_structure_node, append_attributes, append_name_spaces, at_sub_node, at_or_added,
  append_same, append_subs, append_node,
}

-- Appending below a node keeps its key and content.
abbrev Keeps : Node → Node → Type 0
Keeps n n' = (key n' ≡ key n) × (content n' ≡ content n)

Keeps-trans : (n m l : Node) → Keeps n m → Keeps m l → Keeps n l
Keeps-trans n m l (k, c) (k', c') = (k' ∙ k, c' ∙ c)

update_attribute_value-Keeps :
    (k v : Text) (n : Node) → Keeps n (update_attribute_value k v true n).1
unfolding update_attribute_value update_attribute_found
update_attribute_value-Keeps k v (node i c a s subs) = ground arith

append_attributes-Keeps : (a : List (Text × Text)) (n : Node) → Keeps n (append_attributes a n)
unfolding append_attributes
append_attributes-Keeps [] n = (refl, refl)
append_attributes-Keeps ((k, v) ∷ a) n =
    let n' = (update_attribute_value k v true n).1 in
    Keeps-trans n n' (append_attributes a n') (update_attribute_value-Keeps k v n)
      (append_attributes-Keeps a n')

append_name_spaces-Keeps : (s : List (Text × Text)) (n : Node) → Keeps n (append_name_spaces s n)
unfolding append_name_spaces
append_name_spaces-Keeps [] n = (refl, refl)
append_name_spaces-Keeps ((prefix, uri) ∷ added) (node k c a s subs) =
    append_name_spaces-Keeps added
      (node k c a (if has_uri uri s then s else s ++ (prefix, uri) ∷ []) subs)

at_or_added-Keeps :
    (k c : Text) (f : Node → Bool × Node) (n : Node) → Keeps n (at_or_added k c f n).1
unfolding at_or_added
at_or_added-Keeps k c f (node i d a s subs) = elim (Option-cases (at_sub_node k f subs)) [
  | inl absent ↦ rw (absent, at_or_added) (refl, refl)
  | inr ((b, ms), there) ↦ rw (there, at_or_added) (refl, refl)
]

append_subs-Keeps : (ss : Nodes) (n : Node) → Keeps n (append_subs ss n).1
unfolding append_same
append_subs-Keeps nil n = (refl, refl)
append_subs-Keeps (cons s ss) n =
    let first = at_or_added (key s) (content s) (append_same s) n in
    let kept = at_or_added-Keeps (key s) (content s) (append_same s) n in
    elim (Bool-cases first.0) [
      | inl ok ↦
          rw ok
            (Keeps-trans n first.1 (append_subs ss first.1).1 kept (append_subs-Keeps ss first.1))
      | inr failed ↦ rw failed kept
    ]

appended-Keeps :
    (c : Text) (a ns : List (Text × Text)) (n : Node)
    → (key (append_name_spaces ns (append_attributes a (set_content c n))) ≡ key n)
      × (content (append_name_spaces ns (append_attributes a (set_content c n))) ≡ c)
appended-Keeps c a ns (node i d as' ns' subs) =
    let n = node i c as' ns' subs in
    let n' = append_attributes a n in
    Keeps-trans n n' (append_name_spaces ns n') (append_attributes-Keeps a n)
      (append_name_spaces-Keeps ns n')

append_same-key : (s n : Node) → key (append_same s n).1 ≡ key n
unfolding append_same
append_same-key (node k c a ns ss) n = elim (Bool-cases (is_structure_node n)) [
  | inl structure ↦ elim (Bool-cases (text_eq (key n) k)) [
    | inl same ↦
        rw (structure, update_node_lem (node k c a ns ss) n, same)
          (sym (text_eq_sound (key n) k same))
    | inr other ↦ rw (structure, update_node_lem (node k c a ns ss) n, other) refl
  ]
  | inr plain ↦ rw plain (
      (append_subs-Keeps ss (append_name_spaces ns (append_attributes a (set_content c n)))).0
      ∙ (appended-Keeps c a ns n).0)
]

append_same-content :
    (s n : Node) → text_eq (key n) (key s) ≡ true → content (append_same s n).1 ≡ content s
unfolding append_same
append_same-content (node k c a ns ss) n same = elim (Bool-cases (is_structure_node n)) [
  | inl structure ↦ rw (structure, update_node_lem (node k c a ns ss) n, same) refl
  | inr plain ↦ rw plain (
      (append_subs-Keeps ss (append_name_spaces ns (append_attributes a (set_content c n)))).1
      ∙ (appended-Keeps c a ns n).1)
]

AlwaysTrue : Text → (Node → Bool × Node) → Type 0
AlwaysTrue k f = (m : Node) → text_eq (key m) k ≡ true → (f m).0 ≡ true

at_sub_node-ok :
    (k : Text) (f : Node → Bool × Node)
    → AlwaysTrue k f
    → (ns ms : Nodes) (b : Bool) → at_sub_node k f ns ≡ some (b, ms)
    → b ≡ true
unfolding at_sub_node AlwaysTrue
at_sub_node-ok k f ok nil ms b h = absurd (ground (arith, h))
at_sub_node-ok k f ok (cons n ns) ms b h = elim (Bool-cases (text_eq (key n) k)) [
  | inl here ↦ ground (arith, h, here, ok n here)
  | inr other ↦ elim (Option-cases (at_sub_node k f ns)) [
    | inl absent ↦ absurd (ground (arith, h, other, absent))
    | inr ((b', ms'), there) ↦
        ground (arith, h, other, there, at_sub_node-ok k f ok ns ms' b' there)
  ]
]

at_or_added-ok :
    (k c : Text) (f : Node → Bool × Node)
    → AlwaysTrue k f
    → (n : Node) → (at_or_added k c f n).0 ≡ true
unfolding at_or_added AlwaysTrue
at_or_added-ok k c f ok (node i d a s subs) = elim (Option-cases (at_sub_node k f subs)) [
  | inl absent ↦ rw (absent, at_or_added) (ok (node k c [] [] nil) (text_eq_refl k))
  | inr ((b, ms), there) ↦ rw (there, at_or_added) (at_sub_node-ok k f ok subs ms b there)
]

mutual
  unfolding append_same AlwaysTrue

  append_same-ok : (s : Node) → AlwaysTrue (key s) (append_same s)
  append_same-ok (node k c a ns ss) n same = elim (Bool-cases (is_structure_node n)) [
    | inl structure ↦ rw (structure, update_node_lem (node k c a ns ss) n, same) refl
    | inr plain ↦
        rw plain (append_subs-ok ss (append_name_spaces ns (append_attributes a (set_content c n))))
  ]

  append_subs-ok : (ss : Nodes) (n : Node) → (append_subs ss n).0 ≡ true
  append_subs-ok nil n = refl
  append_subs-ok (cons s ss) n =
      let first = at_or_added (key s) (content s) (append_same s) n in
      rw (at_or_added-ok (key s) (content s) (append_same s) (append_same-ok s) n)
        (append_subs-ok ss first.1)

-- AppendNode succeeds exactly when GetXMPNode finds the key of the node appended, and then a node with
-- that key and the content of the node appended is found; otherwise the tree is as it was.
pub append_node_lem :
    (other n : Node)
    → ((append_node other n).0 ≡ is_found (get_xmp_node (key other) n))
      × (((m : Node) × ((append_node other n).0 ≡ true)
            × (get_xmp_node (key other) (append_node other n).1 ≡ some m)
            × (content m ≡ content other))
          ⊎ (append_node other n ≡ (false, n)))
unfolding append_node AlwaysTrue
append_node_lem other n = elim (Bool-cases (text_eq (key n) (key other))) [
  | inl same ↦
      let ok = append_same-ok other n same in
      let kept : text_eq (key (append_same other n).1) (key other) ≡ true =
        rw (append_same-key other n) same in
      rw same (
        ok ∙ sym (ap is_found (get_xmp_node_self (key other) n same)),
        inl (
          (append_same other n).1,
          ok,
          get_xmp_node_self (key other) (append_same other n).1 kept,
          append_same-content other n same,
        ),
      )
  | inr differ ↦
      let f = append_same other in
      elim (Option-cases (with_node (key other) f n)) [
        | inl absent ↦
            let not_there = with_node-none (key other) f n absent in
            rw (differ, absent) (sym (ap is_found not_there), inr refl)
        | inr ((b, n'), there) ↦
            let (m, found, b_is, now) =
              with_node-some f (append_same-key other) (key other) n n' b there in
            let here = get_xmp_node-key (key other) n m found in
            let ok = b_is ∙ append_same-ok other m here in
            rw (differ, there)
              (
                ok ∙ sym (ap is_found found),
                inl ((f m).1, ok, now, append_same-content other m here),
              )
      ]
]
