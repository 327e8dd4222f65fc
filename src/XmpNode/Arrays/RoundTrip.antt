-- ===== src/XmpNode/Arrays/RoundTrip.antt =====
-- What GetKeyValueSeq and GetKeyValueBag of XMPDataNode.cpp read after UpdateKeyValueSeq,
-- UpdateKeyValueBag and their Index forms.
use mathlib.Core.List.{append-nil, append_assoc}
use pmt.Common.{
  ap, text_eq, Bool-cases, text_eq_refl, ◌++◌, map, ◌∷◌, [], ◌≡◌, refl, ◌∙◌, Bool, true, List,
  arith, inl, inr,
}
use pmt.Common.Text.{Text}
use pmt.XmpNode.{
  set_sub_nodes, nil, cons, content, content, cons, c_str, node, push_back, Nodes, add_sub_node,
  Node, key, sub_nodes,
}
use pmt.XmpNode.Arrays.{
  update_key_value_vector, li_tag, item, add_items, with_created, array_tag, collect_items,
  get_key_value_vector,
}
use pmt.XmpNode.Arrays.Found.{with_created-key, with_created_lem}

-- A write to the array below a key, which both forms make.
abbrev pub write_array : Text → Bool → Bool → (Node → Bool × Node) → Node → Bool × Node
write_array k is_seq create g n =
    with_created k create (λ found. with_created (array_tag is_seq) create g found) n

module _ (g : Node → Bool × Node) (keeps : (m : Node) → key (g m).1 ≡ key m) where
  write_array-created :
      (k : Text) (is_seq : Bool) (n : Node)
      → (bag : Node) × ((write_array k is_seq true g n).0 ≡ (g bag).0)
        × ((out : List Text)
            → get_key_value_vector k out is_seq (write_array k is_seq true g n).1
              ≡ collect_items (sub_nodes (g bag).1) out)
  unfolding get_key_value_vector
  write_array-created k is_seq n =
      let f = λ (found : Node). with_created (array_tag is_seq) true g found in
      let f_keeps = with_created-key g keeps (array_tag is_seq) true in
      elim (with_created_lem f f_keeps k true n) [
        | inr (_, no_create, _) ↦ absurd (ground (arith, no_create))
        | inl (m, _, b_is, found) ↦ elim (with_created_lem g keeps (array_tag is_seq) true m) [
          | inr (_, no_create, _) ↦ absurd (ground (arith, no_create))
          | inl (bag, _, c_is, inner) ↦
              (bag, b_is ∙ c_is, λ out. rw (found, get_key_value_vector, inner) refl)
        ]
      ]

  -- Where the array is there, the write is made to it, whether or not it may be created.
  pub write_array-there :
      (k : Text) (is_seq create : Bool) (n : Node) (xs : List Text)
      → get_key_value_vector k [] is_seq n ≡ (true, xs)
      → (bag : Node) × (collect_items (sub_nodes bag) [] ≡ (true, xs))
        × ((write_array k is_seq create g n).0 ≡ (g bag).0)
        × ((out : List Text)
            → get_key_value_vector k out is_seq (write_array k is_seq create g n).1
              ≡ collect_items (sub_nodes (g bag).1) out)
  unfolding get_key_value_vector
  write_array-there k is_seq create n xs h =
      let f = λ (found : Node). with_created (array_tag is_seq) create g found in
      let f_keeps = with_created-key g keeps (array_tag is_seq) create in
      elim (with_created_lem f f_keeps k create n) [
        | inr (absent, _, _) ↦ absurd (ground (arith, h, absent))
        | inl (m, inr (absent, _, _), _, _) ↦ absurd (ground (arith, h, absent))
        | inl (m, inl there, b_is, found) ↦
            elim (with_created_lem g keeps (array_tag is_seq) create m) [
              | inr (absent, _, _) ↦ absurd (ground (arith, h, there, absent))
              | inl (bag, inr (absent, _, _), _, _) ↦ absurd (ground (arith, h, there, absent))
              | inl (bag, inl inside, c_is, inner) ↦ (
                bag,
                ground (arith, h, there, inside),
                b_is ∙ c_is,
                λ out. rw (found, get_key_value_vector, inner) refl,
              )
            ]
      ]

-- A new item is collected last.
pub collect_items-push_back :
    (v : Text) (ns : Nodes) (out xs : List Text)
    → collect_items ns out ≡ (true, xs)
    → collect_items (push_back ns (item v)) out ≡ (true, xs ++ v ∷ [])
unfolding collect_items
collect_items-push_back v nil out xs h =
    let longer : Bool × List Text → Bool × List Text = λ r. (r.0, r.1 ++ v ∷ []) in
    rw (text_eq_refl li_tag) (ap longer h)
collect_items-push_back v (cons n ns) out xs h = elim (Bool-cases (text_eq (key n) li_tag)) [
  | inr other ↦ absurd (ground (arith, h, other))
  | inl is_item ↦
      let rest =
        collect_items-push_back v ns (out ++ content n ∷ []) xs (ground (arith, h, is_item)) in
      ground (arith, is_item, rest)
]

pub sub_nodes-add_sub_node :
    (n sub : Node) → sub_nodes (add_sub_node n sub) ≡ push_back (sub_nodes n) sub
sub_nodes-add_sub_node (node i c a s subs) sub = refl

key-add_items : (vs : List Text) (bag : Node) → key (add_items vs bag) ≡ key bag
unfolding add_items
key-add_items [] bag = refl
key-add_items (v ∷ vs) (node i c a s subs) =
    key-add_items vs (node i c a s (push_back subs (item (c_str v))))

collect_items-add_items :
    (vs : List Text) (bag : Node) (out xs : List Text)
    → collect_items (sub_nodes bag) out ≡ (true, xs)
    → collect_items (sub_nodes (add_items vs bag)) out ≡ (true, xs ++ map c_str vs)
unfolding add_items
collect_items-add_items [] bag out xs h = rw (append-nil xs) h
collect_items-add_items (v ∷ vs) bag out xs h =
    let bag' = add_sub_node bag (item (c_str v)) in
    let added : collect_items (sub_nodes bag') out ≡ (true, xs ++ c_str v ∷ []) =
      rw (sub_nodes-add_sub_node bag (item (c_str v)))
        (collect_items-push_back (c_str v) (sub_nodes bag) out xs h) in
    collect_items-add_items vs bag' out (xs ++ c_str v ∷ []) added
    ∙ ap (λ r. (true, r)) (append_assoc xs (c_str v ∷ []) (map c_str vs))

pub key-set_sub_nodes : (subs : Nodes) (n : Node) → key (set_sub_nodes subs n) ≡ key n
key-set_sub_nodes subs (node i c a s old) = refl

pub sub_nodes-set_sub_nodes : (subs : Nodes) (n : Node) → sub_nodes (set_sub_nodes subs n) ≡ subs
sub_nodes-set_sub_nodes subs (node i c a s old) = refl

-- UpdateKeyValueSeq and UpdateKeyValueBag with bCreateIfNotExist succeed, and GetKeyValueSeq and
-- GetKeyValueBag then append to the vector that they are given the texts written, each up to its
-- first NUL.
pub update_key_value_vector-read :
    (k : Text) (vs out : List Text) (is_seq : Bool) (n : Node)
    → ((update_key_value_vector k vs is_seq true n).0 ≡ true)
      × (get_key_value_vector k out is_seq (update_key_value_vector k vs is_seq true n).1
          ≡ (true, out ++ map c_str vs))
unfolding update_key_value_vector collect_items
update_key_value_vector-read k vs out is_seq n =
    let g : Node → Bool × Node = λ bag. (true, add_items vs (set_sub_nodes nil bag)) in
    let (bag, ok, found) =
      write_array-created g (λ m. key-add_items vs (set_sub_nodes nil m) ∙ key-set_sub_nodes nil m)
        k is_seq n in
    (
      ok,
      found out
          ∙ collect_items-add_items vs (set_sub_nodes nil bag) out out rw
              (sub_nodes-set_sub_nodes nil bag) refl,
    )
