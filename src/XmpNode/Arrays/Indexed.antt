-- ===== src/XmpNode/Arrays/Indexed.antt =====
-- What GetKeyValueSeq and GetKeyValueBag of XMPDataNode.cpp read after UpdateKeyValueSeqIndex and
-- UpdateKeyValueBagIndex.
use mathlib.Core.List.{append-nil, append_assoc}
use pmt.Common.{
  ℕ, zero, suc, ◌≡◌, ◌<◌, ◌≤◌, refl, sym, ap, ◌∙◌, Bool, true, false, ◌||◌, ◌&&◌, none, some, List,
  [], ◌∷◌, ◌++◌, if◌then◌else◌, ltb, length, set, text_eq, arith, Bool-cases, Option-cases, inl,
  inr,
}
use pmt.Common.Text.{Text}
use pmt.XmpNode.{Node, node, Nodes, nil, cons, key, content, sub_nodes}
use pmt.XmpNode.Arrays.{
  collect_items, get_key_value_vector, li_tag, update_item, update_at,
  update_key_value_vector_index,
}
use pmt.XmpNode.Arrays.RoundTrip.{write_array-there, collect_items-push_back}

-- The contents of the nodes, and whether each is an item.
abbrev contents : Nodes → List Text
contents nil = []
contents (cons n ns) = content n ∷ contents ns

abbrev are_items : Nodes → Bool
are_items nil = true
are_items (cons n ns) = text_eq (key n) li_tag && are_items ns

collect_items-of :
    (ns : Nodes) (out : List Text)
    → are_items ns ≡ true
    → collect_items ns out ≡ (true, out ++ contents ns)
unfolding collect_items
collect_items-of nil out h = ap (λ r. (true, r)) (sym (append-nil out))
collect_items-of (cons n ns) out h = ground (
  arith,
  h,
  collect_items-of ns (out ++ content n ∷ []),
  append_assoc out (content n ∷ []) (contents ns),
)

collect_items-are_items :
    (ns : Nodes) (out xs : List Text) → collect_items ns out ≡ (true, xs) → are_items ns ≡ true
unfolding collect_items
collect_items-are_items nil out xs h = refl
collect_items-are_items (cons n ns) out xs h =
    ground (arith, h, collect_items-are_items ns (out ++ content n ∷ []) xs)

update_item-some :
    (i : ℕ) (v : Text) (ns ns' : Nodes)
    → update_item i v ns ≡ some ns'
    → (are_items ns' ≡ are_items ns)
      × (contents ns' ≡ set (contents ns) i v)
      × (i < length (contents ns))
unfolding update_item
update_item-some i v nil ns' h = absurd (ground (arith, h))
update_item-some zero v (cons (node k c a s subs) ns) ns' h =
    let e : ns' ≡ cons (node k v a s subs) ns = ground (arith, h) in
    (rw e refl, rw e refl, omega arith)
update_item-some (suc i) v (cons n ns) ns' h = elim (Option-cases (update_item i v ns)) [
  | inl absent ↦ absurd (ground (arith, h, absent))
  | inr (ms, there) ↦
      let (same, now, within) = update_item-some i v ns ms there in
      let e : ns' ≡ cons n ms = ground (arith, h, there) in
      (rw (e, same) refl, rw (e, now) refl, omega arith)
]

update_item-none :
    (i : ℕ) (v : Text) (ns : Nodes) → update_item i v ns ≡ none → length (contents ns) ≤ i
unfolding update_item
update_item-none i v nil h = omega arith
update_item-none zero v (cons n ns) h = absurd (ground (arith, h))
update_item-none (suc i) v (cons n ns) h =
    let rest = update_item-none i v ns (ground (arith, h)) in omega arith

key-update_at :
    (v : Text) (i : ℕ) (create : Bool) (bag : Node) → key (update_at v i create bag).1 ≡ key bag
key-update_at v i create (node k c a s subs) = ground arith

read-update_at :
    (v : Text) (i : ℕ) (create : Bool) (bag : Node) (xs : List Text)
    → collect_items (sub_nodes bag) [] ≡ (true, xs)
    → ((update_at v i create bag).0 ≡ (ltb i (length xs) || create))
      × (collect_items (sub_nodes (update_at v i create bag).1) []
          ≡ (true, if ltb i (length xs) then set xs i v else if create then xs ++ v ∷ [] else xs))
read-update_at v i create (node k c a s subs) xs h =
    let items = collect_items-are_items subs [] xs h in
    let is_xs : contents subs ≡ xs = ap (λ r. r.1) (sym (collect_items-of subs [] items) ∙ h) in
    elim (Option-cases (update_item i v subs)) [
      | inr (subs', there) ↦
          let (same, now, within) = update_item-some i v subs subs' there in
          let read = collect_items-of subs' [] (same ∙ items) in
          let inside : ltb i (length xs) ≡ true = rw (← is_xs) (ground (arith, within)) in
          rw (inside, there, update_at)
            (refl, read ∙ ap (λ r. (true, r)) (now ∙ ap (λ r. set r i v) is_xs))
      | inl absent ↦
          let beyond = update_item-none i v subs absent in
          let outside : ltb i (length xs) ≡ false = rw (← is_xs) (ground (arith, beyond)) in
          elim (Bool-cases create) [
            | inl yes_create ↦
                rw (outside, absent, update_at, yes_create)
                  (refl, collect_items-push_back v subs [] xs h)
            | inr no_create ↦ rw (outside, absent, update_at, no_create) (refl, h)
          ]
    ]

-- Where GetKeyValueSeq or GetKeyValueBag reads an array, the Index form of the update writes the item
-- at an index within it and changes no other. An index beyond it adds the text as the last item if
-- the array may be extended, and otherwise fails and changes none.
pub update_key_value_vector_index-read :
    (k v : Text) (i : ℕ) (is_seq create : Bool) (n : Node) (xs : List Text)
    → get_key_value_vector k [] is_seq n ≡ (true, xs)
    → ((update_key_value_vector_index k v i is_seq create n).0 ≡ (ltb i (length xs) || create))
      × (get_key_value_vector k [] is_seq (update_key_value_vector_index k v i is_seq create n).1
          ≡ (true, if ltb i (length xs) then set xs i v else if create then xs ++ v ∷ [] else xs))
unfolding update_key_value_vector_index
update_key_value_vector_index-read k v i is_seq create n xs h =
    let g : Node → Bool × Node = update_at v i create in
    let (bag, items, b_is, found) =
      write_array-there g (key-update_at v i create) k is_seq create n xs h in
    let (ok, read) = read-update_at v i create bag xs items in (b_is ∙ ok, found [] ∙ read)
