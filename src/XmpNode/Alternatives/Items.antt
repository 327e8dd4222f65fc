-- ===== src/XmpNode/Alternatives/Items.antt =====
-- The items that UpdateKeyValueAlt of XMPDataNode.cpp writes, as GetKeyValueAlt collects them.
use pmt.MapT.Lookup.{add_entry-none}
use mathlib.Core.List.{append_assoc}
use pmt.Common.{
  ◌≡◌, refl, sym, ap, ◌∙◌, Bool, true, false, Option, none, some, List, [], ◌∷◌, ◌++◌, All,
  if◌then◌else◌, text_eq, text_eq_refl, text_eq_sound, arith, Bool-cases, Option-cases, inl, inr,
}
use pmt.Common.Text.{Text}
use pmt.Aliases.{text_ltb}
use pmt.Aliases.Insert.{text_eq_other}
use pmt.Factory.{find_item, insert_item, add_entry}
use pmt.MapT.Insertion.{IsRising, less-differs, find_item-less}
use pmt.MapT.Erasure.{not-less-back}
use pmt.XmpNode.{
  Node, Nodes, nil, cons, key, content, sub_nodes, new, push_back, add_sub_node, c_str,
  find_attribute, get_key_value,
}
use pmt.XmpNode.Arrays.{alt_tag, li_tag}
use pmt.XmpNode.Arrays.RoundTrip.{sub_nodes-add_sub_node}
use pmt.XmpNode.Alternatives.{
  x_default, alternative, add_alternatives, alternatives, collect_alternatives,
}

abbrev Entries : Type 0
Entries = List (Text × Text)

-- No text has a NUL.
abbrev pub AreWhole : Entries → Type 0
AreWhole m = All (λ e. (c_str e.0 ≡ e.0) × (c_str e.1 ≡ e.1)) m

insert_item-middle :
    (k v : Text) (es t : Entries)
    → All (λ e. text_ltb e.0 k ≡ true) es
    → insert_item k v t ≡ (k, v) ∷ t
    → insert_item k v (es ++ t) ≡ es ++ (k, v) ∷ t
unfolding insert_item
insert_item-middle k v [] t before here = here
insert_item-middle k v ((j, w) ∷ es) t (jk, before) here =
    rw (not-less-back j k jk) (ap (λ m. (j, w) ∷ m) (insert_item-middle k v es t before here))

find_item-middle :
    (k : Text) (es t : Entries)
    → All (λ e. text_ltb e.0 k ≡ true) es
    → find_item k t ≡ none
    → find_item k (es ++ t) ≡ none
unfolding find_item
find_item-middle k [] t before absent = absent
find_item-middle k ((j, w) ∷ es) t (jk, before) absent =
    rw (text_eq_other k j (less-differs j k jk), find_item-middle k es t before absent) refl

All-middle :
    (P : Text × Text → Type 0) (e : Text × Text) (es t : Entries) → All P (es ++ e ∷ t) → P e
All-middle P e [] t (here, all) = here
All-middle P e (x ∷ es) t (first, all) = All-middle P e es t all

rising-before :
    (k v : Text) (es t : Entries)
    → IsRising (es ++ (k, v) ∷ t)
    → All (λ e. text_ltb e.0 k ≡ true) es × All (λ e. text_ltb k e.0 ≡ true) t
unfolding IsRising
rising-before k v [] t (behind, rising) = (tt, behind)
rising-before k v ((j, w) ∷ es) t (behind, rising) =
    let (before, after) = rising-before k v es t rising in
    ((All-middle (λ e. text_ltb j e.0 ≡ true) (k, v) es t behind, before), after)

find_item-ahead :
    (k d v : Text) (t : Entries)
    → All (λ e. text_ltb k e.0 ≡ true) t
    → find_item d t ≡ some v
    → text_ltb k d ≡ true
unfolding find_item
find_item-ahead k d v [] all h = absurd (ground (arith, h))
find_item-ahead k d v ((j, w) ∷ t) (kj, all) h = elim (Bool-cases (text_eq j d)) [
  | inl same ↦ rw (← text_eq_sound j d same) kj
  | inr other ↦ find_item-ahead k d v t all (ground (arith, h, other))
]

-- The entry for x-default while it is ahead: it was written first.
abbrev ahead : Entries → Entries
ahead t = elim (find_item x_default t) [ none ↦ [] | some v ↦ (x_default, v) ∷ [] ]

ahead-here :
    (k v : Text) (t : Entries)
    → text_eq k x_default ≡ true
    → All (λ e. text_ltb k e.0 ≡ true) t
    → ahead ((k, v) ∷ t) ≡ (k, v) ∷ ahead t
unfolding find_item
ahead-here k v t same after =
    let default = text_eq_sound k x_default same in
    let absent : find_item x_default t ≡ none = rw (← default) (find_item-less k t after) in
    rw (ahead, same, ahead, absent, ← default) refl

ahead-other :
    (k v : Text) (t : Entries) → text_eq k x_default ≡ false → ahead ((k, v) ∷ t) ≡ ahead t
unfolding find_item
ahead-other k v t other = rw (ahead, other) refl

find_item_other_ahead :
    (k : Text) (t : Entries) → text_eq k x_default ≡ false → find_item k (ahead t) ≡ none
unfolding find_item
find_item_other_ahead k t other = elim (Option-cases (find_item x_default t)) [
  | inl absent ↦ rw (ahead, absent) refl
  | inr (v, there) ↦ rw (ahead, there, text_eq_other k x_default other) refl
]

insert_item-ahead :
    (k v : Text) (t : Entries)
    → All (λ e. text_ltb k e.0 ≡ true) t
    → insert_item k v (ahead t) ≡ (k, v) ∷ ahead t
unfolding insert_item
insert_item-ahead k v t after = elim (Option-cases (find_item x_default t)) [
  | inl absent ↦ rw (ahead, absent) refl
  | inr (w, there) ↦ rw (ahead, there, find_item-ahead k x_default w t after there) refl
]

whole_item : (d v : Text) (m : Entries) → AreWhole m → find_item d m ≡ some v → c_str v ≡ v
unfolding find_item
whole_item d v [] whole h = absurd (ground (arith, h))
whole_item d v ((j, w) ∷ m) ((_, whole_w), whole) h = elim (Bool-cases (text_eq j d)) [
  | inl same ↦ let e : w ≡ v = ground (arith, h, same) in rw (← e) whole_w
  | inr other ↦ whole_item d v m whole (ground (arith, h, other))
]

choose-not :
    {A : Type 0} (b : Bool) (x y : A)
    → (if (if b then false else true) then x else y) ≡ (if b then y else x)
choose-not true x y = refl
choose-not false x y = refl

key-alternative : (a k v : Text) → key (alternative a k v) ≡ li_tag
unfolding alternative
key-alternative a k v = refl

content-alternative : (a k v : Text) → content (alternative a k v) ≡ c_str v
unfolding alternative
content-alternative a k v = refl

module _ (attribute : Text) (plain : text_eq li_tag attribute ≡ false) where
  get_key_value-alternative :
      (k v : Text) → c_str k ≡ k → get_key_value attribute (alternative attribute k v) ≡ some k
  unfolding get_key_value alternative find_attribute
  get_key_value-alternative k v whole =
      rw (plain, text_eq_refl attribute) (ap some (ap c_str whole ∙ whole))

  collect-nil : (m : Entries) → collect_alternatives attribute nil m ≡ (true, m)
  unfolding collect_alternatives
  collect-nil m = refl

  -- The name that an item is collected under.
  name_of : Node → Option Text
  name_of n = if text_eq (key n) li_tag then get_key_value attribute n else none

  collect-unnamed :
      (n : Node) (ns : Nodes) (m : Entries)
      → name_of n ≡ none
      → collect_alternatives attribute (cons n ns) m ≡ collect_alternatives attribute ns m
  unfolding collect_alternatives name_of
  collect-unnamed n ns m unnamed = rw unnamed refl

  collect-named :
      (name : Text) (n : Node) (ns : Nodes) (m : Entries)
      → name_of n ≡ some name
      → collect_alternatives attribute (cons n ns) m ≡ (
          if (add_entry name (content n) m).0
          then collect_alternatives attribute ns (add_entry name (content n) m).1
          else (false, []))
  unfolding collect_alternatives name_of
  collect-named name n ns m named =
      let (added, next) = add_entry name (content n) m in
      rw named (choose-not added (false, []) (collect_alternatives attribute ns next))

  name_of-alternative : (k v : Text) → c_str k ≡ k → name_of (alternative attribute k v) ≡ some k
  unfolding name_of
  name_of-alternative k v whole =
      rw (key-alternative attribute k v, text_eq_refl li_tag) (get_key_value-alternative k v whole)

  -- An item is collected where its name is new.
  collect-alternative :
      (k v : Text) (ns : Nodes) (m : Entries)
      → c_str k ≡ k
      → c_str v ≡ v
      → find_item k m ≡ none
      → collect_alternatives attribute (cons (alternative attribute k v) ns) m
        ≡ collect_alternatives attribute ns (insert_item k v m)
  collect-alternative k v ns m whole_k whole_v fresh =
      collect-named k (alternative attribute k v) ns m (name_of-alternative k v whole_k)
      ∙ rw (content-alternative attribute k v, whole_v, add_entry-none k v m fresh) refl

  collect-push_back :
      (k v : Text) (ns : Nodes) (m m' : Entries)
      → c_str k ≡ k
      → c_str v ≡ v
      → collect_alternatives attribute ns m ≡ (true, m')
      → find_item k m' ≡ none
      → collect_alternatives attribute (push_back ns (alternative attribute k v)) m
        ≡ (true, insert_item k v m')
  collect-push_back k v nil m m' whole_k whole_v h fresh =
      let same = ap (λ (r : Bool × Entries). r.1) (sym (collect-nil m) ∙ h) in
      collect-alternative k v nil m whole_k whole_v (ap (find_item k) same ∙ fresh)
      ∙ collect-nil (insert_item k v m)
      ∙ ap (λ r. (true, insert_item k v r)) same
  collect-push_back k v (cons n ns) m m' whole_k whole_v h fresh = elim (Option-cases (name_of n)) [
    | inl unnamed ↦
        collect-unnamed n (push_back ns (alternative attribute k v)) m unnamed
        ∙ collect-push_back k v ns m m' whole_k whole_v (sym (collect-unnamed n ns m unnamed) ∙ h)
            fresh
    | inr (name, named) ↦
        let now = sym (collect-named name n ns m named) ∙ h in
        elim (Bool-cases (add_entry name (content n) m).0) [
          | inr clash ↦ absurd (ground (arith, now, clash))
          | inl added ↦
              collect-named name n (push_back ns (alternative attribute k v)) m named
              ∙ rw added (
                  collect-push_back k v ns (add_entry name (content n) m).1 m' whole_k whole_v
                    (ground (arith, now, added)) fresh)
        ]
  ]

  -- With the entries `es1` behind the loop, its items and those ahead make up the map.
  collect-add_alternatives :
      (es1 es2 : Entries) (alt : Node)
      → IsRising (es1 ++ es2)
      → AreWhole es2
      → collect_alternatives attribute (sub_nodes alt) [] ≡ (true, es1 ++ ahead es2)
      → collect_alternatives attribute (sub_nodes (add_alternatives attribute es2 alt)) []
        ≡ (true, es1 ++ es2)
  unfolding add_alternatives find_item
  collect-add_alternatives es1 [] alt rising whole h = h
  collect-add_alternatives es1 ((k, v) ∷ t) alt rising ((whole_k, whole_v), whole) h =
      let (before, after) = rising-before k v es1 t rising in
      let shift : (r : Entries) → (es1 ++ (k, v) ∷ []) ++ r ≡ es1 ++ (k, v) ∷ r =
        λ r. append_assoc es1 ((k, v) ∷ []) r in
      let rising' : IsRising ((es1 ++ (k, v) ∷ []) ++ t) = rw (shift t) rising in
      elim (Bool-cases (text_eq k x_default)) [
        | inl same ↦
            let step = ahead-here k v t same after in
            rw same (
              collect-add_alternatives (es1 ++ (k, v) ∷ []) t alt rising' whole
                (h ∙ ap (λ r. (true, r)) (ap (es1 ++◌) step ∙ sym (shift (ahead t))))
              ∙ ap (λ r. (true, r)) (shift t))
        | inr other ↦
            let item = alternative attribute k v in
            let gathered =
              rw (sub_nodes-add_sub_node alt item) (
                collect-push_back k v (sub_nodes alt) [] (es1 ++ ahead t) whole_k whole_v
                  (h ∙ ap (λ r. (true, es1 ++ r)) (ahead-other k v t other))
                  (find_item-middle k es1 (ahead t) before (find_item_other_ahead k t other)))
              ∙ ap (λ r. (true, r))
                  (insert_item-middle k v es1 (ahead t) before (insert_item-ahead k v t after)
                    ∙ sym (shift (ahead t))) in
            rw other (
              collect-add_alternatives (es1 ++ (k, v) ∷ []) t (add_sub_node alt item) rising' whole
                gathered
              ∙ ap (λ r. (true, r)) (shift t))
      ]

  -- GetKeyValueAlt collects the map that UpdateKeyValueAlt writes.
  pub collect-alternatives :
      (m : Entries)
      → IsRising m
      → AreWhole m
      → collect_alternatives attribute (sub_nodes (alternatives attribute m)) [] ≡ (true, m)
  unfolding alternatives insert_item
  collect-alternatives m rising whole = elim (Option-cases (find_item x_default m)) [
    | inl absent ↦ rw absent (
        collect-add_alternatives [] m (new alt_tag) rising whole
          (collect-nil [] ∙ rw (ahead, absent) refl))
    | inr (v, there) ↦
        let item = alternative attribute x_default v in
        let first =
          collect-push_back x_default v nil [] [] refl (whole_item x_default v m whole there)
            (collect-nil []) refl in
        rw there (
          collect-add_alternatives [] m (add_sub_node (new alt_tag) item) rising whole
            (first ∙ rw (ahead, there) refl))
  ]
