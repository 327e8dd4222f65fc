-- ===== src/XmpNode/Values.antt =====
-- What GetKeyValue of XMPDataNode.cpp reads after UpdateKeyValue.
use pmt.Common.{
  ◌⊎◌, Bool, is_found, ◌++◌, ◌||◌, ◌≡◌, refl, ap, true, false, none, some, List, [], ◌∷◌,
  if◌then◌else◌, text_eq, text_eq_sound, text_eq_apart, arith, Bool-cases, Option-cases, inl, inr,
}
use pmt.Common.Text.{Text}
use pmt.XmpNode.{
  add_attribute, add_attribute, update_key_value, c_str, Node, node, Nodes, nil, cons,
  find_attribute, get_key_value, get_key_value_in, update_attribute, update_found, update_found_in,
}

update_attribute-none :
    (k v : Text) (m : List (Text × Text))
    → update_attribute k v m ≡ none
    → find_attribute k m ≡ none
unfolding update_attribute find_attribute
update_attribute-none k v [] h = refl
update_attribute-none k v ((i, w) ∷ m) h = ground (arith, update_attribute-none k v m)

update_attribute-some :
    (k v j : Text) (m m' : List (Text × Text))
    → update_attribute k v m ≡ some m'
    → find_attribute j m' ≡ (if text_eq k j then some v else find_attribute j m)
unfolding update_attribute find_attribute
update_attribute-some k v j [] m' h = absurd (ground (arith, h))
update_attribute-some k v j ((i, w) ∷ m) m' h = elim (Bool-cases (text_eq i k)) [
  | inl same ↦ ground (arith, h, same, ap (λ x. text_eq x j) (text_eq_sound i k same))
  | inr other ↦ elim (Option-cases (update_attribute k v m)) [
    | inl absent ↦ absurd (ground (arith, h, other, absent))
    | inr (m'', there) ↦
        let rest = update_attribute-some k v j m m'' there in
        let new_or_old = text_eq_apart k i j other in
        ground (arith, h, other, there, rest, new_or_old)
  ]
]

mutual
  unfolding update_found get_key_value

  update_found-none : (k v : Text) (n : Node) → update_found k v n ≡ none → get_key_value k n ≡ none
  update_found-none k v (node i c m s subs) h =
      ground (arith, h, update_attribute-none k v m, update_found_in-none k v subs)

  update_found_in-none :
      (k v : Text) (ns : Nodes) → update_found_in k v ns ≡ none → get_key_value_in k ns ≡ none
  update_found_in-none k v nil h = refl
  update_found_in-none k v (cons n ns) h =
      ground (arith, h, update_found-none k v n, update_found_in-none k v ns)

mutual
  unfolding update_found get_key_value

  update_found-some :
      (k v j : Text) (n n' : Node)
      → update_found k v n ≡ some n'
      → get_key_value j n' ≡ (if text_eq k j then some (c_str v) else get_key_value j n)
  update_found-some k v j (node i c m s subs) n' h = elim (Bool-cases (text_eq i k)) [
    | inl same ↦ ground (arith, h, same, ap (λ x. text_eq x j) (text_eq_sound i k same))
    | inr other ↦ elim (Option-cases (update_attribute k v m)) [
      | inr (m', there) ↦ ground (
        arith,
        h,
        other,
        there,
        update_attribute-some k v j m m' there,
        text_eq_apart k i j other,
      )
      | inl absent ↦ elim (Option-cases (update_found_in k v subs)) [
        | inl not_below ↦ absurd (ground (arith, h, other, absent, not_below))
        | inr (subs', below) ↦
            let rest = update_found_in-some k v j subs subs' below in
            let no_attribute = update_attribute-none k v m absent in
            ground (
              arith,
              h,
              other,
              absent,
              below,
              rest,
              no_attribute,
              text_eq_apart k i j other,
              text_eq_sound k j,
            )
      ]
    ]
  ]

  update_found_in-some :
      (k v j : Text) (ns ns' : Nodes)
      → update_found_in k v ns ≡ some ns'
      → get_key_value_in j ns' ≡ (if text_eq k j then some (c_str v) else get_key_value_in j ns)
  update_found_in-some k v j nil ns' h = absurd (ground (arith, h))
  update_found_in-some k v j (cons n ns) ns' h = elim (Option-cases (update_found k v n)) [
    | inr (n', there) ↦ ground (arith, h, there, update_found-some k v j n n' there)
    | inl absent ↦ elim (Option-cases (update_found_in k v ns)) [
      | inl not_later ↦ absurd (ground (arith, h, absent, not_later))
      | inr (ms, later) ↦
          let rest = update_found_in-some k v j ns ms later in
          let not_here = update_found-none k v n absent in
          ground (arith, h, absent, later, rest, not_here, text_eq_sound k j)
    ]
  ]

update_attribute-is_found :
    (k v : Text) (m : List (Text × Text))
    → is_found (update_attribute k v m) ≡ is_found (find_attribute k m)
unfolding update_attribute find_attribute
update_attribute-is_found k v [] = refl
update_attribute-is_found k v ((i, w) ∷ m) = ground (arith, update_attribute-is_found k v m)

mutual
  unfolding update_found get_key_value

  update_found-is_found :
      (k v : Text) (n : Node) → is_found (update_found k v n) ≡ is_found (get_key_value k n)
  update_found-is_found k v (node i c m s subs) =
      ground (arith, update_attribute-is_found k v m, update_found_in-is_found k v subs)

  update_found_in-is_found :
      (k v : Text) (ns : Nodes)
      → is_found (update_found_in k v ns) ≡ is_found (get_key_value_in k ns)
  update_found_in-is_found k v nil = refl
  update_found_in-is_found k v (cons n ns) =
      ground (arith, update_found-is_found k v n, update_found_in-is_found k v ns)

find_attribute-push_back :
    (k v j : Text) (m : List (Text × Text))
    → find_attribute k m ≡ none
    → find_attribute j (m ++ (k, v) ∷ []) ≡ (if text_eq k j then some v else find_attribute j m)
unfolding find_attribute
find_attribute-push_back k v j [] h = refl
find_attribute-push_back k v j ((i, w) ∷ m) h = elim (Bool-cases (text_eq i k)) [
  | inl same ↦ absurd (ground (arith, h, same))
  | inr other ↦
      ground (arith, h, other, find_attribute-push_back k v j m, text_eq_apart k i j other)
]

get_key_value-add_attribute :
    (k v j : Text) (n : Node)
    → get_key_value k n ≡ none
    → get_key_value j (add_attribute k v n)
      ≡ (if text_eq k j then some (c_str v) else get_key_value j n)
unfolding get_key_value
get_key_value-add_attribute k v j (node i c m s subs) h = elim (Bool-cases (text_eq i k)) [
  | inl same ↦ absurd (ground (arith, h, same))
  | inr other ↦ elim (Option-cases (find_attribute k m)) [
    | inr (w, there) ↦ absurd (ground (arith, h, other, there))
    | inl absent ↦ ground (
      arith,
      h,
      other,
      absent,
      find_attribute-push_back k v j m absent,
      text_eq_apart k i j other,
    )
  ]
]

-- UpdateKeyValue succeeds if it may create the key or GetKeyValue finds it. Then GetKeyValue finds the
-- new value under the key, up to its first NUL, and under every other key what it found before;
-- otherwise the tree is as it was.
pub update_key_value_lem :
    (k v j : Text) (create : Bool) (n : Node)
    → ((update_key_value k v create n).0 ≡ (create || is_found (get_key_value k n)))
      × ((((update_key_value k v create n).0 ≡ true)
            × (get_key_value j (update_key_value k v create n).1
                ≡ (if text_eq k j then some (c_str v) else get_key_value j n)))
          ⊎ (update_key_value k v create n ≡ (false, n)))
unfolding update_key_value
update_key_value_lem k v j create n = elim (Option-cases (update_found k v n)) [
  | inr (n', found) ↦
      let known : is_found (get_key_value k n) ≡ true =
        rw (← update_found-is_found k v n, found) refl in
      (
        ground (arith, found, known),
        inl (
          ground (arith, found),
          rw (found, update_key_value) (update_found-some k v j n n' found),
        ),
      )
  | inl absent ↦
      let unknown = update_found-none k v n absent in
      (
        ground (arith, absent, unknown),
        elim (Bool-cases create) [
          | inl yes_create ↦ inl (
            ground (arith, absent, yes_create),
            ground (arith, absent, yes_create, get_key_value-add_attribute k v j n unknown),
          )
          | inr no_create ↦ inr (ground (arith, absent, no_create))
        ],
      )
]
