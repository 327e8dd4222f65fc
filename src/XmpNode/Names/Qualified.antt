-- ===== src/XmpNode/Names/Qualified.antt =====
-- What ValidateNameSpace of XMPDataNode.cpp is for: GetQName has a name for the keys of the tree.
use mathlib.Core.List.{append-nil}
use pmt.Common.{
  refl, Bool-cases, sym, ◌≡◌, Bool, true, ◌&&◌, ◌||◌, ◌==◌, none, some, is_found, List, [], ◌∷◌,
  ◌++◌, length, text_eq_refl, arith, Option-cases, inl, inr,
}
use pmt.Common.Text.{find, Text}
use pmt.XmpNode.{Node, node, Nodes, nil, cons}
use pmt.XmpNode.Names.{
  validate_sub_nodes, xml_prefix, validate_name_space, validate_attributes, split_full_name,
  find_prefix, get_name_space_prefix, get_q_name, validate_key,
}

-- The key has a qualified name in the scopes, unless it has no name space or one without a prefix.
unfoldable pub is_qualified : (Text → Text) → List (List (Text × Text)) → Text → Bool
is_qualified get_prefix scopes k = elim (split_full_name k) [
  | none ↦ true
  | some (name_space, local) ↦ is_found (get_q_name scopes k) || length (get_prefix name_space) == 0
]

unfoldable pub are_qualified : (Text → Text) → List (List (Text × Text)) → List (Text × Text) → Bool
unfolding is_qualified
are_qualified get_prefix scopes [] = true
are_qualified get_prefix scopes ((k, v) ∷ a) =
    is_qualified get_prefix scopes k && are_qualified get_prefix scopes a

-- So have the keys of all nodes and attributes.
unfoldable mutual
  unfolding are_qualified

  pub all_qualified : (Text → Text) → List (List (Text × Text)) → Node → Bool
  all_qualified get_prefix parents (node k c a own subs) =
      is_qualified get_prefix (own ∷ parents) k
      && are_qualified get_prefix (own ∷ parents) a
      && all_qualified_in get_prefix (own ∷ parents) subs

  pub all_qualified_in : (Text → Text) → List (List (Text × Text)) → Nodes → Bool
  all_qualified_in get_prefix parents nil = true
  all_qualified_in get_prefix parents (cons n ns) =
      all_qualified get_prefix parents n && all_qualified_in get_prefix parents ns

find_prefix-append :
    (uri : Text) (own added : List (Text × Text))
    → is_found (find_prefix uri own) ≡ true
    → is_found (find_prefix uri (own ++ added)) ≡ true
unfolding find_prefix
find_prefix-append uri [] added h = absurd (ground (arith, h))
find_prefix-append uri ((p, u) ∷ own) added h = ground (arith, h, find_prefix-append uri own added)

find_prefix-added :
    (uri p : Text) (own : List (Text × Text))
    → is_found (find_prefix uri (own ++ (p, uri) ∷ [])) ≡ true
unfolding find_prefix
find_prefix-added uri p [] = ground (arith, text_eq_refl uri)
find_prefix-added uri p ((q, u) ∷ own) = ground (arith, find_prefix-added uri p own)

module _ (get_prefix : Text → Text) (parents : List (List (Text × Text))) where
  is_qualified-append :
      (k : Text) (own added : List (Text × Text))
      → is_qualified get_prefix (own ∷ parents) k ≡ true
      → is_qualified get_prefix ((own ++ added) ∷ parents) k ≡ true
  unfolding is_qualified get_q_name get_name_space_prefix
  is_qualified-append k own added h = elim (Option-cases (split_full_name k)) [
    | inl whole ↦ ground (arith, whole)
    | inr ((name_space, local), split) ↦
        ground (arith, h, split, find_prefix-append name_space own added)
  ]

  validate_key-IsQualified :
      (k : Text) (own : List (Text × Text))
      → is_qualified get_prefix ((validate_key get_prefix parents k own).1 ∷ parents) k ≡ true
  unfolding is_qualified get_q_name validate_key get_name_space_prefix
  validate_key-IsQualified k own = elim (Option-cases (split_full_name k)) [
    | inl whole ↦ ground (arith, whole)
    | inr ((name_space, local), split) ↦
        ground (arith, split, find_prefix-added name_space (get_prefix name_space) own)
  ]

  -- ValidateKey only adds name spaces.
  validate_key-append :
      (k : Text) (own : List (Text × Text))
      → (added : List (Text × Text)) × ((validate_key get_prefix parents k own).1 ≡ own ++ added)
  unfolding validate_key
  validate_key-append k own =
      let same : own ≡ own ++ [] = sym (append-nil own) in
      elim (Option-cases (split_full_name k)) [
        | inl whole ↦ ([], ground (arith, whole, same))
        | inr ((name_space, local), split) ↦
            elim (Option-cases (get_name_space_prefix name_space (own ∷ parents))) [
              | inr (p, known) ↦ ([], ground (arith, split, known, same))
              | inl unknown ↦ elim (Option-cases (find xml_prefix k)) [
                | inr (p, xml) ↦ ([], ground (arith, split, unknown, xml, same))
                | inl plain ↦ elim (Bool-cases (length (get_prefix name_space) == 0)) [
                  | inl nothing ↦ ([], ground (arith, split, unknown, plain, nothing, same))
                  | inr some_prefix ↦ (
                    (get_prefix name_space, name_space) ∷ [],
                    ground (arith, split, unknown, plain, some_prefix),
                  )
                ]
              ]
            ]
      ]

  validate_key-keeps :
      (k j : Text) (own : List (Text × Text))
      → is_qualified get_prefix (own ∷ parents) j ≡ true
      → is_qualified get_prefix ((validate_key get_prefix parents k own).1 ∷ parents) j ≡ true
  validate_key-keeps k j own h =
      let (added, e) = validate_key-append k own in rw e (is_qualified-append j own added h)

  validate_attributes-keeps :
      (a : List (Text × Text)) (j : Text) (own : List (Text × Text))
      → is_qualified get_prefix (own ∷ parents) j ≡ true
      → is_qualified get_prefix (validate_attributes get_prefix parents a own ∷ parents) j ≡ true
  unfolding validate_attributes
  validate_attributes-keeps [] j own h = h
  validate_attributes-keeps ((k, v) ∷ a) j own h =
      validate_attributes-keeps a j (validate_key get_prefix parents k own).1
        (validate_key-keeps k j own h)

  validate_attributes-AreQualified :
      (a : List (Text × Text)) (own : List (Text × Text))
      → are_qualified get_prefix (validate_attributes get_prefix parents a own ∷ parents) a ≡ true
  unfolding validate_attributes are_qualified
  validate_attributes-AreQualified [] own = refl
  validate_attributes-AreQualified ((k, v) ∷ a) own =
      let own' = (validate_key get_prefix parents k own).1 in
      let first = validate_attributes-keeps a k own' (validate_key-IsQualified k own) in
      rw (first, validate_attributes-AreQualified a own') refl

mutual
  unfolding validate_name_space all_qualified

  validated :
      (get_prefix : Text → Text) (parents : List (List (Text × Text))) (n : Node)
      → all_qualified get_prefix parents (validate_name_space get_prefix parents n) ≡ true
  validated get_prefix parents (node k c a own subs) =
      let own' = (validate_key get_prefix parents k own).1 in
      let here =
        validate_attributes-keeps get_prefix parents a k own'
          (validate_key-IsQualified get_prefix parents k own) in
      rw
        (
          here,
          validate_attributes-AreQualified get_prefix parents a own',
          validated_in get_prefix (validate_attributes get_prefix parents a own' ∷ parents) subs,
        )
        refl

  validated_in :
      (get_prefix : Text → Text) (parents : List (List (Text × Text))) (ns : Nodes)
      → all_qualified_in get_prefix parents (validate_sub_nodes get_prefix parents ns) ≡ true
  validated_in get_prefix parents nil = refl
  validated_in get_prefix parents (cons n ns) =
      rw (validated get_prefix parents n, validated_in get_prefix parents ns) refl

-- After ValidateNameSpace, GetQName has a name for the key of every node and attribute of the tree,
-- unless the key has no name space or one for which the manager has no prefix.
pub validate_name_space-AllQualified :
    (get_prefix : Text → Text) (parents : List (List (Text × Text))) (n : Node)
    → all_qualified get_prefix parents (validate_name_space get_prefix parents n) ≡ true
validate_name_space-AllQualified get_prefix parents n = validated get_prefix parents n
