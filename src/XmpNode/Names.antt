-- ===== src/XmpNode/Names.antt =====
-- src/PmtAccessor/XMPDataNode.cpp: the name spaces of a tree. The scopes of a node are the name spaces
-- of the node and of its parents, the nearest first. `get_prefix` is XMPNameSpaceManager::GetPrefix of
-- src/PmtAccessor/XMPNameSpaceManager.cpp, whose map grows as packets are read.
pub mod Qualified
use pmt.Common.{
  ℕ, zero, suc, ◌+◌, ◌-◌, Bool, true, false, ◌&&◌, ◌||◌, ◌==◌, Option, none, some, is_found, List,
  [], ◌∷◌, ◌++◌, if◌then◌else◌, text_eq, length, take, drop,
}
use pmt.Common.Text.{Text, codes, find}
use pmt.XmpNode.{Node, node, Nodes, nil, cons}

abbrev pub xml_prefix : Text
xml_prefix = codes "http://www.w3.org/XML/1998/namespace"

-- `rfind` of a character.
unfoldable pub rfind : ℕ → Text → Option ℕ
rfind c [] = none
rfind c (x ∷ s) = elim (rfind c s) [
  | some p ↦ some (suc p)
  | none ↦ if x == c then some 0 else none
]

-- The position as the code tests it: `npos` is -1, and 0 does not count either.
abbrev pub positive : Option ℕ → Option ℕ
positive (some (suc p)) = some (suc p)
positive _ = none

-- SplitFullName: the name space, which ends at the last # or else at the last /, and the local name.
unfoldable pub split_full_name : Text → Option (Text × Text)
unfolding rfind
split_full_name full =
    let separator : Option ℕ = elim (positive (rfind b'#' full)) [
      | some p ↦ some p
      | none ↦ positive (rfind b'/' full)
    ] in
    elim separator [ none ↦ none | some p ↦ some (take (p + 1) full, drop (p + 1) full) ]

-- The prefix of the first name space with the uri.
unfoldable pub find_prefix : Text → List (Text × Text) → Option Text
find_prefix uri [] = none
find_prefix uri ((prefix, u) ∷ name_spaces) =
    let later = find_prefix uri name_spaces in if text_eq uri u then some prefix else later

-- GetNameSpacePrefix
unfoldable pub get_name_space_prefix : Text → List (List (Text × Text)) → Option Text
unfolding find_prefix
get_name_space_prefix uri [] = none
get_name_space_prefix uri (scope ∷ scopes) =
    let outer = get_name_space_prefix uri scopes in
    elim (find_prefix uri scope) [ some prefix ↦ some prefix | none ↦ outer ]

-- GetQName
unfoldable pub get_q_name : List (List (Text × Text)) → Text → Option Text
unfolding split_full_name get_name_space_prefix find
get_q_name scopes full = elim (split_full_name full) [
  | none ↦ none
  | some (name_space, local) ↦ elim (get_name_space_prefix name_space scopes) [
    | some prefix ↦ some (prefix ++ b':' ∷ local)
    | none ↦ elim (find xml_prefix full) [
      | none ↦ none
      | some p ↦ some (take p full ++ codes "xml:" ++ drop (p + length xml_prefix) full)
    ]
  ]
]

-- ValidateKey: the name spaces of the node afterwards.
unfoldable pub validate_key :
    (Text → Text)
    → List (List (Text × Text))
    → Text
    → List (Text × Text)
    → Bool × List (Text × Text)
unfolding split_full_name get_name_space_prefix find
validate_key get_prefix parents str_key own = elim (split_full_name str_key) [
  | none ↦ (false, own)
  | some (name_space, local) ↦ elim (get_name_space_prefix name_space (own ∷ parents)) [
    | some prefix ↦ (true, own)
    | none ↦ elim (find xml_prefix str_key) [
      | some p ↦ (true, own)
      | none ↦
          if length (get_prefix name_space) == 0
          then (false, own)
          else (true, own ++ (get_prefix name_space, name_space) ∷ [])
    ]
  ]
]

-- The loop over the attributes.
unfoldable pub validate_attributes :
    (Text → Text)
    → List (List (Text × Text))
    → List (Text × Text)
    → List (Text × Text)
    → List (Text × Text)
unfolding validate_key
validate_attributes get_prefix parents [] own = own
validate_attributes get_prefix parents ((k, v) ∷ attributes) own =
    validate_attributes get_prefix parents attributes (validate_key get_prefix parents k own).1

-- ValidateNameSpace, which always returns true.
unfoldable mutual
  unfolding validate_attributes

  pub validate_name_space : (Text → Text) → List (List (Text × Text)) → Node → Node
  validate_name_space get_prefix parents (node k c attributes name_spaces subs) =
      let own = (validate_key get_prefix parents k name_spaces).1 in
      let all_own = validate_attributes get_prefix parents attributes own in
      node k c attributes all_own (validate_sub_nodes get_prefix (all_own ∷ parents) subs)

  pub validate_sub_nodes : (Text → Text) → List (List (Text × Text)) → Nodes → Nodes
  validate_sub_nodes get_prefix parents nil = nil
  validate_sub_nodes get_prefix parents (cons n subs) =
      cons (validate_name_space get_prefix parents n) (validate_sub_nodes get_prefix parents subs)
