-- ===== src/XmpNode/Output.antt =====
-- src/PmtAccessor/XMPDataNode.cpp and XMPDataNode.h: a node of an XMP packet below the root, as it is
-- written to a stream. `depth` is nDeep, which is -1 at the root, and the scopes are those of Names.
use pmt.Common.{
  ℕ, zero, suc, ◌+◌, ◌==◌, none, some, List, [], ◌∷◌, ◌++◌, if◌then◌else◌, length, leb,
}
use pmt.Common.Text.{Text, codes}
use pmt.Xml.{encode}
use pmt.XmpNode.{Node, node, Nodes, nil, cons, c_str}
use pmt.XmpNode.Names.{get_q_name}

-- `assign(n, L' ')`
unfoldable pub spaces : ℕ → Text
spaces zero = []
spaces (suc n) = b' ' ∷ spaces n

-- `operator <<` of XMPDataNameSpace.
unfoldable pub write_name_space : Text × Text → Text
unfolding c_str
write_name_space (prefix, uri) =
    codes "xmlns:" ++ c_str prefix ++ codes "=\"" ++ c_str uri ++ codes "\""

unfoldable pub write_attribute : List (List (Text × Text)) → Text × Text → Text
unfolding get_q_name
write_attribute scopes (k, v) =
    let name : Text = elim (get_q_name scopes k) [ none ↦ k | some name ↦ name ] in
    name ++ codes "=\"" ++ v ++ codes "\""

-- Both loops: each name space or attribute after the separator.
unfoldable pub write_each : Text → (Text × Text → Text) → List (Text × Text) → Text
write_each separator write [] = []
write_each separator write (x ∷ xs) = separator ++ write x ++ write_each separator write xs

-- `operator <<` of XMPDataNode.
unfoldable mutual
  unfolding spaces write_name_space write_attribute write_each encode get_q_name

  pub write_node : ℕ → List (List (Text × Text)) → Node → Text
  write_node depth parents (node k c attributes name_spaces subs) =
      let scopes = name_spaces ∷ parents in
      let name : Text = elim (get_q_name scopes k) [ none ↦ [] | some name ↦ name ] in
      let one_line = leb (length attributes + length name_spaces) 2 in
      let separator = if one_line then b' ' ∷ [] else b'\n' ∷ spaces (depth + 1) in
      let inner = write_sub_nodes (depth + 1) scopes subs in
      spaces depth
      ++ b'<' ∷ name
      ++ write_each separator write_name_space name_spaces
      ++ write_each separator (write_attribute scopes) attributes
      ++ elim subs [
        | cons n ns ↦ b'>' ∷ inner ++ b'\n' ∷ spaces depth ++ codes "</" ++ name ++ b'>' ∷ []
        | nil ↦
            if length c == 0 then codes "/>" else b'>' ∷ encode c ++ codes "</" ++ name ++ b'>' ∷ []
      ]

  pub write_sub_nodes : ℕ → List (List (Text × Text)) → Nodes → Text
  write_sub_nodes depth parents nil = []
  write_sub_nodes depth parents (cons n subs) =
      b'\n' ∷ write_node depth parents n ++ write_sub_nodes depth parents subs
