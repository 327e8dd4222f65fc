-- ===== src/XmpNode/Prefixes.antt =====
-- src/PmtAccessor/XMPNameSpaceManager.cpp: the prefixes of the name spaces that are known. The `map` is
-- the list of its entries, each a name space and its prefix, with rising name spaces.
use pmt.Common.{◌==◌, Option, none, some, List, [], ◌∷◌, ◌++◌, if◌then◌else◌, text_eq, length}
use pmt.Common.Run.{Run, done, undefined}
use pmt.Common.Text.{Text, codes}
use pmt.Factory.{find_item, add_entry}
use pmt.Attributes.{put_entry}
use pmt.XmpNode.Names.{split_full_name}

-- InsertNameSpace, which always returns true: `map[name] = prefix`.
unfoldable pub insert_name_space : Text → Text → List (Text × Text) → List (Text × Text)
unfolding find_item put_entry add_entry
insert_name_space prefix full_name m = elim (find_item full_name m) [
  | some old ↦ put_entry full_name prefix m
  | none ↦ (add_entry full_name prefix m).1
]

-- The constructor: the well-known name spaces, in the order of their insertion.
abbrev pub known_name_spaces : List (Text × Text)
known_name_spaces =
    (codes "adobe:ns:meta/", codes "x")
    ∷ (codes "http://www.w3.org/1999/02/22-rdf-syntax-ns#", codes "rdf")
    ∷ (codes "http://purl.org/dc/elements/1.1/", codes "dc")
    ∷ (codes "http://ns.adobe.com/xap/1.0/", codes "xap")
    ∷ (codes "http://ns.adobe.com/xap/1.0/mm/", codes "xapMM")
    ∷ (codes "http://ns.adobe.com/xap/1.0/sType/ResourceRef#", codes "stRef")
    ∷ (codes "http://ns.adobe.com/photoshop/1.0/", codes "photoshop")
    ∷ (codes "http://ns.adobe.com/tiff/1.0/", codes "tiff")
    ∷ (codes "http://ns.adobe.com/exif/1.0/", codes "exif")
    ∷ (codes "http://ns.adobe.com/photoshop/1.0/", codes "photoshop")
    ∷ (codes "http://ns.adobe.com/xmp/1.0/DynamicMedia/", codes "xmpDM")
    ∷ (codes "http://ns.microsoft.com/Photo/1.0/", codes "MicrosoftPhoto")
    ∷ []

unfoldable pub insert_all : List (Text × Text) → List (Text × Text) → List (Text × Text)
unfolding insert_name_space
insert_all [] m = m
insert_all ((full_name, prefix) ∷ more) m = insert_all more (insert_name_space prefix full_name m)

unfoldable pub new_name_space_manager : List (Text × Text)
unfolding insert_all
new_name_space_manager = insert_all known_name_spaces []

-- GetFullName: the first name space with the prefix. Without one it makes a `wstring` of NULL.
unfoldable pub get_full_name : Text → List (Text × Text) → Run Text
get_full_name prefix [] = undefined
get_full_name prefix ((full_name, p) ∷ m) =
    let later = get_full_name prefix m in if text_eq p prefix then done full_name else later

-- GetPrefix: the empty text where the name space is not known.
unfoldable pub get_prefix : List (Text × Text) → Text → Text
unfolding find_item
get_prefix m full_name = elim (find_item full_name m) [ none ↦ [] | some prefix ↦ prefix ]

-- UriToQName, which always returns true: the text that it leaves in strQName, if it writes one.
unfoldable pub uri_to_q_name : Text → List (Text × Text) → Option Text
unfolding split_full_name get_prefix
uri_to_q_name uri m = elim (split_full_name uri) [
  | none ↦ none
  | some (name_space, tag) ↦
      let prefix = get_prefix m name_space in
      if length prefix == 0 then none else some (prefix ++ b':' ∷ tag)
]
