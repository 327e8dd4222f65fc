-- ===== src/Facet.antt =====
-- src/PmtCore/PmtFacetT.h and PmtMetadataT.h: the facets that restrict a value, and the value with its
-- facets. Facets are held by smart pointers: a facet is a place in a store, and the copy of an
-- instance of PmtMetadataT shares the facets of the original. Comparison and PmtReadValue of the type
-- of the value are arguments.
pub mod Narrowing
use pmt.Common.{
  ℕ, zero, suc, Bool, true, false, not, ◌&&◌, Option, none, some, List, [], ◌∷◌, ◌++◌,
  if◌then◌else◌, text_eq, length, get_elem?, set,
}
use pmt.Common.Text.{Text, codes}
use pmt.Factory.{create}

-- `==`, `<` and `<=` of a type, and what PmtReadValue makes of a text.
pub record Values (A : Type 0) : Type 0 where
  pub eq : A → A → Bool
  pub lt : A → A → Bool
  pub le : A → A → Bool
  pub read_value : Text → A

-- PmtFacetEnumeration, PmtFacetMinInclusive and PmtFacetMaxInclusive with `mFixed` first.
pub data Facet (A : Type 0) : Type 0 where
  enumeration : Bool → List A → Facet A
  min_inclusive : Bool → A → Facet A
  max_inclusive : Bool → A → Facet A

-- What a call leaves: `refused` is the PmtError that it throws before it changes anything, and
-- `undefined` the read of `value[0]` from an empty vector.
pub data Restricted (A : Type 0) : Type 0 where
  restricted : A → Restricted A
  refused : Restricted A
  undefined : Restricted A

abbrev pub facet_name : {A : Type 0} → Facet A → Text
facet_name (enumeration fixed vs) = codes "xsd:enumeration"
facet_name (min_inclusive fixed v) = codes "xsd:minInclusive"
facet_name (max_inclusive fixed v) = codes "xsd:maxInclusive"

module _ {A : Type 0} (values : Values A) where
  -- `enumeration[i] == value` for some i, as validate and `find` test it.
  unfoldable pub is_enumerated : A → List A → Bool
  is_enumerated v [] = false
  is_enumerated v (e ∷ es) = let later = is_enumerated v es in if values.eq e v then true else later

  -- validate of whichever class the facet has.
  unfoldable pub validate_facet : Facet A → A → Bool
  unfolding is_enumerated
  validate_facet (enumeration fixed es) v = is_enumerated v es
  validate_facet (min_inclusive fixed bound) v = values.le bound v
  validate_facet (max_inclusive fixed bound) v = values.le v bound

  unfoldable pub read_values : List Text → List A
  read_values [] = []
  read_values (t ∷ ts) = values.read_value t ∷ read_values ts

  unfoldable pub init_enumeration : List Text → Bool → Restricted (Facet A)
  unfolding read_values
  init_enumeration ts fixed = restricted (enumeration fixed (read_values ts))

  unfoldable pub init_min_inclusive : List Text → Bool → Restricted (Facet A)
  init_min_inclusive [] fixed = undefined
  init_min_inclusive (t ∷ ts) fixed = restricted (min_inclusive fixed (values.read_value t))

  unfoldable pub init_max_inclusive : List Text → Bool → Restricted (Facet A)
  init_max_inclusive [] fixed = undefined
  init_max_inclusive (t ∷ ts) fixed = restricted (max_inclusive fixed (values.read_value t))

  -- init of whichever class the facet has.
  unfoldable pub init_facet : List Text → Bool → Facet A → Restricted (Facet A)
  unfolding init_enumeration init_min_inclusive init_max_inclusive
  init_facet ts fixed (enumeration old es) = init_enumeration ts fixed
  init_facet ts fixed (min_inclusive old bound) = init_min_inclusive ts fixed
  init_facet ts fixed (max_inclusive old bound) = init_max_inclusive ts fixed

  -- The loop over the new values: each must be one of the old.
  unfoldable pub all_enumerated : List A → List A → Bool
  unfolding is_enumerated
  all_enumerated [] es = true
  all_enumerated (v ∷ vs) es = is_enumerated v es && all_enumerated vs es

  -- An enumeration neither tests `mFixed` nor sets it.
  unfoldable pub set_enumeration : List Text → Bool → List A → Restricted (Facet A)
  unfolding all_enumerated read_values
  set_enumeration ts old es =
      if all_enumerated (read_values ts) es
      then restricted (enumeration old (read_values ts))
      else refused

  unfoldable pub set_min_inclusive : List Text → Bool → Bool → A → Restricted (Facet A)
  set_min_inclusive [] fixed old bound = if old then refused else undefined
  set_min_inclusive (t ∷ ts) fixed old bound =
      if old
      then refused
      else if values.lt (values.read_value t) bound
      then refused
      else restricted (min_inclusive fixed (values.read_value t))

  unfoldable pub set_max_inclusive : List Text → Bool → Bool → A → Restricted (Facet A)
  set_max_inclusive [] fixed old bound = if old then refused else undefined
  set_max_inclusive (t ∷ ts) fixed old bound =
      if old
      then refused
      else if values.lt bound (values.read_value t)
      then refused
      else restricted (max_inclusive fixed (values.read_value t))

  -- setFacetValue of whichever class the facet has.
  unfoldable pub set_facet_value : List Text → Bool → Facet A → Restricted (Facet A)
  unfolding set_enumeration set_min_inclusive set_max_inclusive
  set_facet_value ts fixed (enumeration old es) = set_enumeration ts old es
  set_facet_value ts fixed (min_inclusive old bound) = set_min_inclusive ts fixed old bound
  set_facet_value ts fixed (max_inclusive old bound) = set_max_inclusive ts fixed old bound

  -- PmtMetadataT::validate of a value, over the places of the facets.
  unfoldable pub validate : List ℕ → List (Facet A) → A → Bool
  unfolding validate_facet
  validate [] store v = true
  validate (p ∷ facets) store v = elim (get_elem? store p) [
    | none ↦ false
    | some facet ↦ validate_facet facet v && validate facets store v
  ]

  -- The place of the first facet with the name.
  unfoldable pub find_facet : Text → List ℕ → List (Facet A) → Option (ℕ × Facet A)
  find_facet name [] store = none
  find_facet name (p ∷ facets) store =
      let later = find_facet name facets store in
      elim (get_elem? store p) [
        | none ↦ later
        | some facet ↦ if text_eq (facet_name facet) name then some (p, facet) else later
      ]

  -- addFacet: the facets of the instance and the store afterwards. The registry is that of
  -- PmtFacet::getFactory, with keys such as `xsd:enumeration-int8`.
  unfoldable pub add_facet :
      List (Text × Facet A)
      → Text
      → Text
      → List Text
      → Bool
      → List ℕ
      → List (Facet A)
      → Restricted (List ℕ × List (Facet A))
  unfolding find_facet set_facet_value init_facet create
  add_facet registry true_type name ts fixed facets store = elim (find_facet name facets store) [
    | some (p, facet) ↦ elim (set_facet_value ts fixed facet) [
      | restricted facet' ↦ restricted (facets, set store p facet')
      | refused ↦ refused
      | undefined ↦ undefined
    ]
    | none ↦ elim (create (λ f. f) (name ++ codes "-" ++ true_type) registry) [
      | none ↦ restricted (facets, store)
      | some fresh ↦ elim (init_facet ts fixed fresh) [
        | restricted facet' ↦ restricted (facets ++ length store ∷ [], store ++ facet' ∷ [])
        | refused ↦ refused
        | undefined ↦ undefined
      ]
    ]
  ]
