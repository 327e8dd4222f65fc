-- ===== src/Element.antt =====
-- src/PmtCore/PmtElement.h and PmtElement.cpp: the place that a schema's `<element>` has in a
-- composite, with the metadata instances that were made for it.
--
-- A metadata instance is a handle `M` into a store `S`: instances are shared through smart pointers,
-- and an element writes to the instances that it holds. `Metadata` is what an element calls of the
-- class PmtMetadata and of the factory.
pub mod Create
pub mod Delete
pub mod Enough
pub mod Numbered
use pmt.Common.{
  ◌*◌, ◌%◌, text_eq, ℕ, zero, suc, ◌+◌, ◌-◌, ◌^◌, Bool, true, false, not, ◌&&◌, ◌||◌, Option, none,
  some, List, [], ◌∷◌, ◌++◌, ltb, leb, ◌==◌, if◌then◌else◌, length, get_elem?, set, pop_back,
}
use pmt.Common.Text.{Text}

pub record Metadata (M S : Type 0) : Type 0 where
  -- `parent->getMdFactory()->create(key)`: a clone of the prototype of that name, or NULL
  pub create : M → Text → S → Option M × S
  pub set_parent : M → M → S → S
  pub set_occurrence : M → ℕ → S → S
  pub set_multiple_occurrence : M → Bool → S → S

-- The fields of PmtElement.
pub record Declaration : Type 0 where
  pub full_key : Text
  pub min_occurs : ℕ
  pub max_occurs : ℕ
  pub nillable : Text

-- PMT_OCCURS_UNBOUNDED, which is INT_MAX
abbrev pub occurs_unbounded : ℕ
occurs_unbounded = 2 ^ 31 - 1

-- PmtVectorElement and PmtOptionalOrSingularElement. No entry of a vector is NULL: only instances
-- are pushed.
pub data Element (M : Type 0) : Type 0 where
  vector : Declaration → List M → Element M
  optional_or_singular : Declaration → Option M → Element M

-- `create` from numbers.
unfoldable pub create : {M : Type 0} → Declaration → Element M
create d =
    if (d.min_occurs == 0 || d.min_occurs == 1) && d.max_occurs == 1
    then optional_or_singular d none
    else vector d []

-- `atoi` of an attribute: white space, a sign, and the digits that follow. An `unsigned int` takes a
-- negative number modulo 2 ^ 32; the value of a number past the range of `int` is `none`.
unfoldable pub leading_digits : ℕ → Text → ℕ
leading_digits n [] = n
leading_digits n (c ∷ s) =
    if leb b'0' c && leb c b'9' then leading_digits (n * 10 + (c - b'0')) s else n

unfoldable pub skip_space : Text → Text
skip_space [] = []
skip_space (c ∷ s) = if c == b' ' || leb 9 c && leb c 13 then skip_space s else c ∷ s

unfoldable pub signed : Text → Option ℕ
signed [] = some 0
signed (c ∷ s) =
    let below = leading_digits 0 s in
    let above = leading_digits 0 (c ∷ s) in
    if c == b'-'
    then (if leb below (2 ^ 31) then some ((2 ^ 32 - below) % 2 ^ 32) else none)
    else if c == b'+'
    then (if ltb below (2 ^ 31) then some below else none)
    else if ltb above (2 ^ 31)
    then some above
    else none

-- The text "unbounded"
abbrev pub unbounded : Text
unbounded = b'u' ∷ b'n' ∷ b'b' ∷ b'o' ∷ b'u' ∷ b'n' ∷ b'd' ∷ b'e' ∷ b'd' ∷ []

unfoldable pub min_occurs_of : Text → Option ℕ
min_occurs_of attr =
    if length attr == 0 || text_eq attr unbounded then some 1 else signed (skip_space attr)

unfoldable pub max_occurs_of : Text → Option ℕ
max_occurs_of attr =
    if length attr == 0
    then some 1
    else if text_eq attr unbounded
    then some occurs_unbounded
    else signed (skip_space attr)

-- `create` from the texts of the attributes.
unfoldable pub create_from_texts : {M : Type 0} → Text → Text → Text → Text → Option (Element M)
create_from_texts full_key min_attr max_attr nillable = elim (min_occurs_of min_attr) [
  | none ↦ none
  | some least ↦ elim (max_occurs_of max_attr) [
    | none ↦ none
    | some most ↦ some (
        create (record {
          full_key = full_key;
          min_occurs = least;
          max_occurs = most;
          nillable = nillable;
        }))
  ]
]

-- The rounds of createOccurrenceMetadata, whose parameter is an `int`: an `unsigned int` from 2 ^ 31 on
-- becomes negative, and the loop runs no round.
unfoldable pub rounds_of : ℕ → ℕ
rounds_of num_to_create = let bits = num_to_create % 2 ^ 32 in if ltb bits (2 ^ 31) then bits else 0

-- What a method that may make instances returns: its result, the vector, and the store.
pub record Outcome (R M S : Type 0) : Type 0 where
  pub result : R
  pub items : List M
  pub store : S

module _ {M S : Type 0} (metadata : Metadata M S) (parent : M) where
  unfoldable pub create_from_factory : Declaration → ℕ → S → Option M × S
  create_from_factory d occur_num s =
      let (md, s') = metadata.create parent d.full_key s in
      elim md [
        | none ↦ (none, s')
        | some m ↦
            let s1 = metadata.set_parent m parent s' in
            let s2 = metadata.set_occurrence m occur_num s1 in
            (some m, metadata.set_multiple_occurrence m (ltb 1 d.max_occurs) s2)
      ]

  -- getMetadatumOrCreateAndSetParent
  unfoldable pub get_or_create : Declaration → ℕ → List M → S → Outcome (Option M) M S
  get_or_create d occur_num items s = elim (get_elem? items occur_num) [
    | some m ↦ record { result = some m; items = items; store = s }
    | none ↦
        let (md, s') = create_from_factory d occur_num s in
        elim md [
          | none ↦ record { result = none; items = items; store = s' }
          | some m ↦ record { result = some m; items = items ++ m ∷ []; store = s' }
        ]
  ]

  -- createOccurrenceMetadata, over the rounds left
  unfoldable pub create_occurrences : Declaration → ℕ → ℕ → List M → S → Outcome Bool M S
  create_occurrences d zero counter items s = record { result = true; items = items; store = s }
  create_occurrences d (suc rounds) counter items s =
      let made = get_or_create d counter items s in
      let go_on = create_occurrences d rounds (counter + 1) made.items made.store in
      elim (get_elem? items counter) [
        | some m ↦ create_occurrences d rounds (counter + 1) items s
        | none ↦ elim made.result [
          | some m ↦ go_on
          | none ↦ record { result = false; items = made.items; store = made.store }
        ]
      ]

  -- `if (target > mMdVec.size()) createOccurrenceMetadata(target, parent)`
  unfoldable pub fill : Declaration → ℕ → List M → S → Outcome Bool M S
  fill d target items s =
      if ltb (length items) target
      then create_occurrences d (rounds_of target) 0 items s
      else record { result = true; items = items; store = s }

  -- The end of getMetadatumCheckingForMinOccurrences, behind the second filling.
  unfoldable pub get_filled : Declaration → ℕ → Outcome Bool M S → Outcome (Option M) M S
  get_filled d occur_num filled =
      if filled.result && leb (occur_num + 1) (length filled.items)
      then get_or_create d occur_num filled.items filled.store
      else record { result = none; items = filled.items; store = filled.store }

  unfoldable pub get_checking_for_min_occurrences :
      Declaration → ℕ → List M → S → Outcome (Option M) M S
  get_checking_for_min_occurrences d occur_num items s =
      let at_least = fill d d.min_occurs items s in
      if leb (occur_num + 1) d.max_occurs
      then (if at_least.result
          then get_filled d occur_num (fill d (occur_num + 1) at_least.items at_least.store)
          else record { result = none; items = at_least.items; store = at_least.store })
      else record { result = none; items = items; store = s }

  -- PmtVectorElement::getMetadatum
  unfoldable pub get_from_vector : Declaration → ℕ → Bool → List M → S → Outcome (Option M) M S
  get_from_vector d occur_num create_if_not_exists items s =
      if leb (occur_num + 1) (length items)
      then record { result = get_elem? items occur_num; items = items; store = s }
      else if create_if_not_exists
      then get_checking_for_min_occurrences d occur_num items s
      else record { result = none; items = items; store = s }

  -- getMetadatum of either class.
  unfoldable pub get_metadatum : ℕ → Bool → Element M → S → Option M × Element M × S
  get_metadatum occur_num create_if_not_exists (vector d items) s =
      let r = get_from_vector d occur_num create_if_not_exists items s in
      (r.result, vector d r.items, r.store)
  get_metadatum occur_num create_if_not_exists (optional_or_singular d md) s =
      let (made, s') = create_from_factory d 0 s in
      if occur_num == 0
      then elim md [
        | some m ↦ (some m, optional_or_singular d (some m), s)
        | none ↦
            if create_if_not_exists
            then (made, optional_or_singular d made, s')
            else (none, optional_or_singular d none, s)
      ]
      else (none, optional_or_singular d md, s)

module _ {M S : Type 0} (metadata : Metadata M S) where
  -- The loop that moves the later instances down, over the rounds left.
  unfoldable pub collapse : ℕ → ℕ → List M → S → List M × S
  collapse zero counter items s = (items, s)
  collapse (suc rounds) counter items s = elim (get_elem? items (counter + 1)) [
    | none ↦ (items, s)
    | some m ↦
        collapse rounds (counter + 1) (set items counter m) (metadata.set_occurrence m counter s)
  ]

  -- PmtVectorElement::deleteMetadatum
  unfoldable pub delete_from_vector : ℕ → List M → S → List M × S
  delete_from_vector occur_num items s =
      let orig_size = length items in
      let (items', s') = collapse (orig_size - 1 - occur_num) occur_num items s in
      if orig_size == 0
      then (items, s)
      else if occur_num == 0 && orig_size == 1
      then ([], s)
      else (pop_back items', s')

  -- deleteMetadatum of either class: the occurrence does not matter to a single instance.
  unfoldable pub delete_metadatum : ℕ → Element M → S → Element M × S
  delete_metadatum occur_num (vector d items) s =
      let (items', s') = delete_from_vector occur_num items s in (vector d items', s')
  delete_metadatum occur_num (optional_or_singular d md) s = (optional_or_singular d none, s)

module _ {M : Type 0} where
  unfoldable pub delete_metadata_all : Element M → Element M
  delete_metadata_all (vector d items) = vector d []
  delete_metadata_all (optional_or_singular d md) = optional_or_singular d none

  unfoldable pub get_wildcard_max : Element M → ℕ
  get_wildcard_max (vector d items) =
      if d.max_occurs == occurs_unbounded
      then (if length items == 0 then 1 else length items)
      else d.max_occurs
  get_wildcard_max (optional_or_singular d md) = d.max_occurs

  unfoldable pub is_empty : Element M → Bool
  is_empty (vector d []) = true
  is_empty (vector d (m ∷ items)) = false
  is_empty (optional_or_singular d none) = true
  is_empty (optional_or_singular d (some m)) = false

  -- getMetadatum(occurNum, false): what is there.
  unfoldable pub existing : ℕ → Element M → Option M
  existing occur_num (vector d items) = get_elem? items occur_num
  existing occur_num (optional_or_singular d md) = if occur_num == 0 then md else none
