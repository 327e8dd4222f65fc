-- ===== src/Attributes/Listed.antt =====
-- What getAttribute and getAttributes of PmtMetadata.cpp return of the same map.
use pmt.Common.{
  ◌≡◌, refl, sym, ap, ◌∙◌, Bool, true, false, Option, none, some, List, [], ◌∷◌, ◌++◌, ◌&&◌,
  is_found, if◌then◌else◌, text_eq, text_eq_sound, text_eq_refl, text_eq_apart, arith, Bool-cases,
  Option-cases, inl, inr,
}
use pmt.Common.Run.{done}
use pmt.Common.Text.{Text}
use pmt.Factory.{find_item, create}
use pmt.MapT.Insertion.{IsRising, find_item-less}
use pmt.Attributes.{
  put_entry, created_of, create_attribute, get_attribute, create_all, get_attributes,
}

module _ {A : Type 0} where
  put_entry-find :
      (name other : Text) (x y : A) (m : List (Text × A))
      → find_item name m ≡ some y
      → find_item other (put_entry name x m)
        ≡ (if text_eq name other then some x else find_item other m)
  unfolding find_item put_entry
  put_entry-find name other x y [] h = absurd (ground (arith, h))
  put_entry-find name other x y ((k, z) ∷ m) h = elim (Bool-cases (text_eq k name)) [
    | inl same ↦ ground (arith, same, ap (λ t. text_eq t other) (text_eq_sound k name same))
    | inr away ↦
        let rest = put_entry-find name other x y m (ground (arith, h, away)) in
        ground (arith, away, rest, text_eq_apart name k other away)
  ]

  same_found :
      (name other : Text) (m : List (Text × A)) (x : A)
      → find_item name m ≡ some x
      → find_item other m ≡ (if text_eq name other then some x else find_item other m)
  same_found name other m x there = elim (Bool-cases (text_eq name other)) [
    | inl same ↦ rw (same, ← text_eq_sound name other same) there
    | inr apart ↦ rw apart refl
  ]

module _ {A : Type 0} where
  -- The attribute that a map has under a name.
  unfoldable pub held : Text → List (Text × Option A) → Option A
  held name m = elim (find_item name m) [ none ↦ none | some a ↦ a ]

  created_of-find_none :
      (name : Text) (m : List (Text × Option A))
      → find_item name m ≡ none
      → find_item name (created_of m) ≡ none
  unfolding find_item created_of
  created_of-find_none name [] h = refl
  created_of-find_none name ((k, none) ∷ m) h = created_of-find_none name m (ground (arith, h))
  created_of-find_none name ((k, some a) ∷ m) h =
      let rest = created_of-find_none name m in ground (arith, h, rest)

  created_of-held :
      (name : Text) (m : List (Text × Option A))
      → IsRising m
      → held name (created_of m) ≡ held name m
  unfolding held find_item created_of IsRising
  created_of-held name [] rising = refl
  created_of-held name ((k, some a) ∷ m) (behind, rising) =
      let rest = created_of-held name m rising in ground (arith, rest)
  created_of-held name ((k, none) ∷ m) (behind, rising) =
      let rest = created_of-held name m rising in
      elim (Bool-cases (text_eq k name)) [
        | inl same ↦
            let absent : find_item name m ≡ none =
              rw (← text_eq_sound k name same) (find_item-less k m behind) in
            let gone = created_of-find_none name m absent in ground (arith, same, gone, absent)
        | inr away ↦ ground (arith, away, rest)
      ]

  -- What the instance has under a name once it may have been created.
  abbrev made : (A → A) → List (Text × A) → Text → Text → Option (Option A) → Option A
  made clone factory full_key name none = none
  made clone factory full_key name (some (some a)) = some a
  made clone factory full_key name (some none) = create clone (full_key ++ b':' ∷ name) factory

  create_all-held :
      (clone : A → A) (factory : List (Text × A)) (full_key name : Text)
      (m : List (Text × Option A))
      → (m' : List (Text × Option A)) × (create_all clone (some factory) full_key m ≡ done m')
        × (held name m' ≡ made clone factory full_key name (find_item name m))
  unfolding create_all create_attribute held find_item
  create_all-held clone factory full_key name [] = ([], refl, refl)
  create_all-held clone factory full_key name ((k, some a) ∷ m) =
      let (m', ok, rest) = create_all-held clone factory full_key name m in
      (
        (k, some a) ∷ m',
        rw ok refl,
        elim (Bool-cases (text_eq k name)) [
          | inl same ↦ rw (held, same) refl
          | inr away ↦ rw (held, away) rest
        ],
      )
  create_all-held clone factory full_key name ((k, none) ∷ m) =
      let (m', ok, rest) = create_all-held clone factory full_key name m in
      (
        (k, create clone (full_key ++ b':' ∷ k) factory) ∷ m',
        rw ok refl,
        elim (Bool-cases (text_eq k name)) [
          | inl same ↦ rw (held, same, text_eq_sound k name same) refl
          | inr away ↦ rw (held, away) rest
        ],
      )

  module _ (clone : A → A) (factory : List (Text × A)) (full_key name : Text) where
    get_attribute-none :
        (c : Bool) (m : List (Text × Option A))
        → find_item name m ≡ none
        → get_attribute clone (some factory) full_key name c m ≡ done (none, m)
    unfolding get_attribute
    get_attribute-none c m absent = rw (get_attribute, absent) refl

    get_attribute-some :
        (c : Bool) (a : A) (m : List (Text × Option A))
        → find_item name m ≡ some (some a)
        → get_attribute clone (some factory) full_key name c m ≡ done (some a, m)
    unfolding get_attribute
    get_attribute-some c a m there = rw (get_attribute, there) refl

    get_attribute-create :
        (m : List (Text × Option A))
        → find_item name m ≡ some none
        → get_attribute clone (some factory) full_key name true m
          ≡ done (elim (create clone (full_key ++ b':' ∷ name) factory) [
            | none ↦ (none, m)
            | some a ↦ (some a, put_entry name (some a) m)
          ])
    unfolding get_attribute create_attribute find_item
    get_attribute-create m there =
        elim (Option-cases (create clone (full_key ++ b':' ∷ name) factory)) [
          | inl unknown ↦ rw (get_attribute, there, unknown) refl
          | inr (a, known) ↦ rw (get_attribute, there, known) refl
        ]

    get_attribute-false :
        (m : List (Text × Option A))
        → find_item name m ≡ some none
        → get_attribute clone (some factory) full_key name false m ≡ done (none, m)
    unfolding get_attribute
    get_attribute-false m there = rw (get_attribute, there) refl

    -- What getAttribute returns, what it leaves under each name, and what it then returns again.
    abbrev pub Gives :
        Text → Bool → List (Text × Option A) → Option A → List (Text × Option A) → Type 0
    Gives other c m x m' =
        (get_attribute clone (some factory) full_key name c m ≡ done (x, m'))
        × (x ≡ (if c then made clone factory full_key name (find_item name m) else held name m))
        × (find_item other m'
            ≡ (if text_eq name other && is_found x then some x else find_item other m))
        × (get_attribute clone (some factory) full_key name c m' ≡ done (x, m'))

    get_attribute-creates :
        (other : Text) (m : List (Text × Option A))
        → find_item name m ≡ some none
        → (x : Option A) × (m' : List (Text × Option A)) × Gives other true m x m'
    get_attribute-creates other m there =
        let got = get_attribute-create m there in
        elim (Option-cases (create clone (full_key ++ b':' ∷ name) factory)) [
          | inl unknown ↦
              let none_made : get_attribute clone (some factory) full_key name true m
                  ≡ done (none, m) =
                got ∙ rw unknown refl in
              (none, m, (none_made, rw (there, unknown) refl, ground arith, none_made))
          | inr (a, known) ↦
              let m' = put_entry name (some a) m in
              let put = λ (other : Text). put_entry-find name other (some a) none m there in
              let found : find_item name m' ≡ some (some a) =
                put name ∙ rw (text_eq_refl name) refl in
              (
                some a,
                m',
                (
                  got ∙ rw known refl,
                  rw (there, known) refl,
                  put other ∙ ground arith,
                  get_attribute-some true a m' found,
                ),
              )
        ]

    get_attribute-Gives :
        (other : Text) (c : Bool) (m : List (Text × Option A))
        → (x : Option A) × (m' : List (Text × Option A)) × Gives other c m x m'
    unfolding held
    get_attribute-Gives other c m = elim (Option-cases (find_item name m)) [
      | inl absent ↦
          let got = get_attribute-none c m absent in
          (none, m, (got, ground (arith, absent), ground arith, got))
      | inr (some a, there) ↦
          let got = get_attribute-some c a m there in
          (
            some a,
            m,
            (
              got,
              ground (arith, there),
              ground (arith, same_found name other m (some a) there),
              got,
            ),
          )
      | inr (none, there) ↦ elim (Bool-cases c) [
        | inr no_create ↦
            let got = get_attribute-false m there in
            (none, m, rw no_create (got, ground (arith, there), ground arith, got))
        | inl yes_create ↦ rw yes_create (get_attribute-creates other m there)
      ]
    ]

  get_attributes-held :
      (clone : A → A) (factory : List (Text × A)) (full_key name : Text) (c : Bool)
      (m : List (Text × Option A))
      → IsRising m
      → (out : List (Text × Option A)) × (left : List (Text × Option A)) × (get_attributes clone
            (some factory)
            full_key
            c
            m
          ≡ done (out, left))
        × (held name out
            ≡ (if c then made clone factory full_key name (find_item name m) else held name m))
        × (held name left ≡ held name out)
  unfolding get_attributes
  get_attributes-held clone factory full_key name true m rising =
      let (m', ok, is_made) = create_all-held clone factory full_key name m in
      (m', m', rw ok refl, is_made, refl)
  get_attributes-held clone factory full_key name false m rising =
      let same = created_of-held name m rising in (created_of m, m, refl, same, sym same)

  -- getAttribute and getAttributes with the same bCreateIfNotExists, where the instance has a factory
  -- and the names of its map rise: getAttribute returns what is under the name, or if it may create
  -- it the copy of the prototype for the full key, `:` and the name. A copy is put under the name, and
  -- nothing else changes; the same call afterwards returns the same and changes nothing. The map
  -- that getAttributes returns, and the one that it leaves, have under the name what getAttribute returns.
  pub get_attributes-get_attribute :
      (clone : A → A) (factory : List (Text × A)) (full_key name other : Text) (c : Bool)
      (m : List (Text × Option A))
      → IsRising m
      → (x : Option A) × (m' : List (Text × Option A)) × Gives clone factory full_key name other c m
          x m'
        × ((out : List (Text × Option A)) × (left : List (Text × Option A)) × (get_attributes clone
                (some factory)
                full_key
                c
                m
              ≡ done (out, left))
            × (held name out ≡ x)
            × (held name left ≡ x))
  get_attributes-get_attribute clone factory full_key name other c m rising =
      let (x, m', gives) = get_attribute-Gives clone factory full_key name other c m in
      let (out, left, ok, out_has, left_has) =
        get_attributes-held clone factory full_key name c m rising in
      let x_is = sym gives.1 in
      (x, m', gives, (out, left, ok, out_has ∙ x_is, left_has ∙ out_has ∙ x_is))
