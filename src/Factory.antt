-- ===== src/Factory.antt =====
-- src/Ek/EkFactoryT.h: the registry of prototypes by key. The `map` is the list of its entries in the
-- order of the keys. An item is a handle that shares the prototype; `clone` is a parameter.
pub mod Registry
use pmt.Common.{
  ℕ, Bool, true, false, ◌||◌, Option, none, some, List, [], ◌∷◌, if◌then◌else◌, text_eq,
}
use pmt.Common.Text.{Text}
use pmt.Aliases.{text_ltb}

module _ {A : Type 0} where
  unfoldable pub find_item : Text → List (Text × A) → Option A
  find_item key [] = none
  find_item key ((k, item) ∷ entries) =
      let later = find_item key entries in if text_eq k key then some item else later

  -- create: a copy of the prototype, or NULL.
  unfoldable pub create : (A → A) → Text → List (Text × A) → Option A
  create clone fac_key registry = elim (find_item fac_key registry) [
    | none ↦ none
    | some item ↦ some (clone item)
  ]

  -- get: the prototype itself.
  unfoldable pub get : Text → List (Text × A) → Option A
  get fac_key registry = find_item fac_key registry

  unfoldable pub insert_item : Text → A → List (Text × A) → List (Text × A)
  insert_item key item [] = (key, item) ∷ []
  insert_item key item ((k, x) ∷ entries) =
      let later = insert_item key item entries in
      if text_ltb key k then (key, item) ∷ (k, x) ∷ entries else (k, x) ∷ later

  -- `mRegistry.insert`, which leaves an entry that is there.
  unfoldable pub add_entry : Text → A → List (Text × A) → Bool × List (Text × A)
  add_entry fac_key item registry = elim (find_item fac_key registry) [
    | some x ↦ (false, registry)
    | none ↦ (true, insert_item fac_key item registry)
  ]

  -- `mRegistry.erase`: whether an entry was erased, and the rest.
  unfoldable pub remove_entry : Text → List (Text × A) → Bool × List (Text × A)
  remove_entry fac_key [] = (false, [])
  remove_entry fac_key ((k, x) ∷ entries) =
      let (erased, rest) = remove_entry fac_key entries in
      if text_eq k fac_key then (true, rest) else (erased, (k, x) ∷ rest)

  unfoldable pub clear : List (Text × A) → List (Text × A)
  clear registry = []
