-- ===== src/Attributes.antt =====
-- The attributes of src/PmtCore/PmtMetadata.cpp and PmtMetadata.h, and the factories by name space of
-- PmtMetadataFactories there. A `map` is the list of its entries with rising keys. An attribute that
-- is declared but not created is `none`, the NULL of the map. `clone` is that of the prototypes.
pub mod Listed
use pmt.Common.{Bool, Option, none, some, List, [], ◌∷◌, ◌++◌, if◌then◌else◌, text_eq}
use pmt.Common.Run.{Run, done, undefined, ◌>>=◌}
use pmt.Common.Text.{Text}
use pmt.Factory.{find_item, create, add_entry, remove_entry}

module _ {A : Type 0} where
  -- `(*iter).second = `, for the entry with the name.
  unfoldable pub put_entry : Text → A → List (Text × A) → List (Text × A)
  put_entry name x [] = []
  put_entry name x ((k, y) ∷ m) =
      let later = put_entry name x m in if text_eq k name then (k, x) ∷ m else (k, y) ∷ later

module _ {A : Type 0} where
  -- The attributes that are created; as their names rise, each is inserted last.
  unfoldable pub created_of : List (Text × Option A) → List (Text × Option A)
  created_of [] = []
  created_of ((k, none) ∷ m) = created_of m
  created_of ((k, some a) ∷ m) = (k, some a) ∷ created_of m

  unfoldable pub set_attribute : Text → Option A → List (Text × Option A) → List (Text × Option A)
  unfolding add_entry
  set_attribute name a m = (add_entry name a m).1

  unfoldable pub delete_attribute : Text → List (Text × Option A) → List (Text × Option A)
  unfolding remove_entry
  delete_attribute name m = (remove_entry name m).1

  unfoldable pub delete_all_attributes : List (Text × Option A) → List (Text × Option A)
  delete_all_attributes m = []

  module _ (clone : A → A) where
    -- `getAttrFactory()->create`. Where no parent leads to a factory the pointer is NULL.
    unfoldable pub create_attribute : Option (List (Text × A)) → Text → Text → Run (Option A)
    unfolding create
    create_attribute none full_key name = undefined
    create_attribute (some factory) full_key name =
        done (create clone (full_key ++ b':' ∷ name) factory)

    -- getAttribute: the attribute or NULL, and the map afterwards.
    unfoldable pub get_attribute :
        Option (List (Text × A))
        → Text
        → Text
        → Bool
        → List (Text × Option A)
        → Run (Option A × List (Text × Option A))
    unfolding create_attribute find_item put_entry
    get_attribute factory full_key name create_if_not_exists m = elim (find_item name m) [
      | none ↦ done (none, m)
      | some (some a) ↦ done (some a, m)
      | some none ↦
          if create_if_not_exists
          then create_attribute factory full_key name >>= (λ made. elim made [
            | none ↦ done (none, m)
            | some a ↦ done (some a, put_entry name (some a) m)
          ])
          else done (none, m)
    ]

    -- The loop that creates what is not created.
    unfoldable pub create_all :
        Option (List (Text × A)) → Text → List (Text × Option A) → Run (List (Text × Option A))
    unfolding create_attribute
    create_all factory full_key [] = done []
    create_all factory full_key ((k, none) ∷ m) =
        let later = create_all factory full_key m in
        create_attribute factory full_key k >>= (λ made. later >>= (λ m'. done ((k, made) ∷ m')))
    create_all factory full_key ((k, some a) ∷ m) =
        create_all factory full_key m >>= (λ m'. done ((k, some a) ∷ m'))

    -- getAttributes: the map that is returned, and that of the instance afterwards.
    unfoldable pub get_attributes :
        Option (List (Text × A))
        → Text
        → Bool
        → List (Text × Option A)
        → Run (List (Text × Option A) × List (Text × Option A))
    unfolding create_all created_of
    get_attributes factory full_key create_if_not_exists m =
        if create_if_not_exists
        then create_all factory full_key m >>= (λ m'. done (m', m'))
        else done (created_of m, m)

-- PmtMetadataFactories: the factories by name space. A factory that is returned is the one in the map.
module _ {F : Type 0} (new_factory : F) where
  unfoldable pub create_md_factory : Text → List (Text × F) → Option F × List (Text × F)
  unfolding add_entry
  create_md_factory name_space m =
      let (inserted, m') = add_entry name_space new_factory m in
      (if inserted then some new_factory else none, m')

  unfoldable pub get_md_factory : Text → List (Text × F) → Option F × List (Text × F)
  unfolding create_md_factory find_item
  get_md_factory name_space m = elim (find_item name_space m) [
    | some f ↦ (some f, m)
    | none ↦ create_md_factory name_space m
  ]

module _ {F : Type 0} where
  unfoldable pub clear_factory : Text → List (Text × F) → List (Text × F)
  unfolding remove_entry
  clear_factory name_space m = (remove_entry name_space m).1

  unfoldable pub clear_factories : List (Text × F) → List (Text × F)
  clear_factories m = []
