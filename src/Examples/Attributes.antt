-- ===== src/Examples/Attributes.antt =====
-- Attributes of an instance.
use pmt.Common.{text_eq, ℕ, ◌≡◌, refl, true, Option, none, some, List, [], ◌∷◌}
use pmt.Common.Run.{done, undefined}
use pmt.Common.Text.{Text, codes}
use pmt.Aliases.{text_ltb}
use pmt.Factory.{insert_item}
use pmt.MapT.Insertion.{IsRising}
use pmt.Attributes.{get_attribute, get_attributes, get_md_factory}
use pmt.Attributes.Listed.{held, Gives, get_attributes-get_attribute}

abbrev copy : ℕ → ℕ
copy n = n

-- Of three attributes only the count is created, and only the role has a prototype.
abbrev declared : List (Text × Option ℕ)
declared = (codes "count", some 3) ∷ (codes "role", none) ∷ (codes "unit", none) ∷ []

abbrev prototypes : List (Text × ℕ)
prototypes = (codes "Lens:role", 5) ∷ []

declared-IsRising : IsRising declared
unfolding IsRising text_ltb
declared-IsRising = ((refl, (refl, tt)), ((refl, tt), (tt, tt)))

get_attributes-get_attribute_example :
    (x : Option ℕ) × (m' : List (Text × Option ℕ)) × Gives copy prototypes
      (codes "Lens")
      (codes "role")
      (codes "unit")
      true
      declared
      x
      m'
    × ((out : List (Text × Option ℕ)) × (left : List (Text × Option ℕ)) × (get_attributes copy
            (some prototypes)
            (codes "Lens")
            true
            declared
          ≡ done (out, left))
        × (held (codes "role") out ≡ x)
        × (held (codes "role") left ≡ x))
get_attributes-get_attribute_example =
    get_attributes-get_attribute copy prototypes (codes "Lens") (codes "role") (codes "unit") true
      declared declared-IsRising

role_created :
    get_attribute copy (some prototypes) (codes "Lens") (codes "role") true declared
    ≡ done (some 5, (codes "count", some 3) ∷ (codes "role", some 5) ∷ (codes "unit", none) ∷ [])
unfolding get_attribute text_eq
role_created = refl

-- An instance without a parent has no factory.
role_of_orphan : get_attribute copy none (codes "Lens") (codes "role") true declared ≡ undefined
unfolding get_attribute text_eq
role_of_orphan = refl

-- A factory is made when it is first asked for.
factory_on_demand : get_md_factory {F = ℕ} 0 (codes "ns") [] ≡ (some 0, (codes "ns", 0) ∷ [])
unfolding get_md_factory insert_item
factory_on_demand = refl
