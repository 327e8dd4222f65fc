-- ===== src/Facet/Narrowing.antt =====
-- What addFacet of PmtMetadataT.h does to the values that an instance takes.
use pmt.Common.{
  ◌⊎◌, ℕ, zero, suc, ◌<◌, ◌≡◌, refl, sym, ◌∙◌, Bool, true, false, ◌==◌, some, List, [], ◌∷◌, ◌++◌,
  if◌then◌else◌, All, text_eq, length, get_elem?, set, get_elem?-append_left, arith, Bool-cases,
  Option-cases, inl, inr,
}
use pmt.Common.Text.{Text, codes}
use pmt.Factory.{create}
use pmt.Facet.{
  Values, Facet, enumeration, min_inclusive, max_inclusive, Restricted, restricted, refused,
  undefined, facet_name, is_enumerated, validate_facet, read_values, init_facet, all_enumerated,
  set_facet_value, validate, find_facet, add_facet,
}

-- What is relied on of the type of the value: `==` is transitive, and `<=` is an order to which `<`
-- fits.
pub record Laws {A : Type 0} (values : Values A) : Type 0 where
  pub eq_trans : (a b c : A) → values.eq a b ≡ true → values.eq b c ≡ true → values.eq a c ≡ true
  pub le_trans : (a b c : A) → values.le a b ≡ true → values.le b c ≡ true → values.le a c ≡ true
  pub le_of_not_lt : (a b : A) → values.lt a b ≡ false → values.le b a ≡ true

Restricted-cases :
    {B : Type 0} (r : Restricted B)
    → ((b : B) × (r ≡ restricted b)) ⊎ ((r ≡ refused) ⊎ (r ≡ undefined))
Restricted-cases (restricted b) = inl (b, refl)
Restricted-cases refused = inr (inl refl)
Restricted-cases undefined = inr (inr refl)

module _ {A : Type 0} (values : Values A) (laws : Laws values) where
  is_enumerated-equal :
      (v w : A) (es : List A)
      → values.eq v w ≡ true
      → is_enumerated values v es ≡ true
      → is_enumerated values w es ≡ true
  unfolding is_enumerated
  is_enumerated-equal v w [] same h = absurd (ground (arith, h))
  is_enumerated-equal v w (e ∷ es) same h =
      let rest = is_enumerated-equal v w es same in
      let here = λ (x : values.eq e v ≡ true). laws.eq_trans e v w x same in
      elim (Bool-cases (values.eq e v)) [
        | inl found ↦ rw (here found) refl
        | inr other ↦ let later = rest (ground (arith, h, other)) in ground (arith, later)
      ]

  is_enumerated-all :
      (v : A) (vs es : List A)
      → all_enumerated values vs es ≡ true
      → is_enumerated values v vs ≡ true
      → is_enumerated values v es ≡ true
  unfolding is_enumerated all_enumerated
  is_enumerated-all v [] es all h = absurd (ground (arith, h))
  is_enumerated-all v (w ∷ vs) es all h =
      let first : is_enumerated values w es ≡ true = ground (arith, all) in
      let others : all_enumerated values vs es ≡ true = ground (arith, all) in
      elim (Bool-cases (values.eq w v)) [
        | inl same ↦ is_enumerated-equal w v es same first
        | inr other ↦ is_enumerated-all v vs es others (ground (arith, h, other))
      ]

  -- A facet that is restricted takes no value that it did not take.
  set_facet_value-narrows :
      (ts : List Text) (fixed : Bool) (f f' : Facet A) (v : A)
      → set_facet_value values ts fixed f ≡ restricted f'
      → validate_facet values f' v ≡ true
      → validate_facet values f v ≡ true
  unfolding set_facet_value validate_facet
  set_facet_value-narrows ts fixed (enumeration old es) f' v h ok =
      elim (Bool-cases (all_enumerated values (read_values values ts) es)) [
        | inr missing ↦ absurd (ground (arith, h, missing))
        | inl all ↦
            let e : f' ≡ enumeration old (read_values values ts) = ground (arith, h, all) in
            is_enumerated-all v (read_values values ts) es all (rw e at ok)
      ]
  set_facet_value-narrows [] fixed (min_inclusive old bound) f' v h ok = absurd (ground (arith, h))
  set_facet_value-narrows (t ∷ ts) fixed (min_inclusive old bound) f' v h ok =
      let new = values.read_value t in
      elim (Bool-cases old) [
        | inl locked ↦ absurd (ground (arith, h, locked))
        | inr free ↦ elim (Bool-cases (values.lt new bound)) [
          | inl outside ↦ absurd (ground (arith, h, free, outside))
          | inr inside ↦
              let e : f' ≡ min_inclusive fixed new = ground (arith, h, free, inside) in
              laws.le_trans bound new v (laws.le_of_not_lt new bound inside) (rw e at ok)
        ]
      ]
  set_facet_value-narrows [] fixed (max_inclusive old bound) f' v h ok = absurd (ground (arith, h))
  set_facet_value-narrows (t ∷ ts) fixed (max_inclusive old bound) f' v h ok =
      let new = values.read_value t in
      elim (Bool-cases old) [
        | inl locked ↦ absurd (ground (arith, h, locked))
        | inr free ↦ elim (Bool-cases (values.lt bound new)) [
          | inl outside ↦ absurd (ground (arith, h, free, outside))
          | inr inside ↦
              let e : f' ≡ max_inclusive fixed new = ground (arith, h, free, inside) in
              laws.le_trans v new bound (rw e at ok) (laws.le_of_not_lt bound new inside)
        ]
      ]

  get_elem?-set_found :
      (store : List (Facet A)) (p q : ℕ) (f f' : Facet A)
      → get_elem? store p ≡ some f
      → get_elem? (set store p f') q ≡ (if p == q then some f' else get_elem? store q)
  get_elem?-set_found [] p q f f' h = absurd (ground (arith, h))
  get_elem?-set_found (x ∷ store) zero zero f f' h = refl
  get_elem?-set_found (x ∷ store) zero (suc q) f f' h = ground arith
  get_elem?-set_found (x ∷ store) (suc p) zero f f' h = ground arith
  get_elem?-set_found (x ∷ store) (suc p) (suc q) f f' h =
      ground (arith, get_elem?-set_found store p q f f' h)

  -- Every instance that shares the facet is restricted.
  validate-set :
      (facets : List ℕ) (store : List (Facet A)) (p : ℕ) (f f' : Facet A) (v : A)
      → get_elem? store p ≡ some f
      → (validate_facet values f' v ≡ true → validate_facet values f v ≡ true)
      → validate values facets (set store p f') v ≡ true
      → validate values facets store v ≡ true
  unfolding validate
  validate-set [] store p f f' v there narrower ok = refl
  validate-set (q ∷ facets) store p f f' v there narrower ok =
      let rest = validate-set facets store p f f' v there narrower in
      let read = get_elem?-set_found store p q f f' there in
      elim (Bool-cases (p == q)) [
        | inl same ↦
            let now : get_elem? (set store p f') q ≡ some f' = ground (arith, read, same) in
            let before : get_elem? store q ≡ some f = ground (arith, there, same) in
            let first : validate_facet values f' v ≡ true = ground (arith, ok, now) in
            let others : validate values facets (set store p f') v ≡ true =
              ground (arith, ok, now) in
            ground (arith, before, narrower first, rest others)
        | inr other ↦
            let now : get_elem? (set store p f') q ≡ get_elem? store q =
              ground (arith, read, other) in
            elim (Option-cases (get_elem? store q)) [
              | inl dangling ↦ absurd (ground (arith, ok, now, dangling))
              | inr (g, known) ↦
                  let first : validate_facet values g v ≡ true = ground (arith, ok, now, known) in
                  let others : validate values facets (set store p f') v ≡ true =
                    ground (arith, ok, now, known) in
                  ground (arith, known, first, rest others)
            ]
      ]

  find_facet_sound :
      (name : Text) (facets : List ℕ) (store : List (Facet A)) (p : ℕ) (f : Facet A)
      → find_facet values name facets store ≡ some (p, f)
      → get_elem? store p ≡ some f
  unfolding find_facet
  find_facet_sound name [] store p f h = absurd (ground (arith, h))
  find_facet_sound name (q ∷ facets) store p f h =
      let rest = find_facet_sound name facets store p f in
      elim (Option-cases (get_elem? store q)) [
        | inl dangling ↦ rest (ground (arith, h, dangling))
        | inr (g, known) ↦ elim (Bool-cases (text_eq (facet_name g) name)) [
          | inl here ↦ ground (arith, h, known, here)
          | inr other ↦ rest (ground (arith, h, known, other))
        ]
      ]

  -- A facet that is new to the store leaves the facets of other instances as they were.
  validate-push_back :
      (facets : List ℕ) (store : List (Facet A)) (f : Facet A) (v : A)
      → All (λ p. p < length store) facets
      → validate values facets (store ++ f ∷ []) v ≡ validate values facets store v
  unfolding validate
  validate-push_back [] store f v held = refl
  validate-push_back (p ∷ facets) store f v (here, held) =
      let same = get_elem?-append_left store (f ∷ []) p here in
      ground (arith, same, validate-push_back facets store f v held)

  -- For a type of values on which `==` and `<=` are transitive and `b <= a` holds where `a < b` does not
  -- (which NaN breaks for `float` and `double`): where addFacet of an instance succeeds, no instance
  -- whose facets are in the store, whether it shares facets with that instance or not, takes a value
  -- by those facets that it did not take before.
  pub add_facet-narrows :
      (registry : List (Text × Facet A)) (true_type name : Text) (ts : List Text) (fixed : Bool)
      (mine others mine' : List ℕ) (store store' : List (Facet A)) (v : A)
      → All (λ p. p < length store) others
      → add_facet values registry true_type name ts fixed mine store ≡ restricted (mine', store')
      → validate values others store' v ≡ true
      → validate values others store v ≡ true
  unfolding add_facet
  add_facet-narrows registry true_type name ts fixed mine others mine' store store' v held h ok =
      elim (Option-cases (find_facet values name mine store)) [
        | inr ((p, f), found) ↦ elim (Restricted-cases (set_facet_value values ts fixed f)) [
          | inr failed ↦ elim failed [
            | inl thrown ↦ absurd (ground (arith, h, found, thrown))
            | inr thrown ↦ absurd (ground (arith, h, found, thrown))
          ]
          | inl (f', made) ↦
              let e : store' ≡ set store p f' = ground (arith, h, found, made) in
              validate-set others store p f f' v (find_facet_sound name mine store p f found)
                (set_facet_value-narrows ts fixed f f' v made) (rw e at ok)
        ]
        | inl absent ↦
            let created = create (λ f. f) (name ++ codes "-" ++ true_type) registry in
            elim (Option-cases created) [
              | inl unknown ↦
                  let e : store' ≡ store = ground (arith, h, absent, unknown) in rw e at ok
              | inr (fresh, known) ↦ elim (Restricted-cases (init_facet values ts fixed fresh)) [
                | inr failed ↦ elim failed [
                  | inl thrown ↦ absurd (ground (arith, h, absent, known, thrown))
                  | inr thrown ↦ absurd (ground (arith, h, absent, known, thrown))
                ]
                | inl (f', made) ↦
                    let e : store' ≡ store ++ f' ∷ [] = ground (arith, h, absent, known, made) in
                    sym (validate-push_back others store f' v held) ∙ (rw e at ok)
              ]
            ]
      ]
