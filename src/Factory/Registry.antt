-- ===== src/Factory/Registry.antt =====
-- What create of EkFactoryT.h finds after addEntry and removeEntry.
use pmt.Common.{
  not, is_found, ◌≡◌, refl, ap, true, none, some, List, [], ◌∷◌, if◌then◌else◌, text_eq,
  text_eq_sound, arith, Option-cases, Bool-cases, inl, inr,
}
use pmt.Common.Text.{Text}
use pmt.Factory.{find_item, create, insert_item, add_entry, remove_entry}

-- Equal texts answer alike.
text_eq_alike : (k a b : Text) → text_eq a b ≡ true → text_eq k a ≡ text_eq k b
text_eq_alike k a b same = ap (text_eq k) (text_eq_sound a b same)

module _ {A : Type 0} where
  insert_item-find :
      (key other : Text) (item : A) (r : List (Text × A))
      → find_item key r ≡ none
      → find_item other (insert_item key item r)
        ≡ (if text_eq key other then some item else find_item other r)
  unfolding find_item insert_item
  insert_item-find key other item [] h = refl
  insert_item-find key other item ((k, x) ∷ r) h =
      let rest = insert_item-find key other item r in
      elim (Bool-cases (text_eq k key)) [
        | inl known ↦ absurd (ground (arith, h, known))
        | inr new ↦ elim (Bool-cases (text_eq key other)) [
          | inl same ↦
              let alike = text_eq_alike k key other same in
              ground (arith, rest, h, new, same, alike)
          | inr apart ↦ ground (arith, rest, h, new, apart)
        ]
      ]

  remove_entry-find :
      (key other : Text) (r : List (Text × A))
      → find_item other (remove_entry key r).1
        ≡ (if text_eq key other then none else find_item other r)
  unfolding find_item remove_entry
  remove_entry-find key other [] = ground arith
  remove_entry-find key other ((k, x) ∷ r) =
      let rest = remove_entry-find key other r in
      elim (Bool-cases (text_eq k key)) [
        | inl here ↦ elim (Bool-cases (text_eq key other)) [
          | inl same ↦ ground (arith, rest, here, same)
          | inr apart ↦
              let moved = ap (λ y. text_eq y other) (text_eq_sound k key here) in
              ground (arith, rest, here, apart, moved)
        ]
        | inr away ↦ elim (Bool-cases (text_eq key other)) [
          | inl same ↦
              let alike = text_eq_alike k key other same in ground (arith, rest, away, same, alike)
          | inr apart ↦ ground (arith, rest, away, apart)
        ]
      ]

  -- What create finds under any key after addEntry and after removeEntry of a key: addEntry gives
  -- the key a new prototype only where it had none and says so, removeEntry takes its prototype
  -- away, and every other key keeps what it had.
  pub create_lem :
      (clone : A → A) (key other : Text) (item : A) (r : List (Text × A))
      → (create clone other (add_entry key item r).1 ≡ (
          if (add_entry key item r).0
          then (if text_eq key other then some (clone item) else create clone other r)
          else create clone other r))
        × (create clone other (remove_entry key r).1
            ≡ (if text_eq key other then none else create clone other r))
        × ((add_entry key item r).0 ≡ not (is_found (find_item key r)))
  unfolding create add_entry
  create_lem clone key other item r =
      let removed = remove_entry-find key other r in
      (
        elim (Option-cases (find_item key r)) [
          | inl absent ↦
              let added = insert_item-find key other item r absent in ground (arith, absent, added)
          | inr (x, there) ↦ ground (arith, there)
        ],
        ground (arith, removed),
        ground arith,
      )
