-- ===== src/MapT/Lookup.antt =====
-- What find, count and erase of EkMapT.h make of the map that insert leaves.
use pmt.Common.{
  ℕ, zero, suc, ◌<◌, ◌≡◌, refl, sym, ap, ◌∙◌, is_found, Bool, true, false, Option, none, some, List,
  [], ◌∷◌, All, text_eq, text_eq_refl, arith, Bool-cases, Option-cases, inl, inr, get_elem?, length,
}
use pmt.Common.Text.{Text}
use pmt.Aliases.{text_ltb}
use pmt.Aliases.Insert.{text_eq_other}
use pmt.Factory.{find_item, insert_item, add_entry, remove_entry}
use pmt.MapT.{insert, erase, find, count}
use pmt.MapT.Insertion.{IsRising, less-differs, insert-add_entry}
use pmt.MapT.Erasure.{erase-remove_entry}
use pmt.MapT.Place.{insert-get_elem?}

module _ {V : Type 0} where
  All-get_elem? :
      (P : Text × V → Type 0) (m : List (Text × V)) (n : ℕ) (e : Text × V)
      → All P m
      → get_elem? m n ≡ some e
      → P e
  All-get_elem? P [] n e all h = absurd (ground (arith, h))
  All-get_elem? P (x ∷ m) zero e (here, all) h =
      let same : x ≡ e = ground (arith, h) in rw (← same) here
  All-get_elem? P (x ∷ m) (suc n) e (here, all) h = All-get_elem? P m n e all h

  -- Among rising keys the entry with the key stands at one place only.
  find-get_elem? :
      (key : Text) (x : V) (m : List (Text × V)) (n : ℕ)
      → IsRising m
      → get_elem? m n ≡ some (key, x)
      → (find key m ≡ n) × (n < length m)
  unfolding find IsRising
  find-get_elem? key x [] n rising h = absurd (ground (arith, h))
  find-get_elem? key x ((j, v) ∷ m) zero (behind, rising) h =
      let key_of : Option (Text × V) → Text = λ o. elim o [ none ↦ j | some e ↦ e.0 ] in
      let same : j ≡ key = ap key_of h in (rw (same, text_eq_refl key) refl, omega arith)
  find-get_elem? key x ((j, v) ∷ m) (suc n) (behind, rising) h =
      let (later, fits) = find-get_elem? key x m n rising h in
      let less = All-get_elem? (λ e. text_ltb j e.0 ≡ true) m n (key, x) behind h in
      let apart = text_eq_other key j (less-differs j key less) in
      (rw (apart, later) refl, omega (arith, fits))

  remove_entry-absent :
      (key : Text) (m : List (Text × V)) → find_item key m ≡ none → remove_entry key m ≡ (false, m)
  unfolding remove_entry find_item
  remove_entry-absent key [] h = refl
  remove_entry-absent key ((j, v) ∷ m) h =
      let rest = remove_entry-absent key m in ground (arith, h, rest)

  remove_entry-insert_item :
      (key : Text) (value : V) (m : List (Text × V))
      → find_item key m ≡ none
      → remove_entry key (insert_item key value m) ≡ (true, m)
  unfolding remove_entry find_item insert_item
  remove_entry-insert_item key value [] h = rw (text_eq_refl key) refl
  remove_entry-insert_item key value ((j, v) ∷ m) h =
      let gone = remove_entry-absent key ((j, v) ∷ m) h in
      elim (Bool-cases (text_ltb key j)) [
        | inl before ↦ rw (before, text_eq_refl key, gone) refl
        | inr behind ↦ elim (Bool-cases (text_eq j key)) [
          | inl same ↦ absurd (ground (arith, h, same))
          | inr apart ↦
              let later = remove_entry-insert_item key value m (ground (arith, h, apart)) in
              rw (behind, apart, later) refl
        ]
      ]

  remove_entry-is_found :
      (key : Text) (m : List (Text × V)) → (remove_entry key m).0 ≡ is_found (find_item key m)
  unfolding remove_entry find_item
  remove_entry-is_found key [] = refl
  remove_entry-is_found key ((j, v) ∷ m) =
      let rest = remove_entry-is_found key m in ground (arith, rest)

  pub add_entry-none :
      (key : Text) (value : V) (m : List (Text × V))
      → find_item key m ≡ none
      → add_entry key value m ≡ (true, insert_item key value m)
  unfolding add_entry
  add_entry-none key value m absent = rw (absent, add_entry) refl

  add_entry-some :
      (key : Text) (value x : V) (m : List (Text × V))
      → find_item key m ≡ some x
      → add_entry key value m ≡ (false, m)
  unfolding add_entry
  add_entry-some key value x m there = rw (there, add_entry) refl

  remove_entry-add_entry :
      (key : Text) (value : V) (m : List (Text × V))
      → remove_entry key (add_entry key value m).1 ≡ (true, (remove_entry key m).1)
  remove_entry-add_entry key value m = elim (Option-cases (find_item key m)) [
    | inl absent ↦
        ap (λ r. remove_entry key r.1) (add_entry-none key value m absent)
        ∙ remove_entry-insert_item key value m absent
        ∙ ap (λ r. (true, r.1)) (sym (remove_entry-absent key m absent))
    | inr (x, there) ↦
        let found = remove_entry-is_found key m in
        ap (λ r. remove_entry key r.1) (add_entry-some key value x m there)
        ∙ ap (λ b. (b, (remove_entry key m).1)) (found ∙ rw there refl)
  ]

  -- After insert on a list whose keys rise, find gives the place that insert returned, count is 1,
  -- and erase of the key reports an entry and leaves what it would have left before the insertion.
  pub find-insert :
      (key : Text) (value : V) (m : List (Text × V))
      → IsRising m
      → (find key (insert key value m).1 ≡ (insert key value m).0.0)
        × (count key (insert key value m).1 ≡ 1)
        × (erase key (insert key value m).1 ≡ (true, (erase key m).1))
  unfolding count
  find-insert key value m rising =
      let (same, rising') = insert-add_entry key value m rising in
      let (x, at, _) = insert-get_elem? key value m in
      let (found, fits) =
        find-get_elem? key x (insert key value m).1 (insert key value m).0.0 rising' at in
      let erased =
        erase-remove_entry key (insert key value m).1 rising'
        ∙ ap (λ (r : Bool × List (Text × V)). remove_entry key r.1) same
        ∙ remove_entry-add_entry key value m
        ∙ ap (λ (r : Bool × List (Text × V)). (true, r.1))
            (sym (erase-remove_entry key m rising)) in
      (found, ground (arith, found, fits), erased)
