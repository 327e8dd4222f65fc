-- ===== src/ModelGroup/Unchanged.antt =====
-- A group of PmtModelGroup.cpp that does not have the key: what it is asked changes nothing.
use pmt.Common.{
  arith, ℕ, ◌+◌, ◌≡◌, refl, ap, Bool, false, none, some, List, [], ◌∷◌, if◌then◌else◌, text_eq,
  Option-cases, Bool-cases, inl, inr,
}
use pmt.Common.Text.{Text}
use pmt.Element.{Metadata}
use pmt.ModelGroup.{
  Entry, Group, Groups, group, no_more, ◌and◌, sequence, choice, check_key_from, check_key,
  does_directly_reside, entry_index, get_item_index, child_index, ok_to_create, get_metadatum,
  get_from_children,
}

module _ {M : Type 0} where
  entry_index-missing :
      (c : ℕ) (key : Text) (es : List (Entry M))
      → entry_index c key es ≡ none
      → check_key_from c key es ≡ none
  unfolding entry_index check_key_from
  entry_index-missing c key [] h = refl
  entry_index-missing c key ((k, e) ∷ es) h = elim (Bool-cases (text_eq k key)) [
    | inl same ↦
        absurd (cc (h, ap (λ (b : Bool). if b then some c else entry_index (c + 1) key es) same))
    | inr other ↦ ground (arith, other, h, entry_index-missing (c + 1) key es)
  ]

  pub check_key-missing :
      (key : Text) (kind : _) (es : List (Entry M)) (gs : Groups M)
      → get_item_index key (group kind es gs) ≡ none
      → check_key key es ≡ none
  unfolding get_item_index check_key
  check_key-missing key kind es gs h = elim (Option-cases (entry_index 0 key es)) [
    | inl e ↦ entry_index-missing 0 key es e
    | inr (i, e) ↦ ground (arith, e, h)
  ]

  pub ok_to_create-missing :
      (key : Text) (g : Group M) → get_item_index key g ≡ none → ok_to_create key g ≡ false
  unfolding ok_to_create does_directly_reside
  ok_to_create-missing key (group sequence es gs) h =
      let e = check_key-missing key sequence es gs h in
      let away : does_directly_reside key es ≡ false = rw (e, does_directly_reside) in
      rw (away, h, ok_to_create)
  ok_to_create-missing key (group choice es gs) h = ground (arith, h)

module _ {M S : Type 0} (metadata : Metadata M S) (parent : M) where
  pub get_metadatum-missing :
      (key : Text) (n : ℕ) (g : Group M) (s : S)
      → get_item_index key g ≡ none
      → get_metadatum metadata parent key n g s ≡ (none, g, s)
  unfolding get_metadatum
  get_metadatum-missing key n (group kind es gs) s h =
      let e = ok_to_create-missing key (group kind es gs) h in rw e

  pub get_from_children-missing :
      (key : Text) (n c : ℕ) (gs : Groups M) (s : S)
      → child_index c key gs ≡ none
      → get_from_children metadata parent key n gs s ≡ (none, gs, s)
  unfolding get_from_children child_index
  get_from_children-missing key n c no_more s h = refl
  get_from_children-missing key n c (g and gs) s h = elim (Option-cases (get_item_index key g)) [
    | inr (i, e) ↦ ground (arith, e, h)
    | inl e ↦
        let here = get_metadatum-missing key n g s e in
        let rest = get_from_children-missing key n (c + 1) gs s (ground (arith, e, h)) in
        ground (arith, here, rest)
  ]
