-- ===== src/ModelGroup/Created.antt =====
-- How many items of a group of PmtModelGroup.cpp have something created, and what anyCreated says
-- of that number.
use pmt.Common.{
  ℕ, zero, suc, ◌+◌, ◌≤◌, ◌<◌, ◌≡◌, refl, Bool, true, false, Option, none, some, List, [], ◌∷◌,
  if◌then◌else◌, length, set, text_eq, arith,
}
use pmt.Common.Text.{Text}
use pmt.Element
use pmt.Element.{Metadata, Element}
use pmt.ModelGroup.{
  Entry, Group, Groups, group, no_more, ◌and◌, sequence, choice, entry_index, get_item_index,
  child_index, is_looked_at, is_some, any_created, any_created_entry, any_created_child,
}

abbrev pub one_if : Bool → ℕ
one_if b = if b then 1 else 0

module _ {M : Type 0} where
  unfoldable pub created_entries : List (Entry M) → ℕ
  created_entries [] = 0
  created_entries ((k, e) ∷ es) = one_if (is_some (Element.existing 0 e)) + created_entries es

  unfoldable pub created_children : Groups M → ℕ
  created_children no_more = 0
  created_children (g and gs) = one_if (any_created none g) + created_children gs

  -- Every choice in the tree has at most one item with something created in it.
  unfoldable mutual
    pub IsExclusive : Group M → Type 0
    IsExclusive (group sequence es gs) = AreExclusive gs
    IsExclusive (group choice es gs) =
        (created_entries es + created_children gs ≤ 1) × AreExclusive gs

    pub AreExclusive : Groups M → Type 0
    AreExclusive no_more = Unit
    AreExclusive (g and gs) = IsExclusive g × AreExclusive gs

  -- How many entries of the tree have the key.
  unfoldable pub count_entries : Text → List (Entry M) → ℕ
  count_entries key [] = 0
  count_entries key ((k, e) ∷ es) = one_if (text_eq k key) + count_entries key es

  unfoldable mutual
    pub count : Text → Group M → ℕ
    count key (group kind es gs) = count_entries key es + count_children key gs

    pub count_children : Text → Groups M → ℕ
    count_children key no_more = 0
    count_children key (g and gs) = count key g + count_children key gs

  entry_index-count :
      (c : ℕ) (key : Text) (es : List (Entry M))
      → count_entries key es ≡ 0
      → entry_index c key es ≡ none
  unfolding count_entries entry_index
  entry_index-count c key [] h = refl
  entry_index-count c key ((k, e) ∷ es) h = ground (arith, entry_index-count (c + 1) key es)

  mutual
    unfolding count get_item_index

    pub get_item_index-count :
        (key : Text) (g : Group M) → count key g ≡ 0 → get_item_index key g ≡ none
    get_item_index-count key (group kind es gs) h =
        let e = entry_index-count 0 key es (omega arith) in
        let f = child_index-count (length es) key gs (omega arith) in ground (arith, e, f)

    pub child_index-count :
        (c : ℕ) (key : Text) (gs : Groups M)
        → count_children key gs ≡ 0
        → child_index c key gs ≡ none
    child_index-count c key no_more h = refl
    child_index-count c key (g and gs) h =
        let e = get_item_index-count key g (omega arith) in
        let f = child_index-count (c + 1) key gs (omega arith) in ground (arith, e, f)

  -- Where no index is skipped, anyCreated looks at every item.
  pub any_created_entry-none :
      (c : ℕ) (skip : Option ℕ) (es : List (Entry M))
      → ((i : ℕ) → c ≤ i → i < c + length es → is_looked_at skip i ≡ true)
      → any_created_entry c skip es ≡ false
      → created_entries es ≡ 0
  unfolding any_created_entry created_entries
  any_created_entry-none c skip [] all h = refl
  any_created_entry-none c skip ((k, e) ∷ es) all h =
      let looked = all c (omega arith) (omega arith) in
      let rest =
        any_created_entry-none (c + 1) skip es (λ i le lt. all i (omega arith) (omega arith)) in
      ground (arith, looked, rest)

  pub any_created_child-none :
      (c : ℕ) (skip : Option ℕ) (gs : Groups M)
      → ((i : ℕ) → c ≤ i → is_looked_at skip i ≡ true)
      → any_created_child c skip gs ≡ false
      → created_children gs ≡ 0
  unfolding any_created_child created_children
  any_created_child-none c skip no_more all h = refl
  any_created_child-none c skip (g and gs) all h =
      let looked = all c (omega arith) in
      let rest = any_created_child-none (c + 1) skip gs (λ i le. all i (omega arith)) in
      ground (arith, looked, rest)

  -- Whatever is put at the index that is skipped, it is at most one item.
  pub created_entries-set :
      (c j : ℕ) (es : List (Entry M)) (x : Entry M)
      → any_created_entry c (some (c + j)) es ≡ false
      → created_entries (set es j x) ≤ 1
  unfolding any_created_entry created_entries is_looked_at
  created_entries-set c j [] x h = omega arith
  created_entries-set c zero ((k, e) ∷ es) (k', e') h =
      let rest = any_created_entry-none (c + 1) (some (c + 0)) es (λ i le lt. ground arith) in
      ground (arith, rest)
  created_entries-set c (suc j) ((k, e) ∷ es) x h =
      let rest : any_created_entry (c + 1) (some (c + 1 + j)) es ≡ false
          → created_entries (set es j x) ≤ 1 =
        created_entries-set (c + 1) j es x in
      let shift : c + suc j ≡ c + 1 + j = omega arith in ground (arith, rest, shift)
