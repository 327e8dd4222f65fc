-- ===== src/ModelGroup/Choice.antt =====
-- What getMetadatum of PmtModelGroup.cpp keeps: at most one item of a `<choice>` has something
-- created in it.
use native.Mathlib.Decide.{dec_lt}
use pmt.Common.{
  refl, set, set, true, Bool-cases, none, ℕ, ◌+◌, ◌≤◌, ◌<◌, ◌≡◌, false, some, List, [], ◌∷◌, length,
  arith, Option-cases, inl, inr,
}
use pmt.Common.Text.{Text}
use pmt.Element.{Metadata, Element}
use pmt.ModelGroup.{
  sequence, choice, any_created_entry, choice, group, any_created, check_key, ok_to_create, Entry,
  Group, Groups, no_more, ◌and◌, check_key_from, entry_index, get_item_index, child_index,
  is_looked_at, any_created_child, get_metadatum, get_from_children,
}
use pmt.ModelGroup.Unchanged.{get_metadatum-missing, get_from_children-missing}
use pmt.ModelGroup.Created.{
  created_entries-set, any_created_entry-none, created_entries, AreExclusive, IsExclusive,
  created_children, count, count_children, get_item_index-count, child_index-count,
  any_created_child-none,
}

module _ {M : Type 0} where
  -- checkKey and getItemIndex agree on a key of the group's own.
  found_index :
      (c : ℕ) (key : Text) (es : List (Entry M)) (i : ℕ) (e : Element M)
      → check_key_from c key es ≡ some (i, e)
      → (entry_index c key es ≡ some i) × (i < c + length es)
  unfolding check_key_from entry_index
  found_index c key [] i e h = cc h
  found_index c key ((k, x) ∷ es) i e h =
      let rest = found_index (c + 1) key es i e in ground (arith, rest)

  child_index_bound :
      (c : ℕ) (key : Text) (gs : Groups M) (i : ℕ) → child_index c key gs ≡ some i → c ≤ i
  unfolding child_index
  child_index_bound c key no_more i h = cc h
  child_index_bound c key (g and gs) i h = elim (Option-cases (get_item_index key g)) [
    | inr (j, e) ↦ ground (arith, e, h)
    | inl e ↦ let rest = child_index_bound (c + 1) key gs i in ground (arith, e, h, rest)
  ]

  -- A group that has an index for the key counts it.
  count_found : (key : Text) (g : Group M) (j : ℕ) → get_item_index key g ≡ some j → 0 < count key g
  count_found key g j h = elim (dec_lt 0 (count key g)) [
    | yes counted ↦ counted
    | no absent ↦ absurd (cc (h, get_item_index-count key g (omega arith)))
  ]

module _ {M S : Type 0} (metadata : Metadata M S) (parent : M) (key : Text) (n : ℕ) where
  -- The children behind a loop over them in which only the child `i` was looked into.
  children-created :
      (c i : ℕ) (gs : Groups M) (s : S)
      → child_index c key gs ≡ some i
      → count_children key gs ≤ 1
      → any_created_child c (some i) gs ≡ false
      → created_children (get_from_children metadata parent key n gs s).1 ≤ 1
  unfolding get_from_children child_index count_children any_created_child created_children
      is_looked_at
  children-created c i no_more s h once quiet = omega arith
  children-created c i (g and gs) s h once quiet = elim (Option-cases (get_item_index key g)) [
    | inr (j, e) ↦
        let elsewhere : count_children key gs ≡ 0 = omega (arith, count_found key g j e) in
        let same =
          get_from_children-missing metadata parent key n 0 gs
            (get_metadatum metadata parent key n g s).2 (child_index-count 0 key gs elsewhere) in
        let at : c ≡ i = ground (arith, e, h) in
        let none_else = any_created_child-none (c + 1) (some i) gs (λ k le. ground arith) in
        ground (arith, same, none_else)
    | inl e ↦
        let same = get_metadatum-missing metadata parent key n g s e in
        let rest = children-created (c + 1) i gs s (ground (arith, e, h)) (omega arith) in
        let behind = child_index_bound (c + 1) key gs i (ground (arith, e, h)) in
        ground (arith, same, rest, behind)
  ]

module _ {M : Type 0} where
  missing_index :
      (c : ℕ) (key : Text) (es : List (Entry M))
      → check_key_from c key es ≡ none
      → entry_index c key es ≡ none
  unfolding check_key_from entry_index
  missing_index c key [] h = refl
  missing_index c key ((k, x) ∷ es) h =
      let rest = missing_index (c + 1) key es in ground (arith, rest)

  -- What a choice allows leaves every other item without anything created.
  ok_to_create-quiet :
      (key : Text) (es : List (Entry M)) (gs : Groups M)
      → ok_to_create key (group choice es gs) ≡ true
      → (i : ℕ) × (get_item_index key (group choice es gs) ≡ some i)
        × (any_created_entry 0 (some i) es ≡ false)
        × (any_created_child (length es) (some i) gs ≡ false)
  unfolding ok_to_create any_created
  ok_to_create-quiet key es gs ok = elim (Option-cases (get_item_index key (group choice es gs))) [
    | inl missing ↦ ground (arith, ok, missing)
    | inr (i, found) ↦
        let quiet : any_created (some i) (group choice es gs) ≡ false = ground (arith, ok, found) in
        (i, found, ground (arith, quiet), ground (arith, quiet))
  ]

  -- Putting anything at the key's own index leaves one item at most.
  choice-set :
      (key : Text) (es : List (Entry M)) (gs : Groups M) (i : ℕ) (e : Element M) (x : Entry M)
      → ok_to_create key (group choice es gs) ≡ true
      → check_key key es ≡ some (i, e)
      → created_entries (set es i x) + created_children gs ≤ 1
  unfolding check_key get_item_index
  choice-set key es gs i e x ok there =
      let (j, found, entries, children) = ok_to_create-quiet key es gs ok in
      let (index, bound) = found_index 0 key es i e there in
      let at : j ≡ i = ground (arith, found, index) in
      let none_below =
        any_created_child-none (length es) (some j) gs (λ k le. unfold is_looked_at in ground arith)
          children in
      let one = created_entries-set 0 i es x (ground (arith, entries, at)) in
      omega (arith, one, none_below)

module _ {M S : Type 0} (metadata : Metadata M S) (parent : M) (key : Text) (n : ℕ) where
  choice-children :
      (es : List (Entry M)) (gs : Groups M) (s : S)
      → count_children key gs ≤ 1
      → ok_to_create key (group choice es gs) ≡ true
      → check_key key es ≡ none
      → created_entries es + created_children (get_from_children metadata parent key n gs s).1 ≤ 1
  unfolding check_key get_item_index
  choice-children es gs s once ok away =
      let (j, found, entries, children) = ok_to_create-quiet key es gs ok in
      let index = missing_index 0 key es away in
      let child : child_index (length es) key gs ≡ some j = ground (arith, found, index) in
      let bound = child_index_bound (length es) key gs j child in
      let none_above =
        any_created_entry-none 0 (some j) es (λ k le lt. unfold is_looked_at in ground arith)
          entries in
      let one = children-created metadata parent key n (length es) j gs s child once children in
      omega (arith, one, none_above)

  -- The loop over the children stops at an instance, and goes on without one.
  pub loop_stops :
      (g : Group M) (gs : Groups M) (s : S) (m : M)
      → (get_metadatum metadata parent key n g s).0 ≡ some m
      → (get_from_children metadata parent key n (g and gs) s).1
        ≡ ((get_metadatum metadata parent key n g s).1 and gs)
  unfolding get_from_children
  loop_stops g gs s m h = ground (arith, h)

  pub loop_goes_on :
      (g : Group M) (gs : Groups M) (s : S)
      → (get_metadatum metadata parent key n g s).0 ≡ none
      → (get_from_children metadata parent key n (g and gs) s).1 ≡ (
          (get_metadatum metadata parent key n g s).1
          and (get_from_children metadata parent key n gs
              (get_metadatum metadata parent key n g s).2).1)
  unfolding get_from_children
  loop_goes_on g gs s h = ground (arith, h)

  mutual
    unfolding get_metadatum get_from_children IsExclusive count

    keeps :
        (g : Group M) (s : S)
        → count key g ≤ 1
        → IsExclusive g
        → IsExclusive (get_metadatum metadata parent key n g s).1
    keeps (group sequence es gs) s once good =
        elim (Bool-cases (ok_to_create key (group sequence es gs))) [
          | inr refused ↦ rw refused good
          | inl ok ↦ elim (Option-cases (check_key key es)) [
            | inl away ↦ rw (ok, away) (keeps_all gs s (omega arith) good)
            | inr ((i, e), there) ↦ rw (ok, there) good
          ]
        ]
    keeps (group choice es gs) s once (one, good) =
        elim (Bool-cases (ok_to_create key (group choice es gs))) [
          | inr refused ↦ rw refused (one, good)
          | inl ok ↦ elim (Option-cases (check_key key es)) [
            | inl away ↦
                rw (ok, away)
                  (choice-children es gs s (omega arith) ok away, keeps_all gs s (omega arith) good)
            | inr ((i, e), there) ↦ rw (ok, there) (choice-set key es gs i e _ ok there, good)
          ]
        ]

    keeps_all :
        (gs : Groups M) (s : S)
        → count_children key gs ≤ 1
        → AreExclusive gs
        → AreExclusive (get_from_children metadata parent key n gs s).1
    keeps_all no_more s once good = tt
    keeps_all (g and gs) s once (good, all_good) =
        let kept = keeps g s (omega arith) good in
        elim (Option-cases (get_metadatum metadata parent key n g s).0) [
          | inr (m, e) ↦ rw (loop_stops g gs s m e) (kept, all_good)
          | inl e ↦ rw (loop_goes_on g gs s e) (
            kept,
            keeps_all gs (get_metadatum metadata parent key n g s).2 (omega arith) all_good,
          )
        ]

  -- Asking a group for a metadatum keeps every choice of its tree exclusive, whatever the factory
  -- makes: where each choice had at most one item with something created, each still has. This is
  -- for a key that at most one entry of the tree has.
  pub get_metadatum-IsExclusive :
      (g : Group M) (s : S)
      → count key g ≤ 1
      → IsExclusive g
      → IsExclusive (get_metadatum metadata parent key n g s).1
  get_metadatum-IsExclusive g s once good = keeps g s once good
