-- ===== src/ModelGroup/Delete.antt =====
-- What deleteMetadatum of PmtModelGroup.cpp keeps.
use native.Mathlib.Nat.{zero-add}
use pmt.Common.{
  ℕ, zero, suc, ◌+◌, ◌≤◌, ◌≡◌, refl, true, false, none, some, List, [], ◌∷◌, ltb, length, set,
  text_eq, arith, Option-cases, Bool-cases, inl, inr,
}
use pmt.Common.Text.{Text}
use pmt.Element
use pmt.Element.{Metadata, Element, vector, optional_or_singular}
use pmt.ModelGroup.{
  Entry, Group, Groups, Kind, group, no_more, ◌and◌, sequence, choice, check_key_from, check_key,
  is_looked_at, is_some, any_created, any_created_entry, any_created_child, delete_metadatum,
  delete_from_children,
}
use pmt.ModelGroup.Created.{one_if, created_entries, created_children, IsExclusive, AreExclusive}

module _ {M : Type 0} where
  any_created_entry-count :
      (c : ℕ) (es : List (Entry M)) → any_created_entry c none es ≡ ltb 0 (created_entries es)
  unfolding any_created_entry created_entries is_looked_at
  any_created_entry-count c [] = refl
  any_created_entry-count c ((k, e) ∷ es) = ground (arith, any_created_entry-count (c + 1) es)

  any_created_child-count :
      (c : ℕ) (gs : Groups M) → any_created_child c none gs ≡ ltb 0 (created_children gs)
  unfolding any_created_child created_children is_looked_at
  any_created_child-count c no_more = refl
  any_created_child-count c (g and gs) = ground (arith, any_created_child-count (c + 1) gs)

  any_created-count :
      (kind : Kind) (es : List (Entry M)) (gs : Groups M)
      → any_created none (group kind es gs) ≡ ltb 0 (created_entries es + created_children gs)
  unfolding any_created
  any_created-count kind es gs =
      ground (arith, any_created_entry-count 0 es, any_created_child-count (length es) gs)

  pub check_key_bound :
      (c i : ℕ) (key : Text) (es : List (Entry M)) (e : Element M)
      → check_key_from c key es ≡ some (i, e)
      → c ≤ i
  unfolding check_key_from
  check_key_bound c i key [] e h = cc h
  check_key_bound c i key ((k, x) ∷ es) e h =
      let rest = check_key_bound (c + 1) i key es e in ground (arith, h, rest)

  -- An entry with less created in it.
  created_entries-replace :
      (c i : ℕ) (key : Text) (es : List (Entry M)) (e e' : Element M)
      → check_key_from c key es ≡ some (c + i, e)
      → one_if (is_some (Element.existing 0 e')) ≤ one_if (is_some (Element.existing 0 e))
      → created_entries (set es i (key, e')) ≤ created_entries es
  unfolding check_key_from created_entries
  created_entries-replace c i key [] e e' h le = omega arith
  created_entries-replace c zero key ((k, x) ∷ es) e e' h le =
      let elsewhere = check_key_bound (c + 1) (c + 0) key es e in
      elim (Bool-cases (text_eq k key)) [
        | inr other ↦ absurd (ground (arith, h, elsewhere, other))
        | inl same ↦ let this : x ≡ e = ground (arith, h, same) in rw this (omega (arith, le))
      ]
  created_entries-replace c (suc i) key ((k, x) ∷ es) e e' h le =
      let rest = created_entries-replace (c + 1) i key es e e' in
      let shift : c + suc i ≡ c + 1 + i = omega arith in
      elim (Bool-cases (text_eq k key)) [
        | inl same ↦ absurd (ground (arith, h, same))
        | inr other ↦ omega (arith, rest (ground (arith, h, other, shift)) le)
      ]

module _ {M S : Type 0} (metadata : Metadata M S) (n : ℕ) where
  delete-existing :
      (e : Element M) (s : S)
      → one_if (is_some (Element.existing 0 (Element.delete_metadatum metadata n e s).0))
        ≤ one_if (is_some (Element.existing 0 e))
  unfolding Element.existing Element.delete_metadatum Element.delete_from_vector is_some
  delete-existing (vector d []) s = ground arith
  delete-existing (vector d (m ∷ items)) s = ground arith
  delete-existing (optional_or_singular d md) s = ground arith

  entry_shrinks :
      (key : Text) (es : List (Entry M)) (i : ℕ) (e : Element M) (s : S)
      → check_key key es ≡ some (i, e)
      → created_entries (set es i (key, (Element.delete_metadatum metadata n e s).0))
        ≤ created_entries es
  unfolding check_key
  entry_shrinks key es i e s there =
      created_entries-replace 0 i key es e _ (rw zero-add there) (delete-existing e s)

  pub delete_stops :
      (key : Text) (g : Group M) (gs : Groups M) (s : S)
      → (delete_metadatum metadata key n g s).0 ≡ true
      → (delete_from_children metadata key n (g and gs) s).1
        ≡ ((delete_metadatum metadata key n g s).1 and gs)
  unfolding delete_from_children
  delete_stops key g gs s h = ground (arith, h)

  pub delete_goes_on :
      (key : Text) (g : Group M) (gs : Groups M) (s : S)
      → (delete_metadatum metadata key n g s).0 ≡ false
      → (delete_from_children metadata key n (g and gs) s).1 ≡ (
          (delete_metadatum metadata key n g s).1
          and (delete_from_children metadata key n gs (delete_metadatum metadata key n g s).2).1)
  unfolding delete_from_children
  delete_goes_on key g gs s h = ground (arith, h)

  pub delete_dispatches :
      (key : Text) (kind : Kind) (es : List (Entry M)) (gs : Groups M) (s : S)
      → check_key key es ≡ none
      → (delete_metadatum metadata key n (group kind es gs) s).1
        ≡ group kind es (delete_from_children metadata key n gs s).1
  unfolding delete_metadatum
  delete_dispatches key kind es gs s h = ground (arith, h)

  pub delete_here :
      (key : Text) (kind : Kind) (es : List (Entry M)) (gs : Groups M) (s : S) (i : ℕ)
      (e : Element M)
      → check_key key es ≡ some (i, e)
      → (delete_metadatum metadata key n (group kind es gs) s).1
        ≡ group kind (set es i (key, (Element.delete_metadatum metadata n e s).0)) gs
  unfolding delete_metadatum
  delete_here key kind es gs s i e h = ground (arith, h)

  mutual
    unfolding created_children delete_from_children

    shrinks :
        (key : Text) (g : Group M) (s : S)
        → one_if (any_created none (delete_metadatum metadata key n g s).1)
          ≤ one_if (any_created none g)
    shrinks key (group kind es gs) s = elim (Option-cases (check_key key es)) [
      | inl away ↦
          let less = all_shrink key gs s in
          rw (delete_dispatches key kind es gs s away) (
            rw
              (
                any_created-count kind es gs,
                any_created-count kind es (delete_from_children metadata key n gs s).1,
              )
              (ground (arith, less)))
      | inr ((i, e), there) ↦
          let less = entry_shrinks key es i e s there in
          rw (delete_here key kind es gs s i e there)
            (rw (any_created-count kind es gs, any_created-count kind _ gs) (ground (arith, less)))
    ]

    all_shrink :
        (key : Text) (gs : Groups M) (s : S)
        → created_children (delete_from_children metadata key n gs s).1 ≤ created_children gs
    all_shrink key no_more s = omega arith
    all_shrink key (g and gs) s =
        let less = shrinks key g s in
        elim (Bool-cases (delete_metadatum metadata key n g s).0) [
          | inl e ↦ rw (delete_stops key g gs s e) (omega (arith, less))
          | inr e ↦
              let rest = all_shrink key gs (delete_metadatum metadata key n g s).2 in
              rw (delete_goes_on key g gs s e) (omega (arith, less, rest))
        ]

  mutual
    unfolding IsExclusive delete_from_children

    pub delete_keeps :
        (key : Text) (g : Group M) (s : S)
        → IsExclusive g
        → IsExclusive (delete_metadatum metadata key n g s).1
    delete_keeps key (group sequence es gs) s good = elim (Option-cases (check_key key es)) [
      | inl away ↦ rw (delete_dispatches key sequence es gs s away) (delete_keeps_all key gs s good)
      | inr ((i, e), there) ↦ rw (delete_here key sequence es gs s i e there) good
    ]
    delete_keeps key (group choice es gs) s (one, good) = elim (Option-cases (check_key key es)) [
      | inl away ↦
          let less = all_shrink key gs s in
          rw (delete_dispatches key choice es gs s away)
            (omega (arith, less), delete_keeps_all key gs s good)
      | inr ((i, e), there) ↦
          let less = entry_shrinks key es i e s there in
          rw (delete_here key choice es gs s i e there) (omega (arith, less), good)
    ]

    delete_keeps_all :
        (key : Text) (gs : Groups M) (s : S)
        → AreExclusive gs
        → AreExclusive (delete_from_children metadata key n gs s).1
    delete_keeps_all key no_more s good = tt
    delete_keeps_all key (g and gs) s (good, all_good) =
        let kept = delete_keeps key g s good in
        elim (Bool-cases (delete_metadatum metadata key n g s).0) [
          | inl e ↦ rw (delete_stops key g gs s e) (kept, all_good)
          | inr e ↦
              rw (delete_goes_on key g gs s e)
                (kept, delete_keeps_all key gs (delete_metadatum metadata key n g s).2 all_good)
        ]
