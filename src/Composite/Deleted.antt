-- ===== src/Composite/Deleted.antt =====
-- findMetadata of PmtCompositeMetadata.cpp behind deleteMetadatum of PmtModelGroup.cpp.
use native.Mathlib.Decide.{dec_lt}
use native.Mathlib.Nat.{zero-add}
use pmt.Common.{
  ◌∙◌, sym, ◌≤◌, ◌<◌, true, ℕ, suc, ◌+◌, ◌≤◌, ◌<◌, ◌≡◌, refl, ap, false, some, List, [], ◌∷◌, ◌++◌,
  ltb, if◌then◌else◌, set, get_elem?, text_eq, text_eq_sound, arith, Option-cases, Bool-cases, inl,
  inr,
}
use pmt.Common.Text.{Text}
use pmt.Element
use pmt.Element.{Element, Metadata, vector, optional_or_singular}
use pmt.Element.Delete.{delete_from_vector_lem}
use pmt.ModelGroup.{
  Entry, Group, Groups, group, no_more, ◌and◌, check_key_from, check_key, delete_metadatum,
  delete_from_children,
}
use pmt.ModelGroup.Created.{count, count_children, count_entries}
use pmt.Element.Create.{get_elem?-size}
use pmt.ModelGroup.Delete.{delete_goes_on, delete_stops, delete_dispatches, delete_here}
use pmt.Composite.{entries_of_all, entries, find_metadata}
use pmt.Composite.Flat.{delete-other}
use pmt.Composite.Stable.{
  count-entries, find-append_missing, count-entries_of_all, count-append, absent-count,
}
use pmt.Composite.Lookup.{
  without, without-ap, get_elem?-erase_at, find-nil, find-append_tail, find-only,
  find-replaced_only,
}

module _ {M S : Type 0} (metadata : Metadata M S) (n : ℕ) where
  delete-existing_at :
      (e : Element M) (s : S) (m : M) (k : ℕ)
      → Element.existing n e ≡ some m
      → Element.existing k (Element.delete_metadatum metadata n e s).0
        ≡ without n (λ j. Element.existing j e) k
  unfolding Element.existing Element.delete_metadatum
  delete-existing_at (vector d items) s m k h =
      let here = get_elem?-size items n m h in
      let taken =
        ap (λ (r : List M × S). get_elem? r.0 k) (delete_from_vector_lem metadata n items s) in
      let gone = get_elem?-erase_at items n k in ground (arith, here, taken, gone)
  delete-existing_at (optional_or_singular d md) s m k h = ground (arith, h)

  -- deleteMetadatum returns whether the group has the key, and changes nothing if it has not.
  mutual
    unfolding delete_metadatum delete_from_children count

    delete-false :
        (key : Text) (g : Group M) (s : S)
        → (delete_metadatum metadata key n g s).0 ≡ false
        → count key g ≡ 0
    delete-false key (group kind es gs) s h = elim (Option-cases (check_key key es)) [
      | inl away ↦
          let rest = all-delete-false key gs s (ground (arith, h, away)) in
          omega (arith, rest, absent-count key es away)
      | inr ((i, e), there) ↦ absurd (ground (arith, h, there))
    ]

    all-delete-false :
        (key : Text) (gs : Groups M) (s : S)
        → (delete_from_children metadata key n gs s).0 ≡ false
        → count_children key gs ≡ 0
    all-delete-false key no_more s h = refl
    all-delete-false key (g and gs) s h =
        elim (Bool-cases (delete_metadatum metadata key n g s).0) [
          | inl e ↦ absurd (ground (arith, h, e))
          | inr e ↦
              let first = delete-false key g s e in
              let rest =
                all-delete-false key gs (delete_metadatum metadata key n g s).2
                  (ground (arith, h, e)) in
              omega (arith, first, rest)
        ]

  check_key-some :
      (c : ℕ) (key : Text) (es : List (Entry M)) (p : ℕ) (e : Element M)
      → check_key_from c key es ≡ some (p, e)
      → 0 < count_entries key es
  unfolding check_key_from count_entries
  check_key-some c key [] p e h = cc h
  check_key-some c key ((j, x) ∷ es) p e h =
      let rest = check_key-some (c + 1) key es p e in ground (arith, h, rest)

  mutual
    unfolding delete_metadatum delete_from_children count check_key

    delete-missing :
        (key : Text) (g : Group M) (s : S)
        → count key g ≡ 0
        → delete_metadatum metadata key n g s ≡ (false, g, s)
    delete-missing key (group kind es gs) s h = elim (Option-cases (check_key_from 0 key es)) [
      | inl away ↦
          let rest = all-delete-missing key gs s (omega arith) in ground (arith, away, rest)
      | inr ((i, e), there) ↦ absurd (omega (arith, check_key-some 0 key es i e there))
    ]

    all-delete-missing :
        (key : Text) (gs : Groups M) (s : S)
        → count_children key gs ≡ 0
        → delete_from_children metadata key n gs s ≡ (false, gs, s)
    all-delete-missing key no_more s h = refl
    all-delete-missing key (g and gs) s h =
        let first = delete-missing key g s (omega arith) in
        let rest = all-delete-missing key gs s (omega arith) in ground (arith, first, rest)

  deleted-count :
      (key : Text) (g : Group M) (s : S)
      → (delete_metadatum metadata key n g s).0 ≡ true
      → 0 < count key g
  deleted-count key g s h = elim (dec_lt 0 (count key g)) [
    | yes known ↦ known
    | no absent ↦
        let same = delete-missing key g s (omega arith) in absurd (ground (arith, h, same))
  ]

module _ {M S : Type 0} (metadata : Metadata M S) (n : ℕ) (key : Text) where
  delete_here-finds :
      (es ys : List (Entry M)) (s : S) (i : ℕ) (e : Element M) (m : M) (k : ℕ)
      → check_key key es ≡ some (i, e)
      → count_entries key (es ++ ys) ≤ 1
      → find_metadata key n (es ++ ys) ≡ some m
      → find_metadata key k (set es i (key, (Element.delete_metadatum metadata n e s).0) ++ ys)
        ≡ without n (λ j. find_metadata key j (es ++ ys)) k
  unfolding check_key
  delete_here-finds es ys s i e m k there once h =
      let only : (j : ℕ) → find_metadata key j (es ++ ys) ≡ Element.existing j e =
        λ j. find-only 0 i key j es ys e there once in
      find-replaced_only 0 i key k es ys e _ (rw zero-add there) once
      ∙ delete-existing_at metadata n e s m k (sym (only n) ∙ h)
      ∙ without-ap n k _ _ (λ j. sym (only j))

  mutual
    unfolding entries count

    delete-finds :
        (g : Group M) (s : S) (m : M) (k : ℕ)
        → count key g ≤ 1
        → find_metadata key n (entries g) ≡ some m
        → find_metadata key k (entries (delete_metadatum metadata key n g s).1)
          ≡ without n (λ j. find_metadata key j (entries g)) k
    delete-finds (group kind es gs) s m k once h = elim (Option-cases (check_key key es)) [
      | inr ((i, e), there) ↦ rw (delete_here metadata n key kind es gs s i e there) (
          delete_here-finds es (entries_of_all gs) s i e m k there
            (omega (arith, count-append key es (entries_of_all gs), count-entries_of_all key gs)) h)
      | inl away ↦
          let skip : (j : ℕ) (ys : List (Entry M))
              → find_metadata key j (es ++ ys) ≡ find_metadata key j ys =
            λ j ys. find-append_missing key j es ys (absent-count key es away) in
          rw (delete_dispatches metadata n key kind es gs s away) (
            skip k _
            ∙ all-delete-finds gs s m k (omega arith) (sym (skip n _) ∙ h)
            ∙ without-ap n k _ _ (λ j. sym (skip j _)))
    ]

    all-delete-finds :
        (gs : Groups M) (s : S) (m : M) (k : ℕ)
        → count_children key gs ≤ 1
        → find_metadata key n (entries_of_all gs) ≡ some m
        → find_metadata key k (entries_of_all (delete_from_children metadata key n gs s).1)
          ≡ without n (λ j. find_metadata key j (entries_of_all gs)) k
    all-delete-finds no_more s m k once h = absurd (cc (h, find-nil {M = M} key n))
    all-delete-finds (g and gs) s m k once h =
        elim (Bool-cases (delete_metadatum metadata key n g s).0) [
          | inl e ↦
              let known = deleted-count metadata n key g s e in
              let tail : (j : ℕ) (xs : List (Entry M))
                  → find_metadata key j (xs ++ entries_of_all gs) ≡ find_metadata key j xs =
                λ j xs.
                  find-append_tail key j xs (entries_of_all gs)
                    (omega (arith, count-entries_of_all key gs)) in
              rw (delete_stops metadata n key g gs s e) (
                tail k _
                ∙ delete-finds g s m k (omega arith) (sym (tail n _) ∙ h)
                ∙ without-ap n k _ _ (λ j. sym (tail j _)))
          | inr e ↦
              let absent = delete-false metadata n key g s e in
              let same = delete-missing metadata n key g s absent in
              let skip : (j : ℕ) (ys : List (Entry M))
                  → find_metadata key j (entries g ++ ys) ≡ find_metadata key j ys =
                λ j ys.
                  find-append_missing key j (entries g) ys (omega (arith, count-entries key g)) in
              let rest = all-delete-finds gs s m k (omega arith) (sym (skip n _) ∙ h) in
              rw (delete_goes_on metadata n key g gs s e)
                (rw same (skip k _ ∙ rest ∙ without-ap n k _ _ (λ j. sym (skip j _))))
        ]

  -- Deleting an occurrence of a key that findMetadata finds takes that instance out and no other, as
  -- findMetadata sees it. For the same key, it finds below that occurrence what it found, and from it
  -- on what it found one occurrence further; for every other key, at every occurrence, it finds what it
  -- found. This is for a key that at most one entry of the tree has.
  pub delete_metadatum-find_metadata :
      (g : Group M) (s : S) (m : M) (other : Text) (k : ℕ)
      → count key g ≤ 1
      → find_metadata key n (entries g) ≡ some m
      → find_metadata other k (entries (delete_metadatum metadata key n g s).1) ≡ (
          if text_eq key other
          then (if ltb k n
              then find_metadata other k (entries g)
              else find_metadata other (suc k) (entries g))
          else find_metadata other k (entries g))
  delete_metadatum-find_metadata g s m other k once h = elim (Bool-cases (text_eq key other)) [
    | inl same ↦ rw (same, ← text_eq_sound key other same) (delete-finds g s m k once h)
    | inr apart ↦ rw apart (delete-other metadata n key other k g s apart)
  ]
