-- ===== src/Composite/Flat.antt =====
-- deleteMetadatum of PmtModelGroup.cpp on the list of keys that findMetadata of
-- PmtCompositeMetadata.cpp searches.
use pmt.Common.{
  ℕ, zero, suc, ◌+◌, ◌≡◌, refl, ap, sym, ◌∙◌, Bool, true, false, none, some, List, [], ◌∷◌, ◌++◌,
  set, if◌then◌else◌, text_eq, text_eq_sound, arith, Option-cases, Bool-cases, inl, inr,
}
use native.Mathlib.Nat.{zero-add}
use pmt.Common.Text.{Text}
use pmt.Element
use pmt.Element.{Metadata, Element}
use pmt.ModelGroup.{
  Entry, Group, Groups, group, no_more, ◌and◌, check_key_from, check_key, delete_metadatum,
  delete_from_children,
}
use pmt.ModelGroup.Delete.{check_key_bound}
use pmt.Composite.{entries, entries_of_all, find_metadata}

module _ {M S : Type 0} (metadata : Metadata M S) (n : ℕ) (key : Text) where
  -- Deletes from the first entry with the key, and from no other; whether there is one.
  unfoldable pub delete_first : List (Entry M) → S → Bool × List (Entry M) × S
  delete_first [] s = (false, [], s)
  delete_first ((k, e) ∷ es) s =
      let (known, es', s1) = delete_first es s in
      let (e', s2) = Element.delete_metadatum metadata n e s in
      if text_eq k key then (true, (k, e') ∷ es, s2) else (known, (k, e) ∷ es', s1)

  first-nil : (s : S) → delete_first [] s ≡ (false, [], s)
  unfolding delete_first
  first-nil s = refl

  first-unchanged :
      (es : List (Entry M)) (s : S)
      → (delete_first es s).0 ≡ false
      → delete_first es s ≡ (false, es, s)
  unfolding delete_first
  first-unchanged [] s h = refl
  first-unchanged ((k, e) ∷ es) s h = elim (Bool-cases (text_eq k key)) [
    | inl same ↦ absurd (ground (arith, h, same))
    | inr other ↦
        let rest = first-unchanged es s (ground (arith, h, other)) in ground (arith, rest, other)
  ]

  first-append_known :
      (xs ys : List (Entry M)) (s : S)
      → (delete_first xs s).0 ≡ true
      → delete_first (xs ++ ys) s ≡ (true, (delete_first xs s).1 ++ ys, (delete_first xs s).2)
  unfolding delete_first
  first-append_known [] ys s h = absurd (ground (arith, h))
  first-append_known ((k, e) ∷ xs) ys s h = elim (Bool-cases (text_eq k key)) [
    | inl same ↦ ground (arith, same)
    | inr other ↦
        let rest = first-append_known xs ys s (ground (arith, h, other)) in
        ground (arith, rest, other)
  ]

  first-append_missing :
      (xs ys : List (Entry M)) (s : S)
      → (delete_first xs s).0 ≡ false
      → delete_first (xs ++ ys) s
        ≡ ((delete_first ys s).0, xs ++ (delete_first ys s).1, (delete_first ys s).2)
  unfolding delete_first
  first-append_missing [] ys s h = refl
  first-append_missing ((k, e) ∷ xs) ys s h = elim (Bool-cases (text_eq k key)) [
    | inl same ↦ absurd (ground (arith, h, same))
    | inr other ↦
        let rest = first-append_missing xs ys s (ground (arith, h, other)) in
        ground (arith, rest, other)
  ]

  first-away :
      (c : ℕ) (es : List (Entry M)) (s : S)
      → check_key_from c key es ≡ none
      → (delete_first es s).0 ≡ false
  unfolding delete_first check_key_from
  first-away c [] s h = refl
  first-away c ((k, e) ∷ es) s h = elim (Bool-cases (text_eq k key)) [
    | inl same ↦ absurd (ground (arith, h, same))
    | inr other ↦
        let rest = first-away (c + 1) es s (ground (arith, h, other)) in ground (arith, rest, other)
  ]

  first-there :
      (c i : ℕ) (es : List (Entry M)) (e : Element M) (s : S)
      → check_key_from c key es ≡ some (c + i, e)
      → delete_first es s ≡ (
        true,
        set es i (key, (Element.delete_metadatum metadata n e s).0),
        (Element.delete_metadatum metadata n e s).1,
      )
  unfolding delete_first check_key_from
  first-there c i [] e s h = cc h
  first-there c zero ((k, x) ∷ es) e s h =
      let elsewhere = check_key_bound (c + 1) (c + 0) key es e in
      elim (Bool-cases (text_eq k key)) [
        | inr other ↦ absurd (ground (arith, h, elsewhere, other))
        | inl same ↦
            let this : x ≡ e = ground (arith, h, same) in
            let own = text_eq_sound k key same in ground (arith, same, this, own)
      ]
  first-there c (suc i) ((k, x) ∷ es) e s h =
      let shift : c + suc i ≡ c + 1 + i = omega arith in
      elim (Bool-cases (text_eq k key)) [
        | inl same ↦ absurd (ground (arith, h, same))
        | inr other ↦
            let rest = first-there (c + 1) i es e s (ground (arith, h, other, shift)) in
            ground (arith, rest, other)
      ]

  mutual
    unfolding entries delete_metadatum delete_from_children check_key

    delete-flat :
        (g : Group M) (s : S)
        → (
          (delete_metadatum metadata key n g s).0,
          entries (delete_metadatum metadata key n g s).1,
          (delete_metadatum metadata key n g s).2,
        )
          ≡ delete_first (entries g) s
    delete-flat (group kind es gs) s = elim (Option-cases (check_key_from 0 key es)) [
      | inl away ↦
          let rest = all-delete-flat gs s in
          let skip = first-append_missing es (entries_of_all gs) s (first-away 0 es s away) in
          ground (arith, away, rest, skip)
      | inr ((i, e), there) ↦
          let here = first-there 0 i es e s (rw zero-add there) in
          let kept = first-append_known es (entries_of_all gs) s (ap (λ r. r.0) here) in
          ground (arith, there, here, kept)
    ]

    all-delete-flat :
        (gs : Groups M) (s : S)
        → (
          (delete_from_children metadata key n gs s).0,
          entries_of_all (delete_from_children metadata key n gs s).1,
          (delete_from_children metadata key n gs s).2,
        )
          ≡ delete_first (entries_of_all gs) s
    all-delete-flat no_more s = sym (first-nil s)
    all-delete-flat (g and gs) s =
        let first = delete-flat g s in
        elim (Bool-cases (delete_metadatum metadata key n g s).0) [
          | inl e ↦
              let known : (delete_first (entries g) s).0 ≡ true = ground (arith, e, first) in
              let kept = first-append_known (entries g) (entries_of_all gs) s known in
              ground (arith, e, first, kept)
          | inr e ↦
              let missing : (delete_first (entries g) s).0 ≡ false = ground (arith, e, first) in
              let same = first-unchanged (entries g) s missing in
              let store : (delete_metadatum metadata key n g s).2 ≡ s =
                ground (arith, first, same) in
              let rest = all-delete-flat gs s in
              let skip = first-append_missing (entries g) (entries_of_all gs) s missing in
              rw store ground (arith, e, first, same, rest, skip)
        ]

  -- The entries of the other keys.
  first-other :
      (other : Text) (k : ℕ) (es : List (Entry M)) (s : S)
      → text_eq key other ≡ false
      → find_metadata other k (delete_first es s).1 ≡ find_metadata other k es
  unfolding delete_first find_metadata
  first-other other k [] s h = refl
  first-other other k ((j, e) ∷ es) s h =
      let rest = first-other other k es s h in
      elim (Bool-cases (text_eq j key)) [
        | inl same ↦
            let also : text_eq j other ≡ false =
              ap (λ (t : Text). text_eq t other) (text_eq_sound j key same) ∙ h in
            ground (arith, same, also)
        | inr apart ↦ ground (arith, rest, apart)
      ]

  pub delete-other :
      (other : Text) (k : ℕ) (g : Group M) (s : S)
      → text_eq key other ≡ false
      → find_metadata other k (entries (delete_metadatum metadata key n g s).1)
        ≡ find_metadata other k (entries g)
  delete-other other k g s h =
      ap (λ (r : Bool × List (Entry M) × S). find_metadata other k r.1) (delete-flat g s)
      ∙ first-other other k (entries g) s h
