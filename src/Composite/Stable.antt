-- ===== src/Composite/Stable.antt =====
-- findMetadata of PmtCompositeMetadata.cpp behind getMetadatum of PmtModelGroup.cpp.
use native.Mathlib.Nat.{zero-add}
use mathlib.Core.Path.{subst}
use pmt.Common.{
  ℕ, zero, suc, ◌+◌, ◌≤◌, ◌<◌, ◌≡◌, refl, ◌∙◌, true, Option, none, some, List, [], ◌∷◌, ◌++◌, set,
  text_eq, text_eq_refl, arith, Option-cases, Bool-cases, inl, inr,
}
use native.Mathlib.Decide.{dec_lt}
use pmt.Common.Text.{Text}
use pmt.Element
use pmt.Element.{Element, Metadata, vector, optional_or_singular}
use pmt.Element.Create.{get_from_vector-Gives}
use pmt.ModelGroup.{
  Entry, Group, Groups, group, no_more, ◌and◌, check_key_from, check_key, ok_to_create,
  get_metadatum, get_from_children,
}
use pmt.ModelGroup.Unchanged.{get_metadatum-missing, get_from_children-missing}
use pmt.ModelGroup.Created.{
  count, count_children, count_entries, get_item_index-count, child_index-count,
}
use pmt.ModelGroup.Choice.{loop_stops, loop_goes_on}
use pmt.Composite.{find_metadata, entries, entries_of_all}

module _ {M : Type 0} where
  find-append_found :
      (key : Text) (n : ℕ) (xs ys : List (Entry M)) (m : M)
      → find_metadata key n xs ≡ some m
      → find_metadata key n (xs ++ ys) ≡ some m
  unfolding find_metadata
  find-append_found key n [] ys m h = cc h
  find-append_found key n ((k, e) ∷ xs) ys m h =
      let rest = find-append_found key n xs ys m in
      elim (Option-cases (Element.existing n e)) [
        | inl absent ↦ ground (arith, h, rest, absent)
        | inr (m', there) ↦ ground (arith, h, rest, there)
      ]

  pub find-append_missing :
      (key : Text) (n : ℕ) (xs ys : List (Entry M))
      → count_entries key xs ≡ 0
      → find_metadata key n (xs ++ ys) ≡ find_metadata key n ys
  unfolding find_metadata count_entries
  find-append_missing key n [] ys h = refl
  find-append_missing key n ((k, e) ∷ xs) ys h =
      let rest = find-append_missing key n xs ys in ground (arith, h, rest)

  pub count-append :
      (key : Text) (xs ys : List (Entry M))
      → count_entries key (xs ++ ys) ≡ count_entries key xs + count_entries key ys
  unfolding count_entries
  count-append key [] ys = omega arith
  count-append key ((k, e) ∷ xs) ys = omega (arith, count-append key xs ys)

  mutual
    unfolding count entries count_entries

    pub count-entries : (key : Text) (g : Group M) → count_entries key (entries g) ≡ count key g
    count-entries key (group kind es gs) =
        omega (arith, count-append key es (entries_of_all gs), count-entries_of_all key gs)

    pub count-entries_of_all :
        (key : Text) (gs : Groups M) → count_entries key (entries_of_all gs) ≡ count_children key gs
    count-entries_of_all key no_more = refl
    count-entries_of_all key (g and gs) = omega (
      arith,
      count-append key (entries g) (entries_of_all gs),
      count-entries key g,
      count-entries_of_all key gs,
    )

  check_key-count :
      (c : ℕ) (key : Text) (es : List (Entry M))
      → check_key_from c key es ≡ none
      → count_entries key es ≡ 0
  unfolding check_key_from count_entries
  check_key-count c key [] h = refl
  check_key-count c key ((k, e) ∷ es) h =
      let rest = check_key-count (c + 1) key es in ground (arith, h, rest)

  -- An entry put where checkKey found the key is what findMetadata meets.
  find-set :
      (c i : ℕ) (key : Text) (n : ℕ) (es ys : List (Entry M)) (e e' : Element M) (m : M)
      → check_key_from c key es ≡ some (c + i, e)
      → Element.existing n e' ≡ some m
      → find_metadata key n (set es i (key, e') ++ ys) ≡ some m
  unfolding check_key_from find_metadata
  find-set c i key n [] ys e e' m h there = cc h
  find-set c zero key n ((k, x) ∷ es) ys e e' m h there = rw (text_eq_refl key, there) refl
  find-set c (suc i) key n ((k, x) ∷ es) ys e e' m h there =
      let rest = find-set (c + 1) i key n es ys e e' m in
      let shift : c + suc i ≡ c + 1 + i = omega arith in
      elim (Bool-cases (text_eq k key)) [
        | inl same ↦ absurd (ground (arith, h, same))
        | inr other ↦ rw other (rest (ground (arith, h, other, shift)) there)
      ]

  pub absent-count :
      (key : Text) (es : List (Entry M)) → check_key key es ≡ none → count_entries key es ≡ 0
  unfolding check_key
  absent-count key es h = check_key-count 0 key es h

  find-replaced :
      (key : Text) (n : ℕ) (es ys : List (Entry M)) (i : ℕ) (e e' : Element M) (m : M)
      → check_key key es ≡ some (i, e)
      → Element.existing n e' ≡ some m
      → find_metadata key n (set es i (key, e') ++ ys) ≡ some m
  unfolding check_key
  find-replaced key n es ys i e e' m h there = find-set 0 i key n es ys e e' m (rw zero-add h) there

module _ {M S : Type 0} (metadata : Metadata M S) (parent : M) where
  -- Children that make something have the key.
  made-count :
      (key : Text) (n : ℕ) (gs : Groups M) (s : S) (m : M)
      → (get_from_children metadata parent key n gs s).0 ≡ some m
      → 0 < count_children key gs
  made-count key n gs s m h = elim (dec_lt 0 (count_children key gs)) [
    | yes known ↦ known
    | no absent ↦
        let same =
          get_from_children-missing metadata parent key n 0 gs s
            (child_index-count 0 key gs (omega arith)) in
        absurd (ground (arith, h, same))
  ]

  pub get-existing :
      (n : ℕ) (e : Element M) (s : S) (m : M)
      → (Element.get_metadatum metadata parent n true e s).0 ≡ some m
      → Element.existing n (Element.get_metadatum metadata parent n true e s).1 ≡ some m
  unfolding Element.get_metadatum Element.existing
  get-existing n (vector d items) s m h =
      (get_from_vector-Gives metadata parent d n true items s).found m h
  get-existing n (optional_or_singular d md) s m h = ground (arith, h)

  mutual
    unfolding entries get_metadatum get_from_children count

    get-finds :
        (key : Text) (n : ℕ) (g : Group M) (s : S) (m : M)
        → count key g ≤ 1
        → (get_metadatum metadata parent key n g s).0 ≡ some m
        → find_metadata key n (entries (get_metadatum metadata parent key n g s).1) ≡ some m
    get-finds key n (group kind es gs) s m once h =
        elim (Bool-cases (ok_to_create key (group kind es gs))) [
          | inr refused ↦ absurd (ground (arith, h, refused))
          | inl ok ↦ elim (Option-cases (check_key key es)) [
            | inl away ↦
                let made : (get_from_children metadata parent key n gs s).0 ≡ some m =
                  ground (arith, h, ok, away) in
                rw (ok, away)
                  (find-append_missing key n es _ (absent-count key es away)
                    ∙ all-find key n gs s m (omega arith) made)
            | inr ((i, e), there) ↦
                let made : (Element.get_metadatum metadata parent n true e s).0 ≡ some m =
                  ground (arith, h, ok, there) in
                rw (ok, there) (find-replaced key n es _ i e _ m there (get-existing n e s m made))
          ]
        ]

    all-find :
        (key : Text) (n : ℕ) (gs : Groups M) (s : S) (m : M)
        → count_children key gs ≤ 1
        → (get_from_children metadata parent key n gs s).0 ≡ some m
        → find_metadata key n (entries_of_all (get_from_children metadata parent key n gs s).1)
          ≡ some m
    all-find key n no_more s m once h = cc h
    all-find key n (g and gs) s m once h =
        elim (Option-cases (get_metadatum metadata parent key n g s).0) [
          | inr (m', e) ↦
              let made : (get_metadatum metadata parent key n g s).0 ≡ some m =
                ground (arith, h, e) in
              rw (loop_stops metadata parent key n g gs s m' e)
                (find-append_found key n _ _ m (get-finds key n g s m (omega arith) made))
          | inl e ↦
              let s' = (get_metadatum metadata parent key n g s).2 in
              let made : (get_from_children metadata parent key n gs s').0 ≡ some m =
                ground (arith, h, e) in
              let known = made-count key n gs s' m made in
              let same =
                get_metadatum-missing metadata parent key n g s
                  (get_item_index-count key g (omega arith)) in
              rw (loop_goes_on metadata parent key n g gs s e) (
                rw same (
                  find-append_missing key n (entries g) _ (omega (arith, count-entries key g))
                  ∙ subst
                      (λ (r : Option M × Group M × S).
                        find_metadata key n
                          (entries_of_all (get_from_children metadata parent key n gs r.2).1)
                        ≡ some m)
                      same (all-find key n gs s' m (omega arith) made)))
        ]

  -- An instance that getMetadatum of a group returns is what findMetadata of the composite finds
  -- afterwards under the same key and occurrence. This is for a key that at most one entry of the
  -- tree has.
  pub get_metadatum-find_metadata :
      (key : Text) (n : ℕ) (g : Group M) (s : S) (m : M)
      → count key g ≤ 1
      → (get_metadatum metadata parent key n g s).0 ≡ some m
      → find_metadata key n (entries (get_metadatum metadata parent key n g s).1) ≡ some m
  get_metadatum-find_metadata key n g s m once h = get-finds key n g s m once h
