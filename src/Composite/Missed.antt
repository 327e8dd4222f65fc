-- ===== src/Composite/Missed.antt =====
-- A search of src/PmtCore/PmtCompositeMetadata.cpp in a child composite, and the loop of the parent that
-- it stands in.
use pmt.Common.{
  ℕ, zero, suc, ◌+◌, ◌≡◌, refl, ap, ◌∙◌, Bool, true, false, Option, none, some, List, [], ◌∷◌, ◌++◌,
  length, get_elem?, get_elem?-none, if◌then◌else◌, arith,
}
use native.Mathlib.Numerals.{add-two}
use pmt.Common.Run.{Run, done}
use pmt.Common.Text.{Text}
use pmt.Occurrence
use pmt.Occurrence.{Occurrence}
use pmt.Composite.{Object, Heap, is_composite, get_metadatum_occurrence}
use pmt.Composite.Search.{
  Search, keys, occurrence_loop, for_occurrences, visit, get_metadata_all_under,
}
use pmt.Composite.Sharing.{
  Leaves, Leaves-done, IsPlain, IsUsedUp, stepped, rewound, stepped-same, for_occurrences-plain,
  for_occurrences-IsUsedUp, for_keys-some, for_keys-IsPlain,
}

module _ (prototype : Text → Option Object) (create_if_not_exists : Bool) where
  visit-IsPlain :
      (under : ℕ → Search → Run Search) (this : ℕ) (key : Text) (n : ℕ) (st : Search)
      → ((m : ℕ) (st' : Search) → IsPlain st' → Leaves IsPlain (under m st'))
      → IsPlain st
      → Leaves IsPlain (visit prototype create_if_not_exists under this key n st)
  unfolding visit Leaves
  visit-IsPlain under this key n st keeps plain =
      let made = get_metadatum_occurrence prototype this key create_if_not_exists n st.heap in
      elim made.0
        as (λ md. Leaves IsPlain (elim md [
          | none ↦ done (record st { heap = made.1 })
          | some m ↦
              if is_composite made.1 m
              then under m (record st { heap = made.1 })
              else done (record st { heap = made.1; iter = st.iter ++ m ∷ [] })
        ])) [
          | none ↦ plain
          | some m ↦
              elim (is_composite made.1 m)
                as (λ b. Leaves IsPlain (
                  if b
                  then under m (record st { heap = made.1 })
                  else done (record st { heap = made.1; iter = st.iter ++ m ∷ [] }))) [
                    | true ↦ keeps m (record st { heap = made.1 }) plain
                    | false ↦ plain
                  ]
        ]

  all_under-IsPlain :
      (fuel this : ℕ) (st : Search)
      → IsPlain st
      → Leaves IsPlain (get_metadata_all_under prototype create_if_not_exists fuel this st)
  unfolding get_metadata_all_under Leaves
  all_under-IsPlain zero this st plain = tt
  all_under-IsPlain (suc fuel) this st plain =
      for_keys-IsPlain (keys this st.heap) _ st
        (λ k st' plain'.
          for_occurrences-IsUsedUp this k _ st'
            (λ n st2. visit-IsPlain _ this k n st2 (all_under-IsPlain fuel)) plain')
        plain

  -- A search in a composite that has keys uses the object up.
  all_under-IsUsedUp :
      (fuel this : ℕ) (k : Text) (ks : List Text) (st : Search)
      → keys this st.heap ≡ k ∷ ks
      → IsPlain st
      → Leaves IsUsedUp (get_metadata_all_under prototype create_if_not_exists fuel this st)
  unfolding get_metadata_all_under
  all_under-IsUsedUp zero this k ks st filled plain = unfold Leaves in tt
  all_under-IsUsedUp (suc fuel) this k ks st filled plain = rw filled (
      for_keys-some k ks _ st
        (λ j st' plain'.
          for_occurrences-IsUsedUp this j _ st'
            (λ n st2. visit-IsPlain _ this j n st2 (all_under-IsPlain fuel)) plain')
        plain)

  visit-composite :
      (under : ℕ → Search → Run Search) (this : ℕ) (key : Text) (n m : ℕ) (heap : Heap)
      (st : Search)
      → get_metadatum_occurrence prototype this key create_if_not_exists n st.heap ≡ (some m, heap)
      → is_composite heap m ≡ true
      → visit prototype create_if_not_exists under this key n st
        ≡ under m (record st { heap = heap })
  unfolding visit
  visit-composite under this key n m heap st found composite =
      let made = ap (λ (r : Option ℕ × Heap). r.0) found in
      let left = ap (λ (r : Option ℕ × Heap). r.1) found in ground (arith, made, left, composite)

first_step :
    (st : Search) (n : ℕ) (others : List ℕ)
    → st.occurrence.is_unspecified ≡ false
    → st.occurrence.occurrences ≡ n ∷ others
    → Occurrence.next (rewound st).occurrence ≡ (some n, record st.occurrence { index = 1 })
unfolding Occurrence.next
first_step st n others listed several =
    let there : get_elem? st.occurrence.occurrences 0 ≡ some n =
      ap (λ (xs : List ℕ). get_elem? xs 0) several in
    ground (arith, listed, there)

occurrence_loop-round :
    (fuel : ℕ) (body : ℕ → Search → Run Search) (n : ℕ) (st st' : Search)
    → body n st ≡ done st'
    → occurrence_loop (suc fuel) body (some n) st
      ≡ occurrence_loop fuel body (Occurrence.next st'.occurrence).0 (stepped st')
unfolding occurrence_loop
occurrence_loop-round fuel body n st st' ran = rw ran refl

occurrence_loop-last :
    (fuel : ℕ) (body : ℕ → Search → Run Search) (n : ℕ) (st st' : Search)
    → body n st ≡ done st'
    → IsUsedUp st'
    → occurrence_loop (suc (suc fuel)) body (some n) st ≡ done st'
unfolding occurrence_loop
occurrence_loop-last fuel body n st st' ran (plain, used) =
    let absent = get_elem?-none st'.occurrence.occurrences st'.occurrence.index used in
    occurrence_loop-round (suc fuel) body n st st' ran
    ∙ ap
        (λ (r : Option ℕ × Occurrence).
          occurrence_loop (suc fuel) body r.0 (record st' { occurrence = r.1 }))
        (stepped-same st' plain absent)

module _ (prototype : Text → Option Object) (create_if_not_exists : Bool) where
  -- The loop over a list of occurrences of a key, as getMetadataAllUnder and the search for a name with
  -- `**` have it: where the first occurrence of the list is a composite that has a key and the search
  -- in it returns, the whole loop ends with what that search leaves. The instances of the other
  -- occurrences of the list are not looked at.
  pub for_occurrences-missed :
      (fuel this : ℕ) (key : Text) (n : ℕ) (others : List ℕ) (m : ℕ) (heap : Heap) (k : Text)
      (ks : List Text) (st st' : Search)
      → st.occurrence.is_unspecified ≡ false
      → st.occurrence.is_wildcard ≡ false
      → st.occurrence.occurrences ≡ n ∷ others
      → get_metadatum_occurrence prototype this key create_if_not_exists n st.heap ≡ (some m, heap)
      → is_composite heap m ≡ true
      → keys m heap ≡ k ∷ ks
      → get_metadata_all_under prototype create_if_not_exists fuel m
          (record st { occurrence = record st.occurrence { index = 1 }; heap = heap })
        ≡ done st'
      → for_occurrences this key
          (visit prototype create_if_not_exists
            (get_metadata_all_under prototype create_if_not_exists fuel)
            this
            key)
          st
        ≡ done st'
  for_occurrences-missed fuel this key n others m heap k ks st st' listed single several found
        composite filled ran =
      let first : Occurrence.next (rewound st).occurrence
          ≡ (some n, record st.occurrence { index = 1 }) =
        first_step st n others listed several in
      let under = get_metadata_all_under prototype create_if_not_exists fuel in
      let st1 : Search = record st { occurrence = record st.occurrence { index = 1 } } in
      let used = Leaves-done IsUsedUp _ st' ran (
        all_under-IsUsedUp prototype create_if_not_exists fuel m k ks (record st1 { heap = heap })
          filled (listed, single)) in
      for_occurrences-plain this key (visit prototype create_if_not_exists under this key) st
        (listed, single)
      ∙ ap
          (λ (r : Option ℕ × Occurrence).
            occurrence_loop (length st.occurrence.occurrences + 2)
              (visit prototype create_if_not_exists under this key) r.0
              (record st { occurrence = r.1 }))
          first
      ∙ (rw add-two (
          occurrence_loop-last (length st.occurrence.occurrences)
            (visit prototype create_if_not_exists under this key) n st1 st'
            (visit-composite prototype create_if_not_exists under this key n m heap st1 found
                composite
              ∙ ran)
            used))
