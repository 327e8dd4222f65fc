-- ===== src/Composite/Lookup.antt =====
-- findMetadata of PmtCompositeMetadata.cpp on a list in which one entry has the key.
use mathlib.Core.Path.{subst}
use pmt.Common.{
  ◌≤◌, ℕ, zero, suc, ◌+◌, ◌≤◌, ◌≡◌, refl, none, some, List, [], ◌∷◌, ◌++◌, ltb, if◌then◌else◌, set,
  get_elem?, erase_at, text_eq, text_eq_refl, text_eq_sound, arith, Option-cases, Bool-cases, inl,
  inr,
}
use pmt.Common.Text.{Text}
use pmt.Element
use pmt.Element.{Element, Metadata, vector, optional_or_singular}
use pmt.ModelGroup.{Entry, check_key_from}
use pmt.ModelGroup.Created.{count_entries}
use pmt.ModelGroup.Delete.{check_key_bound}
use pmt.Composite.{find_metadata}

-- What stands at `k` when the entry `n` is taken out of a sequence.
abbrev pub without {ℓ} : {A : Type ℓ} → ℕ → (ℕ → A) → ℕ → A
without n at k = if ltb k n then at k else at (suc k)

pub without-ap {ℓ} :
    {A : Type ℓ} (n k : ℕ) (f g : ℕ → A) → ((j : ℕ) → f j ≡ g j) → without n f k ≡ without n g k
without-ap n k f g same = λ i. without n (λ j. same j i) k

pub get_elem?-erase_at {ℓ} :
    {A : Type ℓ} (xs : List A) (n k : ℕ) → get_elem? (erase_at xs n) k ≡ without n (get_elem? xs) k
get_elem?-erase_at [] n k = ground arith
get_elem?-erase_at (x ∷ xs) zero k = ground arith
get_elem?-erase_at (x ∷ xs) (suc n) zero = ground arith
get_elem?-erase_at (x ∷ xs) (suc n) (suc k) =
    let rest = get_elem?-erase_at xs n k in ground (arith, rest)

module _ {M : Type 0} where
  pub find-absent :
      (key : Text) (k : ℕ) (es : List (Entry M))
      → count_entries key es ≡ 0
      → find_metadata key k es ≡ none
  unfolding count_entries find_metadata
  find-absent key k [] h = refl
  find-absent key k ((j, x) ∷ es) h = let rest = find-absent key k es in ground (arith, h, rest)

  pub find-nil : (key : Text) (k : ℕ) → find_metadata {M = M} key k [] ≡ none
  unfolding find_metadata
  find-nil key k = refl

  -- Of the one entry with the key, findMetadata gives what the element has.
  pub first-existing :
      (key : Text) (k : ℕ) (es : List (Entry M)) (e : Element M)
      → count_entries key es ≡ 0
      → find_metadata key k ((key, e) ∷ es) ≡ Element.existing k e
  unfolding find_metadata
  first-existing key k es e h =
      let rest = find-absent key k es h in
      let own = text_eq_refl key in
      elim (Option-cases (Element.existing k e)) [
        | inl absent ↦ ground (arith, rest, own, absent)
        | inr (m, there) ↦ ground (arith, rest, own, there)
      ]

  pub find-append_tail :
      (key : Text) (k : ℕ) (xs ys : List (Entry M))
      → count_entries key ys ≡ 0
      → find_metadata key k (xs ++ ys) ≡ find_metadata key k xs
  unfolding find_metadata
  find-append_tail key k [] ys h = find-absent key k ys h
  find-append_tail key k ((j, x) ∷ xs) ys h =
      let rest = find-append_tail key k xs ys h in
      elim (Option-cases (Element.existing k x)) [
        | inl absent ↦ ground (arith, rest, absent)
        | inr (m, there) ↦ ground (arith, rest, there)
      ]

  pub find-only :
      (c p : ℕ) (key : Text) (k : ℕ) (es ys : List (Entry M)) (e : Element M)
      → check_key_from c key es ≡ some (p, e)
      → count_entries key (es ++ ys) ≤ 1
      → find_metadata key k (es ++ ys) ≡ Element.existing k e
  unfolding check_key_from count_entries find_metadata
  find-only c p key k [] ys e h once = cc h
  find-only c p key k ((j, x) ∷ es) ys e h once = elim (Bool-cases (text_eq j key)) [
    | inl same ↦
        let this : x ≡ e = ground (arith, h, same) in
        let first = first-existing key k (es ++ ys) x (ground (arith, once, same)) in
        rw (text_eq_sound j key same, this)
          (unfold find_metadata in
            subst
              (λ (y : Element M).
                find_metadata key k ((key, y) ∷ (es ++ ys)) ≡ Element.existing k y)
              this first)
    | inr other ↦
        rw other (
          find-only (c + 1) p key k es ys e (ground (arith, h, other))
            (ground (arith, once, other)))
  ]

  pub find-replaced_only :
      (c i : ℕ) (key : Text) (k : ℕ) (es ys : List (Entry M)) (e e' : Element M)
      → check_key_from c key es ≡ some (c + i, e)
      → count_entries key (es ++ ys) ≤ 1
      → find_metadata key k (set es i (key, e') ++ ys) ≡ Element.existing k e'
  unfolding check_key_from count_entries find_metadata
  find-replaced_only c i key k [] ys e e' h once = cc h
  find-replaced_only c zero key k ((j, x) ∷ es) ys e e' h once =
      let elsewhere = check_key_bound (c + 1) (c + 0) key es e in
      elim (Bool-cases (text_eq j key)) [
        | inr other ↦ absurd (ground (arith, h, elsewhere, other))
        | inl same ↦ first-existing key k (es ++ ys) e' (ground (arith, once, same))
      ]
  find-replaced_only c (suc i) key k ((j, x) ∷ es) ys e e' h once =
      let shift : c + suc i ≡ c + 1 + i = omega arith in
      elim (Bool-cases (text_eq j key)) [
        | inl same ↦ absurd (ground (arith, h, same))
        | inr other ↦ rw other (
            find-replaced_only (c + 1) i key k es ys e e' (ground (arith, h, other, shift))
              (ground (arith, once, other)))
      ]
