-- ===== src/Element/Numbered.antt =====
-- The occurrence numbers of a vector's instances after PmtVectorElement::deleteMetadatum.
use native.Mathlib.Numerals.{add-one}
use pmt.Common.{
  ℕ, zero, suc, ◌+◌, ◌≡◌, ◌≢◌, refl, ◌∙◌, List, [], ◌∷◌, ltb, length, erase_at, pop_back, drop,
  arith, All, Bool-cases, inl, inr,
}
use mathlib.Core.Path.{subst}
use pmt.Element.{Metadata, delete_from_vector}
use pmt.Element.Delete.{renumber, delete_from_vector_lem}

-- What an element relies on when it numbers instances: a number that is written to an instance that
-- the store holds is read, the numbers of other instances stay, and the store holds what it held.
pub record Laws {M S : Type 0} (metadata : Metadata M S) : Type 1 where
  pub occurrence_of : M → S → ℕ
  pub holds : M → S → Type 0
  pub keeps : (m m' : M) (n : ℕ) (s : S) → holds m s → holds m (metadata.set_occurrence m' n s)
  pub set_same :
      (m : M) (n : ℕ) (s : S) → holds m s → occurrence_of m (metadata.set_occurrence m n s) ≡ n
  pub set_other :
      (m m' : M) (n : ℕ) (s : S)
      → m ≢ m'
      → occurrence_of m' (metadata.set_occurrence m n s) ≡ occurrence_of m' s

-- No instance is there twice.
unfoldable pub IsDistinct : {M : Type 0} → List M → Type 0
IsDistinct [] = Unit
IsDistinct (m ∷ ms) = All (λ x. x ≢ m) ms × IsDistinct ms

module _ {M S : Type 0} (metadata : Metadata M S) (laws : Laws metadata) where
  -- The instances have the numbers from `i` on.
  unfoldable pub IsNumbered : ℕ → List M → S → Type 0
  IsNumbered i [] s = Unit
  IsNumbered i (m ∷ ms) s = (laws.occurrence_of m s ≡ i) × IsNumbered (suc i) ms s

  abbrev AreHeld : List M → S → Type 0
  AreHeld ms s = All (λ m. laws.holds m s) ms

  keeps-AreHeld :
      (x : M) (i : ℕ) (ms : List M) (s : S)
      → AreHeld ms s
      → AreHeld ms (metadata.set_occurrence x i s)
  keeps-AreHeld x i [] s held = tt
  keeps-AreHeld x i (m ∷ ms) s (one, held) = (laws.keeps m x i s one, keeps-AreHeld x i ms s held)

  renumber-other :
      (m : M) (i : ℕ) (ms : List M) (s : S)
      → All (λ x. x ≢ m) ms
      → laws.occurrence_of m (renumber metadata i ms s) ≡ laws.occurrence_of m s
  unfolding renumber
  renumber-other m i [] s others = refl
  renumber-other m i (x ∷ ms) s (other, others) =
      renumber-other m (i + 1) ms (metadata.set_occurrence x i s) others
      ∙ laws.set_other x m i s other

  renumber-IsNumbered :
      (i : ℕ) (ms : List M) (s : S)
      → AreHeld ms s
      → IsDistinct ms
      → IsNumbered i ms (renumber metadata i ms s)
  unfolding renumber IsDistinct IsNumbered
  renumber-IsNumbered i [] s held distinct = tt
  renumber-IsNumbered i (m ∷ ms) s (one, held) (others, distinct) =
      let s' = metadata.set_occurrence m i s in
      (
        renumber-other m (i + 1) ms s' others ∙ laws.set_same m i s one,
        rw (← add-one i) (renumber-IsNumbered (i + 1) ms s' (keeps-AreHeld m i ms s held) distinct),
      )

  All-drop : (m : M) (k : ℕ) (ms : List M) → All (λ x. x ≢ m) ms → All (λ x. x ≢ m) (drop k ms)
  All-drop m zero ms others = others
  All-drop m (suc k) [] others = tt
  All-drop m (suc k) (x ∷ ms) (other, others) = All-drop m k ms others

  erase_at-IsNumbered :
      (i n : ℕ) (ms : List M) (s : S)
      → AreHeld ms s
      → IsNumbered i ms s
      → IsDistinct ms
      → IsNumbered i (erase_at ms n) (renumber metadata (i + n) (drop (suc n) ms) s)
  unfolding IsNumbered IsDistinct renumber
  erase_at-IsNumbered i n [] s held numbered distinct = tt
  erase_at-IsNumbered i zero (m ∷ ms) s (one, held) numbered (others, distinct) =
      subst (λ (j : ℕ). IsNumbered i ms (renumber metadata j ms s)) (omega arith)
        (renumber-IsNumbered i ms s held distinct)
  erase_at-IsNumbered i (suc n) (m ∷ ms) s (one, held) (first, numbered) (others, distinct) =
      let j : suc i + n ≡ i + suc n = omega arith in
      (
        renumber-other m (i + suc n) (drop (suc n) ms) s (All-drop m (suc n) ms others) ∙ first,
        subst
            (λ (k : ℕ).
              IsNumbered (suc i) (erase_at ms n) (renumber metadata k (drop (suc n) ms) s))
            j (erase_at-IsNumbered (suc i) n ms s held numbered distinct),
      )

  pop_back-IsNumbered :
      (i : ℕ) (ms : List M) (s : S) → IsNumbered i ms s → IsNumbered i (pop_back ms) s
  unfolding IsNumbered
  pop_back-IsNumbered i [] s numbered = tt
  pop_back-IsNumbered i (m ∷ []) s numbered = tt
  pop_back-IsNumbered i (m ∷ x ∷ ms) s (first, numbered) =
      (first, pop_back-IsNumbered (suc i) (x ∷ ms) s numbered)

  All-erase_at :
      (m : M) (n : ℕ) (ms : List M) → All (λ x. x ≢ m) ms → All (λ x. x ≢ m) (erase_at ms n)
  All-erase_at m n [] others = tt
  All-erase_at m zero (x ∷ ms) (other, others) = others
  All-erase_at m (suc n) (x ∷ ms) (other, others) = (other, All-erase_at m n ms others)

  erase_at-IsDistinct : (n : ℕ) (ms : List M) → IsDistinct ms → IsDistinct (erase_at ms n)
  unfolding IsDistinct
  erase_at-IsDistinct n [] distinct = tt
  erase_at-IsDistinct zero (m ∷ ms) (others, distinct) = distinct
  erase_at-IsDistinct (suc n) (m ∷ ms) (others, distinct) =
      (All-erase_at m n ms others, erase_at-IsDistinct n ms distinct)

  All-pop_back : (m : M) (ms : List M) → All (λ x. x ≢ m) ms → All (λ x. x ≢ m) (pop_back ms)
  All-pop_back m [] others = tt
  All-pop_back m (x ∷ []) others = tt
  All-pop_back m (x ∷ y ∷ ms) (other, others) = (other, All-pop_back m (y ∷ ms) others)

  pop_back-IsDistinct : (ms : List M) → IsDistinct ms → IsDistinct (pop_back ms)
  unfolding IsDistinct
  pop_back-IsDistinct [] distinct = tt
  pop_back-IsDistinct (m ∷ []) distinct = tt
  pop_back-IsDistinct (m ∷ x ∷ ms) (others, distinct) =
      (All-pop_back m (x ∷ ms) others, pop_back-IsDistinct (x ∷ ms) distinct)

  -- If a number that is written to an instance that the store holds is read from it and changes no
  -- other, then deleting from a vector whose instances the store holds and have their places as
  -- occurrence numbers, and none of which is there twice, leaves such a vector, whatever occurrence is
  -- asked for.
  pub delete_from_vector-IsNumbered :
      (n : ℕ) (items : List M) (s : S)
      → All (λ m. laws.holds m s) items
      → IsNumbered 0 items s
      → IsDistinct items
      → IsNumbered 0
          (delete_from_vector metadata n items s).0
          (delete_from_vector metadata n items s).1
        × IsDistinct (delete_from_vector metadata n items s).0
  delete_from_vector-IsNumbered n items s held numbered distinct =
      elim (Bool-cases (ltb n (length items))) [
        | inl here ↦
            let erased = erase_at-IsNumbered 0 n items s held numbered distinct in
            rw (delete_from_vector_lem metadata n items s, here)
              (
                subst
                    (λ (j : ℕ).
                      IsNumbered 0 (erase_at items n) (renumber metadata j (drop (suc n) items) s))
                    (omega arith) erased,
                erase_at-IsDistinct n items distinct,
              )
        | inr beyond ↦
            rw (delete_from_vector_lem metadata n items s, beyond)
              (pop_back-IsNumbered 0 items s numbered, pop_back-IsDistinct items distinct)
      ]
