-- ===== src/Element/Delete.antt =====
-- What deleteMetadatum of PmtElement.cpp leaves.
use pmt.Common.{
  ℕ, zero, suc, ◌+◌, ◌-◌, ◌≤◌, ◌<◌, ◌≡◌, refl, ap, ◌∙◌, sym, some, List, [], ◌∷◌, ltb,
  if◌then◌else◌, length, get_elem?, set, pop_back, erase_at, drop, arith, get_elem?-some,
  length-set,
}
use native.Mathlib.Numerals.{add-one}
use native.Mathlib.Decide.{dec_lt}
use pmt.Element.{Metadata, collapse, delete_from_vector}

module _ {M S : Type 0} (metadata : Metadata M S) where
  -- The later instances take the numbers from `counter` on.
  unfoldable pub renumber : ℕ → List M → S → S
  renumber counter [] s = s
  renumber counter (m ∷ ms) s = renumber (counter + 1) ms (metadata.set_occurrence m counter s)

erase_at-last {ℓ} :
    {A : Type ℓ} (xs : List A) (n : ℕ) → length xs ≡ suc n → pop_back xs ≡ erase_at xs n
erase_at-last [] n h = refl
erase_at-last (x ∷ []) zero h = refl
erase_at-last (x ∷ []) (suc n) h = absurd (omega arith)
erase_at-last (x ∷ y ∷ xs) zero h = absurd (omega arith)
erase_at-last {A} (x ∷ y ∷ xs) (suc n) h =
    ap (λ (r : List A). x ∷ r) (erase_at-last (y ∷ xs) n (omega arith))

erase_at-set {ℓ} :
    {A : Type ℓ} (xs : List A) (n : ℕ) (m : A)
    → get_elem? xs (suc n) ≡ some m
    → erase_at (set xs n m) (suc n) ≡ erase_at xs n
erase_at-set [] n m h = refl
erase_at-set (x ∷ []) n m h = cc
erase_at-set (x ∷ y ∷ xs) zero m h = cc
erase_at-set {A} (x ∷ y ∷ xs) (suc n) m h = ap (λ (r : List A). x ∷ r) (erase_at-set (y ∷ xs) n m h)

drop_next {ℓ} :
    {A : Type ℓ} (xs : List A) (i : ℕ) (a : A)
    → get_elem? xs i ≡ some a
    → drop i xs ≡ a ∷ drop (suc i) xs
drop_next [] i a h = cc
drop_next (x ∷ xs) zero a h = cc
drop_next (x ∷ xs) (suc i) a h = drop_next xs i a h

drop-set {ℓ} :
    {A : Type ℓ} (xs : List A) (n k : ℕ) (m : A) → n < k → drop k (set xs n m) ≡ drop k xs
drop-set [] n k m h = refl
drop-set (x ∷ xs) n zero m h = absurd (omega arith)
drop-set (x ∷ xs) zero (suc k) m h = refl
drop-set (x ∷ xs) (suc n) (suc k) m h = drop-set xs n k m (omega arith)

drop_all {ℓ} : {A : Type ℓ} (xs : List A) (n : ℕ) → length xs ≤ n → drop n xs ≡ []
drop_all [] zero h = refl
drop_all [] (suc n) h = refl
drop_all (x ∷ xs) zero h = absurd (omega arith)
drop_all (x ∷ xs) (suc n) h = drop_all xs n (omega arith)

module _ {M S : Type 0} (metadata : Metadata M S) where
  collapse-erase_at :
      (rounds n : ℕ) (items : List M) (s : S)
      → length items ≡ suc (n + rounds)
      → (pop_back (collapse metadata rounds n items s).0 ≡ erase_at items n)
        × ((collapse metadata rounds n items s).1 ≡ renumber metadata n (drop (suc n) items) s)
  unfolding collapse renumber
  collapse-erase_at zero n items s h =
      (erase_at-last items n (omega arith), rw (drop_all items (suc n) (omega arith)))
  collapse-erase_at (suc rounds) n items s h =
      let (m, e) = get_elem?-some items (suc n) (omega arith) in
      let s' = metadata.set_occurrence m n s in
      let (erased, numbered) =
        collapse-erase_at rounds (suc n) (set items n m) s' (omega (arith, length-set items n m)) in
      let e' : get_elem? items (n + 1) ≡ some m = rw add-one e in
      rw (e', collapse, add-one)
        (
          erased ∙ erase_at-set items n m e,
          rw (drop_next items (suc n) m e) (
              numbered
              ∙ ap (λ (r : List M). renumber metadata (suc n) r s')
                  (drop-set items n (suc (suc n)) m (omega arith))
              ∙ ap (λ (k : ℕ). renumber metadata k (drop (suc (suc n)) items) s')
                  (sym (add-one n))),
        )

  collapse_past_end :
      (n : ℕ) (items : List M) (s : S)
      → length items ≤ n
      → collapse metadata (length items - 1 - n) n items s ≡ (items, s)
  unfolding collapse
  collapse_past_end n items s h =
      let none_left : length items - 1 - n ≡ 0 = omega arith in rw none_left

  -- Deleting an occurrence that is there takes it out and numbers those behind it from its number
  -- on; deleting one that is not there takes out the last and numbers nothing.
  pub delete_from_vector_lem :
      (n : ℕ) (items : List M) (s : S)
      → delete_from_vector metadata n items s ≡ (
          if ltb n (length items)
          then (erase_at items n, renumber metadata n (drop (suc n) items) s)
          else (pop_back items, s))
  unfolding delete_from_vector
  delete_from_vector_lem n [] s = ground arith
  delete_from_vector_lem zero (x ∷ []) s = unfold renumber in refl
  delete_from_vector_lem n (x ∷ items) s = elim (dec_lt n (length (x ∷ items))) [
    | yes here ↦
        let (erased, numbered) =
          collapse-erase_at (length (x ∷ items) - 1 - n) n (x ∷ items) s (omega arith) in
        ground (arith, erased, numbered)
    | no there ↦ let e = collapse_past_end n (x ∷ items) s (omega arith) in ground (arith, e)
  ]
