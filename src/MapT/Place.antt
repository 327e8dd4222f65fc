-- ===== src/MapT/Place.antt =====
-- The iterator that insert of EkMapT.h returns.
use pmt.Common.{
  false, ◌⊎◌, ℕ, zero, suc, ◌-◌, ◌≡◌, refl, ap, true, some, List, [], ◌∷◌, text_eq_sound, arith,
  Bool-cases, inl, inr, get_elem?,
}
use pmt.Common.Text.{Text}
use pmt.Aliases.{text_ltb}
use pmt.MapT.{upper_bound, insert_at, is_just_before, insert}

module _ {V : Type 0} where
  is_just_before-get_suc :
      (n : ℕ) (k : Text) (m : List (Text × V))
      → is_just_before (suc n) k m ≡ true
      → (x : V) × (get_elem? m n ≡ some (k, x))
  unfolding is_just_before
  is_just_before-get_suc n k [] h = absurd (ground (arith, h))
  is_just_before-get_suc zero k ((j, x) ∷ m) h = (x, ap (λ i. some (i, x)) (text_eq_sound j k h))
  is_just_before-get_suc (suc n) k ((j, x) ∷ m) h = is_just_before-get_suc n k m h

  is_just_before-get_elem? :
      (n : ℕ) (k : Text) (m : List (Text × V))
      → is_just_before n k m ≡ true
      → (x : V) × (get_elem? m (n - 1) ≡ some (k, x))
  unfolding is_just_before
  is_just_before-get_elem? zero k m h = absurd (ground (arith, h))
  is_just_before-get_elem? (suc n) k m h =
      let less_one : suc n - 1 ≡ n = omega arith in rw less_one (is_just_before-get_suc n k m h)

  insert_at-get_elem? :
      (k : Text) (v : V) (m : List (Text × V))
      → get_elem? (insert_at (upper_bound k m) (k, v) m) (upper_bound k m) ≡ some (k, v)
  unfolding insert_at upper_bound
  insert_at-get_elem? k v [] = refl
  insert_at-get_elem? k v ((j, x) ∷ m) = elim (Bool-cases (text_ltb k j)) [
    | inl less ↦ rw less refl
    | inr not_less ↦ rw not_less (insert_at-get_elem? k v m)
  ]

  -- After insert, an entry with the key stands at the place that it returns. That is the entry
  -- inserted if it is reported as new, and otherwise one that was there, in the map as it was.
  pub insert-get_elem? :
      (key : Text) (value : V) (m : List (Text × V))
      → (x : V) × (get_elem? (insert key value m).1 (insert key value m).0.0 ≡ some (key, x))
        × ((((insert key value m).0.1 ≡ true) × (x ≡ value))
            ⊎ (((insert key value m).0.1 ≡ false) × ((insert key value m).1 ≡ m)))
  unfolding insert
  insert-get_elem? key value m =
      let s = upper_bound key m in
      elim (Bool-cases (is_just_before s key m)) [
        | inl there ↦
            let (x, at) = is_just_before-get_elem? s key m there in
            (x, rw there at, rw there (inr (refl, refl)))
        | inr absent ↦
            (value, rw absent (insert_at-get_elem? key value m), rw absent (inl (refl, refl)))
      ]
