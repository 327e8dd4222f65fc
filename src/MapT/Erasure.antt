-- ===== src/MapT/Erasure.antt =====
-- erase of EkMapT.h and the erasure from a map of the standard library.
use pmt.Common.{
  ◌≡◌, refl, true, false, List, [], ◌∷◌, text_eq, text_eq_sound, arith, Bool-cases, inl, inr, All,
}
use pmt.Common.Text.{Text}
use pmt.Aliases.{text_ltb}
use pmt.Aliases.Order.{text_ltb_trans, text_ltb_total}
use pmt.Aliases.Insert.{text_eq_other}
use pmt.Factory.{remove_entry}
use pmt.MapT.{lower_bound, upper_bound, erase}
use pmt.MapT.Insertion.{text_ltb_irrefl, less-differs, IsRising, All-less, upper_bound-first}

pub not-less-back : (s t : Text) → text_ltb s t ≡ true → text_ltb t s ≡ false
not-less-back s t less = elim (Bool-cases (text_ltb t s)) [
  | inr not_less ↦ not_less
  | inl back ↦ absurd (ground (arith, text_ltb_trans s t s less back, text_ltb_irrefl s))
]

module _ {V : Type 0} where
  remove_entry-less :
      (k : Text) (m : List (Text × V))
      → All (λ x. text_ltb k x.0 ≡ true) m
      → remove_entry k m ≡ (false, m)
  unfolding remove_entry
  remove_entry-less k [] all = refl
  remove_entry-less k ((j, v) ∷ m) (kj, all) =
      rw (less-differs k j kj, remove_entry-less k m all) refl

  -- On a list of entries whose keys rise, erase of a key does what the erasure of `std::map` does,
  -- and reports whether there was an entry.
  pub erase-remove_entry :
      (key : Text) (m : List (Text × V)) → IsRising m → erase key m ≡ remove_entry key m
  unfolding erase lower_bound upper_bound remove_entry IsRising
  erase-remove_entry key [] rising = refl
  erase-remove_entry key ((j, v) ∷ m) (behind, rising) =
      let ih = erase-remove_entry key m rising in
      elim (Bool-cases (text_ltb key j)) [
        | inl less ↦
            rw
              (
                less,
                less-differs key j less,
                not-less-back key j less,
                remove_entry-less key m (All-less key j m less behind),
              )
              refl
        | inr not_less ↦ elim (Bool-cases (text_eq j key)) [
          | inl same ↦
              let equal = text_eq_sound j key same in
              let behind_key : All (λ x. text_ltb key x.0 ≡ true) m = rw (← equal) behind in
              let not_below : text_ltb j key ≡ false = rw equal (text_ltb_irrefl key) in
              rw
                (
                  not_below,
                  not_less,
                  upper_bound-first key m behind_key,
                  same,
                  remove_entry-less key m behind_key,
                )
                refl
          | inr other ↦
              let below = text_ltb_total key j not_less (text_eq_other j key other) in
              ground (arith, below, not_less, other, ih)
        ]
      ]
