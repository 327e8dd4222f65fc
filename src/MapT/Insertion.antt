-- ===== src/MapT/Insertion.antt =====
-- insert of EkMapT.h and the insertion into a map of the standard library.
use pmt.Common.{
  is_found, ℕ, zero, suc, suc, ℕ, ◌≡◌, refl, ap, true, false, none, List, [], ◌∷◌, text_eq,
  text_eq_sound, arith, Option-cases, Bool-cases, inl, inr, All,
}
use pmt.Common.Text.{Text}
use pmt.Aliases.{text_ltb}
use pmt.Aliases.Order.{text_ltb_trans, text_ltb_total}
use pmt.Aliases.Insert.{text_eq_other}
use pmt.Factory.{find_item, insert_item, add_entry}
use pmt.MapT.{upper_bound, insert_at, is_just_before, insert}

pub text_ltb_irrefl : (s : Text) → text_ltb s s ≡ false
unfolding text_ltb
text_ltb_irrefl [] = refl
text_ltb_irrefl (c ∷ s) = let rest = text_ltb_irrefl s in ground (arith, rest)

pub less-differs : (s t : Text) → text_ltb s t ≡ true → text_eq t s ≡ false
less-differs s t less = elim (Bool-cases (text_eq t s)) [
  | inr other ↦ other
  | inl same ↦
      absurd (ground (arith, less, text_ltb_irrefl s, ap (text_ltb s) (text_eq_sound t s same)))
]

module _ {V : Type 0} where
  -- The keys rise.
  unfoldable pub IsRising : List (Text × V) → Type 0
  IsRising [] = Unit
  IsRising ((k, v) ∷ m) = All (λ x. text_ltb k x.0 ≡ true) m × IsRising m

  pub All-less :
      (s t : Text) (m : List (Text × V))
      → text_ltb s t ≡ true
      → All (λ x. text_ltb t x.0 ≡ true) m
      → All (λ x. text_ltb s x.0 ≡ true) m
  All-less s t [] st all = tt
  All-less s t (e ∷ m) st (te, all) = (text_ltb_trans s t e.0 st te, All-less s t m st all)

  pub upper_bound-first :
      (k : Text) (m : List (Text × V)) → All (λ x. text_ltb k x.0 ≡ true) m → upper_bound k m ≡ 0
  unfolding upper_bound
  upper_bound-first k [] all = refl
  upper_bound-first k ((j, v) ∷ m) (kj, all) = rw kj refl

  pub find_item-less :
      (k : Text) (m : List (Text × V)) → All (λ x. text_ltb k x.0 ≡ true) m → find_item k m ≡ none
  unfolding find_item
  find_item-less k [] all = refl
  find_item-less k ((j, v) ∷ m) (kj, all) = rw (less-differs k j kj) (find_item-less k m all)

  is_just_before-other :
      (n : ℕ) (k j : Text) (v : V) (m : List (Text × V))
      → text_eq j k ≡ false
      → is_just_before (suc n) k ((j, v) ∷ m) ≡ is_just_before n k m
  unfolding is_just_before
  is_just_before-other zero k j v m other = other
  is_just_before-other (suc n) k j v m other = refl

  is_just_before-find_item :
      (k : Text) (m : List (Text × V))
      → IsRising m
      → is_just_before (upper_bound k m) k m ≡ is_found (find_item k m)
  unfolding is_just_before upper_bound find_item IsRising
  is_just_before-find_item k [] rising = refl
  is_just_before-find_item k ((j, v) ∷ m) (behind, rising) =
      let ih = is_just_before-find_item k m rising in
      elim (Bool-cases (text_ltb k j)) [
        | inl less ↦
            let none_there = find_item-less k m (All-less k j m less behind) in
            rw (less, less-differs k j less, none_there) refl
        | inr not_less ↦ elim (Bool-cases (text_eq j k)) [
          | inl same ↦
              rw
                (not_less, same, upper_bound-first k m (rw (← text_eq_sound j k same) behind), same)
                refl
          | inr other ↦
              rw (not_less, other, is_just_before-other (upper_bound k m) k j v m other, ih) refl
        ]
      ]

  insert_at-insert_item :
      (k : Text) (v : V) (m : List (Text × V))
      → insert_at (upper_bound k m) (k, v) m ≡ insert_item k v m
  unfolding insert_at upper_bound insert_item
  insert_at-insert_item k v [] = refl
  insert_at-insert_item k v ((j, x) ∷ m) =
      let ih = insert_at-insert_item k v m in ground (arith, ih)

  All-insert_item :
      (s k : Text) (v : V) (m : List (Text × V))
      → text_ltb s k ≡ true
      → All (λ x. text_ltb s x.0 ≡ true) m
      → All (λ x. text_ltb s x.0 ≡ true) (insert_item k v m)
  unfolding insert_item
  All-insert_item s k v [] sk all = (sk, tt)
  All-insert_item s k v ((j, x) ∷ m) sk (sj, all) = elim (Bool-cases (text_ltb k j)) [
    | inl less ↦ rw less (sk, (sj, all))
    | inr not_less ↦ rw not_less (sj, All-insert_item s k v m sk all)
  ]

  insert_item-IsRising :
      (k : Text) (v : V) (m : List (Text × V))
      → IsRising m
      → find_item k m ≡ none
      → IsRising (insert_item k v m)
  unfolding IsRising insert_item find_item
  insert_item-IsRising k v [] rising absent = (tt, tt)
  insert_item-IsRising k v ((j, x) ∷ m) (behind, rising) absent = elim (Bool-cases (text_eq j k)) [
    | inl same ↦ absurd (ground (arith, absent, same))
    | inr other ↦ elim (Bool-cases (text_ltb k j)) [
      | inl less ↦ rw less ((less, All-less k j m less behind), (behind, rising))
      | inr not_less ↦ rw not_less (
        All-insert_item j k v m (text_ltb_total k j not_less (text_eq_other j k other)) behind,
        insert_item-IsRising k v m rising (ground (arith, absent, other)),
      )
    ]
  ]

  -- On a list of entries whose keys rise, insert does what the insertion of `std::map` does: an entry
  -- with a key that is there is not inserted, and any other one comes to its place in the order. The
  -- keys rise afterwards.
  pub insert-add_entry :
      (key : Text) (value : V) (m : List (Text × V))
      → IsRising m
      → (((insert key value m).0.1, (insert key value m).1) ≡ add_entry key value m)
        × IsRising (insert key value m).1
  unfolding insert add_entry
  insert-add_entry key value m rising =
      let before = is_just_before-find_item key m rising in
      let at_place = insert_at-insert_item key value m in
      elim (Option-cases (find_item key m)) [
        | inl absent ↦ (
          ground (arith, before, absent, at_place),
          rw (before, absent, at_place) (insert_item-IsRising key value m rising absent),
        )
        | inr (x, there) ↦ (ground (arith, before, there), rw (before, there) rising)
      ]
