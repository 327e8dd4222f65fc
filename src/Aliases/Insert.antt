-- ===== src/Aliases/Insert.antt =====
-- insert of PmtAliases.cpp.
use pmt.Common.{
  ◌≡◌, refl, ap, sym, ◌∙◌, true, false, List, [], ◌∷◌, if◌then◌else◌, text_eq, text_eq_refl,
  text_eq_sound, arith, Bool-cases, inl, inr, All,
}
use pmt.Common.Text.{Text}
use pmt.Aliases.{text_ltb, AliasMap, find_entry, insert}
use pmt.Aliases.Order.{text_ltb_trans, text_ltb_total}
use pmt.Aliases.Range.{IsOrdered}

All-insert :
    (s k : Text) (ms : List Text) (m : AliasMap)
    → text_ltb s k ≡ true
    → All (λ x. text_ltb s x.0 ≡ true) m
    → All (λ x. text_ltb s x.0 ≡ true) (insert k ms m)
unfolding insert
All-insert s k ms [] sk all = (sk, tt)
All-insert s k ms ((j, js) ∷ m) sk (sj, all) = elim (Bool-cases (text_ltb k j)) [
  | inl before ↦ rw before (sk, (sj, all))
  | inr not_before ↦ elim (Bool-cases (text_eq k j)) [
    | inl same ↦ rw (not_before, same) (sk, all)
    | inr other ↦ rw (not_before, other) (sj, All-insert s k ms m sk all)
  ]
]

All-less :
    (s t : Text) (m : AliasMap)
    → text_ltb s t ≡ true
    → All (λ x. text_ltb t x.0 ≡ true) m
    → All (λ x. text_ltb s x.0 ≡ true) m
All-less s t [] st all = tt
All-less s t (e ∷ m) st (te, all) = (text_ltb_trans s t e.0 st te, All-less s t m st all)

insert-IsOrdered :
    (k : Text) (ms : List Text) (m : AliasMap) → IsOrdered m → IsOrdered (insert k ms m)
unfolding insert IsOrdered
insert-IsOrdered k ms [] ordered = (tt, tt)
insert-IsOrdered k ms ((j, js) ∷ m) (behind, ordered) = elim (Bool-cases (text_ltb k j)) [
  | inl before ↦ rw before ((before, All-less k j m before behind), (behind, ordered))
  | inr not_before ↦ elim (Bool-cases (text_eq k j)) [
    | inl same ↦ rw (not_before, same) (rw (text_eq_sound k j same) behind, ordered)
    | inr other ↦
        rw (not_before, other)
          (
            All-insert j k ms m (text_ltb_total k j not_before other) behind,
            insert-IsOrdered k ms m ordered,
          )
  ]
]

pub text_eq_other : (s t : Text) → text_eq s t ≡ false → text_eq t s ≡ false
text_eq_other s t other = elim (Bool-cases (text_eq t s)) [
  | inr also ↦ also
  | inl same ↦
      absurd (ground (arith, other, text_eq_refl s, ap (text_eq s) (text_eq_sound t s same)))
]

find_entry-insert :
    (k : Text) (ms : List Text) (m : AliasMap) → find_entry k (insert k ms m) ≡ (k, ms) ∷ []
unfolding insert find_entry
find_entry-insert k ms [] = rw (text_eq_refl k) refl
find_entry-insert k ms ((j, js) ∷ m) =
    let rest = find_entry-insert k ms m in
    let own = text_eq_refl k in
    elim (Bool-cases (text_eq k j)) [
      | inl same ↦ ground (arith, rest, own, same)
      | inr other ↦ let back = text_eq_other k j other in ground (arith, rest, own, other, back)
    ]

-- The entries of the other names.
find_entry-insert_other :
    (j k : Text) (ms : List Text) (m : AliasMap)
    → text_eq j k ≡ false
    → find_entry j (insert k ms m) ≡ find_entry j m
unfolding insert find_entry
find_entry-insert_other j k ms [] other = let back = text_eq_other j k other in ground (arith, back)
find_entry-insert_other j k ms ((i, js) ∷ m) other =
    let rest = find_entry-insert_other j k ms m other in
    let back = text_eq_other j k other in
    elim (Bool-cases (text_eq k i)) [
      | inl same ↦
          let also : text_eq i j ≡ false =
            ap (λ (t : Text). text_eq t j) (sym (text_eq_sound k i same)) ∙ back in
          ground (arith, rest, back, same, also)
      | inr apart ↦ ground (arith, rest, back, apart)
    ]

-- Inserting an alias, new or known, keeps the names of the map in their order; the name then finds
-- the members that were inserted in place of those it had, and every other name finds what it found
-- before.
pub insert_lem :
    (k j : Text) (ms : List Text) (m : AliasMap)
    → IsOrdered m
    → IsOrdered (insert k ms m)
      × (find_entry j (insert k ms m) ≡ (if text_eq j k then (k, ms) ∷ [] else find_entry j m))
insert_lem k j ms m ordered = (
  insert-IsOrdered k ms m ordered,
  elim (Bool-cases (text_eq j k)) [
    | inl same ↦ rw (same, text_eq_sound j k same) (find_entry-insert k ms m)
    | inr other ↦ rw other (find_entry-insert_other j k ms m other)
  ],
)
