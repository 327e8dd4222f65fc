-- ===== src/Aliases/Order.antt =====
-- The order of the names of aliases.
use pmt.Common.{
  Bool-cases, Option-cases, inl, inr, ◌≡◌, refl, true, false, List, [], ◌∷◌, text_eq, arith,
}
use pmt.Common.Text.{Text, find, is_prefix}
use pmt.Aliases.{text_ltb, alias_sub_str_comp}

pub text_ltb_trans :
    (s t u : Text) → text_ltb s t ≡ true → text_ltb t u ≡ true → text_ltb s u ≡ true
unfolding text_ltb
text_ltb_trans [] [] u h k = absurd (ground (arith, h))
text_ltb_trans [] (b ∷ t) [] h k = absurd (ground (arith, k))
text_ltb_trans [] (b ∷ t) (c ∷ u) h k = refl
text_ltb_trans (a ∷ s) [] u h k = absurd (ground (arith, h))
text_ltb_trans (a ∷ s) (b ∷ t) [] h k = absurd (ground (arith, k))
text_ltb_trans (a ∷ s) (b ∷ t) (c ∷ u) h k =
    let rest = text_ltb_trans s t u in ground (arith, h, k, rest)

pub text_ltb_total : (s t : Text) → text_ltb s t ≡ false → text_eq s t ≡ false → text_ltb t s ≡ true
unfolding text_ltb text_eq
text_ltb_total [] [] h k = absurd (ground (arith, k))
text_ltb_total [] (b ∷ t) h k = absurd (ground (arith, h))
text_ltb_total (a ∷ s) [] h k = refl
text_ltb_total (a ∷ s) (b ∷ t) h k = let rest = text_ltb_total s t in ground (arith, h, k, rest)

-- A name between two that start with a key starts with it too.
pub prefix_between :
    (p s t u : Text)
    → is_prefix p s ≡ true
    → is_prefix p u ≡ true
    → text_ltb s t ≡ true
    → text_ltb t u ≡ true
    → is_prefix p t ≡ true
unfolding is_prefix text_ltb
prefix_between [] s t u ps pu st tu = refl
prefix_between (x ∷ p) [] t u ps pu st tu = absurd (ground (arith, ps))
prefix_between (x ∷ p) (a ∷ s) t [] ps pu st tu = absurd (ground (arith, pu))
prefix_between (x ∷ p) (a ∷ s) [] (c ∷ u) ps pu st tu = absurd (ground (arith, st))
prefix_between (x ∷ p) (a ∷ s) (b ∷ t) (c ∷ u) ps pu st tu =
    let rest = prefix_between p s t u in ground (arith, ps, pu, st, tu, rest)

pub comp-is_prefix :
    (key alias : Text) (ms : List Text) → alias_sub_str_comp key (alias, ms) ≡ is_prefix key alias
unfolding alias_sub_str_comp find
comp-is_prefix key [] ms = ground arith
comp-is_prefix key (c ∷ s) ms = elim (Bool-cases (is_prefix key (c ∷ s))) [
  | inl starts ↦ ground (arith, starts)
  | inr other ↦ elim (Option-cases (find key s)) [
    | inl absent ↦ ground (arith, other, absent)
    | inr (pos, there) ↦ ground (arith, other, there)
  ]
]
