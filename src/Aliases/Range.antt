-- ===== src/Aliases/Range.antt =====
-- findAliases of PmtAliases.cpp with a wildcard: a range of the map.
use pmt.Common.{
  ◌-◌, length-append, ◌++◌, ◌≡◌, refl, true, false, List, [], ◌∷◌, arith, if◌then◌else◌, Bool-cases,
  inl, inr, All,
}
use pmt.Common.Text.Laws.{char_at-last, substr-front}
use pmt.Common.Text.{Text, is_prefix}
use pmt.Aliases.{
  length, done, find_aliases, text_ltb, alias_sub_str_comp, AliasMap, find_if, range_while,
}
use pmt.Aliases.Order.{prefix_between, comp-is_prefix}

-- The names of the map stand in their order.
unfoldable pub IsOrdered : AliasMap → Type 0
IsOrdered [] = Unit
IsOrdered (e ∷ m) = All (λ x. text_ltb e.0 x.0 ≡ true) m × IsOrdered m

-- The entries whose name starts with the key.
unfoldable pub starting_with : Text → AliasMap → AliasMap
starting_with key [] = []
starting_with key (e ∷ m) =
    let later = starting_with key m in if is_prefix key e.0 then e ∷ later else later

-- Behind a name that starts with the key and one that does not, no name starts with it.
none_behind :
    (key s t : Text) (m : AliasMap)
    → is_prefix key s ≡ true
    → is_prefix key t ≡ false
    → text_ltb s t ≡ true
    → All (λ x. text_ltb t x.0 ≡ true) m
    → starting_with key m ≡ []
unfolding starting_with
none_behind key s t [] ps pt st behind = refl
none_behind key s t (e ∷ m) ps pt st (te, behind) =
    let rest = none_behind key s t m ps pt st behind in
    let between = prefix_between key s t e.0 ps in ground (arith, rest, between, pt, st, te)

range-starting_with :
    (key : Text) (e : Text × List Text) (m : AliasMap)
    → is_prefix key e.0 ≡ true
    → IsOrdered (e ∷ m)
    → range_while (alias_sub_str_comp key) m ≡ starting_with key m
unfolding range_while starting_with IsOrdered
range-starting_with key e [] pe ordered = refl
range-starting_with key e ((k, ms) ∷ m) pe ((ek, _), (behind, ordered)) =
    let comp = comp-is_prefix key k ms in
    elim (Bool-cases (is_prefix key k)) [
      | inl starts ↦
          let rest = range-starting_with key (k, ms) m starts (behind, ordered) in
          ground (arith, comp, starts, rest)
      | inr other ↦
          let rest = none_behind key e.0 k m pe other ek behind in ground (arith, comp, other, rest)
    ]

pub find_range-starting_with :
    (key : Text) (m : AliasMap)
    → IsOrdered m
    → range_while (alias_sub_str_comp key) (find_if (alias_sub_str_comp key) m)
      ≡ starting_with key m
unfolding find_if range_while starting_with IsOrdered
find_range-starting_with key [] ordered = refl
find_range-starting_with key ((k, ms) ∷ m) (behind, ordered) =
    let comp = comp-is_prefix key k ms in
    elim (Bool-cases (is_prefix key k)) [
      | inl starts ↦
          let rest = range-starting_with key (k, ms) m starts (behind, ordered) in
          ground (arith, comp, starts, rest)
      | inr other ↦
          let rest = find_range-starting_with key m ordered in ground (arith, comp, other, rest)
    ]

-- A key that ends in `*` finds the entries whose name starts with what stands before the `*`, in
-- their order, in every map whose names stand in their order.
pub find_aliases-starting_with :
    (key : Text) (m : AliasMap)
    → IsOrdered m
    → find_aliases (key ++ b'*' ∷ []) m ≡ done (starting_with key m)
unfolding find_aliases
find_aliases-starting_with [] m ordered =
    let front = substr-front [] (b'*' ∷ []) in
    let last = char_at-last [] b'*' in
    let found = find_range-starting_with [] m ordered in rw (front, last, found) refl
find_aliases-starting_with (c ∷ key) m ordered =
    let front = substr-front (c ∷ key) (b'*' ∷ []) in
    let size = length-append (c ∷ key) (b'*' ∷ []) in
    let last = char_at-last (c ∷ key) b'*' in
    let found = find_range-starting_with (c ∷ key) m ordered in
    let short : length (c ∷ key ++ b'*' ∷ []) - 1 ≡ length (c ∷ key) = omega (arith, size) in
    rw (short, front, last, found) refl
