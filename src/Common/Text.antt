-- ===== src/Common/Text.antt =====
-- src/Ek/ptstring.h and ptstring.cpp: the class behind `SPmtString` and `PmtKeyType`, as values. A
-- text is the list of its bytes, none of which is NUL; `npos` is `none`. The reference-counted
-- buffers below these methods are those of the PTypes library and are not modelled.
pub mod Laws
use Prim.Native.Char.{code}
use Prim.Native.String.{String}
use Prim.Native.String
use Prim.Native.Nat.{ℕ, zero, suc, ◌+◌, ◌-◌, ◌≤◌, ◌<◌}
use mathlib.Core.Bool.{Bool, true, false, not, ◌&&◌}
use mathlib.Core.List.{List, [], ◌∷◌}
use mathlib.Core.Option
use mathlib.Core.Option.{Option, none, some}
use pmt.Common.Tests.{ltb, leb, ◌==◌, if◌then◌else◌}
use pmt.Common.Lists.{length, take, drop}

abbrev pub Text : Type 0
Text = List ℕ

-- The text of a literal.
abbrev pub codes : String → Text
codes String.[] = []
codes (String.◌∷◌ c s) = code c ∷ codes s

-- `s[i]` at most one past the end, where the terminator stands.
unfoldable pub char_at : Text → ℕ → ℕ
char_at [] i = 0
char_at (c ∷ s) zero = c
char_at (c ∷ s) (suc i) = char_at s i

-- `pos(c)`, which is `strchr`: the terminator is found too.
unfoldable pub pos_char : ℕ → Text → Option ℕ
pos_char c [] = if c == 0 then some 0 else none
pos_char c (x ∷ s) = if x == c then some 0 else Option.map suc (pos_char c s)

unfoldable pub is_prefix : Text → Text → Bool
is_prefix [] s = true
is_prefix (p ∷ pat) [] = false
is_prefix (p ∷ pat) (c ∷ s) = p == c && is_prefix pat s

-- `find(pat)` and `pos(pat)`, which is `strstr`.
unfoldable pub find : Text → Text → Option ℕ
unfolding is_prefix
find pat [] = if is_prefix pat [] then some 0 else none
find pat (c ∷ s) = if is_prefix pat (c ∷ s) then some 0 else Option.map suc (find pat s)

-- `find(c)`: the character becomes a text of length one.
unfoldable pub find_char : ℕ → Text → Option ℕ
unfolding find
find_char c s = find (c ∷ []) s

-- `copy(from, cnt)`: nothing from the end on.
unfoldable pub copy : Text → ℕ → ℕ → Text
copy s from cnt = take cnt (drop from s)

-- `find(c, p)`
unfoldable pub find_char_from : ℕ → ℕ → Text → Option ℕ
unfolding find_char copy
find_char_from c p s = Option.map (λ pp. pp + p) (find_char c (copy s p (length s - p)))

-- `substr(position, cnt)`: a count of one yields one character, whatever the position.
unfoldable pub substr : Text → ℕ → ℕ → Text
unfolding copy char_at
substr s position cnt =
    let a = if leb position (length s) then position else length s in
    let b = if leb cnt (length s - a) then cnt else length s - a in
    if cnt == 1 then char_at s a ∷ [] else copy s a b

-- `substr(x)`; past the end `length() - x` wraps round to a large count, for which any count
-- but one stands here.
unfoldable pub substr_from : Text → ℕ → Text
unfolding substr
substr_from s x = if leb x (length s) then substr s x (length s - x) else substr s x (x + 1)

-- `find_first_not_of(set)`: the loop over `i` ends at the length of the set, not of the text, and
-- returns `i` also where it did not break.
unfoldable pub first_not_of_loop : ℕ → ℕ → Text → Text → ℕ
unfolding char_at pos_char
first_not_of_loop zero i s chars = i
first_not_of_loop (suc left) i s chars = elim (pos_char (char_at s i) chars) [
  | none ↦ i
  | some p ↦ first_not_of_loop left (i + 1) s chars
]

unfoldable pub find_first_not_of : Text → Text → ℕ
unfolding first_not_of_loop
find_first_not_of chars s = first_not_of_loop (length chars) 0 s chars

-- `find_first_of(set)`: the least position of any character of the set.
unfoldable pub least : Option ℕ → Option ℕ → Option ℕ
least none q = q
least (some p) none = some p
least (some p) (some q) = if ltb q p then some q else some p

unfoldable pub first_of_loop : Text → Text → Option ℕ → Option ℕ
unfolding least pos_char
first_of_loop [] s best = best
first_of_loop (c ∷ chars) s best = first_of_loop chars s (least best (pos_char c s))

unfoldable pub find_first_of : Text → Text → Option ℕ
unfolding first_of_loop
find_first_of chars s = first_of_loop chars s none
