-- ===== src/Key.antt =====
-- src/PmtCore/PmtKeyParser.cpp: the validation of a key before it is looked up.
pub mod Wildcard
use pmt.Common.{
  ℕ, zero, suc, ◌+◌, ◌-◌, Bool, true, false, not, ◌&&◌, ◌||◌, Option, none, some, List, [], ◌∷◌,
  ltb, leb, ◌==◌, if◌then◌else◌, length,
}
use pmt.Common.Run.{Run, done, out_of_fuel, ◌>>=◌}
use pmt.Common.Text.{Text, char_at, find_char, find_char_from}

-- PMT_SINGLE_LEVEL_WILDCARD_CHAR and PMT_MULTI_LEVEL_WILDCARD_CHAR
abbrev pub single_level_wildcard_char : ℕ
single_level_wildcard_char = b'?'

abbrev pub multi_level_wildcard_char : ℕ
multi_level_wildcard_char = b'*'

-- Every space is left out; tabs stay.
unfoldable pub strip_white : Text → Text
strip_white [] = []
strip_white (c ∷ s) = let rest = strip_white s in if c == b' ' then rest else c ∷ rest

unfoldable pub is_one_segment : Text → Bool
is_one_segment s = elim (find_char b'.' s) [ none ↦ true | some pos ↦ false ]

unfoldable pub is_initial_char_ok : Text → Bool
is_initial_char_ok s =
    let c = char_at s 0 in
    (leb b'A' c && leb c b'Z')
    || (leb b'a' c && leb c b'z')
    || c == single_level_wildcard_char
    || (is_one_segment s && c == multi_level_wildcard_char)

-- The wildcard of an occurrence specification, `[*]`.
unfoldable pub is_occurrence_wildcard : Text → ℕ → Bool
unfolding char_at
is_occurrence_wildcard s zero = false
is_occurrence_wildcard s (suc pos) = char_at s pos == b'[' && char_at s (suc (suc pos)) == b']'

-- The loop over the `*`s: how many are no occurrence wildcard, and where the last of these is.
unfoldable pub wildcard_loop : ℕ → Text → Option ℕ → ℕ → ℕ → Run (ℕ × ℕ)
wildcard_loop zero s pos num_wildcards wildcard_pos = out_of_fuel
wildcard_loop (suc fuel) s none num_wildcards wildcard_pos = done (num_wildcards, wildcard_pos)
wildcard_loop (suc fuel) s (some pos) num_wildcards wildcard_pos =
    let next = find_char_from multi_level_wildcard_char (pos + 1) s in
    let bare = not (is_occurrence_wildcard s pos) in
    wildcard_loop fuel s next (if bare then num_wildcards + 1 else num_wildcards)
      (if bare then pos else wildcard_pos)

-- The tests behind the loop.
unfoldable pub wildcard_verdict : Text → ℕ × ℕ → Bool
wildcard_verdict s (num_wildcards, wildcard_pos) =
    if num_wildcards == 1
    then (if wildcard_pos == length s - 1
        then true
        else char_at s (wildcard_pos + 1) == b'['
          && elim (find_char_from b']' (wildcard_pos + 2) s) [
            | none ↦ false
            | some pos ↦ pos == length s - 1
          ])
    else num_wildcards == 0

unfoldable pub is_multi_level_wildcard_test_ok : Text → Run Bool
is_multi_level_wildcard_test_ok s = do
  r ← wildcard_loop (length s + 1) s (find_char multi_level_wildcard_char s) 0 0
  done (wildcard_verdict s r)

-- The result, and the new value of the argument `parsedKey`. A bad first character leaves the
-- argument as it was and still returns true.
unfoldable pub parse_key : Text → Text → Run (Bool × Text)
parse_key [] parsed_key = done (true, [])
parse_key (c ∷ s) parsed_key =
    let checked = is_multi_level_wildcard_test_ok (c ∷ s) in
    if is_initial_char_ok (c ∷ s)
    then (do ok ← checked; done (ok, c ∷ s))
    else done (true, parsed_key)
