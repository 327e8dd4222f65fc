-- ===== src/FullKey/Levels.antt =====
-- What getMetadatum of PmtCompositeMetadata.cpp reads of the full key of an instance, level by level.
use pmt.Common.{
  ℕ, zero, suc, ◌+◌, ◌<◌, ◌≡◌, refl, ap, sym, ◌∙◌, true, not, none, some, ◌==◌, List, [], ◌∷◌, ◌++◌,
  All, length, length-append, all, map, arith,
}
use mathlib.Core.List.{append_assoc}
use native.Mathlib.Numerals.{add-one}
use pmt.Common.Run.{Run, done, out_of_fuel, ◌>>=◌}
use pmt.Common.Text.{Text, find_char, substr, substr_from}
use pmt.Common.Text.Laws.{
  find_char-none, find_char-behind, substr-front, substr_from-drop, drop-append,
}
use pmt.Occurrence.{Occurrence}
use pmt.Composite.{split_level, parse_level}
use pmt.FullKey.{Instance, key, full_key}
use pmt.FullKey.Parsed.{IsNamed, meant, parse_level-key, key-no_dot, length-key}

-- The instances from below the root to the instance itself.
unfoldable pub chain : Instance → List Instance → List Instance
chain md [] = md ∷ []
chain md (cmd ∷ []) = md ∷ []
chain md (cmd ∷ grand ∷ above) = chain cmd (grand ∷ above) ++ md ∷ []

-- The keys of a chain between dots.
path : List Instance → Text
path [] = []
path (md ∷ []) = key true md
path (md ∷ next ∷ more) = key true md ++ b'.' ∷ path (next ∷ more)

path-append :
    (m : Instance) (ms : List Instance) (md : Instance)
    → path ((m ∷ ms) ++ md ∷ []) ≡ path (m ∷ ms) ++ b'.' ∷ key true md
unfolding path
path-append m [] md = refl
path-append m (n ∷ ms) md =
    ap (λ r. key true m ++ b'.' ∷ r) (path-append n ms md)
    ∙ sym (append_assoc (key true m) (b'.' ∷ path (n ∷ ms)) (b'.' ∷ key true md))

chain-cons :
    (md : Instance) (parents : List Instance)
    → (m : Instance) × (ms : List Instance) × (chain md parents ≡ m ∷ ms)
unfolding chain
chain-cons md [] = (md, [], refl)
chain-cons md (cmd ∷ []) = (md, [], refl)
chain-cons md (cmd ∷ grand ∷ above) =
    let (m, ms, e) = chain-cons cmd (grand ∷ above) in (m, ms ++ md ∷ [], rw e refl)

full_key-path :
    (md : Instance) (parents : List Instance) → full_key true md parents ≡ path (chain md parents)
unfolding full_key chain path
full_key-path md [] = refl
full_key-path md (cmd ∷ []) = refl
full_key-path md (cmd ∷ grand ∷ above) =
    let (m, ms, e) = chain-cons cmd (grand ∷ above) in
    rw (full_key-path cmd (grand ∷ above)) (rw e (sym (path-append m ms md)))

-- The levels of a path, each with its name and its occurrence, as getMetadatum goes through them.
unfoldable pub read_path : ℕ → Text → Run (List (Text × Occurrence))
read_path zero text = out_of_fuel
read_path (suc fuel) text =
    let (level, remainder) = split_level text in
    let later = read_path fuel remainder in
    parse_level level >>= (λ parsed. elim remainder [
      | [] ↦ done ((parsed.1, parsed.2) ∷ [])
      | c ∷ rest ↦ later >>= (λ levels. done ((parsed.1, parsed.2) ∷ levels))
    ])

split_level-none : (text : Text) → find_char b'.' text ≡ none → split_level text ≡ (text, [])
unfolding split_level
split_level-none text h = rw (split_level, h) refl

split_level-some :
    (p : ℕ) (text : Text)
    → find_char b'.' text ≡ some p
    → split_level text ≡ (substr text 0 p, substr_from text (p + 1))
unfolding split_level
split_level-some p text h = rw (split_level, h) refl

split_level-dot :
    (level rest : Text)
    → all (λ x. not (b'.' == x)) level ≡ true
    → split_level (level ++ b'.' ∷ rest) ≡ (level, rest)
split_level-dot level rest no_dot =
    split_level-some (length level) (level ++ b'.' ∷ rest) (find_char-behind b'.' level rest no_dot)
    ∙ rw
        (
          substr-front level (b'.' ∷ rest),
          substr_from-drop (level ++ b'.' ∷ rest) (length level + 1),
          add-one (length level),
          drop-append level rest b'.',
        )
        refl

read_path-last :
    (fuel : ℕ) (text level name : Text) (o : Occurrence)
    → split_level text ≡ (level, [])
    → parse_level level ≡ done (true, name, o)
    → read_path (suc fuel) text ≡ done ((name, o) ∷ [])
unfolding read_path
read_path-last fuel text level name o split parsed = rw (split, parsed) refl

read_path-more :
    (fuel c : ℕ) (text level name rest : Text) (o : Occurrence) (levels : List (Text × Occurrence))
    → split_level text ≡ (level, c ∷ rest)
    → parse_level level ≡ done (true, name, o)
    → read_path fuel (c ∷ rest) ≡ done levels
    → read_path (suc fuel) text ≡ done ((name, o) ∷ levels)
unfolding read_path
read_path-more fuel c text level name rest o levels split parsed later =
    rw (split, parsed, split, later) refl

first_char : (s : Text) → 0 < length s → (c : ℕ) × (t : Text) × (s ≡ c ∷ t)
first_char [] h = absurd (omega (arith, h))
first_char (c ∷ t) h = (c, t, refl)

path-filled :
    (md : Instance) (ms : List Instance)
    → IsNamed md
    → (c : ℕ) × (s : Text) × (path (md ∷ ms) ≡ c ∷ s)
unfolding path
path-filled md [] named = first_char (key true md) (length-key md named)
path-filled md (n ∷ ms) named =
    let rest = b'.' ∷ path (n ∷ ms) in
    first_char (key true md ++ rest)
      (omega (arith, length-key md named, length-append (key true md) rest))

read_path-path :
    (m : Instance) (ms : List Instance)
    → All IsNamed (m ∷ ms)
    → read_path (length (m ∷ ms)) (path (m ∷ ms)) ≡ done (map meant (m ∷ ms))
unfolding path
read_path-path m [] (named, _) =
    read_path-last 0 (key true m) (key true m) (meant m).0 (meant m).1
      (split_level-none (key true m) (find_char-none b'.' (key true m) (key-no_dot m named)))
      (parse_level-key m named)
read_path-path m (n ∷ ms) (named, all_named) =
    let (c, rest, e) = path-filled n ms all_named.0 in
    read_path-more (length (n ∷ ms)) c (key true m ++ b'.' ∷ path (n ∷ ms)) (key true m) (meant m).0
      rest (meant m).1 (map meant (n ∷ ms))
      (split_level-dot (key true m) (path (n ∷ ms)) (key-no_dot m named)
        ∙ ap (λ r. (key true m, r)) e)
      (parse_level-key m named)
      (ap (read_path (length (n ∷ ms))) (sym e) ∙ read_path-path n ms all_named)

read_path-chain :
    (mds : List Instance) (m : Instance) (ms : List Instance)
    → mds ≡ m ∷ ms
    → All IsNamed mds
    → read_path (length mds) (path mds) ≡ done (map meant mds)
read_path-chain [] m ms e named = absurd (ground (arith, e))
read_path-chain (md ∷ mds) m ms e named = read_path-path md mds named

-- The full key of an instance with the occurrences, read level by level as getMetadatum reads a path,
-- gives the names of the instances from below the root to it, each with its occurrence where there
-- may be several and with none specified where there is one. The names are not empty and have no
-- bracket and no dot, and the occurrences are below INT_MAX.
pub full_key-read_path :
    (md : Instance) (parents : List Instance)
    → All IsNamed (chain md parents)
    → read_path (length (chain md parents)) (full_key true md parents)
      ≡ done (map meant (chain md parents))
full_key-read_path md parents named =
    let (m, ms, e) = chain-cons md parents in
    rw (full_key-path md parents) (read_path-chain (chain md parents) m ms e named)
