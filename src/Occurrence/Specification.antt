-- ===== src/Occurrence/Specification.antt =====
-- The text of an occurrence specification, and what the character searches of ptstring.h find in it.
use mathlib.Core.Option
use pmt.Common.{
  ℕ, suc, ◌+◌, ◌≤◌, ◌≡◌, refl, Bool, true, not, ◌&&◌, ◌||◌, Option, none, some, List, [], ◌∷◌, ◌++◌,
  arith, if◌then◌else◌, length, length-append, All, ◌==◌, all,
}
use pmt.Common.Text.{Text, pos_char, char_at, substr_from, find_first_not_of, find_first_of, least}
use pmt.Common.Text.Laws.{all-append, all-cons, all_weaken, map-add-zero, substr_from-drop}
use pmt.Occurrence.{Occurrence, is_digit, is_number, delims}
use pmt.Occurrence.Parse.{Argument, number, range, text_of, IsArgument, meaning, add_all}

-- What stands between two arguments: one delimiter or two.
pub record Gap : Type 0 where
  pub first : ℕ
  pub second : Option ℕ

abbrev pub is_delim : ℕ → Bool
is_delim c = c == b' ' || c == b','

abbrev pub IsGap : Gap → Type 0
IsGap g = (is_delim g.first ≡ true) × ((c : ℕ) → g.second ≡ some c → is_delim c ≡ true)

abbrev pub lead : Option ℕ → Text → Text
lead none s = s
lead (some c) s = c ∷ s

unfoldable pub specification_text : Argument → List (Gap × Argument) → Text
specification_text a [] = text_of a
specification_text a ((g, b) ∷ r) = text_of a ++ g.first ∷ lead g.second (specification_text b r)

unfoldable pub meanings : Argument → List (Gap × Argument) → List ℕ
meanings a [] = meaning a
meanings a ((g, b) ∷ r) = meaning a ++ meanings b r

-- Neither a delimiter nor the terminator.
abbrev pub plain : ℕ → Bool
plain c = not (is_delim c) && not (c == 0)

-- The characters of an argument, and of a specification.
abbrev pub argument_char : ℕ → Bool
argument_char c = is_digit c || c == b'-'

abbrev pub specification_char : ℕ → Bool
specification_char c = argument_char c || is_delim c

digits-argument_char : (s : Text) → is_number s ≡ true → all argument_char s ≡ true
unfolding is_number
digits-argument_char s = all_weaken is_digit argument_char s (λ x h. ground arith)

argument-chars : (a : Argument) → IsArgument a → all argument_char (text_of a) ≡ true
unfolding IsArgument text_of
argument-chars (number n) h = digits-argument_char n h.1
argument-chars (range a b) h =
    all-append argument_char a (b'-' ∷ b) (digits-argument_char a h.0.1)
      (unfold all in digits-argument_char b h.1.1)

pub argument-plain : (a : Argument) → IsArgument a → all plain (text_of a) ≡ true
argument-plain a h =
    all_weaken argument_char plain (text_of a) (λ x p. ground arith) (argument-chars a h)

-- The first character of an argument.
argument-cons : (a : Argument) → IsArgument a → (c : ℕ) × (s : Text) × (text_of a ≡ c ∷ s)
unfolding IsArgument text_of
argument-cons (number []) h = absurd (h.0 refl)
argument-cons (number (c ∷ n)) h = (c, n, refl)
argument-cons (range [] b) h = absurd (h.0.0 refl)
argument-cons (range (c ∷ a) b) h = (c, a ++ b'-' ∷ b, refl)

pos_char-append :
    (c : ℕ) (s t : Text)
    → is_delim c ≡ true
    → all plain s ≡ true
    → pos_char c (s ++ t) ≡ Option.map (λ k. k + length s) (pos_char c t)
unfolding all pos_char
pos_char-append c [] t h p = map-add-zero (pos_char c t)
pos_char-append c (x ∷ s) t h p =
    rw (pos_char-append c s t h (ground arith))
      (elim (pos_char c t)
        as (λ o.
          (if x == c then some 0 else Option.map suc (Option.map (λ k. k + length s) o))
          ≡ Option.map (λ k. k + suc (length s)) o) [ none ↦ ground arith | some k ↦ ground arith ])

pos_char-plain : (c : ℕ) (s : Text) → is_delim c ≡ true → all plain s ≡ true → pos_char c s ≡ none
unfolding all pos_char
pos_char-plain c [] h p = ground arith
pos_char-plain c (x ∷ s) h p = ground (arith, pos_char-plain c s)

-- The first delimiter of an argument and what follows.
pub find_first_of-argument : (s : Text) → all plain s ≡ true → find_first_of delims s ≡ none
unfolding find_first_of least
find_first_of-argument s p = rw (pos_char-plain b' ' s refl p, pos_char-plain b',' s refl p)

pub find_first_of-gap :
    (s t : Text) (d : ℕ)
    → all plain s ≡ true
    → is_delim d ≡ true
    → find_first_of delims (s ++ d ∷ t) ≡ some (length s)
unfolding find_first_of
find_first_of-gap s t d p h =
    rw (pos_char-append b' ' s (d ∷ t) refl p, pos_char-append b',' s (d ∷ t) refl p)
      (unfold pos_char least in ground arith)

find_first_not_of-plain : (c : ℕ) (s : Text) → plain c ≡ true → find_first_not_of delims (c ∷ s) ≡ 0
unfolding find_first_not_of pos_char char_at
find_first_not_of-plain c s p = ground arith

find_first_not_of-delim :
    (d c : ℕ) (s : Text)
    → is_delim d ≡ true
    → plain c ≡ true
    → find_first_not_of delims (d ∷ c ∷ s) ≡ 1
unfolding find_first_not_of pos_char char_at
find_first_not_of-delim d c s h p = ground arith

-- At most one delimiter is skipped in front of an argument.
skip :
    (l : Option ℕ) (c : ℕ) (s : Text)
    → ((d : ℕ) → l ≡ some d → is_delim d ≡ true)
    → plain c ≡ true
    → substr_from (lead l (c ∷ s)) (find_first_not_of delims (lead l (c ∷ s))) ≡ c ∷ s
skip none c s h p = rw (substr_from-drop, find_first_not_of-plain c s p)
skip (some d) c s h p = rw (substr_from-drop, find_first_not_of-delim d c s (h d refl) p)

pub add_all-append :
    (xs ys : List ℕ) (o : Occurrence) → add_all (xs ++ ys) o ≡ add_all ys (add_all xs o)
unfolding add_all
add_all-append [] ys o = refl
add_all-append (x ∷ xs) ys o = add_all-append xs ys _

abbrev pub AreArguments : List (Gap × Argument) → Type 0
AreArguments r = All (λ e. IsGap e.0 × IsArgument e.1) r

pub length-specification_text :
    (a : Argument) (r : List (Gap × Argument)) → length r ≤ length (specification_text a r)
unfolding specification_text
length-specification_text a [] = omega arith
length-specification_text a ((g, b) ∷ r) =
    let size = length-append (text_of a) (g.first ∷ lead g.second (specification_text b r)) in
    ground (arith, size, length-specification_text b r)

plain_first : (c : ℕ) (s : Text) → all plain (c ∷ s) ≡ true → plain c ≡ true
unfolding all
plain_first c s h = ground arith

-- A specification starts with the first character of its first argument.
pub specification-cons :
    (a : Argument) (r : List (Gap × Argument))
    → IsArgument a
    → (c : ℕ) × (s : Text) × (specification_text a r ≡ c ∷ s) × (plain c ≡ true)
unfolding specification_text
specification-cons a [] h =
    let (c, s, e) = argument-cons a h in (c, s, e, plain_first c s (cc (argument-plain a h, e)))
specification-cons a ((g, b) ∷ r) h =
    let (c, s, e) = argument-cons a h in
    (
      c,
      s ++ g.first ∷ lead g.second (specification_text b r),
      cc e,
      plain_first c s (cc (argument-plain a h, e)),
    )

pub skip-specification :
    (a : Argument) (r : List (Gap × Argument)) (l : Option ℕ)
    → IsArgument a
    → ((d : ℕ) → l ≡ some d → is_delim d ≡ true)
    → substr_from
        (lead l (specification_text a r))
        (find_first_not_of delims (lead l (specification_text a r)))
      ≡ specification_text a r
skip-specification a r l h hl =
    let (c, s, e, p) = specification-cons a r h in rw e (skip l c s hl p)

all-lead :
    (l : Option ℕ) (s : Text)
    → ((d : ℕ) → l ≡ some d → is_delim d ≡ true)
    → all specification_char s ≡ true
    → all specification_char (lead l s) ≡ true
unfolding all
all-lead none s hl h = h
all-lead (some d) s hl h = ground (arith, hl d refl)

pub specification-chars :
    (a : Argument) (r : List (Gap × Argument))
    → IsArgument a
    → AreArguments r
    → all specification_char (specification_text a r) ≡ true
unfolding specification_text
specification-chars a [] h hr =
    all_weaken argument_char specification_char (text_of a) (λ x p. ground arith)
      (argument-chars a h)
specification-chars a ((g, b) ∷ r) h hr =
    let rest = all-lead g.second _ hr.0.0.1 (specification-chars b r hr.0.1 hr.1) in
    all-append specification_char (text_of a) (g.first ∷ lead g.second (specification_text b r))
      (all_weaken argument_char specification_char (text_of a) (λ x p. ground arith)
        (argument-chars a h))
      (all-cons specification_char g.first _ (ground (arith, hr.0.0.0)) rest)
