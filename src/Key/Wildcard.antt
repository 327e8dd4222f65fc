-- ===== src/Key/Wildcard.antt =====
-- The `*`s of a key: the searching loop of PmtKeyParser.cpp against a scan of the text.
use mathlib.Core.Option
use pmt.Common.{
  ℕ, zero, suc, ◌+◌, ◌-◌, ◌<◌, ◌≡◌, refl, Bool, true, false, not, ◌&&◌, Option, none, some, List,
  [], ◌∷◌, arith, ◌==◌, if◌then◌else◌, length, drop, All, Bool-cases, inl, inr, ap,
}
use mathlib.Core.Path.{subst}
use native.Mathlib.Nat.{zero-add}
use native.Mathlib.Numerals.{add-one, add-two}
use pmt.Common.Run.{done}
use pmt.Common.Text.{Text, char_at, find_char, find_char_from}
use pmt.Common.Text.Laws.{copy_rest, map-add-zero, find_char-nil, find_char-cons, length-drop}
use pmt.Key.{
  wildcard_loop, wildcard_verdict, is_multi_level_wildcard_test_ok, is_occurrence_wildcard,
  multi_level_wildcard_char,
}

-- The positions of the `*`s that do not stand in `[*]`, by one scan that knows the character
-- before and the number of characters read.
unfoldable pub bare_stars : ℕ → ℕ → Text → List ℕ
unfolding char_at
bare_stars prev i [] = []
bare_stars prev i (c ∷ s) =
    let rest = bare_stars c (i + 1) s in
    if c == b'*' && not (prev == b'[' && char_at s 0 == b']') then i ∷ rest else rest

unfoldable pub last_or : ℕ → List ℕ → ℕ
last_or w [] = w
last_or w (i ∷ is) = last_or i is

abbrev before : Text → ℕ → ℕ
before s zero = 0
before s (suc p) = char_at s p

drop-suc : (s : Text) (p c : ℕ) (t : Text) → drop p s ≡ c ∷ t → drop (suc p) s ≡ t
drop-suc [] zero c t h = ground arith
drop-suc [] (suc p) c t h = ground arith
drop-suc (x ∷ s) zero c t h = ground arith
drop-suc (x ∷ s) (suc p) c t h = drop-suc s p c t h

-- The character at the start of a suffix.
char_at-drop : (s : Text) (p : ℕ) → char_at s p ≡ char_at (drop p s) 0
unfolding char_at
char_at-drop s zero = refl
char_at-drop [] (suc p) = refl
char_at-drop (x ∷ s) (suc p) = char_at-drop s p

find_char_from-drop :
    (c p : ℕ) (s : Text) → find_char_from c p s ≡ Option.map (λ pp. pp + p) (find_char c (drop p s))
unfolding find_char_from
find_char_from-drop c p s = rw copy_rest

-- The test of one `*` reads the characters before and behind it.
occurrence_wildcard-scan :
    (s : Text) (p c : ℕ) (t : Text)
    → drop p s ≡ c ∷ t
    → is_occurrence_wildcard s p ≡ before s p == b'[' && char_at t 0 == b']'
unfolding is_occurrence_wildcard
occurrence_wildcard-scan s zero c t h = refl
occurrence_wildcard-scan s (suc p) c t h =
    cc (char_at-drop s (suc (suc p)), drop-suc s (suc p) c t h)

abbrev next_star : ℕ → Text → Option ℕ
next_star p t = Option.map (λ pp. pp + p) (find_char b'*' t)

next_star-cons :
    (p c : ℕ) (t : Text) → next_star p (c ∷ t) ≡ (if c == b'*' then some p else next_star (p + 1) t)
next_star-cons p c t =
    rw find_char-cons
      (elim (find_char b'*' t)
        as (λ o.
          Option.map (λ pp. pp + p) (if b'*' == c then some 0 else Option.map suc o)
          ≡ (if c == b'*' then some p else Option.map (λ pp. pp + (p + 1)) o)) [
            | none ↦ ground arith
            | some k ↦ ground arith
          ])

-- The loop ends, with the number of the bare `*`s and the position of the last.
wildcard_loop-scan :
    (t s : Text) (p fuel n w : ℕ)
    → drop p s ≡ t
    → length t < fuel
    → wildcard_loop fuel s (next_star p t) n w
      ≡ done (n + length (bare_stars (before s p) p t), last_or w (bare_stars (before s p) p t))
unfolding wildcard_loop bare_stars last_or
wildcard_loop-scan t s p zero n w h lt = absurd (omega arith)
wildcard_loop-scan [] s p (suc fuel) n w h lt = rw find_char-nil (ground arith)
wildcard_loop-scan (c ∷ t) s p (suc fuel) n w h lt =
    let tail = drop-suc s p c t h in
    let here : char_at s p ≡ c = cc (char_at-drop s p, h) in
    let rest = λ (n' : ℕ) (w' : ℕ). wildcard_loop-scan t s (suc p) fuel n' w' tail (omega arith) in
    let step = occurrence_wildcard-scan s p c t h in
    rw (next_star-cons, add-one)
      (elim (Bool-cases (c == b'*')) [
        | inr other ↦
            rw other (rw (wildcard_loop-scan t s (suc p) (suc fuel) n w tail (omega arith), here))
        | inl star ↦ rw star (
            rw (add-one, find_char_from-drop, tail, step, rest, here)
              (elim (Bool-cases (before s p == b'[' && char_at t 0 == b']')) [
                | inl inside ↦ rw inside refl
                | inr bare ↦ rw bare (ground arith)
              ]))
      ])

-- A text that one bare `*` leaves behind it is all right if it is empty or one `[…]`, which the
-- first `]` closes at the end.
unfoldable pub closes : Text → Bool
closes [] = false
closes (c ∷ []) = c == b']'
closes (c ∷ d ∷ s) = not (c == b']') && closes (d ∷ s)

unfoldable pub may_follow_star : Text → Bool
unfolding closes
may_follow_star [] = true
may_follow_star (c ∷ s) = c == b'[' && closes s

unfoldable pub stars_ok : Text → List ℕ → Bool
unfolding may_follow_star
stars_ok s [] = true
stars_ok s (i ∷ []) = may_follow_star (drop (suc i) s)
stars_ok s (i ∷ j ∷ is) = false

closes-find :
    (t : Text) → closes t ≡ elim (find_char b']' t) [ none ↦ false | some k ↦ k + 1 == length t ]
unfolding closes
closes-find [] = rw find_char-nil
closes-find (c ∷ []) = rw (find_char-cons, find_char-nil) (ground arith)
closes-find (c ∷ d ∷ t) =
    rw (find_char-cons, closes-find (d ∷ t))
      (elim (find_char b']' (d ∷ t))
        as (λ o.
          not (c == b']') && elim o [ none ↦ false | some k ↦ k + 1 == length (d ∷ t) ]
          ≡ elim (if b']' == c then some 0 else Option.map suc o) [
            | none ↦ false
            | some k ↦ k + 1 == length (c ∷ d ∷ t)
          ]) [ none ↦ ground arith | some k ↦ ground arith ])

bare_stars-lt : (prev i : ℕ) (t : Text) → All (λ j. j < i + length t) (bare_stars prev i t)
unfolding bare_stars
bare_stars-lt prev i [] = tt
bare_stars-lt prev i (c ∷ t) =
    let bound = λ (k : ℕ). All (λ j. j < k) (bare_stars c (i + 1) t) in
    let rest = subst bound (omega arith) (bare_stars-lt c (i + 1) t) in
    elim (Bool-cases (c == b'*' && not (prev == b'[' && char_at t 0 == b']'))) [
      | inl bare ↦ rw bare (omega arith, rest)
      | inr other ↦ rw other rest
    ]

-- The suffix behind a bare `*` decides.
verdict-one :
    (s : Text) (i : ℕ) (t : Text)
    → i < length s
    → drop (suc i) s ≡ t
    → wildcard_verdict s (1, i) ≡ may_follow_star t
unfolding wildcard_verdict may_follow_star char_at
verdict-one s i [] lt h = ground (arith, ap length h, length-drop s (suc i))
verdict-one s i (c ∷ t) lt h =
    let size : suc (length t) ≡ length s - suc i =
      omega (arith, ap length h, length-drop s (suc i)) in
    let here : char_at s (i + 1) ≡ c = rw add-one (cc (char_at-drop s (suc i), h)) in
    let behind : drop (i + 2) s ≡ t = rw add-two (drop-suc s (suc i) c t h) in
    rw (here, find_char_from-drop, behind, closes-find)
      (elim (find_char b']' t)
        as (λ o.
          (if i == length s - 1
            then true
            else c == b'[' && elim (Option.map (λ pp. pp + (i + 2)) o) [
              | none ↦ false
              | some pos ↦ pos == length s - 1
            ])
          ≡ c == b'[' && elim o [ none ↦ false | some k ↦ k + 1 == length t ]) [
            | none ↦ ground arith
            | some k ↦ ground arith
          ])

verdict-stars :
    (s : Text) (is : List ℕ)
    → All (λ j. j < length s) is
    → wildcard_verdict s (length is, last_or 0 is) ≡ stars_ok s is
unfolding stars_ok last_or
verdict-stars s [] h = unfold wildcard_verdict in refl
verdict-stars s (i ∷ []) h = verdict-one s i (drop (suc i) s) h.0 refl
verdict-stars s (i ∷ j ∷ is) h = unfold wildcard_verdict in ground arith

-- The test of the `*`s always returns, and passes exactly the keys with no `*` outside `[*]`, or
-- with one that stands at the end or right before one last `[…]`.
pub wildcard_test-stars_ok :
    (s : Text) → is_multi_level_wildcard_test_ok s ≡ done (stars_ok s (bare_stars 0 0 s))
unfolding is_multi_level_wildcard_test_ok
wildcard_test-stars_ok s =
    rw
      (
        map-add-zero (find_char multi_level_wildcard_char s),
        wildcard_loop-scan s s 0 (length s + 1) 0 0 refl (omega arith),
        zero-add,
      )
      (ap (λ (b : Bool). done b)
        (verdict-stars s (bare_stars 0 0 s) (
          subst (λ k. All (λ j. j < k) (bare_stars 0 0 s)) (zero-add (length s))
            (bare_stars-lt 0 0 s))))
