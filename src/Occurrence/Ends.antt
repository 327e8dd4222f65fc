-- ===== src/Occurrence/Ends.antt =====
-- The fuel of src/PmtCore/PmtOccurrence.cpp's parser: one round more than the specification has
-- characters is enough.
use pmt.Common.{
  ap, ℕ, zero, suc, ◌+◌, ◌-◌, ◌≤◌, ◌<◌, ◌≡◌, refl, Bool, true, false, not, ◌&&◌, Option, none, some,
  [], ◌∷◌, ltb, leb, ◌==◌, if◌then◌else◌, length, text_eq, arith, Option-cases, inl, inr,
}
use pmt.Common.Run.{Run, done, undefined, out_of_fuel, ◌>>=◌}
use pmt.Common.Text.{
  Text, find_char, substr, substr_from, find_first_not_of, find_first_of, first_of_loop, pos_char,
  least,
}
use pmt.Common.Text.Laws.{substr_from-drop, length-drop}
use pmt.Occurrence.{
  int_max, add_range, Occurrence, delims, is_number, atoi, add_range, parse_range, parse_argument,
  specification_loop, parse_occurrence_specification, parse_key_for_occurrences,
}

-- The run does not use its fuel up: it returns, or is undefined in C++.
unfoldable pub Ends : {A : Type 0} → Run A → Type 0
Ends (done a) = Unit
Ends undefined = Unit
Ends out_of_fuel = ⊥

pub Ends-bind :
    {A B : Type 0} (r : Run A) (f : A → Run B) → Ends r → ((a : A) → Ends (f a)) → Ends (r >>= f)
unfolding Ends
Ends-bind (done a) f h all = all a
Ends-bind undefined f h all = tt
Ends-bind out_of_fuel f h all = h

pub Ends-if : {A : Type 0} (b : Bool) (x y : Run A) → Ends x → Ends y → Ends (if b then x else y)
Ends-if true x y hx hy = hx
Ends-if false x y hx hy = hy

pub Ends-option :
    {A B : Type 0} (o : Option B) (x : Run A) (f : B → Run A)
    → Ends x
    → ((b : B) → o ≡ some b → Ends (f b))
    → Ends (elim o [ none ↦ x | some b ↦ f b ])
Ends-option none x f h all = h
Ends-option (some b) x f h all = all b refl

pos_char-lt : (c : ℕ) (s : Text) (p : ℕ) → 0 < c → pos_char c s ≡ some p → p < length s
unfolding pos_char
pos_char-lt c [] p pos h = ground arith
pos_char-lt c (x ∷ s) p pos h = elim (Option-cases (pos_char c s)) [
  | inl absent ↦ ground (arith, h, absent)
  | inr (q, there) ↦ let rest = pos_char-lt c s q pos there in ground (arith, h, there, rest)
]

pub first_of-lt : (s : Text) (p : ℕ) → find_first_of delims s ≡ some p → p < length s
unfolding find_first_of first_of_loop least
first_of-lt s p h =
    let space = pos_char-lt b' ' s p (omega arith) in
    let comma = pos_char-lt b',' s p (omega arith) in ground (arith, h, space, comma)

atoi-Ends : (s : Text) → Ends (atoi s)
unfolding atoi Ends
atoi-Ends s = Ends-if _ (done _) undefined tt tt

parse_argument-Ends : (s : Text) (o : Occurrence) → Ends (parse_argument s o)
unfolding parse_argument parse_range Ends
parse_argument-Ends s o =
    Ends-option (find_char b'-' s) _ _
      (Ends-if (is_number s) _ _ (Ends-bind (atoi s) _ (atoi-Ends s) (λ n. tt)) tt)
      (λ p there.
        let one = substr s 0 p in
        let two = substr_from s (p + 1) in
        Ends-if (is_number one && is_number two) _ _
          (Ends-bind (atoi one) _ (atoi-Ends one) (λ n. Ends-bind (atoi two) _ (atoi-Ends two) (λ k.
            Ends-if (leb n k && k == int_max) undefined (done (true, add_range (k + 1 - n) n o)) tt
              tt)))
          tt)

pub rest-shorter :
    (s : Text) (pos p fuel : ℕ)
    → p < length (substr_from s pos)
    → length s ≤ fuel
    → length (substr_from (substr_from s pos) (p + 1)) < fuel
rest-shorter s pos p fuel lt le =
    let one = length-drop s pos in
    let two = length-drop (substr_from s pos) (p + 1) in
    let three = ap length (substr_from-drop s pos) in
    let four = ap length (substr_from-drop (substr_from s pos) (p + 1)) in
    omega (arith, one, two, three, four)

specification_loop-Ends :
    (fuel : ℕ) (s : Text) (pos : ℕ) (o : Occurrence)
    → length s < fuel
    → Ends (specification_loop fuel s pos o)
unfolding specification_loop Ends
specification_loop-Ends zero s pos o h = absurd (omega arith)
specification_loop-Ends (suc fuel) s pos o h =
    let rest_of = substr_from s pos in
    Ends-option (find_first_of delims rest_of) _ _ (parse_argument-Ends rest_of o) (λ p there.
      let rest = substr_from rest_of (p + 1) in
      let lt = first_of-lt rest_of p there in
      let shorter : length rest < fuel = rest-shorter s pos p fuel lt (omega arith) in
      Ends-bind (parse_argument (substr rest_of 0 p) o) _
        (parse_argument-Ends (substr rest_of 0 p) o)
        (λ r.
          Ends-if r.0 _ _
            (specification_loop-Ends fuel rest (find_first_not_of delims rest) r.1 shorter) tt))

pub parse_specification-Ends :
    (s : Text) (o : Occurrence) → Ends (parse_occurrence_specification s o)
unfolding parse_occurrence_specification
parse_specification-Ends s o =
    Ends-if (text_eq s (b'*' ∷ [])) _ _ (unfold Ends in tt)
      (specification_loop-Ends (length s + 1) s (find_first_not_of delims s) o (omega arith))

-- Parsing a key for occurrences ends, whatever the key is and whatever was parsed before: it
-- returns, or a number of the key is too large for `atoi` or for the loop over its range.
pub parse_key_for_occurrences-Ends :
    (key : Text) (o : Occurrence) → Ends (parse_key_for_occurrences key o)
unfolding parse_key_for_occurrences Ends
parse_key_for_occurrences-Ends key o = Ends-option (find_char b'[' key) _ _ tt (λ p there.
    Ends-if (ltb 0 p) _ _
      (Ends-option (find_char b']' key) _ _ tt (λ q closed.
        Ends-if (ltb p q && not (q == p + 1)) _ _
          (Ends-bind (parse_occurrence_specification _ o) _ (parse_specification-Ends _ o)
            (λ r. tt))
          tt))
      tt)
