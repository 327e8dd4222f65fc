-- ===== src/Occurrence/Overflow.antt =====
-- What makes the parser of src/PmtCore/PmtOccurrence.cpp undefined.
use mathlib.Core.List.{append-nil, append_assoc}
use pmt.Common.{
  ap, sym, ◌∙◌, ℕ, zero, suc, ◌-◌, ◌≤◌, ◌<◌, ◌≡◌, refl, Bool, true, false, Option, none, some, [],
  ◌∷◌, ◌++◌, if◌then◌else◌, length, take, drop, arith, Option-cases, inl, inr,
}
use pmt.Common.Run.{Run, done, undefined, out_of_fuel, ◌>>=◌}
use pmt.Common.Text.{Text, find, is_prefix, find_char, substr, substr_from}
use pmt.Common.Text.Laws.{substr_from-drop, substr-take}
use pmt.Occurrence.{int_max, is_number, digits_value}

-- A stretch of a text.
pub record IsPart (s t : Text) : Type 0 where
  pub front : Text
  pub back : Text
  pub is_append : t ≡ front ++ (s ++ back)

pub IsPart-refl : (s : Text) → IsPart s s
IsPart-refl s = record { front = []; back = []; is_append = sym (append-nil s) }

pub IsPart-trans : {r s t : Text} → IsPart r s → IsPart s t → IsPart r t
IsPart-trans {r} p q = record {
  front = q.front ++ p.front;
  back = p.back ++ q.back;
  is_append =
      q.is_append
      ∙ ap (λ (x : Text). q.front ++ (x ++ q.back)) p.is_append
      ∙ (rw (append_assoc, append_assoc, append_assoc) refl);
}

take-drop : (n : ℕ) (s : Text) → s ≡ take n s ++ drop n s
take-drop zero s = refl
take-drop (suc n) [] = refl
take-drop (suc n) (c ∷ s) = ap (λ (t : Text). c ∷ t) (take-drop n s)

take-IsPart : (n : ℕ) (s : Text) → IsPart (take n s) s
take-IsPart n s = record { front = []; back = drop n s; is_append = take-drop n s }

drop-IsPart : (n : ℕ) (s : Text) → IsPart (drop n s) s
drop-IsPart n s = record {
  front = take n s;
  back = [];
  is_append = take-drop n s ∙ ap (λ (t : Text). take n s ++ t) (sym (append-nil (drop n s)));
}

pub substr_from-IsPart : (s : Text) (n : ℕ) → IsPart (substr_from s n) s
substr_from-IsPart s n = rw (substr_from-drop s n) (drop-IsPart n s)

pub substr-IsPart : (s : Text) (a n : ℕ) → a ≤ length s → n ≤ length s - a → IsPart (substr s a n) s
substr-IsPart s a n le fits =
    rw (substr-take s a n le fits) (IsPart-trans (take-IsPart n (drop a s)) (drop-IsPart a s))

pub find_char-lt : (c : ℕ) (s : Text) (p : ℕ) → find_char c s ≡ some p → p < length s
unfolding find_char find is_prefix
find_char-lt c [] p h = ground (arith, h)
find_char-lt c (x ∷ s) p h = elim (Option-cases (find_char c s)) [
  | inl absent ↦ ground (arith, h, absent)
  | inr (q, there) ↦ let rest = find_char-lt c s q there in ground (arith, h, there, rest)
]

-- A number of at least INT_MAX stands in the text, as digits alone.
pub record HasOverflow (t : Text) : Type 0 where
  pub digits : Text
  pub is_part : IsPart digits t
  pub are_digits : is_number digits ≡ true
  pub is_large : int_max ≤ digits_value 0 digits

pub HasOverflow-part : {s t : Text} → IsPart s t → HasOverflow s → HasOverflow t
HasOverflow-part part o = record {
  digits = o.digits;
  is_part = IsPart-trans o.is_part part;
  are_digits = o.are_digits;
  is_large = o.is_large;
}

-- The run returns a result that meets `P`, or is undefined for the reason `U`.
unfoldable pub Meets : {A : Type 0} → (A → Type 0) → Type 0 → Run A → Type 0
Meets P U (done a) = P a
Meets P U undefined = U
Meets P U out_of_fuel = ⊥

pub Meets-bind :
    {A B : Type 0} (P : A → Type 0) (Q : B → Type 0) (U V : Type 0) (r : Run A) (f : A → Run B)
    → Meets P U r
    → (U → V)
    → ((a : A) → P a → Meets Q V (f a))
    → Meets Q V (r >>= f)
unfolding Meets
Meets-bind P Q U V (done a) f h reason all = all a h
Meets-bind P Q U V undefined f h reason all = reason h
Meets-bind P Q U V out_of_fuel f h reason all = h

pub Meets-weaken :
    {A : Type 0} (P : A → Type 0) (U V : Type 0) (r : Run A) → (U → V) → Meets P U r → Meets P V r
unfolding Meets
Meets-weaken P U V (done a) reason h = h
Meets-weaken P U V undefined reason h = reason h
Meets-weaken P U V out_of_fuel reason h = h

pub Meets-if :
    {A : Type 0} (P : A → Type 0) (U : Type 0) (b : Bool) (x y : Run A)
    → (b ≡ true → Meets P U x)
    → Meets P U y
    → Meets P U (if b then x else y)
Meets-if P U true x y hx hy = hx refl
Meets-if P U false x y hx hy = hy

pub Meets-option :
    {A B : Type 0} (P : A → Type 0) (U : Type 0) (o : Option B) (x : Run A) (f : B → Run A)
    → Meets P U x
    → ((b : B) → o ≡ some b → Meets P U (f b))
    → Meets P U (elim o [ none ↦ x | some b ↦ f b ])
Meets-option P U none x f h all = h
Meets-option P U (some b) x f h all = all b refl
