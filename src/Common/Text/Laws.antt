-- ===== src/Common/Text/Laws.antt =====
-- Where the searches of a text find what they look for.
use Prim.Native.Nat.{ℕ, zero, suc, ◌+◌, ◌-◌, ◌≤◌, ◌<◌}
use mathlib.Core.Path.{◌≡◌, refl, ap}
use mathlib.Core.Bool.{Bool, true, not}
use mathlib.Core.List.{[], ◌∷◌, ◌++◌}
use mathlib.Core.Option
use mathlib.Core.Option.{Option, none, some}
use native.Mathlib.Omega.{arith}
use pmt.Common.Tests.{◌==◌, if◌then◌else◌}
use mathlib.Core.Bool.{Bool, true, not}
use mathlib.Core.Logic.{inl, inr}
use pmt.Common.Tests.{Bool-cases}
use pmt.Common.Lists.{length-append, all, length, take, drop}
use pmt.Common.Text.{Text, char_at, find_char, copy, substr, substr_from}

pub take-length : (s : Text) (n : ℕ) → length s ≤ n → take n s ≡ s
take-length [] zero h = refl
take-length [] (suc n) h = refl
take-length (c ∷ s) zero h = absurd (omega arith)
take-length (c ∷ s) (suc n) h = ap (λ (t : Text). c ∷ t) (take-length s n (omega arith))

pub length-drop : (s : Text) (n : ℕ) → length (drop n s) ≡ length s - n
length-drop s zero = omega arith
length-drop [] (suc n) = omega arith
length-drop (c ∷ s) (suc n) = omega (arith, length-drop s n)

pub length-take : (s : Text) (n : ℕ) → n ≤ length s → length (take n s) ≡ n
length-take s zero h = refl
length-take [] (suc n) h = absurd (omega arith)
length-take (c ∷ s) (suc n) h = omega (arith, length-take s n (omega arith))

-- A copy of all that is left is a suffix.
pub copy_rest : (s : Text) (p : ℕ) → copy s p (length s - p) ≡ drop p s
unfolding copy
copy_rest s p = take-length (drop p s) _ (omega (arith, length-drop s p))

-- The character searched for, in closed form: `find_char` by its own clauses.
pub find_char-nil : (c : ℕ) → find_char c [] ≡ none
unfolding find_char
find_char-nil c = refl

pub find_char-cons :
    (c x : ℕ) (s : Text)
    → find_char c (x ∷ s) ≡ (if c == x then some 0 else Option.map suc (find_char c s))
unfolding find_char
find_char-cons c x s = ground arith

pub drop_past : (s : Text) (x : ℕ) → length s ≤ x → drop x s ≡ []
drop_past [] zero h = refl
drop_past [] (suc x) h = refl
drop_past (c ∷ s) zero h = absurd (omega arith)
drop_past (c ∷ s) (suc x) h = drop_past s x (omega arith)

drop_last : (s : Text) (x : ℕ) → length s ≡ suc x → drop x s ≡ char_at s x ∷ []
unfolding char_at
drop_last [] zero h = absurd (omega arith)
drop_last [] (suc x) h = absurd (omega arith)
drop_last (c ∷ []) zero h = refl
drop_last (c ∷ d ∷ s) zero h = absurd (omega arith)
drop_last (c ∷ s) (suc x) h = drop_last s x (omega arith)

-- `substr(x)` is the suffix from `x` on, also at and past the end.
pub substr_from-drop : (s : Text) (x : ℕ) → substr_from s x ≡ drop x s
unfolding substr_from
substr_from-drop s x = ground (
  arith,
  drop_last s x,
  drop_past s x,
  drop_past s (length s),
  take-length (drop x s) (length s - x),
  take-length (drop (length s) s) 0,
  length-drop s x,
  length-drop s (length s),
)

-- `substr(0, n)` is the prefix of length `n`, up to the end of the text.
pub substr_zero-take : (s : Text) (n : ℕ) → n ≤ length s → substr s 0 n ≡ take n s
unfolding substr char_at
substr_zero-take [] zero h = refl
substr_zero-take [] (suc n) h = absurd (omega arith)
substr_zero-take (c ∷ s) zero h = ground arith
substr_zero-take (c ∷ s) (suc zero) h = ground arith
substr_zero-take (c ∷ s) (suc (suc n)) h = ground arith

pub map-add-zero : (o : Option ℕ) → o ≡ Option.map (λ k. k + 0) o
map-add-zero none = refl
map-add-zero (some k) = ap (λ (n : ℕ). some n) (omega arith)

pub take-append : (s t : Text) → take (length s) (s ++ t) ≡ s
take-append [] t = refl
take-append (c ∷ s) t = ap (λ (r : Text). c ∷ r) (take-append s t)

pub drop-append : (s t : Text) (c : ℕ) → drop (suc (length s)) (s ++ c ∷ t) ≡ t
drop-append [] t c = refl
drop-append (x ∷ s) t c = drop-append s t c

take_one : (s : Text) (a : ℕ) → a < length s → take 1 (drop a s) ≡ char_at s a ∷ []
unfolding char_at
take_one [] a h = absurd (omega arith)
take_one (c ∷ s) zero h = refl
take_one (c ∷ s) (suc a) h = take_one s a (omega arith)

-- Inside the text `substr` is the stretch that it names.
pub substr-take :
    (s : Text) (a n : ℕ) → a ≤ length s → n ≤ length s - a → substr s a n ≡ take n (drop a s)
unfolding substr copy
substr-take s a n ha hn = elim (Bool-cases (n == 1)) [
  | inl one ↦ let single : n ≡ 1 = ground arith in rw single (ground (arith, take_one s a))
  | inr other ↦ ground arith
]

module _ (c : ℕ) where
  pub find_char-none : (s : Text) → all (λ x. not (c == x)) s ≡ true → find_char c s ≡ none
  unfolding all
  find_char-none [] h = find_char-nil c
  find_char-none (x ∷ s) h = rw find_char-cons (ground (arith, find_char-none s))

  pub find_char-behind :
      (s t : Text) → all (λ x. not (c == x)) s ≡ true → find_char c (s ++ c ∷ t) ≡ some (length s)
  unfolding all
  find_char-behind [] t h = rw find_char-cons (ground arith)
  find_char-behind (x ∷ s) t h = rw find_char-cons (ground (arith, find_char-behind s t))

pub all-append :
    (p : ℕ → Bool) (s t : Text) → all p s ≡ true → all p t ≡ true → all p (s ++ t) ≡ true
unfolding all
all-append p [] t hs ht = ht
all-append p (c ∷ s) t hs ht = ground (arith, all-append p s t)

pub all-cons :
    (p : ℕ → Bool) (c : ℕ) (s : Text) → p c ≡ true → all p s ≡ true → all p (c ∷ s) ≡ true
unfolding all
all-cons p c s h hs = ground arith

pub all_weaken :
    (p q : ℕ → Bool) (s : Text)
    → ((x : ℕ) → p x ≡ true → q x ≡ true)
    → all p s ≡ true
    → all q s ≡ true
unfolding all
all_weaken p q [] w h = refl
all_weaken p q (x ∷ s) w h = ground (arith, w x, all_weaken p q s w)

pub substr-front : (s t : Text) → substr (s ++ t) 0 (length s) ≡ s
substr-front s t =
    rw (substr_zero-take (s ++ t) (length s) (omega (arith, length-append s t))) (take-append s t)

pub substr-middle :
    (u s t : Text) (c : ℕ) → substr (u ++ c ∷ (s ++ t)) (suc (length u)) (length s) ≡ s
substr-middle u s t c =
    let size = length-append u (c ∷ (s ++ t)) in
    let inner = length-append s t in
    rw (
      substr-take (u ++ c ∷ (s ++ t)) (suc (length u)) (length s) (omega (arith, size, inner))
          (omega (arith, size, inner)),
      drop-append,
      take-append,
    )

pub char_at-last : (s : Text) (c : ℕ) → char_at (s ++ c ∷ []) (length s) ≡ c
unfolding char_at
char_at-last [] c = refl
char_at-last (x ∷ s) c = char_at-last s c
