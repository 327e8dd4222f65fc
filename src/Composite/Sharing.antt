-- ===== src/Composite/Sharing.antt =====
-- The occurrence object that the loops of a search of src/PmtCore/PmtCompositeMetadata.cpp share.
use native.Mathlib.Decide.{dec_lt}
use mathlib.Core.Path.{subst}
use pmt.Common.{
  ℕ, zero, suc, ◌+◌, ◌≤◌, ◌≡◌, refl, ap, sym, false, Option, none, some, List, [], ◌∷◌, length,
  get_elem?, get_elem?-some, arith, Option-cases, inl, inr,
}
use pmt.Common.Run.{Run, done, undefined, out_of_fuel, ◌>>=◌}
use pmt.Common.Text.{Text}
use pmt.Occurrence
use pmt.Occurrence.{Occurrence}
use pmt.Composite.Search.{Search, occurrence_loop, for_occurrences, for_keys}

-- If the run returns, what it returns meets `P`.
unfoldable pub Leaves : {A : Type 0} → (A → Type 0) → Run A → Type 0
Leaves P (done a) = P a
Leaves P undefined = Unit
Leaves P out_of_fuel = Unit

Leaves-bind :
    {A B : Type 0} (P : A → Type 0) (Q : B → Type 0) (r : Run A) (f : A → Run B)
    → Leaves P r
    → ((a : A) → P a → Leaves Q (f a))
    → Leaves Q (r >>= f)
unfolding Leaves
Leaves-bind P Q (done a) f h all = all a h
Leaves-bind P Q undefined f h all = tt
Leaves-bind P Q out_of_fuel f h all = tt

pub Leaves-weaken :
    {A : Type 0} (P Q : A → Type 0) (r : Run A) → ((a : A) → P a → Q a) → Leaves P r → Leaves Q r
unfolding Leaves
Leaves-weaken P Q (done a) all h = all a h
Leaves-weaken P Q undefined all h = tt
Leaves-weaken P Q out_of_fuel all h = tt

pub Leaves-done : {A : Type 0} (P : A → Type 0) (r : Run A) (a : A) → r ≡ done a → Leaves P r → P a
unfolding Leaves
Leaves-done P r a e h = unfold Leaves in subst (Leaves P) e h

-- The object has a list of occurrences, which need not be empty.
abbrev pub IsPlain : Search → Type 0
IsPlain st = (st.occurrence.is_unspecified ≡ false) × (st.occurrence.is_wildcard ≡ false)

-- Its list is used up.
abbrev pub IsUsedUp : Search → Type 0
IsUsedUp st = IsPlain st × (length st.occurrence.occurrences ≤ st.occurrence.index)

beyond : (xs : List ℕ) (i : ℕ) → get_elem? xs i ≡ none → length xs ≤ i
beyond xs i absent = elim (dec_lt i (length xs)) [
  | yes inside ↦ let (x, there) = get_elem?-some xs i inside in absurd (cc (absent, there))
  | no outside ↦ omega arith
]

-- The search with what `next` leaves.
abbrev pub stepped : Search → Search
stepped st = record st { occurrence = (Occurrence.next st.occurrence).1 }

pub stepped-IsPlain : (st : Search) → IsPlain st → IsPlain (stepped st)
unfolding Occurrence.next
stepped-IsPlain st (listed, single) =
    elim (Option-cases (get_elem? st.occurrence.occurrences st.occurrence.index)) [
      | inl absent ↦ (ground (arith, listed, absent), ground (arith, listed, single, absent))
      | inr (n, there) ↦ (ground (arith, listed, there), ground (arith, listed, single, there))
    ]

pub stepped-same :
    (st : Search)
    → IsPlain st
    → get_elem? st.occurrence.occurrences st.occurrence.index ≡ none
    → Occurrence.next st.occurrence ≡ (none, st.occurrence)
unfolding Occurrence.next
stepped-same st (listed, single) absent = ground (arith, listed, absent)

stepped-IsUsedUp :
    (st : Search) → IsPlain st → (Occurrence.next st.occurrence).0 ≡ none → IsUsedUp (stepped st)
unfolding Occurrence.next
stepped-IsUsedUp st plain ended =
    elim (Option-cases (get_elem? st.occurrence.occurrences st.occurrence.index)) [
      | inl absent ↦
          let same = ap (λ (r : Option ℕ × Occurrence). r.1) (stepped-same st plain absent) in
          subst (λ (o : Occurrence). IsUsedUp (record st { occurrence = o })) (sym same)
            (plain, beyond st.occurrence.occurrences st.occurrence.index absent)
      | inr (n, there) ↦ absurd (ground (arith, ended, plain.0, there))
    ]

occurrence_loop-IsUsedUp :
    (fuel : ℕ) (body : ℕ → Search → Run Search) (at : Option ℕ) (st : Search)
    → ((n : ℕ) (st' : Search) → IsPlain st' → Leaves IsPlain (body n st'))
    → IsPlain st
    → (at ≡ none → IsUsedUp st)
    → Leaves IsUsedUp (occurrence_loop fuel body at st)
unfolding occurrence_loop Leaves
occurrence_loop-IsUsedUp zero body at st keeps plain ended = tt
occurrence_loop-IsUsedUp (suc fuel) body none st keeps plain ended = ended refl
occurrence_loop-IsUsedUp (suc fuel) body (some n) st keeps plain ended =
    Leaves-bind IsPlain IsUsedUp (body n st) _ (keeps n st plain) (λ st' plain'.
      occurrence_loop-IsUsedUp fuel body (Occurrence.next st'.occurrence).0 (stepped st') keeps
        (stepped-IsPlain st' plain') (stepped-IsUsedUp st' plain'))

-- The search with the object started again.
abbrev pub rewound : Search → Search
rewound st = record st { occurrence = record st.occurrence { index = 0 } }

pub for_occurrences-plain :
    (this : ℕ) (key : Text) (body : ℕ → Search → Run Search) (st : Search)
    → IsPlain st
    → for_occurrences this key body st
      ≡ occurrence_loop
          (length st.occurrence.occurrences + 2)
          body
          (Occurrence.next (rewound st).occurrence).0
          (stepped (rewound st))
unfolding for_occurrences Occurrence.start
for_occurrences-plain this key body st (listed, single) = rw (single, listed) refl

pub for_occurrences-IsUsedUp :
    (this : ℕ) (key : Text) (body : ℕ → Search → Run Search) (st : Search)
    → ((n : ℕ) (st' : Search) → IsPlain st' → Leaves IsPlain (body n st'))
    → IsPlain st
    → Leaves IsUsedUp (for_occurrences this key body st)
for_occurrences-IsUsedUp this key body st keeps plain =
    rw (for_occurrences-plain this key body st plain) (
      occurrence_loop-IsUsedUp _ body _ _ keeps (stepped-IsPlain (rewound st) plain)
        (stepped-IsUsedUp (rewound st) plain))

for_keys-IsUsedUp :
    (ks : List Text) (body : Text → Search → Run Search) (st : Search)
    → ((k : Text) (st' : Search) → IsPlain st' → Leaves IsUsedUp (body k st'))
    → IsUsedUp st
    → Leaves IsUsedUp (for_keys ks body st)
unfolding for_keys Leaves
for_keys-IsUsedUp [] body st uses used = used
for_keys-IsUsedUp (k ∷ ks) body st uses used =
    Leaves-bind IsUsedUp IsUsedUp (body k st) _ (uses k st used.0)
      (λ st' used'. for_keys-IsUsedUp ks body st' uses used')

pub for_keys-some :
    (k : Text) (ks : List Text) (body : Text → Search → Run Search) (st : Search)
    → ((k : Text) (st' : Search) → IsPlain st' → Leaves IsUsedUp (body k st'))
    → IsPlain st
    → Leaves IsUsedUp (for_keys (k ∷ ks) body st)
unfolding for_keys
for_keys-some k ks body st uses plain =
    Leaves-bind IsUsedUp IsUsedUp (body k st) _ (uses k st plain)
      (λ st' used. for_keys-IsUsedUp ks body st' uses used)

pub for_keys-IsPlain :
    (ks : List Text) (body : Text → Search → Run Search) (st : Search)
    → ((k : Text) (st' : Search) → IsPlain st' → Leaves IsUsedUp (body k st'))
    → IsPlain st
    → Leaves IsPlain (for_keys ks body st)
for_keys-IsPlain [] body st uses plain = unfold for_keys Leaves in plain
for_keys-IsPlain (k ∷ ks) body st uses plain =
    Leaves-weaken IsUsedUp IsPlain (for_keys (k ∷ ks) body st) (λ st' used. used.0)
      (for_keys-some k ks body st uses plain)
