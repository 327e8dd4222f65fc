-- ===== src/Occurrence/Visits.antt =====
-- The loops `for (n = start(); n != OCCURRENCE_END; n = next())` of PmtCompositeMetadata.cpp.
use pmt.Common.{
  drop-cons, drop-none, ℕ, zero, suc, ◌+◌, ◌<◌, ◌≡◌, refl, ap, true, text_eq, false, Option, none,
  some, List, [], ◌∷◌, arith, if◌then◌else◌, length, get_elem?, drop, Bool-cases, Option-cases, inl,
  inr,
}
use native.Mathlib.Numerals.{add-one, add-two}
use pmt.Common.Run.{Run, done, out_of_fuel, ◌>>=◌}
use pmt.Occurrence.{Occurrence, new, next, start, parse_occurrence_specification}

-- The numbers that such a loop passes to its body.
unfoldable pub visits_from : ℕ → Option ℕ × Occurrence → Run (List ℕ)
visits_from zero r = out_of_fuel
visits_from (suc fuel) (none, o) = done []
visits_from (suc fuel) (some n, o) = do rest ← visits_from fuel (next o); done (n ∷ rest)

unfoldable pub visits : Occurrence → Run (List ℕ)
visits o = visits_from (length o.occurrences + 2) (start o)

-- What a key level without `*` asks for: occurrence 0 if it says nothing, else the list.
unfoldable pub requested : Occurrence → List ℕ
requested o = if o.is_unspecified then 0 ∷ [] else o.occurrences

visits_from-drop :
    (fuel : ℕ) (o : Occurrence)
    → o.is_unspecified ≡ false
    → length (drop o.index o.occurrences) < fuel
    → visits_from fuel (next o) ≡ done (drop o.index o.occurrences)
unfolding visits_from next
visits_from-drop zero o h lt = absurd (omega arith)
visits_from-drop (suc fuel) o h lt = simp h (elim (Option-cases (get_elem? o.occurrences o.index)) [
  | inl e ↦ rw (e, drop-none o.occurrences o.index e)
  | inr (a, e) ↦
      let shorter : drop o.index o.occurrences ≡ a ∷ drop (o.index + 1) o.occurrences =
        rw add-one (drop-cons o.occurrences o.index a e) in
      let rest =
        visits_from-drop fuel (record o { index = o.index + 1 }) h
          (omega (arith, ap length shorter)) in
      rw (e, shorter, rest)
])

visits-listed : (o : Occurrence) → visits o ≡ done (requested o)
unfolding visits requested start
visits-listed o = elim (Bool-cases o.is_unspecified) [
  | inl e ↦ simp e (unfold visits_from next in rw add-two (simp e))
  | inr e ↦
      simp e
        (visits_from-drop _ (record o { is_unspecified = false; index = 0 }) refl (omega arith))
]

-- For a key level without `*`, a loop whose body leaves the occurrence object alone ends and visits what
-- the level asks for, in order: occurrence 0 if it has no specification, else the list. For `*`, which
-- asks for all occurrences, the loop visits nothing: a new object that parses `*` accepts it as the
-- wildcard, and start and next then pass no occurrence.
pub visits-requested :
    (o : Occurrence)
    → o.is_wildcard ≡ false
    → (visits o ≡ done (requested o))
      × ((w : Occurrence) × (parse_occurrence_specification (b'*' ∷ []) new ≡ done (true, w))
          × (w.is_wildcard ≡ true)
          × (visits w ≡ done []))
unfolding parse_occurrence_specification visits visits_from start next text_eq
visits-requested o listed = (
  visits-listed o,
  (
    record new {
      is_unspecified = false;
      is_wildcard = true;
      is_explicitly_specified_single = false;
    },
    refl,
    refl,
    refl,
  ),
)
