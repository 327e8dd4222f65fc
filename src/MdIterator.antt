-- ===== src/MdIterator.antt =====
-- PmtMetadataIterator of src/PmtCore/PmtMetadata.h: a list of instances and the place of a loop in it.
-- The place is `none` where mCrntIter is not set, or points into the list of another iterator; to
-- move or to compare it is then undefined, as is a step behind the end.
use pmt.Common.{
  ℕ, zero, suc, ◌+◌, ◌<◌, ◌≡◌, refl, ap, true, Option, none, some, List, [], ◌∷◌, ◌++◌, ◌==◌,
  if◌then◌else◌, ltb, length, get_elem?, drop, arith, Option-cases, inl, inr, drop-cons, drop-none,
  get_elem?-inside,
}
use native.Mathlib.Numerals.{add-one}
use pmt.Common.Run.{Run, done, undefined, out_of_fuel, ◌>>=◌}

pub record MdIterator (M : Type 0) : Type 0 where
  pub md_list : List M
  pub crnt_iter : Option ℕ

module _ {M : Type 0} where
  -- The default constructor.
  abbrev pub new : MdIterator M
  new = record { md_list = []; crnt_iter = none }

  -- The copy constructor and `operator=`.
  unfoldable pub assign : MdIterator M → MdIterator M
  assign rhs = record rhs { crnt_iter = none }

  -- The end stays the end.
  unfoldable pub insert : M → MdIterator M → MdIterator M
  insert md it =
      let place : Option ℕ = elim it.crnt_iter [
        | none ↦ none
        | some p ↦ some (if p == length it.md_list then p + 1 else p)
      ] in
      record { md_list = it.md_list ++ md ∷ []; crnt_iter = place }

  -- clear: a place before is lost.
  unfoldable pub clear : MdIterator M → MdIterator M
  clear it = new

  -- checkIter: the instance at the place, or NULL at the end.
  unfoldable pub check_iter : ℕ → MdIterator M → Option M × MdIterator M
  check_iter place it = (get_elem? it.md_list place, record it { crnt_iter = some place })

  unfoldable pub start : MdIterator M → Option M × MdIterator M
  unfolding check_iter
  start it = check_iter 0 it

  unfoldable pub next : MdIterator M → Run (Option M × MdIterator M)
  unfolding check_iter
  next it = elim it.crnt_iter [
    | none ↦ undefined
    | some place ↦
        if ltb place (length it.md_list) then done (check_iter (place + 1) it) else undefined
  ]

  -- The loop of the class comment: `while (child != NULL) { ...; child = iter.next(); }`
  unfoldable pub visits_from : ℕ → Option M × MdIterator M → Run (List M)
  unfolding next
  visits_from zero r = out_of_fuel
  visits_from (suc fuel) (none, it) = done []
  visits_from (suc fuel) (some md, it) = do r ← next it; rest ← visits_from fuel r; done (md ∷ rest)

  unfoldable pub visits : MdIterator M → Run (List M)
  unfolding visits_from start
  visits it = visits_from (length it.md_list + 1) (start it)

  visits_from-drop :
      (fuel place : ℕ) (it : MdIterator M)
      → length (drop place it.md_list) < fuel
      → visits_from fuel (check_iter place it) ≡ done (drop place it.md_list)
  unfolding visits_from check_iter
  visits_from-drop zero place it lt = absurd (omega arith)
  visits_from-drop (suc fuel) place it lt = elim (Option-cases (get_elem? it.md_list place)) [
    | inl e ↦ rw (e, drop-none it.md_list place e) refl
    | inr (a, e) ↦
        let shorter : drop place it.md_list ≡ a ∷ drop (place + 1) it.md_list =
          rw add-one (drop-cons it.md_list place a e) in
        let inside = get_elem?-inside it.md_list place a e in
        let rest =
          visits_from-drop fuel (place + 1) (record it { crnt_iter = some place })
            (omega (arith, ap length shorter)) in
        let runs : ltb place (length it.md_list) ≡ true = ground (arith, inside) in
        rw (e, shorter, runs, rest) refl
  ]

  -- The loop over an iterator ends and passes every instance of its list once, in order. So does the
  -- loop over a copy, wherever the loop over the original stands.
  pub visits-md_list :
      (it : MdIterator M) → (visits it ≡ done it.md_list) × (visits (assign it) ≡ done it.md_list)
  unfolding visits assign start
  visits-md_list it = (
    visits_from-drop (length it.md_list + 1) 0 it (omega arith),
    visits_from-drop (length it.md_list + 1) 0 (assign it) (omega arith),
  )
