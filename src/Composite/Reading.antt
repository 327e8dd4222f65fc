-- ===== src/Composite/Reading.antt =====
-- getMetadatum(key, false) of PmtCompositeMetadata.cpp, which may create nothing.
use mathlib.Core.Path.{subst}
use pmt.Common.{
  ℕ, zero, suc, ◌+◌, ◌≤◌, ◌<◌, ◌≡◌, refl, ap, sym, ◌∙◌, Bool, true, false, ◌&&◌, ◌||◌, Option, none,
  some, [], ◌∷◌, if◌then◌else◌, length, arith, Option-cases, Bool-cases, ◌⊎◌, inl, inr,
}
use pmt.Common.Run.{Run, done, undefined, out_of_fuel}
use pmt.Common.Text.{substr, Text, find_char, substr_from}
use pmt.Common.Text.Laws.{substr_from-drop, length-drop}
use pmt.Key
use pmt.Key.Wildcard.{wildcard_test-stars_ok, stars_ok, bare_stars}
use pmt.Occurrence
use pmt.Occurrence.{Occurrence}
use pmt.Occurrence.Overflow.{
  IsPart, IsPart-refl, IsPart-trans, substr-IsPart, substr_from-IsPart, find_char-lt, HasOverflow,
  HasOverflow-part, Meets, Meets-bind, Meets-weaken, Meets-if,
}
use pmt.Occurrence.Listed.{IsListed, parse_key-IsListed, start-IsListed}
use pmt.Composite.{
  Object, Heap, is_composite, split_level, is_occurrence_specified, parse_level,
  get_metadatum_occurrence, get_level, get_metadatum,
}

-- parseKey returns the key or the empty text.
parsed_key : Text → Text
parsed_key [] = []
parsed_key (c ∷ s) = if Key.is_initial_char_ok (c ∷ s) then c ∷ s else []

parsed_ok : Text → Bool
parsed_ok [] = true
parsed_ok (c ∷ s) =
    if Key.is_initial_char_ok (c ∷ s) then stars_ok (c ∷ s) (bare_stars 0 0 (c ∷ s)) else true

parse_key-done : (key : Text) → Key.parse_key key [] ≡ done (parsed_ok key, parsed_key key)
unfolding Key.parse_key parsed_key parsed_ok
parse_key-done [] = refl
parse_key-done (c ∷ s) = let tested = wildcard_test-stars_ok (c ∷ s) in ground (arith, tested)

remainder-shorter :
    (key : Text) (c : ℕ) (rest : Text)
    → (split_level key).1 ≡ c ∷ rest
    → length (c ∷ rest) < length key
unfolding split_level
remainder-shorter key c rest h = elim (Option-cases (find_char b'.' key)) [
  | inl absent ↦ absurd (ground (arith, h, absent))
  | inr (p, there) ↦
      let left : substr_from key (p + 1) ≡ c ∷ rest = ground (arith, h, there) in
      let size = ap length (sym (substr_from-drop key (p + 1)) ∙ left) in
      omega (arith, size, length-drop key (p + 1))
]

parsed_key-length : (key : Text) → length (parsed_key key) ≤ length key
unfolding parsed_key
parsed_key-length [] = omega arith
parsed_key-length (c ∷ s) = ground arith

nil-IsPart : (s : Text) → IsPart [] s
nil-IsPart s = record { front = []; back = s; is_append = refl }

parsed_key-IsPart : (key : Text) → IsPart (parsed_key key) key
unfolding parsed_key
parsed_key-IsPart [] = nil-IsPart []
parsed_key-IsPart (c ∷ s) = elim (Bool-cases (Key.is_initial_char_ok (c ∷ s))) [
  | inl ok ↦ rw ok (IsPart-refl (c ∷ s))
  | inr bad ↦ rw bad (nil-IsPart (c ∷ s))
]

level-IsPart : (key : Text) → IsPart (split_level key).0 key
unfolding split_level
level-IsPart key = elim (Option-cases (find_char b'.' key)) [
  | inl absent ↦
      let whole : (split_level key).0 ≡ key = ground (arith, absent) in
      subst (λ (t : Text). IsPart t key) (sym whole) (IsPart-refl key)
  | inr (p, there) ↦
      let inside = find_char-lt b'.' key p there in
      let front : (split_level key).0 ≡ substr key 0 p = ground (arith, there) in
      subst (λ (t : Text). IsPart t key) (sym front)
        (substr-IsPart key 0 p (omega arith) (omega (arith, inside)))
]

remainder-IsPart : (key : Text) → IsPart (split_level key).1 key
unfolding split_level
remainder-IsPart key = elim (Option-cases (find_char b'.' key)) [
  | inl absent ↦
      let nothing : (split_level key).1 ≡ [] = ground (arith, absent) in
      subst (λ (t : Text). IsPart t key) (sym nothing) (nil-IsPart key)
  | inr (p, there) ↦
      let behind : (split_level key).1 ≡ substr_from key (p + 1) = ground (arith, there) in
      subst (λ (t : Text). IsPart t key) (sym behind) (substr_from-IsPart key (p + 1))
]

parse_level-IsListed :
    (level : Text) → Meets (λ r. IsListed r.2) (HasOverflow level) (parse_level level)
unfolding parse_level
parse_level-IsListed level =
    Meets-if _ _ (is_occurrence_specified level) _ _
      (λ specified. parse_key-IsListed level Occurrence.new (λ single. absurd (cc single)))
      (unfold Meets in λ single. absurd (cc single))

-- What a reading run does: it returns and leaves the heap as it was, or a number of the key overflows.
abbrev pub Reads : Heap → Text → Run (Option ℕ × Heap) → Type 0
Reads heap key r = Meets (λ (p : Option ℕ × Heap). p.1 ≡ heap) (HasOverflow key) r

rest-Reads :
    (again : ℕ → Text → Heap → Run (Option ℕ × Heap)) (heap heap' : Heap) (md : Option ℕ)
    (remainder key : Text)
    → heap' ≡ heap
    → ((m c : ℕ) (rest : Text) → remainder ≡ c ∷ rest → Reads heap key (again m (c ∷ rest) heap))
    → Reads heap key (elim remainder [
      | [] ↦ done (md, heap')
      | c ∷ rest ↦ elim md [ none ↦ done (none, heap') | some m ↦ again m (c ∷ rest) heap' ]
    ])
unfolding Meets
rest-Reads again heap heap' md [] key same goes_on = same
rest-Reads again heap heap' none (c ∷ rest) key same goes_on = same
rest-Reads again heap heap' (some m) (c ∷ rest) key same goes_on =
    subst (λ h. Reads heap key (again m (c ∷ rest) h)) (sym same) (goes_on m c rest refl)

Reads-cases :
    (heap : Heap) (key : Text) (r : Run (Option ℕ × Heap))
    → Reads heap key r
    → ((md : Option ℕ) × (r ≡ done (md, heap))) ⊎ ((r ≡ undefined) × HasOverflow key)
unfolding Meets
Reads-cases heap key (done (md, heap')) same = inl (md, ap (λ (h : Heap). done (md, h)) same)
Reads-cases heap key undefined large = inr (refl, large)
Reads-cases heap key out_of_fuel h = absurd h

module _ (prototype : Text → Option Object) where
  occurrence-reads :
      (this : ℕ) (level : Text) (n : ℕ) (heap : Heap)
      → (get_metadatum_occurrence prototype this level false n heap).1 ≡ heap
  unfolding get_metadatum_occurrence
  occurrence-reads this level n heap = ground arith

  level-Reads :
      (again : ℕ → Text → Heap → Run (Option ℕ × Heap)) (this : ℕ) (remainder key : Text)
      (parsed : Bool) (level : Text) (occurrence : Occurrence) (heap : Heap)
      → IsListed occurrence
      → ((m c : ℕ) (rest : Text) → remainder ≡ c ∷ rest → Reads heap key (again m (c ∷ rest) heap))
      → Reads heap key
          (get_level prototype again this false remainder (parsed, level, occurrence) heap)
  unfolding get_level Meets
  level-Reads again this remainder key parsed level occurrence heap listed goes_on =
      Meets-if _ _
        (parsed && (occurrence.is_unspecified || occurrence.is_explicitly_specified_single)) _
        (done (none, heap))
        (λ asked.
          let (n, e) = start-IsListed occurrence listed (ground (arith, asked)) in
          rw e
            (rest-Reads again heap _ _ remainder key (occurrence-reads this level n heap) goes_on))
        refl

  get_metadatum-Reads :
      (fuel this : ℕ) (key : Text) (heap : Heap)
      → length key < fuel
      → Reads heap key (get_metadatum prototype fuel this key false heap)
  unfolding get_metadatum Meets
  get_metadatum-Reads zero this key heap h = absurd (omega arith)
  get_metadatum-Reads (suc fuel) this key heap h =
      let own = parsed_key-IsPart key in
      let front = IsPart-trans (level-IsPart (parsed_key key)) own in
      let behind = IsPart-trans (remainder-IsPart (parsed_key key)) own in
      Meets-if _ _ (is_composite heap this) _ (done (none, heap))
        (λ composite. rw (parse_key-done key) (
          Meets-if _ _ (parsed_ok key) _ (done (none, heap))
            (λ ok.
              Meets-bind _ _ _ _ (parse_level (split_level (parsed_key key)).0) _
                (parse_level-IsListed _) (HasOverflow-part front)
                (λ l listed.
                  level-Reads _ this (split_level (parsed_key key)).1 key l.0 l.1 l.2 heap listed
                    (λ m c rest e.
                      Meets-weaken _ _ _ (get_metadatum prototype fuel m (c ∷ rest) false heap)
                        (HasOverflow-part (subst (λ (t : Text). IsPart t key) e behind))
                        (get_metadatum-Reads fuel m (c ∷ rest) heap (
                          omega (
                            arith,
                            parsed_key-length key,
                            remainder-shorter (parsed_key key) c rest e,
                          ))))))
            refl))
        refl

  -- Looking a key path up without creating anything ends, whatever the key and the heap are, with a
  -- fuel of one more than the key has characters. It returns and leaves the heap as it was; C++ leaves
  -- it undefined only if digits of a value of at least INT_MAX stand in the key.
  pub get_metadatum_lem :
      (this : ℕ) (key : Text) (heap : Heap)
      → ((md : Option ℕ) × (get_metadatum prototype (length key + 1) this key false heap
            ≡ done (md, heap)))
        ⊎ ((get_metadatum prototype (length key + 1) this key false heap ≡ undefined)
            × HasOverflow key)
  get_metadatum_lem this key heap =
      Reads-cases heap key (get_metadatum prototype (length key + 1) this key false heap)
        (get_metadatum-Reads (length key + 1) this key heap (omega arith))
