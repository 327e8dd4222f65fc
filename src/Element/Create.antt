-- ===== src/Element/Create.antt =====
-- What getMetadatum of PmtElement.cpp makes and returns.
use mathlib.Core.List.{append-nil, append_assoc}
use pmt.Common.{
  ℕ, zero, suc, ◌+◌, ◌%◌, ◌^◌, ◌≤◌, ◌<◌, ◌≡◌, ◌&&◌, refl, ap, ◌∙◌, sym, Bool, true, false, Option,
  none, some, List, [], ◌∷◌, ◌++◌, max, ltb, leb, if◌then◌else◌, length, get_elem?, arith,
  Option-cases, Bool-cases, inl, inr, get_elem?-append_last, length-append,
}
use pmt.Element.{
  rounds_of, Metadata, Declaration, Outcome, create_from_factory, get_or_create, create_occurrences,
  fill, rounds_of, get_filled, get_checking_for_min_occurrences, get_from_vector,
}

-- The instances that were there stay where they were.
pub record Extends {M : Type 0} (xs ys : List M) : Type 0 where
  pub added : List M
  pub is_append : ys ≡ xs ++ added

module _ {M : Type 0} where
  pub Extends-refl : (xs : List M) → Extends xs xs
  Extends-refl xs = record { added = []; is_append = sym (append-nil xs) }

  pub Extends-trans : {xs ys zs : List M} → Extends xs ys → Extends ys zs → Extends xs zs
  Extends-trans {xs} e f = record {
    added = e.added ++ f.added;
    is_append =
        f.is_append
        ∙ ap (λ (r : List M). r ++ f.added) e.is_append
        ∙ append_assoc xs e.added f.added;
  }

  pub Extends-length : {xs ys : List M} → Extends xs ys → length xs ≤ length ys
  Extends-length {xs} e = omega (arith, ap length e.is_append, length-append xs e.added)

  size_of_none : (items : List M) (n : ℕ) → get_elem? items n ≡ none → length items ≤ n
  size_of_none [] n h = omega arith
  size_of_none (x ∷ items) zero h = cc
  size_of_none (x ∷ items) (suc n) h = omega (arith, size_of_none items n h)

  pub get_elem?-size :
      (items : List M) (n : ℕ) (m : M) → get_elem? items n ≡ some m → n < length items
  get_elem?-size [] n m h = cc
  get_elem?-size (x ∷ items) zero m h = omega arith
  get_elem?-size (x ∷ items) (suc n) m h = omega (arith, get_elem?-size items n m h)

pub rounds_of-le : (n : ℕ) → rounds_of n ≤ n
unfolding rounds_of
rounds_of-le n = ground arith

-- A number below 2 ^ 31 stays what it is.
pub rounds_of-small : (n : ℕ) → n < 2 ^ 31 → rounds_of n ≡ n
unfolding rounds_of
rounds_of-small n small = let bits : n % 2 ^ 32 ≡ n = omega arith in ground (arith, bits, small)

module _ {M S : Type 0} (metadata : Metadata M S) (parent : M) (d : Declaration) where
  -- A vector grows by at most the entry that is asked for.
  pub record Step (n : ℕ) (items : List M) (r : Outcome (Option M) M S) : Type 0 where
    pub extends : Extends items r.items
    pub bounded : length r.items ≤ max (length items) (suc n)
    pub found : (m : M) → r.result ≡ some m → get_elem? r.items n ≡ some m
    pub failed : r.result ≡ none → r.items ≡ items

  pub get_or_create-Step :
      (n : ℕ) (items : List M) (s : S)
      → n ≤ length items
      → Step n items (get_or_create metadata parent d n items s)
  unfolding get_or_create
  get_or_create-Step n items s le = elim (Option-cases (get_elem? items n)) [
    | inr (m, e) ↦
        rw (e, get_or_create)
          (record {
            extends = Extends-refl items;
            bounded = omega arith;
            found = λ m' h. cc (e, h);
            failed = λ h. cc h;
          })
    | inl e ↦
        let at_end : length items ≡ n = omega (arith, size_of_none items n e) in
        rw (e, get_or_create)
          (elim (Option-cases (create_from_factory metadata parent d n s).0) [
            | inl f ↦ rw f (record {
              extends = Extends-refl items;
              bounded = omega arith;
              found = λ m' h. cc h;
              failed = λ h. refl;
            })
            | inr (m, f) ↦ rw f (record {
              extends = record { added = m ∷ []; is_append = refl };
              bounded = omega (arith, length-append items (m ∷ []));
              found = λ m' h. rw (← at_end) (get_elem?-append_last items m ∙ h);
              failed = λ h. cc h;
            })
          ])
  ]

  -- Filling the vector up to `target` entries.
  pub record Fill (target : ℕ) (items : List M) (r : Outcome Bool M S) : Type 0 where
    pub extends : Extends items r.items
    pub bounded : length r.items ≤ max (length items) target
    pub filled : r.result ≡ true → target ≤ length r.items

  pub create_occurrences-Fill :
      (rounds counter : ℕ) (items : List M) (s : S)
      → counter ≤ length items
      → Fill (counter + rounds) items (create_occurrences metadata parent d rounds counter items s)
  unfolding create_occurrences
  create_occurrences-Fill zero counter items s le = record {
    extends = Extends-refl items;
    bounded = omega arith;
    filled = λ h. omega arith;
  }
  create_occurrences-Fill (suc rounds) counter items s le =
      elim (Option-cases (get_elem? items counter)) [
        | inr (m, e) ↦
            let lt = get_elem?-size items counter m e in
            let rest = create_occurrences-Fill rounds (counter + 1) items s (omega arith) in
            rw (e, create_occurrences)
              (record {
                extends = rest.extends;
                bounded = omega (arith, rest.bounded);
                filled = λ h. omega (arith, rest.filled h);
              })
        | inl e ↦
            let step = get_or_create-Step counter items s le in
            elim (Option-cases (get_or_create metadata parent d counter items s).result) [
              | inl f ↦
                  rw (e, f, create_occurrences)
                    (record {
                      extends = step.extends;
                      bounded = omega (arith, step.bounded);
                      filled = λ h. cc h;
                    })
              | inr (m, f) ↦
                  let lt = get_elem?-size _ counter m (step.found m f) in
                  let rest =
                    create_occurrences-Fill rounds (counter + 1)
                      (get_or_create metadata parent d counter items s).items
                      (get_or_create metadata parent d counter items s).store (omega arith) in
                  rw (e, f, create_occurrences)
                    (record {
                      extends = Extends-trans step.extends rest.extends;
                      bounded = omega (arith, rest.bounded, step.bounded);
                      filled = λ h. omega (arith, rest.filled h);
                    })
            ]
      ]

  -- What getMetadatum of a vector does to it, whatever the factory makes.
  pub record Gives (n : ℕ) (items : List M) (r : Outcome (Option M) M S) : Type 0 where
    pub extends : Extends items r.items
    pub bounded : length r.items ≤ max (length items) (max d.min_occurs d.max_occurs)
    pub found : (m : M) → r.result ≡ some m → get_elem? r.items n ≡ some m

  pub fill-Fill :
      (target : ℕ) (items : List M) (s : S)
      → Fill (rounds_of target) items (fill metadata parent d target items s)
  unfolding fill
  fill-Fill target items s = elim (Bool-cases (ltb (length items) target)) [
    | inl short ↦
        let made = create_occurrences-Fill (rounds_of target) 0 items s (omega arith) in
        rw short (record {
          extends = made.extends;
          bounded = omega (arith, made.bounded);
          filled = λ h. omega (arith, made.filled h);
        })
    | inr enough ↦ rw enough (record {
      extends = Extends-refl items;
      bounded = omega arith;
      filled = λ h.
          let size : target ≤ length items = ground arith in
          omega (arith, size, rounds_of-le target);
    })
  ]

  -- Behind a filling that ends with at most `limit` entries.
  get_filled-Gives :
      (n : ℕ) (items : List M) (f : Outcome Bool M S)
      → Extends items f.items
      → length f.items ≤ max (length items) (max d.min_occurs d.max_occurs)
      → Gives n items (get_filled metadata parent d n f)
  unfolding get_filled
  get_filled-Gives n items f ext bound =
      elim (Bool-cases (f.result && leb (n + 1) (length f.items))) [
        | inr stop ↦ simp stop (record { extends = ext; bounded = bound; found = λ m h. cc h })
        | inl there ↦
            let size : n < length f.items = ground arith in
            let step = get_or_create-Step n f.items f.store (omega arith) in
            simp there (record {
              extends = Extends-trans ext step.extends;
              bounded = omega (arith, step.bounded);
              found = step.found;
            })
      ]

  checking-Gives :
      (n : ℕ) (items : List M) (s : S)
      → Gives n items (get_checking_for_min_occurrences metadata parent d n items s)
  unfolding get_checking_for_min_occurrences
  checking-Gives n items s =
      let low = fill metadata parent d d.min_occurs items s in
      let first = fill-Fill d.min_occurs items s in
      let second = fill-Fill (n + 1) low.items low.store in
      let fewer = rounds_of-le d.min_occurs in
      let fewer_more = rounds_of-le (n + 1) in
      elim (Bool-cases (leb (n + 1) d.max_occurs)) [
        | inr refused ↦
            rw refused
              (record { extends = Extends-refl items; bounded = omega arith; found = λ m h. cc h })
        | inl allowed ↦
            let room : n + 1 ≤ d.max_occurs = ground arith in
            elim (Bool-cases low.result) [
              | inr failed ↦
                  rw (allowed, failed)
                    (record {
                      extends = first.extends;
                      bounded = omega (arith, first.bounded, fewer);
                      found = λ m h. cc h;
                    })
              | inl made ↦
                  rw (allowed, made)
                    (get_filled-Gives n items _ (Extends-trans first.extends second.extends)
                      (omega (arith, first.bounded, second.bounded, fewer, fewer_more)))
            ]
      ]

  -- Whatever the factory makes, asking a vector for occurrence `n` leaves the instances that were
  -- there in their places, never goes past the larger bound of the schema unless the vector was
  -- there before, and returns only what stands at `n` afterwards.
  pub get_from_vector-Gives :
      (n : ℕ) (b : Bool) (items : List M) (s : S)
      → Gives n items (get_from_vector metadata parent d n b items s)
  unfolding get_from_vector
  get_from_vector-Gives n b items s =
      let same : Gives n items (record { result = get_elem? items n; items = items; store = s }) =
        record { extends = Extends-refl items; bounded = omega arith; found = λ m h. h } in
      elim (Bool-cases (leb (n + 1) (length items))) [
        | inl there ↦ rw there same
        | inr absent ↦
            rw absent
              (elim b
                as (λ c. Gives n items (
                  if c
                  then get_checking_for_min_occurrences metadata parent d n items s
                  else record { result = none; items = items; store = s })) [
                    | true ↦ checking-Gives n items s
                    | false ↦ record {
                      extends = Extends-refl items;
                      bounded = omega arith;
                      found = λ m h. cc h;
                    }
                  ])
      ]
