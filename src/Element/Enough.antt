-- ===== src/Element/Enough.antt =====
-- getMetadatum of a PmtVectorElement of PmtElement.cpp when the factory knows the key.
use pmt.Common.{
  Bool-cases, ltb, if◌then◌else◌, get_elem?-some, Bool, ◌<◌, ℕ, zero, suc, ◌+◌, ◌^◌, ◌≡◌, refl,
  true, some, List, max, length, get_elem?, arith, Option-cases, inl, inr,
}
use pmt.Common.Text.{Text}
use pmt.Element.{
  Outcome, get_from_vector, get_filled, get_checking_for_min_occurrences, Metadata, Declaration,
  create_from_factory, get_or_create, create_occurrences, fill, rounds_of,
}
use pmt.Element.Create.{get_from_vector-Gives, Extends-length, fill-Fill, rounds_of-small}

-- The factory of the parent makes an instance whenever it is asked for the key.
abbrev pub NeverRefuses : {M S : Type 0} → Metadata M S → M → Text → Type 0
NeverRefuses {M} {S} metadata parent key =
    (s : S) → (m : M) × ((metadata.create parent key s).0 ≡ some m)

module _ {M S : Type 0} (metadata : Metadata M S) (parent : M) (d : Declaration)
    (never : NeverRefuses metadata parent d.full_key) (few : d.min_occurs < 2 ^ 31) where
  get_or_create-made :
      (n : ℕ) (items : List M) (s : S)
      → (m : M) × ((get_or_create metadata parent d n items s).result ≡ some m)
  unfolding get_or_create create_from_factory
  get_or_create-made n items s = elim (Option-cases (get_elem? items n)) [
    | inr (m, e) ↦ (m, ground (arith, e))
    | inl e ↦ let (m, f) = never s in (m, ground (arith, e, f))
  ]

  create_occurrences-true :
      (rounds counter : ℕ) (items : List M) (s : S)
      → (create_occurrences metadata parent d rounds counter items s).result ≡ true
  unfolding create_occurrences
  create_occurrences-true zero counter items s = refl
  create_occurrences-true (suc rounds) counter items s =
      elim (Option-cases (get_elem? items counter)) [
        | inr (m, e) ↦
            let rest = create_occurrences-true rounds (counter + 1) items s in
            ground (arith, e, rest)
        | inl e ↦
            let (m, f) = get_or_create-made counter items s in
            let rest =
              create_occurrences-true rounds (counter + 1)
                (get_or_create metadata parent d counter items s).items
                (get_or_create metadata parent d counter items s).store in
            ground (arith, e, f, rest)
      ]

  fill-true :
      (target : ℕ) (items : List M) (s : S) → (fill metadata parent d target items s).result ≡ true
  unfolding fill
  fill-true target items s =
      let made = create_occurrences-true (rounds_of target) 0 items s in ground (arith, made)

  fill-length :
      (target : ℕ) (items : List M) (s : S)
      → target < 2 ^ 31
      → length (fill metadata parent d target items s).items ≡ max (length items) target
  fill-length target items s small =
      let filled = fill-Fill metadata parent d target items s in
      omega (
        arith,
        rounds_of-small target small,
        filled.bounded,
        filled.filled (fill-true target items s),
        Extends-length filled.extends,
      )

  -- Behind the fillings the instance stands there.
  get_filled-made :
      (n : ℕ) (f : Outcome Bool M S)
      → f.result ≡ true
      → n < length f.items
      → ((m : M) × ((get_filled metadata parent d n f).result ≡ some m))
        × (length (get_filled metadata parent d n f).items ≡ length f.items)
  unfolding get_filled get_or_create
  get_filled-made n f made there =
      let (m, e) = get_elem?-some f.items n there in
      ((m, ground (arith, made, there, e)), ground (arith, made, there, e))

  checking-made :
      (n : ℕ) (items : List M) (s : S)
      → n + 1 < 2 ^ 31
      → n < d.max_occurs
      → ((m : M) × ((get_checking_for_min_occurrences metadata parent d n items s).result ≡ some m))
        × (length (get_checking_for_min_occurrences metadata parent d n items s).items
            ≡ max (max (length items) d.min_occurs) (n + 1))
  unfolding get_checking_for_min_occurrences
  checking-made n items s small room =
      let low = fill metadata parent d d.min_occurs items s in
      let high = fill metadata parent d (n + 1) low.items low.store in
      let low_made : low.result ≡ true = fill-true d.min_occurs items s in
      let low_size : length low.items ≡ max (length items) d.min_occurs =
        fill-length d.min_occurs items s few in
      let high_size : length high.items ≡ max (length low.items) (n + 1) =
        fill-length (n + 1) low.items low.store small in
      let ((m, e), size) =
        get_filled-made n high (fill-true (n + 1) low.items low.store) (omega (arith, high_size)) in
      (
        (m, ground (arith, low_made, e, room)),
        ground (arith, low_made, room, size, high_size, low_size),
      )

  vector-made :
      (n : ℕ) (items : List M) (s : S)
      → n + 1 < 2 ^ 31
      → n < d.max_occurs
      → ((m : M) × ((get_from_vector metadata parent d n true items s).result ≡ some m))
        × (length (get_from_vector metadata parent d n true items s).items
            ≡ (if ltb n (length items) then length items else max (n + 1) d.min_occurs))
  unfolding get_from_vector
  vector-made n items s small room = elim (Bool-cases (ltb n (length items))) [
    | inl there ↦
        let (m, e) = get_elem?-some items n (ground arith) in
        ((m, ground (arith, there, e)), ground (arith, there))
    | inr absent ↦
        let ((m, e), size) = checking-made n items s small room in
        ((m, ground (arith, absent, e)), ground (arith, absent, size))
  ]

  -- Asking a vector for an occurrence below the schema's `maxOccurs` returns an instance, and it
  -- stands at that occurrence afterwards. An occurrence that was there adds none; otherwise the
  -- vector grows to the occurrence, or to `minOccurs` where that is more. This is for a factory that
  -- makes an instance whenever it is asked for the element's key, and for `minOccurs` and the number
  -- of instances asked for below 2 ^ 31, since createOccurrenceMetadata takes an `int`.
  pub get_from_vector-made :
      (n : ℕ) (items : List M) (s : S)
      → n + 1 < 2 ^ 31
      → n < d.max_occurs
      → ((m : M) × ((get_from_vector metadata parent d n true items s).result ≡ some m)
          × (get_elem? (get_from_vector metadata parent d n true items s).items n ≡ some m))
        × (length (get_from_vector metadata parent d n true items s).items
            ≡ (if ltb n (length items) then length items else max (n + 1) d.min_occurs))
  get_from_vector-made n items s small room =
      let ((m, e), size) = vector-made n items s small room in
      ((m, e, (get_from_vector-Gives metadata parent d n true items s).found m e), size)
