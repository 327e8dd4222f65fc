-- ===== src/FullKey/Parsed.antt =====
-- The key of an instance as a level of a path, which getMetadatum of PmtCompositeMetadata.cpp parses.
use pmt.Common.{
  ℕ, ◌<◌, ◌≡◌, refl, ap, ◌∙◌, Bool, true, not, some, ◌&&◌, ◌==◌, [], ◌∷◌, ◌++◌, if◌then◌else◌,
  length, length-append, all, arith, Bool-cases, inl, inr,
}
use pmt.Common.Run.{done}
use pmt.Common.Text.{Text, find_char}
use pmt.Common.Text.Laws.{find_char-none, find_char-behind, all-append, all-cons, all_weaken}
use pmt.Occurrence.{Occurrence, add_occurrence, int_max, digits_value, is_digit, is_number}
use pmt.Occurrence
use pmt.Occurrence.Parse.{number, IsArgument, add_all, meaning, text_of, IsNumber}
use pmt.Occurrence.Specification.{specification_text, meanings}
use pmt.Occurrence.Brackets.{parse_key-add_all}
use pmt.Composite.{parse_level, is_occurrence_specified}
use pmt.FullKey.{Instance, decimal, key}
use pmt.FullKey.Decimal.{decimal-IsNumber}

-- Characters of a name: neither a bracket nor the dot.
abbrev name_char : ℕ → Bool
name_char x = not (b'[' == x) && not (b']' == x) && not (b'.' == x)

-- The name is a level of its own, and the occurrence number an `int`.
abbrev pub IsNamed : Instance → Type 0
IsNamed md =
    (0 < length md.metadata_key)
    × (all name_char md.metadata_key ≡ true)
    × (md.occurrence < int_max)

-- What the key of an instance stands for: its name, and its occurrence if there may be several.
unfoldable pub meant : Instance → Text × Occurrence
meant md = (
  md.metadata_key,
  if md.multiple_occurrence then add_occurrence md.occurrence Occurrence.new else Occurrence.new,
)

parse_level-single :
    (name : Text) → all name_char name ≡ true → parse_level name ≡ done (true, name, Occurrence.new)
unfolding parse_level is_occurrence_specified
parse_level-single name clean =
    let absent =
      find_char-none b'[' name
        (all_weaken name_char (λ x. not (b'[' == x)) name (λ x p. ground arith) clean) in
    ground (arith, absent)

parse_level-specified :
    (p : ℕ) (level : Text)
    → find_char b'[' level ≡ some p
    → parse_level level ≡ Occurrence.parse_key_for_occurrences level Occurrence.new
unfolding parse_level is_occurrence_specified
parse_level-specified p level h = ground (arith, h)

parse_level-number :
    (name digits : Text)
    → 0 < length name
    → all name_char name ≡ true
    → IsNumber digits
    → parse_level (name ++ b'[' ∷ (digits ++ b']' ∷ []))
      ≡ done (true, name, add_occurrence (digits_value 0 digits) Occurrence.new)
unfolding specification_text text_of meanings meaning add_all IsArgument
parse_level-number name digits filled clean is_number =
    let opened = parse_level-specified (length name) (name ++ b'[' ∷ (digits ++ b']' ∷ [])) (
      find_char-behind b'[' name (digits ++ b']' ∷ [])
        (all_weaken name_char (λ x. not (b'[' == x)) name (λ x p. ground arith) clean)) in
    let brackets =
      parse_key-add_all name (number digits) [] [] Occurrence.new filled
        (all_weaken name_char (λ x. not (b'[' == x) && not (b']' == x)) name (λ x p. ground arith)
          clean)
        is_number tt in
    opened ∙ brackets

pub parse_level-key :
    (md : Instance)
    → IsNamed md
    → parse_level (key true md) ≡ done (true, (meant md).0, (meant md).1)
unfolding key meant
parse_level-key md (filled, clean, small) = elim (Bool-cases md.multiple_occurrence) [
  | inr single ↦ rw single (parse_level-single md.metadata_key clean)
  | inl several ↦
      let (is_number, value) = decimal-IsNumber md.occurrence small in
      rw several (
        parse_level-number md.metadata_key (decimal 10 md.occurrence) filled clean is_number
        ∙ ap (λ n. done (true, md.metadata_key, add_occurrence n Occurrence.new)) value)
]

pub key-no_dot : (md : Instance) → IsNamed md → all (λ x. not (b'.' == x)) (key true md) ≡ true
unfolding key all
key-no_dot md (filled, clean, small) =
    let name =
      all_weaken name_char (λ x. not (b'.' == x)) md.metadata_key (λ x p. ground arith) clean in
    elim (Bool-cases md.multiple_occurrence) [
      | inr single ↦ rw single name
      | inl several ↦
          let digits = (decimal-IsNumber md.occurrence small).0.1 in
          let no_dot : ℕ → Bool = λ x. not (b'.' == x) in
          let text = decimal 10 md.occurrence in
          rw several (
            all-append no_dot md.metadata_key (b'[' ∷ (text ++ b']' ∷ [])) name (
              all-cons no_dot b'[' (text ++ b']' ∷ []) refl (
                all-append no_dot text (b']' ∷ [])
                  (all_weaken is_digit no_dot text (λ x p. ground (arith, p))
                    (unfold is_number in digits))
                  (all-cons no_dot b']' [] refl refl))))
    ]

pub length-key : (md : Instance) → IsNamed md → 0 < length (key true md)
unfolding key
length-key md (filled, _, _) = elim (Bool-cases md.multiple_occurrence) [
  | inr single ↦ rw single filled
  | inl several ↦
      let brackets = b'[' ∷ (decimal 10 md.occurrence ++ b']' ∷ []) in
      rw several (omega (arith, filled, length-append md.metadata_key brackets))
]
