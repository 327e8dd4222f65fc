-- ===== src/Examples/Keys.antt =====
-- Keys and occurrence specifications.
use pmt.Common.{List, All, length, map}
use pmt.Common.Text.{codes}
use pmt.FullKey.{Instance, decimal, key, full_key}
use pmt.FullKey.Parsed.{IsNamed, meant}
use pmt.FullKey.Levels.{chain, read_path, full_key-read_path}
use pmt.Common.{◌≡◌, refl, true, false, not, ◌&&◌, some, [], ◌∷◌, ◌++◌, ◌==◌, arith, all}
use pmt.Common.Run.{done}
use pmt.Common.Text.{Text}
use pmt.Key.{is_multi_level_wildcard_test_ok}
use pmt.Key.Wildcard.{wildcard_test-stars_ok, stars_ok, bare_stars}
use pmt.Occurrence.{
  Occurrence, new, parse_key_for_occurrences, parse_occurrence_specification, is_number,
  digits_value,
}
use pmt.Occurrence.Parse.{Argument, number, range, IsArgument}
use pmt.Occurrence.Specification.{Gap, AreArguments, specification_text, meanings}
use pmt.Occurrence.Brackets.{recorded, parse_key-meanings}
use pmt.Occurrence.Ends.{Ends, parse_key_for_occurrences-Ends}
use pmt.Occurrence.Visits.{visits, requested, visits-requested}

-- `Lens*`
abbrev lens : Text
lens = b'L' ∷ b'e' ∷ b'n' ∷ b's' ∷ b'*' ∷ []

wildcard_test-stars_ok_example :
    is_multi_level_wildcard_test_ok lens ≡ done (stars_ok lens (bare_stars 0 0 lens))
wildcard_test-stars_ok_example = wildcard_test-stars_ok lens

-- `3`, and `0-2`
abbrev three : Argument
three = number (b'3' ∷ [])

abbrev zero_to_two : Argument
zero_to_two = range (b'0' ∷ []) (b'2' ∷ [])

three-IsArgument : IsArgument three
unfolding IsArgument is_number all digits_value
three-IsArgument = (λ e. cc e, refl, omega arith)

zero_to_two-IsArgument : IsArgument zero_to_two
unfolding IsArgument is_number all digits_value
zero_to_two-IsArgument = ((λ e. cc e, refl, omega arith), (λ e. cc e, refl, omega arith))

-- `, ` between the two arguments
abbrev comma_space : Gap
comma_space = record { first = b','; second = some b' ' }

gap-AreArguments : AreArguments ((comma_space, three) ∷ [])
gap-AreArguments = (((refl, λ c e. ground (arith, e)), three-IsArgument), tt)

clean_name : all (λ x. not (b'[' == x) && not (b']' == x)) (b'I' ∷ b'S' ∷ b'O' ∷ []) ≡ true
unfolding all
clean_name = refl

-- `ISO[0-2, 3].x`
parse_key-meanings_example :
    parse_key_for_occurrences
      ((b'I' ∷ b'S' ∷ b'O' ∷ [])
        ++ b'['
          ∷ (specification_text zero_to_two ((comma_space, three) ∷ [])
              ++ b']' ∷ (b'.' ∷ b'x' ∷ [])))
      new
    ≡ done (
      true,
      b'I' ∷ b'S' ∷ b'O' ∷ [],
      recorded (meanings zero_to_two ((comma_space, three) ∷ [])) new,
    )
parse_key-meanings_example =
    parse_key-meanings (b'I' ∷ b'S' ∷ b'O' ∷ []) zero_to_two ((comma_space, three) ∷ [])
      (b'.' ∷ b'x' ∷ []) new (omega arith) clean_name zero_to_two-IsArgument gap-AreArguments

parse_key_for_occurrences-Ends_example : Ends (parse_key_for_occurrences lens new)
parse_key_for_occurrences-Ends_example = parse_key_for_occurrences-Ends lens new

-- Occurrences 2 and 5, in the middle of another loop.
abbrev two_and_five : Occurrence
two_and_five = record {
  is_unspecified = false;
  is_wildcard = false;
  is_explicitly_specified_single = false;
  occurrences = 2 ∷ 5 ∷ [];
  index = 1;
}

visits-requested_example :
    (visits two_and_five ≡ done (requested two_and_five))
    × ((w : Occurrence) × (parse_occurrence_specification (b'*' ∷ []) new ≡ done (true, w))
        × (w.is_wildcard ≡ true)
        × (visits w ≡ done []))
visits-requested_example = visits-requested two_and_five refl

-- CaptureDevice.Lens[12].Maker below the root.
abbrev maker : Instance
maker = record { metadata_key = codes "Maker"; occurrence = 1; multiple_occurrence = false }

abbrev parents : List Instance
parents =
    record { metadata_key = codes "Lens"; occurrence = 12; multiple_occurrence = true }
    ∷ record { metadata_key = codes "CaptureDevice"; occurrence = 1; multiple_occurrence = false }
    ∷ record { metadata_key = codes "root"; occurrence = 1; multiple_occurrence = false }
    ∷ []

maker_key : full_key true maker parents ≡ codes "CaptureDevice.Lens[12].Maker"
unfolding full_key key decimal
maker_key = refl

chain-IsNamed : All IsNamed (chain maker parents)
unfolding chain all
chain-IsNamed = (
  (omega arith, refl, omega arith),
  ((omega arith, refl, omega arith), ((omega arith, refl, omega arith), tt)),
)

full_key-read_path_example :
    read_path (length (chain maker parents)) (full_key true maker parents)
    ≡ done (map meant (chain maker parents))
full_key-read_path_example = full_key-read_path maker parents chain-IsNamed
