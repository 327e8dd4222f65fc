-- ===== src/Aliases/Members.antt =====
-- getKeyList of PmtAliases.cpp: sorting and the removal of duplicates.
use pmt.Common.{◌≡◌, Bool, true, false, ◌||◌, List, [], ◌∷◌, text_eq, All}
use pmt.Common.Text.{Text}
use pmt.Aliases.{text_ltb}

-- No later text stands before an earlier one.
unfoldable pub IsSorted : List Text → Type 0
IsSorted [] = Unit
IsSorted (t ∷ ts) = All (λ u. text_ltb u t ≡ false) ts × IsSorted ts

-- Every earlier text stands before the later ones, so that no text is there twice.
unfoldable pub IsStrict : List Text → Type 0
IsStrict [] = Unit
IsStrict (t ∷ ts) = All (λ u. text_ltb t u ≡ true) ts × IsStrict ts

unfoldable pub elem : Text → List Text → Bool
elem x [] = false
elem x (t ∷ ts) = text_eq x t || elem x ts
