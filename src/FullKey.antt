-- ===== src/FullKey.antt =====
-- key and fullKey of src/PmtCore/PmtMetadata.cpp. The parents of an instance are a list, the nearest
-- first and the root last.
pub mod Decimal
pub mod Parsed
pub mod Levels
use pmt.Common.{
  ℕ, zero, suc, ◌+◌, ◌/◌, ◌%◌, Bool, true, false, ◌&&◌, List, [], ◌∷◌, ◌++◌, if◌then◌else◌, ltb,
}
use pmt.Common.Text.{Text}

-- What key reads of an instance.
pub record Instance : Type 0 where
  pub metadata_key : Text
  pub occurrence : ℕ
  pub multiple_occurrence : Bool

-- `%u`, with the digits that there are left.
unfoldable pub decimal : ℕ → ℕ → Text
decimal zero n = []
decimal (suc digits) n =
    let higher = decimal digits (n / 10) in
    if ltb n 10 then (b'0' + n) ∷ [] else higher ++ (b'0' + n % 10) ∷ []

-- key. An `unsigned int` has at most ten digits, so that the buffer holds them all.
unfoldable pub key : Bool → Instance → Text
key include_occurrence md =
    if include_occurrence && md.multiple_occurrence
    then md.metadata_key ++ b'[' ∷ (decimal 10 md.occurrence ++ b']' ∷ [])
    else md.metadata_key

-- fullKey, which leaves the root out.
unfoldable pub full_key : Bool → Instance → List Instance → Text
full_key include_occurrence md [] = key include_occurrence md
full_key include_occurrence md (cmd ∷ []) = key include_occurrence md
full_key include_occurrence md (cmd ∷ grand ∷ above) =
    full_key include_occurrence cmd (grand ∷ above) ++ b'.' ∷ key include_occurrence md
