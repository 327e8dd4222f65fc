-- ===== src/Xml.antt =====
-- src/PmtAccessor/XMLEncoder.cpp: the escaping of a text for XML. A text is the list of its
-- characters' codes.
use pmt.Common.{
  all, not, ◌||◌, ℕ, zero, suc, ◌≡◌, refl, ap, Bool, true, Option, none, some, [], ◌∷◌, ◌++◌, ◌==◌,
  if◌then◌else◌, arith,
}
use native.Mathlib.Decide.{ℕ_discrete}
use pmt.Common.Text.{Text, is_prefix}

-- `mCharacterMappings`, as Initialize fills it.
unfoldable pub mapping : ℕ → Option Text
mapping c =
    if c == b'&'
    then some (b'&' ∷ b'a' ∷ b'm' ∷ b'p' ∷ b';' ∷ [])
    else if c == b'<'
    then some (b'&' ∷ b'l' ∷ b't' ∷ b';' ∷ [])
    else if c == b'>'
    then some (b'&' ∷ b'g' ∷ b't' ∷ b';' ∷ [])
    else if c == b'"'
    then some (b'&' ∷ b'q' ∷ b'u' ∷ b'o' ∷ b't' ∷ b';' ∷ [])
    else none

unfoldable pub encode : Text → Text
encode [] = []
encode (c ∷ org) =
    let rest = encode org in elim (mapping c) [ none ↦ c ∷ rest | some text ↦ text ++ rest ]

-- What an XML reader makes of the four entities, with the characters of one to be skipped; every
-- other character stands for itself.
unfoldable pub decode_from : ℕ → Text → Text
decode_from skipped [] = []
decode_from (suc skipped) (c ∷ s) = decode_from skipped s
decode_from zero (c ∷ s) =
    let all = c ∷ s in
    if is_prefix (b'&' ∷ b'a' ∷ b'm' ∷ b'p' ∷ b';' ∷ []) all
    then b'&' ∷ decode_from 4 s
    else if is_prefix (b'&' ∷ b'l' ∷ b't' ∷ b';' ∷ []) all
    then b'<' ∷ decode_from 3 s
    else if is_prefix (b'&' ∷ b'g' ∷ b't' ∷ b';' ∷ []) all
    then b'>' ∷ decode_from 3 s
    else if is_prefix (b'&' ∷ b'q' ∷ b'u' ∷ b'o' ∷ b't' ∷ b';' ∷ []) all
    then b'"' ∷ decode_from 5 s
    else c ∷ decode_from 0 s

-- Reading an encoded text gives the text back.
pub decode-encode : (s : Text) → decode_from 0 (encode s) ≡ s
unfolding decode_from encode mapping is_prefix
decode-encode [] = refl
decode-encode (c ∷ s) =
    let rest = decode-encode s in
    elim (ℕ_discrete c b'&') [
      | yes amp ↦ rw amp (ap (λ (r : Text). b'&' ∷ r) rest)
      | no not_amp ↦ elim (ℕ_discrete c b'<') [
        | yes lt ↦ rw lt (ap (λ (r : Text). b'<' ∷ r) rest)
        | no not_lt ↦ elim (ℕ_discrete c b'>') [
          | yes gt ↦ rw gt (ap (λ (r : Text). b'>' ∷ r) rest)
          | no not_gt ↦ elim (ℕ_discrete c b'"') [
            | yes quot ↦ rw quot (ap (λ (r : Text). b'"' ∷ r) rest)
            | no not_quot ↦ ground (arith, rest)
          ]
        ]
      ]
    ]

-- The characters that end a text or a quoted value.
abbrev pub is_markup : ℕ → Bool
is_markup c = c == b'<' || c == b'>' || c == b'"'

-- An encoded text has no `<`, no `>` and no `"`.
pub encode-all : (s : Text) → all (λ c. not (is_markup c)) (encode s) ≡ true
unfolding encode mapping all
encode-all [] = refl
encode-all (c ∷ s) = ground (arith, encode-all s)
