-- ===== src/Aliases.antt =====
-- src/PmtCore/PmtAliases.h and PmtAliases.cpp: names that stand for lists of keys. The `map` is the
-- list of its entries in the order of their names, which is that of `strcmp` on bytes. One thread at
-- a time holds the lock.
pub mod Order
pub mod Range
pub mod Insert
pub mod Members
use pmt.Common.{
  ℕ, zero, suc, ◌+◌, ◌-◌, Bool, true, false, not, ◌&&◌, ◌||◌, Option, none, some, List, [], ◌∷◌,
  ◌++◌, ltb, ◌==◌, if◌then◌else◌, length, text_eq,
}
use pmt.Common.Run.{Run, done, undefined, ◌>>=◌}
use pmt.Common.Text.{Text, char_at, find, substr}

-- `operator <`
unfoldable pub text_ltb : Text → Text → Bool
text_ltb [] [] = false
text_ltb [] (c ∷ t) = true
text_ltb (c ∷ s) [] = false
text_ltb (a ∷ s) (b ∷ t) = ltb a b || a == b && text_ltb s t

abbrev pub AliasMap : Type 0
AliasMap = List (Text × List Text)

-- `mAliasMap[aliasKey] = aliasMembers`
unfoldable pub insert : Text → List Text → AliasMap → AliasMap
insert alias_key members [] = (alias_key, members) ∷ []
insert alias_key members ((k, ms) ∷ entries) =
    let later = insert alias_key members entries in
    if text_ltb alias_key k
    then (alias_key, members) ∷ (k, ms) ∷ entries
    else if text_eq alias_key k
    then (alias_key, members) ∷ entries
    else (k, ms) ∷ later

unfoldable pub clear : AliasMap → AliasMap
clear entries = []

-- AliasSubStrComp: the name starts with the key.
unfoldable pub alias_sub_str_comp : Text → Text × List Text → Bool
alias_sub_str_comp key (alias, members) = elim (find key alias) [
  | none ↦ false
  | some pos ↦ pos == 0
]

-- `find_if`, which moves the beginning of a range on.
unfoldable pub find_if : (Text × List Text → Bool) → AliasMap → AliasMap
find_if p [] = []
find_if p (e ∷ entries) = let later = find_if p entries in if p e then e ∷ entries else later

-- From a beginning to the first entry that fails the test.
unfoldable pub range_while : (Text × List Text → Bool) → AliasMap → AliasMap
range_while p [] = []
range_while p (e ∷ entries) = let later = range_while p entries in if p e then e ∷ later else []

-- `mAliasMap.find(key)`, and the entry after it as the end.
unfoldable pub find_entry : Text → AliasMap → AliasMap
find_entry key [] = []
find_entry key ((k, ms) ∷ entries) =
    let later = find_entry key entries in if text_eq k key then (k, ms) ∷ [] else later

-- The entries from `begin` to `end`. The last character of the empty key is read out of bounds.
unfoldable pub find_aliases : Text → AliasMap → Run AliasMap
find_aliases [] entries = undefined
find_aliases (c ∷ s) entries =
    let key = c ∷ s in
    let the_key = substr key 0 (length key - 1) in
    let matches = alias_sub_str_comp the_key in
    if char_at key (length key - 1) == b'*'
    then done (range_while matches (find_if matches entries))
    else done (find_entry key entries)

unfoldable pub all_members : AliasMap → List Text
all_members [] = []
all_members ((k, ms) ∷ entries) = ms ++ all_members entries

-- `list::sort`
unfoldable pub put : Text → List Text → List Text
put t [] = t ∷ []
put t (u ∷ us) = let later = put t us in if text_ltb u t then u ∷ later else t ∷ u ∷ us

unfoldable pub sort : List Text → List Text
sort [] = []
sort (t ∷ ts) = put t (sort ts)

-- `list::unique`, with the element before.
unfoldable pub unique_after : Text → List Text → List Text
unique_after t [] = []
unique_after t (u ∷ us) = let later = unique_after u us in if text_eq t u then later else u ∷ later

unfoldable pub unique : List Text → List Text
unique [] = []
unique (t ∷ ts) = t ∷ unique_after t ts

-- getKeyList, which appends to the list that it is given, and sorts all of it.
unfoldable pub get_key_list : Text → List Text → AliasMap → Run (List Text)
get_key_list alias_key return_key_list entries = do
  found ← find_aliases alias_key entries
  done (unique (sort (return_key_list ++ all_members found)))
