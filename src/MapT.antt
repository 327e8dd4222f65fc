-- ===== src/MapT.antt =====
-- src/Ek/EkMapT.h: the map that is a list of its entries. An iterator is a place in the list, and the
-- end is its length. The searches are those of the branch for _MSC_VER, the compiler whose libraries
-- the class is for; `std::lower_bound` and `std::upper_bound` are written out as the first place that
-- they are documented to return. Keys are ptstrings, ordered by `less`.
pub mod Erasure
pub mod Insertion
pub mod Place
pub mod Lookup
use pmt.Common.{
  ℕ, suc, zero, ◌+◌, ◌-◌, Bool, true, false, not, ◌==◌, Option, none, some, List, [], ◌∷◌, ◌++◌,
  if◌then◌else◌, length, get_elem?, take, drop, text_eq,
}
use pmt.Common.Run.{Run, done, undefined}
use pmt.Common.Text.{Text}
use pmt.Aliases.{text_ltb}

module _ {V : Type 0} where
  unfoldable pub lower_bound : Text → List (Text × V) → ℕ
  lower_bound key [] = 0
  lower_bound key ((k, v) ∷ v_map) =
      let later = lower_bound key v_map in if text_ltb k key then suc later else 0

  unfoldable pub upper_bound : Text → List (Text × V) → ℕ
  upper_bound key [] = 0
  upper_bound key ((k, v) ∷ v_map) =
      let later = upper_bound key v_map in if text_ltb key k then 0 else suc later

  unfoldable pub insert_at : ℕ → Text × V → List (Text × V) → List (Text × V)
  insert_at zero vt v_map = vt ∷ v_map
  insert_at (suc place) vt [] = vt ∷ []
  insert_at (suc place) vt (entry ∷ v_map) = entry ∷ insert_at place vt v_map

  -- `(s != begin()) && ((*(--testIt)).first == vt.first)`
  unfoldable pub is_just_before : ℕ → Text → List (Text × V) → Bool
  is_just_before zero key v_map = false
  is_just_before (suc place) key [] = false
  is_just_before (suc zero) key ((k, v) ∷ v_map) = text_eq k key
  is_just_before (suc (suc place)) key (entry ∷ v_map) = is_just_before (suc place) key v_map

  -- insert(vt): the place of the entry with the key, whether it is new, and the map.
  unfoldable pub insert : Text → V → List (Text × V) → (ℕ × Bool) × List (Text × V)
  insert key value v_map =
      let s = upper_bound key v_map in
      if is_just_before s key v_map
      then ((s - 1, false), v_map)
      else ((s, true), insert_at s (key, value) v_map)

  -- erase(key): whether there was an entry, and the map.
  unfoldable pub erase : Text → List (Text × V) → Bool × List (Text × V)
  erase key v_map =
      let first = lower_bound key v_map in
      let last = upper_bound key v_map in
      if first == last then (false, v_map) else (true, take first v_map ++ drop last v_map)

  -- find: the place of the first entry with the key, or the end.
  unfoldable pub find : Text → List (Text × V) → ℕ
  find key [] = 0
  find key ((k, v) ∷ v_map) = let later = find key v_map in if text_eq k key then 0 else suc later

  unfoldable pub count : Text → List (Text × V) → ℕ
  unfolding find
  count key v_map = if find key v_map == length v_map then 0 else 1

  unfoldable pub equal_range : Text → List (Text × V) → ℕ × ℕ
  unfolding lower_bound upper_bound
  equal_range key v_map = (lower_bound key v_map, upper_bound key v_map)

  -- `operator[]`: the place of the entry that it gives, and the map; `default` is `V()`.
  unfoldable pub subscript : V → Text → List (Text × V) → ℕ × List (Text × V)
  unfolding insert
  subscript default key v_map = let (ib, v_map') = insert key default v_map in (ib.0, v_map')

  -- insert(it, vt), which does not use the place.
  unfoldable pub insert_hint : ℕ → Text → V → List (Text × V) → ℕ × List (Text × V)
  unfolding insert
  insert_hint it key value v_map = let (ib, v_map') = insert key value v_map in (ib.0, v_map')

  -- insert(first, last), with `none` for NULL pointers: the loop runs while its pointer is NULL, and
  -- then reads through it.
  unfoldable pub insert_range : Option (List (Text × V)) → List (Text × V) → Run (List (Text × V))
  insert_range none v_map = undefined
  insert_range (some entries) v_map = done v_map

  -- erase(first, last) and erase(it)
  unfoldable pub erase_range : ℕ → ℕ → List (Text × V) → List (Text × V)
  erase_range first last v_map = take first v_map ++ drop last v_map

  unfoldable pub erase_at : ℕ → List (Text × V) → List (Text × V)
  unfolding erase_range
  erase_at it v_map = erase_range it (it + 1) v_map

  -- EkMultiMapT has the searches and erasures above, and an insert that keeps what is there.
  unfoldable pub multi_insert : Text → V → List (Text × V) → ℕ × List (Text × V)
  unfolding upper_bound insert_at
  multi_insert key value v_map =
      let s = upper_bound key v_map in (s, insert_at s (key, value) v_map)

  unfoldable pub multi_subscript : V → Text → List (Text × V) → ℕ × List (Text × V)
  unfolding multi_insert
  multi_subscript default key v_map = multi_insert key default v_map
