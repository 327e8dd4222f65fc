-- ===== src/Examples/Maps.antt =====
-- Maps of EkMapT.h.
use pmt.Common.{some, ℕ, ◌≡◌, refl, true, List, [], ◌∷◌, text_eq}
use pmt.Common.Text.{Text}
use pmt.Aliases.{text_ltb}
use pmt.Factory.{add_entry, remove_entry}
use pmt.MapT.{
  find, count, insert_range, multi_insert, insert, erase, upper_bound, lower_bound, is_just_before,
  insert_at,
}
use pmt.MapT.Insertion.{IsRising, insert-add_entry}
use pmt.MapT.Lookup.{find-insert}
use pmt.Common.Run.{done}
use pmt.MapT.Erasure.{erase-remove_entry}

abbrev two_entries : List (Text × ℕ)
two_entries = (b'A' ∷ [], 5) ∷ (b'C' ∷ [], 6) ∷ []

two_entries-IsRising : IsRising two_entries
unfolding IsRising text_ltb
two_entries-IsRising = ((refl, tt), (tt, tt))

comes_between :
    insert (b'B' ∷ []) 7 two_entries
    ≡ ((1, true), (b'A' ∷ [], 5) ∷ (b'B' ∷ [], 7) ∷ (b'C' ∷ [], 6) ∷ [])
unfolding insert upper_bound is_just_before insert_at text_ltb text_eq
comes_between = refl

erases_last : erase (b'C' ∷ []) two_entries ≡ (true, (b'A' ∷ [], 5) ∷ [])
unfolding erase upper_bound lower_bound text_ltb
erases_last = refl

insert-add_entry_example :
    (((insert (b'B' ∷ []) 7 two_entries).0.1, (insert (b'B' ∷ []) 7 two_entries).1)
      ≡ add_entry (b'B' ∷ []) 7 two_entries)
    × IsRising (insert (b'B' ∷ []) 7 two_entries).1
insert-add_entry_example = insert-add_entry (b'B' ∷ []) 7 two_entries two_entries-IsRising

erase-remove_entry_example : erase (b'C' ∷ []) two_entries ≡ remove_entry (b'C' ∷ []) two_entries
erase-remove_entry_example = erase-remove_entry (b'C' ∷ []) two_entries two_entries-IsRising

find-insert_example :
    (find (b'B' ∷ []) (insert (b'B' ∷ []) 7 two_entries).1 ≡ (insert (b'B' ∷ []) 7 two_entries).0.0)
    × (count (b'B' ∷ []) (insert (b'B' ∷ []) 7 two_entries).1 ≡ 1)
    × (erase (b'B' ∷ []) (insert (b'B' ∷ []) 7 two_entries).1
        ≡ (true, (erase (b'B' ∷ []) two_entries).1))
find-insert_example = find-insert (b'B' ∷ []) 7 two_entries two_entries-IsRising

-- The insertion of a range inserts nothing.
range_is_dropped : insert_range (some two_entries) [] ≡ done []
unfolding insert_range
range_is_dropped = refl

-- A multimap counts two entries with a key as one.
two_count_as_one : count (b'A' ∷ []) (multi_insert (b'A' ∷ []) 9 two_entries).1 ≡ 1
unfolding count multi_insert text_ltb text_eq
two_count_as_one = refl
