-- ===== src/Examples/Iterators.antt =====
-- Iterators over instances.
use pmt.Common.{ℕ, ◌≡◌, refl, some, [], ◌∷◌}
use pmt.Common.Run.{done, undefined}
use pmt.MdIterator.{MdIterator, visits, assign, next, insert, visits-md_list}

-- An iterator at the second of three instances.
abbrev midway : MdIterator ℕ
midway = record { md_list = 4 ∷ 8 ∷ 6 ∷ []; crnt_iter = some 1 }

visits-md_list_example :
    (visits midway ≡ done (4 ∷ 8 ∷ 6 ∷ [])) × (visits (assign midway) ≡ done (4 ∷ 8 ∷ 6 ∷ []))
visits-md_list_example = visits-md_list midway

abbrev midway_at : ℕ → MdIterator ℕ
midway_at place = record midway { crnt_iter = some place }

-- A copy points into the list of the original until it is started.
copy_cannot_go_on : next (assign midway) ≡ undefined
unfolding next assign
copy_cannot_go_on = refl

-- At the end a new instance does not come into view.
inserted_behind_the_end : (insert 5 (midway_at 3)).crnt_iter ≡ some 4
unfolding insert
inserted_behind_the_end = refl
