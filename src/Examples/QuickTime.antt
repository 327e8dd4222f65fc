-- ===== src/Examples/QuickTime.antt =====
-- Atoms of QuickTime files.
use pmt.Common.{◌-◌, ◌≡◌, refl, Option, none, some, [], ◌∷◌, ◌++◌, if◌then◌else◌, text_eq, arith}
use pmt.Common.Text.{Text, codes}
use pmt.Common.Run.{done}
use pmt.Atom.{
  Kind, container_kind, binary_kind, Atom, container, binary, nil, cons, write_atom, get_next_atom,
}
use pmt.Atom.Written.{IsReadable, rounds}
use pmt.Atom.RoundTrip.{read_next, read_next-write}

-- The factory knows containers `moov` and values `data`.
abbrev kinds : Text → Option Kind
kinds t =
    if text_eq t (codes "moov")
    then some container_kind
    else if text_eq t (codes "data")
    then some binary_kind
    else none

abbrev movie : Atom
movie = container (codes "moov") (cons (binary (codes "data") (7 ∷ 8 ∷ [])) nil)

movie_bytes :
    write_atom movie
    ≡ (0 ∷ 0 ∷ 0 ∷ 18 ∷ codes "moov" ++ 0 ∷ 0 ∷ 0 ∷ 10 ∷ codes "data" ++ 7 ∷ 8 ∷ [], 18)
unfolding write_atom
movie_bytes = refl

-- A value without bytes at the end of the buffer is not read.
empty_is_not_read : get_next_atom kinds (0 ∷ 0 ∷ 0 ∷ 8 ∷ codes "data") 8 ≡ done none
unfolding get_next_atom
empty_is_not_read = refl

movie-IsReadable : IsReadable kinds movie
unfolding IsReadable text_eq
movie-IsReadable =
    (refl, refl, omega arith, omega arith, ((refl, refl, omega arith, omega arith), tt))

read_next-write_example :
    read_next kinds 4 ((write_atom movie).0 ++ 1 ∷ []) 19
    ≡ done (some (movie, (write_atom movie).1 - 8))
unfolding rounds write_atom
read_next-write_example =
    read_next-write kinds movie (1 ∷ []) 4 19 movie-IsReadable (omega arith) (omega arith)
