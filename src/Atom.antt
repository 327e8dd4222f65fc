-- ===== src/Atom.antt =====
-- src/PmtAccessor/PmtAtom.cpp and PmtAtom.h: atoms of QuickTime files, as they are written and as they
-- are read from memory. Modelled are PmtContainerAtom, PmtBinaryAtom, PmtAsciiStringAtom and
-- PmtNullAtom. A pointer into the buffer is the rest of the buffer, and a read past its end is
-- `undefined`. Bytes are written least significant first in memory. The factory is an argument.
pub mod RoundTrip
pub mod Written
use pmt.Common.{
  ℕ, zero, suc, ◌+◌, ◌-◌, ◌*◌, ◌/◌, ◌%◌, ◌^◌, Option, none, some, List, [], ◌∷◌, ◌++◌,
  if◌then◌else◌, ltb, leb, ◌==◌, length, take, drop,
}
use pmt.Common.Text.{Text, char_at}
use pmt.Common.Run.{Run, done, undefined, out_of_fuel, ◌>>=◌}

pub data Kind : Type 0 where
  container_kind : Kind
  binary_kind : Kind
  ascii_kind : Kind

-- `atomType`, and the atoms, the value or the size.
mutual
  pub data Atom : Type 0 where
    container : Text → Atoms → Atom
    binary : Text → List ℕ → Atom
    ascii : Text → List ℕ → Atom
    null : Text → ℕ → Atom

  pub data Atoms : Type 0 where
    nil : Atoms
    cons : Atom → Atoms → Atoms

-- Size and type as they are written: a[3], a[2], a[1], a[0] of the size, and four characters.
abbrev pub header : ℕ → Text → List ℕ
header size t =
    size / 2 ^ 24 % 256
    ∷ size / 2 ^ 16 % 256
    ∷ size / 2 ^ 8 % 256
    ∷ size % 256
    ∷ char_at t 0
    ∷ char_at t 1
    ∷ char_at t 2
    ∷ char_at t 3
    ∷ []

-- PmtBinaryAtom::writeAtom: the bytes, and the size returned.
unfoldable pub write_binary : Text → List ℕ → List ℕ × ℕ
unfolding char_at
write_binary t value = (header (length value + 8) t ++ value, length value + 8)

-- PmtAsciiStringAtom::writeAtom
unfoldable pub write_ascii : Text → List ℕ → List ℕ × ℕ
unfolding char_at
write_ascii t my_data = (header (length my_data + 8) t ++ my_data, length my_data + 8)

-- writeAtom of each class, and of a container. A null atom writes nothing.
unfoldable mutual
  unfolding char_at write_binary write_ascii

  pub write_atom : Atom → List ℕ × ℕ
  write_atom (container t atoms) =
      let (tmp_stream, sizes) = write_atoms atoms in
      if ltb (8 + sizes) (2 ^ 32 - 1)
      then (header (8 + sizes) t ++ tmp_stream, 8 + sizes)
      else ([], 8 + sizes)
  write_atom (binary t value) = write_binary t value
  write_atom (ascii t my_data) = write_ascii t my_data
  write_atom (null t size) = ([], 0)

  pub write_atoms : Atoms → List ℕ × ℕ
  write_atoms nil = ([], 0)
  write_atoms (cons a atoms) =
      let (first, size) = write_atom a in
      let (later, sizes) = write_atoms atoms in (first ++ later, size + sizes)

-- An atom before readAtom: `init` has set the size without the header and the buffer, whose part
-- behind the header is kept.
pub record Head : Type 0 where
  pub kind : Option Kind
  pub atom_type : Text
  pub atom_size : ℕ
  pub payload : List ℕ
  pub read_buffer_size : ℕ

-- GetNextAtom of a block of memory.
unfoldable pub get_next_atom : (Text → Option Kind) → List ℕ → ℕ → Run (Option Head)
get_next_atom factory (a ∷ b ∷ c ∷ d ∷ e ∷ f ∷ g ∷ h ∷ rest) unread_size =
    let size = (a * 2 ^ 24 + b * 2 ^ 16 + c * 2 ^ 8 + d) % 2 ^ 32 in
    let name = e ∷ f ∷ g ∷ h ∷ [] in
    if leb unread_size 8
    then done none
    else if size == 1
    then done none
    else done (
        some (record {
          kind = factory name;
          atom_type = name;
          atom_size = (size + 2 ^ 32 - 8) % 2 ^ 32;
          payload = rest;
          read_buffer_size = unread_size;
        }))
get_next_atom factory c unread_size = if leb unread_size 8 then done none else undefined

-- What a container returns for the bytes that it has counted.
abbrev pub counted : ℕ → ℕ → ℕ
counted size count = if ltb count ((size + 2 ^ 64 - 8) % 2 ^ 64) then size else count

-- PmtBinaryAtom::readAtom: the atom, and the number of bytes returned.
unfoldable pub read_binary : Head → Run (Atom × ℕ)
read_binary h =
    if ltb (length h.payload) h.atom_size
    then undefined
    else done (binary h.atom_type (take h.atom_size h.payload), h.atom_size)

-- PmtAsciiStringAtom::readAtom
unfoldable pub read_ascii : Head → Run (Atom × ℕ)
read_ascii h =
    if ltb h.read_buffer_size h.atom_size
    then done (ascii h.atom_type [], 0)
    else if ltb (length h.payload) h.atom_size
    then undefined
    else done (ascii h.atom_type (take h.atom_size h.payload), h.atom_size)

-- PmtNullAtom::readAtom
unfoldable pub read_null : Head → Run (Atom × ℕ)
read_null h = done (null h.atom_type h.atom_size, h.atom_size)

-- readAtom of each class, and of a container.
unfoldable mutual
  unfolding get_next_atom read_binary read_ascii read_null

  pub read_atom : (Text → Option Kind) → ℕ → Head → Run (Atom × ℕ)
  read_atom factory zero h = out_of_fuel
  read_atom factory (suc fuel) h =
      let inside = read_loop factory fuel h.atom_size h.payload h.read_buffer_size 0 in
      elim h.kind [
        | none ↦ read_null h
        | some kind ↦ elim kind [
          | container_kind ↦
              if ltb 8 h.atom_size
              then (inside >>= λ r. done (container h.atom_type r.0, counted h.atom_size r.1))
              else done (container h.atom_type nil, counted h.atom_size 0)
          | binary_kind ↦ read_binary h
          | ascii_kind ↦ read_ascii h
        ]
      ]

  -- The loop of a container: the atoms, and the bytes counted.
  pub read_loop : (Text → Option Kind) → ℕ → ℕ → List ℕ → ℕ → ℕ → Run (Atoms × ℕ)
  read_loop factory zero size payload buffer_size count = out_of_fuel
  read_loop factory (suc fuel) size payload buffer_size count =
      let round = get_next_atom factory (drop count payload) (buffer_size - 8 - count) >>= λ next.
      elim next [
        | none ↦ done (nil, count + 8)
        | some h ↦ read_atom factory fuel h >>= λ r.
            read_loop factory fuel size payload buffer_size (count + 8 + r.1) >>= λ later.
            done (cons r.0 later.0, later.1)
      ] in
      if ltb count size then round else done (nil, count)
