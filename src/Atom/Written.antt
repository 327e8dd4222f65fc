-- ===== src/Atom/Written.antt =====
-- The bytes of an atom that writeAtom of PmtAtom.cpp writes, and their header as GetNextAtom reads it.
use pmt.Common.{
  ℕ, suc, ◌+◌, ◌-◌, ◌*◌, ◌/◌, ◌%◌, ◌^◌, ◌<◌, ◌≡◌, refl, ◌∙◌, true, false, Option, some, List, [],
  ◌∷◌, ◌++◌, ltb, leb, ◌==◌, length, length-append, arith,
}
use pmt.Common.Text.{Text, char_at}
use pmt.Common.Run.{done}
use pmt.Atom.{
  Kind, container_kind, binary_kind, ascii_kind, Atom, container, binary, ascii, null, Atoms, nil,
  cons, header, write_atom, write_atoms, Head, get_next_atom,
}

four_chars :
    (t : Text) → length t ≡ 4 → (char_at t 0 ∷ char_at t 1 ∷ char_at t 2 ∷ char_at t 3 ∷ []) ≡ t
unfolding char_at
four_chars (a ∷ b ∷ c ∷ d ∷ []) h = refl
four_chars [] h = absurd (omega arith)
four_chars (a ∷ []) h = absurd (omega arith)
four_chars (a ∷ b ∷ []) h = absurd (omega arith)
four_chars (a ∷ b ∷ c ∷ []) h = absurd (omega arith)
four_chars (a ∷ b ∷ c ∷ d ∷ e ∷ t) h = absurd (omega arith)

module _ (factory : Text → Option Kind) where
  abbrev pub head : ℕ → Text → List ℕ → ℕ → Head
  head size t rest u = record {
    kind = factory t;
    atom_type = t;
    atom_size = size - 8;
    payload = rest;
    read_buffer_size = u;
  }

  size_bytes :
      (size : ℕ)
      → size < 2 ^ 32
      → (size / 2 ^ 24 % 256 * 2 ^ 24
            + size / 2 ^ 16 % 256 * 2 ^ 16
            + size / 2 ^ 8 % 256 * 2 ^ 8
            + size % 256)
          % 2 ^ 32
        ≡ size
  size_bytes size h = omega arith

  pub get_next_atom-header :
      (size : ℕ) (t : Text) (rest : List ℕ) (u : ℕ)
      → length t ≡ 4
      → 8 < size
      → size < 2 ^ 32
      → 8 < u
      → get_next_atom factory (header size t ++ rest) u ≡ done (some (head size t rest u))
  unfolding get_next_atom
  get_next_atom-header size t rest u four big small room =
      let back = size_bytes size small in
      let plain : (size == 1) ≡ false = ground arith in
      let long : leb u 8 ≡ false = ground arith in
      let minus : (size + 2 ^ 32 - 8) % 2 ^ 32 ≡ size - 8 = omega arith in
      rw (long, back, plain, minus, four_chars t four) refl

  -- An atom that is read back: the factory knows its type, which has four characters, it is not empty
  -- and its size fits in four bytes. An atom with a header and nothing else is not read by
  -- GetNextAtom, nor are the atoms of a container of eight bytes.
  unfoldable mutual
    unfolding write_atom

    pub IsReadable : Atom → Type 0
    IsReadable (container t atoms) =
        (length t ≡ 4)
        × (factory t ≡ some container_kind)
        × (8 < (write_atoms atoms).1)
        × (8 + (write_atoms atoms).1 < 2 ^ 32 - 1)
        × AreReadable atoms
    IsReadable (binary t value) =
        (length t ≡ 4)
        × (factory t ≡ some binary_kind)
        × (0 < length value)
        × (length value + 8 < 2 ^ 32)
    IsReadable (ascii t my_data) =
        (length t ≡ 4)
        × (factory t ≡ some ascii_kind)
        × (0 < length my_data)
        × (length my_data + 8 < 2 ^ 32)
    IsReadable (null t size) = ⊥

    pub AreReadable : Atoms → Type 0
    AreReadable nil = Unit
    AreReadable (cons a atoms) = IsReadable a × AreReadable atoms

  pub write_container :
      (t : Text) (atoms : Atoms)
      → 8 + (write_atoms atoms).1 < 2 ^ 32 - 1
      → write_atom (container t atoms)
        ≡ (header (8 + (write_atoms atoms).1) t ++ (write_atoms atoms).0, 8 + (write_atoms atoms).1)
  unfolding write_atom
  write_container t atoms small =
      let fits : ltb (8 + (write_atoms atoms).1) (2 ^ 32 - 1) ≡ true = ground (arith, small) in
      rw fits refl

  mutual
    unfolding write_atom IsReadable

    -- The size that is returned is the number of bytes written, and fits.
    pub write_atom-length :
        (a : Atom)
        → IsReadable a
        → (length (write_atom a).0 ≡ (write_atom a).1)
          × (8 < (write_atom a).1)
          × ((write_atom a).1 < 2 ^ 32)
    write_atom-length (container t atoms) (four, known, big, small, all) =
        rw (write_container t atoms small)
          (omega (arith, write_atoms-length atoms all), omega arith, omega arith)
    write_atom-length (binary t value) (four, known, big, small) = (omega arith, omega arith, small)
    write_atom-length (ascii t my_data) (four, known, big, small) =
        (omega arith, omega arith, small)
    write_atom-length (null t size) h = absurd h

    write_atoms-length :
        (atoms : Atoms) → AreReadable atoms → length (write_atoms atoms).0 ≡ (write_atoms atoms).1
    write_atoms-length nil all = refl
    write_atoms-length (cons a atoms) (first, all) =
        length-append (write_atom a).0 (write_atoms atoms).0
        ∙ (λ i. (write_atom-length a first).0 i + write_atoms-length atoms all i)

-- The rounds that reading takes.
unfoldable mutual
  pub rounds : Atom → ℕ
  rounds (container t atoms) = suc (rounds_of atoms)
  rounds (binary t value) = 1
  rounds (ascii t my_data) = 1
  rounds (null t size) = 1

  pub rounds_of : Atoms → ℕ
  rounds_of nil = 1
  rounds_of (cons a atoms) = suc (rounds a + rounds_of atoms)
