-- ===== src/Atom/RoundTrip.antt =====
-- What GetNextAtom and readAtom of PmtAtom.cpp make of an atom that writeAtom wrote.
use mathlib.Core.List.{append_assoc}
use pmt.Common.{
  ℕ, zero, suc, ◌+◌, ◌-◌, ◌%◌, ◌^◌, ◌≤◌, ◌≡◌, refl, sym, ap, ◌∙◌, true, false, Option, none, some,
  List, [], ◌∷◌, ◌++◌, ltb, length, length-append, take, drop, arith,
}
use pmt.Common.Text.{Text}
use pmt.Common.Run.{Run, done, ◌>>=◌}
use pmt.Atom.{
  Kind, Atom, container, binary, ascii, null, Atoms, nil, cons, write_atom, write_atoms, Head,
  get_next_atom, read_atom, read_loop,
}
use pmt.Atom.Written.{
  head, get_next_atom-header, IsReadable, AreReadable, write_container, write_atom-length, rounds,
  rounds_of,
}

take-append_self : (xs ys : List ℕ) → take (length xs) (xs ++ ys) ≡ xs
take-append_self [] ys = refl
take-append_self (x ∷ xs) ys = ap (λ zs. x ∷ zs) (take-append_self xs ys)

drop-append_self : (xs ys : List ℕ) → drop (length xs) (xs ++ ys) ≡ ys
drop-append_self [] ys = refl
drop-append_self (x ∷ xs) ys = drop-append_self xs ys

drop-nil : (n : ℕ) → drop {A = ℕ} n [] ≡ []
drop-nil zero = refl
drop-nil (suc n) = refl

drop_add : (m n : ℕ) (xs : List ℕ) → drop (m + n) xs ≡ drop n (drop m xs)
drop_add zero n xs = ap (λ k. drop k xs) (omega arith)
drop_add (suc m) n [] = drop-nil (suc m + n) ∙ sym (drop-nil n)
drop_add (suc m) n (x ∷ xs) =
    let e : suc m + n ≡ suc (m + n) = omega arith in ap (λ k. drop k (x ∷ xs)) e ∙ drop_add m n xs

module _ (factory : Text → Option Kind) where
  -- A value is read whole.
  read_value :
      (xs rest : List ℕ)
      → (ltb (length (xs ++ rest)) (length xs + 8 - 8) ≡ false)
        × (take (length xs + 8 - 8) (xs ++ rest) ≡ xs)
  read_value xs rest =
      let e : length xs + 8 - 8 ≡ length xs = omega arith in
      rw e (ground (arith, length-append xs rest), take-append_self xs rest)

  -- GetNextAtom and then readAtom of the atom that it finds.
  abbrev pub read_next : ℕ → List ℕ → ℕ → Run (Option (Atom × ℕ))
  read_next fuel bytes u = get_next_atom factory bytes u >>= λ next. elim next [
    | none ↦ done none
    | some h ↦ read_atom factory fuel h >>= λ r. done (some r)
  ]

  Reads : ℕ → Atom → List ℕ → ℕ → Type 0
  Reads fuel a bytes u =
      (h : Head) × (get_next_atom factory bytes u ≡ done (some h))
      × (read_atom factory fuel h ≡ done (a, (write_atom a).1 - 8))

  read-binary :
      (t : Text) (value rest : List ℕ) (fuel u : ℕ)
      → IsReadable factory (binary t value)
      → (write_atom (binary t value)).1 ≤ u
      → Reads (suc fuel) (binary t value) ((write_atom (binary t value)).0 ++ rest) u
  unfolding write_atom IsReadable Reads read_atom
  read-binary t value rest fuel u (four, known, big, small) room =
      let (enough, all) = read_value value rest in
      (
        head factory (length value + 8) t (value ++ rest) u,
        get_next_atom-header factory (length value + 8) t (value ++ rest) u four (omega arith) small
            (omega arith),
        rw (known, enough, all) refl,
      )

  read-ascii :
      (t : Text) (my_data rest : List ℕ) (fuel u : ℕ)
      → IsReadable factory (ascii t my_data)
      → (write_atom (ascii t my_data)).1 ≤ u
      → Reads (suc fuel) (ascii t my_data) ((write_atom (ascii t my_data)).0 ++ rest) u
  unfolding write_atom IsReadable Reads read_atom
  read-ascii t my_data rest fuel u (four, known, big, small) room =
      let (enough, all) = read_value my_data rest in
      let inside : ltb u (length my_data + 8 - 8) ≡ false = ground (arith, room) in
      (
        head factory (length my_data + 8) t (my_data ++ rest) u,
        get_next_atom-header factory (length my_data + 8) t (my_data ++ rest) u four (omega arith)
            small (omega arith),
        rw (known, inside, enough, all) refl,
      )

  mutual
    unfolding IsReadable Reads read_atom rounds

    read-write :
        (a : Atom) (rest : List ℕ) (fuel u : ℕ)
        → IsReadable factory a
        → rounds a ≤ fuel
        → (write_atom a).1 ≤ u
        → Reads fuel a ((write_atom a).0 ++ rest) u
    read-write (null t size) rest fuel u h more room = absurd h
    read-write (binary t value) rest zero u h more room = absurd (omega arith)
    read-write (ascii t my_data) rest zero u h more room = absurd (omega arith)
    read-write (container t atoms) rest zero u h more room = absurd (omega arith)
    read-write (binary t value) rest (suc fuel) u h more room =
        read-binary t value rest fuel u h room
    read-write (ascii t my_data) rest (suc fuel) u h more room =
        read-ascii t my_data rest fuel u h room
    read-write (container t atoms) rest (suc fuel) u (four, known, big, small, all) more room =
        let s = (write_atoms atoms).1 in
        let size = 8 + s - 8 in
        let body = (write_atoms atoms).0 ++ rest in
        let written = write_container factory t atoms small in
        let total : (write_atom (container t atoms)).1 ≡ 8 + s = ap (λ r. r.1) written in
        let enough : size + 8 ≤ u = omega (arith, total) in
        let inside =
          read_loop-write atoms fuel size body u 0 rest all (omega arith) refl (omega arith)
            enough in
        let long : ltb 8 size ≡ true = ground (arith, big) in
        let short : (size + 2 ^ 64 - 8) % 2 ^ 64 ≡ size - 8 = omega arith in
        let full : ltb size (size - 8) ≡ false = ground (arith, big) in
        rw written (
          head factory (8 + s) t body u,
          get_next_atom-header factory (8 + s) t body u four (omega arith) (omega arith)
              (omega arith),
          rw (known, long, inside, short, full) refl,
        )

    read_loop-write :
        (atoms : Atoms) (fuel size : ℕ) (payload : List ℕ) (s count : ℕ) (rest : List ℕ)
        → AreReadable factory atoms
        → rounds_of atoms ≤ fuel
        → drop count payload ≡ (write_atoms atoms).0 ++ rest
        → count + (write_atoms atoms).1 ≡ size
        → size + 8 ≤ s
        → read_loop factory fuel size payload s count ≡ done (atoms, size)
    read_loop-write nil zero size payload s count rest all more at total room = absurd (omega arith)
    read_loop-write (cons a atoms) zero size payload s count rest all more at total room =
        absurd (omega arith)
    read_loop-write nil (suc fuel) size payload s count rest all more at total room =
        let end : ltb count size ≡ false = ground (arith, total) in
        let e : count ≡ size = omega arith in rw end (ap (λ n. done (nil, n)) e)
    read_loop-write (cons a atoms) (suc fuel) size payload s count rest (first, all) more at total
          room =
        let t = (write_atom a).1 in
        let later = (write_atoms atoms).0 in
        let (exact, big, small) = write_atom-length factory a first in
        let bytes : drop count payload ≡ (write_atom a).0 ++ (later ++ rest) =
          at ∙ append_assoc (write_atom a).0 later rest in
        let (h, next, read) =
          read-write a (later ++ rest) fuel (s - 8 - count) first (omega arith) (omega arith) in
        let step : count + 8 + (t - 8) ≡ count + length (write_atom a).0 = omega arith in
        let behind : drop (count + 8 + (t - 8)) payload ≡ later ++ rest =
          ap (λ k. drop k payload) step
          ∙ drop_add count (length (write_atom a).0) payload
          ∙ ap (drop (length (write_atom a).0)) bytes
          ∙ drop-append_self (write_atom a).0 (later ++ rest) in
        let others =
          read_loop-write atoms fuel size payload s (count + 8 + (t - 8)) rest all (omega arith)
            behind (omega arith) room in
        let going : ltb count size ≡ true = ground (arith, total, big) in
        rw (going, bytes, next, read, others) refl

  -- An atom that writeAtom wrote is read back from a buffer in which it is followed by any bytes:
  -- GetNextAtom finds it, and readAtom makes the same tree and returns its size without the header.
  -- This is for types of four characters that the factory knows, values that are not empty, containers
  -- whose atoms take more than eight bytes, and sizes that fit in four bytes.
  pub read_next-write :
      (a : Atom) (rest : List ℕ) (fuel u : ℕ)
      → IsReadable factory a
      → rounds a ≤ fuel
      → (write_atom a).1 ≤ u
      → read_next fuel ((write_atom a).0 ++ rest) u ≡ done (some (a, (write_atom a).1 - 8))
  unfolding Reads
  read_next-write a rest fuel u h more room =
      let (next, found, read) = read-write a rest fuel u h more room in rw (found, read) refl
