-- ===== src/Composite/Numbering.antt =====
-- The occurrence numbers of the instances in the heap of PmtCompositeMetadata.cpp, as
-- PmtVectorElement of PmtElement.cpp reads and writes them.
use pmt.Common.{
  ◌∙◌, length-set, inr, inl, Option-cases, get_elem?-some, ℕ, ◌<◌, ◌≡◌, ◌≢◌, refl, ap, zero, suc,
  Option, none, some, List, [], ◌∷◌, length, get_elem?, set, arith,
}
use pmt.Common.Text.{Text}
use pmt.Element.Numbered.{Laws}
use pmt.Composite.{Object, Heap, update, metadata}

unfoldable pub occurrence_of : ℕ → Heap → ℕ
occurrence_of m heap = elim (get_elem? heap m) [ none ↦ 0 | some o ↦ o.occurrence ]

get_elem?-set :
    {A : Type 0} (xs : List A) (i : ℕ) (v : A) → i < length xs → get_elem? (set xs i v) i ≡ some v
get_elem?-set [] i v held = absurd (omega arith)
get_elem?-set (x ∷ xs) zero v held = refl
get_elem?-set (x ∷ xs) (suc i) v held = get_elem?-set xs i v (omega arith)

get_elem?-set_other :
    {A : Type 0} (xs : List A) (i j : ℕ) (v : A) → i ≢ j → get_elem? (set xs i v) j ≡ get_elem? xs j
get_elem?-set_other [] i j v other = refl
get_elem?-set_other (x ∷ xs) zero zero v other = absurd (other refl)
get_elem?-set_other (x ∷ xs) zero (suc j) v other = refl
get_elem?-set_other (x ∷ xs) (suc i) zero v other = refl
get_elem?-set_other (x ∷ xs) (suc i) (suc j) v other =
    get_elem?-set_other xs i j v (λ e. other (ap suc e))

length-update : (f : Object → Object) (m : ℕ) (heap : Heap) → length (update f m heap) ≡ length heap
unfolding update
length-update f m heap = elim (Option-cases (get_elem? heap m)) [
  | inl absent ↦ ap length (ground (arith, absent))
  | inr (o, e) ↦ let same = length-set heap m (f o) in ground (arith, e, same)
]

update-held :
    (f : Object → Object) (m : ℕ) (heap : Heap) (o : Object)
    → get_elem? heap m ≡ some o
    → update f m heap ≡ set heap m (f o)
unfolding update
update-held f m heap o e = ground (arith, e)

occurrence_of-update_held :
    (n m : ℕ) (heap : Heap)
    → m < length heap
    → (o : Object) → get_elem? heap m ≡ some o
    → occurrence_of m (update (λ o. record o { occurrence = n }) m heap) ≡ n
unfolding occurrence_of
occurrence_of-update_held n m heap held o e =
    let written = get_elem?-set heap m (record o { occurrence = n }) held in
    ap (occurrence_of m) (update-held (λ o. record o { occurrence = n }) m heap o e)
    ∙ ground (arith, written)

occurrence_of-update :
    (n m : ℕ) (heap : Heap)
    → m < length heap
    → occurrence_of m (update (λ o. record o { occurrence = n }) m heap) ≡ n
unfolding occurrence_of
occurrence_of-update n m heap held =
    let (o, e) = get_elem?-some heap m held in occurrence_of-update_held n m heap held o e

occurrence_of-update_other :
    (f : Object → Object) (m m' : ℕ) (heap : Heap)
    → m ≢ m'
    → occurrence_of m' (update f m heap) ≡ occurrence_of m' heap
unfolding update occurrence_of
occurrence_of-update_other f m m' heap other = elim (Option-cases (get_elem? heap m)) [
  | inl absent ↦ ground (arith, absent)
  | inr (o, e) ↦ let kept = get_elem?-set_other heap m m' (f o) other in ground (arith, e, kept)
]

pub metadata-keeps :
    (prototype : Text → Option Object) (m m' n : ℕ) (heap : Heap)
    → m < length heap
    → m < length ((metadata prototype).set_occurrence m' n heap)
unfolding metadata
metadata-keeps prototype m m' n heap held =
    omega (arith, held, length-update (λ o. record o { occurrence = n }) m' heap)

pub metadata-set_same :
    (prototype : Text → Option Object) (m n : ℕ) (heap : Heap)
    → m < length heap
    → occurrence_of m ((metadata prototype).set_occurrence m n heap) ≡ n
unfolding metadata
metadata-set_same prototype m n heap held = occurrence_of-update n m heap held

pub metadata-set_other :
    (prototype : Text → Option Object) (m m' n : ℕ) (heap : Heap)
    → m ≢ m'
    → occurrence_of m' ((metadata prototype).set_occurrence m n heap) ≡ occurrence_of m' heap
unfolding metadata
metadata-set_other prototype m m' n heap other =
    occurrence_of-update_other (λ o. record o { occurrence = n }) m m' heap other

-- The heap holds the instances that it has made.
abbrev pub numbers : (prototype : Text → Option Object) → Laws (metadata prototype)
numbers prototype = record {
  occurrence_of = occurrence_of;
  holds = λ m heap. m < length heap;
  keeps = metadata-keeps prototype;
  set_same = metadata-set_same prototype;
  set_other = metadata-set_other prototype;
}
