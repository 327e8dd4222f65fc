-- ===== src/Composite/Emptied.antt =====
-- What deleteMetadataAll of PmtCompositeMetadata.cpp leaves.
use pmt.Common.{
  ℕ, zero, suc, ◌≡◌, refl, ap, ◌∙◌, sym, none, some, List, [], ◌∷◌, ◌++◌, set, get_elem?, arith,
  Option-cases, inl, inr,
}
use pmt.Common.Text.{Text}
use pmt.Element
use pmt.Element.{Element, vector, optional_or_singular}
use pmt.ModelGroup.{Entry, Group, Groups, group, no_more, ◌and◌}
use pmt.Composite.{
  Object, Heap, update, group_of, put_group, entries, entries_of_all, find_metadata,
}
use pmt.Composite.Removal.{empty_entries, empty_group, empty_groups, delete_metadata_all, find_in}

module _ {M : Type 0} where
  empty_entries-append :
      (xs ys : List (Entry M)) → empty_entries (xs ++ ys) ≡ empty_entries xs ++ empty_entries ys
  unfolding empty_entries
  empty_entries-append [] ys = refl
  empty_entries-append ((k, e) ∷ xs) ys =
      ap (λ (r : List (Entry M)). (k, Element.delete_metadata_all e) ∷ r)
        (empty_entries-append xs ys)

  mutual
    unfolding entries empty_group empty_entries

    entries-empty : (g : Group M) → entries (empty_group g) ≡ empty_entries (entries g)
    entries-empty (group kind es gs) =
        ap (λ (r : List (Entry M)). empty_entries es ++ r) (entries-all-empty gs)
        ∙ sym (empty_entries-append es (entries_of_all gs))

    entries-all-empty :
        (gs : Groups M) → entries_of_all (empty_groups gs) ≡ empty_entries (entries_of_all gs)
    entries-all-empty no_more = refl
    entries-all-empty (g and gs) =
        rw
          (
            entries-empty g,
            entries-all-empty gs,
            empty_entries-append (entries g) (entries_of_all gs),
          )
          refl

  empty-existing :
      (n : ℕ) (e : Element M) → Element.existing n (Element.delete_metadata_all e) ≡ none
  unfolding Element.existing Element.delete_metadata_all
  empty-existing n (vector d items) = refl
  empty-existing n (optional_or_singular d md) = ground arith

  find-empty :
      (key : Text) (n : ℕ) (es : List (Entry M)) → find_metadata key n (empty_entries es) ≡ none
  unfolding find_metadata empty_entries
  find-empty key n [] = refl
  find-empty key n ((k, e) ∷ es) =
      let rest = find-empty key n es in let gone = empty-existing n e in ground (arith, rest, gone)

get_elem?-set {ℓ} :
    {A : Type ℓ} (xs : List A) (i : ℕ) (a b : A)
    → get_elem? xs i ≡ some a
    → get_elem? (set xs i b) i ≡ some b
get_elem?-set [] i a b h = cc h
get_elem?-set (x ∷ xs) zero a b h = refl
get_elem?-set (x ∷ xs) (suc i) a b h = get_elem?-set xs i a b h

group_of-set :
    (heap : Heap) (m : ℕ) (o o' : Object)
    → get_elem? heap m ≡ some o
    → group_of (set heap m o') m ≡ o'.model_group
unfolding group_of
group_of-set heap m o o' there = rw (get_elem?-set heap m o o' there, group_of) refl

update-some :
    (f : Object → Object) (heap : Heap) (m : ℕ) (o : Object)
    → get_elem? heap m ≡ some o
    → update f m heap ≡ set heap m (f o)
unfolding update
update-some f heap m o there = rw (there, update) refl

group_of-object :
    (heap : Heap) (m : ℕ) (g : Group ℕ)
    → group_of heap m ≡ some g
    → (o : Object) × (get_elem? heap m ≡ some o)
unfolding group_of
group_of-object heap m g h = elim (Option-cases (get_elem? heap m)) [
  | inl absent ↦ absurd (ground (arith, h, absent))
  | inr (o, there) ↦ (o, there)
]

pub group_of-put_group :
    (heap : Heap) (m : ℕ) (g g' : Group ℕ)
    → group_of heap m ≡ some g
    → group_of (put_group m g' heap) m ≡ some g'
unfolding put_group
group_of-put_group heap m g g' h =
    let (o, there) = group_of-object heap m g h in
    ap (λ (r : Heap). group_of r m) (update-some _ heap m o there) ∙ group_of-set heap m o _ there

find_in-leaf :
    (this : ℕ) (key : Text) (n : ℕ) (heap : Heap)
    → group_of heap this ≡ none
    → find_in this key n (delete_metadata_all this heap) ≡ none
unfolding find_in delete_metadata_all
find_in-leaf this key n heap leaf = rw (leaf, delete_metadata_all) (rw (leaf, find_in) refl)

find_in-group :
    (this : ℕ) (key : Text) (n : ℕ) (heap : Heap) (g : Group ℕ)
    → group_of heap this ≡ some g
    → find_in this key n heap ≡ find_metadata key n (entries g)
unfolding find_in
find_in-group this key n heap g there = rw (there, find_in) refl

delete_metadata_all-group :
    (this : ℕ) (heap : Heap) (g : Group ℕ)
    → group_of heap this ≡ some g
    → delete_metadata_all this heap ≡ put_group this (empty_group g) heap
unfolding delete_metadata_all
delete_metadata_all-group this heap g there = rw (there, delete_metadata_all) refl

-- After deleteMetadataAll of a composite, findMetadata finds nothing in it, under whatever key and
-- occurrence, in whatever heap.
pub delete_metadata_all-find_in :
    (this : ℕ) (key : Text) (n : ℕ) (heap : Heap)
    → find_in this key n (delete_metadata_all this heap) ≡ none
delete_metadata_all-find_in this key n heap = elim (Option-cases (group_of heap this)) [
  | inl leaf ↦ find_in-leaf this key n heap leaf
  | inr (g, there) ↦
      let emptied = group_of-put_group heap this g (empty_group g) there in
      ap (find_in this key n) (delete_metadata_all-group this heap g there)
      ∙ find_in-group this key n (put_group this (empty_group g) heap) (empty_group g) emptied
      ∙ ap (find_metadata key n) (entries-empty g)
      ∙ find-empty key n (entries g)
]
