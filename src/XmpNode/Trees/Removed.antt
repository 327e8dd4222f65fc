-- ===== src/XmpNode/Trees/Removed.antt =====
-- What RemoveKey of XMPDataNode.cpp takes out of a tree.
use pmt.Common.{
  ◌⊎◌, ℕ, ◌+◌, ◌<◌, ◌≡◌, refl, ◌||◌, none, some, is_found, List, [], ◌∷◌, if◌then◌else◌, text_eq,
  arith, Bool-cases, Option-cases, inl, inr,
}
use pmt.Common.Text.{Text}
use pmt.XmpNode.{Node, node, Nodes, nil, cons, key, find_attribute, get_key_value, get_key_value_in}
use pmt.XmpNode.Trees.{erase_attribute, remove_key, remove_key_in}

-- How many attributes and nodes below a node have the key.
uses_of_attribute : Text → List (Text × Text) → ℕ
uses_of_attribute k [] = 0
uses_of_attribute k ((i, v) ∷ a) = (if text_eq i k then 1 else 0) + uses_of_attribute k a

unfoldable mutual
  unfolding uses_of_attribute

  pub uses : Text → Node → ℕ
  uses k (node i c a s subs) = uses_of_attribute k a + uses_in k subs

  pub uses_in : Text → Nodes → ℕ
  uses_in k nil = 0
  uses_in k (cons n ns) = (if text_eq (key n) k then 1 else 0) + uses k n + uses_in k ns

erase_attribute-none :
    (k : Text) (a : List (Text × Text)) → erase_attribute k a ≡ none → uses_of_attribute k a ≡ 0
unfolding erase_attribute uses_of_attribute
erase_attribute-none k [] h = refl
erase_attribute-none k ((i, v) ∷ a) h = ground (arith, h, erase_attribute-none k a)

erase_attribute-some :
    (k : Text) (a a' : List (Text × Text))
    → erase_attribute k a ≡ some a'
    → uses_of_attribute k a' < uses_of_attribute k a
unfolding erase_attribute uses_of_attribute
erase_attribute-some k [] a' h = absurd (ground (arith, h))
erase_attribute-some k ((i, v) ∷ a) a' h = elim (Option-cases (erase_attribute k a)) [
  | inl absent ↦ ground (arith, h, absent)
  | inr (a'', there) ↦ ground (arith, h, there, erase_attribute-some k a a'' there)
]

mutual
  unfolding remove_key uses

  pub remove_key-none : (k : Text) (n : Node) → remove_key k n ≡ none → uses k n ≡ 0
  remove_key-none k (node i c a s subs) h =
      ground (arith, h, erase_attribute-none k a, remove_key_in-none k subs)

  remove_key_in-none : (k : Text) (ns : Nodes) → remove_key_in k ns ≡ none → uses_in k ns ≡ 0
  remove_key_in-none k nil h = refl
  remove_key_in-none k (cons n ns) h =
      ground (arith, h, remove_key-none k n, remove_key_in-none k ns)

mutual
  unfolding remove_key uses

  pub remove_key-some :
      (k : Text) (n n' : Node)
      → remove_key k n ≡ some n'
      → (uses k n' < uses k n) × (key n' ≡ key n)
  remove_key-some k (node i c a s subs) n' h = elim (Option-cases (erase_attribute k a)) [
    | inr (a', there) ↦
        let e : n' ≡ node i c a' s subs = ground (arith, h, there) in
        let fewer = erase_attribute-some k a a' there in rw e (ground (arith, fewer), refl)
    | inl absent ↦ elim (Option-cases (remove_key_in k subs)) [
      | inl not_below ↦ absurd (ground (arith, h, absent, not_below))
      | inr (ms, below) ↦
          let e : n' ≡ node i c a s ms = ground (arith, h, absent, below) in
          let fewer = remove_key_in-some k subs ms below in rw e (ground (arith, fewer), refl)
    ]
  ]

  remove_key_in-some :
      (k : Text) (ns ms : Nodes) → remove_key_in k ns ≡ some ms → uses_in k ms < uses_in k ns
  remove_key_in-some k nil ms h = absurd (ground (arith, h))
  remove_key_in-some k (cons n ns) ms h = elim (Bool-cases (text_eq (key n) k)) [
    | inl here ↦ ground (arith, h, here)
    | inr other ↦ elim (Option-cases (remove_key k n)) [
      | inr (n', there) ↦
          let (fewer, kept) = remove_key-some k n n' there in
          let e : ms ≡ cons n' ns = ground (arith, h, other, there) in
          rw (e, kept, other) (ground (arith, fewer, kept, other))
      | inl absent ↦ elim (Option-cases (remove_key_in k ns)) [
        | inl not_later ↦ absurd (ground (arith, h, other, absent, not_later))
        | inr (ls, later) ↦
            let fewer = remove_key_in-some k ns ls later in
            ground (arith, h, other, absent, later, fewer)
      ]
    ]
  ]

erase_attribute-is_found :
    (k : Text) (a : List (Text × Text))
    → is_found (erase_attribute k a) ≡ is_found (find_attribute k a)
unfolding erase_attribute find_attribute
erase_attribute-is_found k [] = refl
erase_attribute-is_found k ((i, v) ∷ a) = ground (arith, erase_attribute-is_found k a)

mutual
  unfolding remove_key get_key_value

  remove_key-is_found :
      (k : Text) (n : Node)
      → (text_eq (key n) k || is_found (remove_key k n)) ≡ is_found (get_key_value k n)
  remove_key-is_found k (node i c a s subs) =
      ground (arith, erase_attribute-is_found k a, remove_key_in-is_found k subs)

  remove_key_in-is_found :
      (k : Text) (ns : Nodes) → is_found (remove_key_in k ns) ≡ is_found (get_key_value_in k ns)
  remove_key_in-is_found k nil = refl
  remove_key_in-is_found k (cons n ns) =
      ground (arith, remove_key-is_found k n, remove_key_in-is_found k ns)

-- RemoveKey succeeds where GetKeyValue finds the key elsewhere than at the node itself. Then it leaves
-- fewer attributes and nodes with the key below the node; it fails only if there are none.
pub remove_key_lem :
    (k : Text) (n : Node)
    → ((text_eq (key n) k || is_found (remove_key k n)) ≡ is_found (get_key_value k n))
      × (((n' : Node) × (remove_key k n ≡ some n') × (uses k n' < uses k n))
          ⊎ ((remove_key k n ≡ none) × (uses k n ≡ 0)))
remove_key_lem k n = (
  remove_key-is_found k n,
  elim (Option-cases (remove_key k n)) [
    | inr (n', there) ↦ inl (n', there, (remove_key-some k n n' there).0)
    | inl absent ↦ inr (absent, remove_key-none k n absent)
  ],
)
