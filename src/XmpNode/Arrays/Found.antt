-- ===== src/XmpNode/Arrays/Found.antt =====
-- The nodes that GetXMPNode of XMPDataNode.cpp returns, before and after a caller has written to one.
use pmt.Common.{
  ◌∙◌, text_eq_refl, false, ◌⊎◌, ◌≡◌, refl, ap, Bool, true, Option, none, some, text_eq, arith,
  Bool-cases, Option-cases, inl, inr,
}
use pmt.Common.Text.{Text}
use pmt.XmpNode.{new, push_back, add_sub_node, Node, node, Nodes, nil, cons, key}
use pmt.XmpNode.Arrays.{with_created, get_xmp_node, get_xmp_node_in, with_node, with_node_in}

pub get_xmp_node_self : (k : Text) (n : Node) → text_eq (key n) k ≡ true → get_xmp_node k n ≡ some n
unfolding get_xmp_node
get_xmp_node_self k (node i c a s subs) same = rw same refl

mutual
  unfolding get_xmp_node with_node

  pub with_node-none :
      (k : Text) (f : Node → Bool × Node) (n : Node)
      → with_node k f n ≡ none
      → get_xmp_node k n ≡ none
  with_node-none k f (node i c a s subs) h = ground (arith, h, with_node_in-none k f subs)

  with_node_in-none :
      (k : Text) (f : Node → Bool × Node) (ns : Nodes)
      → with_node_in k f ns ≡ none
      → get_xmp_node_in k ns ≡ none
  with_node_in-none k f nil h = refl
  with_node_in-none k f (cons n ns) h =
      ground (arith, h, with_node-none k f n, with_node_in-none k f ns)

pub key-add_sub_node : (n sub : Node) → key (add_sub_node n sub) ≡ key n
key-add_sub_node (node i c a s subs) sub = refl

get_xmp_node_in-push_back :
    (k : Text) (sub : Node)
    → text_eq (key sub) k ≡ true
    → (ns : Nodes) → get_xmp_node_in k ns ≡ none
    → get_xmp_node_in k (push_back ns sub) ≡ some sub
unfolding get_xmp_node
get_xmp_node_in-push_back k sub same nil h = ground (arith, get_xmp_node_self k sub same)
get_xmp_node_in-push_back k sub same (cons n ns) h = elim (Option-cases (get_xmp_node k n)) [
  | inr (m, there) ↦ absurd (ground (arith, h, there))
  | inl absent ↦
      let rest = get_xmp_node_in-push_back k sub same ns (ground (arith, h, absent)) in
      ground (arith, absent, rest)
]

-- A node that is added under a key that was not there is found.
pub get_xmp_node-add_sub_node :
    (k : Text) (sub : Node)
    → text_eq (key sub) k ≡ true
    → (n : Node) → get_xmp_node k n ≡ none
    → get_xmp_node k (add_sub_node n sub) ≡ some sub
unfolding get_xmp_node
get_xmp_node-add_sub_node k sub same (node i c a s subs) h = elim (Bool-cases (text_eq i k)) [
  | inl here ↦ absurd (ground (arith, h, here))
  | inr other ↦
      let rest = get_xmp_node_in-push_back k sub same subs (ground (arith, h, other)) in
      ground (arith, other, rest)
]

mutual
  unfolding get_xmp_node

  -- The node that is found has the key.
  pub get_xmp_node-key :
      (k : Text) (n m : Node) → get_xmp_node k n ≡ some m → text_eq (key m) k ≡ true
  get_xmp_node-key k (node i c a s subs) m h = elim (Bool-cases (text_eq i k)) [
    | inl same ↦ let e : m ≡ node i c a s subs = ground (arith, h, same) in rw e same
    | inr other ↦ get_xmp_node_in-key k subs m (ground (arith, h, other))
  ]

  get_xmp_node_in-key :
      (k : Text) (ns : Nodes) (m : Node) → get_xmp_node_in k ns ≡ some m → text_eq (key m) k ≡ true
  get_xmp_node_in-key k nil m h = absurd (ground (arith, h))
  get_xmp_node_in-key k (cons n ns) m h = elim (Option-cases (get_xmp_node k n)) [
    | inr (l, there) ↦
        let e : l ≡ m = ground (arith, h, there) in get_xmp_node-key k n m (there ∙ ap some e)
    | inl absent ↦ get_xmp_node_in-key k ns m (ground (arith, h, absent))
  ]

-- Where a write that keeps keys was made: at the node that is found, which is found afterwards.
abbrev pub WritesTo : Text → (Node → Bool × Node) → Option Node → Bool → Option Node → Type 0
WritesTo k f before result after =
    (m : Node) × (before ≡ some m) × (result ≡ (f m).0) × (after ≡ some (f m).1)

module _ (f : Node → Bool × Node) (keeps : (m : Node) → key (f m).1 ≡ key m) where
  mutual
    unfolding get_xmp_node with_node

    pub with_node-some :
        (k : Text) (n n' : Node) (result : Bool)
        → with_node k f n ≡ some (result, n')
        → WritesTo k f (get_xmp_node k n) result (get_xmp_node k n')
    with_node-some k (node i c a s subs) n' result h = elim (Bool-cases (text_eq i k)) [
      | inl same ↦
          let this = node i c a s subs in
          let e : f this ≡ (result, n') = ground (arith, h, same) in
          let kept : text_eq (key (f this).1) k ≡ true = rw (keeps this) same in
          (
            this,
            ground (arith, same),
            ground (arith, e),
            rw (← ap (λ x. x.1) e) (get_xmp_node_self k (f this).1 kept),
          )
      | inr other ↦ elim (Option-cases (with_node_in k f subs)) [
        | inl absent ↦ absurd (ground (arith, h, other, absent))
        | inr ((b, subs'), there) ↦
            let (m, found, b_is, now) = with_node_in-some k subs subs' b there in
            let e : n' ≡ node i c a s subs' = ground (arith, h, other, there) in
            (
              m,
              ground (arith, other, found),
              ground (arith, h, other, there, b_is),
              rw e (ground (arith, other, now)),
            )
      ]
    ]

    with_node_in-some :
        (k : Text) (ns ns' : Nodes) (result : Bool)
        → with_node_in k f ns ≡ some (result, ns')
        → WritesTo k f (get_xmp_node_in k ns) result (get_xmp_node_in k ns')
    with_node_in-some k nil ns' result h = absurd (ground (arith, h))
    with_node_in-some k (cons n ns) ns' result h = elim (Option-cases (with_node k f n)) [
      | inr ((b, n'), there) ↦
          let (m, found, b_is, now) = with_node-some k n n' b there in
          let e : ns' ≡ cons n' ns = ground (arith, h, there) in
          (m, ground (arith, found), ground (arith, h, there, b_is), rw e (ground (arith, now)))
      | inl absent ↦ elim (Option-cases (with_node_in k f ns)) [
        | inl not_later ↦ absurd (ground (arith, h, absent, not_later))
        | inr ((b, ms), later) ↦
            let (m, found, b_is, now) = with_node_in-some k ns ms b later in
            let e : ns' ≡ cons n ms = ground (arith, h, absent, later) in
            let not_here = with_node-none k f n absent in
            (
              m,
              ground (arith, not_here, found),
              ground (arith, h, absent, later, b_is),
              rw e (ground (arith, not_here, now)),
            )
      ]
    ]

  with_node-key :
      (k : Text) (n n' : Node) (result : Bool)
      → with_node k f n ≡ some (result, n')
      → key n' ≡ key n
  unfolding with_node
  with_node-key k (node i c a s subs) n' result h = elim (Bool-cases (text_eq i k)) [
    | inl same ↦
        let this = node i c a s subs in
        let e : f this ≡ (result, n') = ground (arith, h, same) in
        rw (← ap (λ x. x.1) e) (keeps this)
    | inr other ↦ elim (Option-cases (with_node_in k f subs)) [
      | inl absent ↦ absurd (ground (arith, h, other, absent))
      | inr ((b, subs'), there) ↦
          let e : n' ≡ node i c a s subs' = ground (arith, h, other, there) in rw e refl
    ]
  ]

  pub with_created-key :
      (k : Text) (create : Bool) (n : Node) → key (with_created k create f n).1 ≡ key n
  unfolding with_created
  with_created-key k create n = elim (Option-cases (with_node k f n)) [
    | inr ((b, n'), there) ↦ rw (there, with_created) (with_node-key k n n' b there)
    | inl absent ↦ elim (Bool-cases create) [
      | inl yes_create ↦ rw (absent, with_created, yes_create) (key-add_sub_node n (f (new k)).1)
      | inr no_create ↦ rw (absent, with_created, no_create) refl
    ]
  ]

  -- Where the write was made: at the node that is found, or at the new one.
  pub with_created_lem :
      (k : Text) (create : Bool) (n : Node)
      → ((m : Node) × ((get_xmp_node k n ≡ some m)
            ⊎ ((get_xmp_node k n ≡ none) × (create ≡ true) × (m ≡ new k)))
          × ((with_created k create f n).0 ≡ (f m).0)
          × (get_xmp_node k (with_created k create f n).1 ≡ some (f m).1))
        ⊎ ((get_xmp_node k n ≡ none) × (create ≡ false) × (with_created k create f n ≡ (false, n)))
  unfolding with_created
  with_created_lem k create n = elim (Option-cases (with_node k f n)) [
    | inr ((b, n'), there) ↦
        let (m, found, b_is, now) = with_node-some k n n' b there in
        inl (m, inl found, rw (there, with_created) b_is, rw (there, with_created) now)
    | inl absent ↦
        let not_there = with_node-none k f n absent in
        elim (Bool-cases create) [
          | inr no_create ↦ inr (not_there, no_create, rw (absent, with_created, no_create) refl)
          | inl yes_create ↦
              let sub = (f (new k)).1 in
              let kept : text_eq (key sub) k ≡ true = rw (keeps (new k)) (text_eq_refl k) in
              inl (
                new k,
                inr (not_there, yes_create, refl),
                ground (arith, absent, yes_create),
                rw (absent, with_created, yes_create)
                    (get_xmp_node-add_sub_node k sub kept n not_there),
              )
        ]
  ]
