-- ===== src/XmpNode/Joins/Copies.antt =====
-- The copy that UpdateNode of XMPDataNode.cpp makes.
use pmt.Common.{◌≡◌, refl, ap, ◌∙◌, true, false, [], if◌then◌else◌, text_eq}
use pmt.Common.Text.{Text}
use pmt.XmpNode.{Node, node, Nodes, nil, cons, key, new, push_back}
use pmt.XmpNode.Joins.{assign, assign_subs, update_node}

push_back_all : Nodes → Nodes → Nodes
push_back_all ns nil = ns
push_back_all ns (cons m ms) = push_back_all (push_back ns m) ms

push_back_all-cons :
    (n : Node) (ns ms : Nodes) → push_back_all (cons n ns) ms ≡ cons n (push_back_all ns ms)
unfolding push_back_all
push_back_all-cons n ns nil = refl
push_back_all-cons n ns (cons m ms) = push_back_all-cons n (push_back ns m) ms

push_back_all-nil : (ms : Nodes) → push_back_all nil ms ≡ ms
unfolding push_back_all
push_back_all-nil nil = refl
push_back_all-nil (cons m ms) = push_back_all-cons m nil ms ∙ ap (cons m) (push_back_all-nil ms)

-- A copy into an empty node is the node.
mutual
  unfolding assign push_back_all

  assign-empty : (n : Node) (k c : Text) → assign n (node k c [] [] nil) ≡ n
  assign-empty (node i d a s subs) k c =
      ap (λ ms. node i d a s ms) (assign_subs-eq subs nil ∙ push_back_all-nil subs)

  assign_subs-eq : (ns ms : Nodes) → assign_subs ns ms ≡ push_back_all ms ns
  assign_subs-eq nil ms = refl
  assign_subs-eq (cons n ns) ms =
      assign_subs-eq ns (push_back ms (assign n (new [])))
      ∙ ap (λ x. push_back_all (push_back ms x) ns) (assign-empty n [] [])

-- UpdateNode leaves the node given, or fails and changes nothing.
pub update_node_lem :
    (other n : Node)
    → update_node other n ≡ (if text_eq (key n) (key other) then (true, other) else (false, n))
unfolding update_node
update_node_lem other (node k c a s subs) = rw (assign-empty other k c) refl
