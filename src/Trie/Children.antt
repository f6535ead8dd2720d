-- ===== src/Trie/Children.antt =====
-- Finding, replacing and adding a child, and the steps of `insert`.
use personal_test_resolver.Common.{
  ◌≡◌, refl, false, none, some, List, ◌∷◌, Bytes, equal, equal_iff, if◌then◌else◌, arith,
}
use personal_test_resolver.Trie.{
  Node, Nodes, node, nil, cons, label, is_blocked, has_label, find_child, update_child,
  append_child, children, insert, with_children, new_child, add_child, empty_node,
}
use personal_test_resolver.Common.Memory.{Mem}

pub find_child-label :
    (ns : Nodes) (l : Bytes) {c : Node} → find_child ns l ≡ some c → label c ≡ some l
unfolding find_child
find_child-label nil l e = cc
find_child-label (cons (node none b c ns) rest) l e = find_child-label rest l e
find_child-label (cons (node (some j) b c ns) rest) l {c = found} e =
    ground (arith, equal_iff j l, find_child-label rest l {c = found})

pub find_child-update :
    (ns : Nodes) (l k : Bytes) (c n' : Node)
    → label n' ≡ some l
    → find_child ns l ≡ some c
    → find_child (update_child ns l n') k ≡ (if equal l k then some n' else find_child ns k)
unfolding find_child update_child
find_child-update nil l k c n' h e = cc
find_child-update (cons (node none b cap ns) rest) l k c n' h e =
    ground (arith, find_child-update rest l k c n' h)
find_child-update (cons (node (some j) b cap ns) rest) l k c (node lab b' cap' ns') h e = ground (
  arith,
  equal_iff j l,
  equal_iff j k,
  equal_iff l k,
  find_child-update rest l k c (node lab b' cap' ns') h,
)

pub find_child-append :
    (ns : Nodes) (k : Bytes) (n' : Node)
    → find_child (append_child ns n') k
      ≡ elim (find_child ns k) [ some c ↦ some c | none ↦ if has_label n' k then some n' else none ]
unfolding find_child
find_child-append nil k n' = refl
find_child-append (cons n ns) k n' = ground (arith, find_child-append ns k n')

-- A node but for its children's capacity.
pub record Extends (parent : Node) (l : Bytes) (parent' : Node) : Type 0 where
  pub same_label : label parent' ≡ label parent
  pub same_block : is_blocked parent' ≡ is_blocked parent
  pub more : children parent' ≡ append_child (children parent) (empty_node (some l))

pub new_child-Extends :
    (parent : Node) (l : Bytes) (m : Mem) {parent' : Node}
    → (new_child parent l m).0 ≡ some parent'
    → Extends parent l parent'
unfolding new_child add_child
new_child-Extends (node lab b c ns) l m e = ground arith

pub label-with_children : (t : Node) (ns : Nodes) → label (with_children t ns) ≡ label t
label-with_children (node lab b c _) ns = refl

pub is_blocked-with_children :
    (t : Node) (ns : Nodes) → is_blocked (with_children t ns) ≡ is_blocked t
is_blocked-with_children (node lab b c _) ns = refl

pub children-with_children : (t : Node) (ns : Nodes) → children (with_children t ns) ≡ ns
children-with_children (node lab b c _) ns = refl

pub find_child-append_self :
    (ns : Nodes) (l : Bytes)
    → find_child ns l ≡ none
    → find_child (append_child ns (empty_node (some l))) l ≡ some (empty_node (some l))
find_child-append_self ns l e =
    ground (arith, find_child-append ns l (empty_node (some l)), equal_iff l l)

pub insert-found :
    (t : Node) (l : Bytes) (ls : List Bytes) (m : Mem) {c : Node}
    → find_child (children t) l ≡ some c
    → insert t (l ∷ ls) m ≡ (
      (with_children t (update_child (children t) l (insert c ls m).0.0), (insert c ls m).0.1),
      (insert c ls m).1,
    )
unfolding insert
insert-found t l ls m e = ground arith

pub insert-failed :
    (t : Node) (l : Bytes) (ls : List Bytes) (m : Mem)
    → find_child (children t) l ≡ none
    → (new_child t l m).0 ≡ none
    → insert t (l ∷ ls) m ≡ ((t, false), (new_child t l m).1)
unfolding insert
insert-failed t l ls m e f = ground arith

pub insert-made :
    (t : Node) (l : Bytes) (ls : List Bytes) (m : Mem) {parent : Node}
    → find_child (children t) l ≡ none
    → (new_child t l m).0 ≡ some parent
    → insert t (l ∷ ls) m ≡ (
      (
        with_children parent (
            update_child
              (children parent)
              l
              (insert (empty_node (some l)) ls (new_child t l m).1).0.0),
        (insert (empty_node (some l)) ls (new_child t l m).1).0.1,
      ),
      (insert (empty_node (some l)) ls (new_child t l m).1).1,
    )
unfolding insert
insert-made t l ls m e f = ground arith

pub new_child-found :
    (t : Node) (l : Bytes) (m : Mem) {parent : Node}
    → find_child (children t) l ≡ none
    → (new_child t l m).0 ≡ some parent
    → find_child (children parent) l ≡ some (empty_node (some l))
new_child-found t l m missing made =
    rw (new_child-Extends t l m made).more (find_child-append_self (children t) l missing)
