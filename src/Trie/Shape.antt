-- ===== src/Trie/Shape.antt =====
-- The shape of a trie that the walks of filter.c build.
use personal_test_resolver.Common.{
  ℕ, ◌+◌, ◌≤◌, ◌≡◌, refl, Bool, true, false, ◌&&◌, Option, none, some, List, [], ◌∷◌, Bytes, leb,
  Bool-cases, arith, Option-cases, inl, inr, equal_iff, ◌∙◌, ◌≢◌,
}
use personal_test_resolver.Trie.{
  new_child, Node, add_child, Nodes, grow, update_child, find_child, label, cons, count, has_label,
  node, append_child, filter_node_create, children, empty_node, nil, insert, with_children,
}
use personal_test_resolver.Common.Memory.{Mem, malloc}
use personal_test_resolver.Trie.Children.{
  find_child-update, insert-failed, insert-made, new_child-found, insert-found, find_child-label,
  find_child-append,
}
use personal_test_resolver.Trie.Cover.{insert-label}

-- No child is found under the node's label, which it has.
abbrev pub fresh_in : Nodes → Option Bytes → Bool
fresh_in ns none = false
fresh_in ns (some l) = elim (find_child ns l) [ none ↦ true | some c ↦ false ]

unfoldable mutual
  -- The array has room for the children.
  pub well_formed : Node → Bool
  well_formed (node l b c ns) = leb (count ns) c && distinct ns

  -- The children have labels, which differ, and are in shape themselves.
  pub distinct : Nodes → Bool
  distinct nil = true
  distinct (cons n ns) = fresh_in ns (label n) && (well_formed n && distinct ns)

distinct-found :
    (ns : Nodes) (l : Bytes) {c : Node}
    → distinct ns ≡ true
    → find_child ns l ≡ some c
    → well_formed c ≡ true
unfolding find_child well_formed
distinct-found nil l h e = cc
distinct-found (cons n ns) l {c} h e = ground (arith, distinct-found ns l {c = c})

count-update : (ns : Nodes) (l : Bytes) (n' : Node) → count (update_child ns l n') ≡ count ns
unfolding update_child
count-update nil l n' = refl
count-update (cons n ns) l n' = ground (arith, count-update ns l n')

count-append : (ns : Nodes) (n' : Node) → count (append_child ns n') ≡ count ns + 1
count-append nil n' = refl
count-append (cons n ns) n' = omega (arith, count-append ns n')

-- The labels stay what they are.
fresh-update :
    (ns : Nodes) (l : Bytes) (c n' : Node) (k : Option Bytes)
    → label n' ≡ some l
    → find_child ns l ≡ some c
    → fresh_in (update_child ns l n') k ≡ fresh_in ns k
fresh-update ns l c n' none h e = refl
fresh-update ns l c n' (some k) h e =
    ground (arith, find_child-update ns l k c n' h e, equal_iff l k)

find_child-miss :
    (n : Node) (ns : Nodes) (l : Bytes) {c : Node}
    → has_label n l ≡ false
    → find_child (cons n ns) l ≡ some c
    → find_child ns l ≡ some c
unfolding find_child
find_child-miss n ns l h e = ground arith

has_label-label : (n : Node) (l : Bytes) → has_label n l ≡ true → label n ≡ some l
has_label-label (node none b c ns) l h = cc
has_label-label (node (some k) b c ns) l h = ground (arith, equal_iff k l)

distinct-update :
    (ns : Nodes) (l : Bytes) (c n' : Node)
    → label n' ≡ some l
    → find_child ns l ≡ some c
    → distinct ns ≡ true
    → well_formed n' ≡ true
    → distinct (update_child ns l n') ≡ true
unfolding update_child well_formed
distinct-update nil l c n' h e d w = refl
distinct-update (cons n ns) l c n' h e d w = elim (Bool-cases (has_label n l)) [
  | inl here ↦ ground (arith, has_label-label n l here)
  | inr other ↦
      let more = find_child-miss n ns l other e in
      ground (arith, fresh-update ns l c n' (label n) h more, distinct-update ns l c n' h more)
]

fresh-append :
    (ns : Nodes) (l : Bytes) (k : Option Bytes)
    → k ≢ some l
    → fresh_in (append_child ns (empty_node (some l))) k ≡ fresh_in ns k
fresh-append ns l none h = refl
fresh-append ns l (some k) h =
    ground (arith, find_child-append ns k (empty_node (some l)), equal_iff l k)

has_label-missing :
    (n : Node) (ns : Nodes) (l : Bytes)
    → find_child (cons n ns) l ≡ none
    → (label n ≢ some l) × (find_child ns l ≡ none)
unfolding find_child
has_label-missing (node none b c cs) ns l e = ground arith
has_label-missing (node (some k) b c cs) ns l e = ground (arith, equal_iff k l)

distinct-append :
    (ns : Nodes) (l : Bytes)
    → find_child ns l ≡ none
    → distinct ns ≡ true
    → distinct (append_child ns (empty_node (some l))) ≡ true
unfolding find_child well_formed
distinct-append nil l e d = refl
distinct-append (cons n ns) l e d =
    ground (arith, fresh-append ns l (label n), has_label-missing n ns l, distinct-append ns l)

grow_room : (n c : ℕ) (m : Mem) {c' : ℕ} → n ≤ c → (grow n c m).0 ≡ some c' → n + 1 ≤ c'
unfolding grow
grow_room n c m h e = ground arith

add_child-well_formed :
    (t : Node) (l : Bytes) (m : Mem) {parent : Node}
    → find_child (children t) l ≡ none
    → well_formed t ≡ true
    → (add_child t (empty_node (some l)) m).0 ≡ some parent
    → well_formed parent ≡ true
unfolding add_child well_formed
add_child-well_formed (node lab b c ns) l m {parent} missing w e =
    elim (Option-cases (grow (count ns) c m).0) [
      | inl fails ↦ absurd (ground arith)
      | inr (c', grows) ↦ ground (
        arith,
        count-append ns (empty_node (some l)),
        distinct-append ns l missing,
        grow_room (count ns) c m {c' = c'},
      )
    ]

new_child-well_formed :
    (t : Node) (l : Bytes) (m : Mem) {parent : Node}
    → find_child (children t) l ≡ none
    → well_formed t ≡ true
    → (new_child t l m).0 ≡ some parent
    → well_formed parent ≡ true
unfolding new_child filter_node_create
new_child-well_formed t l m {parent} missing w e =
    ground (arith, add_child-well_formed t l (malloc (malloc m).1).1 {parent = parent} missing w)

with_children-well_formed :
    (t : Node) (l : Bytes) (c n' : Node)
    → label n' ≡ some l
    → find_child (children t) l ≡ some c
    → well_formed t ≡ true
    → well_formed n' ≡ true
    → well_formed (with_children t (update_child (children t) l n')) ≡ true
unfolding well_formed
with_children-well_formed (node lab b cap ns) l c n' h e w v =
    ground (arith, count-update ns l n', distinct-update ns l c n' h e)

pub well_formed-distinct : (t : Node) → well_formed t ≡ true → distinct (children t) ≡ true
unfolding well_formed
well_formed-distinct (node l b c ns) w = ground arith

-- The walk of `filter_add_domain` over any path, whichever requests for memory are refused on the
-- way, keeps a trie in shape: at each node the array has room for the children, and the children
-- have labels, no two the same.
pub insert-well_formed :
    (p : List Bytes) (t : Node) (m : Mem)
    → well_formed t ≡ true
    → well_formed (insert t p m).0.0 ≡ true
insert-well_formed [] (node l b c ns) m w = unfold insert well_formed in ground arith
insert-well_formed (l ∷ ls) t m w = elim (Option-cases (find_child (children t) l)) [
  | inl missing ↦ elim (Option-cases (new_child t l m).0) [
    | inl fails ↦ rw (insert-failed t l ls m missing fails) w
    | inr (parent, made) ↦
        let fresh = empty_node (some l) in
        let m1 = (new_child t l m).1 in
        rw (insert-made t l ls m missing made) (
          with_children-well_formed parent l fresh (insert fresh ls m1).0.0
            (insert-label fresh ls m1) (new_child-found t l m missing made)
            (new_child-well_formed t l m missing w made)
            (insert-well_formed ls fresh m1 (unfold well_formed in refl)))
  ]
  | inr (child, found) ↦ rw (insert-found t l ls m found) (
      with_children-well_formed t l child (insert child ls m).0.0
        (insert-label child ls m ∙ find_child-label (children t) l found) found w
        (insert-well_formed ls child m
          (distinct-found (children t) l (well_formed-distinct t w) found)))
]
