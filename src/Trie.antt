-- ===== src/Trie.antt =====
-- The trie of filter.c: nodes, `find_child`, `add_child` and the walks of `filter_add_domain` and
-- `is_domain_blocked`. A walk that changes nodes in place is a function that returns the new node.
pub mod Children
pub mod Cover
pub mod Blocks
pub mod Plenty
pub mod Shape
pub mod Paths
use personal_test_resolver.Common.{
  ℕ, ◌+◌, ◌*◌, Bool, true, false, ◌||◌, Option, none, some, List, [], ◌∷◌, ◌++◌, Bytes, equal, ltb,
  leb, ◌==◌, if◌then◌else◌, suc,
}
use personal_test_resolver.Common.Memory.{Mem, malloc, regrow, release}

mutual
  -- filter_node_t: label, is_blocked, children_capacity, and the children, which are as many as
  -- children_count says.
  pub data Node : Type 0 where
    node : Option Bytes → Bool → ℕ → Nodes → Node

  pub data Nodes : Type 0 where
    nil : Nodes
    cons : Node → Nodes → Nodes

abbrev pub label : Node → Option Bytes
label (node l b c ns) = l

abbrev pub is_blocked : Node → Bool
is_blocked (node l b c ns) = b

abbrev pub capacity : Node → ℕ
capacity (node l b c ns) = c

abbrev pub children : Node → Nodes
children (node l b c ns) = ns

abbrev pub count : Nodes → ℕ
count nil = 0
count (cons n ns) = suc (count ns)

-- `filter_node_create`, and the label that is set behind it.
abbrev pub empty_node : Option Bytes → Node
empty_node l = node l false 0 nil

unfoldable pub filter_node_create : Mem → Option Node × Mem
filter_node_create m =
    let (granted, m') = malloc m in (if granted then some (empty_node none) else none, m')

-- `free` of what the pointer of an `Option` points at.
abbrev free_label : Option Bytes → Mem → Mem
free_label none m = m
free_label (some l) m = release 1 m

-- `free(root->children)`, which is NULL as long as nothing is allocated for it.
abbrev free_array : ℕ → Mem → Mem
free_array c m = if c == 0 then m else release 1 m

unfoldable mutual
  -- `filter_node_free`
  pub filter_node_free : Node → Mem → Mem
  filter_node_free (node l b c ns) m = release 1 (free_array c (free_label l (free_children ns m)))

  -- The loop over the children.
  pub free_children : Nodes → Mem → Mem
  free_children nil m = m
  free_children (cons n ns) m = free_children ns (filter_node_free n m)

-- `children[i]->label != NULL && strcmp(children[i]->label, label) == 0`
abbrev pub has_label : Node → Bytes → Bool
has_label n l = elim (label n) [ none ↦ false | some k ↦ equal k l ]

unfoldable pub find_child : Nodes → Bytes → Option Node
find_child nil l = none
find_child (cons n ns) l = let rest = find_child ns l in if has_label n l then some n else rest

-- A child is changed in place: the one that `find_child` finds.
unfoldable pub update_child : Nodes → Bytes → Node → Nodes
update_child nil l n' = nil
update_child (cons n ns) l n' =
    let rest = update_child ns l n' in if has_label n l then cons n' ns else cons n rest

abbrev pub append_child : Nodes → Node → Nodes
append_child nil n' = cons n' nil
append_child (cons n ns) n' = cons n (append_child ns n')

-- INITIAL_CHILDREN_CAPACITY
abbrev pub initial_capacity : ℕ
initial_capacity = 4

-- The capacity that `add_child` needs for one more child, and whether `realloc` granted it. A first
-- array is a fresh block.
unfoldable pub grow : ℕ → ℕ → Mem → Option ℕ × Mem
grow n c m =
    let (fresh, m1) = malloc m in
    let (grown, m2) = regrow m in
    if ltb n c
    then (some c, m)
    else if c == 0
    then (if fresh then some initial_capacity else none, m1)
    else (if grown then some (c * 2) else none, m2)

-- `add_child(parent, child)`
unfoldable pub add_child : Node → Node → Mem → Option Node × Mem
add_child (node l b c ns) child m =
    let (room, m') = grow (count ns) c m in
    elim room [ none ↦ (none, m') | some c' ↦ (some (node l b c' (append_child ns child)), m') ]

-- The part of the loop that makes a missing child: the node, its label, and its place under the
-- parent. An error frees what was made.
unfoldable pub new_child : Node → Bytes → Mem → Option Node × Mem
new_child parent l m =
    let (made, m1) = filter_node_create m in
    let (copied, m2) = malloc m1 in
    let (added, m3) = add_child parent (empty_node (some l)) m2 in
    elim made [
      | none ↦ (none, m1)
      | some child ↦
          if copied
          then elim added [ none ↦ (none, release 2 m3) | some parent' ↦ (some parent', m3) ]
          else (none, release 1 m2)
    ]

-- `current` with its children replaced.
abbrev pub with_children : Node → Nodes → Node
with_children (node l b c ns) ns' = node l b c ns'

abbrev pub block_node : Node → Node
block_node (node l b c ns) = node l true c ns

-- The loop of `filter_add_domain` from `current` on, over the labels that are left: the changed node,
-- and whether the end was reached.
unfoldable pub insert : Node → List Bytes → Mem → (Node × Bool) × Mem
insert current [] m = ((block_node current, true), m)
insert current (l ∷ ls) m = elim (find_child (children current) l) [
  | some child ↦
      let ((child', reached), m') = insert child ls m in
      ((with_children current (update_child (children current) l child'), reached), m')
  | none ↦
      let (made, m1) = new_child current l m in
      let ((child', reached), m2) = insert (empty_node (some l)) ls m1 in
      elim made [
        | none ↦ ((current, false), m1)
        | some parent ↦
            ((with_children parent (update_child (children parent) l child'), reached), m2)
      ]
]

-- The loop of `is_domain_blocked`: whether a blocked node lies on the path.
unfoldable pub walk : Node → List Bytes → Bool
walk current [] = false
walk current (l ∷ ls) = elim (find_child (children current) l) [
  | none ↦ false
  | some child ↦ let rest = walk child ls in if is_blocked child then true else rest
]
