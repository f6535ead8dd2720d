-- ===== src/Trie/Blocks.antt =====
-- The blocks that a trie owns: what `insert` takes and what `filter_node_free` gives back.
use personal_test_resolver.Common.{
  ℕ, ◌+◌, ◌-◌, ◌≡◌, refl, none, some, List, [], ◌∷◌, Bytes, if◌then◌else◌, ◌==◌, arith,
  Option-cases, inl, inr, Option, ◌≤◌,
}
use personal_test_resolver.Common.Memory.{Mem, malloc_live, malloc, regrow_live}
use personal_test_resolver.Trie.{
  Node, Nodes, new_child, find_child, insert, update_child, node, with_children, append_child, cons,
  children, nil, grow, filter_node_free, filter_node_create, add_child, count, free_children,
  empty_node,
}
use personal_test_resolver.Trie.Children.{insert-found, insert-failed, insert-made, new_child-found}

abbrev label_block : Option Bytes → ℕ
label_block none = 0
label_block (some l) = 1

abbrev array_block : ℕ → ℕ
array_block c = if c == 0 then 0 else 1

unfoldable mutual
  -- The node, its label, its array of children, and all that lies below.
  pub trie_blocks : Node → ℕ
  trie_blocks (node l b c ns) = 1 + label_block l + array_block c + child_blocks ns

  pub child_blocks : Nodes → ℕ
  child_blocks nil = 0
  child_blocks (cons n ns) = trie_blocks n + child_blocks ns

mutual
  unfolding filter_node_free trie_blocks

  free_live : (t : Node) (m : Mem) → (filter_node_free t m).live ≡ m.live - trie_blocks t
  free_live (node l b c ns) m = ground (arith, free_children_live ns m)

  free_children_live : (ns : Nodes) (m : Mem) → (free_children ns m).live ≡ m.live - child_blocks ns
  free_children_live nil m = omega arith
  free_children_live (cons n ns) m =
      omega (arith, free_children_live ns (filter_node_free n m), free_live n m)

-- Freeing a trie frees the blocks that it owns.
pub filter_node_free_live :
    (t : Node) (m : Mem) → (filter_node_free t m).live ≡ m.live - trie_blocks t
filter_node_free_live t m = free_live t m

child_blocks-update :
    (ns : Nodes) (l : Bytes) (c n' : Node)
    → find_child ns l ≡ some c
    → child_blocks (update_child ns l n') + trie_blocks c ≡ child_blocks ns + trie_blocks n'
unfolding find_child update_child trie_blocks
child_blocks-update nil l c n' e = cc
child_blocks-update (cons n ns) l c n' e = ground (arith, child_blocks-update ns l c n')

child_blocks-append :
    (ns : Nodes) (n' : Node) → child_blocks (append_child ns n') ≡ child_blocks ns + trie_blocks n'
unfolding trie_blocks
child_blocks-append nil n' = omega arith
child_blocks-append (cons n ns) n' = omega (arith, child_blocks-append ns n')

trie_blocks-with_children :
    (t : Node) (ns : Nodes)
    → trie_blocks (with_children t ns) + child_blocks (children t) ≡ trie_blocks t + child_blocks ns
unfolding trie_blocks
trie_blocks-with_children (node l b c _) ns = omega arith

-- What a step that may fail takes: nothing if it fails, else what the result owns more.
abbrev Takes : {A : Type 0} → Option A → (A → ℕ) → ℕ → ℕ → ℕ → Type 0
Takes none owns before live live' = live' ≡ live
Takes (some a) owns before live live' = live' + before ≡ live + owns a

grow_live :
    (n c : ℕ) (m : Mem)
    → Takes (grow n c m).0 array_block (array_block c) m.live (grow n c m).1.live
unfolding grow
grow_live n c m = ground (arith, malloc_live m, regrow_live m)

add_child_live :
    (t child : Node) (m : Mem)
    → Takes
        (add_child t child m).0
        trie_blocks
        (trie_blocks t + trie_blocks child)
        m.live
        (add_child t child m).1.live
unfolding add_child trie_blocks
add_child_live (node l b c ns) child m = elim (Option-cases (grow (count ns) c m).0) [
  | inl fails ↦ ground (arith, grow_live (count ns) c m)
  | inr (c', grows) ↦ ground (arith, grow_live (count ns) c m, child_blocks-append ns child)
]

new_child_live :
    (t : Node) (l : Bytes) (m : Mem)
    → Takes (new_child t l m).0 trie_blocks (trie_blocks t) m.live (new_child t l m).1.live
unfolding new_child filter_node_create trie_blocks
new_child_live t l m = ground (
  arith,
  malloc_live m,
  malloc_live (malloc m).1,
  add_child_live t (empty_node (some l)) (malloc (malloc m).1).1,
)

fresh_blocks : (l : Bytes) → trie_blocks (empty_node (some l)) ≡ 2
unfolding trie_blocks
fresh_blocks l = refl

pub insert_live :
    (p : List Bytes) (t : Node) (m : Mem)
    → (insert t p m).1.live + trie_blocks t ≡ m.live + trie_blocks (insert t p m).0.0
insert_live [] (node l b c ns) m = unfold insert trie_blocks in refl
insert_live (l ∷ ls) t m = elim (Option-cases (find_child (children t) l)) [
  | inl missing ↦ elim (Option-cases (new_child t l m).0) [
    | inl fails ↦ rw (insert-failed t l ls m missing fails) (ground (arith, new_child_live t l m))
    | inr (parent, made) ↦
        let fresh = empty_node (some l) in
        let grown = (insert fresh ls (new_child t l m).1).0.0 in
        rw (insert-made t l ls m missing made) (
          ground (
            arith,
            insert_live ls fresh (new_child t l m).1,
            child_blocks-update (children parent) l fresh grown
                (new_child-found t l m missing made),
            trie_blocks-with_children parent (update_child (children parent) l grown),
            new_child_live t l m,
            made,
            fresh_blocks l,
          ))
  ]
  | inr (child, found) ↦ rw (insert-found t l ls m found) (
      omega (
        arith,
        insert_live ls child m,
        child_blocks-update (children t) l child (insert child ls m).0.0 found,
        trie_blocks-with_children t (update_child (children t) l (insert child ls m).0.0),
      ))
]

grow_rises : (n c : ℕ) (m : Mem) → m.live ≤ (grow n c m).1.live
unfolding grow
grow_rises n c m = ground (arith, malloc_live m, regrow_live m)

add_child_rises : (t child : Node) (m : Mem) → m.live ≤ (add_child t child m).1.live
unfolding add_child
add_child_rises (node l b c ns) child m = ground (arith, grow_rises (count ns) c m)

new_child_rises : (t : Node) (l : Bytes) (m : Mem) → m.live ≤ (new_child t l m).1.live
unfolding new_child filter_node_create
new_child_rises t l m = ground (
  arith,
  malloc_live m,
  malloc_live (malloc m).1,
  add_child_rises t (empty_node (some l)) (malloc (malloc m).1).1,
)

pub insert_rises : (p : List Bytes) (t : Node) (m : Mem) → m.live ≤ (insert t p m).1.live
insert_rises [] t m = unfold insert in omega arith
insert_rises (l ∷ ls) t m = elim (Option-cases (find_child (children t) l)) [
  | inl missing ↦ elim (Option-cases (new_child t l m).0) [
    | inl fails ↦ rw (insert-failed t l ls m missing fails) (new_child_rises t l m)
    | inr (parent, made) ↦ rw (insert-made t l ls m missing made) (
        omega
          (arith, new_child_rises t l m, insert_rises ls (empty_node (some l)) (new_child t l m).1))
  ]
  | inr (child, found) ↦ rw (insert-found t l ls m found) (insert_rises ls child m)
]
