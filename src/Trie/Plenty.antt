-- ===== src/Trie/Plenty.antt =====
-- With memory to spare, `insert` reaches the end of its path.
use personal_test_resolver.Common.{
  ℕ, ◌≡◌, refl, none, some, List, [], ◌∷◌, Bytes, arith, Option-cases, inl, inr, ◌≢◌, true,
}
use personal_test_resolver.Common.Memory.{
  Mem, malloc-Plentiful, regrow-Plentiful, Plentiful, malloc, malloc_keeps,
}
use personal_test_resolver.Trie.{
  add_child, grow, new_child, Node, filter_node_create, insert, node, count, find_child, empty_node,
  children,
}
use personal_test_resolver.Trie.Children.{insert-made, insert-found}

grow_plenty : (n c : ℕ) (m : Mem) → Plentiful m → ((grow n c m).0 ≢ none) × Plentiful (grow n c m).1
unfolding grow
grow_plenty n c m h = ground (arith, malloc-Plentiful m h, regrow-Plentiful m h)

add_child_plenty :
    (t child : Node) (m : Mem)
    → Plentiful m
    → ((add_child t child m).0 ≢ none) × Plentiful (add_child t child m).1
unfolding add_child
add_child_plenty (node l b c ns) child m h = ground (arith, grow_plenty (count ns) c m h)

new_child_plenty :
    (t : Node) (l : Bytes) (m : Mem)
    → Plentiful m
    → ((new_child t l m).0 ≢ none) × Plentiful (new_child t l m).1
unfolding new_child filter_node_create
new_child_plenty t l m h = ground (
  arith,
  malloc-Plentiful m h,
  malloc-Plentiful (malloc m).1 (malloc_keeps m h),
  add_child_plenty t (empty_node (some l)) (malloc (malloc m).1).1
      (malloc_keeps (malloc m).1 (malloc_keeps m h)),
)

-- With memory to spare, the walk of `filter_add_domain` reaches the end of its path.
pub insert_plenty :
    (p : List Bytes) (t : Node) (m : Mem)
    → Plentiful m
    → ((insert t p m).0.1 ≡ true) × Plentiful (insert t p m).1
insert_plenty [] t m h = unfold insert in (refl, h)
insert_plenty (l ∷ ls) t m h = elim (Option-cases (find_child (children t) l)) [
  | inl missing ↦ elim (Option-cases (new_child t l m).0) [
    | inl fails ↦ absurd ((new_child_plenty t l m h).0 fails)
    | inr (parent, made) ↦
        rw (insert-made t l ls m missing made)
          (insert_plenty ls (empty_node (some l)) (new_child t l m).1 (new_child_plenty t l m h).1)
  ]
  | inr (child, found) ↦ rw (insert-found t l ls m found) (insert_plenty ls child m h)
]
