-- ===== src/Trie/Cover.antt =====
-- Inserting a path blocks exactly the paths that begin with it.
use personal_test_resolver.Common.{
  ◌≡◌, refl, Bool, true, false, ◌||◌, ◌&&◌, none, some, List, [], ◌∷◌, Bytes, equal, equal_iff,
  arith, Option-cases, inl, inr, Option, Bool-cases, ◌∙◌,
}
use personal_test_resolver.Trie.{
  Node, Nodes, node, label, is_blocked, find_child, update_child, append_child, walk, children,
  insert, with_children, new_child, empty_node,
}
use personal_test_resolver.Common.Memory.{Mem}
use personal_test_resolver.Trie.Children.{
  Extends, find_child-update, insert-failed, label-with_children, find_child-append, insert-made,
  new_child-Extends, is_blocked-with_children, insert-found, find_child-label, new_child-found,
}

-- The first path is a prefix of the second.
abbrev pub is_prefix : List Bytes → List Bytes → Bool
is_prefix [] q = true
is_prefix (l ∷ p) [] = false
is_prefix (l ∷ p) (k ∷ q) = equal l k && is_prefix p q

-- A node is blocked, or one on the path below it.
abbrev pub covered : Node → List Bytes → Bool
covered t q = is_blocked t || walk t q

pub insert-label : (t : Node) (p : List Bytes) (m : Mem) → label (insert t p m).0.0 ≡ label t
unfolding insert
insert-label (node lab b c ns) [] m = refl
insert-label t (l ∷ ls) m = elim (Option-cases (find_child (children t) l)) [
  | inl missing ↦ elim (Option-cases (new_child t l m).0) [
    | inl fails ↦ ground arith
    | inr (parent, made) ↦ ground (
      arith,
      label-with_children parent (
          update_child (children parent) l
            (insert (empty_node (some l)) ls (new_child t l m).1).0.0),
      (new_child-Extends t l m made).same_label,
    )
  ]
  | inr (child, found) ↦
      ground (arith, label-with_children t (update_child (children t) l (insert child ls m).0.0))
]

-- The paths below a child.
abbrev pub below : Option Node → List Bytes → Bool
below none q = false
below (some c) q = covered c q

pub walk-below :
    (t : Node) (k : Bytes) (q : List Bytes) → walk t (k ∷ q) ≡ below (find_child (children t) k) q
unfolding walk
walk-below t k q = ground arith

covered-empty_node : (l : Bytes) (q : List Bytes) → covered (empty_node (some l)) q ≡ false
unfolding walk find_child
covered-empty_node l [] = refl
covered-empty_node l (k ∷ q) = refl

-- Replacing the child `c` at `l` by `n'`, which covers `extra` more.
covered-update :
    (t : Node) (ns : Nodes) (l : Bytes) (ls : List Bytes) (c n' : Node) (reached : Bool)
    → label n' ≡ some l
    → find_child ns l ≡ some c
    → ((q : List Bytes) → covered n' q ≡ (covered c q || (reached && is_prefix ls q)))
    → (k : Bytes) (q : List Bytes)
    → below (find_child (update_child ns l n') k) q
      ≡ (below (find_child ns k) q || (reached && is_prefix (l ∷ ls) (k ∷ q)))
covered-update t ns l ls c n' reached h e more k q = elim (Bool-cases (equal l k)) [
  | inl same ↦
      let is_same : l ≡ k = (equal_iff l k).0 same in
      rw (find_child-update ns l k c n' h e, same, ← is_same, e) (more q)
  | inr other ↦ rw (find_child-update ns l k c n' h e, other) (ground arith)
]

-- A new child covers nothing yet, and is found under its label.
below-append :
    (ns : Nodes) (l k : Bytes) (q : List Bytes)
    → below (find_child (append_child ns (empty_node (some l))) k) q ≡ below (find_child ns k) q
below-append ns l k q =
    rw (find_child-append ns k (empty_node (some l))) (ground (arith, covered-empty_node l q))

walk-with_children :
    (t : Node) (ns : Nodes) (k : Bytes) (q : List Bytes)
    → walk (with_children t ns) (k ∷ q) ≡ below (find_child ns k) q
walk-with_children (node lab b c _) ns k q = walk-below (node lab b c ns) k q

walk-by_update :
    (t : Node) (l : Bytes) (ls : List Bytes) (c n' : Node) (reached : Bool) (q : List Bytes)
    → label n' ≡ some l
    → find_child (children t) l ≡ some c
    → ((q : List Bytes) → covered n' q ≡ (covered c q || (reached && is_prefix ls q)))
    → walk (with_children t (update_child (children t) l n')) q
      ≡ (walk t q || (reached && is_prefix (l ∷ ls) q))
walk-by_update t l ls c n' reached [] h e more = unfold walk in ground arith
walk-by_update t l ls c n' reached (k ∷ q) h e more =
    walk-with_children t _ k q
    ∙ rw (covered-update t (children t) l ls c n' reached h e more k q, walk-below t k q)

Extends-walk :
    (t parent : Node) (l : Bytes) (q : List Bytes) → Extends t l parent → walk parent q ≡ walk t q
Extends-walk t parent l [] x = unfold walk in refl
Extends-walk t parent l (k ∷ q) x =
    rw (walk-below parent k q, walk-below t k q, x.more, below-append (children t) l k q) refl

-- The walk takes one step, with what is known of the rest of the path.
insert-walk_step :
    (t : Node) (l : Bytes) (ls : List Bytes) (m : Mem) (q : List Bytes)
    → ((t : Node) (m : Mem) (q : List Bytes)
        → covered (insert t ls m).0.0 q ≡ (covered t q || ((insert t ls m).0.1 && is_prefix ls q)))
    → walk (insert t (l ∷ ls) m).0.0 q
      ≡ (walk t q || ((insert t (l ∷ ls) m).0.1 && is_prefix (l ∷ ls) q))
insert-walk_step t l ls m q rest = elim (Option-cases (find_child (children t) l)) [
  | inl missing ↦ elim (Option-cases (new_child t l m).0) [
    | inl fails ↦ rw (insert-failed t l ls m missing fails) (ground arith)
    | inr (parent, made) ↦
        let x = new_child-Extends t l m made in
        let found = new_child-found t l m missing made in
        let m1 = (new_child t l m).1 in
        rw (insert-made t l ls m missing made) (
          walk-by_update parent l ls (empty_node (some l)) _ _ q
            (insert-label (empty_node (some l)) ls m1) found (rest (empty_node (some l)) m1)
          ∙ rw (Extends-walk t parent l q x))
  ]
  | inr (child, found) ↦ rw (insert-found t l ls m found) (
      walk-by_update t l ls child _ _ q
        (insert-label child ls m ∙ find_child-label (children t) l found) found (rest child m))
]

insert-is_blocked :
    (t : Node) (l : Bytes) (ls : List Bytes) (m : Mem)
    → is_blocked (insert t (l ∷ ls) m).0.0 ≡ is_blocked t
insert-is_blocked t l ls m = elim (Option-cases (find_child (children t) l)) [
  | inl missing ↦ elim (Option-cases (new_child t l m).0) [
    | inl fails ↦ rw (insert-failed t l ls m missing fails)
    | inr (parent, made) ↦
        rw (insert-made t l ls m missing made)
          (is_blocked-with_children parent _ ∙ (new_child-Extends t l m made).same_block)
  ]
  | inr (child, found) ↦ rw (insert-found t l ls m found) (is_blocked-with_children t _)
]

pub insert-covered :
    (p : List Bytes) (t : Node) (m : Mem) (q : List Bytes)
    → covered (insert t p m).0.0 q ≡ (covered t q || ((insert t p m).0.1 && is_prefix p q))
insert-covered [] (node lab b c ns) m q = unfold insert in ground arith
insert-covered (l ∷ ls) t m q =
    ground (arith, insert-is_blocked t l ls m, insert-walk_step t l ls m q (insert-covered ls))

-- After the walk of `filter_add_domain` over a path of at least one label, the walk of
-- `is_domain_blocked` finds what it found before and, if the first walk reached the end of its path,
-- every path that begins with that one. If an allocation failed on the way, nothing else is found.
pub insert-walk :
    (t : Node) (l : Bytes) (ls : List Bytes) (m : Mem) (q : List Bytes)
    → walk (insert t (l ∷ ls) m).0.0 q
      ≡ (walk t q || ((insert t (l ∷ ls) m).0.1 && is_prefix (l ∷ ls) q))
insert-walk t l ls m q = insert-walk_step t l ls m q (insert-covered ls)
