-- ===== src/Trie/Paths.antt =====
-- The list of paths that a trie stands for.
use personal_test_resolver.Common.{
  ◌≡◌, refl, Bool, true, false, ◌&&◌, ◌||◌, Option, none, some, List, [], ◌∷◌, ◌++◌, Bytes, arith,
  equal, Bool-cases, inl, inr, equal_iff, ◌∙◌, sym, ℕ,
}
use personal_test_resolver.Trie.{find_child, Nodes, cons, node, nil, Node, walk, children}
use personal_test_resolver.Trie.Cover.{is_prefix, below, walk-below}
use personal_test_resolver.Trie.Shape.{well_formed, distinct, well_formed-distinct}

-- A node, by the labels on the way to it.
pub record Entry : Type 0 where
  pub path : List Bytes
  pub blocked : Bool

abbrev pub label_text : Option Bytes → Bytes
label_text none = []
label_text (some l) = l

unfoldable pub under : Bytes → List Entry → List Entry
under l [] = []
under l (e ∷ es) = record { path = l ∷ e.path; blocked = e.blocked } ∷ under l es

-- The nodes of the children and below.
unfoldable pub paths : Nodes → List Entry
paths nil = []
paths (cons (node l b c ns) rest) =
    record { path = label_text l ∷ []; blocked = b }
    ∷ (under (label_text l) (paths ns) ++ paths rest)

-- One of the blocked paths begins the path that is asked for.
unfoldable pub scan : List Entry → List Bytes → Bool
scan [] q = false
scan (e ∷ es) q = (e.blocked && is_prefix e.path q) || scan es q

scan-append : (es fs : List Entry) (q : List Bytes) → scan (es ++ fs) q ≡ (scan es q || scan fs q)
unfolding scan
scan-append [] fs q = refl
scan-append (e ∷ es) fs q = ground (arith, scan-append es fs q)

scan-under_nil : (l : Bytes) (es : List Entry) → scan (under l es) [] ≡ false
unfolding scan under
scan-under_nil l [] = refl
scan-under_nil l (e ∷ es) = ground (arith, scan-under_nil l es)

scan-under :
    (l k : Bytes) (es : List Entry) (q : List Bytes)
    → scan (under l es) (k ∷ q) ≡ (equal l k && scan es q)
unfolding scan under
scan-under l k [] q = ground arith
scan-under l k (e ∷ es) q = ground (arith, scan-under l k es q)

scan-paths_nil : (ns : Nodes) → scan (paths ns) [] ≡ false
unfolding scan paths
scan-paths_nil nil = refl
scan-paths_nil (cons (node l b c ns) rest) = ground (
  arith,
  scan-append (under (label_text l) (paths ns)) (paths rest) [],
  scan-under_nil (label_text l) (paths ns),
  scan-paths_nil rest,
)

-- The walk from a node with the given children.
abbrev walk_in : Nodes → List Bytes → Bool
walk_in ns [] = false
walk_in ns (k ∷ q) = below (find_child ns k) q

walk-children : (t : Node) (q : List Bytes) → walk t q ≡ walk_in (children t) q
walk-children t [] = unfold walk in refl
walk-children t (k ∷ q) = walk-below t k q

scan-paths_cons :
    (l k : Bytes) (b : Bool) (c : ℕ) (ns rest : Nodes) (q : List Bytes)
    → scan (paths (cons (node (some l) b c ns) rest)) (k ∷ q)
      ≡ ((equal l k && (b || scan (paths ns) q)) || scan (paths rest) (k ∷ q))
unfolding scan paths
scan-paths_cons l k b c ns rest q =
    ground
      (arith, scan-append (under l (paths ns)) (paths rest) (k ∷ q), scan-under l k (paths ns) q)

distinct-first : (n : Node) (ns : Nodes) → distinct (cons n ns) ≡ true → well_formed n ≡ true
unfolding well_formed
distinct-first n ns d = ground arith

distinct-rest : (n : Node) (ns : Nodes) → distinct (cons n ns) ≡ true → distinct ns ≡ true
unfolding well_formed
distinct-rest n ns d = ground arith

scan-paths : (ns : Nodes) (q : List Bytes) → distinct ns ≡ true → scan (paths ns) q ≡ walk_in ns q
scan-paths ns [] d = scan-paths_nil ns
scan-paths nil (k ∷ q) d = unfold scan paths find_child in refl
scan-paths (cons (node none b c ns) rest) (k ∷ q) d = absurd (unfold well_formed in ground arith)
scan-paths (cons (node (some l) b c ns) rest) (k ∷ q) d = elim (Bool-cases (equal l k)) [
  | inl same ↦
      let is_same : l ≡ k = (equal_iff l k).0 same in
      let alone : find_child rest k ≡ none = unfold well_formed in ground arith in
      rw
        (
          scan-paths_cons l k b c ns rest q,
          scan-paths rest (k ∷ q) (distinct-rest _ rest d),
          scan-paths ns q (well_formed-distinct (node (some l) b c ns) (distinct-first _ rest d)),
          same,
        )
        (unfold find_child in
          rw (same, alone, walk-children (node (some l) b c ns) q) (ground arith))
  | inr other ↦
      rw
        (scan-paths_cons l k b c ns rest q, scan-paths rest (k ∷ q) (distinct-rest _ rest d), other)
        (unfold find_child in rw other refl)
]

-- On a trie that is in shape, the walk of `is_domain_blocked` over any path gives what a scan of the
-- list of its paths gives: whether one that is blocked begins the path asked for.
pub walk-scan :
    (t : Node) (q : List Bytes) → well_formed t ≡ true → walk t q ≡ scan (paths (children t)) q
walk-scan t q w = walk-children t q ∙ sym (scan-paths (children t) q (well_formed-distinct t w))
