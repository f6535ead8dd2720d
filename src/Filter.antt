-- ===== src/Filter.antt =====
-- filter.c above the trie: `filter_add_domain`, `is_domain_blocked`, the statistics and the wrapper
-- `filter_t`. The heap is passed along; a node that is changed in place is returned.
pub mod Names
pub mod Blocking
pub mod Blocks
pub mod Scarce
pub mod Shape
pub mod Contract
pub mod Order
pub mod Counting
pub mod Output
pub mod Statistics
pub mod Lists
pub mod Text
pub mod Within
pub mod File
pub mod Lines
pub mod Holding
pub mod Loading
pub mod Reading
use personal_test_resolver.Common.{
  ℕ, ◌+◌, Bool, false, Option, none, some, List, Bytes, length, if◌then◌else◌, ltb, ◌∷◌, [],
}
use personal_test_resolver.Console.{Console, Part, text, natural, quotient, printf}
use personal_test_resolver.Common.Memory.{Mem, malloc, release}
use personal_test_resolver.Trie.{
  Node, insert, walk, filter_node_create, filter_node_free, children, node, Nodes, cons, nil,
}
use personal_test_resolver.Wire.{max_name_len}
use personal_test_resolver.Domain.{normalize_domain}
use personal_test_resolver.Labels.{split_domain_labels}

-- `normalize_domain` into a buffer of DNS_MAX_NAME_LEN + 1 bytes, and `split_domain_labels`.
unfoldable pub domain_labels : Bytes → Mem → Option (List Bytes × ℕ) × Mem
domain_labels domain m = elim (normalize_domain (some domain) (max_name_len + 1)) [
  | none ↦ (none, m)
  | some normalized ↦ split_domain_labels (some normalized) m
]

-- The walk over the labels, and the release of the labels and their array.
unfoldable pub add_labels : Node → List Bytes → Mem → (Node × Bool) × Mem
add_labels root labels m =
    let (added, m') = insert root labels m in (added, release (length labels + 1) m')

-- `filter_add_domain` for pointers that are not NULL: the trie behind it, and whether it returned 0.
unfoldable pub add_domain : Node → Bytes → Mem → (Node × Bool) × Mem
add_domain root domain m =
    let (labels, m') = domain_labels domain m in
    elim labels [ none ↦ ((root, false), m') | some (ls, count) ↦ add_labels root ls m' ]

unfoldable pub filter_add_domain : Option Node → Option Bytes → Mem → (Option Node × Bool) × Mem
filter_add_domain none domain m = ((none, false), m)
filter_add_domain (some root) none m = ((some root, false), m)
filter_add_domain (some root) (some domain) m =
    let ((root', added), m') = add_domain root domain m in ((some root', added), m')

unfoldable pub domain_blocked : Node → Bytes → Mem → Bool × Mem
domain_blocked root domain m =
    let (labels, m') = domain_labels domain m in
    elim labels [
      | none ↦ (false, m')
      | some (ls, count) ↦ (walk root ls, release (length ls + 1) m')
    ]

unfoldable pub is_domain_blocked : Option Node → Option Bytes → Mem → Bool × Mem
is_domain_blocked none domain m = (false, m)
is_domain_blocked (some root) none m = (false, m)
is_domain_blocked (some root) (some domain) m = domain_blocked root domain m

-- filter_t
pub record Filter : Type 0 where
  pub root : Option Node

unfoldable pub filter_init : Mem → Option Filter × Mem
filter_init m =
    let (granted, m1) = malloc m in
    let (made, m2) = filter_node_create m1 in
    if granted
    then elim made [
      | none ↦ (none, release 1 m2)
      | some root ↦ (some (record { root = some root }), m2)
    ]
    else (none, m1)

unfoldable pub filter_free : Option Filter → Mem → Mem
filter_free none m = m
filter_free (some filter) m =
    release 1 (elim filter.root [ none ↦ m | some root ↦ filter_node_free root m ])

unfoldable pub filter_insert : Option Filter → Option Bytes → Mem → (Option Filter × Bool) × Mem
filter_insert none domain m = ((none, false), m)
filter_insert (some filter) domain m = elim filter.root [
  | none ↦ ((some filter, false), m)
  | some root ↦
      let ((root', added), m') = filter_add_domain (some root) domain m in
      ((some (record { root = root' }), added), m')
]

unfoldable pub filter_lookup : Option Filter → Option Bytes → Mem → Bool × Mem
filter_lookup none domain m = (false, m)
filter_lookup (some filter) domain m = is_domain_blocked filter.root domain m

-- filter_stats_t
pub record Stats : Type 0 where
  pub total_domains : ℕ
  pub total_nodes : ℕ
  pub max_depth : ℕ

-- The node's own part of `count_stats_recursive`.
abbrev pub count_node : Bool → ℕ → Stats → Stats
count_node blocked depth s = record {
  total_domains = if blocked then s.total_domains + 1 else s.total_domains;
  total_nodes = s.total_nodes + 1;
  max_depth = if ltb s.max_depth depth then depth else s.max_depth;
}

unfoldable mutual
  pub count_stats_recursive : Node → ℕ → Stats → Stats
  count_stats_recursive (node l blocked c ns) depth s =
      count_children ns (depth + 1) (count_node blocked depth s)

  -- The loop over the children.
  pub count_children : Nodes → ℕ → Stats → Stats
  count_children nil depth s = s
  count_children (cons n ns) depth s = count_children ns depth (count_stats_recursive n depth s)

-- The numbers of `filter_print_stats`, if it prints: the root is not counted.
unfoldable pub filter_stats : Option Node → Bool → Option Stats
filter_stats none verbose = none
filter_stats (some root) verbose =
    if verbose
    then some (
        count_children (children root) 1
          (record { total_domains = 0; total_nodes = 0; max_depth = 0 }))
    else none

-- The lines of `filter_print_stats`; the average is printed if a node was counted.
unfoldable pub stats_lines : Stats → List Part
stats_lines s =
    text "[VERBOSE] Filter statistics:\n"
    ∷ text "[VERBOSE]   Total blocked domains: "
    ∷ natural s.total_domains
    ∷ text "\n"
    ∷ text "[VERBOSE]   Total Trie nodes: "
    ∷ natural s.total_nodes
    ∷ text "\n"
    ∷ text "[VERBOSE]   Maximum depth: "
    ∷ natural s.max_depth
    ∷ text "\n"
    ∷ (if ltb 0 s.total_nodes
        then text "[VERBOSE]   Average branching factor: "
          ∷ quotient 2 s.total_nodes (if ltb 0 s.max_depth then s.max_depth else 1)
          ∷ text "\n"
          ∷ []
        else [])

unfoldable pub filter_print_stats : Option Node → Bool → Console → Console
filter_print_stats root verbose console = elim (filter_stats root verbose) [
  | none ↦ console
  | some stats ↦ printf (stats_lines stats) console
]
