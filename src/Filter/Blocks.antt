-- ===== src/Filter/Blocks.antt =====
-- The blocks that the filter takes and gives back.
use personal_test_resolver.Common.{
  ◌+◌, ◌≡◌, refl, some, List, [], ◌∷◌, Bytes, arith, Option-cases, inl, inr, Option, none,
}
use personal_test_resolver.Common.Memory.{Mem, malloc_live}
use personal_test_resolver.Filter.{
  domain_labels, domain_blocked, add_domain, add_labels, is_domain_blocked,
}
use personal_test_resolver.Trie.{Node, filter_node_create, filter_node_free}
use personal_test_resolver.Labels.Memory.{split_blocks, split_domain_labels_live}
use personal_test_resolver.Filter.Lists.{add_domains}
use personal_test_resolver.Domain.{normalize_domain}
use personal_test_resolver.Trie.Blocks.{
  trie_blocks, insert_live, filter_node_free_live, insert_rises,
}

domain_labels_live :
    (domain : Bytes) (m : Mem)
    → (domain_labels domain m).1.live ≡ m.live + split_blocks (domain_labels domain m).0
unfolding domain_labels
domain_labels_live domain m = elim (Option-cases (normalize_domain (some domain) 256)) [
  | inl fails ↦ ground arith
  | inr (n, normal) ↦ ground (arith, split_domain_labels_live (some n) m)
]

-- Asking leaves as many blocks live as before.
pub domain_blocked_live :
    (t : Node) (asked : Bytes) (m : Mem) → (domain_blocked t asked m).1.live ≡ m.live
unfolding domain_blocked
domain_blocked_live t asked m = elim (Option-cases (domain_labels asked m).0) [
  | inl fails ↦ ground (arith, domain_labels_live asked m)
  | inr ((ls, count), splits) ↦ ground (arith, domain_labels_live asked m)
]

pub add_domain_live :
    (t : Node) (domain : Bytes) (m : Mem)
    → (add_domain t domain m).1.live + trie_blocks t
      ≡ m.live + trie_blocks (add_domain t domain m).0.0
unfolding add_domain add_labels
add_domain_live t domain m = elim (Option-cases (domain_labels domain m).0) [
  | inl fails ↦ ground (arith, domain_labels_live domain m)
  | inr ((ls, count), splits) ↦ ground (
    arith,
    domain_labels_live domain m,
    insert_live ls t (domain_labels domain m).1,
    insert_rises ls t (domain_labels domain m).1,
  )
]

add_domains_live :
    (t : Node) (ds : List Bytes) (m : Mem)
    → (add_domains t ds m).1.live + trie_blocks t ≡ m.live + trie_blocks (add_domains t ds m).0
add_domains_live t [] m = refl
add_domains_live t (d ∷ ds) m =
    omega (
      arith,
      add_domain_live t d m,
      add_domains_live (add_domain t d m).0.0 ds (add_domain t d m).1,
    )

created_live :
    (m m' : Mem) {t : Node} → filter_node_create m ≡ (some t, m') → m'.live ≡ m.live + trie_blocks t
unfolding filter_node_create trie_blocks
created_live m m' {t} e = ground (arith, malloc_live m)

-- From a new node on, whatever domains are added and whichever of the requests for memory are
-- refused on the way, `filter_node_free` gives back all that was taken.
pub filter_node_free-add_domains :
    (ds : List Bytes) (m m' : Mem) {t : Node}
    → filter_node_create m ≡ (some t, m')
    → (filter_node_free (add_domains t ds m').0 (add_domains t ds m').1).live ≡ m.live
filter_node_free-add_domains ds m m' {t} e = omega (
  arith,
  filter_node_free_live (add_domains t ds m').0 (add_domains t ds m').1,
  add_domains_live t ds m',
  created_live m m' e,
)

pub is_domain_blocked_live :
    (root : Option Node) (asked : Option Bytes) (m : Mem)
    → (is_domain_blocked root asked m).1.live ≡ m.live
unfolding is_domain_blocked
is_domain_blocked_live none asked m = refl
is_domain_blocked_live (some t) none m = refl
is_domain_blocked_live (some t) (some asked) m = domain_blocked_live t asked m
