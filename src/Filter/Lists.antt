-- ===== src/Filter/Lists.antt =====
-- A filter that is filled with a list of domains, as load_filter_file and the callers of
-- `filter_insert` do.
use personal_test_resolver.Common.{
  ◌≡◌, refl, Bool, none, List, [], ◌∷◌, Bytes, arith, Option-cases, inl, inr, reverse, false, ◌||◌,
  ◌∙◌, ◌&&◌,
}
use personal_test_resolver.Common.Memory.{Mem, Plentiful}
use personal_test_resolver.Trie.{Node, empty_node, walk, find_child}
use personal_test_resolver.Filter.Blocking.{is_some, covers, domain_blocked-add_domain}
use personal_test_resolver.Filter.{add_domain, domain_blocked, add_labels, domain_labels}
use personal_test_resolver.Filter.Names.{
  name_labels, domain_labels-name_labels, domain_labels_keeps,
}
use personal_test_resolver.Trie.Plenty.{insert_plenty}

-- The domains are added one after the other, whatever the calls return.
abbrev pub add_domains : Node → List Bytes → Mem → Node × Mem
add_domains t [] m = (t, m)
add_domains t (d ∷ ds) m = let ((t', added), m') = add_domain t d m in add_domains t' ds m'

-- One of the domains covers the one that is asked for.
abbrev pub any_covers : List Bytes → Bytes → Bool
any_covers [] asked = false
any_covers (d ∷ ds) asked = covers d asked || any_covers ds asked

-- With memory to spare, adding a domain succeeds if and only if the domain is one: its text is in
-- order and no label is longer than 63 bytes. Afterwards there is still memory to spare.
pub add_domain-is_some :
    (t : Node) (domain : Bytes) (m : Mem)
    → Plentiful m
    → ((add_domain t domain m).0.1 ≡ is_some (name_labels domain))
      × Plentiful (add_domain t domain m).1
unfolding add_domain add_labels
add_domain-is_some t domain m plenty = elim (Option-cases (name_labels domain)) [
  | inl fails ↦
      ground (arith, domain_labels-name_labels domain m plenty, domain_labels_keeps domain m plenty)
  | inr (labels, named) ↦ ground (
    arith,
    domain_labels-name_labels domain m plenty,
    insert_plenty (reverse labels) t (domain_labels domain m).1
        (domain_labels_keeps domain m plenty),
  )
]

pub covers_named :
    (domain asked : Bytes)
    → (is_some (name_labels domain) && covers domain asked) ≡ covers domain asked
covers_named domain asked = ground arith

domain_blocked-add_domains_on :
    (t : Node) (ds : List Bytes) (asked : Bytes) (m n : Mem)
    → Plentiful m
    → Plentiful n
    → (domain_blocked (add_domains t ds m).0 asked n).0
      ≡ ((domain_blocked t asked n).0 || any_covers ds asked)
domain_blocked-add_domains_on t [] asked m n plenty spare = ground arith
domain_blocked-add_domains_on t (d ∷ ds) asked m n plenty spare =
    let (added, keeps) = add_domain-is_some t d m plenty in
    domain_blocked-add_domains_on (add_domain t d m).0.0 ds asked (add_domain t d m).1 n keeps spare
    ∙ rw (domain_blocked-add_domain t d asked m n spare, added, covers_named d asked) (ground arith)

walk-empty_node : (q : List Bytes) → walk (empty_node none) q ≡ false
unfolding walk find_child
walk-empty_node [] = refl
walk-empty_node (l ∷ q) = refl

pub empty-blocks-none :
    (asked : Bytes) (n : Mem) → (domain_blocked (empty_node none) asked n).0 ≡ false
unfolding domain_blocked
empty-blocks-none asked n = elim (Option-cases (domain_labels asked n).0) [
  | inl fails ↦ ground arith
  | inr ((ls, count), splits) ↦ ground (arith, walk-empty_node ls)
]

-- With memory to spare, a filter that starts empty and is given any list of domains blocks exactly
-- the domains that one of them covers; a domain of the list that is not in order covers none.
pub domain_blocked-add_domains :
    (ds : List Bytes) (asked : Bytes) (m n : Mem)
    → Plentiful m
    → Plentiful n
    → (domain_blocked (add_domains (empty_node none) ds m).0 asked n).0 ≡ any_covers ds asked
domain_blocked-add_domains ds asked m n plenty spare =
    domain_blocked-add_domains_on (empty_node none) ds asked m n plenty spare
    ∙ rw (empty-blocks-none asked n) refl
