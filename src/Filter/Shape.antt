-- ===== src/Filter/Shape.antt =====
-- The shape of the trie behind a filter that is filled.
use personal_test_resolver.Common.{
  ◌≡◌, refl, true, none, some, List, [], ◌∷◌, Bytes, Option, Option-cases, inl, arith, inr,
}
use personal_test_resolver.Filter.{add_domain, add_labels, domain_labels}
use personal_test_resolver.Trie.{Node, empty_node}
use personal_test_resolver.Common.Memory.{Mem}
use personal_test_resolver.Filter.File.{Load, load_filter_file, read_lines}
use personal_test_resolver.Trie.Shape.{well_formed, insert-well_formed}
use personal_test_resolver.Filter.Lists.{add_domains}
use personal_test_resolver.Filter.Loading.{load_filter_file-root, entries}

add_domain-well_formed :
    (t : Node) (domain : Bytes) (m : Mem)
    → well_formed t ≡ true
    → well_formed (add_domain t domain m).0.0 ≡ true
unfolding add_domain add_labels
add_domain-well_formed t domain m w = elim (Option-cases (domain_labels domain m).0) [
  | inl fails ↦ ground arith
  | inr ((ls, count), splits) ↦ ground (arith, insert-well_formed ls t (domain_labels domain m).1 w)
]

pub add_domains-well_formed :
    (t : Node) (ds : List Bytes) (m : Mem)
    → well_formed t ≡ true
    → well_formed (add_domains t ds m).0 ≡ true
add_domains-well_formed t [] m w = w
add_domains-well_formed t (d ∷ ds) m w =
    add_domains-well_formed (add_domain t d m).0.0 ds (add_domain t d m).1
      (add_domain-well_formed t d m w)

-- The trie of every file that is loaded, whichever requests for memory are refused on the way, is in
-- shape: at each node the array has room for the children, and the children have labels, no two the
-- same.
pub load_filter_file-well_formed :
    (fopen : Bytes → Option Bytes) (filename text : Bytes) (m : Mem) {loaded : Load}
    → fopen filename ≡ some text
    → (load_filter_file fopen (some filename) m).0 ≡ some loaded
    → well_formed loaded.root ≡ true
load_filter_file-well_formed fopen filename text m opens loads =
    let (m1, made, root, heap) = load_filter_file-root fopen filename text m opens loads in
    rw root (
      add_domains-well_formed (empty_node none) (entries (read_lines [] text)) m1
        (unfold well_formed in refl))
