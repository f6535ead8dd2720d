-- ===== src/Tests/Domains.antt =====
-- Domains and the filter.
use personal_test_resolver.Common.{
  ◌≡◌, none, some, [], ◌∷◌, Bytes, arith, refl, true, false, ◌↔◌, equal, Option, List,
}
use personal_test_resolver.Common.Memory.{Mem, malloc}
use personal_test_resolver.Domain.Shape.{
  IsNormal, normalize_domain_twice, normalize_domain-IsNormal,
}
use personal_test_resolver.Labels.{split_domain_labels, split_loop, keep_label}
use personal_test_resolver.Trie.{
  walk, insert, empty_node, Node, filter_node_create, node, cons, nil, find_child, new_child,
  add_child, grow, update_child,
}
use personal_test_resolver.Domain.{
  normalize_domain, normalize_text, skip_spaces, copy_lower, finish_domain, finish_text, strip_dots,
  bad_dots, is_space, to_lower,
}
use personal_test_resolver.Labels.Order.{split_domain_labels-joined, short_labels}
use personal_test_resolver.Encode.{strtok}
use personal_test_resolver.Filter.{
  domain_blocked, add_domain, domain_labels, is_domain_blocked, add_labels,
}
use personal_test_resolver.Filter.Lists.{add_domains, any_covers}
use personal_test_resolver.Filter.Scarce.{domain_blocked_spare}
use personal_test_resolver.Domain.Lowered.{IsBareOf}
use personal_test_resolver.Filter.Within.{AnyBlocks, domain_blocked-AnyBlocks}
use personal_test_resolver.Filter.Lines.{AreLines}
use personal_test_resolver.Filter.Holding.{Hold, texts}
use personal_test_resolver.Filter.File.{
  load_filter_file, Load, Line, load_lines, read_lines, load_line, read_line, line_kind, strip_ends,
}
use personal_test_resolver.Filter.Loading.{load_filter_file-texts}
use personal_test_resolver.Message.{c_string}

abbrev memory : Mem
memory = record { grants = []; live = 0 }

-- " A.b."
abbrev domain : Bytes
domain = b' ' ∷ b'A' ∷ b'.' ∷ b'b' ∷ b'.' ∷ []

abbrev pub normal : Bytes
normal = b'a' ∷ b'.' ∷ b'b' ∷ []

normalized : normalize_domain (some domain) 256 ≡ some normal
unfolding normalize_domain normalize_text skip_spaces copy_lower finish_domain finish_text
    strip_dots bad_dots is_space to_lower
normalized = refl

normalize_domain-IsNormal_example : IsNormal 256 normal
normalize_domain-IsNormal_example = normalize_domain-IsNormal domain 256 normalized

split_domain_labels-joined_example :
    (split_domain_labels (some normal) memory).0 ≡ some ((b'b' ∷ []) ∷ (b'a' ∷ []) ∷ [], 2)
split_domain_labels-joined_example =
    split_domain_labels-joined ((b'a' ∷ []) ∷ (b'b' ∷ []) ∷ []) memory refl (omega arith) (λ e. cc)

normal_again : normalize_domain (some normal) 256 ≡ some normal
normal_again = normalize_domain_twice domain 256 256 (omega arith) normalized

short_normal : short_labels (strtok [] normal) ≡ true
unfolding strtok
short_normal = refl

domain_blocked-AnyBlocks_example :
    IsBareOf normal normal
    × (((domain_blocked (add_domains (empty_node none) (domain ∷ []) memory).0 normal memory).0
          ≡ true)
        ↔ AnyBlocks (domain ∷ []) normal)
domain_blocked-AnyBlocks_example =
    domain_blocked-AnyBlocks normal normal_again short_normal (domain ∷ []) memory memory refl refl

-- One request is granted, the second one not.
abbrev tight : Mem
tight = record { grants = true ∷ false ∷ []; live = 1 }

is_created : filter_node_create memory ≡ (some (empty_node none), record { grants = []; live = 1 })
unfolding filter_node_create malloc
is_created = refl

-- A trie that blocks "b".
abbrev pub small : Node
small = node none false 4 (cons (node (some (b'b' ∷ [])) true 0 nil) nil)

is_reported : (domain_blocked small domain memory).0 ≡ true
unfolding domain_blocked domain_labels normalize_domain normalize_text skip_spaces copy_lower
    finish_domain finish_text strip_dots bad_dots is_space to_lower split_domain_labels split_loop
    keep_label malloc walk find_child equal
is_reported = refl

domain_blocked_spare_example :
    (domain_blocked small domain (record { grants = []; live = 5 })).0 ≡ true
domain_blocked_spare_example =
    domain_blocked_spare small domain memory (record { grants = []; live = 5 }) refl is_reported

-- "#x", a newline, " b", a newline
abbrev pub file_text : Bytes
file_text = b'#' ∷ b'x' ∷ b'\n' ∷ b' ' ∷ b'b' ∷ b'\n' ∷ []

abbrev pub file_system : Bytes → Option Bytes
file_system filename = some file_text

load_filter_file-texts_example :
    (loaded : Load) × (lines : List Bytes) × (held : List Line) × AreLines file_text lines
    × Hold lines held
    × ((load_filter_file file_system (some normal) memory).0 ≡ some loaded)
    × ((is_domain_blocked (some loaded.root) (some domain) memory).0
        ≡ any_covers (texts held) domain)
load_filter_file-texts_example =
    load_filter_file-texts file_system normal file_text domain memory memory refl refl refl

-- One domain is loaded, and one line ignored; the root, the node of "b", its label and an array.
abbrev pub loaded_file : Load
loaded_file = record {
  root = small;
  domains_loaded = 1;
  lines_ignored = 1;
  mem = record { grants = []; live = 4 };
}

pub is_loaded : (load_filter_file file_system (some normal) memory).0 ≡ some loaded_file
unfolding load_filter_file load_lines load_line read_line line_kind strip_ends read_lines c_string
    filter_node_create malloc add_domain add_labels insert new_child add_child grow update_child
    domain_labels normalize_domain normalize_text skip_spaces copy_lower finish_domain finish_text
    strip_dots bad_dots is_space to_lower split_domain_labels split_loop keep_label find_child equal
is_loaded = refl
