-- ===== src/Tests/Filters.antt =====
-- Tries and the filter wrapper, with refused requests for memory.
use personal_test_resolver.Common.{◌≡◌, none, some, [], ◌∷◌, Bytes, refl, true, false, List, equal}
use personal_test_resolver.Tests.Packets.{memory}
use personal_test_resolver.Filter.Contract.{
  promised, Call, run, lookup_call, filter_init-promised, insert_call, filter_free-run,
}
use personal_test_resolver.Console.{Console, printf}
use personal_test_resolver.Filter.{Filter, filter_free, filter_init}
use personal_test_resolver.Trie.{
  walk, Node, filter_node_create, find_child, insert, node, empty_node, cons, children, nil,
}
use personal_test_resolver.Trie.Shape.{well_formed, insert-well_formed}
use personal_test_resolver.Trie.Paths.{scan, paths, walk-scan}
use personal_test_resolver.Filter.Names.{name_labels}
use personal_test_resolver.Common.Memory.{Mem, malloc}
use personal_test_resolver.Domain.{
  normalize_domain, normalize_text, skip_spaces, copy_lower, finish_domain, finish_text, strip_dots,
  bad_dots, is_space, to_lower,
}
use personal_test_resolver.Encode.{strtok}
use personal_test_resolver.Filter.File.{Line}
use personal_test_resolver.Filter.Lines.{AreLines}
use personal_test_resolver.Filter.Holding.{Hold}
use personal_test_resolver.Filter.Output.{load_output, report, load_output-report}
use personal_test_resolver.Tests.Domains.{file_system, normal, file_text}

-- A trie that blocks "b" and "a.b".
abbrev tree : Node
tree =
    node none false 4
      (cons (node (some (b'b' ∷ [])) true 4 (cons (node (some (b'a' ∷ [])) true 0 nil) nil)) nil)

tree_in_shape : well_formed tree ≡ true
unfolding well_formed find_child
tree_in_shape = refl

-- The labels "b", "c".
abbrev path : List Bytes
path = (b'b' ∷ []) ∷ (b'c' ∷ []) ∷ []

insert-well_formed_example :
    well_formed (insert tree path (record { grants = true ∷ false ∷ []; live = 9 })).0.0 ≡ true
insert-well_formed_example =
    insert-well_formed path tree (record { grants = true ∷ false ∷ []; live = 9 }) tree_in_shape

walk-scan_example : walk tree path ≡ scan (paths (children tree)) path
walk-scan_example = walk-scan tree path tree_in_shape

abbrev quiet : Console
quiet = record { out = []; err = [] }

-- "b" is inserted, "A.b" and "c" are asked for.
abbrev calls : List Call
calls =
    lookup_call (b'b' ∷ [])
    ∷ insert_call (b'b' ∷ [])
    ∷ lookup_call (b'A' ∷ b'.' ∷ b'b' ∷ [])
    ∷ lookup_call (b'c' ∷ [])
    ∷ []

filter_init-promised_example :
    (f : Filter) × (m1 : Mem) × (filter_init memory ≡ (some f, m1))
    × ((run calls f m1).0 ≡ promised calls [])
filter_init-promised_example = filter_init-promised calls memory refl

calls_promise : promised calls [] ≡ false ∷ true ∷ true ∷ false ∷ []
unfolding promised name_labels normalize_domain normalize_text skip_spaces copy_lower finish_domain
    finish_text strip_dots bad_dots is_space to_lower strtok equal
calls_promise = refl

abbrev fresh_filter : Filter
fresh_filter = record { root = some (empty_node none) }

filter_made : filter_init memory ≡ (some fresh_filter, record { grants = []; live = 2 })
unfolding filter_init filter_node_create malloc
filter_made = refl

filter_free-run_example :
    (filter_free
      (some (run calls fresh_filter (record { grants = []; live = 2 })).1)
      (run calls fresh_filter (record { grants = []; live = 2 })).2).live
    ≡ 0
filter_free-run_example =
    filter_free-run calls memory (record { grants = []; live = 2 }) filter_made

load_output-report_example :
    (lines : List Bytes) × (held : List Line) × AreLines file_text lines
    × Hold lines held
    × (load_output file_system (some normal) true memory quiet ≡ printf (report held) quiet)
load_output-report_example =
    load_output-report file_system normal file_text true memory quiet refl refl
