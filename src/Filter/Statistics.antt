-- ===== src/Filter/Statistics.antt =====
-- What the statistics count: the list of the trie's paths, summed up.
use personal_test_resolver.Common.{ℕ, ◌+◌, List, [], ◌∷◌, if◌then◌else◌, length, ltb}
use personal_test_resolver.Filter.{Stats, count_node}
use personal_test_resolver.Trie.Paths.{Entry}
use personal_test_resolver.Console.{Console}

-- How many paths are blocked.
unfoldable pub blocked_paths : List Entry → ℕ
blocked_paths [] = 0
blocked_paths (e ∷ es) = if e.blocked then blocked_paths es + 1 else blocked_paths es

abbrev larger : ℕ → ℕ → ℕ
larger a b = if ltb a b then b else a

-- The number of labels of the longest path.
unfoldable pub longest : List Entry → ℕ
longest [] = 0
longest (e ∷ es) = larger (length e.path) (longest es)

abbrev pub summary : List Entry → Stats
summary es = record {
  total_domains = blocked_paths es;
  total_nodes = length es;
  max_depth = longest es;
}

-- The nodes are counted in the order of the list, `d` levels below the root.
tally : ℕ → List Entry → Stats → Stats
tally d [] s = s
tally d (e ∷ es) s = tally d es (count_node e.blocked (d + length e.path) s)
