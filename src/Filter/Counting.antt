-- ===== src/Filter/Counting.antt =====
-- The counters of load_filter_file.
use personal_test_resolver.Common.{
  ◌≡◌, ◌+◌, ℕ, suc, none, some, Option, List, [], ◌∷◌, Bytes, arith, if◌then◌else◌,
}
use personal_test_resolver.Filter.File.{
  load_line, load_lines, Line, load_filter_file, entry, Load, read_line, blank, comment, read_lines,
}
use personal_test_resolver.Trie.{filter_node_create, empty_node}
use personal_test_resolver.Common.Memory.{Plentiful, Mem, malloc, malloc-Plentiful, malloc_keeps}
use personal_test_resolver.Filter.Blocking.{is_some}
use personal_test_resolver.Filter.Lists.{add_domain-is_some}
use personal_test_resolver.Filter.Names.{name_labels}

-- The lines that hold a domain, and those that are comments or hold a text that is no domain.
abbrev pub good_lines : List Line → ℕ
good_lines [] = 0
good_lines (blank ∷ lines) = good_lines lines
good_lines (comment ∷ lines) = good_lines lines
good_lines (entry text ∷ lines) =
    if is_some (name_labels text) then suc (good_lines lines) else good_lines lines

abbrev pub other_lines : List Line → ℕ
other_lines [] = 0
other_lines (blank ∷ lines) = other_lines lines
other_lines (comment ∷ lines) = suc (other_lines lines)
other_lines (entry text ∷ lines) =
    if is_some (name_labels text) then other_lines lines else suc (other_lines lines)

abbrev pub kinds : List Bytes → List Line
kinds [] = []
kinds (line ∷ lines) = read_line line ∷ kinds lines

pub record Tallied (kind : Line) (s t : Load) : Type 0 where
  pub loaded : t.domains_loaded ≡ s.domains_loaded + good_lines (kind ∷ [])
  pub ignored : t.lines_ignored ≡ s.lines_ignored + other_lines (kind ∷ [])
  pub keeps : Plentiful t.mem

pub load_line-Tallied :
    (kind : Line) (s : Load) → Plentiful s.mem → Tallied kind s (load_line kind s)
unfolding load_line
load_line-Tallied blank s plenty = record {
  loaded = omega arith;
  ignored = omega arith;
  keeps = plenty;
}
load_line-Tallied comment s plenty = record {
  loaded = omega arith;
  ignored = omega arith;
  keeps = plenty;
}
load_line-Tallied (entry text) s plenty =
    let (added, keeps) = add_domain-is_some s.root text s.mem plenty in
    record {
      loaded = ground (arith, added);
      ignored = ground (arith, added);
      keeps = ground (arith, keeps);
    }

good_lines-cons :
    (kind : Line) (lines : List Line)
    → good_lines (kind ∷ lines) ≡ good_lines (kind ∷ []) + good_lines lines
good_lines-cons blank lines = omega arith
good_lines-cons comment lines = omega arith
good_lines-cons (entry text) lines = ground arith

other_lines-cons :
    (kind : Line) (lines : List Line)
    → other_lines (kind ∷ lines) ≡ other_lines (kind ∷ []) + other_lines lines
other_lines-cons blank lines = omega arith
other_lines-cons comment lines = omega arith
other_lines-cons (entry text) lines = ground arith

pub load_lines_counts :
    (lines : List Bytes) (s : Load)
    → Plentiful s.mem
    → ((load_lines lines s).domains_loaded ≡ s.domains_loaded + good_lines (kinds lines))
      × ((load_lines lines s).lines_ignored ≡ s.lines_ignored + other_lines (kinds lines))
unfolding load_lines
load_lines_counts [] s plenty = omega arith
load_lines_counts (line ∷ lines) s plenty =
    let c = load_line-Tallied (read_line line) s plenty in
    let rest = load_lines_counts lines (load_line (read_line line) s) c.keeps in
    omega (
      arith,
      c.loaded,
      c.ignored,
      rest,
      good_lines-cons (read_line line) (kinds lines),
      other_lines-cons (read_line line) (kinds lines),
    )

-- With memory to spare, the counters behind the loading of a file: as loaded count the lines that hold
-- a domain, one line counting as often as it stands there, and as ignored the comments and the lines
-- that hold a text that is no domain. Blank lines are not counted.
pub load_filter_file-counts :
    (fopen : Bytes → Option Bytes) (filename text : Bytes) (m : Mem) {loaded : Load}
    → Plentiful m
    → fopen filename ≡ some text
    → (load_filter_file fopen (some filename) m).0 ≡ some loaded
    → (loaded.domains_loaded ≡ good_lines (kinds (read_lines [] text)))
      × (loaded.lines_ignored ≡ other_lines (kinds (read_lines [] text)))
unfolding load_filter_file filter_node_create
load_filter_file-counts fopen filename text m {loaded} plenty opens loads =
    let start : Load = record {
      root = empty_node none;
      domains_loaded = 0;
      lines_ignored = 0;
      mem = (malloc m).1;
    } in
    ground (
      arith,
      malloc-Plentiful m plenty,
      load_lines_counts (read_lines [] text) start (malloc_keeps m plenty),
    )
