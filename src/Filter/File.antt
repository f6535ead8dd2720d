-- ===== src/Filter/File.antt =====
-- `load_filter_file` of filter.c. The text of the file is an argument. What it prints is in
-- Filter/Output.
use personal_test_resolver.Common.{
  ℕ, ◌+◌, Bool, ◌||◌, Option, none, some, List, [], ◌∷◌, ◌++◌, Bytes, length, if◌then◌else◌, ◌==◌,
}
use personal_test_resolver.Common.Memory.{Mem}
use personal_test_resolver.Message.{c_string}
use personal_test_resolver.Domain.{skip_spaces}
use personal_test_resolver.Filter.{add_domain}
use personal_test_resolver.Trie.{filter_node_create, Node}

-- `sizeof(line) - 1`: the buffer has DNS_MAX_NAME_LEN * 2 bytes.
abbrev pub line_room : ℕ
line_room = 509

-- What the calls of `fgets(line, sizeof(line), file)` return in turn, up to the first NULL: `line` is
-- what has been read of the current one, which ends behind a newline, with the buffer full, or with
-- the file.
unfoldable pub read_lines : Bytes → Bytes → List Bytes
read_lines [] [] = []
read_lines (x ∷ line) [] = (x ∷ line) ∷ []
read_lines line (c ∷ cs) =
    let full = line ++ c ∷ [] in
    let next = read_lines [] cs in
    let longer = read_lines full cs in
    if c == b'\n' || length full == line_room then full ∷ next else longer

-- Without the newlines and carriage returns at the end.
unfoldable pub strip_ends : Bytes → Bytes
strip_ends [] = []
strip_ends (c ∷ cs) = elim (strip_ends cs) [
  | [] ↦ if c == b'\n' || c == b'\r' then [] else c ∷ []
  | d ∷ ds ↦ c ∷ d ∷ ds
]

-- What a line holds: nothing but whitespace, a comment, or the text of a domain.
pub data Line : Type 0 where
  blank : Line
  comment : Line
  entry : Bytes → Line

unfoldable pub line_kind : Bytes → Line
line_kind [] = blank
line_kind (c ∷ cs) = if c == b'#' then comment else entry (c ∷ cs)

-- The tests of a line. An empty line stays empty behind `skip_spaces`.
unfoldable pub read_line : Bytes → Line
read_line line = line_kind (skip_spaces (strip_ends (c_string line)))

-- The variables of the loop, and the heap.
pub record Load : Type 0 where
  pub root : Node
  pub domains_loaded : ℕ
  pub lines_ignored : ℕ
  pub mem : Mem

abbrev pub count_added : Bool → Load → Load
count_added added s =
    if added
    then record s { domains_loaded = s.domains_loaded + 1 }
    else record s { lines_ignored = s.lines_ignored + 1 }

unfoldable pub load_line : Line → Load → Load
load_line blank s = s
load_line comment s = record s { lines_ignored = s.lines_ignored + 1 }
load_line (entry domain) s =
    let ((root', added), m) = add_domain s.root domain s.mem in
    count_added added (record s { root = root'; mem = m })

unfoldable pub load_lines : List Bytes → Load → Load
load_lines [] s = s
load_lines (line ∷ lines) s = load_lines lines (load_line (read_line line) s)

-- `load_filter_file`; `fopen` gives the text of a file that can be opened.
unfoldable pub load_filter_file : (Bytes → Option Bytes) → Option Bytes → Mem → Option Load × Mem
load_filter_file fopen none m = (none, m)
load_filter_file fopen (some filename) m = elim (fopen filename) [
  | none ↦ (none, m)
  | some text ↦
      let (made, m1) = filter_node_create m in
      elim made [
        | none ↦ (none, m1)
        | some root ↦
            let s =
              load_lines (read_lines [] text)
                (record { root = root; domains_loaded = 0; lines_ignored = 0; mem = m1 }) in
            (some s, s.mem)
      ]
]
