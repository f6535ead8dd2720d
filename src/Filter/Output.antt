-- ===== src/Filter/Output.antt =====
-- What load_filter_file prints.
use personal_test_resolver.Console.{Console, Part, text, argument, natural, printf, print_error}
use personal_test_resolver.Filter.Lines.{AreLines, read_lines-AreLines}
use personal_test_resolver.Filter.Holding.{Hold, kinds-Hold}
use personal_test_resolver.Common.{
  ◌≡◌, ◌+◌, ℕ, refl, true, none, some, Option, List, [], ◌∷◌, ◌++◌, Bytes, Bool, arith,
  if◌then◌else◌, ◌==◌,
}
use personal_test_resolver.Trie.{filter_node_create, empty_node}
use personal_test_resolver.Common.Memory.{Mem, Plentiful, malloc, malloc_keeps, malloc-Plentiful}
use personal_test_resolver.Filter.File.{
  Load, Line, load_lines, read_line, entry, blank, load_line, read_lines, comment,
}
use personal_test_resolver.Filter.Counting.{
  kinds, load_line-Tallied, good_lines, other_lines, load_lines_counts,
}
use personal_test_resolver.Filter.Lists.{add_domain-is_some}
use personal_test_resolver.Filter.{add_domain}
use personal_test_resolver.Filter.Blocking.{is_some}
use personal_test_resolver.Filter.Names.{name_labels}

-- Whether `filter_add_domain` returns 0 for the text of a line.
abbrev is_added : Line → Load → Bool
is_added blank s = true
is_added comment s = true
is_added (entry domain) s = (add_domain s.root domain s.mem).0.1

abbrev pub invalid_line : ℕ → Bytes → List Part
invalid_line line_num domain =
    text "[VERBOSE] Warning: Invalid domain on line "
    ∷ natural line_num
    ∷ text ": "
    ∷ argument domain
    ∷ text "\n"
    ∷ []

-- What a line prints, by its kind and whether its domain was added.
abbrev pub line_output : Line → ℕ → Bool → List Part
line_output blank line_num added = []
line_output comment line_num added = []
line_output (entry domain) line_num added = if added then [] else invalid_line line_num domain

-- What the loop prints in the verbose mode, from the line with number `line_num` on.
unfoldable pub lines_output : List Bytes → ℕ → Load → List Part
lines_output [] line_num s = []
lines_output (line ∷ lines) line_num s =
    line_output (read_line line) line_num (is_added (read_line line) s)
    ++ lines_output lines (line_num + 1) (load_line (read_line line) s)

-- What is printed in the verbose mode behind the loop.
abbrev pub loaded_output : ℕ → ℕ → List Part
loaded_output domains_loaded lines_ignored =
    text "[VERBOSE] Filter file loaded: "
    ∷ natural domains_loaded
    ∷ text " domains, "
    ∷ natural lines_ignored
    ∷ text " lines ignored\n"
    ∷ (if domains_loaded == 0
        then text "[VERBOSE] Warning: No valid domains found in filter file\n" ∷ []
        else [])

-- What `load_filter_file` prints, in or out of the verbose mode.
unfoldable pub load_output : (Bytes → Option Bytes) → Option Bytes → Bool → Mem → Console → Console
load_output fopen none verbose m console = print_error (text "Filter filename is NULL" ∷ []) console
load_output fopen (some filename) verbose m console = elim (fopen filename) [
  | none ↦ print_error (text "Cannot open filter file: " ∷ argument filename ∷ []) console
  | some file ↦
      let (made, m1) = filter_node_create m in
      elim made [
        | none ↦ print_error (text "Failed to create filter root node" ∷ []) console
        | some root ↦
            let start : Load = record {
              root = root;
              domains_loaded = 0;
              lines_ignored = 0;
              mem = m1;
            } in
            let s = load_lines (read_lines [] file) start in
            if verbose
            then printf
                (lines_output (read_lines [] file) 1 start
                  ++ loaded_output s.domains_loaded s.lines_ignored)
                console
            else console
      ]
]

-- A warning for each line that holds a text that is no domain, with its number and the text.
abbrev pub invalid_lines : List Line → ℕ → List Part
invalid_lines [] line_num = []
invalid_lines (blank ∷ lines) line_num = invalid_lines lines (line_num + 1)
invalid_lines (comment ∷ lines) line_num = invalid_lines lines (line_num + 1)
invalid_lines (entry domain ∷ lines) line_num =
    if is_some (name_labels domain)
    then invalid_lines lines (line_num + 1)
    else text "[VERBOSE] Warning: Invalid domain on line "
      ∷ natural line_num
      ∷ text ": "
      ∷ argument domain
      ∷ text "\n"
      ∷ invalid_lines lines (line_num + 1)

-- The report on lines that hold what `kinds` says.
abbrev pub report : List Line → List Part
report kinds =
    invalid_lines kinds 1
    ++ (text "[VERBOSE] Filter file loaded: "
        ∷ natural (good_lines kinds)
        ∷ text " domains, "
        ∷ natural (other_lines kinds)
        ∷ text " lines ignored\n"
        ∷ (if good_lines kinds == 0
            then text "[VERBOSE] Warning: No valid domains found in filter file\n" ∷ []
            else []))

lines_output-step :
    (kind : Line) (kinds : List Line) (line_num : ℕ) (s : Load)
    → Plentiful s.mem
    → line_output kind line_num (is_added kind s) ++ invalid_lines kinds (line_num + 1)
      ≡ invalid_lines (kind ∷ kinds) line_num
lines_output-step blank kinds line_num s plenty = refl
lines_output-step comment kinds line_num s plenty = refl
lines_output-step (entry domain) kinds line_num s plenty =
    ground (arith, (add_domain-is_some s.root domain s.mem plenty).0)

lines_output-invalid_lines :
    (lines : List Bytes) (line_num : ℕ) (s : Load)
    → Plentiful s.mem
    → lines_output lines line_num s ≡ invalid_lines (kinds lines) line_num
unfolding lines_output
lines_output-invalid_lines [] line_num s plenty = refl
lines_output-invalid_lines (line ∷ lines) line_num s plenty =
    let keeps = (load_line-Tallied (read_line line) s plenty).keeps in
    rw (lines_output-invalid_lines lines (line_num + 1) (load_line (read_line line) s) keeps)
      (lines_output-step (read_line line) (kinds lines) line_num s plenty)

pub load_output-kinds :
    (fopen : Bytes → Option Bytes) (filename file : Bytes) (verbose : Bool) (m : Mem)
    (console : Console)
    → Plentiful m
    → fopen filename ≡ some file
    → load_output fopen (some filename) verbose m console
      ≡ (if verbose then printf (report (kinds (read_lines [] file))) console else console)
unfolding load_output filter_node_create
load_output-kinds fopen filename file verbose m console plenty opens =
    let start : Load = record {
      root = empty_node none;
      domains_loaded = 0;
      lines_ignored = 0;
      mem = (malloc m).1;
    } in
    let keeps = malloc_keeps m plenty in
    ground (
      arith,
      malloc-Plentiful m plenty,
      opens,
      lines_output-invalid_lines (read_lines [] file) 1 start keeps,
      load_lines_counts (read_lines [] file) start keeps,
    )

-- With memory to spare, loading a file that can be opened prints nothing without the verbose mode, and
-- with it: for each line that holds a text that is no domain a warning with the line's number and that
-- text; how many lines hold a domain, and how many are comments or hold a text that is no domain; and a
-- last warning exactly if no line holds a domain. Lines end at a newline or behind 509 bytes, and a
-- line's text is what is left, up to a NUL, between the whitespace at its start and the line ends at
-- its end.
pub load_output-report :
    (fopen : Bytes → Option Bytes) (filename file : Bytes) (verbose : Bool) (m : Mem)
    (console : Console)
    → Plentiful m
    → fopen filename ≡ some file
    → (lines : List Bytes) × (held : List Line) × AreLines file lines
      × Hold lines held
      × (load_output fopen (some filename) verbose m console
          ≡ (if verbose then printf (report held) console else console))
load_output-report fopen filename file verbose m console plenty opens = (
  read_lines [] file,
  kinds (read_lines [] file),
  read_lines-AreLines file [] tt (omega arith),
  kinds-Hold (read_lines [] file),
  load_output-kinds fopen filename file verbose m console plenty opens,
)
