-- ===== src/Filter/Loading.antt =====
-- What a loaded file blocks, what it takes, and how it is read.
use personal_test_resolver.Common.{
  ap, ◌≡◌, refl, none, some, List, [], ◌∷◌, Bytes, arith, Option-cases, Bool-cases, inl, inr,
  Option,
}
use personal_test_resolver.Filter.Counting.{kinds}
use personal_test_resolver.Filter.Lines.{AreLines, read_lines-AreLines}
use personal_test_resolver.Filter.Holding.{Hold, kinds-Hold, texts}
use personal_test_resolver.Common.Memory.{Mem, Plentiful, malloc_keeps, malloc-Plentiful}
use personal_test_resolver.Filter.File.{
  load_lines, Load, read_lines, load_line, Line, load_filter_file, read_line, entry, blank, comment,
}
use personal_test_resolver.Filter.Lists.{add_domains, any_covers, domain_blocked-add_domains}
use personal_test_resolver.Trie.{filter_node_create, empty_node, filter_node_free, Node}
use personal_test_resolver.Filter.{add_domain, is_domain_blocked}
use personal_test_resolver.Filter.Blocks.{filter_node_free-add_domains}

-- The domains that the lines name.
abbrev pub named : Line → List Bytes → List Bytes
named blank ds = ds
named comment ds = ds
named (entry d) ds = d ∷ ds

pub entries : List Bytes → List Bytes
entries [] = []
entries (line ∷ lines) = named (read_line line) (entries lines)

load_line-named :
    (kind : Line) (lines : List Bytes) (s : Load)
    → ((load_lines lines (load_line kind s)).root
        ≡ (add_domains (load_line kind s).root (entries lines) (load_line kind s).mem).0)
      × ((load_lines lines (load_line kind s)).mem
          ≡ (add_domains (load_line kind s).root (entries lines) (load_line kind s).mem).1)
    → ((load_lines lines (load_line kind s)).root
        ≡ (add_domains s.root (named kind (entries lines)) s.mem).0)
      × ((load_lines lines (load_line kind s)).mem
          ≡ (add_domains s.root (named kind (entries lines)) s.mem).1)
unfolding load_line
load_line-named blank lines s h = h
load_line-named comment lines s h = h
load_line-named (entry d) lines s h = elim (Bool-cases (add_domain s.root d s.mem).0.1) [
  | inl added ↦ rw added (rw added at h)
  | inr refused ↦ rw refused (rw refused at h)
]

-- Loading adds the domains of the lines one after the other.
load_lines-add_domains :
    (lines : List Bytes) (s : Load)
    → ((load_lines lines s).root ≡ (add_domains s.root (entries lines) s.mem).0)
      × ((load_lines lines s).mem ≡ (add_domains s.root (entries lines) s.mem).1)
unfolding load_lines entries
load_lines-add_domains [] s = (refl, refl)
load_lines-add_domains (line ∷ lines) s =
    load_line-named (read_line line) lines s
      (load_lines-add_domains lines (load_line (read_line line) s))

filter_node_create-empty :
    (m : Mem) {root : Node} → (filter_node_create m).0 ≡ some root → root ≡ empty_node none
unfolding filter_node_create
filter_node_create-empty m e = ground arith

pub load_filter_file-root :
    (fopen : Bytes → Option Bytes) (filename text : Bytes) (m : Mem) {loaded : Load}
    → fopen filename ≡ some text
    → (load_filter_file fopen (some filename) m).0 ≡ some loaded
    → (m1 : Mem) × (filter_node_create m ≡ (some (empty_node none), m1))
      × (loaded.root ≡ (add_domains (empty_node none) (entries (read_lines [] text)) m1).0)
      × ((load_filter_file fopen (some filename) m).1
          ≡ (add_domains (empty_node none) (entries (read_lines [] text)) m1).1)
unfolding load_filter_file
load_filter_file-root fopen filename text m {loaded} opens loads =
    elim (Option-cases (filter_node_create m).0) [
      | inl fails ↦ absurd (ground arith)
      | inr (root, made) ↦
          let start : Load = record {
            root = root;
            domains_loaded = 0;
            lines_ignored = 0;
            mem = (filter_node_create m).1;
          } in
          let (ends, heap) = load_lines-add_domains (read_lines [] text) start in
          let new : root ≡ empty_node none = filter_node_create-empty m made in
          (
            (filter_node_create m).1,
            ground (arith, new),
            ground (arith, ends, new),
            ground (arith, heap, new),
          )
    ]

pub created_plenty :
    (m m1 : Mem) {t : Node} → Plentiful m → filter_node_create m ≡ (some t, m1) → Plentiful m1
unfolding filter_node_create
created_plenty m m1 plenty e = ground (arith, malloc_keeps m plenty)

pub load_filter_file-there :
    (fopen : Bytes → Option Bytes) (filename text : Bytes) (m : Mem)
    → Plentiful m
    → fopen filename ≡ some text
    → (loaded : Load) × ((load_filter_file fopen (some filename) m).0 ≡ some loaded)
unfolding load_filter_file filter_node_create
load_filter_file-there fopen filename text m plenty opens =
    elim (Option-cases (load_filter_file fopen (some filename) m).0) [
      | inl fails ↦ absurd (ground (arith, malloc-Plentiful m plenty, fails))
      | inr (loaded, loads) ↦ (loaded, loads)
    ]

load_filter_file-any_covers :
    (fopen : Bytes → Option Bytes) (filename text asked : Bytes) (m n : Mem)
    → Plentiful m
    → Plentiful n
    → fopen filename ≡ some text
    → (loaded : Load) × ((load_filter_file fopen (some filename) m).0 ≡ some loaded)
      × ((is_domain_blocked (some loaded.root) (some asked) n).0
          ≡ any_covers (entries (read_lines [] text)) asked)
unfolding is_domain_blocked
load_filter_file-any_covers fopen filename text asked m n plenty spare opens =
    let (loaded, loads) = load_filter_file-there fopen filename text m plenty opens in
    let (m1, made, root, heap) = load_filter_file-root fopen filename text m opens loads in
    (
      loaded,
      loads,
      rw root (
          domain_blocked-add_domains (entries (read_lines [] text)) asked m1 n
            (created_plenty m m1 plenty made) spare),
    )

-- If a file that can be opened is loaded, freeing its filter gives back all that loading took,
-- whichever requests for memory were refused on the way.
pub filter_node_free-load_filter_file :
    (fopen : Bytes → Option Bytes) (filename text : Bytes) (m : Mem) {loaded : Load}
    → fopen filename ≡ some text
    → (load_filter_file fopen (some filename) m).0 ≡ some loaded
    → (filter_node_free loaded.root (load_filter_file fopen (some filename) m).1).live ≡ m.live
filter_node_free-load_filter_file fopen filename text m opens loads =
    let (m1, made, root, heap) = load_filter_file-root fopen filename text m opens loads in
    rw (root, heap) (filter_node_free-add_domains (entries (read_lines [] text)) m m1 made)

named-texts :
    (kind : Line) (held : List Line) {ds : List Bytes}
    → ds ≡ texts held
    → named kind ds ≡ texts (kind ∷ held)
named-texts blank held e = e
named-texts comment held e = e
named-texts (entry d) held e = ap (◌∷◌ d) e

entries-texts : (lines : List Bytes) → entries lines ≡ texts (kinds lines)
unfolding entries
entries-texts [] = refl
entries-texts (line ∷ lines) = named-texts (read_line line) (kinds lines) (entries-texts lines)

-- With memory to spare for loading and asking, a file that can be opened is loaded, and its filter
-- blocks exactly the domains that one of its texts covers. These are what its lines hold that are
-- neither whitespace alone nor, behind whitespace, begin with '#', without whitespace at the start and
-- without newlines and carriage returns at the end. Lines end at a newline or behind 509 bytes, and a
-- carriage return alone ends none; what stands behind a NUL in a line is not read.
pub load_filter_file-texts :
    (fopen : Bytes → Option Bytes) (filename text asked : Bytes) (m n : Mem)
    → Plentiful m
    → Plentiful n
    → fopen filename ≡ some text
    → (loaded : Load) × (lines : List Bytes) × (held : List Line) × AreLines text lines
      × Hold lines held
      × ((load_filter_file fopen (some filename) m).0 ≡ some loaded)
      × ((is_domain_blocked (some loaded.root) (some asked) n).0 ≡ any_covers (texts held) asked)
load_filter_file-texts fopen filename text asked m n plenty spare opens =
    let (loaded, loads, blocks) =
      load_filter_file-any_covers fopen filename text asked m n plenty spare opens in
    let lines = read_lines [] text in
    (
      loaded,
      lines,
      kinds lines,
      read_lines-AreLines text [] tt (omega arith),
      kinds-Hold lines,
      loads,
      rw (← entries-texts lines) blocks,
    )
