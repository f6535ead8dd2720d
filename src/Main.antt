-- ===== src/Main.antt =====
-- main.c: the configuration, the arguments, and the program from its start to its end. What getopt
-- returns is a list of options.
pub mod Leaks
pub mod Ends
pub mod Arguments
pub mod Messages
pub mod Signals
pub mod Success
pub mod Output
pub mod Quiet
pub mod Policy
pub mod Help
use personal_test_resolver.Common.{
  ℕ, ◌+◌, Bool, true, false, ◌||◌, Option, none, some, List, [], ◌∷◌, Bytes, length, if◌then◌else◌,
  ltb, ◌==◌, not,
}
use personal_test_resolver.Common.Memory.{Mem, malloc, release}
use personal_test_resolver.Server.{
  Config, Server, Setup, Event, run_server, err_success, err_invalid_args,
}
use personal_test_resolver.Trie.{Node, filter_node_free}
use personal_test_resolver.Filter.File.{load_filter_file}
use personal_test_resolver.Resolver.{World}

-- What a call of `getopt` returns, with `optarg`; `unknown` is '?'.
pub data Flag : Type 0 where
  flag_s : Option Bytes → Flag
  flag_p : Option Bytes → Flag
  flag_f : Option Bytes → Flag
  flag_v : Flag
  flag_h : Flag
  unknown : Flag

-- What `strtol` returns: whether the number is negative, its size, and the text at `endptr`.
pub record Number : Type 0 where
  pub negative : Bool
  pub size : ℕ
  pub rest : Bytes

-- What the arguments do not hold: `strtol`, `geteuid() == 0`, and `optind < argc` behind the loop.
pub record Shell : Type 0 where
  pub strtol : Bytes → Number
  pub is_root : Bool
  pub has_operand : Bool

-- The results 0, 1 and -1 of `parse_arguments`.
pub data Parsed : Type 0 where
  accepted : Parsed
  helped : Parsed
  rejected : Parsed

abbrev pub default_config : Config
default_config = record {
  upstream_server = none;
  local_port = 53;
  filter_file = none;
  verbose = false;
  filter_root = none;
}

-- `init_config`
unfoldable pub init_config : Mem → Option Config × Mem
init_config m = let (granted, m') = malloc m in (if granted then some default_config else none, m')

-- `optarg == NULL || strlen(optarg) == 0`
abbrev pub no_text : Option Bytes → Bool
no_text none = true
no_text (some text) = length text == 0

-- `port <= 0 || port > 65535`
abbrev pub bad_port : Number → Bool
bad_port n = n.negative || n.size == 0 || ltb 65535 n.size

-- The tests of -p: the port, if it is accepted. A port that needs root is stored before it is refused,
-- which nothing reads.
unfoldable pub read_port : Shell → Option Bytes → Option ℕ
read_port sh none = none
read_port sh (some text) =
    let number = sh.strtol text in
    if length text == 0
    then none
    else if not (length number.rest == 0)
    then none
    else if bad_port number
    then none
    else if ltb number.size 1024
    then (if sh.is_root then some number.size else none)
    else some number.size

-- The tests behind the loop.
unfoldable pub finish_arguments : Shell → Bool → Bool → Parsed
finish_arguments sh has_server has_filter =
    if sh.has_operand
    then rejected
    else if not has_server
    then rejected
    else if has_filter
    then accepted
    else rejected

-- The loop of `parse_arguments`, with `has_server` and `has_filter`.
unfoldable pub parse_flags :
    Shell → List Flag → Bool → Bool → Config → Mem → (Parsed × Config) × Mem
parse_flags sh [] s f c m = ((finish_arguments sh s f, c), m)
parse_flags sh (flag_s arg ∷ flags) s f c m =
    let (granted, m') = malloc m in
    let rest = parse_flags sh flags true f (record c { upstream_server = arg }) m' in
    if s
    then ((rejected, c), m)
    else if no_text arg
    then ((rejected, c), m)
    else if granted
    then rest
    else ((rejected, record c { upstream_server = none }), m')
parse_flags sh (flag_p arg ∷ flags) s f c m = elim (read_port sh arg) [
  | none ↦ ((rejected, c), m)
  | some port ↦ parse_flags sh flags s f (record c { local_port = port }) m
]
parse_flags sh (flag_f arg ∷ flags) s f c m =
    let (granted, m') = malloc m in
    let rest = parse_flags sh flags s true (record c { filter_file = arg }) m' in
    if f
    then ((rejected, c), m)
    else if no_text arg
    then ((rejected, c), m)
    else if granted
    then rest
    else ((rejected, record c { filter_file = none }), m')
parse_flags sh (flag_v ∷ flags) s f c m = parse_flags sh flags s f (record c { verbose = true }) m
parse_flags sh (flag_h ∷ flags) s f c m = ((helped, c), m)
parse_flags sh (unknown ∷ flags) s f c m = ((rejected, c), m)

-- `parse_arguments`
unfoldable pub parse_arguments : Shell → List Flag → Config → Mem → (Parsed × Config) × Mem
parse_arguments sh flags c m = parse_flags sh flags false false c m

abbrev pub free_text : Option Bytes → Mem → Mem
free_text none m = m
free_text (some text) m = release 1 m

-- `free` of the two strings and of the configuration.
unfoldable pub free_config : Config → Mem → Mem
free_config c m = release 1 (free_text c.filter_file (free_text c.upstream_server m))

-- ERR_FILTER_FILE, ERR_MEMORY
abbrev pub err_filter_file : ℕ
err_filter_file = 4

abbrev pub err_memory : ℕ
err_memory = 7

-- The server, and the release of everything when it ends.
unfoldable pub run_loaded : Config → Node → Setup → List Event → Mem → Option ℕ × Mem
run_loaded c root setup events m =
    let start : World = record { mem = m; sockets = 0; lists = 0 } in
    let (ret, s) = run_server (some (record c { filter_root = some root })) setup events start in
    elim ret [
      | none ↦ (none, s.world.mem)
      | some code ↦ (some code, free_config c (filter_node_free root s.world.mem))
    ]

-- `main` with its arguments accepted.
unfoldable pub run_accepted :
    (Bytes → Option Bytes) → Config → Setup → List Event → Mem → Option ℕ × Mem
run_accepted fopen c setup events m =
    let (loaded, m') = load_filter_file fopen c.filter_file m in
    elim loaded [
      | none ↦ (some err_filter_file, free_config c m')
      | some load ↦ run_loaded c load.root setup events m'
    ]

-- `main`: the code that it returns, if it ends, and the heap.
unfoldable pub main :
    Shell → List Flag → (Bytes → Option Bytes) → Setup → List Event → Mem → Option ℕ × Mem
main sh flags fopen setup events m =
    let (made, m1) = init_config m in
    let ((parsed, c), m2) = parse_arguments sh flags default_config m1 in
    elim made [
      | none ↦ (some err_memory, m1)
      | some _ ↦ elim parsed [
        | helped ↦ (some err_success, release 1 m2)
        | rejected ↦ (some err_invalid_args, free_config c m2)
        | accepted ↦ run_accepted fopen c setup events m2
      ]
    ]
