-- ===== src/Main/Output.antt =====
-- What main of main.c prints, its callees included, but for the messages on stderr of system calls that
-- fail and of forward_query.
use personal_test_resolver.Console.{Console, text, natural, print_error}
use personal_test_resolver.Common.{ℕ, Option, none, some, List, [], ◌∷◌, Bytes}
use personal_test_resolver.Common.Memory.{Mem}
use personal_test_resolver.Server.{Config, Setup, Event}
use personal_test_resolver.Server.Log.{log, shown, Client}
use personal_test_resolver.Server.Statistics.{run_server_output}
use personal_test_resolver.Trie.{Node}
use personal_test_resolver.Filter.{filter_print_stats}
use personal_test_resolver.Filter.File.{load_filter_file}
use personal_test_resolver.Filter.Output.{load_output}
use personal_test_resolver.Main.{
  Shell, Flag, init_config, parse_arguments, default_config, accepted, helped, rejected,
}
use personal_test_resolver.Main.Messages.{Words, arguments_output}

-- The lines ahead of the filter file.
abbrev pub starting_log : Config → Console → Console
starting_log c console = log c (text "Loading filter file..." ∷ []) (
    log c (text "Filter file: " ∷ shown c.filter_file ∷ []) (
      log c (text "Local port: " ∷ natural c.local_port ∷ []) (
        log c (text "Upstream server: " ∷ shown c.upstream_server ∷ [])
          (log c (text "DNS Resolver starting..." ∷ []) console))))

-- The server with the loaded filter.
unfoldable pub loaded_program_output :
    Config → Node → Setup → List Event → (ℕ → Client) → Mem → Console → Console
loaded_program_output c root setup events client m console =
    run_server_output (some (record c { filter_root = some root })) setup events client
      (record { mem = m; sockets = 0; lists = 0 })
      (log c (text "Starting DNS server on port " ∷ natural c.local_port ∷ text "..." ∷ [])
        (filter_print_stats (some root) c.verbose console))

-- `main` with its arguments accepted.
unfoldable pub accepted_output :
    (Bytes → Option Bytes) → Config → Setup → List Event → (ℕ → Client) → Mem → Console → Console
accepted_output fopen c setup events client m console =
    let (loaded, m') = load_filter_file fopen c.filter_file m in
    let told = load_output fopen c.filter_file c.verbose m (starting_log c console) in
    elim loaded [
      | none ↦ print_error (text "Failed to load filter file: " ∷ shown c.filter_file ∷ []) told
      | some load ↦ loaded_program_output c load.root setup events client m' told
    ]

-- `main`.
unfoldable pub main_output :
    Words
    → Shell
    → List Flag
    → (Bytes → Option Bytes)
    → Setup
    → List Event
    → (ℕ → Client)
    → Mem
    → Console
    → Console
main_output words sh flags fopen setup events client m console =
    let (made, m1) = init_config m in
    let ((parsed, c), m2) = parse_arguments sh flags default_config m1 in
    let told = arguments_output words sh flags m1 console in
    elim made [
      | none ↦ print_error (text "Failed to allocate memory for configuration" ∷ []) console
      | some _ ↦ elim parsed [
        | helped ↦ told
        | rejected ↦ told
        | accepted ↦ accepted_output fopen c setup events client m2 told
      ]
    ]
