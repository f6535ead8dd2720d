-- ===== src/Main/Quiet.antt =====
-- What main prints without the verbose mode.
use mathlib.Core.Path.{subst}
use personal_test_resolver.Console.{Console, text, natural, printf}
use personal_test_resolver.Common.{
  ℕ, ◌≡◌, Bool, ◌+◌, refl, Option, none, some, List, [], ◌∷◌, Bytes, true, false, ◌∙◌, ap,
  if◌then◌else◌, arith,
}
use personal_test_resolver.Common.Memory.{Mem, Plentiful, malloc-Plentiful, malloc}
use personal_test_resolver.Server.{
  Config, Setup, Event, Server, run_server, init_udp_server, err_success, no_counts,
}
use personal_test_resolver.Server.Log.{log, Client}
use personal_test_resolver.Server.Quiet.{log-quiet}
use personal_test_resolver.Server.Statistics.{final_statistics, shown_counts, run_server-prints}
use personal_test_resolver.Trie.{Node}
use personal_test_resolver.Resolver.{World}
use personal_test_resolver.Filter.{filter_print_stats, filter_stats}
use personal_test_resolver.Filter.File.{load_filter_file, Load}
use personal_test_resolver.Filter.Output.{load_output, load_output-kinds}
use personal_test_resolver.Main.{
  Shell, Flag, init_config, parse_arguments, default_config, accepted,
}
use personal_test_resolver.Main.Messages.{Words, arguments_output, Reports, parse_arguments-Reports}
use personal_test_resolver.Main.Success.{
  IsReady, stops, serve-stops, accepted_config-some, parse_flags_keeps,
}
use personal_test_resolver.Main.Arguments.{asked_config, parse_arguments-asked_config}
use personal_test_resolver.Filter.Loading.{load_filter_file-there}
use personal_test_resolver.Main.Output.{
  main_output, accepted_output, loaded_program_output, starting_log,
}

-- The world in which the server starts.
abbrev pub fresh : Mem → World
fresh m = record { mem = m; sockets = 0; lists = 0 }

starting_log-quiet :
    (c : Config) (console : Console) → c.verbose ≡ false → starting_log c console ≡ console
starting_log-quiet c console quiet =
    log-quiet c _ _ quiet
    ∙ (log-quiet c _ _ quiet
        ∙ (log-quiet c _ _ quiet ∙ (log-quiet c _ _ quiet ∙ log-quiet c _ console quiet)))

filter_print_stats-quiet :
    (root : Option Node) (console : Console) → filter_print_stats root false console ≡ console
unfolding filter_print_stats filter_stats
filter_print_stats-quiet none console = refl
filter_print_stats-quiet (some root) console = refl

run_server-ready :
    (config : Config) (setup : Setup) (events : List Event) (m : Mem)
    → IsReady setup
    → stops events ≡ true
    → ((init_udp_server setup (fresh m)).0 ≡ true)
      × (run_server (some config) setup events (fresh m)
          ≡ (some err_success, (run_server (some config) setup events (fresh m)).1))
unfolding run_server init_udp_server
run_server-ready config setup events m ready ends =
    let start : Server = record {
      counts = no_counts;
      world = record { mem = m; sockets = 1; lists = 0 };
      sent = [];
    } in
    let stopped = serve-stops config events start in
    (
      rw (ready.socket_made, ready.reuse_set, ready.timeout_set, ready.bound) refl,
      rw (ready.socket_made, ready.reuse_set, ready.timeout_set, ready.bound, stopped, ends) refl,
    )

otherwise : {b : Bool} (x : Console) {y : Console} → b ≡ false → (if b then x else y) ≡ y
otherwise x e = ground arith

loaded_program_output-quiet :
    (c : Config) (root : Node) (setup : Setup) (events : List Event) (client : ℕ → Client) (m : Mem)
    (console : Console)
    → IsReady setup
    → stops events ≡ true
    → c.verbose ≡ false
    → loaded_program_output c root setup events client m console
      ≡ printf
          (final_statistics (
            shown_counts
              (run_server (some (record c { filter_root = some root })) setup events (fresh m)).1))
          console
unfolding loaded_program_output
loaded_program_output-quiet c root setup events client m console ready ends quiet =
    let config : Config = record c { filter_root = some root } in
    let (made, ended) = run_server-ready config setup events m ready ends in
    let told =
      log c (text "Starting DNS server on port " ∷ natural c.local_port ∷ text "..." ∷ [])
        (filter_print_stats (some root) c.verbose console) in
    let silent : told ≡ console =
      log-quiet c _ _ quiet ∙ rw quiet (filter_print_stats-quiet (some root) console) in
    run_server-prints config setup events client (fresh m) told made ended
    ∙ ap (printf _) (otherwise _ quiet ∙ silent)

accepted_output-loaded :
    (fopen : Bytes → Option Bytes) (c : Config) (setup : Setup) (events : List Event)
    (client : ℕ → Client) (m : Mem) (console : Console) {loaded : Load}
    → (load_filter_file fopen c.filter_file m).0 ≡ some loaded
    → accepted_output fopen c setup events client m console
      ≡ loaded_program_output c loaded.root setup events client
          (load_filter_file fopen c.filter_file m).1
          (load_output fopen c.filter_file c.verbose m (starting_log c console))
unfolding accepted_output
accepted_output-loaded fopen c setup events client m console e = rw (accepted_output, e) refl

load_output-quiet :
    (fopen : Bytes → Option Bytes) (c : Config) (m : Mem) (console : Console)
    (filename file : Bytes)
    → Plentiful m
    → c.filter_file ≡ some filename
    → fopen filename ≡ some file
    → c.verbose ≡ false
    → load_output fopen c.filter_file c.verbose m (starting_log c console) ≡ console
load_output-quiet fopen c m console filename file plenty names opens quiet =
    ap (λ f. load_output fopen f c.verbose m (starting_log c console)) names
    ∙ ap (λ v. load_output fopen (some filename) v m (starting_log c console)) quiet
    ∙ load_output-kinds fopen filename file false m _ plenty opens
    ∙ starting_log-quiet c console quiet

main_output-accepted :
    (words : Words) (sh : Shell) (flags : List Flag) (fopen : Bytes → Option Bytes) (setup : Setup)
    (events : List Event) (client : ℕ → Client) (m m1 : Mem) (console : Console) {c : Config}
    → malloc m ≡ (true, m1)
    → (parse_arguments sh flags default_config m1).0 ≡ (accepted, c)
    → main_output words sh flags fopen setup events client m console
      ≡ accepted_output fopen c setup events client
          (parse_arguments sh flags default_config m1).1
          (arguments_output words sh flags m1 console)
unfolding main_output init_config
main_output-accepted words sh flags fopen setup events client m m1 console granted fine =
    ground (arith, granted, fine)

-- With memory to spare, arguments that ask for a configuration without the verbose mode, a filter file
-- that can be opened, a socket that can be set up, and a signal to stop among the events: all that
-- `main` prints, but for the messages of failed system calls and of `forward_query` on stderr, is the
-- final statistics. These are those of the server that runs with the filter that was loaded from the
-- file, and show the responses that it handed to `sendto`.
pub main_output-quiet :
    (words : Words) (sh : Shell) (flags : List Flag) (fopen : Bytes → Option Bytes) (setup : Setup)
    (events : List Event) (client : ℕ → Client) (m : Mem) (console : Console) (c : Config)
    (filename file : Bytes)
    → Plentiful m
    → asked_config sh flags ≡ some c
    → c.filter_file ≡ some filename
    → fopen filename ≡ some file
    → IsReady setup
    → stops events ≡ true
    → c.verbose ≡ false
    → (loaded : Load) × (m1 : Mem) × Plentiful m1
      × ((load_filter_file fopen c.filter_file m1).0 ≡ some loaded)
      × (main_output words sh flags fopen setup events client m console
          ≡ printf
              (final_statistics (
                shown_counts
                  (run_server
                    (some (record c { filter_root = some loaded.root }))
                    setup
                    events
                    (fresh (load_filter_file fopen c.filter_file m1).1)).1))
              console)
main_output-quiet words sh flags fopen setup events client m console c filename file plenty asks
      names opens ready ends quiet =
    let m1 : Mem = record m { live = m.live + 1 } in
    let parsing = parse_arguments sh flags default_config m1 in
    let fine : parsing.0 ≡ (accepted, c) =
      accepted_config-some parsing.0 (parse_arguments-asked_config sh flags m1 plenty ∙ asks) in
    let keeps : Plentiful parsing.1 =
      unfold parse_arguments in (parse_flags_keeps sh flags false false default_config m1 plenty) in
    let (loaded, loads) = load_filter_file-there fopen filename file parsing.1 keeps opens in
    let there : (load_filter_file fopen c.filter_file parsing.1).0 ≡ some loaded = rw names loads in
    let told : arguments_output words sh flags m1 console ≡ console =
      subst (λ r. Reports words r.0 console (arguments_output words sh flags m1 console)) fine
        (parse_arguments-Reports words sh flags default_config m1 console) in
    (
      loaded,
      parsing.1,
      keeps,
      there,
      main_output-accepted words sh flags fopen setup events client m m1 console
            (malloc-Plentiful m plenty) fine
          ∙ rw told (
              accepted_output-loaded fopen c setup events client parsing.1 console there
              ∙ ap
                  (loaded_program_output c loaded.root setup events client
                    (load_filter_file fopen c.filter_file parsing.1).1)
                  (load_output-quiet fopen c parsing.1 console filename file keeps names opens
                    quiet)
              ∙ loaded_program_output-quiet c loaded.root setup events client _ console ready ends
                  quiet),
    )
