-- ===== src/Tests/Programs.antt =====
-- A run of the whole program.
use personal_test_resolver.Common.{equal, ◌≡◌, some, List, [], ◌∷◌, refl, true, false, none, equal}
use personal_test_resolver.Common.Memory.{Mem, Plentiful, malloc}
use personal_test_resolver.Main.Output.{main_output}
use personal_test_resolver.Main.Quiet.{main_output-quiet, fresh}
use personal_test_resolver.Server.Statistics.{final_statistics, shown_counts}
use personal_test_resolver.Tests.Packets.{memory, query_bytes-IsByte}
use personal_test_resolver.Main.{
  Flag, Shell, main, flag_s, init_config, parse_arguments, flag_p, parse_flags, read_port, flag_f,
  finish_arguments, flag_v, run_accepted, run_loaded, default_config, accepted, helped, flag_h,
}
use personal_test_resolver.Server.{Setup, run_server, init_udp_server, serve, err_success, Config}
use personal_test_resolver.Tests.Domains.{file_system, normal, small, file_text}
use personal_test_resolver.Tests.Serving.{upstream, events}
use personal_test_resolver.Main.Ends.{main_live}
use personal_test_resolver.Filter.File.{
  load_filter_file, Load, load_lines, load_line, read_line, line_kind, strip_ends, read_lines,
}
use personal_test_resolver.Trie.{
  filter_node_create, insert, new_child, add_child, grow, update_child, find_child,
}
use personal_test_resolver.Main.Messages.{Words}
use personal_test_resolver.Main.Arguments.{
  asked_config, accepted_config, parse_arguments-asked_config,
}
use personal_test_resolver.Main.Signals.{signal_handler, signal_handler_live}
use personal_test_resolver.Main.Success.{IsReady, main_succeeds}
use personal_test_resolver.Console.{Console, printf}
use personal_test_resolver.Message.{c_string}
use personal_test_resolver.Filter.{add_domain, add_labels, domain_labels}
use personal_test_resolver.Domain.{
  normalize_domain, normalize_text, skip_spaces, copy_lower, finish_domain, finish_text, strip_dots,
  bad_dots, is_space, to_lower,
}
use personal_test_resolver.Labels.{split_domain_labels, split_loop, keep_label}
use personal_test_resolver.Main.Help.{main_help_keeps}

abbrev shell : Shell
shell = record {
  strtol = λ text. record { negative = false; size = 5353; rest = [] };
  is_root = false;
  has_operand = false;
}

-- -s 8.8 -p 5 -f a.b -v
abbrev flags : List Flag
flags = flag_s upstream ∷ flag_p (some (b'5' ∷ [])) ∷ flag_f (some normal) ∷ flag_v ∷ []

abbrev ready : Setup
ready = record { socket_made = true; reuse_set = true; timeout_set = true; bound = true }

returned : (main shell flags file_system ready events memory).0 ≡ some 0
unfolding main init_config parse_arguments parse_flags read_port finish_arguments run_accepted
    run_loaded load_filter_file filter_node_create run_server init_udp_server serve malloc
returned = refl

main_live_example : (main shell flags file_system ready events memory).1.live ≡ 0
main_live_example =
    main_live shell flags file_system ready events memory tt (query_bytes-IsByte, (tt, tt)) returned

parse_arguments-asked_config_example :
    accepted_config (parse_arguments shell flags default_config memory).0 ≡ asked_config shell flags
parse_arguments-asked_config_example = parse_arguments-asked_config shell flags memory refl

abbrev words : Words
words = record { program_name = b'd' ∷ []; optopt = b'x' ∷ []; operand = [] }

-- -s twice
abbrev twice : List Flag
twice = flag_s upstream ∷ flag_s upstream ∷ []

abbrev quiet : Console
quiet = record { out = []; err = [] }

abbrev config : Config
config = record {
  upstream_server = upstream;
  local_port = 5353;
  filter_file = some normal;
  verbose = true;
  filter_root = none;
}

abbrev loaded_file : Load
loaded_file = record {
  root = small;
  domains_loaded = 1;
  lines_ignored = 1;
  mem = record { grants = []; live = 7 };
}

is_configured : init_config memory ≡ (some default_config, record { grants = []; live = 1 })
unfolding init_config malloc
is_configured = refl

is_accepted :
    parse_arguments shell flags default_config (record { grants = []; live = 1 })
    ≡ ((accepted, config), record { grants = []; live = 3 })
unfolding parse_arguments parse_flags read_port finish_arguments malloc
is_accepted = refl

is_loaded :
    load_filter_file file_system (some normal) (record { grants = []; live = 3 })
    ≡ (some loaded_file, record { grants = []; live = 7 })
unfolding load_filter_file load_lines load_line read_line line_kind strip_ends read_lines c_string
    filter_node_create malloc add_domain add_labels insert new_child add_child grow update_child
    domain_labels normalize_domain normalize_text skip_spaces copy_lower finish_domain finish_text
    strip_dots bad_dots is_space to_lower split_domain_labels split_loop keep_label find_child equal
is_loaded = refl

signal_handler_live_example :
    (signal_handler
      (some (record config { filter_root = some small }))
      quiet
      (record { grants = []; live = 7 })).1.live
    ≡ 0
signal_handler_live_example =
    signal_handler_live shell flags file_system memory (record { grants = []; live = 1 })
      (record { grants = []; live = 3 }) (record { grants = []; live = 7 }) quiet config loaded_file
      is_configured is_accepted is_loaded

is_asked : asked_config shell flags ≡ some config
unfolding asked_config read_port
is_asked = refl

is_ready : IsReady ready
is_ready = record { socket_made = refl; reuse_set = refl; timeout_set = refl; bound = refl }

main_succeeds_example : (main shell flags file_system ready events memory).0 ≡ some err_success
main_succeeds_example =
    main_succeeds shell flags file_system ready events memory config normal file_text refl is_asked
      refl refl is_ready refl

-- -s 8.8 -p 5 -f a.b
abbrev silent_flags : List Flag
silent_flags = flag_s upstream ∷ flag_p (some (b'5' ∷ [])) ∷ flag_f (some normal) ∷ []

abbrev silent_config : Config
silent_config = record config { verbose = false }

silent_asked : asked_config shell silent_flags ≡ some silent_config
unfolding asked_config read_port
silent_asked = refl

main_output-quiet_example :
    (loaded : Load) × (m1 : Mem) × Plentiful m1
    × ((load_filter_file file_system (some normal) m1).0 ≡ some loaded)
    × (main_output words shell silent_flags file_system ready events
          (λ n. record { address = normal; port = n })
          memory
          quiet
        ≡ printf
            (final_statistics (
              shown_counts
                (run_server
                  (some (record silent_config { filter_root = some loaded.root }))
                  ready
                  events
                  (fresh (load_filter_file file_system (some normal) m1).1)).1))
            quiet)
main_output-quiet_example =
    main_output-quiet words shell silent_flags file_system ready events
      (λ n. record { address = normal; port = n }) memory quiet silent_config normal file_text refl
      silent_asked refl refl is_ready refl refl

-- -s 8.8 -h
abbrev help_flags : List Flag
help_flags = flag_s upstream ∷ flag_h ∷ []

is_helped :
    (parse_arguments shell help_flags default_config (record { grants = []; live = 1 })).0.0
    ≡ helped
unfolding parse_arguments parse_flags malloc
is_helped = refl

main_help_keeps_example :
    ((main shell help_flags file_system ready events memory).0 ≡ some err_success)
    × ((main shell help_flags file_system ready events memory).1.live ≡ 1)
main_help_keeps_example =
    main_help_keeps shell help_flags file_system ready events memory
      (record { grants = []; live = 1 }) is_configured is_helped
