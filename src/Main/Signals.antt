-- ===== src/Main/Signals.antt =====
-- signal_handler of main.c, which SIGINT and SIGTERM run from behind the loading of the filter until
-- run_server puts its own handler in its place.
use personal_test_resolver.Common.{
  ◌≡◌, refl, none, some, Option, List, Bytes, arith, false, ◌∷◌, [],
}
use personal_test_resolver.Main.{
  init_config, parse_arguments, Shell, free_config, Flag, default_config, accepted,
}
use personal_test_resolver.Server.{Config}
use personal_test_resolver.Common.Memory.{Mem, malloc_live}
use personal_test_resolver.Trie.{filter_node_free}
use personal_test_resolver.Filter.File.{Load, load_filter_file}
use personal_test_resolver.Main.Leaks.{parse_flags_live, free_config_live}
use personal_test_resolver.Main.Ends.{load_freed_live}
use personal_test_resolver.Trie.Blocks.{filter_node_free_live}
use personal_test_resolver.Console.{Console, printf, text}

-- It prints a line, releases the configuration that `g_config` points at, and exits.
unfoldable pub signal_handler : Option Config → Console → Mem → Console × Mem
signal_handler g_config console m = (
  printf (text "\nShutting down DNS resolver...\n" ∷ []) console,
  elim g_config [
    | none ↦ m
    | some c ↦ free_config c (elim c.filter_root [ none ↦ m | some root ↦ filter_node_free root m ])
  ],
)

-- When a signal stops the program between the loading of its filter and the server, whatever the
-- options and the file and whichever requests for memory were refused before, the handler gives back
-- all that was taken since the start of `main`.
pub signal_handler_live :
    (sh : Shell) (flags : List Flag) (fopen : Bytes → Option Bytes) (m m1 m2 m3 : Mem)
    (console : Console) (c : Config) (load : Load)
    → init_config m ≡ (some default_config, m1)
    → parse_arguments sh flags default_config m1 ≡ ((accepted, c), m2)
    → load_filter_file fopen c.filter_file m2 ≡ (some load, m3)
    → (signal_handler (some (record c { filter_root = some load.root })) console m3).1.live ≡ m.live
unfolding signal_handler init_config parse_arguments
signal_handler_live sh flags fopen m m1 m2 m3 console c load made parses loads =
    let parsed = parse_flags_live sh flags false false default_config m1 refl refl in
    let freed = filter_node_free load.root m3 in
    ground (
      arith,
      malloc_live m,
      parsed,
      load_freed_live fopen c.filter_file m2 {loaded = load},
      filter_node_free_live load.root m3,
      free_config_live (record c { filter_root = some load.root }) freed,
    )
