-- ===== src/Main/Ends.antt =====
-- The heap when `main` returns.
use personal_test_resolver.Common.{
  ℕ, ◌+◌, ◌-◌, ◌≡◌, refl, none, some, List, Bytes, arith, Option-cases, Bool-cases, inl, inr,
  Option, ◌⊎◌, false,
}
use personal_test_resolver.Common.Memory.{Mem, malloc_live, malloc}
use personal_test_resolver.Filter.File.{load_filter_file, Load}
use personal_test_resolver.Main.{
  main, Parsed, run_accepted, accepted, init_config, parse_arguments, Shell, helped, Flag, rejected,
  parse_flags, default_config,
}
use personal_test_resolver.Trie.{filter_node_create}
use personal_test_resolver.Trie.Blocks.{trie_blocks, filter_node_free_live}
use personal_test_resolver.Server.{Config, Setup, Event}
use personal_test_resolver.Filter.Loading.{filter_node_free-load_filter_file}
use personal_test_resolver.Server.Loop.{AreBytes}
use personal_test_resolver.Main.Leaks.{
  NoHelp, parse_flags_live, strings, free_config_live, parse_flags-ne-helped, run_loaded_live,
}

load_failed_live :
    (fopen : Bytes → Option Bytes) (filename : Option Bytes) (m : Mem)
    → (load_filter_file fopen filename m).0 ≡ none
    → (load_filter_file fopen filename m).1.live ≡ m.live
unfolding load_filter_file filter_node_create
load_failed_live fopen none m e = refl
load_failed_live fopen (some filename) m e = elim (Option-cases (fopen filename)) [
  | inl missing ↦ ground arith
  | inr (text, opens) ↦ ground (arith, malloc_live m)
]

pub load_freed_live :
    (fopen : Bytes → Option Bytes) (filename : Option Bytes) (m : Mem) {loaded : Load}
    → (load_filter_file fopen filename m).0 ≡ some loaded
    → (load_filter_file fopen filename m).1.live - trie_blocks loaded.root ≡ m.live
load_freed_live fopen none m e = absurd (unfold load_filter_file in cc)
load_freed_live fopen (some filename) m {loaded} e = elim (Option-cases (fopen filename)) [
  | inl missing ↦ absurd (unfold load_filter_file in ground arith)
  | inr (text, opens) ↦ omega (
    arith,
    filter_node_free-load_filter_file fopen filename text m opens e,
    filter_node_free_live loaded.root (load_filter_file fopen (some filename) m).1,
  )
]

run_accepted_live :
    (fopen : Bytes → Option Bytes) (c : Config) (setup : Setup) (events : List Event) (m : Mem)
    {code : ℕ}
    → AreBytes events
    → (run_accepted fopen c setup events m).0 ≡ some code
    → (run_accepted fopen c setup events m).1.live ≡ m.live - (strings c + 1)
unfolding run_accepted
run_accepted_live fopen c setup events m {code} bytes e =
    let loading = load_filter_file fopen c.filter_file m in
    elim (Option-cases loading.0) [
      | inl fails ↦
          ground (arith, load_failed_live fopen c.filter_file m fails, free_config_live c loading.1)
      | inr (load, loads) ↦ ground (
        arith,
        load_freed_live fopen c.filter_file m loads,
        run_loaded_live c load.root setup events loading.1 {code = code} bytes,
      )
    ]

Parsed-cases : (p : Parsed) → (p ≡ accepted) ⊎ (p ≡ helped) ⊎ (p ≡ rejected)
Parsed-cases accepted = inl refl
Parsed-cases helped = inr (inl refl)
Parsed-cases rejected = inr (inr refl)

-- When `main` returns, whatever its code, as many blocks are live as when it started: with any
-- arguments but -h, any file, any packets of bytes, and whichever requests for memory were
-- refused.
pub main_live :
    (sh : Shell) (flags : List Flag) (fopen : Bytes → Option Bytes) (setup : Setup)
    (events : List Event) (m : Mem) {code : ℕ}
    → NoHelp flags
    → AreBytes events
    → (main sh flags fopen setup events m).0 ≡ some code
    → (main sh flags fopen setup events m).1.live ≡ m.live
unfolding main init_config parse_arguments
main_live sh flags fopen setup events m {code} h bytes e =
    let parsing = parse_flags sh flags false false default_config (malloc m).1 in
    let taken = parse_flags_live sh flags false false default_config (malloc m).1 refl refl in
    elim (Bool-cases (malloc m).0) [
      | inl granted ↦ elim (Parsed-cases parsing.0.0) [
        | inl fine ↦ ground (
          arith,
          malloc_live m,
          taken,
          run_accepted_live fopen parsing.0.1 setup events parsing.1 {code = code} bytes,
        )
        | inr (inl help) ↦
            absurd (parse_flags-ne-helped sh flags false false default_config (malloc m).1 h help)
        | inr (inr bad) ↦
            ground (arith, malloc_live m, taken, free_config_live parsing.0.1 parsing.1)
      ]
      | inr refused ↦ ground (arith, malloc_live m)
    ]
