-- ===== src/Main/Help.antt =====
-- What main keeps when it prints the usage and returns.
use personal_test_resolver.Common.{
  ℕ, ◌+◌, ◌≡◌, some, Option, List, [], ◌∷◌, Bytes, arith, Bool, true, false, suc, Option-cases, inl,
  inr,
}
use personal_test_resolver.Main.{
  parse_flags, main, Flag, flag_s, finish_arguments, init_config, parse_arguments, flag_p, Shell,
  flag_f, flag_v, helped, default_config, flag_h, unknown, read_port,
}
use personal_test_resolver.Server.{Config, Setup, Event, err_success}
use personal_test_resolver.Common.Memory.{Mem, malloc_live, malloc}

-- The options before the first -h of which the argument is copied.
abbrev pub copied : List Flag → ℕ
copied [] = 0
copied (flag_s arg ∷ flags) = suc (copied flags)
copied (flag_p arg ∷ flags) = copied flags
copied (flag_f arg ∷ flags) = suc (copied flags)
copied (flag_v ∷ flags) = copied flags
copied (flag_h ∷ flags) = 0
copied (unknown ∷ flags) = copied flags

helped_live :
    (sh : Shell) (flags : List Flag) (s f : Bool) (c : Config) (m : Mem)
    → (parse_flags sh flags s f c m).0.0 ≡ helped
    → (parse_flags sh flags s f c m).1.live ≡ m.live + copied flags
unfolding parse_flags finish_arguments
helped_live sh [] s f c m e = absurd (ground arith)
helped_live sh (flag_s arg ∷ flags) s f c m e = ground (
  arith,
  malloc_live m,
  helped_live sh flags true f (record c { upstream_server = arg }) (malloc m).1,
)
helped_live sh (flag_p arg ∷ flags) s f c m e = elim (Option-cases (read_port sh arg)) [
  | inl refused ↦ absurd (ground arith)
  | inr (port, accepts) ↦
      ground (arith, helped_live sh flags s f (record c { local_port = port }) m)
]
helped_live sh (flag_f arg ∷ flags) s f c m e = ground (
  arith,
  malloc_live m,
  helped_live sh flags s true (record c { filter_file = arg }) (malloc m).1,
)
helped_live sh (flag_v ∷ flags) s f c m e =
    helped_live sh flags s f (record c { verbose = true }) m e
helped_live sh (flag_h ∷ flags) s f c m e = omega arith
helped_live sh (unknown ∷ flags) s f c m e = absurd (ground arith)

-- When -h is read, `main` returns ERR_SUCCESS but keeps the copies of all arguments of -s and -f that
-- stand before it.
pub main_help_keeps :
    (sh : Shell) (flags : List Flag) (fopen : Bytes → Option Bytes) (setup : Setup)
    (events : List Event) (m m1 : Mem)
    → init_config m ≡ (some default_config, m1)
    → (parse_arguments sh flags default_config m1).0.0 ≡ helped
    → ((main sh flags fopen setup events m).0 ≡ some err_success)
      × ((main sh flags fopen setup events m).1.live ≡ m.live + copied flags)
unfolding main init_config parse_arguments
main_help_keeps sh flags fopen setup events m m1 made helps =
    ground (arith, malloc_live m, helped_live sh flags false false default_config m1)
