-- ===== src/Main/Arguments.antt =====
-- Which command lines `parse_arguments` accepts, and the configuration that it makes of them.
use personal_test_resolver.Common.{
  ℕ, ◌+◌, ◌≡◌, refl, Bool, true, false, ◌||◌, ◌&&◌, Option, none, some, List, [], ◌∷◌, Bytes, arith,
  if◌then◌else◌, not, leb, Option-cases, inl, inr,
}
use personal_test_resolver.Main.{
  Flag, Parsed, parse_flags, Shell, read_port, finish_arguments, accepted, flag_s, no_text, flag_v,
  flag_h, flag_p, flag_f, unknown, helped, rejected, parse_arguments, default_config,
}
use personal_test_resolver.Server.{Config}
use personal_test_resolver.Common.Memory.{Mem, Plentiful, malloc-Plentiful}
use personal_test_resolver.Main.Leaks.{Matches}

-- The arguments of -s, of -f and of -p, in order.
abbrev pub servers : List Flag → List (Option Bytes)
servers [] = []
servers (flag_s arg ∷ flags) = arg ∷ servers flags
servers (flag ∷ flags) = servers flags

abbrev pub files : List Flag → List (Option Bytes)
files [] = []
files (flag_f arg ∷ flags) = arg ∷ files flags
files (flag ∷ flags) = files flags

abbrev pub ports : List Flag → List (Option Bytes)
ports [] = []
ports (flag_p arg ∷ flags) = arg ∷ ports flags
ports (flag ∷ flags) = ports flags

abbrev pub wants_verbose : List Flag → Bool
wants_verbose [] = false
wants_verbose (flag_v ∷ flags) = true
wants_verbose (flag ∷ flags) = wants_verbose flags

-- No -h and no option that getopt does not know.
abbrev pub all_known : List Flag → Bool
all_known [] = true
all_known (flag_h ∷ flags) = false
all_known (unknown ∷ flags) = false
all_known (flag ∷ flags) = all_known flags

-- The only argument, if there is just one and it has a text.
abbrev pub only_text : List (Option Bytes) → Option Bytes
only_text (some (c ∷ cs) ∷ []) = some (c ∷ cs)
only_text _ = none

-- A number from 1 to 65535, and from 1024 on but for root.
abbrev pub allowed_port : Bool → Bool → ℕ → Bool
allowed_port is_root negative n = not negative && leb 1 n && leb n 65535 && (is_root || leb 1024 n)

-- The number that an argument of -p spells: a text that strtol reads to its end, as such a number.
abbrev pub spelled_port : Shell → Option Bytes → Option ℕ
spelled_port sh none = none
spelled_port sh (some []) = none
spelled_port sh (some (c ∷ cs)) =
    let n = sh.strtol (c ∷ cs) in
    elim n.rest [
      | [] ↦ if allowed_port sh.is_root n.negative n.size then some n.size else none
      | d ∷ ds ↦ none
    ]

-- The last port, or `port` if there is none; each must be in order.
abbrev pub last_port : Shell → ℕ → List (Option Bytes) → Option ℕ
last_port sh port [] = some port
last_port sh port (arg ∷ args) = elim (spelled_port sh arg) [
  | none ↦ none
  | some p ↦ last_port sh p args
]

read_port-spelled_port : (sh : Shell) (arg : Option Bytes) → read_port sh arg ≡ spelled_port sh arg
unfolding read_port
read_port-spelled_port sh none = refl
read_port-spelled_port sh (some []) = refl
read_port-spelled_port sh (some (c ∷ cs)) = ground arith

abbrev make_config : Option Bytes → Option ℕ → Option Bytes → Bool → Option Config
make_config (some server) (some port) (some file) verbose = some (record {
  upstream_server = some server;
  local_port = port;
  filter_file = some file;
  verbose = verbose;
  filter_root = none;
})
make_config _ _ _ verbose = none

-- The configuration that a command line asks for, if it is one.
unfoldable pub asked_config : Shell → List Flag → Option Config
asked_config sh flags =
    if all_known flags && not sh.has_operand
    then make_config (only_text (servers flags)) (last_port sh 53 (ports flags))
        (only_text (files flags)) (wants_verbose flags)
    else none

-- What `parse_arguments` returns: the configuration, if it returned 0.
abbrev pub accepted_config : Parsed × Config → Option Config
accepted_config (accepted, c) = some c
accepted_config (helped, c) = none
accepted_config (rejected, c) = none

-- The text that is there already, and those that are still to come.
abbrev before : Bool → Option Bytes → List (Option Bytes) → Option Bytes
before false text args = only_text args
before true text [] = text
before true text (arg ∷ args) = none

-- What is still asked for, in the middle of the loop.
abbrev rest_config : Shell → List Flag → Bool → Bool → Config → Option Config
rest_config sh flags s f c =
    if all_known flags && not sh.has_operand
    then make_config (before s c.upstream_server (servers flags))
        (last_port sh c.local_port (ports flags)) (before f c.filter_file (files flags))
        (c.verbose || wants_verbose flags)
    else none

only_text-cons :
    (arg : Option Bytes) (args : List (Option Bytes))
    → only_text (arg ∷ args) ≡ (if no_text arg then none else before true arg args)
only_text-cons none args = refl
only_text-cons (some []) args = refl
only_text-cons (some (c ∷ cs)) [] = ground arith
only_text-cons (some (c ∷ cs)) (other ∷ args) = ground arith

no_port :
    (server file : Option Bytes) (verbose : Bool) → make_config server none file verbose ≡ none
no_port none file verbose = refl
no_port (some server) file verbose = refl

no_file :
    (server : Option Bytes) (port : Option ℕ) (verbose : Bool)
    → make_config server port none verbose ≡ none
no_file none port verbose = refl
no_file (some server) none verbose = refl
no_file (some server) (some port) verbose = refl

finished :
    (sh : Shell) (s f : Bool) (c : Config)
    → Matches c.upstream_server s
    → Matches c.filter_file f
    → c.filter_root ≡ none
    → accepted_config (finish_arguments sh s f, c) ≡ rest_config sh [] s f c
unfolding finish_arguments
finished sh false f c a b r = ground arith
finished sh true false c a b r =
    ground (arith, no_file c.upstream_server (some c.local_port) (c.verbose || false))
finished sh true true c a b r = elim (Option-cases c.upstream_server) [
  | inl null ↦ absurd (ground arith)
  | inr (server, there) ↦ elim (Option-cases c.filter_file) [
    | inl null ↦ absurd (ground arith)
    | inr (file, here) ↦ ground arith
  ]
]

parse_flags-rest_config :
    (sh : Shell) (flags : List Flag) (s f : Bool) (c : Config) (m : Mem)
    → Plentiful m
    → Matches c.upstream_server s
    → Matches c.filter_file f
    → c.filter_root ≡ none
    → accepted_config (parse_flags sh flags s f c m).0 ≡ rest_config sh flags s f c
unfolding parse_flags finish_arguments
parse_flags-rest_config sh [] s f c m plenty a b r = finished sh s f c a b r
parse_flags-rest_config sh (flag_s arg ∷ flags) true f c m plenty a b r = ground arith
parse_flags-rest_config sh (flag_s none ∷ flags) false f c m plenty a b r =
    ground (arith, only_text-cons none (servers flags))
parse_flags-rest_config sh (flag_s (some text) ∷ flags) false f c m plenty a b r = ground (
  arith,
  only_text-cons (some text) (servers flags),
  malloc-Plentiful m plenty,
  parse_flags-rest_config sh flags true f (record c { upstream_server = some text })
      (record m { live = m.live + 1 }) plenty refl b r,
)
parse_flags-rest_config sh (flag_p arg ∷ flags) s f c m plenty a b r =
    elim (Option-cases (read_port sh arg)) [
      | inl refused ↦ ground (
        arith,
        read_port-spelled_port sh arg,
        no_port (before s c.upstream_server (servers flags)) (before f c.filter_file (files flags))
            (c.verbose || wants_verbose flags),
      )
      | inr (port, accepts) ↦ ground (
        arith,
        read_port-spelled_port sh arg,
        parse_flags-rest_config sh flags s f (record c { local_port = port }) m plenty a b r,
      )
    ]
parse_flags-rest_config sh (flag_f arg ∷ flags) s true c m plenty a b r = ground (
  arith,
  no_file (before s c.upstream_server (servers flags)) (last_port sh c.local_port (ports flags))
      (c.verbose || wants_verbose flags),
)
parse_flags-rest_config sh (flag_f none ∷ flags) s false c m plenty a b r = ground (
  arith,
  only_text-cons none (files flags),
  no_file (before s c.upstream_server (servers flags)) (last_port sh c.local_port (ports flags))
      (c.verbose || wants_verbose flags),
)
parse_flags-rest_config sh (flag_f (some text) ∷ flags) s false c m plenty a b r = ground (
  arith,
  only_text-cons (some text) (files flags),
  no_file (before s c.upstream_server (servers flags)) (last_port sh c.local_port (ports flags))
      (c.verbose || wants_verbose flags),
  malloc-Plentiful m plenty,
  parse_flags-rest_config sh flags s true (record c { filter_file = some text })
      (record m { live = m.live + 1 }) plenty a refl r,
)
parse_flags-rest_config sh (flag_v ∷ flags) s f c m plenty a b r =
    ground
      (arith, parse_flags-rest_config sh flags s f (record c { verbose = true }) m plenty a b r)
parse_flags-rest_config sh (flag_h ∷ flags) s f c m plenty a b r = refl
parse_flags-rest_config sh (unknown ∷ flags) s f c m plenty a b r = refl

-- With memory to spare, `parse_arguments` accepts exactly the command lines that name one server and
-- one filter file, both with a text that is not empty, and that hold neither -h nor an unknown option
-- nor an operand, and in which every -p has a text that strtol reads to its end, as a number from 1 to
-- 65535, and not below 1024 unless the user is root. The configuration holds the two texts, the last
-- port or 53, and whether -v was given.
pub parse_arguments-asked_config :
    (sh : Shell) (flags : List Flag) (m : Mem)
    → Plentiful m
    → accepted_config (parse_arguments sh flags default_config m).0 ≡ asked_config sh flags
unfolding parse_arguments asked_config
parse_arguments-asked_config sh flags m plenty =
    parse_flags-rest_config sh flags false false default_config m plenty refl refl refl
