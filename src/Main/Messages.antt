-- ===== src/Main/Messages.antt =====
-- What parse_arguments of main.c prints. What getopt itself prints is not part of the code.
use personal_test_resolver.Common.{
  ◌≡◌, refl, Bool, true, false, ◌⊎◌, inl, inr, Option, none, some, List, [], ◌∷◌, Bytes, arith,
  if◌then◌else◌, ltb, ◌==◌, not, length, Bool-cases, Option-cases, ℕ,
}
use personal_test_resolver.Console.{
  Console, Part, text, argument, number, natural, print_error, print_usage,
}
use personal_test_resolver.Main.{
  read_port, Shell, Parsed, finish_arguments, parse_flags, Flag, bad_port, flag_s, no_text, flag_p,
  flag_f, flag_v, flag_h, unknown, accepted, parse_arguments, rejected, helped,
}
use Prim.Native.String.{String}
use personal_test_resolver.Server.{Config}
use personal_test_resolver.Common.Memory.{Mem, malloc}
use personal_test_resolver.Filter.Blocking.{is_some}

-- `argv[0]`, the option that getopt does not know, and `argv[optind]` behind the loop.
pub record Words : Type 0 where
  pub program_name : Bytes
  pub optopt : Bytes
  pub operand : Bytes

abbrev complain : String → Console → Console
complain message console = print_error (text message ∷ []) console

-- What -p prints if its argument is refused.
unfoldable pub port_error : Shell → Option Bytes → Option (List Part)
port_error sh none = some (text "Empty port number" ∷ [])
port_error sh (some arg) =
    let n = sh.strtol arg in
    if length arg == 0
    then some (text "Empty port number" ∷ [])
    else if not (length n.rest == 0)
    then some
        (text "Invalid port number: '" ∷ argument arg ∷ text "' (non-numeric characters)" ∷ [])
    else if bad_port n
    then some (
        text "Port number out of range: "
        ∷ number n.negative n.size
        ∷ text " (must be 1-65535)"
        ∷ [])
    else if ltb n.size 1024
    then (if sh.is_root
        then none
        else some (text "Port " ∷ natural n.size ∷ text " requires root privileges" ∷ []))
    else none

-- What the tests behind the loop print.
unfoldable pub finish_output : Words → Shell → Bool → Bool → Console → Console
finish_output words sh has_server has_filter console =
    if sh.has_operand
    then print_usage words.program_name
        (print_error (text "Unexpected argument: " ∷ argument words.operand ∷ []) console)
    else if not has_server
    then print_usage words.program_name
        (complain "Missing required parameter: -s (upstream server)" console)
    else if has_filter
    then console
    else print_usage words.program_name
        (complain "Missing required parameter: -f (filter file)" console)

-- What the loop prints, with `has_server` and `has_filter`.
unfoldable pub flags_output : Words → Shell → List Flag → Bool → Bool → Mem → Console → Console
flags_output words sh [] s f m console = finish_output words sh s f console
flags_output words sh (flag_s arg ∷ flags) s f m console =
    let (granted, m') = malloc m in
    let rest = flags_output words sh flags true f m' console in
    if s
    then complain "Duplicate -s parameter" console
    else if no_text arg
    then complain "Empty server address" console
    else if granted
    then rest
    else complain "Memory allocation failed for server address" console
flags_output words sh (flag_p arg ∷ flags) s f m console =
    let rest = flags_output words sh flags s f m console in
    elim (port_error sh arg) [ none ↦ rest | some message ↦ print_error message console ]
flags_output words sh (flag_f arg ∷ flags) s f m console =
    let (granted, m') = malloc m in
    let rest = flags_output words sh flags s true m' console in
    if f
    then complain "Duplicate -f parameter" console
    else if no_text arg
    then complain "Empty filter file path" console
    else if granted
    then rest
    else complain "Memory allocation failed for filter file path" console
flags_output words sh (flag_v ∷ flags) s f m console = flags_output words sh flags s f m console
flags_output words sh (flag_h ∷ flags) s f m console = print_usage words.program_name console
flags_output words sh (unknown ∷ flags) s f m console =
    print_usage words.program_name
      (print_error (text "Unknown option: -" ∷ argument words.optopt ∷ []) console)

-- What `parse_arguments` prints.
unfoldable pub arguments_output : Words → Shell → List Flag → Mem → Console → Console
arguments_output words sh flags m console = flags_output words sh flags false false m console

-- What a result of `parse_arguments` means for the user: nothing is printed, the usage is printed on
-- stdout, or one error on stderr, which the usage may follow.
abbrev pub Reports : Words → Parsed → Console → Console → Type 0
Reports words accepted before after = after ≡ before
Reports words helped before after = after ≡ print_usage words.program_name before
Reports words rejected before after =
    (message : List Part) × ((after ≡ print_error message before)
      ⊎ (after ≡ print_usage words.program_name (print_error message before)))

port_error-read_port :
    (sh : Shell) (arg : Option Bytes)
    → is_some (read_port sh arg) ≡ not (is_some (port_error sh arg))
unfolding port_error read_port
port_error-read_port sh none = refl
port_error-read_port sh (some arg) = ground arith

finish_output-Reports :
    (words : Words) (sh : Shell) (s f : Bool) (console : Console)
    → Reports words (finish_arguments sh s f) console (finish_output words sh s f console)
unfolding finish_output finish_arguments
finish_output-Reports words sh s f console = elim (Bool-cases sh.has_operand) [
  | inl operand ↦ rw operand (_, inr refl)
  | inr nothing ↦ rw nothing (by_flags s f)
]
  where
    by_flags :
        (s f : Bool)
        → Reports words (if not s then rejected else if f then accepted else rejected) console (
            if not s
            then print_usage words.program_name
                (complain "Missing required parameter: -s (upstream server)" console)
            else if f
            then console
            else print_usage words.program_name
                (complain "Missing required parameter: -f (filter file)" console))
    by_flags false f = (_, inr refl)
    by_flags true false = (_, inr refl)
    by_flags true true = refl

module _ (words : Words) (sh : Shell) (arg : Option Bytes) (flags : List Flag) (s f : Bool) where
  parse_flags-port :
      {port : ℕ} (c : Config) (m : Mem)
      → read_port sh arg ≡ some port
      → parse_flags sh (flag_p arg ∷ flags) s f c m
        ≡ parse_flags sh flags s f (record c { local_port = port }) m
  unfolding parse_flags
  parse_flags-port c m e = ground arith

  parse_flags-no_port :
      (c : Config) (m : Mem)
      → read_port sh arg ≡ none
      → parse_flags sh (flag_p arg ∷ flags) s f c m ≡ ((rejected, c), m)
  unfolding parse_flags
  parse_flags-no_port c m e = ground arith

  flags_output-port :
      (m : Mem) (console : Console)
      → port_error sh arg ≡ none
      → flags_output words sh (flag_p arg ∷ flags) s f m console
        ≡ flags_output words sh flags s f m console
  unfolding flags_output
  flags_output-port m console e = ground arith

  flags_output-no_port :
      {message : List Part} (m : Mem) (console : Console)
      → port_error sh arg ≡ some message
      → flags_output words sh (flag_p arg ∷ flags) s f m console ≡ print_error message console
  unfolding flags_output
  flags_output-no_port m console e = ground arith

flags_output-Reports :
    (words : Words) (sh : Shell) (flags : List Flag) (s f : Bool) (c : Config) (m : Mem)
    (console : Console)
    → Reports words
        (parse_flags sh flags s f c m).0.0
        console
        (flags_output words sh flags s f m console)
unfolding parse_flags flags_output
flags_output-Reports words sh [] s f c m console = finish_output-Reports words sh s f console
flags_output-Reports words sh (flag_s arg ∷ flags) true f c m console = (_, inl refl)
flags_output-Reports words sh (flag_s arg ∷ flags) false f c m console =
    elim (Bool-cases (no_text arg)) [
      | inl empty ↦ rw empty (_, inl refl)
      | inr full ↦ elim (Bool-cases (malloc m).0) [
        | inl granted ↦
            rw (full, granted)
              (flags_output-Reports words sh flags true f (record c { upstream_server = arg })
                (malloc m).1 console)
        | inr refused ↦ rw (full, refused) (_, inl refl)
      ]
    ]
flags_output-Reports words sh (flag_p arg ∷ flags) s f c m console =
    elim (Option-cases (read_port sh arg)) [
      | inl refused ↦ elim (Option-cases (port_error sh arg)) [
        | inl nothing ↦ absurd (ground (arith, port_error-read_port sh arg))
        | inr (message, there) ↦
            rw
              (
                parse_flags-no_port words sh arg flags s f c m refused,
                flags_output-no_port words sh arg flags s f m console there,
              )
              (message, inl refl)
      ]
      | inr (port, accepts) ↦ elim (Option-cases (port_error sh arg)) [
        | inl nothing ↦
            rw
              (
                parse_flags-port words sh arg flags s f c m accepts,
                flags_output-port words sh arg flags s f m console nothing,
              )
              (flags_output-Reports words sh flags s f (record c { local_port = port }) m console)
        | inr (message, there) ↦ absurd (ground (arith, port_error-read_port sh arg))
      ]
    ]
flags_output-Reports words sh (flag_f arg ∷ flags) s true c m console = (_, inl refl)
flags_output-Reports words sh (flag_f arg ∷ flags) s false c m console =
    elim (Bool-cases (no_text arg)) [
      | inl empty ↦ rw empty (_, inl refl)
      | inr full ↦ elim (Bool-cases (malloc m).0) [
        | inl granted ↦
            rw (full, granted)
              (flags_output-Reports words sh flags s true (record c { filter_file = arg })
                (malloc m).1 console)
        | inr refused ↦ rw (full, refused) (_, inl refl)
      ]
    ]
flags_output-Reports words sh (flag_v ∷ flags) s f c m console =
    flags_output-Reports words sh flags s f (record c { verbose = true }) m console
flags_output-Reports words sh (flag_h ∷ flags) s f c m console = refl
flags_output-Reports words sh (unknown ∷ flags) s f c m console = (_, inr refl)

pub parse_arguments-Reports :
    (words : Words) (sh : Shell) (flags : List Flag) (c : Config) (m : Mem) (console : Console)
    → Reports words
        (parse_arguments sh flags c m).0.0
        console
        (arguments_output words sh flags m console)
unfolding parse_arguments arguments_output
parse_arguments-Reports words sh flags c m console =
    flags_output-Reports words sh flags false false c m console
