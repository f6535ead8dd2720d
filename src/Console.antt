-- ===== src/Console.antt =====
-- utils.c: what the program prints. A call of printf is its text in parts: the pieces of the format, and
-- the arguments as they are passed.
use Prim.Native.String.{String}
use personal_test_resolver.Common.{
  ℕ, Bool, false, Option, none, some, List, [], ◌∷◌, ◌++◌, Bytes, if◌then◌else◌,
}

-- `hexadecimal width n` is `n` in base 16, filled with zeros up to that width; `quotient digits a b` is
-- the value a / b of a double, printed with that many digits.
pub data Part : Type 0 where
  text : String → Part
  argument : Bytes → Part
  number : Bool → ℕ → Part
  hexadecimal : ℕ → ℕ → Part
  quotient : ℕ → ℕ → ℕ → Part

-- stdout and stderr
pub record Console : Type 0 where
  pub out : List Part
  pub err : List Part

-- A number that is not negative.
abbrev pub natural : ℕ → Part
natural n = number false n

abbrev pub printf : List Part → Console → Console
printf parts c = record c { out = c.out ++ parts }

abbrev fprintf_stderr : List Part → Console → Console
fprintf_stderr parts c = record c { err = c.err ++ parts }

-- The message is the format of the caller with its arguments.
unfoldable pub print_error : List Part → Console → Console
print_error message c =
    fprintf_stderr (text "\n" ∷ [])
      (fprintf_stderr message (fprintf_stderr (text "ERROR: " ∷ []) c))

-- `config->verbose`, or NULL for the configuration.
unfoldable pub verbose_log : Option Bool → List Part → Console → Console
verbose_log none message c = c
verbose_log (some verbose) message c =
    if verbose
    then printf (text "\n" ∷ []) (printf message (printf (text "[VERBOSE] " ∷ []) c))
    else c

unfoldable pub verbose_log_raw : List Part → Console → Console
verbose_log_raw message c =
    fprintf_stderr (text "\n" ∷ [])
      (fprintf_stderr message (fprintf_stderr (text "[VERBOSE] " ∷ []) c))

unfoldable pub print_usage : Bytes → Console → Console
print_usage program_name c =
    printf
      (text "Usage: "
        ∷ argument program_name
        ∷ text " -s server [-p port] -f filter_file [-v]\n"
        ∷ text "\n"
        ∷ text "Filtrujúci DNS resolver\n"
        ∷ text "\n"
        ∷ text "Povinné parametre:\n"
        ∷ text "  -s server        IP adresa alebo hostname upstream DNS servera\n"
        ∷ text "  -f filter_file   Súbor so zoznamom nežiadúcich domén\n"
        ∷ text "\n"
        ∷ text "Voliteľné parametre:\n"
        ∷ text "  -p port          Port pre prijímanie dotazov (default: 53)\n"
        ∷ text "  -v               Verbose mode - vypisuje informácie o preklade\n"
        ∷ text "\n"
        ∷ text "Príklad:\n"
        ∷ text "  sudo "
        ∷ argument program_name
        ∷ text " -s 8.8.8.8 -p 5353 -f blocked_domains.txt -v\n"
        ∷ text "\n"
        ∷ [])
      c
