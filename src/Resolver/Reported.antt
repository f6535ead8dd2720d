-- ===== src/Resolver/Reported.antt =====
-- The last message of forward_query.
use personal_test_resolver.Console.{Console, Part, print_error, verbose_log_raw}
use personal_test_resolver.Common.{◌≡◌, Bool, Option, none, some, List, Bytes, if◌then◌else◌}
use personal_test_resolver.Header.{header_at}
use personal_test_resolver.Resolver.Output.{answer_line}

-- What was printed ends as a result says: with an error message, or with the line on the answer.
abbrev pub Concludes : Option Bytes → Console → Type 0
Concludes none console =
    (before : Console) × (message : List Part) × (console ≡ print_error message before)
Concludes (some received) console =
    (before : Console) × (console
      ≡ verbose_log_raw (answer_line received (header_at received)) before)

-- What comes of the checks.
abbrev checked : Bool → Bytes → Option Bytes
checked fine received = if fine then some received else none
