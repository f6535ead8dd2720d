-- ===== src/Tests/Rounds.antt =====
-- The server's loop over two queries that can be answered, and its log.
use personal_test_resolver.Common.{
  ◌↔◌, ℕ, Option, ◌≡◌, none, some, [], ◌∷◌, refl, true, List, length, Bytes, ◌++◌,
}
use personal_test_resolver.Tests.Packets.{
  memory, query, query_bytes, question, query_bytes-IsByte, parsed_query,
}
use personal_test_resolver.Tests.Domains.{
  loaded_file, is_loaded, small, file_text, file_system, normal,
}
use personal_test_resolver.Tests.Serving.{question_taken, net, config_for, listed, start}
use personal_test_resolver.Server.{
  Config, serve, Event, Setup, packet, failed, stopped, process_dns_query,
}
use personal_test_resolver.Server.Rounds.{Rounds, serve-Rounds}
use personal_test_resolver.Resolver.{World}
use personal_test_resolver.Console.{Console, text, argument}
use personal_test_resolver.Response.Fields.{error_bytes}
use personal_test_resolver.Server.Log.{Client, log, process_log, question_log, received_log}
use personal_test_resolver.Server.Told.{process_log-verdict, answer_told}
use personal_test_resolver.Resolver.Forwarded.{IsForwarded}
use personal_test_resolver.Server.Served.{IsQuery, serve_answers}
use personal_test_resolver.Message.Correct.{parse_dns_message-IsMessage}
use personal_test_resolver.Main.Policy.{AreExpected, serve-load_filter_file}
use personal_test_resolver.Filter.Loading.{entries}
use personal_test_resolver.Filter.File.{read_lines}
use personal_test_resolver.Server.Policy.{answer_or_servfail}

query_bytes-IsQuery : IsQuery query_bytes
query_bytes-IsQuery = record {
  query = query;
  question = question;
  size = 9;
  bytes = query_bytes-IsByte;
  message =
      (parse_dns_message-IsMessage query_bytes memory query query_bytes-IsByte refl).0 parsed_query;
  first = refl;
  takes = question_taken;
}

abbrev rounds : List Event
rounds =
    packet query_bytes net (λ r. some (length r))
    ∷ failed
    ∷ packet query_bytes net (λ r. none)
    ∷ stopped
    ∷ packet query_bytes net (λ r. none)
    ∷ []

serve_answers_example : length (serve (config_for listed) rounds start).0.sent ≡ 2
serve_answers_example =
    serve_answers (config_for listed) rounds start
      (query_bytes-IsQuery, (query_bytes-IsQuery, (query_bytes-IsQuery, tt))) refl

serve-Rounds_example :
    Rounds (config_for listed) rounds start (serve (config_for listed) rounds start).0
serve-Rounds_example = serve-Rounds (config_for listed) rounds start

abbrev ready : Setup
ready = record { socket_made = true; reuse_set = true; timeout_set = true; bound = true }

abbrev world : World
world = record { mem = memory; sockets = 0; lists = 0 }

-- 1.1:9, whichever packet it is
abbrev peer : ℕ → Client
peer n = record { address = b'1' ∷ b'.' ∷ b'1' ∷ []; port = 9 }

abbrev blank_console : Console
blank_console = record { out = []; err = [] }

abbrev loud : Config
loud = record (config_for listed) { verbose = true }

-- Nothing is blocked.
abbrev lenient : Config
lenient = record (config_for []) { verbose = true }

process_log-verdict_example :
    (answer : Option Bytes) × ((r : Bytes)
      → (answer ≡ some r) ↔ IsForwarded net query_bytes (b'8' ∷ b'.' ∷ b'8' ∷ []) r)
    × ((process_dns_query net lenient query_bytes start.world).0
        ≡ some (answer_or_servfail answer (error_bytes query.header 2 query_bytes 9)))
    × (process_log net lenient query_bytes start.world blank_console
        ≡ log lenient (answer_told answer) (
            log lenient
              (text "  Domain is allowed - forwarding to upstream "
                ∷ argument (b'8' ∷ b'.' ∷ b'8' ∷ [])
                ∷ [])
              (question_log lenient question (received_log lenient query blank_console))))
process_log-verdict_example =
    process_log-verdict net lenient (b'8' ∷ b'.' ∷ b'8' ∷ []) [] query_bytes start.world query
      question 9 normal blank_console
      (record {
        bytes = query_bytes-IsByte;
        plenty = refl;
        parses = parsed_query;
        first = refl;
        takes = question_taken;
      })
      (record { start = memory; plenty = refl; root = refl }) refl refl

serve-load_filter_file_example :
    (responses : List Bytes) × ((serve
        (record (config_for []) { filter_root = some small })
        rounds
        start).0.sent
      ≡ [] ++ responses)
    × AreExpected
        (b'8' ∷ b'.' ∷ b'8' ∷ [])
        (entries (read_lines [] file_text))
        rounds
        (query_bytes-IsQuery, (query_bytes-IsQuery, (query_bytes-IsQuery, tt)))
        responses
serve-load_filter_file_example =
    serve-load_filter_file file_system normal file_text memory loaded_file (config_for [])
      (b'8' ∷ b'.' ∷ b'8' ∷ []) rounds start
      (query_bytes-IsQuery, (query_bytes-IsQuery, (query_bytes-IsQuery, tt))) refl refl refl
      is_loaded refl
