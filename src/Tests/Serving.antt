-- ===== src/Tests/Serving.antt =====
-- The server on a query for a.b, with an upstream server that answers at its second attempt.
use personal_test_resolver.Resolver.Output.{Errors}
use personal_test_resolver.Console.{text}
use personal_test_resolver.Server.Log.{process_log, log}
use personal_test_resolver.Common.{
  ◌≡◌, none, some, List, [], ◌∷◌, Bytes, length, arith, refl, Option, ◌==◌, if◌then◌else◌, true,
  false, equal, ◌↔◌,
}
use personal_test_resolver.Common.Memory.{malloc}
use personal_test_resolver.Tests.Packets.{
  query_bytes, query, question, query_header, memory, query_bytes-IsByte, parsed_query,
}
use personal_test_resolver.Server.Policy.{Filters, Asks, process-covered}
use personal_test_resolver.Server.Silence.{process-header_only, process-not_message}
use personal_test_resolver.Response.{question_size, skip_name}
use personal_test_resolver.Server.Answers.{IsAnswer, process_dns_query-IsAnswer}
use personal_test_resolver.Server.{
  Server, Event, Config, process_dns_query, timed_out, no_counts, serve, packet, interrupted,
}
use personal_test_resolver.Server.Leaks.{Clean, process_dns_query-Holds}
use personal_test_resolver.Resolver.{
  World, forward_query, Network, forward_raw, resolve_upstream_address, with_socket, exchange,
  retry, check_response,
}
use personal_test_resolver.Server.Loop.{Consistent, serve-Consistent}
use personal_test_resolver.Filter.Names.{name_labels}
use personal_test_resolver.Filter.Lists.{add_domains, any_covers}
use personal_test_resolver.Response.Fields.{error_bytes}
use personal_test_resolver.Trie.{empty_node}
use personal_test_resolver.Header.{parse_dns_header, header_at}
use personal_test_resolver.Domain.{
  normalize_domain, normalize_text, skip_spaces, copy_lower, finish_domain, finish_text, strip_dots,
  bad_dots, is_space, to_lower,
}
use personal_test_resolver.Encode.{strtok}
use personal_test_resolver.Resolver.Forwarded.{IsForwarded, forward_query-IsForwarded}

-- id 0x1234, QR and RD set
abbrev answer_bytes : Bytes
answer_bytes = 0x12 ∷ 0x34 ∷ 0x81 ∷ 0x00 ∷ 0 ∷ 0 ∷ 0 ∷ 0 ∷ 0 ∷ 0 ∷ 0 ∷ 0 ∷ []

abbrev pub net : Network
net = record {
  is_ipv4 = λ s. true;
  getaddrinfo = λ s. none;
  socket_made = true;
  timeout_set = true;
  sendto = λ i raw. some (length raw);
  recvfrom = λ i. if i == 0 then none else some answer_bytes;
}

abbrev world : World
world = record { mem = memory; sockets = 1; lists = 0 }

-- 8.8
abbrev pub upstream : Option Bytes
upstream = some (b'8' ∷ b'.' ∷ b'8' ∷ [])

-- the filter's domains: "b"
abbrev pub listed : List Bytes
listed = (b'b' ∷ []) ∷ []

abbrev name : Bytes
name = b'a' ∷ b'.' ∷ b'b' ∷ []

abbrev pub config_for : List Bytes → Config
config_for ds = record {
  upstream_server = upstream;
  local_port = 53;
  filter_file = none;
  verbose = false;
  filter_root = some (add_domains (empty_node none) ds memory).0;
}

forwarded : (forward_query net (some query) upstream world).0 ≡ some answer_bytes
unfolding forward_query forward_raw resolve_upstream_address with_socket exchange retry
    check_response malloc parse_dns_header header_at
forwarded = refl

pub question_taken : question_size (some query_bytes) ≡ some 9
unfolding question_size skip_name
question_taken = refl

asked : Asks query_bytes world query question 9
asked = record {
  bytes = query_bytes-IsByte;
  plenty = refl;
  parses = parsed_query;
  first = refl;
  takes = question_taken;
}

filtered : (ds : List Bytes) → Filters (config_for ds) ds
filtered ds = record { start = memory; plenty = refl; root = refl }

is_covered : any_covers listed name ≡ true
unfolding name_labels normalize_domain normalize_text skip_spaces copy_lower finish_domain
    finish_text strip_dots bad_dots is_space to_lower strtok equal
is_covered = refl

covered_reply :
    (process_dns_query net (config_for listed) query_bytes world).0
    ≡ some (error_bytes query_header 3 query_bytes 9)
covered_reply =
    process-covered net (config_for listed) listed query_bytes world query question 9 name asked
      (filtered listed) refl refl is_covered

process_dns_query-Holds_example :
    Clean world (process_dns_query net (config_for listed) query_bytes world)
process_dns_query-Holds_example =
    process_dns_query-Holds net (config_for listed) query_bytes world query_bytes-IsByte

process_dns_query-IsAnswer_example : IsAnswer query_bytes (error_bytes query_header 3 query_bytes 9)
process_dns_query-IsAnswer_example =
    process_dns_query-IsAnswer net (config_for listed) query_bytes world query_bytes-IsByte
      covered_reply

-- a query without questions
abbrev bare : Bytes
bare = 0x12 ∷ 0x34 ∷ 0x01 ∷ 0x00 ∷ 0 ∷ 0 ∷ 0 ∷ 0 ∷ 0 ∷ 0 ∷ 0 ∷ 0 ∷ []

process-header_only_example : (process_dns_query net (config_for listed) bare world).0 ≡ none
process-header_only_example =
    process-header_only net (config_for listed) bare world (omega arith) refl

abbrev pub start : Server
start = record { counts = no_counts; world = world; sent = [] }

abbrev pub events : List Event
events =
    timed_out
    ∷ packet query_bytes net (λ r. some (length r))
    ∷ packet [] net (λ r. none)
    ∷ interrupted false
    ∷ []

serve-Consistent_example : Consistent (serve (config_for listed) events start).0
serve-Consistent_example =
    serve-Consistent (config_for listed) events start
      (record { answered = omega arith; missing = omega arith; classified = omega arith })

forward_query-IsForwarded_example :
    ((forward_query net (some query) upstream world).0 ≡ some answer_bytes)
    ↔ IsForwarded net query_bytes (b'8' ∷ b'.' ∷ b'8' ∷ []) answer_bytes
forward_query-IsForwarded_example =
    forward_query-IsForwarded net query (b'8' ∷ b'.' ∷ b'8' ∷ []) world query_bytes answer_bytes
      refl refl

process-not_message_example :
    ((process_dns_query net (config_for listed) [] world).0 ≡ none)
    × (process_log net (config_for listed) [] world (record { out = []; err = [] })
        ≡ log
            (config_for listed)
            (text "Failed to parse DNS query - sending FORMERR" ∷ [])
            (record { out = []; err = [] }))
process-not_message_example =
    process-not_message net (config_for listed) [] world (record { out = []; err = [] }) tt
      (λ query v. absurd (omega (arith, v.long)))

abbrev errors : Errors
errors = record {
  address_error = [];
  socket_error = [];
  timeout_error = [];
  send_error = λ i. [];
  recv_error = λ i. none;
}
