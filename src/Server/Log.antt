-- ===== src/Server/Log.antt =====
-- The verbose log of process_dns_query and run_server on stdout. What `forward_query` writes to stderr,
-- and the messages of `recvfrom` and `sendto` there, are left out.
use Prim.Native.String.{String}
use personal_test_resolver.Console.{
  Console, Part, text, argument, natural, hexadecimal, verbose_log,
}
use personal_test_resolver.Server.{
  Server, Config, Event, handle_packet, with_mem, process_dns_query, stopped, interrupted,
  timed_out, failed, packet, count_error,
}
use personal_test_resolver.Resolver.{World, Network, forward_query}
use personal_test_resolver.Common.{
  ℕ, Option, none, some, List, [], ◌∷◌, Bytes, length, if◌then◌else◌, ltb, ◌==◌, ◌+◌,
}
use personal_test_resolver.Wire.{
  Message, Question, type_a, type_cname, type_mx, type_aaaa, header_size,
}
use personal_test_resolver.Message.{parse_dns_message, first_question}
use personal_test_resolver.Filter.{is_domain_blocked}

-- A call of `verbose_log` with the server's configuration.
abbrev pub log : Config → List Part → Console → Console
log config message console = verbose_log (some config.verbose) message console

-- What printf writes for `%s`; the questions that are parsed have a name.
abbrev pub shown : Option Bytes → Part
shown none = text "(null)"
shown (some name) = argument name

-- The name of a type in the log.
abbrev pub type_name : ℕ → String
type_name qtype =
    if qtype == type_a
    then "A"
    else if qtype == type_aaaa
    then "AAAA"
    else if qtype == type_mx
    then "MX"
    else if qtype == type_cname
    then "CNAME"
    else "Other"

-- After `forward_query`, by its answer.
abbrev pub answer_log : Config → Option Bytes → Console → Console
answer_log config none console =
    log config (text "  Upstream forwarding failed - sending SERVFAIL" ∷ []) console
answer_log config (some response) console =
    log config
      (text "  Response received from upstream (" ∷ natural (length response) ∷ text " bytes)" ∷ [])
      console

-- A domain that is not blocked.
abbrev pub allowed_log : Config → Option Bytes → Console → Console
allowed_log config answer console = answer_log config answer (
    log config
      (text "  Domain is allowed - forwarding to upstream " ∷ shown config.upstream_server ∷ [])
      console)

abbrev pub blocked_log : Config → Console → Console
blocked_log config console = log config (text "  Domain is BLOCKED - sending NXDOMAIN" ∷ []) console

abbrev pub unsupported_log : Config → Console → Console
unsupported_log config console =
    log config (text "  Unsupported query type - sending NOTIMPL" ∷ []) console

unfoldable pub filtered_log : Network → Config → Message → Question → World → Console → Console
filtered_log net config query question w console =
    let (blocked, m) = is_domain_blocked config.filter_root question.qname w.mem in
    if blocked
    then blocked_log config console
    else allowed_log config (forward_query net (some query) config.upstream_server (with_mem w m)).0
        console

-- The two lines on the question.
unfoldable pub question_log : Config → Question → Console → Console
question_log config question console =
    log config
      (text "  Type: "
        ∷ natural question.qtype
        ∷ text " ("
        ∷ text (type_name question.qtype)
        ∷ text ")"
        ∷ [])
      (log config (text "  Domain: " ∷ shown question.qname ∷ []) console)

-- The three lines on the header.
abbrev pub received_log : Config → Message → Console → Console
received_log config query console =
    log config (text "  Questions: " ∷ natural query.header.qdcount ∷ []) (
      log config (text "  Transaction ID: 0x" ∷ hexadecimal 4 query.header.id ∷ [])
        (log config (text "Received DNS query:" ∷ []) console))

-- Behind the parser.
unfoldable pub query_log : Network → Config → Message → World → Console → Console
query_log net config query w console =
    if query.header.qdcount == 0
    then log config (text "  No questions in query - sending FORMERR" ∷ [])
        (received_log config query console)
    else elim (first_question query) [
      | none ↦ received_log config query console
      | some question ↦
          if question.qtype == type_a
          then filtered_log net config query question w
              (question_log config question (received_log config query console))
          else unsupported_log config
              (question_log config question (received_log config query console))
    ]

-- `process_dns_query`.
unfoldable pub process_log : Network → Config → Bytes → World → Console → Console
process_log net config buffer w console =
    let (parsed, m) = parse_dns_message (some buffer) w.mem in
    elim parsed [
      | none ↦ log config (text "Failed to parse DNS query - sending FORMERR" ∷ []) console
      | some query ↦ query_log net config query (with_mem w m) console
    ]

-- The sender of a packet, as `inet_ntoa` and `ntohs` show it.
pub record Client : Type 0 where
  pub address : Bytes
  pub port : ℕ

-- After `sendto`: -1 is reported on stderr.
abbrev pub sent_log : Config → Bytes → Option ℕ → Console → Console
sent_log config response none console = console
sent_log config response (some sent_len) console =
    if sent_len == length response
    then log config (text "Response sent (" ∷ natural (length response) ∷ text " bytes)" ∷ [])
        console
    else log config
        (text "Warning: Partial send ("
          ∷ natural sent_len
          ∷ text "/"
          ∷ natural (length response)
          ∷ text " bytes)"
          ∷ [])
        console

abbrev pub reply_log : Config → Option Bytes → (Bytes → Option ℕ) → Console → Console
reply_log config none sendto console = log config (text "Failed to process query" ∷ []) console
reply_log config (some response) sendto console = sent_log config response (sendto response) console

abbrev short_log : Config → ℕ → Client → Console → Console
short_log config recv_len client console =
    log config
      (text "Received packet too short ("
        ∷ natural recv_len
        ∷ text " bytes) from "
        ∷ argument client.address
        ∷ text ":"
        ∷ natural client.port
        ∷ [])
      console

abbrev pub counted_log : Config → ℕ → ℕ → Client → Console → Console
counted_log config query_count recv_len client console =
    log config
      (text "\n[Query #"
        ∷ natural query_count
        ∷ text "] from "
        ∷ argument client.address
        ∷ text ":"
        ∷ natural client.port
        ∷ text " ("
        ∷ natural recv_len
        ∷ text " bytes)"
        ∷ [])
      console

-- A packet in the loop, as `handle_packet` treats it.
unfoldable pub packet_log :
    Config → Bytes → Network → (Bytes → Option ℕ) → Client → Server → Console → Console
packet_log config query_buffer net sendto client s console =
    let recv_len = length query_buffer in
    if ltb recv_len header_size
    then short_log config recv_len client console
    else reply_log config (process_dns_query net config query_buffer s.world).0 sendto (
        process_log net config query_buffer s.world
          (counted_log config (s.counts.query_count + 1) recv_len client console))

-- The loop. `client n` is the sender of the packet that is received n rounds from now.
unfoldable pub serve_log : Config → List Event → (ℕ → Client) → Server → Console → Console
serve_log config [] client s console = console
serve_log config (stopped ∷ events) client s console = console
serve_log config (interrupted running ∷ events) client s console =
    let rest = serve_log config events (λ n. client (n + 1)) s console in
    if running then rest else console
serve_log config (timed_out ∷ events) client s console =
    serve_log config events (λ n. client (n + 1)) s console
serve_log config (failed ∷ events) client s console =
    serve_log config events (λ n. client (n + 1)) (record s { counts = count_error s.counts })
      console
serve_log config (packet buffer net sendto ∷ events) client s console =
    serve_log config events (λ n. client (n + 1)) (handle_packet config buffer net sendto s)
      (packet_log config buffer net sendto (client 0) s console)

-- The lines ahead of the loop.
abbrev pub greeting_log : Config → Console → Console
greeting_log config console =
    log config (text "Press Ctrl+C to stop" ∷ [])
      (log config (text "DNS server listening on port " ∷ natural config.local_port ∷ []) console)
