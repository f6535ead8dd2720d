-- ===== src/Server.antt =====
-- dns_server.c: the decision on one query, and the loop. What the system's calls return is an
-- argument: `Network` for the upstream server, `Setup` and `Event` for the server's own socket.
pub mod Steps
pub mod Leaks
pub mod Answers
pub mod Loop
pub mod Policy
pub mod Silence
pub mod Served
pub mod Rounds
pub mod Log
pub mod Quiet
pub mod Told
pub mod Statistics
use personal_test_resolver.Common.{
  ℕ, ◌+◌, bit_and, Bool, true, false, Option, none, some, List, [], ◌∷◌, ◌++◌, Bytes, length,
  if◌then◌else◌, ltb, ◌==◌, not,
}
use personal_test_resolver.Common.Memory.{Mem}
use personal_test_resolver.Wire.{
  Message, type_a, rcode_noerror, rcode_formerr, rcode_servfail, rcode_nxdomain, rcode_notimpl,
  header_size, Question,
}
use personal_test_resolver.Resolver.{Network, free_buffer, World, forward_query, close_socket}
use personal_test_resolver.Trie.{Node}
use personal_test_resolver.Header.{parse_dns_header}
use personal_test_resolver.Response.{build_error_response}
use personal_test_resolver.Message.{parse_dns_message, free_dns_message, first_question}
use personal_test_resolver.Filter.{is_domain_blocked}

-- server_config_t
pub record Config : Type 0 where
  pub upstream_server : Option Bytes
  pub local_port : ℕ
  pub filter_file : Option Bytes
  pub verbose : Bool
  pub filter_root : Option Node

abbrev pub with_mem : World → Mem → World
with_mem w m = record w { mem = m }

-- `build_error_response`, and `free_dns_message` whatever it returns.
unfoldable pub reply_error : Message → ℕ → World → Option Bytes × World
reply_error query rcode w =
    let (built, m) = build_error_response (some query) rcode w.mem in
    (built, with_mem w (free_dns_message query m).1)

-- The query goes upstream; without an answer the reply is SERVFAIL.
unfoldable pub reply_forwarded : Network → Config → Message → World → Option Bytes × World
reply_forwarded net config query w =
    let (answer, w1) = forward_query net (some query) config.upstream_server w in
    elim answer [
      | none ↦ reply_error query rcode_servfail w1
      | some response ↦ (some response, with_mem w1 (free_dns_message query w1.mem).1)
    ]

-- The filter decides on a question of type A.
unfoldable pub reply_filtered : Network → Config → Message → Question → World → Option Bytes × World
reply_filtered net config query question w =
    let (blocked, m) = is_domain_blocked config.filter_root question.qname w.mem in
    if blocked
    then reply_error query rcode_nxdomain (with_mem w m)
    else reply_forwarded net config query (with_mem w m)

-- Behind the parser. `questions[0]` is there whenever `qdcount` is not 0.
unfoldable pub reply_to : Network → Config → Message → World → Option Bytes × World
reply_to net config query w =
    if query.header.qdcount == 0
    then reply_error query rcode_formerr w
    else elim (first_question query) [
      | none ↦ (none, w)
      | some question ↦
          if question.qtype == type_a
          then reply_filtered net config query question w
          else reply_error query rcode_notimpl w
    ]

-- `process_dns_query`: the response, or `none` for -1.
unfoldable pub process_dns_query : Network → Config → Bytes → World → Option Bytes × World
process_dns_query net config buffer w =
    let (parsed, m) = parse_dns_message (some buffer) w.mem in
    elim parsed [
      | none ↦ (none, with_mem w m)
      | some query ↦ reply_to net config query (with_mem w m)
    ]

-- What the calls of `init_udp_server` return.
pub record Setup : Type 0 where
  pub socket_made : Bool
  pub reuse_set : Bool
  pub timeout_set : Bool
  pub bound : Bool

-- `init_udp_server`: whether it returns a descriptor.
unfoldable pub init_udp_server : Setup → World → Bool × World
init_udp_server setup w =
    let opened = record w { sockets = w.sockets + 1 } in
    if not setup.socket_made
    then (false, w)
    else if not setup.reuse_set
    then (false, close_socket opened)
    else if not setup.timeout_set
    then (false, close_socket opened)
    else if not setup.bound
    then (false, close_socket opened)
    else (true, opened)

-- The counters of `run_server`.
pub record Counts : Type 0 where
  pub query_count : ℕ
  pub blocked_count : ℕ
  pub forwarded_count : ℕ
  pub error_count : ℕ

-- The loop's state: the counters, the world, and the responses that were given to `sendto`.
pub record Server : Type 0 where
  pub counts : Counts
  pub world : World
  pub sent : List Bytes

-- One round of the loop: `server_running` is 0 at its head; or `recvfrom` is interrupted, with the
-- flag as it is then, times out, fails, or receives a packet, with the answers of the upstream
-- calls and of `sendto`, which is given the response.
pub data Event : Type 0 where
  stopped : Event
  interrupted : Bool → Event
  timed_out : Event
  failed : Event
  packet : Bytes → Network → (Bytes → Option ℕ) → Event

abbrev pub count_error : Counts → Counts
count_error c = record c { error_count = c.error_count + 1 }

abbrev pub count_rcode : ℕ → Counts → Counts
count_rcode rcode c =
    if rcode == rcode_nxdomain
    then record c { blocked_count = c.blocked_count + 1 }
    else if rcode == rcode_noerror
    then record c { forwarded_count = c.forwarded_count + 1 }
    else c

-- The response's code decides which counter goes up.
unfoldable pub count_response : Bytes → Counts → Counts
count_response response c =
    if ltb (length response) header_size then c else elim (parse_dns_header (some response)) [
      | none ↦ c
      | some resp_header ↦ count_rcode (bit_and resp_header.flags 0x0f) c
    ]

abbrev pub count_sent : Option ℕ → Counts → Counts
count_sent none c = count_error c
count_sent (some sent_len) c = c

-- A response is counted, sent and freed.
unfoldable pub send_response : (Bytes → Option ℕ) → Bytes → Server → Server
send_response sendto response s = record {
  counts = count_sent (sendto response) (count_response response s.counts);
  world = free_buffer s.world;
  sent = s.sent ++ response ∷ [];
}

-- A packet: too short, or a query.
unfoldable pub handle_packet : Config → Bytes → Network → (Bytes → Option ℕ) → Server → Server
handle_packet config query_buffer net sendto s =
    let (result, w) = process_dns_query net config query_buffer s.world in
    let c : Counts = record (s.counts) { query_count = s.counts.query_count + 1 } in
    if ltb (length query_buffer) header_size
    then record s { counts = count_error s.counts }
    else elim result [
      | none ↦ record s { counts = count_error c; world = w }
      | some response ↦ send_response sendto response (record s { counts = c; world = w })
    ]

-- `while (server_running)`: the state, and whether the loop has ended.
unfoldable pub serve : Config → List Event → Server → Server × Bool
serve config [] s = (s, false)
serve config (stopped ∷ events) s = (s, true)
serve config (interrupted running ∷ events) s =
    let rest = serve config events s in if running then rest else (s, true)
serve config (timed_out ∷ events) s = serve config events s
serve config (failed ∷ events) s = serve config events (record s { counts = count_error s.counts })
serve config (packet buffer net sendto ∷ events) s =
    serve config events (handle_packet config buffer net sendto s)

abbrev pub no_counts : Counts
no_counts = record { query_count = 0; blocked_count = 0; forwarded_count = 0; error_count = 0 }

-- ERR_SUCCESS, ERR_INVALID_ARGS, ERR_SOCKET_CREATE
abbrev pub err_success : ℕ
err_success = 0

abbrev pub err_invalid_args : ℕ
err_invalid_args = 1

abbrev pub err_socket_create : ℕ
err_socket_create = 2

-- `run_server`: the code that it returns, if the loop has ended, and the state.
unfoldable pub run_server : Option Config → Setup → List Event → World → Option ℕ × Server
run_server none setup events w =
    (some err_invalid_args, record { counts = no_counts; world = w; sent = [] })
run_server (some config) setup events w =
    let (made, w1) = init_udp_server setup w in
    let start : Server = record { counts = no_counts; world = w1; sent = [] } in
    let (s, ended) = serve config events start in
    if not made
    then (some err_socket_create, start)
    else if ended
    then (some err_success, record s { world = close_socket s.world })
    else (none, s)
