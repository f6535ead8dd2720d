-- ===== src/Server/Served.antt =====
-- Every query that can be answered is answered.
use personal_test_resolver.Common.{
  ℕ, ◌+◌, ◌≡◌, true, false, Option, some, List, [], ◌∷◌, Bytes, arith, Option-cases, inl, inr,
  Bool-cases, ◌==◌, All, IsByte, if◌then◌else◌, length, suc, length-append,
}
use personal_test_resolver.Server.{
  reply_to, process_dns_query, reply_error, Config, reply_filtered, reply_forwarded, with_mem,
  handle_packet, Event, serve, send_response, interrupted, Server, packet, count_error, stopped,
  timed_out, failed,
}
use personal_test_resolver.Resolver.{Network, World, forward_query}
use personal_test_resolver.Response.{
  build_error_response, allocate_response, write_response, question_size,
}
use personal_test_resolver.Message.{free_dns_message, parse_dns_message, first_question}
use personal_test_resolver.Wire.{Message, Question}
use personal_test_resolver.Common.Memory.{Plentiful, Mem, malloc_keeps}
use personal_test_resolver.Server.Policy.{
  Asks, has_questions, process-other_type, reply_error_bytes, reply_forwarded_answer,
  answer_or_servfail,
}
use personal_test_resolver.Message.Plenty.{parse_dns_message_keeps}
use personal_test_resolver.Filter.Scarce.{is_domain_blocked_keeps}
use personal_test_resolver.Filter.{is_domain_blocked}
use personal_test_resolver.Response.Fields.{error_bytes}
use personal_test_resolver.Server.Steps.{
  process-parsed, reply-filtered, filtered-blocked, filtered-allowed, process-unparsed,
  forwarded-failed, forwarded-answered,
}
use personal_test_resolver.Resolver.Plenty.{forward_query_keeps}
use personal_test_resolver.Message.Correct.{parse_dns_message-IsMessage, IsMessage}

-- With memory to spare, a packet of bytes that parses, and whose first question is uncompressed, is
-- answered: whatever the filter holds, whatever the question asks for and whatever the network does.
pub process_dns_query_answers :
    (net : Network) (config : Config) (buffer : Bytes) (w : World) (query : Message)
    (question : Question) (size : ℕ)
    → Asks buffer w query question size
    → (response : Bytes) × ((process_dns_query net config buffer w).0 ≡ some response)
process_dns_query_answers net config buffer w query question size a =
    let more = has_questions query a.first in
    let plenty = parse_dns_message_keeps buffer w.mem a.plenty in
    let v = with_mem w (parse_dns_message (some buffer) w.mem).1 in
    elim (Bool-cases (question.qtype == 1)) [
      | inr other ↦ (
        error_bytes query.header 4 buffer size,
        process-other_type net config buffer w query question size a other,
      )
      | inl type_a ↦
          let keeps = is_domain_blocked_keeps config.filter_root question.qname v.mem plenty in
          let u = with_mem v (is_domain_blocked config.filter_root question.qname v.mem).1 in
          elim (Bool-cases (is_domain_blocked config.filter_root question.qname v.mem).0) [
            | inl blocked ↦ (
              error_bytes query.header 3 buffer size,
              rw
                  (
                    process-parsed net config buffer w a.parses,
                    reply-filtered net config query v a.first more type_a,
                    filtered-blocked net config query v question blocked,
                  )
                  (reply_error_bytes buffer w u query question size 3 a keeps (omega arith)),
            )
            | inr allowed ↦ (
              answer_or_servfail (forward_query net (some query) config.upstream_server u).0
                  (error_bytes query.header 2 buffer size),
              rw
                  (
                    process-parsed net config buffer w a.parses,
                    reply-filtered net config query v a.first more type_a,
                    filtered-allowed net config query v question allowed,
                  )
                  (reply_forwarded_answer net config buffer w u query question size a keeps),
            )
          ]
    ]

build_error_response_keeps :
    (query : Message) (rcode : ℕ) (m : Mem)
    → Plentiful m
    → Plentiful (build_error_response (some query) rcode m).1
unfolding build_error_response allocate_response write_response
build_error_response_keeps query rcode m plenty = ground (arith, malloc_keeps m plenty)

reply_error_keeps :
    (query : Message) (rcode : ℕ) (v : World)
    → Plentiful v.mem
    → Plentiful (reply_error query rcode v).1.mem
unfolding reply_error free_dns_message
reply_error_keeps query rcode v plenty = build_error_response_keeps query rcode v.mem plenty

module _ (net : Network) (config : Config) where
  reply_forwarded_keeps :
      (query : Message) (v : World)
      → Plentiful v.mem
      → Plentiful (reply_forwarded net config query v).1.mem
  reply_forwarded_keeps query v plenty =
      let keeps = forward_query_keeps net (some query) config.upstream_server v plenty in
      elim (Option-cases (forward_query net (some query) config.upstream_server v).0) [
        | inl fails ↦
            rw (forwarded-failed net config query v fails) (reply_error_keeps query 2 _ keeps)
        | inr (r, answers) ↦
            rw (forwarded-answered net config query v answers) (unfold free_dns_message in keeps)
      ]

  reply_filtered_keeps :
      (query : Message) (question : Question) (v : World)
      → Plentiful v.mem
      → Plentiful (reply_filtered net config query question v).1.mem
  reply_filtered_keeps query question v plenty =
      let keeps = is_domain_blocked_keeps config.filter_root question.qname v.mem plenty in
      elim (Bool-cases (is_domain_blocked config.filter_root question.qname v.mem).0) [
        | inl blocked ↦
            rw (filtered-blocked net config query v question blocked)
              (reply_error_keeps query 3 _ keeps)
        | inr allowed ↦
            rw (filtered-allowed net config query v question allowed)
              (reply_forwarded_keeps query _ keeps)
      ]

  reply_to_keeps :
      (query : Message) (v : World)
      → Plentiful v.mem
      → Plentiful (reply_to net config query v).1.mem
  unfolding reply_to
  reply_to_keeps query v plenty = elim (Option-cases (first_question query)) [
    | inl nothing ↦ ground (arith, reply_error_keeps query 1 v plenty, plenty)
    | inr (question, first) ↦ ground (
      arith,
      reply_error_keeps query 1 v plenty,
      reply_error_keeps query 4 v plenty,
      reply_filtered_keeps query question v plenty,
    )
  ]

  pub process_dns_query_keeps :
      (buffer : Bytes) (w : World)
      → Plentiful w.mem
      → Plentiful (process_dns_query net config buffer w).1.mem
  process_dns_query_keeps buffer w plenty =
      let keeps = parse_dns_message_keeps buffer w.mem plenty in
      elim (Option-cases (parse_dns_message (some buffer) w.mem).0) [
        | inl fails ↦ rw (process-unparsed net config buffer w fails) keeps
        | inr (query, parses) ↦
            rw (process-parsed net config buffer w parses) (reply_to_keeps query _ keeps)
      ]

-- A packet that can be answered: a message of which the first question is uncompressed.
pub record IsQuery (buffer : Bytes) : Type 0 where
  pub query : Message
  pub question : Question
  pub size : ℕ
  pub bytes : All IsByte buffer
  pub message : IsMessage buffer query
  pub first : first_question query ≡ some question
  pub takes : question_size (some buffer) ≡ some size

pub IsQuery-Asks :
    {buffer : Bytes} (v : IsQuery buffer) (w : World)
    → Plentiful w.mem
    → Asks buffer w v.query v.question v.size
IsQuery-Asks {buffer} v w plenty = record {
  bytes = v.bytes;
  plenty = plenty;
  parses = (parse_dns_message-IsMessage buffer w.mem v.query v.bytes plenty).1 v.message;
  first = v.first;
  takes = v.takes;
}

pub handle_packet_answers :
    (config : Config) (buffer : Bytes) (net : Network) (sendto : Bytes → Option ℕ) (s : Server)
    → IsQuery buffer
    → Plentiful s.world.mem
    → (length (handle_packet config buffer net sendto s).sent ≡ suc (length s.sent))
      × Plentiful (handle_packet config buffer net sendto s).world.mem
unfolding handle_packet send_response
handle_packet_answers config buffer net sendto s v plenty =
    let (response, answers) =
      process_dns_query_answers net config buffer s.world v.query v.question v.size
        (IsQuery-Asks v s.world plenty) in
    ground (
      arith,
      v.message.long,
      length-append s.sent (response ∷ []),
      process_dns_query_keeps net config buffer s.world plenty,
    )

-- The packets that the loop takes before it ends, and what is asked of them.
abbrev pub taken : List Event → ℕ
taken [] = 0
taken (stopped ∷ events) = 0
taken (interrupted running ∷ events) = let rest = taken events in if running then rest else 0
taken (timed_out ∷ events) = taken events
taken (failed ∷ events) = taken events
taken (packet buffer net sendto ∷ events) = suc (taken events)

abbrev pub AreQueries : List Event → Type 0
AreQueries [] = Unit
AreQueries (packet buffer net sendto ∷ events) = IsQuery buffer × AreQueries events
AreQueries (event ∷ events) = AreQueries events

-- With memory to spare, and if every packet is one that can be answered, the loop hands exactly one
-- response to `sendto` for each packet that it takes before it ends, whatever else happens in its
-- rounds, whatever the network does, and whether or not the responses can be sent.
pub serve_answers :
    (config : Config) (events : List Event) (s : Server)
    → AreQueries events
    → Plentiful s.world.mem
    → length (serve config events s).0.sent ≡ length s.sent + taken events
unfolding serve
serve_answers config [] s q plenty = omega arith
serve_answers config (stopped ∷ events) s q plenty = omega arith
serve_answers config (interrupted true ∷ events) s q plenty = serve_answers config events s q plenty
serve_answers config (interrupted false ∷ events) s q plenty = omega arith
serve_answers config (timed_out ∷ events) s q plenty = serve_answers config events s q plenty
serve_answers config (failed ∷ events) s q plenty =
    serve_answers config events (record s { counts = count_error s.counts }) q plenty
serve_answers config (packet buffer net sendto ∷ events) s q plenty =
    let (more, keeps) = handle_packet_answers config buffer net sendto s q.0 plenty in
    omega (
      arith,
      more,
      serve_answers config events (handle_packet config buffer net sendto s) q.1 keeps,
    )
