-- ===== src/Server/Told.antt =====
-- What the verbose log of process_dns_query tells of the reply.
use personal_test_resolver.Console.{Part, text, argument, natural, Console}
use personal_test_resolver.Server.Log.{
  log, process_log, query_log, filtered_log, blocked_log, allowed_log, unsupported_log,
  question_log, received_log,
}
use personal_test_resolver.Server.{Config, with_mem, process_dns_query}
use personal_test_resolver.Server.Policy.{
  has_questions, Asks, Filters, answer_or_servfail, is_domain_blocked-any_covers,
  process-other_type, process-covered, reply_forwarded_answer,
}
use personal_test_resolver.Resolver.{World, Network, forward_query}
use personal_test_resolver.Resolver.Forwarded.{IsForwarded, forward_query-IsForwarded}
use personal_test_resolver.Message.Correct.{parse_dns_message_sound}
use personal_test_resolver.Common.{
  [], ◌∷◌, length, ◌↔◌, ap, ◌≡◌, some, Bytes, if◌then◌else◌, ◌==◌, refl, Bool, List, ℕ, Option, ◌∙◌,
  Bool-cases, inr, inl, none,
}
use personal_test_resolver.Wire.{Message, Question}
use personal_test_resolver.Message.{parse_dns_message, first_question}
use personal_test_resolver.Filter.{is_domain_blocked}
use personal_test_resolver.Filter.Lists.{any_covers}
use personal_test_resolver.Response.Fields.{error_bytes}
use personal_test_resolver.Message.Plenty.{parse_dns_message_keeps}
use personal_test_resolver.Filter.Scarce.{is_domain_blocked_keeps}
use personal_test_resolver.Server.Steps.{process-parsed, reply-filtered, filtered-allowed}

-- What is done with a question, by whether it is of type A, whether its domain is listed, and what
-- comes of forwarding the query.
abbrev pub verdict : {X : Type 0} → Bool → Bool → X → X → X → X
verdict is_a covered unsupported blocked allowed =
    if is_a then if covered then blocked else allowed else unsupported

filtered_log-verdict :
    (net : Network) (config : Config) (query : Message) (question : Question) (w : World)
    (console : Console) {blocked : Bool}
    → (is_domain_blocked config.filter_root question.qname w.mem).0 ≡ blocked
    → filtered_log net config query question w console ≡ (
        if blocked
        then blocked_log config console
        else allowed_log config
            (forward_query net
              (some query)
              config.upstream_server
              (with_mem w (is_domain_blocked config.filter_root question.qname w.mem).1)).0
            console)
unfolding filtered_log
filtered_log-verdict net config query question w console e = rw e refl

query_log-filtered :
    (net : Network) (config : Config) (query : Message) {question : Question} (w : World)
    (console : Console)
    → first_question query ≡ some question
    → query_log net config query w console ≡ (
        let told = question_log config question (received_log config query console) in
        if question.qtype == 1
        then filtered_log net config query question w told
        else unsupported_log config told)
unfolding query_log
query_log-filtered net config query w console first = rw (has_questions query first, first) refl

process_log-parsed :
    (net : Network) (config : Config) (buffer : Bytes) (w : World) (console : Console)
    {query : Message}
    → (parse_dns_message (some buffer) w.mem).0 ≡ some query
    → process_log net config buffer w console
      ≡ query_log net config query (with_mem w (parse_dns_message (some buffer) w.mem).1) console
unfolding process_log
process_log-parsed net config buffer w console e = rw (process_log, e) refl

query_log-verdict :
    (net : Network) (config : Config) (query : Message) {question : Question} (w : World)
    (covered : Bool) (console : Console)
    → first_question query ≡ some question
    → (is_domain_blocked config.filter_root question.qname w.mem).0 ≡ covered
    → query_log net config query w console ≡ (
        let told = question_log config question (received_log config query console) in
        verdict
          (question.qtype == 1)
          covered
          (unsupported_log config told)
          (blocked_log config told)
          (allowed_log config
            (forward_query net
              (some query)
              config.upstream_server
              (with_mem w (is_domain_blocked config.filter_root question.qname w.mem).1)).0
            told))
query_log-verdict net config query {question} w covered console first same =
    let told = question_log config question (received_log config query console) in
    let filtered = filtered_log-verdict net config query question w told same in
    query_log-filtered net config query w console first
    ∙ ap (λ x. if question.qtype == 1 then x else unsupported_log config told) filtered

process-verdict :
    (net : Network) (config : Config) (ds : List Bytes) (buffer : Bytes) (w : World)
    (query : Message) (question : Question) (size : ℕ) (name : Bytes)
    → (a : Asks buffer w query question size) → Filters config ds
    → question.qname ≡ some name
    → (is_domain_blocked config.filter_root question.qname
        (parse_dns_message (some buffer) w.mem).1).0
      ≡ any_covers ds name
    → (process_dns_query net config buffer w).0
      ≡ some (
          verdict
            (question.qtype == 1)
            (any_covers ds name)
            (error_bytes query.header 4 buffer size)
            (error_bytes query.header 3 buffer size)
            (answer_or_servfail
              (forward_query net (some query) config.upstream_server (
                with_mem
                  (with_mem w (parse_dns_message (some buffer) w.mem).1)
                  (is_domain_blocked config.filter_root question.qname
                    (parse_dns_message (some buffer) w.mem).1).1)).0
              (error_bytes query.header 2 buffer size)))
process-verdict net config ds buffer w query question size name a f named same =
    let more = has_questions query a.first in
    let v = with_mem w (parse_dns_message (some buffer) w.mem).1 in
    let plenty = parse_dns_message_keeps buffer w.mem a.plenty in
    elim (Bool-cases (question.qtype == 1)) [
      | inr other ↦ rw other (process-other_type net config buffer w query question size a other)
      | inl type_a ↦ elim (Bool-cases (any_covers ds name)) [
        | inl covered ↦
            rw (type_a, covered)
              (process-covered net config ds buffer w query question size name a f type_a named
                covered)
        | inr uncovered ↦
            rw (type_a, uncovered)
              (rw
                (
                  process-parsed net config buffer w a.parses,
                  reply-filtered net config query v a.first more type_a,
                  filtered-allowed net config query v question (same ∙ uncovered),
                )
                (reply_forwarded_answer net config buffer w _ query question size a
                  (is_domain_blocked_keeps config.filter_root question.qname v.mem plenty)))
      ]
    ]

-- What is said of the answer that came back, if one did.
abbrev pub answer_told : Option Bytes → List Part
answer_told none = text "  Upstream forwarding failed - sending SERVFAIL" ∷ []
answer_told (some response) =
    text "  Response received from upstream (" ∷ natural (length response) ∷ text " bytes)" ∷ []

allowed_log-told :
    (config : Config) (host : Bytes) (answer : Option Bytes) (console : Console)
    → config.upstream_server ≡ some host
    → allowed_log config answer console
      ≡ log config (answer_told answer) (
          log config
            (text "  Domain is allowed - forwarding to upstream " ∷ argument host ∷ [])
            console)
allowed_log-told config host none console upstream = rw upstream refl
allowed_log-told config host (some response) console upstream = rw upstream refl

-- With memory to spare, an upstream server that is configured, and a filter that was filled from a list
-- of domains with memory to spare: on a packet of bytes that parses, and whose first question is
-- uncompressed, the log, which is printed in the verbose mode, tells what becomes of the query. If the type is not A, the reply is the error response with code 4, and behind
-- the lines on the header and the question the log says that the type is not supported; else, if the
-- list covers the domain, the reply has code 3 and the log says that the domain is blocked; else the
-- log says that the query is forwarded, and then either an answer to the packet comes back from the
-- upstream server, which is the reply and whose length the log gives, or none does, the reply has code
-- 2, and the log says that forwarding failed.
pub process_log-verdict :
    (net : Network) (config : Config) (host : Bytes) (ds : List Bytes) (buffer : Bytes) (w : World)
    (query : Message) (question : Question) (size : ℕ) (name : Bytes) (console : Console)
    → Asks buffer w query question size
    → Filters config ds
    → config.upstream_server ≡ some host
    → question.qname ≡ some name
    → (answer : Option Bytes) × ((r : Bytes) → (answer ≡ some r) ↔ IsForwarded net buffer host r)
      × ((process_dns_query net config buffer w).0
          ≡ some (
              verdict
                (question.qtype == 1)
                (any_covers ds name)
                (error_bytes query.header 4 buffer size)
                (error_bytes query.header 3 buffer size)
                (answer_or_servfail answer (error_bytes query.header 2 buffer size))))
      × (process_log net config buffer w console ≡ (
          let told = question_log config question (received_log config query console) in
          verdict
            (question.qtype == 1)
            (any_covers ds name)
            (log config (text "  Unsupported query type - sending NOTIMPL" ∷ []) told)
            (log config (text "  Domain is BLOCKED - sending NXDOMAIN" ∷ []) told)
            (log config (answer_told answer) (
              log config
                (text "  Domain is allowed - forwarding to upstream " ∷ argument host ∷ [])
                told))))
process_log-verdict net config host ds buffer w query question size name console a f upstream
      named =
    let v = with_mem w (parse_dns_message (some buffer) w.mem).1 in
    let plenty = parse_dns_message_keeps buffer w.mem a.plenty in
    let keeps = is_domain_blocked_keeps config.filter_root question.qname v.mem plenty in
    let same : (is_domain_blocked config.filter_root question.qname v.mem).0 ≡ any_covers ds name =
      rw named (is_domain_blocked-any_covers config ds name v.mem f plenty) in
    let answer : Option Bytes =
      (forward_query net (some query) config.upstream_server
        (with_mem v (is_domain_blocked config.filter_root question.qname v.mem).1)).0 in
    let told = question_log config question (received_log config query console) in
    (
      answer,
      λ r. rw upstream (
          forward_query-IsForwarded net query host _ buffer r keeps
            (parse_dns_message_sound buffer w.mem a.bytes a.parses).raw),
      process-verdict net config ds buffer w query question size name a f named same,
      process_log-parsed net config buffer w console a.parses
          ∙ query_log-verdict net config query v (any_covers ds name) console a.first same
          ∙ ap
              (λ x.
                verdict (question.qtype == 1) (any_covers ds name) (unsupported_log config told)
                  (blocked_log config told) x)
              (allowed_log-told config host answer told upstream),
    )
