-- ===== src/Server/Policy.antt =====
-- What the server answers to a query, by its question and the filter's domains.
use personal_test_resolver.Common.{
  ℕ, ◌≡◌, refl, none, some, List, [], ◌∷◌, Bytes, ◌==◌, arith, Option-cases, Bool-cases, inl, inr,
  Option, ◌≤◌, All, true, false, IsByte, ◌∙◌,
}
use personal_test_resolver.Common.Memory.{Mem, Plentiful}
use personal_test_resolver.Wire.{Message, Question}
use personal_test_resolver.Filter.{is_domain_blocked}
use personal_test_resolver.Server.{
  reply_error, Config, with_mem, process_dns_query, reply_forwarded,
}
use personal_test_resolver.Resolver.{Network, World, forward_query}
use personal_test_resolver.Filter.Lists.{any_covers, add_domains, domain_blocked-add_domains}
use personal_test_resolver.Message.{first_question, parse_dns_message}
use personal_test_resolver.Response.Fields.{error_bytes, build_error_response_bytes}
use personal_test_resolver.Trie.{empty_node}
use personal_test_resolver.Message.Plenty.{parse_dns_message_keeps}
use personal_test_resolver.Server.Steps.{
  process-parsed, reply-other_type, reply-filtered, filtered-blocked, filtered-allowed,
  forwarded-failed, forwarded-answered,
}
use personal_test_resolver.Response.{question_size}
use personal_test_resolver.Message.Correct.{parse_dns_message_sound}
use personal_test_resolver.Filter.Scarce.{is_domain_blocked_keeps}
use personal_test_resolver.Resolver.Plenty.{forward_query_keeps}

-- A packet that parses with memory to spare and asks, in its first question, for `question`. Its
-- question takes `size` bytes.
pub record Asks (buffer : Bytes) (w : World) (query : Message) (question : Question) (size : ℕ)
    : Type 0 where
  pub bytes : All IsByte buffer
  pub plenty : Plentiful w.mem
  pub parses : (parse_dns_message (some buffer) w.mem).0 ≡ some query
  pub first : first_question query ≡ some question
  pub takes : question_size (some buffer) ≡ some size

-- The filter holds the domains of a list, added with memory to spare.
pub record Filters (config : Config) (ds : List Bytes) : Type 0 where
  pub start : Mem
  pub plenty : Plentiful start
  pub root : config.filter_root ≡ some (add_domains (empty_node none) ds start).0

pub has_questions :
    (query : Message) {question : Question}
    → first_question query ≡ some question
    → (query.header.qdcount == 0) ≡ false
has_questions query e = elim (Option-cases query.questions) [
  | inl null ↦ absurd (ground arith)
  | inr ([], array) ↦ absurd (ground arith)
  | inr (q ∷ qs, array) ↦ elim (Bool-cases (query.header.qdcount == 0)) [
    | inl zero_count ↦ absurd (ground arith)
    | inr more ↦ more
  ]
]

pub reply_error_bytes :
    (buffer : Bytes) (w v : World) (query : Message) (question : Question) (size rcode : ℕ)
    → Asks buffer w query question size
    → Plentiful v.mem
    → rcode ≤ 5
    → (reply_error query rcode v).0 ≡ some (error_bytes query.header rcode buffer size)
unfolding reply_error
reply_error_bytes buffer w v query question size rcode a plenty code =
    build_error_response_bytes query rcode v.mem buffer plenty code
      (parse_dns_message_sound buffer w.mem a.bytes a.parses).raw a.takes

-- With memory to spare, a packet of bytes that parses, and whose first question is uncompressed
-- and not of type A, is answered with code 4 (not implemented): by the header of an error response
-- and that question.
pub process-other_type :
    (net : Network) (config : Config) (buffer : Bytes) (w : World) (query : Message)
    (question : Question) (size : ℕ)
    → Asks buffer w query question size
    → (question.qtype == 1) ≡ false
    → (process_dns_query net config buffer w).0 ≡ some (error_bytes query.header 4 buffer size)
process-other_type net config buffer w query question size a other =
    let more = has_questions query a.first in
    rw
      (
        process-parsed net config buffer w a.parses,
        reply-other_type net config query _ a.first more other,
      )
      (reply_error_bytes buffer w _ query question size 4 a
        (parse_dns_message_keeps buffer w.mem a.plenty) (omega arith))

pub is_domain_blocked-any_covers :
    (config : Config) (ds : List Bytes) (name : Bytes) (m : Mem)
    → Filters config ds
    → Plentiful m
    → (is_domain_blocked config.filter_root (some name) m).0 ≡ any_covers ds name
unfolding is_domain_blocked
is_domain_blocked-any_covers config ds name m f plenty =
    rw f.root (domain_blocked-add_domains ds name f.start m f.plenty plenty)

-- With memory to spare, and a filter that was filled from a list of domains with memory to spare:
-- a packet of bytes that parses, and whose first question is uncompressed, of type A and for a
-- domain that the list covers, is answered with code 3 (no such domain). The response is the
-- header of an error response and that question, whatever the network does.
pub process-covered :
    (net : Network) (config : Config) (ds : List Bytes) (buffer : Bytes) (w : World)
    (query : Message) (question : Question) (size : ℕ) (name : Bytes)
    → Asks buffer w query question size
    → Filters config ds
    → (question.qtype == 1) ≡ true
    → question.qname ≡ some name
    → any_covers ds name ≡ true
    → (process_dns_query net config buffer w).0 ≡ some (error_bytes query.header 3 buffer size)
process-covered net config ds buffer w query question size name a f type_a named covered =
    let more = has_questions query a.first in
    let plenty = parse_dns_message_keeps buffer w.mem a.plenty in
    let v = with_mem w (parse_dns_message (some buffer) w.mem).1 in
    let blocked : (is_domain_blocked config.filter_root question.qname v.mem).0 ≡ true =
      rw named (is_domain_blocked-any_covers config ds name v.mem f plenty ∙ covered) in
    rw
      (
        process-parsed net config buffer w a.parses,
        reply-filtered net config query v a.first more type_a,
        filtered-blocked net config query v question blocked,
      )
      (reply_error_bytes buffer w _ query question size 3 a
        (is_domain_blocked_keeps config.filter_root question.qname v.mem plenty) (omega arith))

-- What comes of forwarding: the answer, or code 2 (server failure).
abbrev pub answer_or_servfail : Option Bytes → Bytes → Bytes
answer_or_servfail none failure = failure
answer_or_servfail (some r) failure = r

pub reply_forwarded_answer :
    (net : Network) (config : Config) (buffer : Bytes) (w v : World) (query : Message)
    (question : Question) (size : ℕ)
    → Asks buffer w query question size
    → Plentiful v.mem
    → (reply_forwarded net config query v).0
      ≡ some (
          answer_or_servfail
            (forward_query net (some query) config.upstream_server v).0
            (error_bytes query.header 2 buffer size))
reply_forwarded_answer net config buffer w v query question size a plenty =
    elim (Option-cases (forward_query net (some query) config.upstream_server v).0) [
      | inl fails ↦
          rw (forwarded-failed net config query v fails, fails)
            (reply_error_bytes buffer w _ query question size 2 a
              (forward_query_keeps net (some query) config.upstream_server v plenty) (omega arith))
      | inr (r, answers) ↦ rw (forwarded-answered net config query v answers, answers) refl
    ]

-- With memory to spare, and a filter that was filled from a list of domains with memory to spare:
-- a packet of bytes that parses, and whose first question is uncompressed, of type A and for a
-- domain that nothing in the list covers, is forwarded. The response is what `forward_query`
-- returns for it from some state with memory to spare, or, if that fails, an error response with
-- code 2 (server failure).
pub process-uncovered :
    (net : Network) (config : Config) (ds : List Bytes) (buffer : Bytes) (w : World)
    (query : Message) (question : Question) (size : ℕ) (name : Bytes)
    → Asks buffer w query question size
    → Filters config ds
    → (question.qtype == 1) ≡ true
    → question.qname ≡ some name
    → any_covers ds name ≡ false
    → (v : World) × Plentiful v.mem
      × ((process_dns_query net config buffer w).0
          ≡ some (
              answer_or_servfail
                (forward_query net (some query) config.upstream_server v).0
                (error_bytes query.header 2 buffer size)))
process-uncovered net config ds buffer w query question size name a f type_a named covered =
    let more = has_questions query a.first in
    let plenty = parse_dns_message_keeps buffer w.mem a.plenty in
    let v = with_mem w (parse_dns_message (some buffer) w.mem).1 in
    let allowed : (is_domain_blocked config.filter_root question.qname v.mem).0 ≡ false =
      rw named (is_domain_blocked-any_covers config ds name v.mem f plenty ∙ covered) in
    let keeps = is_domain_blocked_keeps config.filter_root question.qname v.mem plenty in
    (
      with_mem v (is_domain_blocked config.filter_root question.qname v.mem).1,
      keeps,
      rw
          (
            process-parsed net config buffer w a.parses,
            reply-filtered net config query v a.first more type_a,
            filtered-allowed net config query v question allowed,
          )
          (reply_forwarded_answer net config buffer w _ query question size a keeps),
    )
