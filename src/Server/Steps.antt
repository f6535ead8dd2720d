-- ===== src/Server/Steps.antt =====
-- The ways that a query takes through `process_dns_query`, by what each call returns.
use personal_test_resolver.Common.{◌≡◌, refl, none, some, Bytes, ◌==◌, arith, true, false}
use personal_test_resolver.Resolver.{Network, World, forward_query}
use personal_test_resolver.Server.{
  Config, process_dns_query, reply_filtered, reply_forwarded, reply_to, with_mem, reply_error,
}
use personal_test_resolver.Wire.{Message, Question}
use personal_test_resolver.Message.{parse_dns_message, first_question, free_dns_message}
use personal_test_resolver.Filter.{is_domain_blocked}

module _ (net : Network) (config : Config) where
  pub process-unparsed :
      (buffer : Bytes) (w : World)
      → (parse_dns_message (some buffer) w.mem).0 ≡ none
      → process_dns_query net config buffer w
        ≡ (none, with_mem w (parse_dns_message (some buffer) w.mem).1)
  unfolding process_dns_query
  process-unparsed buffer w e = ground arith

  pub process-parsed :
      (buffer : Bytes) (w : World) {query : Message}
      → (parse_dns_message (some buffer) w.mem).0 ≡ some query
      → process_dns_query net config buffer w
        ≡ reply_to net config query (with_mem w (parse_dns_message (some buffer) w.mem).1)
  unfolding process_dns_query
  process-parsed buffer w e = ground arith

  module _ (query : Message) (w : World) where
    pub reply-no_questions :
        (query.header.qdcount == 0) ≡ true → reply_to net config query w ≡ reply_error query 1 w
    unfolding reply_to
    reply-no_questions e = ground arith

    pub reply-other_type :
        {question : Question}
        → first_question query ≡ some question
        → (query.header.qdcount == 0) ≡ false
        → (question.qtype == 1) ≡ false
        → reply_to net config query w ≡ reply_error query 4 w
    unfolding reply_to
    reply-other_type {question} e q t = rw (q, e, t) refl

    pub reply-filtered :
        {question : Question}
        → first_question query ≡ some question
        → (query.header.qdcount == 0) ≡ false
        → (question.qtype == 1) ≡ true
        → reply_to net config query w ≡ reply_filtered net config query question w
    unfolding reply_to
    reply-filtered {question} e q t = rw (q, e, t) refl

    pub filtered-blocked :
        (question : Question)
        → (is_domain_blocked config.filter_root question.qname w.mem).0 ≡ true
        → reply_filtered net config query question w
          ≡ reply_error query 3
              (with_mem w (is_domain_blocked config.filter_root question.qname w.mem).1)
    unfolding reply_filtered
    filtered-blocked question e = ground arith

    pub filtered-allowed :
        (question : Question)
        → (is_domain_blocked config.filter_root question.qname w.mem).0 ≡ false
        → reply_filtered net config query question w
          ≡ reply_forwarded net config query
              (with_mem w (is_domain_blocked config.filter_root question.qname w.mem).1)
    unfolding reply_filtered
    filtered-allowed question e = ground arith

    pub forwarded-failed :
        (forward_query net (some query) config.upstream_server w).0 ≡ none
        → reply_forwarded net config query w
          ≡ reply_error query 2 (forward_query net (some query) config.upstream_server w).1
    unfolding reply_forwarded
    forwarded-failed e = ground arith

    pub forwarded-answered :
        {r : Bytes}
        → (forward_query net (some query) config.upstream_server w).0 ≡ some r
        → reply_forwarded net config query w ≡ (
          some r,
          with_mem
              (forward_query net (some query) config.upstream_server w).1
              (free_dns_message query
                (forward_query net (some query) config.upstream_server w).1.mem).1,
        )
    unfolding reply_forwarded
    forwarded-answered e = ground arith
