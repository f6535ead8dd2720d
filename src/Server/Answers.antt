-- ===== src/Server/Answers.antt =====
-- The responses that `process_dns_query` gives.
use personal_test_resolver.Common.{
  ℕ, ◌≡◌, some, Bytes, ◌==◌, arith, Option-cases, Bool-cases, inl, inr, Option, length, ◌≤◌, All,
  IsByte, ◌/◌, ◌%◌, ap,
}
use personal_test_resolver.Common.Memory.{Mem}
use personal_test_resolver.Resolver.{Network, World, forward_query}
use personal_test_resolver.Header.{parse_dns_header, header_at}
use personal_test_resolver.Server.{
  Config, process_dns_query, reply_to, reply_error, reply_forwarded, reply_filtered,
}
use personal_test_resolver.Wire.{Header, Message, Question, IsHeader}
use personal_test_resolver.Message.{parse_dns_message}
use personal_test_resolver.Server.Steps.{
  process-unparsed, reply-no_questions, forwarded-failed, process-parsed, filtered-blocked,
  forwarded-answered, reply-filtered, filtered-allowed, reply-other_type,
}
use personal_test_resolver.Response.Fields.{parse-build_error_response, build_error_response-Built}
use personal_test_resolver.Message.Correct.{first_question_there, parse_dns_message_sound}
use personal_test_resolver.Filter.{is_domain_blocked}
use personal_test_resolver.Resolver.Reply.{forward_query-IsReply}
use personal_test_resolver.Header.RoundTrip.{parse-IsHeader}

-- A response to the bytes of a query: a header with the query's id and with QR set.
pub record IsAnswer (buffer response : Bytes) : Type 0 where
  pub long : 12 ≤ length response
  pub same_id : (header_at response).id ≡ (header_at buffer).id
  pub is_response : (header_at response).flags / 0x8000 % 2 ≡ 1

parsed_header-long :
    (bytes : Bytes) {h : Header}
    → parse_dns_header (some bytes) ≡ some h
    → (12 ≤ length bytes) × (h ≡ header_at bytes)
unfolding parse_dns_header
parsed_header-long bytes e = ground arith

long_parses :
    (bytes : Bytes) → 12 ≤ length bytes → parse_dns_header (some bytes) ≡ some (header_at bytes)
unfolding parse_dns_header
long_parses bytes long = ground (arith, long)

module _ (buffer : Bytes) (bytes : All IsByte buffer) (m : Mem) (query : Message)
    (parses : (parse_dns_message (some buffer) m).0 ≡ some query) where
  query_fields :
      (query.header ≡ header_at buffer) × (query.raw_data ≡ some buffer) × IsHeader query.header
  query_fields =
      let v = parse_dns_message_sound buffer m bytes parses in
      let valid = parse-IsHeader buffer {h = header_at buffer} bytes (long_parses buffer v.long) in
      (v.header, v.raw, rw v.header valid)

  reply_error-IsAnswer :
      (rcode : ℕ) (v : World) {r : Bytes}
      → (reply_error query rcode v).0 ≡ some r
      → IsAnswer buffer r
  unfolding reply_error
  reply_error-IsAnswer rcode v {r} e =
      let (header, raw, valid) = query_fields in
      let (long, at) =
        parsed_header-long r (parse-build_error_response query rcode v.mem valid e) in
      record {
        long = long;
        same_id = ground (arith, ap (λ (h : Header). h.id) at, ap (λ (h : Header). h.id) header);
        is_response =
            let code = (build_error_response-Built query rcode v.mem e).code in
            omega (arith, ap (λ (h : Header). h.flags) at, code);
      }

  reply_forwarded-IsAnswer :
      (net : Network) (config : Config) (v : World) {r : Bytes}
      → (reply_forwarded net config query v).0 ≡ some r
      → IsAnswer buffer r
  reply_forwarded-IsAnswer net config v {r} e =
      let (header, raw, valid) = query_fields in
      elim (Option-cases (forward_query net (some query) config.upstream_server v).0) [
        | inl fails ↦ reply_error-IsAnswer 2 _ (rw (forwarded-failed net config query v fails) at e)
        | inr (s, answers) ↦
            let same : s ≡ r = ground (
              arith,
              ap (λ (p : Option Bytes × World). p.0)
                  (forwarded-answered net config query v answers),
            ) in
            let (first, reply) =
              forward_query-IsReply net query config.upstream_server v raw answers in
            rw (← same) (record {
              long = reply.reply_header;
              same_id = reply.same_id;
              is_response = reply.is_response;
            })
      ]

  reply_filtered-IsAnswer :
      (net : Network) (config : Config) (question : Question) (v : World) {r : Bytes}
      → (reply_filtered net config query question v).0 ≡ some r
      → IsAnswer buffer r
  reply_filtered-IsAnswer net config question v e =
      elim (Bool-cases (is_domain_blocked config.filter_root question.qname v.mem).0) [
        | inl blocked ↦
            reply_error-IsAnswer 3 _
              (rw (filtered-blocked net config query v question blocked) at e)
        | inr allowed ↦
            reply_forwarded-IsAnswer net config _
              (rw (filtered-allowed net config query v question allowed) at e)
      ]

  reply_to-IsAnswer :
      (net : Network) (config : Config) (v : World) {r : Bytes}
      → (reply_to net config query v).0 ≡ some r
      → IsAnswer buffer r
  reply_to-IsAnswer net config v e = elim (Bool-cases (query.header.qdcount == 0)) [
    | inl empty ↦ reply_error-IsAnswer 1 _ (rw (reply-no_questions net config query v empty) at e)
    | inr more ↦
        let (question, first) = first_question_there buffer m bytes parses more in
        elim (Bool-cases (question.qtype == 1)) [
          | inl type_a ↦
              reply_filtered-IsAnswer net config question v
                (rw (reply-filtered net config query v first more type_a) at e)
          | inr other ↦
              reply_error-IsAnswer 4 _
                (rw (reply-other_type net config query v first more other) at e)
        ]
  ]

-- Every response to a packet of bytes, made by the server or received from upstream, has a whole
-- header, with the id of the query and QR set.
pub process_dns_query-IsAnswer :
    (net : Network) (config : Config) (buffer : Bytes) (w : World) {response : Bytes}
    → All IsByte buffer
    → (process_dns_query net config buffer w).0 ≡ some response
    → IsAnswer buffer response
process_dns_query-IsAnswer net config buffer w bytes e =
    elim (Option-cases (parse_dns_message (some buffer) w.mem).0) [
      | inl fails ↦ absurd (
          ground (
            arith,
            ap (λ (p : Option Bytes × World). p.0) (process-unparsed net config buffer w fails),
          ))
      | inr (query, parses) ↦
          reply_to-IsAnswer buffer bytes w.mem query parses net config _
            (rw (process-parsed net config buffer w parses) at e)
    ]
