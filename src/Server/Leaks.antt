-- ===== src/Server/Leaks.antt =====
-- What answering a query, and the loop, leave open or allocated.
use personal_test_resolver.Common.{
  ℕ, ◌≡◌, refl, some, Bytes, ◌==◌, arith, Option-cases, Bool-cases, inl, inr, Option, All, IsByte,
}
use personal_test_resolver.Common.Memory.{Mem}
use personal_test_resolver.Response.Leaks.{block, build_error_response_live}
use personal_test_resolver.Resolver.{Network, World, forward_query}
use personal_test_resolver.Server.{
  Config, process_dns_query, with_mem, reply_error, reply_filtered, reply_forwarded, reply_to,
}
use personal_test_resolver.Resolver.Leaks.{Holds, forward_query-Holds}
use personal_test_resolver.Wire.{Message, Question}
use personal_test_resolver.Message.{parse_dns_message}
use personal_test_resolver.Message.Leaks.{parse_dns_message_live, blocks}
use personal_test_resolver.Server.Steps.{
  process-unparsed, process-parsed, reply-no_questions, reply-filtered, filtered-blocked,
  forwarded-failed, reply-other_type, forwarded-answered, filtered-allowed,
}
use personal_test_resolver.Message.Correct.{first_question_there}
use personal_test_resolver.Message.Release.{free_dns_message_live}
use personal_test_resolver.Filter.Blocks.{is_domain_blocked_live}
use personal_test_resolver.Response.{build_error_response}
use personal_test_resolver.Filter.{is_domain_blocked}

-- A run from `w` to a result and a world: it holds the block of the result, if there is one.
abbrev pub Clean : World → Option Bytes × World → Type 0
Clean w r = Holds w (block r.0) r.1

-- A change of the heap that keeps the number of blocks.
Holds-with_mem :
    {w v : World} {n : ℕ} (m : Mem) → Holds w n v → m.live ≡ v.mem.live → Holds w n (with_mem v m)
Holds-with_mem m h e = record { sockets = h.sockets; lists = h.lists; live = omega (arith, h.live) }

module _ (buffer : Bytes) (bytes : All IsByte buffer) (m : Mem) (query : Message)
    (parses : (parse_dns_message (some buffer) m).0 ≡ some query) (w : World) where
  reply_error-Clean :
      (rcode : ℕ) (v : World) → Holds w (blocks query) v → Clean w (reply_error query rcode v)
  unfolding reply_error
  reply_error-Clean rcode v h = record {
    sockets = h.sockets;
    lists = h.lists;
    live = omega (
      arith,
      h.live,
      build_error_response_live (some query) rcode v.mem,
      free_dns_message_live buffer m (build_error_response (some query) rcode v.mem).1 bytes parses,
    );
  }

  reply_forwarded-Clean :
      (net : Network) (config : Config) (v : World)
      → Holds w (blocks query) v
      → Clean w (reply_forwarded net config query v)
  reply_forwarded-Clean net config v h =
      let f = forward_query-Holds net (some query) config.upstream_server v in
      elim (Option-cases (forward_query net (some query) config.upstream_server v).0) [
        | inl fails ↦ rw (forwarded-failed net config query v fails) (
            reply_error-Clean 2 (forward_query net (some query) config.upstream_server v).1
              (record {
                sockets = omega (arith, f.sockets, h.sockets);
                lists = omega (arith, f.lists, h.lists);
                live = ground (arith, f.live, h.live);
              }))
        | inr (r, answers) ↦ rw (forwarded-answered net config query v answers) (record {
          sockets = omega (arith, f.sockets, h.sockets);
          lists = omega (arith, f.lists, h.lists);
          live = ground (
            arith,
            f.live,
            h.live,
            free_dns_message_live buffer m
                (forward_query net (some query) config.upstream_server v).1.mem bytes parses,
          );
        })
      ]

  reply_filtered-Clean :
      (net : Network) (config : Config) (question : Question) (v : World)
      → Holds w (blocks query) v
      → Clean w (reply_filtered net config query question v)
  reply_filtered-Clean net config question v h =
      let same = is_domain_blocked_live config.filter_root question.qname v.mem in
      let after =
        Holds-with_mem (is_domain_blocked config.filter_root question.qname v.mem).1 h same in
      elim (Bool-cases (is_domain_blocked config.filter_root question.qname v.mem).0) [
        | inl blocked ↦
            rw (filtered-blocked net config query v question blocked) (reply_error-Clean 3 _ after)
        | inr allowed ↦
            rw (filtered-allowed net config query v question allowed)
              (reply_forwarded-Clean net config _ after)
      ]

  reply_to-Clean :
      (net : Network) (config : Config) (v : World)
      → Holds w (blocks query) v
      → Clean w (reply_to net config query v)
  reply_to-Clean net config v h = elim (Bool-cases (query.header.qdcount == 0)) [
    | inl empty ↦ rw (reply-no_questions net config query v empty) (reply_error-Clean 1 v h)
    | inr more ↦
        let (question, first) = first_question_there buffer m bytes parses more in
        elim (Bool-cases (question.qtype == 1)) [
          | inl type_a ↦
              rw (reply-filtered net config query v first more type_a)
                (reply_filtered-Clean net config question v h)
          | inr other ↦
              rw (reply-other_type net config query v first more other) (reply_error-Clean 4 v h)
        ]
  ]

-- Answering a packet of bytes closes every socket that it opened, releases every address list, and
-- keeps no memory but the block of a response that it returns: on every path, whichever requests
-- for memory are refused and whatever the network does.
pub process_dns_query-Holds :
    (net : Network) (config : Config) (buffer : Bytes) (w : World)
    → All IsByte buffer
    → Clean w (process_dns_query net config buffer w)
process_dns_query-Holds net config buffer w bytes =
    let taken = parse_dns_message_live (some buffer) w.mem in
    elim (Option-cases (parse_dns_message (some buffer) w.mem).0) [
      | inl fails ↦
          rw (process-unparsed net config buffer w fails)
            (record { sockets = refl; lists = refl; live = ground (arith, taken) })
      | inr (query, parses) ↦ rw (process-parsed net config buffer w parses) (
          reply_to-Clean buffer bytes w.mem query parses w net config _
            (record { sockets = refl; lists = refl; live = ground (arith, taken) }))
    ]
