-- ===== src/Server/Loop.antt =====
-- The loop of `run_server`: its counters, its responses and what it keeps.
use personal_test_resolver.Common.{
  ℕ, ◌+◌, ◌≡◌, List, [], ◌∷◌, Bytes, arith, Option-cases, Bool-cases, inl, inr, Option, ltb, length,
  ◌≤◌, All, IsByte, true, false, length-append,
}
use personal_test_resolver.Server.{
  Event, serve, count_response, Counts, Server, handle_packet, packet, Config, send_response,
  interrupted, count_error, stopped, timed_out, failed, process_dns_query,
}
use personal_test_resolver.Resolver.{World, Network}
use personal_test_resolver.Resolver.Leaks.{Holds, nothing_held}
use personal_test_resolver.Server.Leaks.{process_dns_query-Holds}

-- The packets that are received are bytes.
abbrev pub AreBytes : List Event → Type 0
AreBytes [] = Unit
AreBytes (packet buffer net sendto ∷ events) = All IsByte buffer × AreBytes events
AreBytes (e ∷ events) = AreBytes events

handle_packet-Holds :
    (config : Config) (buffer : Bytes) (net : Network) (sendto : Bytes → Option ℕ) (s : Server)
    → All IsByte buffer
    → Holds s.world 0 (handle_packet config buffer net sendto s).world
unfolding handle_packet send_response
handle_packet-Holds config buffer net sendto s bytes =
    let h = process_dns_query-Holds net config buffer s.world bytes in
    record {
      sockets = ground (arith, h.sockets);
      lists = ground (arith, h.lists);
      live = ground (arith, h.live);
    }

Holds-trans : {u v w : World} → Holds u 0 v → Holds v 0 w → Holds u 0 w
Holds-trans a b = record {
  sockets = omega (arith, a.sockets, b.sockets);
  lists = omega (arith, a.lists, b.lists);
  live = omega (arith, a.live, b.live);
}

-- However many rounds the loop makes over packets of bytes and whatever happens in them, it keeps
-- nothing: every socket, every address list and every block that a round takes is given back, the
-- responses included.
pub serve-Holds :
    (config : Config) (events : List Event) (s : Server)
    → AreBytes events
    → Holds s.world 0 (serve config events s).0.world
unfolding serve
serve-Holds config [] s bytes = nothing_held s.world
serve-Holds config (stopped ∷ events) s bytes = nothing_held s.world
serve-Holds config (interrupted true ∷ events) s bytes = serve-Holds config events s bytes
serve-Holds config (interrupted false ∷ events) s bytes = nothing_held s.world
serve-Holds config (timed_out ∷ events) s bytes = serve-Holds config events s bytes
serve-Holds config (failed ∷ events) s bytes =
    serve-Holds config events (record s { counts = count_error s.counts }) bytes
serve-Holds config (packet buffer net sendto ∷ events) s bytes =
    Holds-trans (handle_packet-Holds config buffer net sendto s bytes.0)
      (serve-Holds config events (handle_packet config buffer net sendto s) bytes.1)

-- Each query is answered or counted as an error; no more are counted as blocked or forwarded than
-- were answered.
pub record Consistent (s : Server) : Type 0 where
  pub answered : length s.sent ≤ s.counts.query_count
  pub missing : s.counts.query_count ≤ length s.sent + s.counts.error_count
  pub classified : s.counts.blocked_count + s.counts.forwarded_count ≤ length s.sent

-- What counting a response does.
record Counted (c d : Counts) : Type 0 where
  queries : d.query_count ≡ c.query_count
  errors : d.error_count ≡ c.error_count
  one : d.blocked_count + d.forwarded_count ≤ 1 + (c.blocked_count + c.forwarded_count)

count_response-Counted : (response : Bytes) (c : Counts) → Counted c (count_response response c)
unfolding count_response
count_response-Counted response c = record {
  queries = ground arith;
  errors = ground arith;
  one = ground arith;
}

send_response-Consistent :
    (sendto : Bytes → Option ℕ) (response : Bytes) (s : Server)
    → length s.sent + 1 ≤ s.counts.query_count
    → s.counts.query_count ≤ length s.sent + 1 + s.counts.error_count
    → s.counts.blocked_count + s.counts.forwarded_count ≤ length s.sent
    → Consistent (send_response sendto response s)
unfolding send_response
send_response-Consistent sendto response s answered missing classified =
    let c = count_response-Counted response s.counts in
    let more = length-append s.sent (response ∷ []) in
    record {
      answered = ground (arith, more, c.queries);
      missing = ground (arith, more, c.queries, c.errors);
      classified = ground (arith, more, c.one);
    }

handle_packet-Consistent :
    (config : Config) (buffer : Bytes) (net : Network) (sendto : Bytes → Option ℕ) (s : Server)
    → Consistent s
    → Consistent (handle_packet config buffer net sendto s)
unfolding handle_packet
handle_packet-Consistent config buffer net sendto s c = elim (Bool-cases (ltb (length buffer) 12)) [
  | inl short ↦ rw short (record {
    answered = c.answered;
    missing = omega (arith, c.missing);
    classified = c.classified;
  })
  | inr long ↦ rw long (elim (Option-cases (process_dns_query net config buffer s.world).0) [
    | inl silent ↦ rw silent (record {
      answered = omega (arith, c.answered);
      missing = omega (arith, c.missing);
      classified = c.classified;
    })
    | inr (response, answers) ↦ rw answers (
        send_response-Consistent sendto response _ (omega (arith, c.answered))
          (omega (arith, c.missing)) c.classified)
  ])
]

-- From any state for which it holds, and whatever happens in the rounds of the loop, it still
-- holds that there are no more responses than counted queries, that each counted query has a
-- response or is counted as an error, and that no more are counted as blocked or forwarded than
-- there are responses.
pub serve-Consistent :
    (config : Config) (events : List Event) (s : Server)
    → Consistent s
    → Consistent (serve config events s).0
unfolding serve
serve-Consistent config [] s c = c
serve-Consistent config (stopped ∷ events) s c = c
serve-Consistent config (interrupted true ∷ events) s c = serve-Consistent config events s c
serve-Consistent config (interrupted false ∷ events) s c = c
serve-Consistent config (timed_out ∷ events) s c = serve-Consistent config events s c
serve-Consistent config (failed ∷ events) s c =
    serve-Consistent config events (record s { counts = count_error s.counts })
      (record {
        answered = c.answered;
        missing = omega (arith, c.missing);
        classified = c.classified;
      })
serve-Consistent config (packet buffer net sendto ∷ events) s c =
    serve-Consistent config events (handle_packet config buffer net sendto s)
      (handle_packet-Consistent config buffer net sendto s c)
