-- ===== src/Resolver/Forwarded.antt =====
-- When `forward_query` returns an answer, from the address of the upstream server on.
use personal_test_resolver.Common.{
  ℕ, ◌+◌, ◌≡◌, some, Bytes, arith, true, inl, inr, zero, suc, ◌↔◌, Bool-cases, Option-cases, ◌==◌,
  length, ==_iff, ◌<◌,
}
use personal_test_resolver.Resolver.{
  resolve_upstream_address, Network, World, retry, with_socket, check_response, exchange,
  forward_query, forward_raw, open_socket,
}
use personal_test_resolver.Resolver.Reply.{FirstReply, IsReply, Fails, exchange-IsReply}
use personal_test_resolver.Header.{parse_dns_header, header_at}
use personal_test_resolver.Common.Bits.{bit_and-single}
use personal_test_resolver.Common.Memory.{Plentiful, malloc-Plentiful, malloc}
use personal_test_resolver.Wire.{Message}
use personal_test_resolver.Resolver.Address.{Resolves, Resolves-resolve, resolve-Resolves}

-- All that has to go well for `received` to be the answer to `raw` from `host`.
pub record IsForwarded (net : Network) (raw host received : Bytes) : Type 0 where
  pub ip : Bytes
  pub resolves : Resolves net host ip
  pub is_ipv4 : net.is_ipv4 ip ≡ true
  pub socket_made : net.socket_made ≡ true
  pub timeout_set : net.timeout_set ≡ true
  pub first : FirstReply net raw 0 3 received
  pub reply : IsReply raw received

module _ (left attempt : ℕ) (net : Network) (raw : Bytes) where
  retry_now :
      {r : Bytes}
      → net.sendto attempt raw ≡ some (length raw)
      → net.recvfrom attempt ≡ some r
      → retry (suc left) attempt net raw ≡ some r
  unfolding retry
  retry_now sent got = ground (arith, ==_iff (length raw) (length raw))

  retry_later :
      Fails net raw attempt → retry (suc left) attempt net raw ≡ retry left (attempt + 1) net raw
  unfolding retry
  retry_later fails = elim (Option-cases (net.sendto attempt raw)) [
    | inl unsent ↦ ground arith
    | inr (n, sends) ↦ elim (Bool-cases (n == length raw)) [
      | inl whole ↦
          let all_sent : net.sendto attempt raw ≡ some (length raw) =
            ground (arith, ==_iff n (length raw)) in
          ground (arith, fails all_sent)
      | inr partial ↦ ground arith
    ]
  ]

FirstReply-retry :
    (left attempt : ℕ) (net : Network) (raw : Bytes) {r : Bytes}
    → FirstReply net raw attempt (attempt + left) r
    → retry left attempt net raw ≡ some r
FirstReply-retry zero attempt net raw f = absurd (omega (arith, f.after, f.before))
FirstReply-retry (suc left) attempt net raw f = elim (Bool-cases (f.attempt == attempt)) [
  | inl now ↦
      let here : f.attempt ≡ attempt = ground arith in
      retry_now left attempt net raw (rw here at f.sent) (rw here at f.got)
  | inr other ↦
      let past : attempt < f.attempt = ground (arith, f.after) in
      rw (retry_later left attempt net raw (f.earlier attempt (omega arith) past)) (
        FirstReply-retry left (attempt + 1) net raw (record {
          attempt = f.attempt;
          after = omega arith;
          before = omega (arith, f.before);
          sent = f.sent;
          got = f.got;
          earlier = λ i low high. f.earlier i (omega arith) high;
        }))
]

IsReply-check_response :
    (raw received : Bytes) → IsReply raw received → check_response raw received ≡ true
unfolding check_response parse_dns_header
IsReply-check_response raw received v = ground (
  arith,
  v.query_header,
  v.reply_header,
  v.same_id,
  v.is_response,
  bit_and-single 15 (header_at received).flags,
)

-- Behind the address.
with_socket_sound :
    (net : Network) (ip raw : Bytes) (w : World) {r : Bytes}
    → (with_socket net ip raw w).0 ≡ some r
    → (net.is_ipv4 ip ≡ true) × (net.timeout_set ≡ true) × FirstReply net raw 0 3 r × IsReply raw r
unfolding with_socket
with_socket_sound net ip raw w {r} e =
    let granted = record w { mem = (malloc w.mem).1 } in
    let sent : (exchange net raw granted).0 ≡ some r = ground arith in
    let checked : FirstReply net raw 0 3 r × IsReply raw r =
      exchange-IsReply net raw granted sent in
    (ground arith, ground arith, checked.0, checked.1)

with_socket_complete :
    (net : Network) (ip raw : Bytes) (w : World) {r : Bytes}
    → Plentiful w.mem
    → net.is_ipv4 ip ≡ true
    → net.timeout_set ≡ true
    → FirstReply net raw 0 3 r
    → IsReply raw r
    → (with_socket net ip raw w).0 ≡ some r
unfolding with_socket exchange
with_socket_complete net ip raw w {r} plenty valid set first reply = ground (
  arith,
  malloc-Plentiful w.mem plenty,
  FirstReply-retry 3 0 net raw {r = r} first,
  IsReply-check_response raw r reply,
)

forward_raw_sound :
    (net : Network) (raw host : Bytes) (w : World) {r : Bytes}
    → (forward_raw net raw host w).0 ≡ some r
    → IsForwarded net raw host r
unfolding forward_raw
forward_raw_sound net raw host w {r} e =
    let resolving = resolve_upstream_address net (some host) w in
    elim (Option-cases resolving.0) [
      | inl fails ↦ absurd (ground arith)
      | inr (ip, resolves) ↦
          let sent : (with_socket net ip raw (open_socket resolving.1)).0 ≡ some r = ground arith in
          let (valid, set, first, reply) =
            with_socket_sound net ip raw (open_socket resolving.1) sent in
          record {
            ip = ip;
            resolves = resolve-Resolves net host w resolves;
            is_ipv4 = valid;
            socket_made = ground arith;
            timeout_set = set;
            first = first;
            reply = reply;
          }
    ]

forward_raw_complete :
    (net : Network) (raw host : Bytes) (w : World) {r : Bytes}
    → Plentiful w.mem
    → IsForwarded net raw host r
    → (forward_raw net raw host w).0 ≡ some r
unfolding forward_raw
forward_raw_complete net raw host w plenty v =
    let (resolves, same) = Resolves-resolve net host w v.resolves in
    let opened = open_socket (resolve_upstream_address net (some host) w).1 in
    ground (
      arith,
      resolves,
      v.socket_made,
      with_socket_complete net v.ip raw opened (rw same plenty) v.is_ipv4 v.timeout_set v.first
          v.reply,
    )

-- With memory to spare, `forward_query` returns an answer to a query with raw data exactly when all of
-- this holds: the upstream server is an IPv4 address, or a name of which the first IPv4 address that
-- has a text is taken; the socket and its timeout can be set up; the answer is what the first of three
-- attempts received that sent the whole data and received anything; and query and answer both have
-- a header, with the same id, the answer's with QR set.
pub forward_query-IsForwarded :
    (net : Network) (query : Message) (host : Bytes) (w : World) (raw received : Bytes)
    → Plentiful w.mem
    → query.raw_data ≡ some raw
    → ((forward_query net (some query) (some host) w).0 ≡ some received)
      ↔ IsForwarded net raw host received
unfolding forward_query
forward_query-IsForwarded net query host w raw received plenty has = (
  λ e. forward_raw_sound net raw host w (ground arith),
  λ v. ground (arith, forward_raw_complete net raw host w plenty v, v.reply.query_header),
)
