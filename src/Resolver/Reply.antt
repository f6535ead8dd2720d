-- ===== src/Resolver/Reply.antt =====
-- The answer that `forward_query` returns.
use personal_test_resolver.Common.{
  ℕ, ◌+◌, ◌≡◌, none, some, Bytes, ◌==◌, arith, Option-cases, Bool-cases, inl, inr, Option, length,
  ◌≤◌, ◌<◌, ◌/◌, suc, ◌%◌, ◌⊎◌, true, zero,
}
use personal_test_resolver.Header.{header_at, parse_dns_header}
use personal_test_resolver.Resolver.{
  Network, check_response, retry, World, forward_query, exchange, forward_raw, with_socket,
  resolve_upstream_address, open_socket,
}
use personal_test_resolver.Wire.{Message}
use personal_test_resolver.Common.Bits.{bit_and-single}
use personal_test_resolver.Common.Memory.{malloc}

-- An attempt that sends the whole query receives nothing.
abbrev pub Fails : Network → Bytes → ℕ → Type 0
Fails net raw i = net.sendto i raw ≡ some (length raw) → net.recvfrom i ≡ none

-- The first attempt from `start` on, before `bound`, that sends the whole query and receives.
pub record FirstReply (net : Network) (raw : Bytes) (start bound : ℕ) (received : Bytes)
    : Type 0 where
  pub attempt : ℕ
  pub after : start ≤ attempt
  pub before : attempt < bound
  pub sent : net.sendto attempt raw ≡ some (length raw)
  pub got : net.recvfrom attempt ≡ some received
  pub earlier : (i : ℕ) → start ≤ i → i < attempt → Fails net raw i

-- An answer to the query: both have a header, with one id, and the answer has QR set.
pub record IsReply (raw received : Bytes) : Type 0 where
  pub query_header : 12 ≤ length raw
  pub reply_header : 12 ≤ length received
  pub same_id : (header_at received).id ≡ (header_at raw).id
  pub is_response : (header_at received).flags / 0x8000 % 2 ≡ 1

retry_step :
    (left attempt : ℕ) (net : Network) (raw : Bytes) {r : Bytes}
    → retry (suc left) attempt net raw ≡ some r
    → ((net.sendto attempt raw ≡ some (length raw)) × (net.recvfrom attempt ≡ some r))
      ⊎ (Fails net raw attempt × (retry left (attempt + 1) net raw ≡ some r))
unfolding retry
retry_step left attempt net raw e = elim (Option-cases (net.sendto attempt raw)) [
  | inl fails ↦ inr (λ sent. absurd (ground arith), ground arith)
  | inr (n, sends) ↦ elim (Bool-cases (n == length raw)) [
    | inl whole ↦ elim (Option-cases (net.recvfrom attempt)) [
      | inl nothing ↦ inr (λ sent. nothing, ground arith)
      | inr (bytes, receives) ↦ inl (ground arith, ground arith)
    ]
    | inr partial ↦ inr (λ sent. absurd (ground arith), ground arith)
  ]
]

retry-FirstReply :
    (left attempt : ℕ) (net : Network) (raw : Bytes) {r : Bytes}
    → retry left attempt net raw ≡ some r
    → FirstReply net raw attempt (attempt + left) r
retry-FirstReply zero attempt net raw e = absurd (unfold retry in cc)
retry-FirstReply (suc left) attempt net raw e = elim (retry_step left attempt net raw e) [
  | inl (sent, got) ↦ record {
    attempt = attempt;
    after = omega arith;
    before = omega arith;
    sent = sent;
    got = got;
    earlier = λ i low high. absurd (omega arith);
  }
  | inr (fails, later) ↦
      let f = retry-FirstReply left (attempt + 1) net raw later in
      record {
        attempt = f.attempt;
        after = omega (arith, f.after);
        before = omega (arith, f.before);
        sent = f.sent;
        got = f.got;
        earlier = λ i low high. elim (Bool-cases (i == attempt)) [
          | inl now ↦ let here : i ≡ attempt = ground arith in rw here fails
          | inr other ↦ f.earlier i (ground arith) high
        ];
      }
]

check_response-IsReply :
    (raw received : Bytes) → check_response raw received ≡ true → IsReply raw received
unfolding check_response parse_dns_header
check_response-IsReply raw received e = record {
  query_header = ground arith;
  reply_header = ground arith;
  same_id = ground arith;
  is_response = ground (arith, bit_and-single 15 (header_at received).flags);
}

pub exchange-IsReply :
    (net : Network) (raw : Bytes) (w : World) {r : Bytes}
    → (exchange net raw w).0 ≡ some r
    → FirstReply net raw 0 3 r × IsReply raw r
unfolding exchange
exchange-IsReply net raw w {r} e = elim (Option-cases (retry 3 0 net raw)) [
  | inl fails ↦ absurd (ground arith)
  | inr (bytes, receives) ↦
      let same : bytes ≡ r = ground arith in
      let passes : check_response raw bytes ≡ true = ground arith in
      rw (← same) (retry-FirstReply 3 0 net raw receives, check_response-IsReply raw bytes passes)
]

forward_raw-exchange :
    (net : Network) (raw upstream : Bytes) (w : World) {r : Bytes}
    → (forward_raw net raw upstream w).0 ≡ some r
    → (v : World) × ((exchange net raw v).0 ≡ some r)
unfolding forward_raw with_socket
forward_raw-exchange net raw upstream w e =
    let (address, w1) = resolve_upstream_address net (some upstream) w in
    (record (open_socket w1) { mem = (malloc w1.mem).1 }, ground arith)

forward_query-raw :
    (net : Network) (query : Message) (upstream : Option Bytes) (w : World) {raw r : Bytes}
    → query.raw_data ≡ some raw
    → (forward_query net (some query) upstream w).0 ≡ some r
    → (host : Bytes) × ((forward_raw net raw host w).0 ≡ some r)
unfolding forward_query
forward_query-raw net query none w e f = absurd (ground arith)
forward_query-raw net query (some host) w e f = (host, ground arith)

-- If `forward_query` returns an answer to a query with raw data, it is what the first of at most
-- three attempts received that sent the whole data and received anything, and it is an answer to
-- them: both have at least a header, with the same id, and the answer has QR set.
pub forward_query-IsReply :
    (net : Network) (query : Message) (upstream : Option Bytes) (w : World) {raw received : Bytes}
    → query.raw_data ≡ some raw
    → (forward_query net (some query) upstream w).0 ≡ some received
    → FirstReply net raw 0 3 received × IsReply raw received
forward_query-IsReply net query upstream w {raw} e f =
    let (host, sends) = forward_query-raw net query upstream w {raw = raw} e f in
    let (v, exchanged) = forward_raw-exchange net raw host w sends in
    exchange-IsReply net raw v exchanged
