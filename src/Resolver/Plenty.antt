-- ===== src/Resolver/Plenty.antt =====
-- Forwarding leaves memory to spare where there was.
use personal_test_resolver.Common.{
  none, some, Bytes, arith, Option-cases, Bool-cases, inl, inr, Option,
}
use personal_test_resolver.Common.Memory.{malloc_keeps, Plentiful}
use personal_test_resolver.Resolver.{
  forward_query, Network, with_socket, exchange, World, forward_raw, resolve_upstream_address,
  open_socket,
}
use personal_test_resolver.Wire.{Message}
use personal_test_resolver.Resolver.Leaks.{forward_raw-unreachable, forward_raw-with_socket}

with_socket_keeps :
    (net : Network) (ip raw : Bytes) (w : World)
    → Plentiful w.mem
    → Plentiful (with_socket net ip raw w).1.mem
unfolding with_socket exchange
with_socket_keeps net ip raw w plenty = ground (arith, malloc_keeps w.mem plenty)

forward_raw_keeps :
    (net : Network) (raw host : Bytes) (w : World)
    → Plentiful w.mem
    → Plentiful (forward_raw net raw host w).1.mem
forward_raw_keeps net raw host w plenty =
    elim (Option-cases (resolve_upstream_address net (some host) w).0) [
      | inl fails ↦ rw (forward_raw-unreachable net raw host w (inl fails)) plenty
      | inr (ip, resolves) ↦ elim (Bool-cases net.socket_made) [
        | inl made ↦
            rw (forward_raw-with_socket net raw host ip w resolves made)
              (with_socket_keeps net ip raw (open_socket w) plenty)
        | inr failed ↦ rw (forward_raw-unreachable net raw host w (inr failed)) plenty
      ]
    ]

pub forward_query_keeps :
    (net : Network) (query : Option Message) (upstream : Option Bytes) (w : World)
    → Plentiful w.mem
    → Plentiful (forward_query net query upstream w).1.mem
unfolding forward_query
forward_query_keeps net none upstream w plenty = plenty
forward_query_keeps net (some query) none w plenty = plenty
forward_query_keeps net (some query) (some host) w plenty = elim (Option-cases query.raw_data) [
  | inl null ↦ ground (arith, plenty)
  | inr (raw, has) ↦ ground (arith, forward_raw_keeps net raw host w plenty)
]
