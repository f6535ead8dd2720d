-- ===== src/Resolver.antt =====
-- resolver.c: a query is sent to the upstream server and its answer checked. What the system's calls
-- return is an argument, `Network`.
pub mod Leaks
pub mod Reply
pub mod Plenty
pub mod Address
pub mod Forwarded
pub mod Output
pub mod Reported
use personal_test_resolver.Common.{
  ℕ, zero, suc, ◌+◌, bit_and, Bool, true, false, Option, none, some, List, [], ◌∷◌, Bytes, length,
  take, if◌then◌else◌, ltb, ◌==◌, not, ◌-◌,
}
use personal_test_resolver.Common.Memory.{Mem, malloc, release}
use personal_test_resolver.Wire.{Message, flag_qr, header_size}
use personal_test_resolver.Header.{parse_dns_header}

-- A node of the list that `getaddrinfo` returns: whether it is AF_INET, and what `inet_ntop` makes of
-- its address.
pub record AddressInfo : Type 0 where
  pub is_inet : Bool
  pub text : Option Bytes

-- What the calls of one `forward_query` return. `is_ipv4 s` is `inet_pton(AF_INET, s) == 1`; `none`
-- is an error, of getaddrinfo or -1. `sendto` and `recvfrom` are given the number of the attempt.
pub record Network : Type 0 where
  pub is_ipv4 : Bytes → Bool
  pub getaddrinfo : Bytes → Option (List AddressInfo)
  pub socket_made : Bool
  pub timeout_set : Bool
  pub sendto : ℕ → Bytes → Option ℕ
  pub recvfrom : ℕ → Option Bytes

-- The heap, the open sockets, and the address lists that `freeaddrinfo` has still to release.
pub record World : Type 0 where
  pub mem : Mem
  pub sockets : ℕ
  pub lists : ℕ

-- The loop over the address list: the first IPv4 address that has a text.
unfoldable pub first_ipv4 : List AddressInfo → Option Bytes
first_ipv4 [] = none
first_ipv4 (info ∷ rest) =
    let later = first_ipv4 rest in
    if info.is_inet then elim info.text [ none ↦ later | some ip ↦ some ip ] else later

-- `resolve_upstream_address`: the text for `ip_addr`. An address of IPv4 is copied, at most 15 bytes.
unfoldable pub resolve_upstream_address : Network → Option Bytes → World → Option Bytes × World
resolve_upstream_address net none w = (none, w)
resolve_upstream_address net (some hostname) w =
    if net.is_ipv4 hostname then (some (take 15 hostname), w) else elim (net.getaddrinfo hostname) [
      | none ↦ (none, w)
      | some infos ↦
          let held = record w { lists = w.lists + 1 } in
          (first_ipv4 infos, record held { lists = held.lists - 1 })
    ]

-- UPSTREAM_RETRIES, DNS_FLAG_TC is only reported
abbrev pub upstream_retries : ℕ
upstream_retries = 3

-- The retry loop: the bytes received, if an attempt succeeds.
unfoldable pub retry : ℕ → ℕ → Network → Bytes → Option Bytes
retry zero attempt net raw = none
retry (suc left) attempt net raw =
    let again = retry left (attempt + 1) net raw in
    elim (net.sendto attempt raw) [
      | none ↦ again
      | some sent ↦
          if sent == length raw
          then elim (net.recvfrom attempt) [ none ↦ again | some received ↦ some received ]
          else again
    ]

-- The checks of an answer: long enough, both headers parse, the same id, and QR.
unfoldable pub check_response : Bytes → Bytes → Bool
check_response raw received =
    if ltb (length received) header_size then false else elim (parse_dns_header (some raw)) [
      | none ↦ false
      | some query_header ↦ elim (parse_dns_header (some received)) [
        | none ↦ false
        | some resp_header ↦
            if query_header.id == resp_header.id
            then not (bit_and resp_header.flags flag_qr == 0)
            else false
      ]
    ]

abbrev pub open_socket : World → World
open_socket w = record w { sockets = w.sockets + 1 }

-- `close(sockfd)`
abbrev pub close_socket : World → World
close_socket w = record w { sockets = w.sockets - 1 }

-- `free(resp_buffer)`
abbrev pub free_buffer : World → World
free_buffer w = record w { mem = release 1 w.mem }

-- Behind the allocation of the buffer.
unfoldable pub exchange : Network → Bytes → World → Option Bytes × World
exchange net raw w = elim (retry upstream_retries 0 net raw) [
  | none ↦ (none, close_socket (free_buffer w))
  | some received ↦
      if check_response raw received
      then (some received, close_socket w)
      else (none, close_socket (free_buffer w))
]

-- With the socket open: the timeout, the address and the buffer.
unfoldable pub with_socket : Network → Bytes → Bytes → World → Option Bytes × World
with_socket net ip raw w =
    let (granted, m) = malloc w.mem in
    if not net.timeout_set
    then (none, close_socket w)
    else if not (net.is_ipv4 ip)
    then (none, close_socket w)
    else if granted
    then exchange net raw (record w { mem = m })
    else (none, close_socket (record w { mem = m }))

-- Behind the tests of the arguments: the address and the socket.
unfoldable pub forward_raw : Network → Bytes → Bytes → World → Option Bytes × World
forward_raw net raw upstream w =
    let (address, w1) = resolve_upstream_address net (some upstream) w in
    elim address [
      | none ↦ (none, w1)
      | some ip ↦ if net.socket_made then with_socket net ip raw (open_socket w1) else (none, w1)
    ]

-- `forward_query`: the buffer with the answer.
unfoldable pub forward_query :
    Network → Option Message → Option Bytes → World → Option Bytes × World
forward_query net none upstream w = (none, w)
forward_query net (some query) none w = (none, w)
forward_query net (some query) (some upstream) w = elim query.raw_data [
  | none ↦ (none, w)
  | some raw ↦ if length raw == 0 then (none, w) else forward_raw net raw upstream w
]

-- `create_upstream_socket`: whether it returns a descriptor, which then stays open.
unfoldable pub create_upstream_socket : Network → World → Bool × World
create_upstream_socket net w =
    if not net.socket_made
    then (false, w)
    else if net.timeout_set
    then (true, open_socket w)
    else (false, close_socket (open_socket w))
