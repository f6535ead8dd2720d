-- ===== src/Resolver/Output.antt =====
-- What resolver.c prints, all of it on stderr.
use personal_test_resolver.Console.{
  Console, Part, text, argument, natural, hexadecimal, print_error, verbose_log_raw,
}
use personal_test_resolver.Common.{
  ℕ, zero, suc, ◌+◌, bit_and, Option, none, some, List, [], ◌∷◌, Bytes, length, if◌then◌else◌, ltb,
  ◌==◌, not,
}
use personal_test_resolver.Common.Memory.{Mem, malloc}
use personal_test_resolver.Header.{parse_dns_header}
use personal_test_resolver.Wire.{Message, Header, flag_qr, header_size}
use personal_test_resolver.Resolver.{
  Network, World, first_ipv4, resolve_upstream_address, upstream_retries, retry,
}

-- What `gai_strerror` and `strerror` say of the calls that fail, a call of `sendto` and of `recvfrom` by
-- the number of its attempt. `recv_error` is `none` for EAGAIN and EWOULDBLOCK.
pub record Errors : Type 0 where
  pub address_error : Bytes
  pub socket_error : Bytes
  pub timeout_error : Bytes
  pub send_error : ℕ → Bytes
  pub recv_error : ℕ → Option Bytes

-- `resolve_upstream_address`
unfoldable pub address_output : Network → Errors → Bytes → Console → Console
address_output net errors hostname console =
    if net.is_ipv4 hostname then console else elim (net.getaddrinfo hostname) [
      | none ↦
          print_error
            (text "Failed to resolve hostname '"
              ∷ argument hostname
              ∷ text "': "
              ∷ argument errors.address_error
              ∷ [])
            console
      | some infos ↦ elim (first_ipv4 infos) [
        | some ip ↦ console
        | none ↦
            print_error
              (text "No IPv4 address found for hostname '" ∷ argument hostname ∷ text "'" ∷ [])
              console
      ]
    ]

-- One attempt, ahead of `sendto`.
abbrev pub attempt_output : ℕ → Console → Console
attempt_output zero console = console
attempt_output (suc attempt) console =
    verbose_log_raw
      (text "  Retry attempt "
        ∷ natural (attempt + 2)
        ∷ text "/"
        ∷ natural upstream_retries
        ∷ text "..."
        ∷ [])
      console

abbrev pub recv_output : Option Bytes → Console → Console
recv_output none console = verbose_log_raw (text "  Upstream timeout" ∷ []) console
recv_output (some error) console =
    print_error (text "Failed to receive from upstream: " ∷ argument error ∷ []) console

-- The retry loop.
unfoldable pub retry_output : ℕ → ℕ → Network → Errors → Bytes → Console → Console
retry_output zero attempt net errors raw console = console
retry_output (suc left) attempt net errors raw console =
    let told = attempt_output attempt console in
    let again : Console → Console = retry_output left (attempt + 1) net errors raw in
    elim (net.sendto attempt raw) [
      | none ↦ again (
          print_error
            (text "Failed to send to upstream: " ∷ argument (errors.send_error attempt) ∷ []) told)
      | some sent ↦
          if sent == length raw
          then elim (net.recvfrom attempt) [
            | none ↦ again (recv_output (errors.recv_error attempt) told)
            | some received ↦ told
          ]
          else again (
              print_error
                (text "Partial send to upstream ("
                  ∷ natural sent
                  ∷ text "/"
                  ∷ natural (length raw)
                  ∷ text " bytes)"
                  ∷ [])
                told)
    ]

abbrev pub truncated_output : Header → Console → Console
truncated_output resp_header console =
    if bit_and resp_header.flags 0x0200 == 0
    then console
    else verbose_log_raw (text "  Warning: Upstream response truncated (TC flag set)" ∷ []) console

-- The last line, on an answer that is accepted.
abbrev pub answer_line : Bytes → Header → List Part
answer_line received resp_header =
    text "  Upstream response: "
    ∷ natural (length received)
    ∷ text " bytes, RCODE="
    ∷ natural (bit_and resp_header.flags 0x0f)
    ∷ text ", ANCOUNT="
    ∷ natural resp_header.ancount
    ∷ []

abbrev pub mismatch_line : Header → Header → List Part
mismatch_line query_header resp_header =
    text "Transaction ID mismatch (query: 0x"
    ∷ hexadecimal 4 query_header.id
    ∷ text ", response: 0x"
    ∷ hexadecimal 4 resp_header.id
    ∷ text ")"
    ∷ []

-- The checks of an answer, and the line behind them.
unfoldable pub check_output : Bytes → Bytes → Console → Console
check_output raw received console =
    if ltb (length received) header_size
    then print_error
        (text "Upstream response too short (" ∷ natural (length received) ∷ text " bytes)" ∷ [])
        console
    else elim (parse_dns_header (some raw)) [
      | none ↦ print_error (text "Failed to parse query header for validation" ∷ []) console
      | some query_header ↦ elim (parse_dns_header (some received)) [
        | none ↦ print_error (text "Failed to parse upstream response header" ∷ []) console
        | some resp_header ↦
            if query_header.id == resp_header.id
            then if bit_and resp_header.flags flag_qr == 0
              then print_error (text "Upstream response has QR=0 (not a response)" ∷ [])
                  (truncated_output resp_header console)
              else verbose_log_raw (answer_line received resp_header)
                  (truncated_output resp_header console)
            else print_error (mismatch_line query_header resp_header) console
      ]
    ]

-- Behind the allocation of the buffer.
unfoldable pub exchange_output : Network → Errors → Bytes → Console → Console
exchange_output net errors raw console =
    let told = retry_output upstream_retries 0 net errors raw console in
    elim (retry upstream_retries 0 net raw) [
      | none ↦
          print_error
            (text "Failed to get response from upstream after "
              ∷ natural upstream_retries
              ∷ text " attempts"
              ∷ [])
            told
      | some received ↦ check_output raw received told
    ]

-- With the socket open.
unfoldable pub socket_output : Network → Errors → Bytes → Bytes → Mem → Console → Console
socket_output net errors ip raw m console =
    if not net.timeout_set
    then print_error (text "Failed to set socket timeout: " ∷ argument errors.timeout_error ∷ [])
        console
    else if not (net.is_ipv4 ip)
    then print_error (text "Invalid upstream IP address: " ∷ argument ip ∷ []) console
    else if (malloc m).0
    then exchange_output net errors raw console
    else print_error (text "Failed to allocate response buffer" ∷ []) console

-- Behind the tests of the arguments.
unfoldable pub raw_output : Network → Errors → Bytes → Bytes → World → Console → Console
raw_output net errors raw upstream w console =
    let (address, w1) = resolve_upstream_address net (some upstream) w in
    let told = address_output net errors upstream console in
    elim address [
      | none ↦ told
      | some ip ↦
          if net.socket_made
          then socket_output net errors ip raw w1.mem told
          else print_error
              (text "Failed to create upstream socket: " ∷ argument errors.socket_error ∷ []) told
    ]

-- `forward_query`
unfoldable pub forward_output :
    Network → Errors → Option Message → Option Bytes → World → Console → Console
forward_output net errors none upstream w console = console
forward_output net errors (some query) none w console = console
forward_output net errors (some query) (some upstream) w console =
    let missing = print_error (text "Query has no raw data to forward" ∷ []) console in
    elim query.raw_data [
      | none ↦ missing
      | some raw ↦ if length raw == 0 then missing else raw_output net errors raw upstream w console
    ]
