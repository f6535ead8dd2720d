-- ===== src/Response.antt =====
-- `build_error_response` and `dns_build_error_response` of dns_builder.c.
pub mod Fields
pub mod Leaks
pub mod Question
pub mod RoundTrip
pub mod Wrapper
use personal_test_resolver.Common.{
  ℕ, zero, suc, ◌+◌, ◌-◌, ◌%◌, bit_and, bit_or, Bool, true, false, ◌||◌, Option, none, some, List,
  [], ◌∷◌, ◌++◌, Bytes, length, take, drop, get_or, ltb, leb, ◌==◌, if◌then◌else◌, Outcome, ok, err,
  stuck, settle,
}
use personal_test_resolver.Common.Memory.{Mem, malloc, release}
use personal_test_resolver.Header.{build_dns_header}
use personal_test_resolver.Message.{parse_dns_message, free_dns_message}
use personal_test_resolver.Wire.{Header, Message, header_size, rcode_refused, flag_qr, flag_rd}

-- The walk of `qname_ptr` over the labels, from position `pos` of the raw data to a zero byte or past
-- the end, with a bound on its rounds.
unfoldable pub skip_name : ℕ → Bytes → ℕ → Outcome ℕ
skip_name zero raw pos = stuck
skip_name (suc fuel) raw pos =
    let label_len = get_or raw pos 0 in
    let rest = skip_name fuel raw (pos + (label_len + 1)) in
    if leb (length raw) pos
    then ok pos
    else if label_len == 0
    then ok pos
    else if leb 64 label_len
    then err
    else rest

-- The tests behind the walk: a zero byte is there, and four bytes behind it.
abbrev pub end_of_question : Bytes → ℕ → Option ℕ
end_of_question raw pos =
    if leb (length raw) pos
    then none
    else if ltb (length raw) (pos + 5)
    then none
    else some (pos + 5)

-- `question_size`, by the raw data; NULL or nothing behind the header is an error.
unfoldable pub question_size : Option Bytes → Option ℕ
question_size none = none
question_size (some raw) =
    if leb (length raw) header_size
    then none
    else elim (settle (skip_name (length raw + 1) raw header_size)) [
      | none ↦ none
      | some pos ↦ elim (end_of_question raw pos) [
        | none ↦ none
        | some end ↦ some (end - header_size)
      ]
    ]

-- The header of the response: the query's id, RD and count of questions, QR and the code.
unfoldable pub response_header : Header → ℕ → Header
response_header query rcode = record {
  id = query.id;
  flags = bit_or (bit_or flag_qr (bit_and query.flags flag_rd)) rcode;
  qdcount = query.qdcount;
  ancount = 0;
  nscount = 0;
  arcount = 0;
}

-- A block of `n` bytes from `malloc`; all of them are overwritten below.
abbrev pub fresh : ℕ → Bytes
fresh zero = []
fresh (suc n) = 0 ∷ fresh n

-- `memcpy(buffer + at, source, length source)`
abbrev pub copy_into : Bytes → ℕ → Bytes → Bytes
copy_into buffer at source = take at buffer ++ (source ++ drop (at + length source) buffer)

-- The block is there: header and question are written into it.
unfoldable pub write_response : Header → Bytes → ℕ → Mem → Option Bytes × Mem
write_response header raw size m =
    elim (build_dns_header (some (fresh (header_size + size))) (some header)) [
      | none ↦ (none, release 1 m)
      | some buffer ↦ (some (copy_into buffer header_size (take size (drop header_size raw))), m)
    ]

-- A query with raw data, whose question takes `size` bytes.
unfoldable pub allocate_response : Header → Bytes → ℕ → ℕ → Mem → Option Bytes × Mem
allocate_response query raw rcode size m =
    let (granted, m') = malloc m in
    if granted then write_response (response_header query rcode) raw size m' else (none, m')

unfoldable pub build_error_response : Option Message → ℕ → Mem → Option Bytes × Mem
build_error_response none rcode m = (none, m)
build_error_response (some query) rcode m =
    if ltb rcode_refused rcode then (none, m) else elim query.raw_data [
      | none ↦ (none, m)
      | some raw ↦ elim (question_size (some raw)) [
        | none ↦ (none, m)
        | some size ↦ allocate_response query.header raw rcode size m
      ]
    ]

-- The wrapper over byte buffers: the bytes put into the caller's buffer of `max_len` bytes, whose
-- number it returns as a uint16_t; `none` is its result 0.
unfoldable pub dns_build_error_response : Option Bytes → ℕ → ℕ → Mem → Option Bytes × Mem
dns_build_error_response none max_len rcode m = (none, m)
dns_build_error_response (some buffer) max_len rcode m =
    if length buffer == 0 || max_len == 0
    then (none, m)
    else let (parsed, m1) = parse_dns_message (some buffer) m in
      elim parsed [
        | none ↦ (none, m1)
        | some query ↦
            let (built, m2) = build_error_response (some query) rcode m1 in
            elim built [
              | none ↦ (none, (free_dns_message query m2).1)
              | some response ↦
                  let m3 = (free_dns_message query (release 1 m2)).1 in
                  (if ltb max_len (length response) then none else some response, m3)
            ]
      ]
