-- ===== src/Response/Leaks.antt =====
-- The blocks that building a response takes from the heap.
use personal_test_resolver.Common.{
  ℕ, ◌+◌, ◌≡◌, some, none, Option, Bytes, arith, All, IsByte, Option-cases, inl, inr,
}
use personal_test_resolver.Common.Memory.{Mem, malloc, malloc_live, release}
use personal_test_resolver.Message.{parse_dns_message}
use personal_test_resolver.Message.Release.{free-parse_dns_message_at}
use personal_test_resolver.Response.{
  question_size, allocate_response, build_error_response, dns_build_error_response, response_header,
}
use personal_test_resolver.Response.Fields.{write_response_bytes, question_size_bounds}
use personal_test_resolver.Wire.{Message}
use personal_test_resolver.Message.Leaks.{parse_dns_message_live}

-- One block for a buffer that is there.
abbrev pub block : Option Bytes → ℕ
block none = 0
block (some _) = 1

-- Building an error response takes one block if it succeeds, and none if it fails.
pub build_error_response_live :
    (query : Option Message) (rcode : ℕ) (m : Mem)
    → (build_error_response query rcode m).1.live
      ≡ m.live + block (build_error_response query rcode m).0
unfolding build_error_response allocate_response
build_error_response_live none rcode m = omega arith
build_error_response_live (some query) rcode m = elim (Option-cases query.raw_data) [
  | inl null ↦ ground arith
  | inr (raw, r) ↦ elim (Option-cases (question_size (some raw))) [
    | inl fails ↦ ground arith
    | inr (size, s) ↦ ground (
      arith,
      malloc_live m,
      write_response_bytes (response_header query.header rcode) raw size (malloc m).1
          (question_size_bounds raw s).1,
    )
  ]
]

-- On a buffer of bytes `dns_build_error_response` gives back all that it took, on every path and
-- whichever requests are refused.
pub dns_build_error_response_live :
    (buffer : Bytes) (max_len rcode : ℕ) (m : Mem)
    → All IsByte buffer
    → (dns_build_error_response (some buffer) max_len rcode m).1.live ≡ m.live
unfolding dns_build_error_response
dns_build_error_response_live buffer max_len rcode m bytes =
    let parsed = parse_dns_message (some buffer) m in
    elim (Option-cases parsed.0) [
      | inl fails ↦ ground (arith, parse_dns_message_live (some buffer) m)
      | inr (query, p) ↦
          let built = build_error_response (some query) rcode parsed.1 in
          let taken = build_error_response_live (some query) rcode parsed.1 in
          elim (Option-cases built.0) [
            | inl fails ↦ ground (
              arith,
              parse_dns_message_live (some buffer) m,
              taken,
              free-parse_dns_message_at buffer m built.1 bytes p,
            )
            | inr (response, b) ↦ ground (
              arith,
              parse_dns_message_live (some buffer) m,
              taken,
              free-parse_dns_message_at buffer m (release 1 built.1) bytes p,
            )
          ]
    ]
