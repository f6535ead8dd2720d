-- ===== src/Response/Wrapper.antt =====
-- The wrapper dns_build_error_response over byte buffers.
use personal_test_resolver.Common.{
  ℕ, ◌+◌, ◌≤◌, ◌<◌, ◌≡◌, none, some, Bytes, All, IsByte, arith, if◌then◌else◌, ltb,
}
use personal_test_resolver.Response.{dns_build_error_response, question_size}
use personal_test_resolver.Common.Memory.{Mem, Plentiful}
use personal_test_resolver.Wire.{Message, header_size}
use personal_test_resolver.Message.Correct.{IsMessage, parse_dns_message-IsMessage}
use personal_test_resolver.Response.Fields.{
  error_bytes, build_error_response_bytes, question_size_bounds,
}
use personal_test_resolver.Message.{parse_dns_message}
use personal_test_resolver.Message.Plenty.{parse_dns_message_keeps}
use personal_test_resolver.Response.Question.{length-error_bytes}

-- With memory to spare, and room for at least one byte: for the bytes of a message whose first question
-- is uncompressed and takes `size` bytes, and a code up to 5, `dns_build_error_response` puts the
-- header of an error response and that question into the buffer if they fit, and else nothing.
pub dns_build_error_response-error_bytes :
    (buffer : Bytes) (max_len rcode size : ℕ) (m : Mem) (query : Message)
    → All IsByte buffer
    → Plentiful m
    → IsMessage buffer query
    → question_size (some buffer) ≡ some size
    → rcode ≤ 5
    → 0 < max_len
    → (dns_build_error_response (some buffer) max_len rcode m).0 ≡ (
        if ltb max_len (header_size + size)
        then none
        else some (error_bytes query.header rcode buffer size))
unfolding dns_build_error_response
dns_build_error_response-error_bytes buffer max_len rcode size m query bytes plenty v takes code
      room =
    let m1 = (parse_dns_message (some buffer) m).1 in
    ground (
      arith,
      v.long,
      (parse_dns_message-IsMessage buffer m query bytes plenty).1 v,
      build_error_response_bytes query rcode m1 buffer (parse_dns_message_keeps buffer m plenty)
          code v.raw takes,
      length-error_bytes query.header rcode buffer size (question_size_bounds buffer takes).1,
    )
