-- ===== src/Tests/Packets.antt =====
-- A query for a.b, its parts and its responses.
use personal_test_resolver.Common.{
  ◌<◌, ◌≤◌, ◌≡◌, ◌≢◌, some, [], ◌∷◌, Bytes, All, IsByte, arith, refl, ◌↔◌, stuck,
}
use personal_test_resolver.Header.{parse_dns_header, build_dns_header, header_at, header_bytes}
use personal_test_resolver.Wire.{Header, Message, Question, IsHeader}
use personal_test_resolver.Name.{
  parse_dns_name, name_loop, name_fuel, name_round, copy_label, start_at, strip_dot,
}
use personal_test_resolver.Message.{
  parse_dns_message, parse_body, parse_questions, parse_dns_question, finish_question, keep_raw,
  c_string,
}
use personal_test_resolver.Common.Memory.{Mem, malloc}
use personal_test_resolver.Name.Correct.{
  name_loop_ends, IsNameAt, parse_dns_name_bounds, parse_dns_name-IsNameAt,
}
use personal_test_resolver.Message.Correct.{IsMessage, parse_dns_message-IsMessage}
use personal_test_resolver.Response.{
  build_error_response, question_size, skip_name, allocate_response, write_response,
  response_header,
}
use personal_test_resolver.Encode.{encode_dns_name}
use personal_test_resolver.Name.Dotted.{joined}
use personal_test_resolver.Encode.RoundTrip.{wire}
use personal_test_resolver.Encode.Labels.{parse-encode_labels}

-- a.b, type A, class IN; recursion desired
abbrev pub query_bytes : Bytes
query_bytes =
    0x12 ∷ 0x34 ∷ 0x01 ∷ 0x00 ∷ 0 ∷ 1 ∷ 0 ∷ 0 ∷ 0 ∷ 0 ∷ 0 ∷ 0 ∷ 1 ∷ b'a' ∷ 1 ∷ b'b' ∷ 0 ∷ 0 ∷ 1 ∷ 0
    ∷ 1 ∷ []

pub query_bytes-IsByte : All IsByte query_bytes
query_bytes-IsByte = omega arith

abbrev pub query_header : Header
query_header = record {
  id = 0x1234;
  flags = 0x0100;
  qdcount = 1;
  ancount = 0;
  nscount = 0;
  arcount = 0;
}

query_header-IsHeader : IsHeader query_header
query_header-IsHeader = record {
  id = omega arith;
  flags = omega arith;
  qdcount = omega arith;
  ancount = omega arith;
  nscount = omega arith;
  arcount = omega arith;
}

abbrev pub memory : Mem
memory = record { grants = []; live = 0 }

abbrev pub question : Question
question = record { qname = some (b'a' ∷ b'.' ∷ b'b' ∷ []); qtype = 1; qclass = 1 }

abbrev pub query : Message
query = record {
  header = query_header;
  questions = some (question ∷ []);
  raw_data = some query_bytes;
}

parsed_header : parse_dns_header (some query_bytes) ≡ some query_header
unfolding parse_dns_header header_at
parsed_header = refl

name_loop_ends_example : name_loop name_fuel query_bytes 256 (start_at 12) ≢ stuck
name_loop_ends_example = name_loop_ends query_bytes 12 256

parsed_name : parse_dns_name (some query_bytes) 12 256 ≡ some (b'a' ∷ b'.' ∷ b'b' ∷ [], 17)
unfolding parse_dns_name name_loop name_round copy_label strip_dot
parsed_name = refl

pub parsed_query : (parse_dns_message (some query_bytes) memory).0 ≡ some query
unfolding parse_dns_message parse_body parse_questions parse_dns_question finish_question keep_raw
    malloc parse_dns_header header_at c_string parse_dns_name name_loop name_round copy_label
    strip_dot
parsed_query = refl

parse_dns_name-IsNameAt_example :
    (parse_dns_name (some query_bytes) 12 256 ≡ some (b'a' ∷ b'.' ∷ b'b' ∷ [], 17))
    ↔ IsNameAt query_bytes 12 256 (b'a' ∷ b'.' ∷ b'b' ∷ []) 17
parse_dns_name-IsNameAt_example =
    parse_dns_name-IsNameAt query_bytes 12 256 (b'a' ∷ b'.' ∷ b'b' ∷ []) 17 query_bytes-IsByte

parse_dns_name_bounds_example : (3 < 256) × (3 ≤ 254) × (12 < 17) × (17 ≤ 21)
parse_dns_name_bounds_example =
    parse_dns_name_bounds query_bytes 12 256 (b'a' ∷ b'.' ∷ b'b' ∷ []) 17 query_bytes-IsByte
      parsed_name

parse_dns_message-IsMessage_example :
    ((parse_dns_message (some query_bytes) memory).0 ≡ some query) ↔ IsMessage query_bytes query
parse_dns_message-IsMessage_example =
    parse_dns_message-IsMessage query_bytes memory query query_bytes-IsByte refl

-- The response with code 3.
abbrev refused_bytes : Bytes
refused_bytes =
    0x12 ∷ 0x34 ∷ 0x81 ∷ 0x03 ∷ 0 ∷ 1 ∷ 0 ∷ 0 ∷ 0 ∷ 0 ∷ 0 ∷ 0 ∷ 1 ∷ b'a' ∷ 1 ∷ b'b' ∷ 0 ∷ 0 ∷ 1 ∷ 0
    ∷ 1 ∷ []

built_response : (build_error_response (some query) 3 memory).0 ≡ some refused_bytes
unfolding build_error_response question_size skip_name allocate_response write_response
    response_header build_dns_header header_bytes malloc
built_response = refl

parse-encode_labels_example :
    ((encode_dns_name (some (joined ((b'a' ∷ []) ∷ (b'b' ∷ []) ∷ []))) 256 memory).0
      ≡ some (wire ((b'a' ∷ []) ∷ (b'b' ∷ []) ∷ [])))
    × (parse_dns_name (some (7 ∷ 1 ∷ b'a' ∷ 1 ∷ b'b' ∷ 0 ∷ 9 ∷ [])) 1 256
        ≡ some (joined ((b'a' ∷ []) ∷ (b'b' ∷ []) ∷ []), 6))
parse-encode_labels_example =
    parse-encode_labels ((b'a' ∷ []) ∷ (b'b' ∷ []) ∷ []) 256 memory (7 ∷ []) (9 ∷ []) refl
      (omega arith) (omega arith) (omega arith) (omega arith)
