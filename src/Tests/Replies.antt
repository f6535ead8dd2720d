-- ===== src/Tests/Replies.antt =====
-- Error responses to a query with one question and to a query with two.
use personal_test_resolver.Common.{
  ◌≡◌, none, some, [], ◌∷◌, Bytes, arith, refl, All, IsByte, ◌++◌, ℕ, List, suc, ◌≢◌, zero, length,
  All-append, ◌<◌, ap, if◌then◌else◌, ltb, ◌↔◌, ◌+◌,
}
use personal_test_resolver.Response.Wrapper.{dns_build_error_response-error_bytes}
use personal_test_resolver.Message.Wrapper.{IsFirstQuery, dns_parse_query-IsFirstQuery}
use personal_test_resolver.Message.Correct.{IsMessage, parse_dns_message-IsMessage}
use personal_test_resolver.Tests.Serving.{question_taken}
use personal_test_resolver.Tests.Packets.{
  memory, query, query_header, query_bytes, question, query_bytes-IsByte, parsed_query,
}
use personal_test_resolver.Response.{
  build_error_response, question_size, skip_name, dns_build_error_response,
}
use personal_test_resolver.Wire.{Message, header_size}
use personal_test_resolver.Message.{
  parse_dns_message, parse_body, parse_questions, parse_dns_question, finish_question, keep_raw,
  c_string, dns_parse_query, query_of,
}
use personal_test_resolver.Response.Fields.{error_header, error_bytes}
use personal_test_resolver.Response.RoundTrip.{
  parse-build_error_response_fails, parse-build_error_response_question,
}
use personal_test_resolver.Common.Memory.{malloc}
use personal_test_resolver.Header.{parse_dns_header, header_at}
use personal_test_resolver.Name.{
  parse_dns_name, name_loop, name_round, copy_label, strip_dot, follow_pointer,
}
use personal_test_resolver.Encode.Labels.{IsHostLabel}
use personal_test_resolver.Encode.{encode_dns_name}
use personal_test_resolver.Encode.RoundTrip.{wire}
use personal_test_resolver.Name.Dotted.{joined}
use personal_test_resolver.Encode.Overlong.{parse-encode_overlong}

parse-build_error_response_question_example :
    (response : Bytes) × ((build_error_response (some query) 3 memory).0 ≡ some response)
    × ((parse_dns_message (some response) memory).0
        ≡ some (record {
          header = error_header query.header 3;
          questions = query.questions;
          raw_data = some response;
        }))
parse-build_error_response_question_example =
    parse-build_error_response_question query_bytes memory memory memory query 3 9
      query_bytes-IsByte parsed_query refl question_taken (omega arith) refl refl

query-IsMessage : IsMessage query_bytes query
query-IsMessage =
    (parse_dns_message-IsMessage query_bytes memory query query_bytes-IsByte refl).0 parsed_query

dns_build_error_response-error_bytes_example :
    (dns_build_error_response (some query_bytes) 512 3 memory).0
    ≡ (if ltb 512 (header_size + 9) then none else some (error_bytes query_header 3 query_bytes 9))
dns_build_error_response-error_bytes_example =
    dns_build_error_response-error_bytes query_bytes 512 3 9 memory query query_bytes-IsByte refl
      query-IsMessage question_taken (omega arith) (omega arith)

dns_parse_query-IsFirstQuery_example :
    ((dns_parse_query (some query_bytes) memory).0 ≡ some (query_of question)) ↔ (
      ((message : Message) × IsMessage query_bytes message)
      × IsFirstQuery query_bytes (query_of question))
dns_parse_query-IsFirstQuery_example =
    dns_parse_query-IsFirstQuery query_bytes memory (query_of question) query_bytes-IsByte refl

-- a.b twice, the second time as a pointer to the first
abbrev double_bytes : Bytes
double_bytes =
    0x12 ∷ 0x34 ∷ 0x01 ∷ 0x00 ∷ 0 ∷ 2 ∷ 0 ∷ 0 ∷ 0 ∷ 0 ∷ 0 ∷ 0 ∷ 1 ∷ b'a' ∷ 1 ∷ b'b' ∷ 0 ∷ 0 ∷ 1 ∷ 0
    ∷ 1 ∷ 0xc0 ∷ 12 ∷ 0 ∷ 1 ∷ 0 ∷ 1 ∷ []

abbrev double_query : Message
double_query = record {
  header = record {
    id = 0x1234;
    flags = 0x0100;
    qdcount = 2;
    ancount = 0;
    nscount = 0;
    arcount = 0;
  };
  questions = some (question ∷ question ∷ []);
  raw_data = some double_bytes;
}

double_bytes-IsByte : All IsByte double_bytes
double_bytes-IsByte = omega arith

double_parsed : (parse_dns_message (some double_bytes) memory).0 ≡ some double_query
unfolding parse_dns_message parse_body parse_questions parse_dns_question finish_question keep_raw
    malloc parse_dns_header header_at c_string parse_dns_name name_loop name_round copy_label
    strip_dot follow_pointer
double_parsed = refl

double_taken : question_size (some double_bytes) ≡ some 9
unfolding question_size skip_name
double_taken = refl

parse-build_error_response_fails_example :
    (response : Bytes) × ((build_error_response (some double_query) 3 memory).0 ≡ some response)
    × ((parse_dns_message (some response) memory).0 ≡ none)
parse-build_error_response_fails_example =
    parse-build_error_response_fails double_bytes memory memory memory double_query 3 9
      double_bytes-IsByte double_parsed (omega arith) double_taken (omega arith) refl

-- A label of `n` bytes.
abbrev letters : ℕ → Bytes
letters zero = []
letters (suc n) = b'a' ∷ letters n

All-letters : (P : ℕ → Type 0) (n : ℕ) → P b'a' → All P (letters n)
All-letters P zero h = tt
All-letters P (suc n) h = (h, All-letters P n h)

length-letters : (n : ℕ) → length (letters n) ≡ n
length-letters zero = refl
length-letters (suc n) = ap suc (length-letters n)

abbrev copies : ℕ → Bytes → List Bytes
copies zero l = []
copies (suc n) l = l ∷ copies n l

abbrev long_labels : List Bytes
long_labels = copies 4 (letters 63)

long_label : IsHostLabel (letters 63)
long_label = ((omega arith, omega arith), All-letters (λ c. c ≢ b'.') 63 (omega arith))

wire-AreBytes : (n left : ℕ) → n < 256 → All IsByte (wire (copies left (letters n)))
wire-AreBytes n zero h = (omega arith, tt)
wire-AreBytes n (suc left) h = (
  rw (length-letters n) h,
  All-append IsByte (letters n) (wire (copies left (letters n)))
      (All-letters IsByte n (omega arith)) (wire-AreBytes n left h),
)

long_bytes-IsByte : All IsByte ([] ++ (wire long_labels ++ []))
long_bytes-IsByte = All-append IsByte (wire long_labels) [] (wire-AreBytes 63 4 (omega arith)) tt

parse-encode_overlong_example :
    ((encode_dns_name (some (joined long_labels)) 300 memory).0 ≡ some (wire long_labels))
    × (length (wire long_labels) ≡ 257)
    × (parse_dns_name (some ([] ++ (wire long_labels ++ []))) 0 256 ≡ none)
parse-encode_overlong_example =
    parse-encode_overlong long_labels 300 256 memory [] [] refl
      (long_label, (long_label, (long_label, (long_label, tt)))) refl (omega arith)
      long_bytes-IsByte
