-- ===== src/Response/RoundTrip.antt =====
-- An error response, parsed as a client parses it.
use personal_test_resolver.Common.{
  ℕ, ◌≤◌, ◌<◌, ◌≡◌, refl, List, [], ◌∷◌, Bytes, length, take, drop, arith, IsByte, All, bit_and,
  some, All-append, All-take, sym, All-drop, ◌/◌, inl, inr, ap, none, Option, ◌∙◌, Option-cases,
}
use mathlib.Core.List.{map}
use personal_test_resolver.Message.Questions.{nil, cons, QuestionAt-unique, QuestionAt}
use personal_test_resolver.Header.{header_bytes, header_at}
use personal_test_resolver.Wire.{Header, Message, header_size, Question}
use personal_test_resolver.Common.Memory.{Mem, Plentiful}
use personal_test_resolver.Common.Bits.{bit_and-0xff}
use personal_test_resolver.Message.{parse_dns_message}
use personal_test_resolver.Response.{question_size, build_error_response}
use personal_test_resolver.Response.Fields.{
  error_bytes, error_header, response_header-IsHeader, question_size_bounds,
  build_error_response_bytes, response_header-error_header,
}
use personal_test_resolver.Message.Correct.{
  IsMessage, parse_dns_message_sound, HasQuestions, parse_dns_message-IsHeader,
  parse_dns_message-IsMessage,
}
use personal_test_resolver.Header.RoundTrip.{header_at-header_bytes}
use personal_test_resolver.Response.Question.{length-error_bytes, QuestionAt-error_bytes}

low_half-IsByte : (a : ℕ) → IsByte (bit_and a 0xff)
low_half-IsByte a = omega (arith, bit_and-0xff a)

low_bytes-AreBytes : (xs : List ℕ) → All IsByte (map (λ x. bit_and x 0xff) xs)
low_bytes-AreBytes [] = tt
low_bytes-AreBytes (x ∷ xs) = (low_half-IsByte x, low_bytes-AreBytes xs)

header_bytes-AreBytes : (h : Header) → All IsByte (header_bytes h)
unfolding header_bytes
header_bytes-AreBytes h = low_bytes-AreBytes (
    h.id / 256
    ∷ h.id
    ∷ h.flags / 256
    ∷ h.flags
    ∷ h.qdcount / 256
    ∷ h.qdcount
    ∷ h.ancount / 256
    ∷ h.ancount
    ∷ h.nscount / 256
    ∷ h.nscount
    ∷ h.arcount / 256
    ∷ h.arcount
    ∷ [])

-- The first of the questions, and the room that a second needs behind it.
first_of :
    {count : ℕ} {questions : Option (List Question)} (buffer : Bytes)
    → HasQuestions buffer count questions
    → 1 ≤ count
    → (q : Question) × (next : ℕ) × QuestionAt buffer header_size q next
first_of buffer (inl (none_there, body)) h = absurd (omega arith)
first_of buffer (inr (some_there, ([], end, body, count, at))) h = absurd (omega (arith, count))
first_of buffer (inr (some_there, (q ∷ qs, end, body, count, cons {next} here more))) h =
    (q, next, here)

first_of_two :
    {count : ℕ} {questions : Option (List Question)} (buffer : Bytes)
    → HasQuestions buffer count questions
    → 2 ≤ count
    → (q : Question) × (next : ℕ) × QuestionAt buffer header_size q next × (next < length buffer)
first_of_two buffer (inl (none_there, body)) h = absurd (omega arith)
first_of_two buffer (inr (some_there, ([], end, body, count, at))) h = absurd (omega (arith, count))
first_of_two buffer (inr (some_there, (q ∷ [], end, body, count, at))) h =
    absurd (omega (arith, count))
first_of_two buffer
      (inr (some_there, (q ∷ r ∷ qs, end, body, count, cons {next} here (cons there more)))) h =
    (q, next, here, there.inside)

-- A query of which the first question is written out, and the response to it.
module _ (buffer : Bytes) (bytes : All IsByte buffer) (m : Mem) (query : Message)
    (parses : (parse_dns_message (some buffer) m).0 ≡ some query) (rcode size : ℕ)
    (takes : question_size (some buffer) ≡ some size) (code : rcode ≤ 5) where
  abbrev response : Bytes
  response = error_bytes query.header rcode buffer size

  response-AreBytes : All IsByte response
  response-AreBytes =
      All-append IsByte (header_bytes (error_header query.header rcode))
        (take size (drop 12 buffer)) (header_bytes-AreBytes (error_header query.header rcode))
        (All-take IsByte size (drop 12 buffer) (All-drop IsByte 12 buffer bytes))

  response-header_at : header_at response ≡ error_header query.header rcode
  response-header_at =
      let valid = parse_dns_message-IsHeader buffer m bytes parses in
      let fits = response_header-IsHeader query.header rcode valid code in
      header_at-header_bytes (error_header query.header rcode) (take size (drop 12 buffer))
        (rw (response_header-error_header query.header rcode code) at fits)

  response_long : header_size ≤ length response
  response_long = omega (
    arith,
    length-error_bytes query.header rcode buffer size (question_size_bounds buffer takes).1,
  )

  -- The only question of the query, behind the response's header.
  response-HasQuestions :
      HasQuestions buffer (header_at buffer).qdcount query.questions
      → (header_at buffer).qdcount ≡ 1
      → HasQuestions response 1 query.questions
  response-HasQuestions (inl (none_there, body)) single = absurd (omega arith)
  response-HasQuestions (inr (some_there, ([], end, body, count, at))) single =
      absurd (omega (arith, count))
  response-HasQuestions (inr (some_there, (q ∷ [], end, body, count, cons at more))) single = inr (
    omega arith,
    (
      q ∷ [],
      length response,
      body,
      refl,
      cons (QuestionAt-error_bytes query.header rcode buffer takes at) (nil refl),
    ),
  )
  response-HasQuestions (inr (some_there, (q ∷ r ∷ qs, end, body, count, at))) single =
      absurd (omega (arith, count))

  response-IsMessage :
      query.header.qdcount ≡ 1
      → IsMessage response (record {
        header = error_header query.header rcode;
        questions = query.questions;
        raw_data = some response;
      })
  response-IsMessage single =
      let v = parse_dns_message_sound buffer m bytes parses in
      record {
        long = response_long;
        header = sym response-header_at;
        raw = refl;
        questions =
            rw (ap (λ (h : Header). h.qdcount) response-header_at ∙ single)
              (response-HasQuestions v.questions (rw v.header at single));
      }

  -- The response claims more questions than the one at whose end it ends.
  response_overdrawn :
      {claimed : Option (List Question)}
      → 2 ≤ query.header.qdcount
      → HasQuestions response (header_at response).qdcount claimed
      → HasQuestions buffer (header_at buffer).qdcount query.questions
      → ⊥
  response_overdrawn more claim asked =
      let count = ap (λ (h : Header). h.qdcount) response-header_at in
      let v = parse_dns_message_sound buffer m bytes parses in
      let (q, next, at) =
        first_of buffer asked (omega (arith, more, ap (λ (h : Header). h.qdcount) v.header)) in
      let (q', next', at', room) = first_of_two response claim (omega (arith, more, count)) in
      let (same, ends) =
        QuestionAt-unique response response-AreBytes at'
          (QuestionAt-error_bytes query.header rcode buffer takes at) in
      omega (arith, room, ends)

-- A query with one question, which is written out: with memory to spare its error response is built,
-- and a client that parses the response finds the query's question under the response's header.
pub parse-build_error_response_question :
    (buffer : Bytes) (m n p : Mem) (query : Message) (rcode size : ℕ)
    → All IsByte buffer
    → (parse_dns_message (some buffer) m).0 ≡ some query
    → query.header.qdcount ≡ 1
    → question_size (some buffer) ≡ some size
    → rcode ≤ 5
    → Plentiful n
    → Plentiful p
    → (response : Bytes) × ((build_error_response (some query) rcode n).0 ≡ some response)
      × ((parse_dns_message (some response) p).0
          ≡ some (record {
            header = error_header query.header rcode;
            questions = query.questions;
            raw_data = some response;
          }))
parse-build_error_response_question buffer m n p query rcode size bytes parses single takes code
      plenty spare =
    let raw = (parse_dns_message_sound buffer m bytes parses).raw in
    let is_bytes = response-AreBytes buffer bytes m query parses rcode size takes code in
    (
      error_bytes query.header rcode buffer size,
      build_error_response_bytes query rcode n buffer plenty code raw takes,
      (parse_dns_message-IsMessage _ p _ is_bytes spare).1
          (response-IsMessage buffer bytes m query parses rcode size takes code single),
    )

-- A query that asks two or more questions, of which the first is written out: the error response that
-- is built for it claims as many questions but holds only the first, and no client can parse it.
pub parse-build_error_response_fails :
    (buffer : Bytes) (m n p : Mem) (query : Message) (rcode size : ℕ)
    → All IsByte buffer
    → (parse_dns_message (some buffer) m).0 ≡ some query
    → 2 ≤ query.header.qdcount
    → question_size (some buffer) ≡ some size
    → rcode ≤ 5
    → Plentiful n
    → (response : Bytes) × ((build_error_response (some query) rcode n).0 ≡ some response)
      × ((parse_dns_message (some response) p).0 ≡ none)
parse-build_error_response_fails buffer m n p query rcode size bytes parses more takes code plenty =
    let v = parse_dns_message_sound buffer m bytes parses in
    (
      error_bytes query.header rcode buffer size,
      build_error_response_bytes query rcode n buffer plenty code v.raw takes,
      elim (Option-cases
          (parse_dns_message (some (error_bytes query.header rcode buffer size)) p).0) [
            | inl fails ↦ fails
            | inr (message, reads) ↦ absurd (
                response_overdrawn buffer bytes m query parses rcode size takes code more
                  (parse_dns_message_sound _ p
                    (response-AreBytes buffer bytes m query parses rcode size takes code)
                    reads).questions
                  v.questions)
          ],
    )
