-- ===== src/Message/Wrapper.antt =====
-- The wrapper dns_parse_query over byte buffers.
use personal_test_resolver.Common.{
  ◌≡◌, ◌+◌, ◌<◌, some, Bytes, All, IsByte, arith, ◌↔◌, Option-cases, inl, inr, [], ◌∷◌, take, ap,
  refl, ℕ,
}
use personal_test_resolver.Header.{read16, header_at}
use personal_test_resolver.Message.{
  dns_parse_query, Query, first_question, query_of, parse_dns_message, c_string,
}
use personal_test_resolver.Message.Questions.{QuestionsAt, QuestionAt}
use personal_test_resolver.Common.Memory.{Mem, Plentiful}
use personal_test_resolver.Name.Correct.{IsNameAt, parse_dns_name-IsNameAt}
use personal_test_resolver.Wire.{Message, Question}
use personal_test_resolver.Message.Correct.{
  IsMessage, parse_dns_message-IsMessage, parse_dns_message_sound,
}

-- The question behind the header: its name, cut off behind 255 bytes and at a NUL, and the two words
-- behind it.
pub record IsFirstQuery (buffer : Bytes) (q : Query) : Type 0 where
  pub name : Bytes
  pub behind : ℕ
  pub asks : 0 < (header_at buffer).qdcount
  pub name_at : IsNameAt buffer 12 256 name behind
  pub qname : q.qname ≡ take 255 (c_string name)
  pub qtype : q.qtype ≡ read16 buffer behind
  pub qclass : q.qclass ≡ read16 buffer (behind + 2)

c_string_twice : (s : Bytes) → c_string (c_string s) ≡ c_string s
unfolding c_string
c_string_twice [] = refl
c_string_twice (c ∷ cs) = ground (arith, c_string_twice cs)

-- What is kept of a question that stands behind the header.
QuestionAt-IsFirstQuery :
    (buffer : Bytes) {q : Question} {next : ℕ}
    → 0 < (header_at buffer).qdcount
    → QuestionAt buffer 12 q next
    → IsFirstQuery buffer (query_of q)
QuestionAt-IsFirstQuery buffer asks at = record {
  name = at.name;
  behind = at.behind;
  asks = asks;
  name_at = at.name_at;
  qname = rw at.question (ap (take 255) (c_string_twice at.name));
  qtype = rw at.question refl;
  qclass = rw at.question refl;
}

-- There is one name behind the header, so one query.
IsFirstQuery-unique :
    (buffer : Bytes) (q r : Query)
    → All IsByte buffer
    → IsFirstQuery buffer q
    → IsFirstQuery buffer r
    → q ≡ r
IsFirstQuery-unique buffer q r bytes v w = ground (
  arith,
  v.qname,
  v.qtype,
  v.qclass,
  w.qname,
  w.qtype,
  w.qclass,
  (parse_dns_name-IsNameAt buffer 12 256 v.name v.behind bytes).1 v.name_at,
  (parse_dns_name-IsNameAt buffer 12 256 w.name w.behind bytes).1 w.name_at,
)

-- A message that asks something has a first question, behind the header.
first_question-QuestionAt :
    (buffer : Bytes) (message : Message)
    → IsMessage buffer message
    → 0 < (header_at buffer).qdcount
    → (question : Question) × (next : ℕ) × (first_question message ≡ some question)
      × QuestionAt buffer 12 question next
first_question-QuestionAt buffer message v asks = elim v.questions [
  | inl (no_count, body) ↦ absurd (omega (arith, no_count, asks))
  | inr (positive, ([], end, body, count, there)) ↦ absurd (omega (arith, count, asks))
  | inr (positive, (q ∷ qs, end, body, count, QuestionsAt.cons at more)) ↦
      (q, _, ground (arith, v.header, body, asks), at)
]

asks_something :
    (buffer : Bytes) (message : Message) {question : Question}
    → IsMessage buffer message
    → first_question message ≡ some question
    → 0 < (header_at buffer).qdcount
asks_something buffer message v first = elim v.questions [
  | inl (no_count, body) ↦ absurd (ground (arith, body))
  | inr (positive, rest) ↦ positive
]

dns_parse_query_sound :
    (buffer : Bytes) (m : Mem) {q : Query}
    → All IsByte buffer
    → (dns_parse_query (some buffer) m).0 ≡ some q
    → (message : Message) × (question : Question) × IsMessage buffer message
      × (first_question message ≡ some question)
      × (q ≡ query_of question)
unfolding dns_parse_query
dns_parse_query_sound buffer m {q} bytes e =
    elim (Option-cases (parse_dns_message (some buffer) m).0) [
      | inl fails ↦ absurd (ground arith)
      | inr (message, parses) ↦ elim (Option-cases (first_question message)) [
        | inl nothing ↦ absurd (ground arith)
        | inr (question, first) ↦
            (message, question, parse_dns_message_sound buffer m bytes parses, first, ground arith)
      ]
    ]

dns_parse_query_complete :
    (buffer : Bytes) (m : Mem) (message : Message) {question : Question}
    → All IsByte buffer
    → Plentiful m
    → IsMessage buffer message
    → first_question message ≡ some question
    → (dns_parse_query (some buffer) m).0 ≡ some (query_of question)
unfolding dns_parse_query
dns_parse_query_complete buffer m message bytes plenty v first =
    ground (arith, v.long, (parse_dns_message-IsMessage buffer m message bytes plenty).1 v, first)

-- With memory to spare, `dns_parse_query` returns a query from a buffer of bytes exactly when these are
-- a message that counts at least one question, and the query is what stands behind its header: the
-- name, cut off behind 255 bytes and at a NUL, and then the two words of the type and of the class.
pub dns_parse_query-IsFirstQuery :
    (buffer : Bytes) (m : Mem) (q : Query)
    → All IsByte buffer
    → Plentiful m
    → ((dns_parse_query (some buffer) m).0 ≡ some q)
      ↔ (((message : Message) × IsMessage buffer message) × IsFirstQuery buffer q)
dns_parse_query-IsFirstQuery buffer m q bytes plenty = (
  λ e.
      let (message, question, v, first, is) = dns_parse_query_sound buffer m bytes e in
      let asks = asks_something buffer message v first in
      let (question', next, first', at) = first_question-QuestionAt buffer message v asks in
      let same : question' ≡ question = ground (arith, first, first') in
      ((message, v), rw (is, ← same) (QuestionAt-IsFirstQuery buffer asks at)),
  λ h.
      let ((message, v), w) = h in
      let (question, next, first, at) = first_question-QuestionAt buffer message v w.asks in
      rw
        (IsFirstQuery-unique buffer q (query_of question) bytes w
          (QuestionAt-IsFirstQuery buffer w.asks at))
        (dns_parse_query_complete buffer m message bytes plenty v first),
)
