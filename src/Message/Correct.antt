-- ===== src/Message/Correct.antt =====
-- `parse_dns_message` against the layout of a message, and the release of what it returns.
use personal_test_resolver.Common.{
  ℕ, ◌+◌, ◌≤◌, ◌<◌, Option, none, some, List, [], ◌∷◌, Bytes, length, ◌≡◌, refl, arith, ◌⊎◌, ◌↔◌,
  inl, inr, All, IsByte, Option-cases, ◌∙◌, ap, Bool-cases, ◌==◌, false,
}
use personal_test_resolver.Common.Memory.{Mem, malloc, Plentiful, malloc-Plentiful}
use personal_test_resolver.Header.{header_at, parse_dns_header}
use personal_test_resolver.Message.{
  parse_dns_message, parse_questions, parse_body, keep_raw, first_question,
}
use personal_test_resolver.Message.Questions.{
  QuestionsAt, parse_questions-QuestionsAt, QuestionsAt-parse_questions,
}
use personal_test_resolver.Wire.{Question, Message, Header, header_size, IsHeader}
use personal_test_resolver.Header.RoundTrip.{parse-IsHeader}

-- The question section holds `count` questions; for none there is no array.
abbrev pub HasQuestions : Bytes → ℕ → Option (List Question) → Type 0
HasQuestions buffer count questions =
    (count ≡ 0) × (questions ≡ none)
    ⊎ (0 < count)
      × ((qs : List Question) × (end : ℕ) × (questions ≡ some qs)
          × (length qs ≡ count)
          × QuestionsAt buffer header_size qs end)

-- The message that the bytes of `buffer` stand for.
pub record IsMessage (buffer : Bytes) (message : Message) : Type 0 where
  pub long : header_size ≤ length buffer
  pub header : message.header ≡ header_at buffer
  pub raw : message.raw_data ≡ some buffer
  pub questions : HasQuestions buffer (header_at buffer).qdcount message.questions

keep_raw_fields :
    (h : Header) (questions : Option (List Question)) (buffer : Bytes) (n : ℕ) (m : Mem)
    {message : Message}
    → (keep_raw h questions buffer n m).0 ≡ some message
    → (message.header ≡ h) × (message.questions ≡ questions) × (message.raw_data ≡ some buffer)
unfolding keep_raw
keep_raw_fields h questions buffer n m e = ground arith

parse_dns_header-some :
    (buffer : Bytes) {h : Header}
    → parse_dns_header (some buffer) ≡ some h
    → (header_size ≤ length buffer) × (h ≡ header_at buffer)
unfolding parse_dns_header
parse_dns_header-some buffer e = ground arith

parse_body-IsMessage :
    (h : Header) (buffer : Bytes) (m : Mem) {message : Message}
    → All IsByte buffer
    → 0 < h.qdcount
    → (parse_body h buffer m).0 ≡ some message
    → (message.header ≡ h)
      × HasQuestions buffer h.qdcount message.questions
      × (message.raw_data ≡ some buffer)
unfolding parse_body
parse_body-IsMessage h buffer m {message} bytes pos e =
    elim (Option-cases (parse_questions h.qdcount buffer header_size [] (malloc m).1).0) [
      | inl fails ↦ absurd (ground arith)
      | inr (qs, reads) ↦
          let kept : (keep_raw h (some qs) buffer (length qs + 1)
                (parse_questions h.qdcount buffer header_size [] (malloc m).1).1).0
              ≡ some message =
            ground arith in
          let (head, body, raw) = keep_raw_fields h (some qs) buffer _ _ kept in
          let (qs', end, whole, count, there) =
            parse_questions-QuestionsAt buffer bytes h.qdcount header_size [] (malloc m).1 reads in
          (head, inr (pos, (qs', end, body ∙ ap some whole, count, there)), raw)
    ]

pub parse_dns_message_sound :
    (buffer : Bytes) (m : Mem) {message : Message}
    → All IsByte buffer
    → (parse_dns_message (some buffer) m).0 ≡ some message
    → IsMessage buffer message
unfolding parse_dns_message
parse_dns_message_sound buffer m {message} bytes e =
    elim (Option-cases (parse_dns_header (some buffer))) [
      | inl fails ↦ absurd (ground arith)
      | inr (h, reads) ↦
          let (long, h_is) = parse_dns_header-some buffer reads in
          elim (Bool-cases (h.qdcount == 0)) [
            | inl zero_count ↦
                let (head, body, raw) =
                  keep_raw_fields h none buffer 0 m {message = message} (ground arith) in
                record {
                  long = long;
                  header = head ∙ h_is;
                  raw = raw;
                  questions = rw (← h_is) (inl (ground arith, body));
                }
            | inr positive ↦
                let (head, body, raw) =
                  parse_body-IsMessage h buffer m {message = message} bytes (ground arith)
                    (ground arith) in
                record {
                  long = long;
                  header = head ∙ h_is;
                  raw = raw;
                  questions = rw (← h_is) body;
                }
          ]
    ]

parse_dns_message_complete :
    (buffer : Bytes) (m : Mem) {message : Message}
    → All IsByte buffer
    → Plentiful m
    → IsMessage buffer message
    → (parse_dns_message (some buffer) m).0 ≡ some message
unfolding parse_dns_message parse_dns_header parse_body keep_raw
parse_dns_message_complete buffer m {message} bytes plenty v = elim v.questions [
  | inl (zero_count, body) ↦ ground (arith, malloc-Plentiful m plenty)
  | inr (positive, (qs, end, body, count, there)) ↦
      let loop =
        QuestionsAt-parse_questions buffer bytes [] (record m { live = m.live + 1 }) plenty there in
      ground (
        arith,
        malloc-Plentiful m plenty,
        rw count at loop,
        malloc-Plentiful (record m { live = m.live + 1 + length qs }) plenty,
      )
]

-- With memory to spare, `parse_dns_message` accepts a buffer of bytes exactly when these are a
-- message, and then returns that message.
pub parse_dns_message-IsMessage :
    (buffer : Bytes) (m : Mem) (message : Message)
    → All IsByte buffer
    → Plentiful m
    → ((parse_dns_message (some buffer) m).0 ≡ some message) ↔ IsMessage buffer message
parse_dns_message-IsMessage buffer m message bytes plenty =
    (parse_dns_message_sound buffer m bytes, parse_dns_message_complete buffer m bytes plenty)

-- A message with questions has a first one.
pub first_question_there :
    (buffer : Bytes) (m : Mem) {message : Message}
    → All IsByte buffer
    → (parse_dns_message (some buffer) m).0 ≡ some message
    → (message.header.qdcount == 0) ≡ false
    → (q : Question) × (first_question message ≡ some q)
first_question_there buffer m {message} bytes e more =
    let v = parse_dns_message_sound buffer m bytes e in
    elim v.questions [
      | inl (zero_count, body) ↦ absurd (ground (arith, v.header))
      | inr (positive, ([], end, body, count, there)) ↦ absurd (omega arith)
      | inr (positive, (q ∷ qs, end, body, count, there)) ↦ (q, rw (body, more) refl)
    ]

-- The header of a message that was parsed from bytes has 16-bit fields.
pub parse_dns_message-IsHeader :
    (buffer : Bytes) (m : Mem) {message : Message}
    → All IsByte buffer
    → (parse_dns_message (some buffer) m).0 ≡ some message
    → IsHeader message.header
unfolding parse_dns_header
parse_dns_message-IsHeader buffer m bytes e =
    let v = parse_dns_message_sound buffer m bytes e in
    rw v.header (parse-IsHeader buffer {h = header_at buffer} bytes (ground (arith, v.long)))
