-- ===== src/Message/Plenty.antt =====
-- Parsing leaves memory to spare where there was.
use personal_test_resolver.Common.{
  ℕ, ◌+◌, none, some, List, [], ◌∷◌, Bytes, arith, Option-cases, inl, inr, Option, length, suc,
  ◌++◌, zero,
}
use personal_test_resolver.Common.Memory.{Mem, malloc_keeps, Plentiful, malloc}
use personal_test_resolver.Message.{
  parse_questions, keep_raw, parse_dns_message, parse_dns_question, parse_body, finish_question,
}
use personal_test_resolver.Wire.{Header, Question, header_size}
use personal_test_resolver.Header.{parse_dns_header}

parse_dns_question_keeps :
    (buffer : Bytes) (offset : ℕ) (m : Mem)
    → Plentiful m
    → Plentiful (parse_dns_question (some buffer) offset m).1
unfolding parse_dns_question finish_question
parse_dns_question_keeps buffer offset m plenty = ground (arith, malloc_keeps m plenty)

parse_questions_keeps :
    (left : ℕ) (buffer : Bytes) (offset : ℕ) (questions : List Question) (m : Mem)
    → Plentiful m
    → Plentiful (parse_questions left buffer offset questions m).1
unfolding parse_questions
parse_questions_keeps zero buffer offset questions m plenty = plenty
parse_questions_keeps (suc left) buffer offset questions m plenty =
    let keeps = parse_dns_question_keeps buffer offset m plenty in
    elim (Option-cases (parse_dns_question (some buffer) offset m).0) [
      | inl fails ↦ ground (arith, keeps)
      | inr ((q, next), reads) ↦ ground (
        arith,
        parse_questions_keeps left buffer next (questions ++ q ∷ [])
            (parse_dns_question (some buffer) offset m).1 keeps,
      )
    ]

keep_raw_keeps :
    (h : Header) (questions : Option (List Question)) (buffer : Bytes) (n : ℕ) (m : Mem)
    → Plentiful m
    → Plentiful (keep_raw h questions buffer n m).1
unfolding keep_raw
keep_raw_keeps h questions buffer n m plenty = ground (arith, malloc_keeps m plenty)

parse_body_keeps :
    (h : Header) (buffer : Bytes) (m : Mem) → Plentiful m → Plentiful (parse_body h buffer m).1
unfolding parse_body
parse_body_keeps h buffer m plenty =
    let started = malloc_keeps m plenty in
    let read = parse_questions h.qdcount buffer header_size [] (malloc m).1 in
    let keeps = parse_questions_keeps h.qdcount buffer header_size [] (malloc m).1 started in
    elim (Option-cases read.0) [
      | inl fails ↦ ground (arith, keeps, started)
      | inr (qs, reads) ↦
          ground
            (arith, keeps, started, keep_raw_keeps h (some qs) buffer (length qs + 1) read.1 keeps)
    ]

pub parse_dns_message_keeps :
    (buffer : Bytes) (m : Mem) → Plentiful m → Plentiful (parse_dns_message (some buffer) m).1
unfolding parse_dns_message
parse_dns_message_keeps buffer m plenty = elim (Option-cases (parse_dns_header (some buffer))) [
  | inl fails ↦ ground (arith, plenty)
  | inr (h, reads) ↦
      ground (arith, keep_raw_keeps h none buffer 0 m plenty, parse_body_keeps h buffer m plenty)
]
