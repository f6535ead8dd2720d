-- ===== src/Message/Leaks.antt =====
-- The blocks that parsing takes from the heap, and what is given back.
use personal_test_resolver.Wire.{header_size, Question, Message, Header}
use personal_test_resolver.Common.{
  ℕ, ◌+◌, Option, none, some, List, [], ◌∷◌, ◌++◌, Bytes, length, ◌≡◌, arith, suc, zero,
  Option-cases, inl, inr, length-append,
}
use personal_test_resolver.Common.Memory.{Mem, malloc, malloc_live}
use personal_test_resolver.Message.{
  parse_dns_question, parse_questions, keep_raw, parse_body, parse_dns_message, finish_question,
  parse_dns_header,
}

-- The blocks that a message owns: the raw data, and for an array of questions itself and the names.
abbrev pub blocks : Message → ℕ
blocks message =
    (elim message.questions [ none ↦ 0 | some qs ↦ length qs + 1 ])
    + (elim message.raw_data [ none ↦ 0 | some _ ↦ 1 ])

abbrev pub owned : Option Message → ℕ
owned none = 0
owned (some message) = blocks message

parse_dns_question_live :
    (buffer : Option Bytes) (offset : ℕ) (m : Mem)
    → (parse_dns_question buffer offset m).1.live
      ≡ m.live + (elim (parse_dns_question buffer offset m).0 [ none ↦ 0 | some _ ↦ 1 ])
unfolding parse_dns_question finish_question
parse_dns_question_live none offset m = omega arith
parse_dns_question_live (some buffer) offset m = ground (arith, malloc_live m)

abbrev array : Option (List Question) → ℕ
array none = 0
array (some qs) = length qs + 1

parse_questions_live :
    (left : ℕ) (buffer : Bytes) (offset : ℕ) (questions : List Question) (m : Mem) (base : ℕ)
    → m.live ≡ base + length questions + 1
    → (parse_questions left buffer offset questions m).1.live
      ≡ base + array (parse_questions left buffer offset questions m).0
unfolding parse_questions
parse_questions_live zero buffer offset questions m base h = omega arith
parse_questions_live (suc left) buffer offset questions m base h =
    elim (Option-cases (parse_dns_question (some buffer) offset m).0) [
      | inl e ↦ ground (arith, parse_dns_question_live (some buffer) offset m)
      | inr ((q, next), e) ↦ ground (
        arith,
        parse_dns_question_live (some buffer) offset m,
        length-append questions (q ∷ []),
        parse_questions_live left buffer next (questions ++ q ∷ [])
            (parse_dns_question (some buffer) offset m).1 base,
      )
    ]

keep_raw_live :
    (h : Header) (questions : Option (List Question)) (buffer : Bytes) (m : Mem) (base : ℕ)
    → m.live ≡ base + array questions
    → (keep_raw h questions buffer (array questions) m).1.live
      ≡ base + owned (keep_raw h questions buffer (array questions) m).0
unfolding keep_raw
keep_raw_live h questions buffer m base e = ground (arith, malloc_live m)

parse_body_live :
    (h : Header) (buffer : Bytes) (m : Mem)
    → (parse_body h buffer m).1.live ≡ m.live + owned (parse_body h buffer m).0
unfolding parse_body
parse_body_live h buffer m =
    let after = (parse_questions h.qdcount buffer header_size [] (malloc m).1).1 in
    let loop = parse_questions_live h.qdcount buffer header_size [] (malloc m).1 m.live in
    elim (Option-cases (parse_questions h.qdcount buffer header_size [] (malloc m).1).0) [
      | inl e ↦ ground (arith, malloc_live m, loop)
      | inr (qs, e) ↦
          ground (arith, malloc_live m, loop, keep_raw_live h (some qs) buffer after m.live)
    ]

-- Parsing takes from the heap exactly the blocks of the message that it returns, and none at all
-- when it fails, whichever requests are refused.
pub parse_dns_message_live :
    (buffer : Option Bytes) (m : Mem)
    → (parse_dns_message buffer m).1.live ≡ m.live + owned (parse_dns_message buffer m).0
unfolding parse_dns_message
parse_dns_message_live none m = omega arith
parse_dns_message_live (some buffer) m = elim (Option-cases (parse_dns_header (some buffer))) [
  | inl e ↦ ground arith
  | inr (h, e) ↦ ground (arith, keep_raw_live h none buffer m m.live, parse_body_live h buffer m)
]
