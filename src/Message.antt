-- ===== src/Message.antt =====
-- `parse_dns_question`, `parse_dns_message`, `free_dns_message` and `dns_parse_query` of dns_parser.c.
-- The heap is passed along; a `malloc` that is not granted is the NULL that the code tests for.
pub mod Leaks
pub mod Questions
pub mod Plenty
pub mod Correct
pub mod Release
pub mod Wrapper
use personal_test_resolver.Common.{
  ℕ, zero, suc, ◌+◌, Bool, true, false, not, Option, none, some, List, [], ◌∷◌, ◌++◌, Bytes, length,
  take, ltb, leb, ◌==◌, if◌then◌else◌, option_map,
}
use personal_test_resolver.Common.Memory.{Mem, malloc, release}
use personal_test_resolver.Header.{parse_dns_header, read16}
use personal_test_resolver.Name.{parse_dns_name}
use personal_test_resolver.Wire.{Header, Question, Message, header_size, max_name_len}

-- What `strdup` and `strlen` see of a buffer: the bytes before the first NUL.
unfoldable pub c_string : Bytes → Bytes
c_string [] = []
c_string (c ∷ cs) = if c == 0 then [] else c ∷ c_string cs

abbrev pub question_at : Bytes → Bytes → ℕ → Question
question_at buffer qname offset = record {
  qname = some (c_string qname);
  qtype = read16 buffer offset;
  qclass = read16 buffer (offset + 2);
}

-- `strdup(qname)` and the return.
unfoldable pub finish_question : Question → ℕ → Mem → Option (Question × ℕ) × Mem
finish_question q offset m =
    let (granted, m') = malloc m in (if granted then some (q, offset) else none, m')

-- The question and the offset behind it.
unfoldable pub parse_dns_question : Option Bytes → ℕ → Mem → Option (Question × ℕ) × Mem
parse_dns_question none offset m = (none, m)
parse_dns_question (some buffer) offset m =
    if leb (length buffer) offset
    then (none, m)
    else elim (parse_dns_name (some buffer) offset (max_name_len + 1)) [
      | none ↦ (none, m)
      | some (qname, behind) ↦
          if ltb (length buffer) (behind + 4)
          then (none, m)
          else finish_question (question_at buffer qname behind) (behind + 4) m
    ]

-- The loop over `qdcount`: `questions` are those parsed so far. An error frees their names and the
-- array.
unfoldable pub parse_questions : ℕ → Bytes → ℕ → List Question → Mem → Option (List Question) × Mem
parse_questions zero buffer offset questions m = (some questions, m)
parse_questions (suc left) buffer offset questions m =
    let (parsed, m') = parse_dns_question (some buffer) offset m in
    elim parsed [
      | none ↦ (none, release (length questions + 1) m')
      | some (q, offset') ↦ parse_questions left buffer offset' (questions ++ q ∷ []) m'
    ]

-- The copy of the raw data; without memory for it an error frees `owned` blocks.
unfoldable pub keep_raw : Header → Option (List Question) → Bytes → ℕ → Mem → Option Message × Mem
keep_raw h questions buffer owned m =
    let (granted, m') = malloc m in
    if granted
    then (some (record { header = h; questions = questions; raw_data = some buffer }), m')
    else (none, release owned m')

-- `calloc`, the questions and the raw data.
unfoldable pub parse_body : Header → Bytes → Mem → Option Message × Mem
parse_body h buffer m =
    let (granted, m1) = malloc m in
    let (parsed, m2) = parse_questions h.qdcount buffer header_size [] m1 in
    if not granted then (none, m1) else elim parsed [
      | none ↦ (none, m2)
      | some questions ↦ keep_raw h (some questions) buffer (length questions + 1) m2
    ]

unfoldable pub parse_dns_message : Option Bytes → Mem → Option Message × Mem
parse_dns_message none m = (none, m)
parse_dns_message (some buffer) m = elim (parse_dns_header (some buffer)) [
  | none ↦ (none, m)
  | some h ↦ if h.qdcount == 0 then keep_raw h none buffer 0 m else parse_body h buffer m
]

-- The names that a list of questions owns.
unfoldable pub names : List Question → ℕ
names [] = 0
names (q ∷ qs) = elim q.qname [ none ↦ names qs | some _ ↦ suc (names qs) ]

unfoldable pub free_dns_message : Message → Mem → Message × Mem
free_dns_message message m =
    let questions : ℕ = elim message.questions [
      | none ↦ 0
      | some qs ↦ names (take message.header.qdcount qs) + 1
    ] in
    let raw : ℕ = elim message.raw_data [ none ↦ 0 | some _ ↦ 1 ] in
    (record message { questions = none; raw_data = none }, release raw (release questions m))

-- dns_query_t
pub record Query : Type 0 where
  pub qname : Bytes
  pub qtype : ℕ
  pub qclass : ℕ

-- `strncpy` of at most DNS_MAX_NAME_LEN bytes of a name.
abbrev pub query_of : Question → Query
query_of q = record {
  qname = elim q.qname [ none ↦ [] | some name ↦ take max_name_len (c_string name) ];
  qtype = q.qtype;
  qclass = q.qclass;
}

-- `questions[0]`, if `qdcount` is not 0 and there is an array.
abbrev pub first_question : Message → Option Question
first_question message = elim message.questions [
  | none ↦ none
  | some [] ↦ none
  | some (q ∷ qs) ↦ if message.header.qdcount == 0 then none else some q
]

unfoldable pub dns_parse_query : Option Bytes → Mem → Option Query × Mem
dns_parse_query none m = (none, m)
dns_parse_query (some buffer) m =
    if ltb (length buffer) header_size
    then (none, m)
    else let (parsed, m1) = parse_dns_message (some buffer) m in
      elim parsed [
        | none ↦ (none, m1)
        | some message ↦
            (option_map query_of (first_question message), (free_dns_message message m1).1)
      ]
