-- ===== src/Server/Silence.antt =====
-- Packets that get no answer.
use personal_test_resolver.Console.{Console, text}
use personal_test_resolver.Server.Log.{process_log, log}
use personal_test_resolver.Common.{
  [], ◌∷◌, ℕ, ◌≡◌, refl, none, some, List, Bytes, ◌==◌, arith, Option-cases, inl, inr, length, All,
  true, IsByte,
}
use personal_test_resolver.Wire.{Message, Question, header_size}
use personal_test_resolver.Server.{reply_error, Config, process_dns_query}
use personal_test_resolver.Resolver.{Network, World}
use personal_test_resolver.Message.{parse_dns_message}
use personal_test_resolver.Server.Steps.{process-parsed, process-unparsed, reply-no_questions}
use personal_test_resolver.Response.{question_size, build_error_response}
use personal_test_resolver.Message.Correct.{parse_dns_message_sound, IsMessage}
use personal_test_resolver.Message.Questions.{QuestionsAt}

question_size-short : (raw : Bytes) → length raw ≡ 12 → question_size (some raw) ≡ none
unfolding question_size
question_size-short raw alone = ground arith

reply_error-short :
    (query : Message) (rcode : ℕ) (v : World) (raw : Bytes)
    → query.raw_data ≡ some raw
    → length raw ≡ 12
    → (reply_error query rcode v).0 ≡ none
unfolding reply_error build_error_response
reply_error-short query rcode v raw has alone = ground (arith, question_size-short raw alone)

no_room :
    {buffer : Bytes} {qs : List Question} {end : ℕ}
    → length buffer ≡ 12
    → QuestionsAt buffer header_size qs end
    → length qs ≡ 0
no_room alone (QuestionsAt.nil e) = refl
no_room alone (QuestionsAt.cons at there) = absurd (omega (arith, at.inside))

-- A packet of 12 bytes, which is a header and nothing else, is never answered, whatever the header
-- says and whatever memory there is.
pub process-header_only :
    (net : Network) (config : Config) (buffer : Bytes) (w : World)
    → All IsByte buffer
    → length buffer ≡ 12
    → (process_dns_query net config buffer w).0 ≡ none
process-header_only net config buffer w bytes alone =
    elim (Option-cases (parse_dns_message (some buffer) w.mem).0) [
      | inl fails ↦ rw (process-unparsed net config buffer w fails) refl
      | inr (query, parses) ↦
          let v = parse_dns_message_sound buffer w.mem bytes parses in
          elim v.questions [
            | inl (zero_count, body) ↦
                let empty : (query.header.qdcount == 0) ≡ true = ground (arith, v.header) in
                rw
                  (
                    process-parsed net config buffer w parses,
                    reply-no_questions net config query _ empty,
                  )
                  (reply_error-short query 1 _ buffer v.raw alone)
            | inr (positive, (qs, end, body, count, there)) ↦
                absurd (omega (arith, no_room alone there))
          ]
    ]

-- A packet of bytes that is no message is never answered, whatever memory there is, though the verbose
-- log says that code 1 (FORMERR) is sent.
pub process-not_message :
    (net : Network) (config : Config) (buffer : Bytes) (w : World) (console : Console)
    → All IsByte buffer
    → ((query : Message) → ¬ (IsMessage buffer query))
    → ((process_dns_query net config buffer w).0 ≡ none)
      × (process_log net config buffer w console
          ≡ log config (text "Failed to parse DNS query - sending FORMERR" ∷ []) console)
unfolding process_log
process-not_message net config buffer w console bytes other =
    elim (Option-cases (parse_dns_message (some buffer) w.mem).0) [
      | inl fails ↦
          (rw (process-unparsed net config buffer w fails) refl, rw (process_log, fails) refl)
      | inr (query, parses) ↦
          absurd (other query (parse_dns_message_sound buffer w.mem bytes parses))
    ]
