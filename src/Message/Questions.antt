-- ===== src/Message/Questions.antt =====
-- The question section of a message, and the loop that reads it.
use personal_test_resolver.Common.{
  ℕ, zero, suc, ◌+◌, ◌≤◌, ◌<◌, some, List, [], ◌∷◌, ◌++◌, Bytes, length, ◌≡◌, refl, arith, All,
  IsByte, append-nil, Option-cases, inl, inr, ◌∙◌, append_assoc, ap,
}
use personal_test_resolver.Common.Memory.{Mem, Plentiful, malloc-Plentiful}
use personal_test_resolver.Message.{
  parse_dns_question, parse_questions, question_at, finish_question, parse_dns_name,
}
use personal_test_resolver.Name.Correct.{IsNameAt, parse_dns_name-IsNameAt}
use personal_test_resolver.Wire.{Question}

-- A question stands at `offset`: a name, and two words behind it. Its text stops at a NUL.
pub record QuestionAt (buffer : Bytes) (offset : ℕ) (q : Question) (next : ℕ) : Type 0 where
  pub name : Bytes
  pub behind : ℕ
  pub inside : offset < length buffer
  pub name_at : IsNameAt buffer offset 256 name behind
  pub words : behind + 4 ≤ length buffer
  pub question : q ≡ question_at buffer name behind
  pub next_is : next ≡ behind + 4

-- Questions that follow one another from `offset` to `end`.
pub data QuestionsAt (buffer : Bytes) : ℕ → List Question → ℕ → Type 0 where
  nil : {offset end : ℕ} → offset ≡ end → QuestionsAt buffer offset [] end
  cons :
      {offset next end : ℕ} {q : Question} {qs : List Question}
      → QuestionAt buffer offset q next
      → QuestionsAt buffer next qs end
      → QuestionsAt buffer offset (q ∷ qs) end

module _ (buffer : Bytes) (bytes : All IsByte buffer) where
  parse_dns_question-QuestionAt :
      (offset : ℕ) (m : Mem) {q : Question} {next : ℕ}
      → (parse_dns_question (some buffer) offset m).0 ≡ some (q, next)
      → QuestionAt buffer offset q next
  unfolding parse_dns_question finish_question
  parse_dns_question-QuestionAt offset m e =
      elim (Option-cases (parse_dns_name (some buffer) offset 256)) [
        | inl fails ↦ absurd (ground arith)
        | inr ((name, behind), reads) ↦ record {
          name = name;
          behind = behind;
          inside = ground arith;
          name_at = (parse_dns_name-IsNameAt buffer offset 256 name behind bytes).0 reads;
          words = ground arith;
          question = ground arith;
          next_is = ground arith;
        }
      ]

  QuestionAt-parse_dns_question :
      (offset : ℕ) (m : Mem) {q : Question} {next : ℕ}
      → Plentiful m
      → QuestionAt buffer offset q next
      → parse_dns_question (some buffer) offset m ≡ (some (q, next), record m { live = m.live + 1 })
  unfolding parse_dns_question finish_question
  QuestionAt-parse_dns_question offset m plenty at = ground (
    arith,
    malloc-Plentiful m plenty,
    (parse_dns_name-IsNameAt buffer offset 256 at.name at.behind bytes).1 at.name_at,
  )

  -- Only one question stands at a place, and it ends at only one.
  pub QuestionAt-unique :
      {offset next next' : ℕ} {q q' : Question}
      → QuestionAt buffer offset q next
      → QuestionAt buffer offset q' next'
      → (q ≡ q') × (next ≡ next')
  QuestionAt-unique {offset} at at' =
      let plenty : Mem = record { grants = []; live = 0 } in
      ground (
        arith,
        QuestionAt-parse_dns_question offset plenty refl at,
        QuestionAt-parse_dns_question offset plenty refl at',
      )

  pub parse_questions-QuestionsAt :
      (left offset : ℕ) (questions : List Question) (m : Mem) {all : List Question}
      → (parse_questions left buffer offset questions m).0 ≡ some all
      → (qs : List Question) × (end : ℕ) × (all ≡ questions ++ qs)
        × (length qs ≡ left)
        × QuestionsAt buffer offset qs end
  unfolding parse_questions
  parse_questions-QuestionsAt zero offset questions m e =
      ([], offset, ground (arith, append-nil questions), refl, nil refl)
  parse_questions-QuestionsAt (suc left) offset questions m {all} e =
      elim (Option-cases (parse_dns_question (some buffer) offset m).0) [
        | inl fails ↦ absurd (ground arith)
        | inr ((q, next), reads) ↦
            let later : (parse_questions left buffer next (questions ++ q ∷ [])
                  (parse_dns_question (some buffer) offset m).1).0
                ≡ some all =
              ground arith in
            let (qs, end, whole, count, there) =
              parse_questions-QuestionsAt left next (questions ++ q ∷ [])
                (parse_dns_question (some buffer) offset m).1 later in
            (
              q ∷ qs,
              end,
              whole ∙ append_assoc questions (q ∷ []) qs,
              ap suc count,
              cons (parse_dns_question-QuestionAt offset m reads) there,
            )
      ]

  pub QuestionsAt-parse_questions :
      {qs : List Question} {offset end : ℕ} (questions : List Question) (m : Mem)
      → Plentiful m
      → QuestionsAt buffer offset qs end
      → parse_questions (length qs) buffer offset questions m
        ≡ (some (questions ++ qs), record m { live = m.live + length qs })
  unfolding parse_questions
  QuestionsAt-parse_questions questions m plenty (nil e) = ground (arith, append-nil questions)
  QuestionsAt-parse_questions questions m plenty (cons {q} {qs} at there) = ground (
    arith,
    QuestionAt-parse_dns_question _ m plenty at,
    QuestionsAt-parse_questions (questions ++ q ∷ []) (record m { live = m.live + 1 }) plenty there,
    append_assoc questions (q ∷ []) qs,
  )
