-- ===== src/Response/Question.antt =====
-- The question that an error response carries is the query's.
use personal_test_resolver.Common.{
  ℕ, zero, suc, ◌+◌, ◌-◌, ◌≤◌, ◌<◌, ◌≡◌, refl, List, Bytes, length, take, drop, arith, ok, sym, ◌∙◌,
  some, Outcome-cases, length-append, inl, length-take, length-drop, inr,
}
use personal_test_resolver.Name.Decodes.{Decodes, root, label, pointer}
use personal_test_resolver.Response.{skip_name, question_size}
use personal_test_resolver.Common.Slices.{
  Agree, get_or-behind, Agree-slice, get_or-take, get_or-drop,
}
use personal_test_resolver.Wire.{Header, Question, header_size}
use personal_test_resolver.Response.Fields.{
  error_bytes, error_header, length-header_bytes_only, skip_name-past,
}
use personal_test_resolver.Name.Correct.{Decodes-within}
use personal_test_resolver.Message.Questions.{QuestionAt}
use personal_test_resolver.Header.{header_bytes}
use personal_test_resolver.Message.{question_at}

-- The walk over the question and the reading of its name end at the same place, if there is no
-- pointer.
skip_name-Decodes :
    (fuel : ℕ) (raw : Bytes) (pos : ℕ) {ls : List Bytes} {end behind jumps : ℕ}
    → Decodes raw pos ls behind jumps
    → skip_name fuel raw pos ≡ ok end
    → end < length raw
    → (jumps ≡ 0) × (behind ≡ end + 1)
unfolding skip_name
skip_name-Decodes zero raw pos d e h = absurd (cc)
skip_name-Decodes (suc fuel) raw pos {end} (root inside stop is) e h = ground arith
skip_name-Decodes (suc fuel) raw pos {end} (label {n} len low high is fits text d) e h =
    skip_name-Decodes fuel raw _ d (ground (arith, is)) h
skip_name-Decodes (suc fuel) raw pos {end} (pointer mark fits target low is d) e h =
    absurd (ground arith)

-- A name without pointers is read the same from another buffer that agrees up to its end.
Decodes_agree :
    (raw other : Bytes) (from to : ℕ) {pos behind : ℕ} {ls : List Bytes}
    → Agree raw other from to
    → from ≤ pos
    → behind ≤ to
    → to ≤ length raw
    → to ≤ length other
    → Decodes raw pos ls behind 0
    → Decodes other pos ls behind 0
Decodes_agree raw other from to same low high la lb (root {pos} inside stop is) =
    root (omega (arith, is)) (sym (same pos low (omega (arith, is))) ∙ stop) is
Decodes_agree raw other from to same low high la lb
      (label {pos} {n} len some_bytes short is fits text d) =
    let (inside, ends) = Decodes-within d in
    label (sym (same pos low (omega (arith, is))) ∙ len) some_bytes short is (omega arith)
      (text ∙ Agree-slice raw other n (pos + 1) same (omega arith) (omega (arith, is)) la lb)
      (Decodes_agree raw other from to same (omega (arith, is)) high la lb d)

question_at-Agree :
    (raw other : Bytes) (from behind : ℕ) (name : Bytes)
    → Agree raw other from (behind + 4)
    → from ≤ behind
    → question_at raw name behind ≡ question_at other name behind
question_at-Agree raw other from behind name same low =
    rw
      (
        same behind low (omega arith),
        same (behind + 1) (omega arith) (omega arith),
        same (behind + 2) (omega arith) (omega arith),
        same (behind + 2 + 1) (omega arith) (omega arith),
      )
      refl

-- The response's bytes behind its header are those of the query's question.
error_bytes-Agree :
    (query : Header) (rcode : ℕ) (raw : Bytes) (size : ℕ)
    → Agree raw (error_bytes query rcode raw size) header_size (header_size + size)
error_bytes-Agree query rcode raw size i low high = sym (
    get_or-behind (header_bytes (error_header query rcode)) (take size (drop header_size raw)) i
      (i - header_size) (omega (arith, length-header_bytes_only (error_header query rcode)))
    ∙ get_or-take size (drop header_size raw) (i - header_size) (omega arith)
    ∙ get_or-drop header_size raw (i - header_size) i (omega arith))

pub length-error_bytes :
    (query : Header) (rcode : ℕ) (raw : Bytes) (size : ℕ)
    → header_size + size ≤ length raw
    → length (error_bytes query rcode raw size) ≡ header_size + size
length-error_bytes query rcode raw size fits = omega (
  arith,
  length-append (header_bytes (error_header query rcode)) (take size (drop header_size raw)),
  length-header_bytes_only (error_header query rcode),
  length-take size (drop header_size raw),
  length-drop header_size raw,
)

question_size-skip_name :
    (raw : Bytes) {size : ℕ}
    → question_size (some raw) ≡ some size
    → (end : ℕ) × (skip_name (length raw + 1) raw header_size ≡ ok end)
      × (end < length raw)
      × (size + header_size ≡ end + 5)
unfolding question_size
question_size-skip_name raw {size} e =
    elim (Outcome-cases (skip_name (length raw + 1) raw header_size)) [
      | inl (pos, walked) ↦ (
        pos,
        walked,
        ground (arith, skip_name-past (length raw + 1) raw header_size walked),
        ground (arith, skip_name-past (length raw + 1) raw header_size walked),
      )
      | inr fails ↦ absurd (ground (arith, fails))
    ]

-- The first question of a query stands at the same place in the response, at whose end it ends.
pub QuestionAt-error_bytes :
    (h : Header) (rcode : ℕ) (raw : Bytes) {size next : ℕ} {q : Question}
    → question_size (some raw) ≡ some size
    → QuestionAt raw header_size q next
    → QuestionAt
        (error_bytes h rcode raw size)
        header_size
        q
        (length (error_bytes h rcode raw size))
QuestionAt-error_bytes h rcode raw {size} takes at =
    let (end, walked, inside, total) = question_size-skip_name raw takes in
    let (labels, jumps, d, few, short, fits, text) = at.name_at in
    let (straight, stops) = skip_name-Decodes (length raw + 1) raw header_size d walked inside in
    let other = error_bytes h rcode raw size in
    let full : length other ≡ header_size + size =
      length-error_bytes h rcode raw size (omega (arith, total, inside, at.words, stops)) in
    let to_end : at.behind + 4 ≡ header_size + size = omega (arith, total, stops) in
    let same : Agree raw other header_size (at.behind + 4) =
      λ i low high. error_bytes-Agree h rcode raw size i low (omega (arith, to_end)) in
    record {
      name = at.name;
      behind = at.behind;
      inside = omega (arith, full, to_end, Decodes-within d);
      name_at = (
        labels,
        0,
        Decodes_agree raw other header_size (at.behind + 4) same (omega arith) (omega arith)
            at.words (omega (arith, full, to_end)) (rw straight at d),
        omega arith,
        short,
        fits,
        text,
      );
      words = omega (arith, full, to_end);
      question =
          at.question
          ∙ question_at-Agree raw other header_size at.behind at.name same
              (omega (arith, Decodes-within d));
      next_is = omega (arith, full, to_end);
    }
