-- ===== src/Message/Release.antt =====
-- The release of a parsed message.
use personal_test_resolver.Common.{
  ℕ, some, List, [], ◌∷◌, Bytes, length, ◌≡◌, refl, arith, inl, inr, All, IsByte, Option-cases, ◌∙◌,
  ap, take, ◌-◌,
}
use personal_test_resolver.Common.Memory.{Mem}
use personal_test_resolver.Message.{parse_dns_message, names, free_dns_message, dns_parse_query}
use personal_test_resolver.Message.Questions.{QuestionsAt, nil, cons}
use personal_test_resolver.Wire.{Question, Message}
use personal_test_resolver.Message.Leaks.{parse_dns_message_live, blocks}
use personal_test_resolver.Message.Correct.{parse_dns_message_sound}

names-QuestionsAt :
    {buffer : Bytes} {offset end : ℕ} {qs : List Question}
    → QuestionsAt buffer offset qs end
    → names qs ≡ length qs
unfolding names
names-QuestionsAt (nil e) = refl
names-QuestionsAt (cons at there) = ground (arith, names-QuestionsAt there)

take-length {ℓ} : {A : Type ℓ} (xs : List A) → take (length xs) xs ≡ xs
take-length [] = refl
take-length (x ∷ xs) = ap (◌∷◌ x) (take-length xs)

-- `free_dns_message` gives back every block that `parse_dns_message` took for the message that it
-- returned for a buffer of bytes, whichever requests were refused on the way.
pub free-parse_dns_message :
    (buffer : Bytes) (m : Mem) {message : Message}
    → All IsByte buffer
    → (parse_dns_message (some buffer) m).0 ≡ some message
    → (free_dns_message message (parse_dns_message (some buffer) m).1).1.live ≡ m.live
unfolding free_dns_message
free-parse_dns_message buffer m {message} bytes e =
    let v = parse_dns_message_sound buffer m bytes e in
    elim v.questions [
      | inl (zero_count, body) ↦ ground (arith, parse_dns_message_live (some buffer) m)
      | inr (positive, (qs, end, body, count, there)) ↦
          let whole : take message.header.qdcount qs ≡ qs =
            rw (v.header, ← count) (take-length qs) in
          ground
            (arith, parse_dns_message_live (some buffer) m, ap names whole, names-QuestionsAt there)
    ]

free_dns_message_same :
    (message : Message) (n n' : Mem)
    → n.live ≡ n'.live
    → (free_dns_message message n).1.live ≡ (free_dns_message message n').1.live
unfolding free_dns_message
free_dns_message_same message n n' same = omega arith

-- The count of live blocks is all that decides what is left.
pub free-parse_dns_message_at :
    (buffer : Bytes) (m n : Mem) {message : Message}
    → All IsByte buffer
    → (parse_dns_message (some buffer) m).0 ≡ some message
    → n.live ≡ (parse_dns_message (some buffer) m).1.live
    → (free_dns_message message n).1.live ≡ m.live
free-parse_dns_message_at buffer m n {message} bytes e same =
    free_dns_message_same message n _ same ∙ free-parse_dns_message buffer m bytes e

-- On a buffer of bytes `dns_parse_query` keeps nothing of the memory that it took, whichever way
-- it returns and whichever requests are refused.
pub dns_parse_query_live :
    (buffer : Bytes) (m : Mem)
    → All IsByte buffer
    → (dns_parse_query (some buffer) m).1.live ≡ m.live
unfolding dns_parse_query
dns_parse_query_live buffer m bytes = elim (Option-cases (parse_dns_message (some buffer) m).0) [
  | inl fails ↦ ground (arith, parse_dns_message_live (some buffer) m)
  | inr (message, parses) ↦
      ground (arith, free-parse_dns_message buffer m {message = message} bytes)
]

-- Freeing a parsed message frees the blocks that it owns.
pub free_dns_message_live :
    (buffer : Bytes) (m n : Mem) {message : Message}
    → All IsByte buffer
    → (parse_dns_message (some buffer) m).0 ≡ some message
    → (free_dns_message message n).1.live ≡ n.live - blocks message
unfolding free_dns_message
free_dns_message_live buffer m n {message} bytes e =
    let v = parse_dns_message_sound buffer m bytes e in
    elim v.questions [
      | inl (zero_count, body) ↦ ground (arith, v.raw)
      | inr (positive, (qs, end, body, count, there)) ↦
          let whole : take message.header.qdcount qs ≡ qs =
            rw (v.header, ← count) (take-length qs) in
          ground (arith, v.raw, ap names whole, names-QuestionsAt there)
    ]
