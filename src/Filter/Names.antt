-- ===== src/Filter/Names.antt =====
-- The labels of a domain, without memory or loops, against `domain_labels`.
use personal_test_resolver.Common.{
  ℕ, ◌≡◌, refl, none, some, List, [], ◌∷◌, Bytes, if◌then◌else◌, arith, Option-cases, inl, inr,
  Option, reverse, All, length, ◌≢◌, append-nil, option_map, ap, ◌∙◌,
}
use personal_test_resolver.Common.Memory.{Mem, Plentiful}
use personal_test_resolver.Domain.{normalize_domain}
use personal_test_resolver.Labels.Order.{short_labels, split_domain_labels-joined}
use personal_test_resolver.Filter.{domain_labels}
use personal_test_resolver.Encode.{strtok}
use personal_test_resolver.Name.Dotted.{joined}
use personal_test_resolver.Domain.Normal.{IsPart, flush-part}
use personal_test_resolver.Labels.Grants.{split_domain_labels_keeps, split_domain_labels-some}
use personal_test_resolver.Domain.Shape.{normalize_domain-IsNormal}
use personal_test_resolver.Encode.Labels.{strtok-append}

-- The labels of a normalised domain, if none of them is longer than 63 bytes.
abbrev pub checked : List Bytes → Option (List Bytes)
checked labels = if short_labels labels then some labels else none

-- The labels of a domain, first one first: of a domain that is in order, without regard to case,
-- spaces and a dot at the end.
unfoldable pub name_labels : Bytes → Option (List Bytes)
name_labels domain = elim (normalize_domain (some domain) 256) [
  | none ↦ none
  | some normalized ↦ checked (strtok [] normalized)
]

strtok-parts : (labels : List Bytes) → All IsPart labels → strtok [] (joined labels) ≡ labels
unfolding strtok
strtok-parts [] h = refl
strtok-parts (l ∷ []) h = rw append-nil at (strtok-append [] l [] h.0.1) ∙ flush-part l [] h.0.0
strtok-parts (l ∷ k ∷ ls) h =
    strtok-append [] l (b'.' ∷ joined (k ∷ ls)) h.0.1
    ∙ flush-part l _ h.0.0
    ∙ ap (◌∷◌ l) (strtok-parts (k ∷ ls) h.1)

-- A normalised domain is its labels joined by dots.
pub normal_labels :
    (domain : Bytes) {n : Bytes}
    → normalize_domain (some domain) 256 ≡ some n
    → (n ≡ joined (strtok [] n)) × All IsPart (strtok [] n) × (strtok [] n ≢ [])
normal_labels domain {n} e =
    let v = normalize_domain-IsNormal domain 256 e in
    let same : strtok [] n ≡ v.labels = rw v.text (strtok-parts v.labels v.all_parts) in
    rw same (v.text, v.all_parts, v.some_label)

abbrev pub labels_result : List Bytes → List Bytes × ℕ
labels_result labels = (reverse labels, length labels)

-- With memory to spare, the labels are found in reverse order.
pub domain_labels-name_labels :
    (domain : Bytes) (m : Mem)
    → Plentiful m
    → (domain_labels domain m).0 ≡ option_map labels_result (name_labels domain)
unfolding domain_labels name_labels
domain_labels-name_labels domain m plenty =
    elim (Option-cases (normalize_domain (some domain) 256)) [
      | inl fails ↦ ground arith
      | inr (n, normal) ↦
          let (text, all, ne) = normal_labels domain normal in
          ground (arith, ap some text, split_domain_labels-joined (strtok [] n) m plenty all ne)
    ]

pub domain_labels-some :
    (domain : Bytes) (m n : Mem) {r : List Bytes × ℕ}
    → Plentiful n
    → (domain_labels domain m).0 ≡ some r
    → (domain_labels domain n).0 ≡ some r
unfolding domain_labels
domain_labels-some domain m n {r} plenty e =
    elim (Option-cases (normalize_domain (some domain) 256)) [
      | inl fails ↦ absurd (ground arith)
      | inr (normalized, normal) ↦
          ground (arith, split_domain_labels-some (some normalized) m n {r = r} plenty)
    ]

pub domain_labels_keeps :
    (domain : Bytes) (m : Mem) → Plentiful m → Plentiful (domain_labels domain m).1
unfolding domain_labels
domain_labels_keeps domain m plenty = elim (Option-cases (normalize_domain (some domain) 256)) [
  | inl fails ↦ ground (arith, plenty)
  | inr (normalized, normal) ↦ ground (arith, split_domain_labels_keeps (some normalized) m plenty)
]

-- A domain has a label.
pub name_labels-ne-nil :
    (domain : Bytes) {labels : List Bytes} → name_labels domain ≡ some labels → labels ≢ []
unfolding name_labels
name_labels-ne-nil domain {labels} e = elim (Option-cases (normalize_domain (some domain) 256)) [
  | inl fails ↦ absurd (ground arith)
  | inr (n, normal) ↦ ground (arith, (normal_labels domain normal).2)
]

pub name_labels-checked :
    (domain : Bytes) {n : Bytes}
    → normalize_domain (some domain) 256 ≡ some n
    → name_labels domain ≡ checked (strtok [] n)
unfolding name_labels
name_labels-checked domain e = ground arith
