-- ===== src/Labels/Grants.antt =====
-- Splitting with any amount of memory, against splitting with memory to spare.
use personal_test_resolver.Common.{
  ℕ, ◌≡◌, none, some, List, [], ◌∷◌, Bytes, ◌==◌, arith, Option-cases, Bool-cases, inl, inr, Option,
  reverse,
}
use personal_test_resolver.Common.Memory.{Mem, malloc-Plentiful, Plentiful, malloc_keeps, malloc}
use personal_test_resolver.Labels.{split_domain_labels, split_loop, keep_label}

keep_label-some :
    (l : Bytes) (labels : List Bytes) (m n : Mem) {r : List Bytes}
    → Plentiful n
    → (keep_label l labels m).0 ≡ some r
    → (keep_label l labels n).0 ≡ some r
unfolding keep_label
keep_label-some l labels m n plenty e = ground (arith, malloc-Plentiful n plenty)

keep_label_keeps :
    (l : Bytes) (labels : List Bytes) (m : Mem) → Plentiful m → Plentiful (keep_label l labels m).1
unfolding keep_label
keep_label_keeps l labels m plenty = ground (arith, malloc_keeps m plenty)

split_loop-some :
    (before l : Bytes) (labels : List Bytes) (m n : Mem) {r : List Bytes}
    → Plentiful n
    → (split_loop before l labels m).0 ≡ some r
    → (split_loop before l labels n).0 ≡ some r
unfolding split_loop
split_loop-some [] [] labels m n plenty e = e
split_loop-some [] (x ∷ l) labels m n plenty e = keep_label-some (x ∷ l) labels m n plenty e
split_loop-some (c ∷ before) [] labels m n plenty e =
    split_loop-some before (c ∷ []) labels m n plenty e
split_loop-some (c ∷ before) (x ∷ l) labels m n {r} plenty e = elim (Bool-cases (c == b'.')) [
  | inl dot ↦ elim (Option-cases (keep_label (x ∷ l) labels m).0) [
    | inl fails ↦ absurd (ground arith)
    | inr (labels', kept) ↦ ground (
      arith,
      keep_label-some (x ∷ l) labels m n plenty kept,
      split_loop-some before [] labels' (keep_label (x ∷ l) labels m).1
          (keep_label (x ∷ l) labels n).1 {r = r} (keep_label_keeps (x ∷ l) labels n plenty),
    )
  ]
  | inr other ↦ ground (arith, split_loop-some before (c ∷ x ∷ l) labels m n {r = r} plenty)
]

split_loop_keeps :
    (before l : Bytes) (labels : List Bytes) (m : Mem)
    → Plentiful m
    → Plentiful (split_loop before l labels m).1
unfolding split_loop
split_loop_keeps [] [] labels m plenty = plenty
split_loop_keeps [] (x ∷ l) labels m plenty = keep_label_keeps (x ∷ l) labels m plenty
split_loop_keeps (c ∷ before) [] labels m plenty = split_loop_keeps before (c ∷ []) labels m plenty
split_loop_keeps (c ∷ before) (x ∷ l) labels m plenty = elim (Bool-cases (c == b'.')) [
  | inl dot ↦ elim (Option-cases (keep_label (x ∷ l) labels m).0) [
    | inl fails ↦ ground (arith, keep_label_keeps (x ∷ l) labels m plenty)
    | inr (labels', kept) ↦ ground (
      arith,
      split_loop_keeps before [] labels' (keep_label (x ∷ l) labels m).1
          (keep_label_keeps (x ∷ l) labels m plenty),
    )
  ]
  | inr other ↦ ground (arith, split_loop_keeps before (c ∷ x ∷ l) labels m plenty)
]

pub split_domain_labels-some :
    (domain : Option Bytes) (m n : Mem) {r : List Bytes × ℕ}
    → Plentiful n
    → (split_domain_labels domain m).0 ≡ some r
    → (split_domain_labels domain n).0 ≡ some r
unfolding split_domain_labels
split_domain_labels-some none m n plenty e = e
split_domain_labels-some (some domain) m n {r} plenty e =
    elim (Option-cases (split_loop (reverse domain) [] [] (malloc m).1).0) [
      | inl fails ↦ absurd (ground arith)
      | inr (labels, splits) ↦ ground (
        arith,
        malloc-Plentiful n plenty,
        split_loop-some (reverse domain) [] [] (malloc m).1 (malloc n).1 (malloc_keeps n plenty)
            splits,
      )
    ]

pub split_domain_labels_keeps :
    (domain : Option Bytes) (m : Mem) → Plentiful m → Plentiful (split_domain_labels domain m).1
unfolding split_domain_labels
split_domain_labels_keeps none m plenty = plenty
split_domain_labels_keeps (some domain) m plenty = ground (
  arith,
  malloc_keeps m plenty,
  split_loop_keeps (reverse domain) [] [] (malloc m).1 (malloc_keeps m plenty),
)
