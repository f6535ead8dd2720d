-- ===== src/Labels/Memory.antt =====
-- The blocks that splitting takes.
use personal_test_resolver.Common.{
  ℕ, ◌+◌, ◌≡◌, Option, none, some, List, [], ◌∷◌, Bytes, length, arith, length-append, Bool-cases,
  reverse, ◌==◌, inl, Option-cases, inr,
}
use personal_test_resolver.Common.Memory.{Mem, malloc, malloc_live}
use personal_test_resolver.Labels.{keep_label, split_loop, split_domain_labels}

-- The array, and a block for each label.
abbrev pub label_blocks : Option (List Bytes) → ℕ
label_blocks none = 0
label_blocks (some labels) = length labels + 1

keep_label_live :
    (label : Bytes) (labels : List Bytes) (m : Mem) (base : ℕ)
    → m.live ≡ base + length labels + 1
    → (keep_label label labels m).1.live ≡ base + label_blocks (keep_label label labels m).0
unfolding keep_label
keep_label_live label labels m base h =
    ground (arith, malloc_live m, length-append labels (label ∷ []))

split_loop_live :
    (before label : Bytes) (labels : List Bytes) (m : Mem) (base : ℕ)
    → m.live ≡ base + length labels + 1
    → (split_loop before label labels m).1.live
      ≡ base + label_blocks (split_loop before label labels m).0
unfolding split_loop
split_loop_live [] [] labels m base h = omega arith
split_loop_live [] (x ∷ label) labels m base h = keep_label_live (x ∷ label) labels m base h
split_loop_live (c ∷ before) [] labels m base h = split_loop_live before (c ∷ []) labels m base h
split_loop_live (c ∷ before) (x ∷ label) labels m base h = elim (Bool-cases (c == b'.')) [
  | inl dot ↦ elim (Option-cases (keep_label (x ∷ label) labels m).0) [
    | inl fails ↦ ground (arith, keep_label_live (x ∷ label) labels m base h)
    | inr (labels', kept) ↦ ground (
      arith,
      keep_label_live (x ∷ label) labels m base h,
      split_loop_live before [] labels' (keep_label (x ∷ label) labels m).1 base,
    )
  ]
  | inr other ↦ ground (arith, split_loop_live before (c ∷ x ∷ label) labels m base h)
]

abbrev pub split_blocks : Option (List Bytes × ℕ) → ℕ
split_blocks none = 0
split_blocks (some (labels, count)) = length labels + 1

-- Splitting takes a block for the array and one for each label, and none if it fails.
pub split_domain_labels_live :
    (domain : Option Bytes) (m : Mem)
    → (split_domain_labels domain m).1.live ≡ m.live + split_blocks (split_domain_labels domain m).0
unfolding split_domain_labels
split_domain_labels_live none m = omega arith
split_domain_labels_live (some domain) m =
    ground (arith, malloc_live m, split_loop_live (reverse domain) [] [] (malloc m).1 m.live)
