-- ===== src/Labels.antt =====
-- `split_domain_labels` of filter.c: the labels of a domain, the last one first.
pub mod Order
pub mod Grants
pub mod Memory
use personal_test_resolver.Common.{
  ℕ, ◌+◌, Bool, true, false, ◌||◌, Option, none, some, List, [], ◌∷◌, ◌++◌, Bytes, length, ltb,
  ◌==◌, if◌then◌else◌, reverse, not, option_map,
}
use personal_test_resolver.Common.Memory.{Mem, malloc, release}
use personal_test_resolver.Wire.{max_label_len}

-- `label_count`: the dots, and one more.
abbrev pub dots : Bytes → ℕ
dots [] = 0
dots (c ∷ cs) = (if c == b'.' then 1 else 0) + dots cs

abbrev pub bad_label : Bytes → Bool
bad_label label = length label == 0 || ltb max_label_len (length label)

-- A label is copied into the array. An error frees the labels before it and the array.
unfoldable pub keep_label : Bytes → List Bytes → Mem → Option (List Bytes) × Mem
keep_label label labels m =
    let (granted, m') = malloc m in
    if bad_label label
    then (none, release (length labels + 1) m)
    else if granted
    then (some (labels ++ label ∷ []), m')
    else (none, release (length labels + 1) m')

-- The loop runs from the end of the domain to its start: its argument is what lies before `start`,
-- nearest byte first. `label` is the text from `start` to `end`, empty when a new label begins; the
-- byte before `end` belongs to a label whatever it is.
unfoldable pub split_loop : Bytes → Bytes → List Bytes → Mem → Option (List Bytes) × Mem
split_loop [] [] labels m = (some labels, m)
split_loop [] (x ∷ label) labels m = keep_label (x ∷ label) labels m
split_loop (c ∷ before) [] labels m = split_loop before (c ∷ []) labels m
split_loop (c ∷ before) (x ∷ label) labels m = elim (c == b'.') [
  | true ↦
      let (kept, m') = keep_label (x ∷ label) labels m in
      elim kept [ none ↦ (none, m') | some labels' ↦ split_loop before [] labels' m' ]
  | false ↦ split_loop before (c ∷ x ∷ label) labels m
]

-- The labels and `label_count`. The array has a slot for each of `label_count`, and those behind the
-- labels are NULL.
unfoldable pub split_domain_labels : Option Bytes → Mem → Option (List Bytes × ℕ) × Mem
split_domain_labels none m = (none, m)
split_domain_labels (some domain) m =
    let (granted, m1) = malloc m in
    let (labels, m2) = split_loop (reverse domain) [] [] m1 in
    if not granted then (none, m1) else (option_map (λ ls. (ls, 1 + dots domain)) labels, m2)
