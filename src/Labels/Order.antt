-- ===== src/Labels/Order.antt =====
-- The labels come out in reverse order, one for each slot of the array.
use personal_test_resolver.Common.{
  ℕ, ◌+◌, ◌≡◌, ◌≢◌, refl, Option, none, some, List, [], ◌∷◌, ◌++◌, Bytes, length, arith, reverse,
  All, Bool, ◌&&◌, leb, true, false, append_assoc, ap, ◌∙◌, if◌then◌else◌, sym, ◌≤◌, append-nil,
  Bool-cases, inl, inr,
}
use personal_test_resolver.Common.Memory.{Mem, Plentiful, malloc-Plentiful}
use personal_test_resolver.Labels.{keep_label, split_loop, split_domain_labels, dots}
use personal_test_resolver.Domain.Normal.{IsPart}
use personal_test_resolver.Encode.Labels.{NoDot}
use mathlib.Core.List.{reverse-append, reverse-reverse, reverse_aux, reverse-cons}
use personal_test_resolver.Name.Dotted.{joined}

-- The text of labels that are listed last one first, backwards.
abbrev backwards : List Bytes → Bytes
backwards [] = []
backwards (l ∷ []) = reverse l
backwards (l ∷ m ∷ ls) = reverse l ++ (b'.' ∷ backwards (m ∷ ls))

-- No label is longer than 63 bytes.
abbrev pub short_labels : List Bytes → Bool
short_labels [] = true
short_labels (l ∷ ls) = leb (length l) 63 && short_labels ls

backwards-concat :
    (ls : List Bytes) (l : Bytes)
    → ls ≢ []
    → backwards (ls ++ l ∷ []) ≡ backwards ls ++ (b'.' ∷ reverse l)
backwards-concat [] l h = absurd (h refl)
backwards-concat (k ∷ []) l h = refl
backwards-concat (k ∷ m ∷ ls) l h =
    rw (backwards-concat (m ∷ ls) l (λ e. cc))
      (sym (append_assoc (reverse k) (b'.' ∷ backwards (m ∷ ls)) _))

reverse-ne-nil : (m : Bytes) (ls : List Bytes) → reverse (m ∷ ls) ≢ []
reverse-ne-nil m ls e = cc (sym (reverse-reverse (m ∷ ls)) ∙ ap reverse e)

reverse-joined : (labels : List Bytes) → reverse (joined labels) ≡ backwards (reverse labels)
reverse-joined [] = refl
reverse-joined (l ∷ []) = refl
reverse-joined (l ∷ m ∷ ls) =
    reverse-append l (b'.' ∷ joined (m ∷ ls))
    ∙ ap (λ (t : Bytes). t ++ reverse l) (reverse-cons b'.' (joined (m ∷ ls)))
    ∙ append_assoc (reverse (joined (m ∷ ls))) (b'.' ∷ []) (reverse l)
    ∙ ap (λ (t : Bytes). t ++ (b'.' ∷ reverse l)) (reverse-joined (m ∷ ls))
    ∙ sym (backwards-concat (reverse (m ∷ ls)) l (reverse-ne-nil m ls))
    ∙ ap backwards (sym (reverse-cons l (m ∷ ls)))

-- The loop runs over the bytes of a label.
split_loop-run :
    (r before : Bytes) (x : ℕ) (label : Bytes) (labels : List Bytes) (m : Mem)
    → NoDot r
    → split_loop (r ++ before) (x ∷ label) labels m
      ≡ split_loop before (reverse_aux r (x ∷ label)) labels m
unfolding split_loop
split_loop-run [] before x label labels m h = refl
split_loop-run (c ∷ r) before x label labels m h =
    ground (arith, split_loop-run r before c (x ∷ label) labels m h.1)

split_loop-start :
    (r before : Bytes) (labels : List Bytes) (m : Mem)
    → NoDot r
    → 1 ≤ length r
    → split_loop (r ++ before) [] labels m ≡ split_loop before (reverse r) labels m
unfolding split_loop
split_loop-start [] before labels m h pos = elim pos [ ]
split_loop-start (c ∷ r) before labels m h pos = split_loop-run r before c [] labels m h.1

NoDot-reverse_aux : (l acc : Bytes) → NoDot l → NoDot acc → NoDot (reverse_aux l acc)
NoDot-reverse_aux [] acc h k = k
NoDot-reverse_aux (c ∷ l) acc h k = NoDot-reverse_aux l (c ∷ acc) h.1 (h.0, k)

length-reverse_aux : (l acc : Bytes) → length (reverse_aux l acc) ≡ length l + length acc
length-reverse_aux [] acc = omega arith
length-reverse_aux (c ∷ l) acc = omega (arith, length-reverse_aux l (c ∷ acc))

split_loop-label :
    (l before : Bytes) (labels : List Bytes) (m : Mem)
    → IsPart l
    → split_loop (reverse l ++ before) [] labels m ≡ split_loop before l labels m
split_loop-label l before labels m part =
    split_loop-start (reverse l) before labels m (NoDot-reverse_aux l [] part.1 tt)
      (omega (arith, length-reverse_aux l [], part.0))
    ∙ ap (λ (t : Bytes). split_loop before t labels m) (reverse-reverse l)

-- What the loop gives for the labels that are left.
abbrev kept : List Bytes → List Bytes → Option (List Bytes)
kept labels ls = if short_labels ls then some (labels ++ ls) else none

split_loop-dot :
    (before l : Bytes) (labels : List Bytes) (m : Mem)
    → IsPart l
    → Plentiful m
    → (leb (length l) 63 ≡ true
        → (split_loop (b'.' ∷ before) l labels m).0
          ≡ (split_loop before [] (labels ++ l ∷ []) (record m { live = m.live + 1 })).0)
      × (leb (length l) 63 ≡ false → (split_loop (b'.' ∷ before) l labels m).0 ≡ none)
unfolding split_loop keep_label
split_loop-dot before [] labels m part plenty = absurd (omega arith)
split_loop-dot before (x ∷ l) labels m part plenty =
    (λ h. ground (arith, malloc-Plentiful m plenty), λ h. ground (arith, malloc-Plentiful m plenty))

split_loop-end :
    (l : Bytes) (labels : List Bytes) (m : Mem)
    → IsPart l
    → Plentiful m
    → (split_loop [] l labels m).0 ≡ kept labels (l ∷ [])
unfolding split_loop keep_label
split_loop-end [] labels m part plenty = absurd (omega arith)
split_loop-end (x ∷ l) labels m part plenty = ground (arith, malloc-Plentiful m plenty)

split_loop-kept :
    (ls labels : List Bytes) (m : Mem)
    → All IsPart ls
    → Plentiful m
    → (split_loop (backwards ls) [] labels m).0 ≡ kept labels ls
split_loop-kept [] labels m parts plenty = unfold split_loop in ap some (sym (append-nil labels))
split_loop-kept (l ∷ []) labels m parts plenty =
    ap (λ (r : Option (List Bytes) × Mem). r.0)
      (rw append-nil at (split_loop-label l [] labels m parts.0))
    ∙ split_loop-end l labels m parts.0 plenty
split_loop-kept (l ∷ k ∷ ls) labels m parts plenty =
    let (fits, long) = split_loop-dot (backwards (k ∷ ls)) l labels m parts.0 plenty in
    ap (λ (r : Option (List Bytes) × Mem). r.0)
      (split_loop-label l (b'.' ∷ backwards (k ∷ ls)) labels m parts.0)
    ∙ elim (Bool-cases (leb (length l) 63)) [
      | inl h ↦
          fits h
          ∙ split_loop-kept (k ∷ ls) (labels ++ l ∷ []) (record m { live = m.live + 1 }) parts.1
              plenty
          ∙ ground (arith, append_assoc labels (l ∷ []) (k ∷ ls))
      | inr h ↦ long h ∙ ground arith
    ]

dots-append : (a b : Bytes) → dots (a ++ b) ≡ dots a + dots b
dots-append [] b = omega arith
dots-append (c ∷ a) b = ground (arith, dots-append a b)

dots-NoDot : (l : Bytes) → NoDot l → dots l ≡ 0
dots-NoDot [] h = refl
dots-NoDot (c ∷ l) h = ground (arith, dots-NoDot l h.1)

dots-joined :
    (l : Bytes) (ls : List Bytes)
    → All IsPart (l ∷ ls)
    → 1 + dots (joined (l ∷ ls)) ≡ length (l ∷ ls)
dots-joined l [] h = omega (arith, dots-NoDot l h.0.1)
dots-joined l (m ∷ ls) h =
    omega (arith, dots-append l (b'.' ∷ joined (m ∷ ls)), dots-NoDot l h.0.1, dots-joined m ls h.1)

All-reverse_aux {ℓ κ} :
    {A : Type ℓ} (P : A → Type κ) (xs acc : List A)
    → All P xs
    → All P acc
    → All P (reverse_aux xs acc)
All-reverse_aux P [] acc h k = k
All-reverse_aux P (x ∷ xs) acc h k = All-reverse_aux P xs (x ∷ acc) h.1 (h.0, k)

short_labels-reverse_aux :
    (ls acc : List Bytes)
    → short_labels (reverse_aux ls acc) ≡ (short_labels ls && short_labels acc)
short_labels-reverse_aux [] acc = refl
short_labels-reverse_aux (l ∷ ls) acc = ground (arith, short_labels-reverse_aux ls (l ∷ acc))

-- With memory to spare, a domain that is made of non-empty labels with single dots between them splits
-- into exactly those labels in reverse order, as many as the array has slots, if none is longer
-- than 63 bytes, and is refused otherwise.
pub split_domain_labels-joined :
    (labels : List Bytes) (m : Mem)
    → Plentiful m
    → All IsPart labels
    → labels ≢ []
    → (split_domain_labels (some (joined labels)) m).0
      ≡ (if short_labels labels then some (reverse labels, length labels) else none)
unfolding split_domain_labels
split_domain_labels-joined [] m plenty parts ne = absurd (ne refl)
split_domain_labels-joined (l ∷ ls) m plenty parts ne = ground (
  arith,
  malloc-Plentiful m plenty,
  reverse-joined (l ∷ ls),
  split_loop-kept (reverse (l ∷ ls)) [] (record m { live = m.live + 1 })
      (All-reverse_aux IsPart (l ∷ ls) [] parts tt) plenty,
  short_labels-reverse_aux (l ∷ ls) [],
  dots-joined l ls parts,
)
