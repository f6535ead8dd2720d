-- ===== src/Filter/Text.antt =====
-- `covers` in terms of the text of the two domains.
use mathlib.Core.List.{reverse-append, reverse-reverse}
use personal_test_resolver.Common.{
  ◌≡◌, refl, some, List, [], ◌∷◌, Bytes, arith, Bool-cases, inl, inr, reverse, ◌⊎◌, ◌↔◌, ◌++◌, ◌≢◌,
  true, equal, sym, equal_iff, append_assoc, ◌∙◌, ap,
}
use personal_test_resolver.Trie.Cover.{is_prefix}
use personal_test_resolver.Filter.Names.{normal_labels, name_labels-checked}
use personal_test_resolver.Encode.{strtok}
use personal_test_resolver.Name.Dotted.{joined}
use personal_test_resolver.Domain.{normalize_domain}
use personal_test_resolver.Labels.Order.{short_labels}
use personal_test_resolver.Filter.Blocking.{covers}

-- The second text is the first, or ends in it behind a dot.
abbrev pub IsWithin : Bytes → Bytes → Type 0
IsWithin domain asked = (asked ≡ domain) ⊎ ((above : Bytes) × (asked ≡ above ++ (b'.' ∷ domain)))

is_prefix-append : (p r : List Bytes) → is_prefix p (p ++ r) ≡ true
is_prefix-append [] r = refl
is_prefix-append (l ∷ p) r = ground (arith, equal_iff l l, is_prefix-append p r)

is_prefix_rest : (p q : List Bytes) → is_prefix p q ≡ true → (r : List Bytes) × (q ≡ p ++ r)
is_prefix_rest [] q e = (q, refl)
is_prefix_rest (l ∷ p) [] e = cc
is_prefix_rest (l ∷ p) (k ∷ q) e = elim (Bool-cases (equal l k)) [
  | inl same ↦
      let (r, tail) = is_prefix_rest p q (ground arith) in (r, ground (arith, equal_iff l k))
  | inr other ↦ absurd (ground arith)
]

-- The end of a list, by the start of its reverse.
is_prefix-reverse :
    (p q : List Bytes)
    → (is_prefix (reverse p) (reverse q) ≡ true) ↔ ((c : List Bytes) × (q ≡ c ++ p))
is_prefix-reverse p q = (
  λ e.
      let (r, rest) = is_prefix_rest (reverse p) (reverse q) e in
      (
        reverse r,
        sym (reverse-reverse q)
            ∙ ap reverse rest
            ∙ reverse-append (reverse p) r
            ∙ ap (λ (t : List Bytes). reverse r ++ t) (reverse-reverse p),
      ),
  λ (c, whole). rw (whole, reverse-append c p) (is_prefix-append (reverse p) (reverse c)),
)

strtok-split : (token s t : Bytes) → strtok token (s ++ (b'.' ∷ t)) ≡ strtok token s ++ strtok [] t
unfolding strtok
strtok-split [] [] t = refl
strtok-split (x ∷ token) [] t = refl
strtok-split [] (c ∷ s) t = ground (arith, strtok-split [] s t, strtok-split (c ∷ []) s t)
strtok-split (x ∷ token) (c ∷ s) t =
    ground (arith, strtok-split [] s t, strtok-split (x ∷ token ++ c ∷ []) s t)

joined-append :
    (l : Bytes) (c p : List Bytes)
    → p ≢ []
    → joined (l ∷ c ++ p) ≡ joined (l ∷ c) ++ (b'.' ∷ joined p)
joined-append l [] [] ne = absurd (ne refl)
joined-append l [] (k ∷ p) ne = refl
joined-append l (k ∷ c) p ne =
    rw (joined-append k c p ne) (sym (append_assoc l (b'.' ∷ joined (k ∷ c)) (b'.' ∷ joined p)))

within : (c p : List Bytes) → p ≢ [] → IsWithin (joined p) (joined (c ++ p))
within [] p ne = inl refl
within (l ∷ c) p ne = inr (joined (l ∷ c), joined-append l c p ne)

same_texts : {n n' k k' : Bytes} → n ≡ n' → k ≡ k' → IsWithin n' k' → IsWithin n k
same_texts a b w = rw (a, b) w

-- One normalised domain covers another, none of whose labels is longer than 63 bytes, if and only if
-- they are the same text or the second ends in a dot and the first.
pub covers-IsWithin :
    (domain asked : Bytes) {n k : Bytes}
    → normalize_domain (some domain) 256 ≡ some n
    → normalize_domain (some asked) 256 ≡ some k
    → short_labels (strtok [] n) ≡ true
    → short_labels (strtok [] k) ≡ true
    → (covers domain asked ≡ true) ↔ IsWithin n k
covers-IsWithin domain asked {n} {k} e f short short' =
    let (text, all, ne) = normal_labels domain e in
    let (text', all', ne') = normal_labels asked f in
    let same : covers domain asked ≡ is_prefix (reverse (strtok [] n)) (reverse (strtok [] k)) =
      rw (name_labels-checked domain e, name_labels-checked asked f, short, short') refl in
    rw same (
      λ e.
          let (c, whole) = (is_prefix-reverse (strtok [] n) (strtok [] k)).0 e in
          same_texts text (text' ∙ ap joined whole) (within c (strtok [] n) ne),
      λ w. (is_prefix-reverse (strtok [] n) (strtok [] k)).1 (elim w [
        | inl alike ↦ ([], rw alike refl)
        | inr (above, whole) ↦ (strtok [] above, rw whole (strtok-split [] above n))
      ]),
    )
