-- ===== src/Domain/Lowered.antt =====
-- The text that `normalize_domain` returns, from the text that it is given.
use personal_test_resolver.Common.{
  ℕ, ◌+◌, ◌≡◌, refl, true, some, [], ◌∷◌, ◌++◌, Bytes, arith, All, ap, leb, ltb, ◌==◌, ◌&&◌, ◌||◌,
  if◌then◌else◌, Bool-cases, inl, inr, ◌⊎◌, ==_iff, length, ◌-◌, append_assoc, append-nil, sym, ◌∙◌,
}
use personal_test_resolver.Domain.{
  is_space, to_lower, skip_spaces, copy_lower, strip_dots, finish_domain, normalize_domain,
}
use personal_test_resolver.Domain.Shape.{
  normalize_domain-copy, finish_domain-text, finish_text-Finished,
}

-- A text without whitespace, and in lower case.
abbrev pub bare : Bytes → Bytes
bare [] = []
bare (c ∷ cs) =
    if c == b' ' || (leb 9 c && leb c 13)
    then bare cs
    else if leb b'A' c && leb c b'Z'
    then (c + 32) ∷ bare cs
    else c ∷ bare cs

-- But for dots at its end, `n` is the bare text of `domain`.
abbrev pub IsBareOf : Bytes → Bytes → Type 0
IsBareOf n domain = (dots : Bytes) × All (λ c. c ≡ b'.') dots × (bare domain ≡ n ++ dots)

bare-cons :
    (c : ℕ) (cs : Bytes) → bare (c ∷ cs) ≡ (if is_space c then bare cs else to_lower c ∷ bare cs)
unfolding is_space to_lower
bare-cons c cs = ground arith

skip_spaces-bare : (s : Bytes) → bare (skip_spaces s) ≡ bare s
unfolding skip_spaces is_space
skip_spaces-bare [] = refl
skip_spaces-bare (c ∷ cs) = ground (arith, skip_spaces-bare cs)

-- The copy holds all of the text, or the buffer is full.
copy_lower-bare :
    (s : Bytes) (len : ℕ) (out : Bytes)
    → ((copy_lower s len out).0 ≡ out ++ bare s) × ((copy_lower s len out).1 ≡ [])
      ⊎ (leb (len - 1) (length (copy_lower s len out).0) ≡ true)
        × ((c : ℕ) × (rest : Bytes) × ((copy_lower s len out).1 ≡ c ∷ rest))
unfolding copy_lower
copy_lower-bare [] len out = inl (sym (append-nil out), refl)
copy_lower-bare (c ∷ cs) len out = elim (Bool-cases (ltb (length out) (len - 1))) [
  | inr full ↦ rw full (inr (ground arith, (c, cs, refl)))
  | inl room ↦ elim (Bool-cases (is_space c)) [
    | inl space ↦ rw (room, bare-cons c cs, space) (copy_lower-bare cs len out)
    | inr other ↦
        rw (room, bare-cons c cs, other, sym (append_assoc out (to_lower c ∷ []) (bare cs)))
          (copy_lower-bare cs len (out ++ to_lower c ∷ []))
  ]
]

abbrev Dotted : Bytes → Bytes → Type 0
Dotted kept s = (dots : Bytes) × All (λ c. c ≡ b'.') dots × (s ≡ kept ++ dots)

abbrev put : ℕ → Bytes → Bytes
put c [] = if c == b'.' then [] else c ∷ []
put c (d ∷ ds) = c ∷ d ∷ ds

strip_dots-put : (c : ℕ) (cs : Bytes) → strip_dots (c ∷ cs) ≡ put c (strip_dots cs)
unfolding strip_dots
strip_dots-put c cs = ground arith

put-Dotted : (c : ℕ) (cs kept : Bytes) → Dotted kept cs → Dotted (put c kept) (c ∷ cs)
put-Dotted c cs [] (dots, h, text) = elim (Bool-cases (c == b'.')) [
  | inl dot ↦
      let is : c ≡ b'.' = ground (arith, ==_iff c b'.') in
      rw dot (c ∷ dots, (is, h), ap (◌∷◌ c) text)
  | inr other ↦ rw other (dots, h, ap (◌∷◌ c) text)
]
put-Dotted c cs (d ∷ ds) (dots, h, text) = (dots, h, ap (◌∷◌ c) text)

strip_dots-Dotted : (s : Bytes) → Dotted (strip_dots s) s
strip_dots-Dotted [] = unfold strip_dots in ([], tt, refl)
strip_dots-Dotted (c ∷ cs) =
    rw (strip_dots-put c cs) (put-Dotted c cs (strip_dots cs) (strip_dots-Dotted cs))

-- A copy that is accepted is whole.
finish_domain-whole :
    (len : ℕ) (p : Bytes × Bytes) {n : Bytes} {c : ℕ} {rest : Bytes}
    → finish_domain len p ≡ some n
    → leb (len - 1) (length p.0) ≡ true
    → ¬ (p.1 ≡ c ∷ rest)
unfolding finish_domain
finish_domain-whole len (out, []) e full = λ h. cc
finish_domain-whole len (out, d ∷ ds) e full = λ h. absurd (ground (arith, e, full))

-- What is returned is the bare text that was given, without the dots at its end.
pub normalize_domain-IsBareOf :
    (domain : Bytes) (len : ℕ) {n : Bytes}
    → normalize_domain (some domain) len ≡ some n
    → IsBareOf n domain
normalize_domain-IsBareOf domain len {n} e =
    let (pos, copied) = normalize_domain-copy domain len e in
    let s = skip_spaces domain in
    let f = finish_text-Finished (copy_lower s len []).0 (finish_domain-text len _ copied) in
    let (dots, h, text) = strip_dots-Dotted (copy_lower s len []).0 in
    elim (copy_lower-bare s len []) [
      | inl (whole, nothing) ↦ (
        dots,
        h,
        sym (skip_spaces-bare domain)
            ∙ sym whole
            ∙ text
            ∙ ap (λ (k : Bytes). k ++ dots) (sym f.stripped),
      )
      | inr (full, (c, rest, left)) ↦ absurd (finish_domain-whole len _ copied full left)
    ]
