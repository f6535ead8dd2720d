-- ===== src/Domain/Normal.antt =====
-- What a normalised domain looks like.
use personal_test_resolver.Common.{
  ℕ, ◌-◌, ◌≤◌, ◌<◌, ◌≡◌, ◌≢◌, refl, Bool, false, List, [], ◌∷◌, ◌++◌, Bytes, length, arith, All,
  ◌==◌, Bool-cases, inl, inr, ltb, length-append, ltb→lt, ◌+◌, ap, sym, true, append-nil, ◌∙◌,
  append_assoc, All-append,
}
use personal_test_resolver.Domain.{
  is_space, to_lower, copy_lower, strip_dots, bad_dots, starts_with_dot,
}
use personal_test_resolver.Name.Dotted.{joined}
use personal_test_resolver.Encode.{flush, strtok}
use personal_test_resolver.Encode.Labels.{NoDot}

-- Neither whitespace nor an upper-case letter.
abbrev pub IsPlain : ℕ → Type 0
IsPlain c = (is_space c ≡ false) × (to_lower c ≡ c)

to_lower-IsPlain : (c : ℕ) → is_space c ≡ false → IsPlain (to_lower c)
unfolding is_space to_lower
to_lower-IsPlain c h = ground arith

pub copy_lower-IsPlain :
    (domain : Bytes) (len : ℕ) (out : Bytes)
    → 0 < len
    → All IsPlain out
    → length out < len
    → All IsPlain (copy_lower domain len out).0 × (length (copy_lower domain len out).0 < len)
unfolding copy_lower
copy_lower-IsPlain [] len out pos h short = (h, short)
copy_lower-IsPlain (c ∷ cs) len out pos h short = elim (Bool-cases (is_space c)) [
  | inl space ↦ ground (arith, copy_lower-IsPlain cs len out pos h short)
  | inr other ↦ elim (Bool-cases (ltb (length out) (len - 1))) [
    | inl room ↦
        rw (other, room)
          (copy_lower-IsPlain cs len (out ++ to_lower c ∷ []) pos
            (All-append IsPlain out _ h (to_lower-IsPlain c other, tt))
            (omega
              (arith, length-append out (to_lower c ∷ []), ltb→lt (length out) (len - 1) room)))
    | inr full ↦ rw full (h, short)
  ]
]

unfoldable pub ends_with_dot : Bytes → Bool
ends_with_dot [] = false
ends_with_dot (c ∷ []) = c == b'.'
ends_with_dot (c ∷ d ∷ cs) = ends_with_dot (d ∷ cs)

pub strip_dots-IsPlain :
    (out : Bytes)
    → All IsPlain out
    → All IsPlain (strip_dots out)
      × (length (strip_dots out) ≤ length out)
      × (ends_with_dot (strip_dots out) ≡ false)
unfolding strip_dots ends_with_dot
strip_dots-IsPlain [] h = (tt, omega arith, refl)
strip_dots-IsPlain (c ∷ cs) h = ground (arith, strip_dots-IsPlain cs h.1)

joined-cons : (l : Bytes) (ls : List Bytes) → ls ≢ [] → joined (l ∷ ls) ≡ l ++ (b'.' ∷ joined ls)
joined-cons l [] h = absurd (h refl)
joined-cons l (m ∷ ls) h = refl

-- A label of a normalised domain: not empty, and without a dot.
abbrev pub IsPart : Bytes → Type 0
IsPart l = (1 ≤ length l) × NoDot l

pub flush-part : (l : Bytes) (ls : List Bytes) → 1 ≤ length l → flush l ls ≡ l ∷ ls
flush-part [] ls h = elim h [ ]
flush-part (c ∷ l) ls h = refl

pub strtok-ne-nil :
    (token s : Bytes)
    → joined (strtok token s) ≡ token ++ s
    → 1 ≤ length token + length s
    → strtok token s ≢ []
strtok-ne-nil token s e pos nothing =
    omega (arith, ap length (rw nothing at e), length-append token s)

abbrev is_empty : Bytes → Bool
is_empty [] = true
is_empty (c ∷ cs) = false

bad_dots_start :
    (s : Bytes) → bad_dots false s ≡ false → starts_with_dot s ≡ false → bad_dots true s ≡ false
unfolding bad_dots
bad_dots_start [] ok start = refl
bad_dots_start (c ∷ s) ok start = ground arith

ends_with_dot-tail : (c d : ℕ) (s : Bytes) → ends_with_dot (c ∷ d ∷ s) ≡ ends_with_dot (d ∷ s)
unfolding ends_with_dot
ends_with_dot-tail c d s = refl

ends_with_dot-cons : (c : ℕ) (s : Bytes) → ends_with_dot (c ∷ s) ≡ false → ends_with_dot s ≡ false
unfolding ends_with_dot
ends_with_dot-cons c [] h = refl
ends_with_dot-cons c (d ∷ s) h = h

-- A dot that is allowed stands between a label and more text.
dot-inside :
    (token s : Bytes)
    → bad_dots (is_empty token) (b'.' ∷ s) ≡ false
    → ends_with_dot (b'.' ∷ s) ≡ false
    → (1 ≤ length token) × (1 ≤ length s) × (bad_dots true s ≡ false)
unfolding bad_dots ends_with_dot
dot-inside [] s ok last = cc
dot-inside (x ∷ token) [] ok last = cc
dot-inside (x ∷ token) (c ∷ s) ok last = ground (arith, bad_dots_start (c ∷ s))

bad_dots-other :
    (first : Bool) (c : ℕ) (s : Bytes)
    → (c == b'.') ≡ false
    → bad_dots first (c ∷ s) ≡ false
    → bad_dots false s ≡ false
unfolding bad_dots
bad_dots-other first c s other ok = ground arith

more_token :
    (token : Bytes) (c : ℕ) (s : Bytes)
    → bad_dots false s ≡ false
    → bad_dots (is_empty (token ++ c ∷ [])) s ≡ false
more_token [] c s ok = ok
more_token (x ∷ token) c s ok = ok

strtok-dot : (token s : Bytes) → strtok token (b'.' ∷ s) ≡ flush token (strtok [] s)
unfolding strtok
strtok-dot token s = refl

strtok-other :
    (token : Bytes) (c : ℕ) (s : Bytes)
    → (c == b'.') ≡ false
    → strtok token (c ∷ s) ≡ strtok (token ++ c ∷ []) s
unfolding strtok
strtok-other token c s other = ground arith

-- `token` is what has been read of the current label.
pub parts :
    (token s : Bytes)
    → NoDot token
    → bad_dots (is_empty token) s ≡ false
    → ends_with_dot s ≡ false
    → 1 ≤ length token + length s
    → (joined (strtok token s) ≡ token ++ s) × All IsPart (strtok token s)
unfolding strtok
parts [] [] plain ok last pos = absurd (omega arith)
parts (x ∷ token) [] plain ok last pos = (sym (append-nil (x ∷ token)), ((omega arith, plain), tt))
parts token (c ∷ s) plain ok last pos = elim (Bool-cases (c == b'.')) [
  | inl dot ↦
      let is_dot : c ≡ b'.' = ground arith in
      let (some_token, more, ok') = dot-inside token s (rw is_dot at ok) (rw is_dot at last) in
      let (text, all) = parts [] s tt ok' (ends_with_dot-cons c s last) (omega arith) in
      let shape = flush-part token (strtok [] s) some_token in
      let ne = strtok-ne-nil [] s text (omega arith) in
      rw (is_dot, strtok-dot, shape)
        (
          joined-cons token (strtok [] s) ne ∙ ap (λ (t : Bytes). token ++ (b'.' ∷ t)) text,
          ((some_token, plain), all),
        )
  | inr other ↦
      let ok' = bad_dots-other (is_empty token) c s other ok in
      let grown : NoDot (token ++ c ∷ []) = All-append _ token (c ∷ []) plain (ground arith, tt) in
      let (text, all) =
        parts (token ++ c ∷ []) s grown (more_token token c s ok') (ends_with_dot-cons c s last)
          (omega (arith, length-append token (c ∷ []))) in
      rw (strtok-other token c s other) (text ∙ append_assoc token (c ∷ []) s, all)
]
