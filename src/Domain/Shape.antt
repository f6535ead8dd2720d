-- ===== src/Domain/Shape.antt =====
-- The result of `normalize_domain`, on every input.
use personal_test_resolver.Common.{
  ℕ, ◌+◌, ◌≤◌, ◌<◌, ◌≡◌, ◌≢◌, refl, true, false, some, List, [], ◌∷◌, ◌++◌, Bytes, length, arith,
  All, sym, append-nil, append_assoc, length-append,
}
use personal_test_resolver.Domain.{
  skip_spaces, copy_lower, strip_dots, bad_dots, finish_text, finish_domain, normalize_domain,
  normalize_text,
}
use personal_test_resolver.Domain.Normal.{
  IsPlain, IsPart, parts, ends_with_dot, strip_dots-IsPlain, copy_lower-IsPlain, strtok-ne-nil,
}
use personal_test_resolver.Encode.{strtok}
use personal_test_resolver.Name.Dotted.{joined}

-- Labels joined by single dots, none of them empty, of plain bytes, shorter than `len`.
pub record IsNormal (len : ℕ) (n : Bytes) : Type 0 where
  pub labels : List Bytes
  pub text : n ≡ joined labels
  pub some_label : labels ≢ []
  pub all_parts : All IsPart labels
  pub plain : All IsPlain n
  pub short : length n < len

-- What the last tests leave.
pub record Finished (out n : Bytes) : Type 0 where
  pub stripped : n ≡ strip_dots out
  pub good : bad_dots true n ≡ false
  pub pos : 1 ≤ length n

pub finish_text-Finished : (out : Bytes) {n : Bytes} → finish_text out ≡ some n → Finished out n
unfolding finish_text
finish_text-Finished out e = ground arith

pub finish_domain-text :
    (len : ℕ) (p : Bytes × Bytes) {n : Bytes}
    → finish_domain len p ≡ some n
    → finish_text p.0 ≡ some n
unfolding finish_domain
finish_domain-text len (out, []) e = e
finish_domain-text len (out, c ∷ rest) e = ground arith

Finished-IsNormal :
    (len : ℕ) (out n : Bytes) → All IsPlain out → length out < len → Finished out n → IsNormal len n
Finished-IsNormal len out n plain short f =
    let (plain', shorter, last) = rw (← f.stripped) at (strip_dots-IsPlain out plain) in
    let (text, all) = parts [] n tt f.good last (omega (arith, f.pos)) in
    record {
      labels = strtok [] n;
      text = sym text;
      some_label = strtok-ne-nil [] n text (omega (arith, f.pos));
      all_parts = all;
      plain = plain';
      short = omega arith;
    }

pub normalize_domain-copy :
    (domain : Bytes) (len : ℕ) {n : Bytes}
    → normalize_domain (some domain) len ≡ some n
    → (0 < len) × (finish_domain len (copy_lower (skip_spaces domain) len []) ≡ some n)
unfolding normalize_domain normalize_text
normalize_domain-copy domain len e = ground arith

-- Whatever `normalize_domain` returns is a sequence of non-empty labels joined by single dots, without
-- whitespace or upper-case letters, and fits with its closing NUL in the output buffer.
pub normalize_domain-IsNormal :
    (domain : Bytes) (len : ℕ) {n : Bytes}
    → normalize_domain (some domain) len ≡ some n
    → IsNormal len n
normalize_domain-IsNormal domain len {n} e =
    let (pos, copied) = normalize_domain-copy domain len e in
    let out = copy_lower (skip_spaces domain) len [] in
    let (plain, short) = copy_lower-IsPlain (skip_spaces domain) len [] pos tt (omega arith) in
    Finished-IsNormal len out.0 n plain short
      (finish_text-Finished out.0 (finish_domain-text len out copied))

-- A plain text that fits is copied as it stands.
copy_lower_self :
    (s : Bytes) (len : ℕ) (out : Bytes)
    → All IsPlain s
    → length out + length s < len
    → copy_lower s len out ≡ (out ++ s, [])
unfolding copy_lower
copy_lower_self [] len out plain fits = ground (arith, append-nil out)
copy_lower_self (c ∷ s) len out plain fits = ground (
  arith,
  copy_lower_self s len (out ++ c ∷ []) plain.1,
  append_assoc out (c ∷ []) s,
  length-append out (c ∷ []),
)

strip_dots_self : (s : Bytes) → ends_with_dot s ≡ false → strip_dots s ≡ s
unfolding strip_dots ends_with_dot
strip_dots_self [] h = refl
strip_dots_self (c ∷ []) h = ground arith
strip_dots_self (c ∷ d ∷ s) h = ground (arith, strip_dots_self (d ∷ s) h)

skip_spaces_self : (s : Bytes) → All IsPlain s → skip_spaces s ≡ s
unfolding skip_spaces
skip_spaces_self [] h = refl
skip_spaces_self (c ∷ s) h = rw h.0.0

normalize_domain_self :
    (len : ℕ) (n : Bytes)
    → All IsPlain n
    → length n < len
    → ends_with_dot n ≡ false
    → bad_dots true n ≡ false
    → 1 ≤ length n
    → normalize_domain (some n) len ≡ some n
unfolding normalize_domain normalize_text finish_domain finish_text
normalize_domain_self len [] plain short last good pos = absurd (omega arith)
normalize_domain_self len (c ∷ n) plain short last good pos = ground (
  arith,
  skip_spaces_self (c ∷ n) plain,
  copy_lower_self (c ∷ n) len [] plain,
  strip_dots_self (c ∷ n) last,
)

-- Normalising a second time, into a buffer that is no smaller, changes nothing.
pub normalize_domain_twice :
    (domain : Bytes) (len len' : ℕ) {n : Bytes}
    → len ≤ len'
    → normalize_domain (some domain) len ≡ some n
    → normalize_domain (some n) len' ≡ some n
normalize_domain_twice domain len len' {n} wide e =
    let (pos, copied) = normalize_domain-copy domain len e in
    let out = copy_lower (skip_spaces domain) len [] in
    let (plain, short) = copy_lower-IsPlain (skip_spaces domain) len [] pos tt (omega arith) in
    let f = finish_text-Finished out.0 (finish_domain-text len out copied) in
    let (plain', shorter, last) = rw (← f.stripped) at (strip_dots-IsPlain out.0 plain) in
    normalize_domain_self len' n plain' (omega (arith, shorter)) last f.good f.pos
