-- ===== src/Domain/Case.antt =====
-- `normalize_domain` does not distinguish upper and lower case.
use personal_test_resolver.Common.{ℕ, Bytes, ◌≡◌, refl, arith, some, ◌∷◌, []}
use personal_test_resolver.Domain.{
  is_space, to_lower, skip_spaces, copy_lower, finish_domain, normalize_text, normalize_domain,
}

abbrev pub lower : Bytes → Bytes
lower [] = []
lower (c ∷ cs) = to_lower c ∷ lower cs

lower_byte : (c : ℕ) → (is_space (to_lower c) ≡ is_space c) × (to_lower (to_lower c) ≡ to_lower c)
unfolding is_space to_lower
lower_byte c = (ground arith, ground arith)

copy_lower-lower :
    (s : Bytes) (len : ℕ) (out : Bytes)
    → copy_lower (lower s) len out ≡ ((copy_lower s len out).0, lower (copy_lower s len out).1)
unfolding copy_lower
copy_lower-lower [] len out = refl
copy_lower-lower (c ∷ s) len out =
    rw ((lower_byte c).0, (lower_byte c).1, copy_lower-lower s len) (ground arith)

skip_spaces-lower : (s : Bytes) → skip_spaces (lower s) ≡ lower (skip_spaces s)
unfolding skip_spaces
skip_spaces-lower [] = refl
skip_spaces-lower (c ∷ s) = rw (lower_byte c).0 (ground (arith, skip_spaces-lower s))

finish_domain-lower :
    (len : ℕ) (p : Bytes × Bytes) → finish_domain len (p.0, lower p.1) ≡ finish_domain len p
unfolding finish_domain
finish_domain-lower len (out, []) = refl
finish_domain-lower len (out, c ∷ rest) = refl

normalize_text-lower : (len : ℕ) (s : Bytes) → normalize_text len (lower s) ≡ normalize_text len s
unfolding normalize_text
normalize_text-lower len [] = refl
normalize_text-lower len (c ∷ s) =
    rw (copy_lower-lower (c ∷ s) len []) (finish_domain-lower len (copy_lower (c ∷ s) len []))

-- Upper-case and lower-case letters make no difference to what `normalize_domain` returns.
pub normalize_domain-lower :
    (domain : Bytes) (len : ℕ)
    → normalize_domain (some (lower domain)) len ≡ normalize_domain (some domain) len
unfolding normalize_domain
normalize_domain-lower domain len = rw (skip_spaces-lower domain, normalize_text-lower len)
