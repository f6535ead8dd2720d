-- ===== src/Name/Correct.antt =====
-- `parse_dns_name` against the decoding of RFC 1035.
use personal_test_resolver.Common.{
  ℕ, ◌≤◌, ◌<◌, some, List, ◌≡◌, ◌↔◌, refl, arith, Bytes, Outcome, settle, All, ok, IsByte, ◌≢◌,
  stuck, length, ap, ◌∙◌, err,
}
use personal_test_resolver.Name.{
  parse_dns_name, name_loop, max_compression_jumps, name_fuel, max_name_len, start_at,
}
use personal_test_resolver.Name.Decodes.{Decodes, root, label, pointer}
use personal_test_resolver.Name.Dotted.{size, joined, strip_dot-dotted, length-joined}
use personal_test_resolver.Name.Rounds.{name_loop-ne-stuck}
use personal_test_resolver.Name.Sound.{name_loop-Reads, Reads}
use personal_test_resolver.Name.Complete.{name_loop-Decodes}

-- The name that stands at `offset` within the limits of the parser: at most ten pointers, and at most
-- 255 bytes, fewer than the output buffer has, with a dot behind each label.
abbrev pub IsNameAt : Bytes → ℕ → ℕ → Bytes → ℕ → Type 0
IsNameAt buffer offset name_len name behind =
    (labels : List Bytes) × (jumps : ℕ) × Decodes buffer offset labels behind jumps
    × (jumps ≤ max_compression_jumps)
    × (size labels ≤ max_name_len)
    × (size labels < name_len)
    × (name ≡ joined labels)

-- The loop of `parse_dns_name` ends by its own tests on every input: its bound is never used up.
pub name_loop_ends :
    (buffer : Bytes) (offset name_len : ℕ)
    → name_loop name_fuel buffer name_len (start_at offset) ≢ stuck
name_loop_ends buffer offset name_len =
    name_loop-ne-stuck name_fuel buffer name_len (start_at offset) (omega arith) (omega arith)

settle-eq-some {ℓ} : {A : Type ℓ} (r : Outcome A) {a : A} → settle r ≡ some a → r ≡ ok a
settle-eq-some (ok x) e = cc
settle-eq-some err e = cc
settle-eq-some stuck e = cc

Reads-IsNameAt :
    {buffer : Bytes} {offset name_len behind : ℕ} {name : Bytes}
    → Reads buffer name_len (start_at offset) name behind
    → IsNameAt buffer offset name_len name behind
Reads-IsNameAt r = (
  r.labels,
  r.jumps,
  rw (← r.offset_is) at r.decodes,
  omega arith,
  omega arith,
  omega arith,
  r.name_is ∙ strip_dot-dotted r.labels,
)

parse_dns_name_sound :
    (buffer : Bytes) (offset name_len : ℕ) (name : Bytes) (behind : ℕ)
    → All IsByte buffer
    → parse_dns_name (some buffer) offset name_len ≡ some (name, behind)
    → IsNameAt buffer offset name_len name behind
unfolding parse_dns_name
parse_dns_name_sound buffer offset name_len name behind bytes e =
    let returned : name_loop name_fuel buffer name_len (start_at offset) ≡ ok (name, behind) =
      settle-eq-some _ (ground arith) in
    Reads-IsNameAt (
      name_loop-Reads name_fuel buffer name_len (start_at offset) bytes (omega arith) (ground arith)
        returned)

parse_dns_name_complete :
    (buffer : Bytes) (offset name_len : ℕ) (name : Bytes) (behind : ℕ)
    → All IsByte buffer
    → IsNameAt buffer offset name_len name behind
    → parse_dns_name (some buffer) offset name_len ≡ some (name, behind)
unfolding parse_dns_name
parse_dns_name_complete buffer offset name_len name behind bytes
      (labels, jumps, d, few, short, fits, n) =
    let returned =
      name_loop-Decodes buffer name_len bytes name_fuel (start_at offset) d refl (omega arith)
        (omega arith) in
    rw (n, ← strip_dot-dotted labels) (ground (arith, returned))

-- On a buffer of bytes `parse_dns_name` returns a name and an offset exactly when that name stands at
-- the given offset within the limits, and the returned offset is the first one behind it.
pub parse_dns_name-IsNameAt :
    (buffer : Bytes) (offset name_len : ℕ) (name : Bytes) (behind : ℕ)
    → All IsByte buffer
    → (parse_dns_name (some buffer) offset name_len ≡ some (name, behind))
      ↔ IsNameAt buffer offset name_len name behind
parse_dns_name-IsNameAt buffer offset name_len name behind bytes = (
  parse_dns_name_sound buffer offset name_len name behind bytes,
  parse_dns_name_complete buffer offset name_len name behind bytes,
)

pub Decodes-within :
    {buffer : Bytes} {pos behind jumps : ℕ} {labels : List Bytes}
    → Decodes buffer pos labels behind jumps
    → (pos < behind) × (behind ≤ length buffer)
Decodes-within (root inside e end) = omega arith
Decodes-within (label e low high next inside copied d) = omega (arith, Decodes-within d)
Decodes-within (pointer marked inside t back end d) = omega arith

-- A name that `parse_dns_name` returns fits with its closing NUL in the output buffer and has at most
-- 254 bytes, and the new offset lies past the old one and not past the end of the buffer.
pub parse_dns_name_bounds :
    (buffer : Bytes) (offset name_len : ℕ) (name : Bytes) (behind : ℕ)
    → All IsByte buffer
    → parse_dns_name (some buffer) offset name_len ≡ some (name, behind)
    → (length name < name_len) × (length name ≤ 254) × (offset < behind) × (behind ≤ length buffer)
parse_dns_name_bounds buffer offset name_len name behind bytes e =
    let (labels, jumps, d, few, short, fits, n) =
      parse_dns_name_sound buffer offset name_len name behind bytes e in
    omega (arith, ap length n, length-joined labels, Decodes-within d)
