-- ===== src/Name/Rounds.antt =====
-- What one round of the loop does, read off its result; and a bound on the number of rounds.
use personal_test_resolver.Common.{
  ℕ, ◌+◌, ◌-◌, ◌*◌, ◌%◌, ◌≤◌, ◌<◌, bit_and, true, [], ◌∷◌, ◌++◌, ◌≡◌, refl, arith, table,
  table_entry, Bytes, IsByte, length, take, drop, leb, if◌then◌else◌, length-append, not, ◌≢◌, ◌⊎◌,
  stuck, suc, get_or, inl, inr, zero,
}
use personal_test_resolver.Common.Bits.{bit_and-0x3f, bit_or_join}
use personal_test_resolver.Name.{
  Cursor, again, is_pointer, pointer_offset, follow_pointer, copy_label, max_compression_jumps,
  name_round, name_loop, Round, done, bad,
}
use personal_test_resolver.Wire.{max_name_len}

pointer_table : table (λ b. if leb 192 b then is_pointer b else not (is_pointer b)) 256 ≡ true
unfolding table
pointer_table = refl

-- The two top bits are set from 192 on.
pub is_pointer_byte : (b : ℕ) → IsByte b → is_pointer b ≡ leb 192 b
is_pointer_byte b h = ground (arith, table_entry _ 256 b h pointer_table)

-- The fourteen low bits of the two bytes.
pub pointer_offset_value : (b c : ℕ) → IsByte c → pointer_offset b c ≡ b % 64 * 256 + c
pointer_offset_value b c h = omega (arith, bit_and-0x3f b, bit_or_join 8 (bit_and b 0x3f) c h)

-- What is left of the bounds on jumps and on the output.
abbrev pub rounds_left : Cursor → ℕ
rounds_left c = (max_compression_jumps - c.jump_count) + (max_name_len - length c.name)

-- The output stays within its bound, and the jumps within theirs.
pub record InBounds (c : Cursor) : Type 0 where
  pub jumps : c.jump_count ≤ max_compression_jumps
  pub output : length c.name ≤ max_name_len

follow_pointer_progress :
    (buffer : Bytes) (c : Cursor) (b : ℕ) {c' : Cursor}
    → InBounds c
    → follow_pointer buffer c b ≡ again c'
    → InBounds c' × (rounds_left c' < rounds_left c)
unfolding follow_pointer
follow_pointer_progress buffer c b v e = ground arith

copy_label_progress :
    (buffer : Bytes) (name_len : ℕ) (c : Cursor) (b : ℕ) {c' : Cursor}
    → InBounds c
    → copy_label buffer name_len c b ≡ again c'
    → InBounds c' × (rounds_left c' < rounds_left c)
unfolding copy_label
copy_label_progress buffer name_len c b v e = ground (
  arith,
  length-append c.name (take b (drop (c.pos + 1) buffer) ++ b'.' ∷ []),
  length-append (take b (drop (c.pos + 1) buffer)) (b'.' ∷ []),
)

pub name_round_progress :
    (buffer : Bytes) (name_len : ℕ) (c : Cursor) (b : ℕ) {c' : Cursor}
    → InBounds c
    → name_round buffer name_len c b ≡ again c'
    → InBounds c' × (rounds_left c' < rounds_left c)
unfolding name_round
name_round_progress buffer name_len c b {c'} v e = ground (
  arith,
  follow_pointer_progress buffer c b {c' = c'} v,
  copy_label_progress buffer name_len c b {c' = c'} v,
)

pub Round-cases :
    (r : Round)
    → ((n : Bytes) × (o : ℕ) × (r ≡ done n o)) ⊎ ((r ≡ bad) ⊎ ((c : Cursor) × (r ≡ again c)))
Round-cases (done n o) = inl (n, o, refl)
Round-cases bad = inr (inl refl)
Round-cases (again c) = inr (inr (c, refl))

pub name_loop-ne-stuck :
    (fuel : ℕ) (buffer : Bytes) (name_len : ℕ) (c : Cursor)
    → InBounds c
    → rounds_left c < fuel
    → name_loop fuel buffer name_len c ≢ stuck
unfolding name_loop
name_loop-ne-stuck zero buffer name_len c v h = elim h [ ]
name_loop-ne-stuck (suc fuel) buffer name_len c v h =
    elim (Round-cases (name_round buffer name_len c (get_or buffer c.pos 0))) [
      | inl (n, o, e) ↦ ground arith
      | inr (inl e) ↦ ground arith
      | inr (inr (c', e)) ↦
          let (v', less) = name_round_progress buffer name_len c _ v e in
          ground (arith, name_loop-ne-stuck fuel buffer name_len c' v' (omega arith))
    ]
