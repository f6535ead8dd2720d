-- ===== src/Name/Sound.antt =====
-- What the loop returns is the name that stands in the message.
use personal_test_resolver.Common.{
  ℕ, zero, suc, ◌+◌, ◌*◌, ◌%◌, ◌≤◌, ◌<◌, true, List, [], ◌∷◌, ◌++◌, ◌≡◌, ◌⊎◌, inl, inr, refl, arith,
  Bytes, All, IsByte, length, get_or, take, drop, if◌then◌else◌, ok, length-append, length-take,
  get_or-IsByte, ◌∙◌, ap,
}
use personal_test_resolver.Name.{
  Cursor, done, again, follow_pointer, strip_dot, copy_label, name_round, name_loop,
  max_compression_jumps,
}
use personal_test_resolver.Name.Decodes.{Decodes, root, label, pointer}
use personal_test_resolver.Name.Dotted.{dotted, size}
use personal_test_resolver.Name.Rounds.{
  InBounds, is_pointer_byte, pointer_offset_value, Round-cases, name_round_progress,
}
use personal_test_resolver.Wire.{max_name_len}
use mathlib.Core.List.{append_assoc, append-nil}

-- The two ways in which a round goes on.
record Jumps (buffer : Bytes) (c c' : Cursor) : Type 0 where
  marked : 192 ≤ get_or buffer c.pos 0
  inside : c.pos + 1 < length buffer
  target : c'.pos ≡ get_or buffer c.pos 0 % 64 * 256 + get_or buffer (c.pos + 1) 0
  backwards : c'.pos < c.pos
  count : c'.jump_count ≡ c.jump_count + 1
  name : c'.name ≡ c.name
  jumped : c'.jumped ≡ true
  offset : c'.offset ≡ (if c.jumped then c.offset else c.pos + 2)

record Copies (buffer : Bytes) (name_len : ℕ) (c c' : Cursor) : Type 0 where
  positive : 1 ≤ get_or buffer c.pos 0
  short : get_or buffer c.pos 0 ≤ 63
  next : c'.pos ≡ c.pos + 1 + get_or buffer c.pos 0
  inside : c'.pos ≤ length buffer
  fits : length c.name + get_or buffer c.pos 0 + 1 < name_len
  name : c'.name ≡ c.name ++ (take (get_or buffer c.pos 0) (drop (c.pos + 1) buffer) ++ b'.' ∷ [])
  count : c'.jump_count ≡ c.jump_count
  jumped : c'.jumped ≡ c.jumped
  offset : c'.offset ≡ c.offset

name_round-again :
    (buffer : Bytes) (name_len : ℕ) (c : Cursor) {c' : Cursor}
    → All IsByte buffer
    → name_round buffer name_len c (get_or buffer c.pos 0) ≡ again c'
    → Jumps buffer c c' ⊎ Copies buffer name_len c c'
unfolding name_round follow_pointer copy_label
name_round-again buffer name_len c bytes e = ground (
  arith,
  is_pointer_byte (get_or buffer c.pos 0) (get_or-IsByte buffer c.pos bytes),
  pointer_offset_value (get_or buffer c.pos 0) (get_or buffer (c.pos + 1) 0)
      (get_or-IsByte buffer (c.pos + 1) bytes),
)

name_round-done :
    (buffer : Bytes) (name_len : ℕ) (c : Cursor) {n : Bytes} {o : ℕ}
    → All IsByte buffer
    → name_round buffer name_len c (get_or buffer c.pos 0) ≡ done n o
    → (get_or buffer c.pos 0 ≡ 0)
      × (n ≡ strip_dot c.name)
      × (o ≡ (if c.jumped then c.offset else c.pos + 1))
unfolding name_round follow_pointer copy_label
name_round-done buffer name_len c bytes e =
    ground (arith, is_pointer_byte (get_or buffer c.pos 0) (get_or-IsByte buffer c.pos bytes))

-- The loop, from `c` on, has read the labels `labels` and returns `name` and `offset`.
pub record Reads (buffer : Bytes) (name_len : ℕ) (c : Cursor) (name : Bytes) (offset : ℕ)
    : Type 0 where
  pub labels : List Bytes
  pub behind : ℕ
  pub jumps : ℕ
  pub decodes : Decodes buffer c.pos labels behind jumps
  pub few : c.jump_count + jumps ≤ max_compression_jumps
  pub output : length c.name + size labels ≤ max_name_len
  pub fits : length c.name + size labels < name_len
  pub name_is : name ≡ strip_dot (c.name ++ dotted labels)
  pub offset_is : offset ≡ (if c.jumped then c.offset else behind)

Reads-done :
    (buffer : Bytes) (name_len : ℕ) (c : Cursor) {n : Bytes} {o : ℕ}
    → InBounds c
    → length c.name < name_len
    → c.pos < length buffer
    → (get_or buffer c.pos 0 ≡ 0)
      × (n ≡ strip_dot c.name)
      × (o ≡ (if c.jumped then c.offset else c.pos + 1))
    → Reads buffer name_len c n o
Reads-done buffer name_len c v fits inside (zero_byte, n, o) = record {
  labels = [];
  behind = c.pos + 1;
  jumps = 0;
  decodes = root inside zero_byte refl;
  few = omega arith;
  output = omega arith;
  fits = omega arith;
  name_is = rw append-nil n;
  offset_is = o;
}

Reads-jump :
    (buffer : Bytes) (name_len : ℕ) (c c' : Cursor) {n : Bytes} {o : ℕ}
    → Jumps buffer c c'
    → Reads buffer name_len c' n o
    → Reads buffer name_len c n o
Reads-jump buffer name_len c c' j r = record {
  labels = r.labels;
  behind = c.pos + 2;
  jumps = suc r.jumps;
  decodes = pointer j.marked j.inside j.target j.backwards refl r.decodes;
  few = omega arith;
  output = omega (arith, ap length j.name);
  fits = omega (arith, ap length j.name);
  name_is = rw (← j.name) r.name_is;
  offset_is = rw (j.jumped, j.offset) at r.offset_is;
}

pub length-copied :
    (name l : Bytes) → length (name ++ (l ++ b'.' ∷ [])) ≡ length name + length l + 1
length-copied name l =
    omega (arith, length-append name (l ++ b'.' ∷ []), length-append l (b'.' ∷ []))

Reads-copy :
    (buffer : Bytes) (name_len : ℕ) (c c' : Cursor) {n : Bytes} {o : ℕ}
    → Copies buffer name_len c c'
    → Reads buffer name_len c' n o
    → Reads buffer name_len c n o
Reads-copy buffer name_len c c' p r =
    let l = take (get_or buffer c.pos 0) (drop (c.pos + 1) buffer) in
    let lengths : length c'.name ≡ length c.name + length l + 1 =
      rw p.name (length-copied c.name l) in
    record {
      labels = l ∷ r.labels;
      behind = r.behind;
      jumps = r.jumps;
      decodes = label refl p.positive p.short p.next p.inside refl r.decodes;
      few = omega arith;
      output = omega (arith, lengths);
      fits = omega (arith, lengths);
      name_is = r.name_is ∙ rw p.name (simp append_assoc);
      offset_is = rw (p.jumped, p.offset) at r.offset_is;
    }

Copies-fits :
    (buffer : Bytes) (name_len : ℕ) (c c' : Cursor)
    → Copies buffer name_len c c'
    → length c'.name < name_len
Copies-fits buffer name_len c c' p = omega (
  arith,
  ap length p.name,
  length-copied c.name (take (get_or buffer c.pos 0) (drop (c.pos + 1) buffer)),
  length-take (get_or buffer c.pos 0) (drop (c.pos + 1) buffer),
)

pub name_loop-Reads :
    (fuel : ℕ) (buffer : Bytes) (name_len : ℕ) (c : Cursor) {n : Bytes} {o : ℕ}
    → All IsByte buffer
    → InBounds c
    → length c.name < name_len
    → name_loop fuel buffer name_len c ≡ ok (n, o)
    → Reads buffer name_len c n o
unfolding name_loop
name_loop-Reads zero buffer name_len c bytes v fits e = cc
name_loop-Reads (suc fuel) buffer name_len c {n} {o} bytes v fits e =
    elim (Round-cases (name_round buffer name_len c (get_or buffer c.pos 0))) [
      | inl (n', o', r) ↦
          let (same_name, same_offset) : (n ≡ n') × (o ≡ o') = ground arith in
          rw (same_name, same_offset)
            (Reads-done buffer name_len c v fits (ground arith)
              (name_round-done buffer name_len c bytes r))
      | inr (inl r) ↦ absurd (ground arith)
      | inr (inr (c', r)) ↦
          let later : name_loop fuel buffer name_len c' ≡ ok (n, o) = ground arith in
          let v' = (name_round_progress buffer name_len c _ v r).0 in
          elim (name_round-again buffer name_len c bytes r) [
            | inl j ↦
                Reads-jump buffer name_len c c' j
                  (name_loop-Reads fuel buffer name_len c' bytes v' (rw j.name fits) later)
            | inr p ↦ Reads-copy buffer name_len c c' p (
                name_loop-Reads fuel buffer name_len c' bytes v'
                  (Copies-fits buffer name_len c c' p) later)
          ]
    ]
