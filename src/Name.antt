-- ===== src/Name.antt =====
-- `parse_dns_name` of dns_parser.c: the loop that decodes a domain name with compression pointers.
pub mod Correct
pub mod Complete
pub mod Decodes
pub mod Sound
pub mod Dotted
pub mod Rounds
use personal_test_resolver.Common.{
  ℕ, zero, suc, ◌+◌, ◌*◌, bit_and, bit_or, Bool, true, false, Option, none, some, [], ◌∷◌, ◌++◌,
  Bytes, length, get_or, take, drop, ltb, leb, ◌==◌, if◌then◌else◌, Outcome, ok, err, stuck, settle,
}
use personal_test_resolver.Wire.{max_label_len, max_name_len}

-- MAX_COMPRESSION_JUMPS
abbrev pub max_compression_jumps : ℕ
max_compression_jumps = 10

-- The loop's variables. `name` is what has been written of the output, so `name_pos` is its length;
-- `offset` is the caller's `*offset`.
pub record Cursor : Type 0 where
  pub pos : ℕ
  pub name : Bytes
  pub jump_count : ℕ
  pub jumped : Bool
  pub offset : ℕ

-- One round of the loop: it returns the name and the new offset, returns -1, or goes on.
pub data Round : Type 0 where
  done : Bytes → ℕ → Round
  bad : Round
  again : Cursor → Round

abbrev pub is_pointer : ℕ → Bool
is_pointer b = bit_and b 0xc0 == 0xc0

abbrev pub pointer_offset : ℕ → ℕ → ℕ
pointer_offset label_len next = bit_or (bit_and label_len 0x3f * 256) next

unfoldable pub follow_pointer : Bytes → Cursor → ℕ → Round
follow_pointer buffer c label_len =
    let target = pointer_offset label_len (get_or buffer (c.pos + 1) 0) in
    if leb (length buffer) (c.pos + 1)
    then bad
    else if leb c.pos target
    then bad
    else if ltb max_compression_jumps (c.jump_count + 1)
    then bad
    else again (record {
      pos = target;
      name = c.name;
      jump_count = c.jump_count + 1;
      jumped = true;
      offset = if c.jumped then c.offset else c.pos + 2;
    })

-- Without the trailing dot.
unfoldable pub strip_dot : Bytes → Bytes
strip_dot [] = []
strip_dot (c ∷ []) = if c == b'.' then [] else c ∷ []
strip_dot (c ∷ d ∷ cs) = c ∷ strip_dot (d ∷ cs)

unfoldable pub copy_label : Bytes → ℕ → Cursor → ℕ → Round
copy_label buffer name_len c label_len =
    let pos = c.pos + 1 in
    let name = c.name ++ (take label_len (drop pos buffer) ++ b'.' ∷ []) in
    if ltb (length buffer) (pos + label_len)
    then bad
    else if leb name_len (length c.name + label_len + 1)
    then bad
    else if ltb max_name_len (length name)
    then bad
    else again (record c { pos = pos + label_len; name = name })

-- The body of the loop, on the byte at `pos`.
unfoldable pub name_round : Bytes → ℕ → Cursor → ℕ → Round
name_round buffer name_len c label_len =
    if is_pointer label_len
    then follow_pointer buffer c label_len
    else if ltb max_label_len label_len
    then bad
    else if label_len == 0
    then done (strip_dot c.name) (if c.jumped then c.offset else c.pos + 1)
    else copy_label buffer name_len c label_len

-- `while (pos < len)`, with a bound on the rounds.
unfoldable pub name_loop : ℕ → Bytes → ℕ → Cursor → Outcome (Bytes × ℕ)
name_loop zero buffer name_len c = stuck
name_loop (suc fuel) buffer name_len c =
    let body : Outcome (Bytes × ℕ) = elim (name_round buffer name_len c (get_or buffer c.pos 0)) [
      | done name offset ↦ ok (name, offset)
      | bad ↦ err
      | again c' ↦ name_loop fuel buffer name_len c'
    ] in
    if ltb c.pos (length buffer) then body else err

abbrev pub start_at : ℕ → Cursor
start_at offset = record {
  pos = offset;
  name = [];
  jump_count = 0;
  jumped = false;
  offset = offset;
}

-- At most ten jumps and 255 bytes of output, and a last round.
abbrev pub name_fuel : ℕ
name_fuel = 267

-- The name, without its closing NUL, and the new `*offset`.
unfoldable pub parse_dns_name : Option Bytes → ℕ → ℕ → Option (Bytes × ℕ)
parse_dns_name none offset name_len = none
parse_dns_name (some buffer) offset name_len =
    if name_len == 0 then none else settle (name_loop name_fuel buffer name_len (start_at offset))
