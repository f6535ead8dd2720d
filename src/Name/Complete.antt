-- ===== src/Name/Complete.antt =====
-- Every name that stands in the message, and keeps to the bounds, is returned by the loop.
use personal_test_resolver.Common.{
  ℕ, zero, suc, ◌+◌, ◌≤◌, ◌<◌, List, [], ◌∷◌, ◌++◌, ◌≡◌, refl, arith, Bytes, All, IsByte, take,
  true, get_or, drop, length, ◌%◌, if◌then◌else◌, get_or-IsByte, length-take, ◌*◌, ok, append-nil,
  ap, length-drop, ◌∙◌, append_assoc,
}
use personal_test_resolver.Name.{
  Cursor, done, again, strip_dot, name_round, follow_pointer, copy_label, max_name_len,
  max_compression_jumps, name_loop,
}
use personal_test_resolver.Name.Decodes.{Decodes, root, label, pointer}
use personal_test_resolver.Name.Rounds.{is_pointer_byte, rounds_left, pointer_offset_value}
use personal_test_resolver.Name.Sound.{length-copied}
use personal_test_resolver.Name.Dotted.{size, dotted}

module _ (buffer : Bytes) (name_len : ℕ) (bytes : All IsByte buffer) where
  name_round_root :
      (c : Cursor)
      → get_or buffer c.pos 0 ≡ 0
      → name_round buffer name_len c (get_or buffer c.pos 0)
        ≡ done (strip_dot c.name) (if c.jumped then c.offset else c.pos + 1)
  unfolding name_round
  name_round_root c e = rw e

  abbrev jump_to : Cursor → ℕ → Cursor
  jump_to c target = record {
    pos = target;
    name = c.name;
    jump_count = c.jump_count + 1;
    jumped = true;
    offset = if c.jumped then c.offset else c.pos + 2;
  }

  name_round_pointer :
      (c : Cursor) (target : ℕ)
      → 192 ≤ get_or buffer c.pos 0
      → c.pos + 1 < length buffer
      → target ≡ get_or buffer c.pos 0 % 64 * 256 + get_or buffer (c.pos + 1) 0
      → target < c.pos
      → c.jump_count < max_compression_jumps
      → name_round buffer name_len c (get_or buffer c.pos 0) ≡ again (jump_to c target)
  unfolding name_round follow_pointer
  name_round_pointer c target marked inside t back few = ground (
    arith,
    is_pointer_byte (get_or buffer c.pos 0) (get_or-IsByte buffer c.pos bytes),
    pointer_offset_value (get_or buffer c.pos 0) (get_or buffer (c.pos + 1) 0)
        (get_or-IsByte buffer (c.pos + 1) bytes),
  )

  abbrev with_label : Cursor → ℕ → Cursor
  with_label c n = record c {
    pos = c.pos + 1 + n;
    name = c.name ++ (take n (drop (c.pos + 1) buffer) ++ b'.' ∷ []);
  }

  name_round_label :
      (c : Cursor) (n : ℕ)
      → get_or buffer c.pos 0 ≡ n
      → 1 ≤ n
      → n ≤ 63
      → c.pos + 1 + n ≤ length buffer
      → length c.name + n + 1 < name_len
      → length c.name + n + 1 ≤ max_name_len
      → name_round buffer name_len c (get_or buffer c.pos 0) ≡ again (with_label c n)
  unfolding name_round copy_label
  name_round_label c n e low high inside fits short = ground (
    arith,
    is_pointer_byte (get_or buffer c.pos 0) (get_or-IsByte buffer c.pos bytes),
    length-copied c.name (take n (drop (c.pos + 1) buffer)),
    length-take n (drop (c.pos + 1) buffer),
  )

  loop_done :
      (fuel : ℕ) (c : Cursor) (n : Bytes) (o : ℕ)
      → c.pos < length buffer
      → name_round buffer name_len c (get_or buffer c.pos 0) ≡ done n o
      → name_loop (suc fuel) buffer name_len c ≡ ok (n, o)
  unfolding name_loop
  loop_done fuel c n o inside e = ground arith

  loop_again :
      (fuel : ℕ) (c c' : Cursor)
      → c.pos < length buffer
      → name_round buffer name_len c (get_or buffer c.pos 0) ≡ again c'
      → name_loop (suc fuel) buffer name_len c ≡ name_loop fuel buffer name_len c'
  unfolding name_loop
  loop_again fuel c c' inside e = ground arith

  -- The labels that are left fit in what is left of the bounds.
  pub record Room (c : Cursor) (labels : List Bytes) (jumps : ℕ) : Type 0 where
    pub few : c.jump_count + jumps ≤ max_compression_jumps
    pub output : length c.name + size labels ≤ max_name_len
    pub fits : length c.name + size labels < name_len

  pub name_loop-Decodes :
      (fuel : ℕ) (c : Cursor) {pos behind jumps : ℕ} {labels : List Bytes}
      → Decodes buffer pos labels behind jumps
      → c.pos ≡ pos
      → Room c labels jumps
      → rounds_left c < fuel
      → name_loop fuel buffer name_len c
        ≡ ok (strip_dot (c.name ++ dotted labels), if c.jumped then c.offset else behind)
  name_loop-Decodes zero c d here room enough = elim enough [ ]
  name_loop-Decodes (suc fuel) c (root inside e end) here room enough =
      rw (append-nil, end, ← here)
        (loop_done fuel c _ _ (rw here inside) (name_round_root c (rw here e)))
  name_loop-Decodes (suc fuel) c (label {n} {l} {ls} e low high next inside copied d) here room
        enough =
      let l_is : l ≡ take n (drop (c.pos + 1) buffer) = rw here copied in
      let long : length l ≡ n = omega (
        arith,
        ap length l_is,
        length-take n (drop (c.pos + 1) buffer),
        length-drop (c.pos + 1) buffer,
      ) in
      let c' = with_label c n in
      let grown : length c'.name ≡ length c.name + length l + 1 =
        rw l_is (length-copied c.name _) in
      loop_again fuel c c' (omega arith)
        (name_round_label c n (rw here e) low high (omega arith) (omega arith) (omega arith))
      ∙ name_loop-Decodes fuel c' d (omega arith) (omega (arith, grown)) (omega (arith, grown))
      ∙ rw l_is (simp append_assoc)
  name_loop-Decodes (suc fuel) c (pointer {target} marked inside t back end d) here room enough =
      let c' = jump_to c target in
      loop_again fuel c c' (omega arith) (
        name_round_pointer c target (rw here marked) (omega arith) (rw here t) (omega arith)
          (omega arith))
      ∙ name_loop-Decodes fuel c' d refl (omega arith) (omega arith)
      ∙ rw (end, here)
