-- ===== src/Encode.antt =====
-- `encode_dns_name` of dns_builder.c.
pub mod RoundTrip
pub mod Labels
pub mod Overlong
use personal_test_resolver.Common.{
  ℕ, ◌+◌, ◌%◌, Bool, true, false, ◌||◌, Option, none, some, List, [], ◌∷◌, ◌++◌, Bytes, length, ltb,
  leb, ◌==◌, if◌then◌else◌,
}
use personal_test_resolver.Common.Memory.{Mem, malloc, release}
use personal_test_resolver.Wire.{max_name_len, max_label_len}

-- A token that `strtok` has gathered, unless it is empty.
abbrev pub flush : Bytes → List Bytes → List Bytes
flush [] tokens = tokens
flush (c ∷ cs) tokens = (c ∷ cs) ∷ tokens

-- What the calls of `strtok(s, ".")` return in turn: the runs of bytes between dots. `token` is what
-- has been gathered of the current one.
unfoldable pub strtok : Bytes → Bytes → List Bytes
strtok token [] = flush token []
strtok token (c ∷ cs) = elim (c == b'.') [
  | true ↦ flush token (strtok [] cs)
  | false ↦ strtok (token ++ c ∷ []) cs
]

-- The loop over the labels: `written` is the buffer so far, `bytes_written` its length. A label's
-- length goes out as a uint8_t.
unfoldable pub encode_labels : List Bytes → ℕ → Bytes → Option Bytes
encode_labels [] buf_len written =
    if leb buf_len (length written) then none else some (written ++ 0 ∷ [])
encode_labels (label ∷ labels) buf_len written =
    if length label == 0 || ltb max_label_len (length label)
    then none
    else if leb buf_len (length written + length label + 1)
    then none
    else encode_labels labels buf_len (written ++ (length label % 256) ∷ label)

-- The bytes written; their number is the C function's result.
unfoldable pub encode_dns_name : Option Bytes → ℕ → Mem → Option Bytes × Mem
encode_dns_name none buf_len m = (none, m)
encode_dns_name (some []) buf_len m = (if buf_len == 0 then none else some (0 ∷ []), m)
encode_dns_name (some (c ∷ cs)) buf_len m =
    if buf_len == 0 || ltb max_name_len (length (c ∷ cs))
    then (none, m)
    else let (granted, m') = malloc m in
      if granted then (encode_labels (strtok [] (c ∷ cs)) buf_len [], release 1 m') else (none, m')
