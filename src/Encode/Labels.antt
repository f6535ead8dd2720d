-- ===== src/Encode/Labels.antt =====
-- Names that are given by their labels: they are encoded label by label, if they fit.
use personal_test_resolver.Common.{
  ℕ, ◌+◌, ◌%◌, ◌≤◌, ◌<◌, some, List, [], ◌∷◌, ◌++◌, Bytes, length, ◌≢◌, ◌≡◌, refl, All, append-nil,
  arith, append_assoc, ◌∙◌, ap, length-append, IsByte,
}
use personal_test_resolver.Encode.{strtok, encode_labels, encode_dns_name, flush, Mem}
use personal_test_resolver.Encode.RoundTrip.{wire, IsLabel, parse-encode_dns_name}
use personal_test_resolver.Name.Dotted.{size, joined, length-joined}
use personal_test_resolver.Common.Memory.{Plentiful, malloc-Plentiful}
use personal_test_resolver.Name.{parse_dns_name}

abbrev pub NoDot : Bytes → Type 0
NoDot = All (λ c. c ≢ b'.')

-- A label of a domain name: 1 to 63 bytes, none of them a dot.
abbrev pub IsHostLabel : Bytes → Type 0
IsHostLabel l = IsLabel l × NoDot l

pub strtok-append :
    (token l rest : Bytes) → NoDot l → strtok token (l ++ rest) ≡ strtok (token ++ l) rest
unfolding strtok
strtok-append token [] rest h = rw append-nil
strtok-append token (c ∷ l) rest h =
    ground (arith, strtok-append (token ++ c ∷ []) l rest h.1, append_assoc token (c ∷ []) l)

flush-label : (l : Bytes) (ls : List Bytes) → 1 ≤ length l → flush l ls ≡ l ∷ ls
flush-label [] ls h = elim h [ ]
flush-label (c ∷ l) ls h = refl

pub strtok-joined :
    (labels : List Bytes) → All IsHostLabel labels → strtok [] (joined labels) ≡ labels
unfolding strtok
strtok-joined [] h = refl
strtok-joined (l ∷ []) h = rw append-nil at (strtok-append [] l [] h.0.1) ∙ flush-label l [] h.0.0.0
strtok-joined (l ∷ m ∷ ls) h =
    strtok-append [] l (b'.' ∷ joined (m ∷ ls)) h.0.1
    ∙ flush-label l _ h.0.0.0
    ∙ ap (◌∷◌ l) (strtok-joined (m ∷ ls) h.1)

pub encode_labels-wire :
    (labels : List Bytes) (buf_len : ℕ) (written : Bytes)
    → All IsHostLabel labels
    → length written + size labels < buf_len
    → encode_labels labels buf_len written ≡ some (written ++ wire labels)
unfolding encode_labels
encode_labels-wire [] buf_len written h room = ground arith
encode_labels-wire (l ∷ ls) buf_len written h room = ground (
  arith,
  encode_labels-wire ls buf_len (written ++ (length l % 256) ∷ l) h.1,
  append_assoc written (length l ∷ l) (wire ls),
  length-append written ((length l % 256) ∷ l),
)

pub encode_text :
    (domain : Bytes) (labels : List Bytes) (buf_len : ℕ) (m : Mem)
    → Plentiful m
    → strtok [] domain ≡ labels
    → length domain ≤ 255
    → 0 < buf_len
    → encode_labels labels buf_len [] ≡ some (wire labels)
    → (encode_dns_name (some domain) buf_len m).0 ≡ some (wire labels)
unfolding encode_dns_name
encode_text [] labels buf_len m plenty tokens short room e =
    let none_left : [] ≡ labels = unfold strtok in tokens in rw (← none_left) (ground arith)
encode_text (c ∷ cs) labels buf_len m plenty tokens short room e =
    ground (arith, malloc-Plentiful m plenty)

encode_dns_name-joined :
    (labels : List Bytes) (buf_len : ℕ) (m : Mem)
    → Plentiful m
    → All IsHostLabel labels
    → size labels ≤ 255
    → size labels < buf_len
    → (encode_dns_name (some (joined labels)) buf_len m).0 ≡ some (wire labels)
encode_dns_name-joined labels buf_len m plenty h short room =
    encode_text (joined labels) labels buf_len m plenty (strtok-joined labels h)
      (omega (arith, length-joined labels)) (omega arith)
      (encode_labels-wire labels buf_len [] h (omega arith))

-- A list of labels, each of 1 to 63 bytes without a dot and at most 255 bytes in all with a dot for
-- each, survives printing with dots, encoding and parsing: with memory and room for it
-- `encode_dns_name` writes its wire form, and `parse_dns_name` returns the same dotted name from
-- wherever in a message that stands.
pub parse-encode_labels :
    (labels : List Bytes) (buf_len : ℕ) (m : Mem) (front back : Bytes)
    → Plentiful m
    → All IsHostLabel labels
    → size labels ≤ 255
    → size labels < buf_len
    → All IsByte (front ++ (wire labels ++ back))
    → ((encode_dns_name (some (joined labels)) buf_len m).0 ≡ some (wire labels))
      × (parse_dns_name (some (front ++ (wire labels ++ back))) (length front) 256
          ≡ some (joined labels, length front + length (wire labels)))
parse-encode_labels labels buf_len m front back plenty h short room bytes =
    let written = encode_dns_name-joined labels buf_len m plenty h short room in
    (
      written,
      rw (strtok-joined labels h) at (
          parse-encode_dns_name (joined labels) buf_len m front back bytes
            (omega (arith, length-joined labels)) written),
    )
