-- ===== src/Encode/RoundTrip.antt =====
-- An encoded name, read back by the parser.
use personal_test_resolver.Common.{
  ℕ, ◌+◌, ◌%◌, some, List, [], ◌∷◌, ◌++◌, Bytes, length, ◌≤◌, ◌≡◌, All, arith, append_assoc, ap,
  zero, length-append, get_or-append, ◌∙◌, drop-append, sym, take-append, refl, IsByte,
}
use personal_test_resolver.Encode.{encode_labels, Mem, strtok, encode_dns_name, flush}
use personal_test_resolver.Name.Decodes.{Decodes, root, label}
use personal_test_resolver.Name.Dotted.{size, joined}
use personal_test_resolver.Name.{parse_dns_name}
use personal_test_resolver.Name.Correct.{parse_dns_name-IsNameAt}

-- The wire form of labels: each behind its length, and a zero byte.
abbrev pub wire : List Bytes → Bytes
wire [] = 0 ∷ []
wire (l ∷ ls) = length l ∷ (l ++ wire ls)

abbrev pub IsLabel : Bytes → Type 0
IsLabel l = (1 ≤ length l) × (length l ≤ 63)

encode_labels_to_wire :
    (labels : List Bytes) (buf_len : ℕ) (written : Bytes) {bytes : Bytes}
    → encode_labels labels buf_len written ≡ some bytes
    → (bytes ≡ written ++ wire labels) × All IsLabel labels
unfolding encode_labels
encode_labels_to_wire [] buf_len written e = ground arith
encode_labels_to_wire (l ∷ ls) buf_len written {bytes} e = ground (
  arith,
  encode_labels_to_wire ls buf_len (written ++ (length l % 256) ∷ l) {bytes = bytes},
  append_assoc written (length l ∷ l) (wire ls),
)

-- The labels of a wire form stand where it starts, whatever is around it.
pub Decodes-wire :
    (labels : List Bytes) (buffer front back : Bytes) (pos behind : ℕ)
    → All IsLabel labels
    → buffer ≡ front ++ (wire labels ++ back)
    → pos ≡ length front
    → behind ≡ length front + length (wire labels)
    → Decodes buffer pos labels behind zero
Decodes-wire [] buffer front back pos behind valid b p e =
    root (omega (arith, ap length b, length-append front (0 ∷ back)))
      (rw b (get_or-append front back 0 pos p)) (omega arith)
Decodes-wire (l ∷ ls) buffer front back pos behind valid b p e =
    let rest = wire ls ++ back in
    let start = front ++ (length l ∷ []) in
    let b' : buffer ≡ start ++ (l ++ rest) = b ∙ simp append_assoc in
    let starts : length start ≡ length front + 1 = length-append front (length l ∷ []) in
    let whole = length-append l (wire ls) in
    let tail = length-append l rest in
    let total = length-append start (l ++ rest) in
    label (rw b (get_or-append front ((l ++ wire ls) ++ back) (length l) pos p)) valid.0.0 valid.0.1
      refl (omega (arith, ap length b', tail, total, starts))
      (rw (b', drop-append start (l ++ rest) (pos + 1) (omega (arith, starts)))
        (sym (take-append l rest _ refl)))
      (Decodes-wire ls buffer (start ++ l) back _ behind valid.1
        (b' ∙ sym (append_assoc start l rest)) (omega (arith, starts, length-append start l))
        (omega (arith, starts, length-append start l, whole)))

size-flush : (token : Bytes) (ls : List Bytes) → size (flush token ls) ≤ length token + 1 + size ls
size-flush [] ls = omega arith
size-flush (c ∷ cs) ls = omega arith

-- Each token takes at most its bytes and one dot.
size-strtok : (token s : Bytes) → size (strtok token s) ≤ length token + length s + 1
unfolding strtok
size-strtok token [] = omega (arith, size-flush token [])
size-strtok token (c ∷ cs) = ground (
  arith,
  size-flush token (strtok [] cs),
  size-strtok [] cs,
  size-strtok (token ++ c ∷ []) cs,
  length-append token (c ∷ []),
)

encode_dns_name-wire :
    (domain : Bytes) (buf_len : ℕ) (m : Mem) {bytes : Bytes}
    → (encode_dns_name (some domain) buf_len m).0 ≡ some bytes
    → (bytes ≡ wire (strtok [] domain)) × All IsLabel (strtok [] domain)
unfolding encode_dns_name
encode_dns_name-wire [] buf_len m e = unfold strtok in ground arith
encode_dns_name-wire (c ∷ cs) buf_len m {bytes} e =
    encode_labels_to_wire (strtok [] (c ∷ cs)) buf_len [] (ground arith)

-- A domain of at most 254 bytes that `encode_dns_name` encodes is read back by `parse_dns_name`, wherever
-- in a message the encoding stands: the result is the domain's labels with single dots between
-- them, and the new offset is the end of the encoding.
pub parse-encode_dns_name :
    (domain : Bytes) (buf_len : ℕ) (m : Mem) {bytes : Bytes} (front back : Bytes)
    → All IsByte (front ++ (bytes ++ back))
    → length domain ≤ 254
    → (encode_dns_name (some domain) buf_len m).0 ≡ some bytes
    → parse_dns_name (some (front ++ (bytes ++ back))) (length front) 256
      ≡ some (joined (strtok [] domain), length front + length bytes)
parse-encode_dns_name domain buf_len m {bytes} front back byte short e =
    let (b, valid) = encode_dns_name-wire domain buf_len m e in
    let labels = strtok [] domain in
    let d =
      Decodes-wire labels (front ++ (bytes ++ back)) front back (length front)
        (length front + length bytes) valid (rw b) refl (rw b) in
    (parse_dns_name-IsNameAt (front ++ (bytes ++ back)) (length front) 256 _ _ byte).1 (
      labels,
      0,
      d,
      omega arith,
      omega (arith, size-strtok [] domain),
      omega (arith, size-strtok [] domain),
      refl,
    )
