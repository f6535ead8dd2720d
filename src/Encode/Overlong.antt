-- ===== src/Encode/Overlong.antt =====
-- Names that `encode_dns_name` writes although they are too long for a message.
use personal_test_resolver.Common.{
  ℕ, ◌+◌, ◌<◌, ◌≡◌, refl, none, some, List, [], ◌∷◌, ◌++◌, Bytes, length, arith, All, IsByte,
  Option-cases, inl, inr, length-append, ◌∙◌, sym, ap,
}
use personal_test_resolver.Name.Decodes.{Decodes, root, label, pointer}
use personal_test_resolver.Common.Memory.{Mem, Plentiful}
use personal_test_resolver.Encode.RoundTrip.{wire, IsLabel, Decodes-wire}
use personal_test_resolver.Name.Dotted.{size, joined, length-joined}
use personal_test_resolver.Encode.Labels.{
  IsHostLabel, encode_text, strtok-joined, encode_labels-wire,
}
use personal_test_resolver.Encode.{encode_dns_name}
use personal_test_resolver.Name.{parse_dns_name}
use personal_test_resolver.Name.Correct.{parse_dns_name-IsNameAt}

-- Only one list of labels stands at a place.
Decodes-unique :
    {buffer : Bytes} {pos end end' jumps jumps' : ℕ} {ls ls' : List Bytes}
    → Decodes buffer pos ls end jumps
    → Decodes buffer pos ls' end' jumps'
    → ls ≡ ls'
Decodes-unique (root inside stop is) (root inside' stop' is') = refl
Decodes-unique (root inside stop is) (label len some_bytes short is' fits text d) =
    absurd (omega (arith, stop, len, some_bytes))
Decodes-unique (root inside stop is) (pointer marked inside' target low is' d) =
    absurd (omega (arith, stop, marked))
Decodes-unique (label len some_bytes short is fits text d) (root inside stop is') =
    absurd (omega (arith, stop, len, some_bytes))
Decodes-unique (label {n} {next} {l} len some_bytes short is fits text d)
      (label {n = n'} {next = next'} {l = l'} len' some_bytes' short' is' fits' text' d') =
    let count : n' ≡ n = omega (arith, len, len') in
    let behind : next' ≡ next = omega (arith, is, is', count) in
    let same : l ≡ l' = text ∙ sym (rw count at text') in
    let others = Decodes-unique d (rw behind at d') in rw (same, others) refl
Decodes-unique (label len some_bytes short is fits text d)
      (pointer marked inside' target low is' d') =
    absurd (omega (arith, short, len, marked))
Decodes-unique (pointer marked inside target low is d) (root inside' stop is') =
    absurd (omega (arith, stop, marked))
Decodes-unique (pointer marked inside target low is d)
      (label len some_bytes short is' fits text d') =
    absurd (omega (arith, short, len, marked))
Decodes-unique (pointer {target = to} marked inside target low is d)
      (pointer {target = to'} marked' inside' target' low' is' d') =
    let same : to' ≡ to = target' ∙ sym target in Decodes-unique d (rw same at d')

host_labels : (labels : List Bytes) → All IsHostLabel labels → All IsLabel labels
host_labels [] h = tt
host_labels (l ∷ ls) h = (h.0.0, host_labels ls h.1)

length-wire : (labels : List Bytes) → length (wire labels) ≡ size labels + 1
length-wire [] = refl
length-wire (l ∷ ls) = omega (arith, length-append l (wire ls), length-wire ls)

-- A name of 255 bytes, given by labels of 1 to 63 bytes without a dot: with memory and room for it
-- `encode_dns_name` writes its wire form, which takes 257 bytes, and `parse_dns_name` refuses that
-- wherever in a message it stands.
pub parse-encode_overlong :
    (labels : List Bytes) (buf_len name_len : ℕ) (m : Mem) (front back : Bytes)
    → Plentiful m
    → All IsHostLabel labels
    → length (joined labels) ≡ 255
    → 256 < buf_len
    → All IsByte (front ++ (wire labels ++ back))
    → ((encode_dns_name (some (joined labels)) buf_len m).0 ≡ some (wire labels))
      × (length (wire labels) ≡ 257)
      × (parse_dns_name (some (front ++ (wire labels ++ back))) (length front) name_len ≡ none)
parse-encode_overlong labels buf_len name_len m front back plenty h long room bytes =
    let buffer = front ++ (wire labels ++ back) in
    let counted = length-joined labels in
    let d =
      Decodes-wire labels buffer front back (length front) (length front + length (wire labels))
        (host_labels labels h) refl refl refl in
    (
      encode_text (joined labels) labels buf_len m plenty (strtok-joined labels h)
          (omega (arith, long)) (omega (arith, room))
          (encode_labels-wire labels buf_len [] h (omega (arith, counted, long, room))),
      omega (arith, length-wire labels, counted, long),
      elim (Option-cases (parse_dns_name (some buffer) (length front) name_len)) [
        | inl fails ↦ fails
        | inr ((name, behind), reads) ↦
            let (ls, jumps, d', few, short, fits, text) =
              (parse_dns_name-IsNameAt buffer (length front) name_len name behind bytes).0 reads in
            let same = Decodes-unique d d' in
            absurd (omega (arith, ap size same, short, counted, long))
      ],
    )
