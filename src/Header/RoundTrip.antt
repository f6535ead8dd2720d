-- ===== src/Header/RoundTrip.antt =====
-- Reading back a header that was written, and writing one that was read.
use personal_test_resolver.Common.{
  ℕ, ◌+◌, ◌*◌, ◌≤◌, ◌/◌, some, ◌∷◌, ◌++◌, ◌≡◌, Bytes, All, IsByte, length, bit_and, arith, drop,
  get_or-IsByte,
}
use personal_test_resolver.Common.Bits.{bit_and-0xff}
use personal_test_resolver.Wire.{Header, IsHeader, IsWord, header_size}
use personal_test_resolver.Header.{
  parse_dns_header, header_at, header_bytes, build_dns_header, read16,
}

-- Both bytes of a word, together.
word_bytes : (x : ℕ) → IsWord x → bit_and (x / 256) 0xff * 256 + bit_and x 0xff ≡ x
word_bytes x h = omega (arith, bit_and-0xff (x / 256), bit_and-0xff x)

pub header_at-header_bytes :
    (h : Header) (rest : Bytes) → IsHeader h → header_at (header_bytes h ++ rest) ≡ h
unfolding header_at header_bytes
header_at-header_bytes h rest v = ground (
  arith,
  word_bytes h.id v.id,
  word_bytes h.flags v.flags,
  word_bytes h.qdcount v.qdcount,
  word_bytes h.ancount v.ancount,
  word_bytes h.nscount v.nscount,
  word_bytes h.arcount v.arcount,
)

pub length-header_bytes :
    (h : Header) (rest : Bytes) → length (header_bytes h ++ rest) ≡ 12 + length rest
unfolding header_bytes
length-header_bytes h rest = omega arith

pub parse-header_bytes :
    (h : Header) (rest : Bytes)
    → IsHeader h
    → parse_dns_header (some (header_bytes h ++ rest)) ≡ some h
unfolding parse_dns_header
parse-header_bytes h rest v =
    ground (arith, length-header_bytes h rest, header_at-header_bytes h rest v)

-- A header with 16-bit fields that is built into any buffer parses back to the same header.
pub parse-build :
    (buffer : Bytes) (h : Header)
    → IsHeader h
    → parse_dns_header (build_dns_header (some buffer) (some h)) ≡ some h
unfolding build_dns_header
parse-build buffer h v = parse-header_bytes h (drop header_size buffer) v

-- The two bytes that a word was read from.
byte_pair :
    (a b : ℕ)
    → IsByte a
    → IsByte b
    → (bit_and ((a * 256 + b) / 256) 0xff ≡ a) × (bit_and (a * 256 + b) 0xff ≡ b)
byte_pair a b p q = omega (arith, bit_and-0xff ((a * 256 + b) / 256), bit_and-0xff (a * 256 + b))

header_bytes-header_at :
    (buffer : Bytes)
    → All IsByte buffer
    → 12 ≤ length buffer
    → header_bytes (header_at buffer) ++ drop header_size buffer ≡ buffer
unfolding header_at header_bytes
header_bytes-header_at (a ∷ b ∷ c ∷ d ∷ e ∷ f ∷ g ∷ h ∷ i ∷ j ∷ k ∷ l ∷ rest) bytes long = ground (
  arith,
  byte_pair a b,
  byte_pair c d,
  byte_pair e f,
  byte_pair g h,
  byte_pair i j,
  byte_pair k l,
)
header_bytes-header_at _ bytes long = absurd (omega arith)

-- A header that was parsed from a buffer of bytes, when built into that buffer again, changes
-- no byte of it.
pub build-parse :
    (buffer : Bytes) {h : Header}
    → All IsByte buffer
    → parse_dns_header (some buffer) ≡ some h
    → build_dns_header (some buffer) (some h) ≡ some buffer
unfolding parse_dns_header build_dns_header
build-parse buffer bytes e = ground (arith, header_bytes-header_at buffer bytes)

-- The fields that are read from bytes fit in 16 bits.
read16-IsWord : (buffer : Bytes) (i : ℕ) → All IsByte buffer → IsWord (read16 buffer i)
read16-IsWord buffer i h = omega (arith, get_or-IsByte buffer i h, get_or-IsByte buffer (i + 1) h)

pub parse-IsHeader :
    (buffer : Bytes) {h : Header}
    → All IsByte buffer
    → parse_dns_header (some buffer) ≡ some h
    → IsHeader h
unfolding parse_dns_header header_at
parse-IsHeader buffer bytes e = ground (
  arith,
  read16-IsWord buffer 0 bytes,
  read16-IsWord buffer 2 bytes,
  read16-IsWord buffer 4 bytes,
  read16-IsWord buffer 6 bytes,
  read16-IsWord buffer 8 bytes,
  read16-IsWord buffer 10 bytes,
)
