-- ===== src/Header.antt =====
-- `parse_dns_header` of dns_parser.c and `build_dns_header` of dns_builder.c.
pub mod RoundTrip
use personal_test_resolver.Common.{
  ℕ, ◌+◌, ◌*◌, ◌/◌, bit_and, Option, none, some, List, [], ◌∷◌, ◌++◌, Bytes, length, get_or, drop,
  ltb, if◌then◌else◌,
}
use personal_test_resolver.Wire.{Header, header_size}

-- `ntohs(*(uint16_t *)(buffer + i))`
abbrev pub read16 : Bytes → ℕ → ℕ
read16 buffer i = get_or buffer i 0 * 256 + get_or buffer (i + 1) 0

unfoldable pub header_at : Bytes → Header
header_at buffer = record {
  id = read16 buffer 0;
  flags = read16 buffer 2;
  qdcount = read16 buffer 4;
  ancount = read16 buffer 6;
  nscount = read16 buffer 8;
  arcount = read16 buffer 10;
}

unfoldable pub parse_dns_header : Option Bytes → Option Header
parse_dns_header none = none
parse_dns_header (some buffer) =
    if ltb (length buffer) header_size then none else some (header_at buffer)

-- `(x >> 8) & 0xFF` and `x & 0xFF`
abbrev pub write16 : ℕ → Bytes → Bytes
write16 x rest = bit_and (x / 256) 0xff ∷ bit_and x 0xff ∷ rest

unfoldable pub header_bytes : Header → Bytes
header_bytes h = write16 h.id (
    write16 h.flags
      (write16 h.qdcount (write16 h.ancount (write16 h.nscount (write16 h.arcount [])))))

-- The header overwrites the first twelve bytes of `buffer`, which must have that many.
unfoldable pub build_dns_header : Option Bytes → Option Header → Option Bytes
build_dns_header none header = none
build_dns_header (some buffer) none = none
build_dns_header (some buffer) (some h) = some (header_bytes h ++ drop header_size buffer)
