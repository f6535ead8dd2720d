-- ===== src/Wire.antt =====
-- dns.h: the protocol's constants and the structures of a message. A pointer that may be NULL is an
-- `Option`; a buffer and its length are one list of bytes.
use personal_test_resolver.Common.{ℕ, ◌<◌, Option, List, Bytes}

-- DNS_MAX_LABEL_LEN, DNS_MAX_NAME_LEN, DNS_UDP_MAX_SIZE, DNS_HEADER_SIZE
abbrev pub max_label_len : ℕ
max_label_len = 63

abbrev pub max_name_len : ℕ
max_name_len = 255

abbrev pub udp_max_size : ℕ
udp_max_size = 512

abbrev pub header_size : ℕ
header_size = 12

-- DNS_TYPE_A, DNS_TYPE_CNAME, DNS_TYPE_MX, DNS_TYPE_AAAA
abbrev pub type_a : ℕ
type_a = 1

abbrev pub type_cname : ℕ
type_cname = 5

abbrev pub type_mx : ℕ
type_mx = 15

abbrev pub type_aaaa : ℕ
type_aaaa = 28

-- DNS_RCODE_*
abbrev pub rcode_noerror : ℕ
rcode_noerror = 0

abbrev pub rcode_formerr : ℕ
rcode_formerr = 1

abbrev pub rcode_servfail : ℕ
rcode_servfail = 2

abbrev pub rcode_nxdomain : ℕ
rcode_nxdomain = 3

abbrev pub rcode_notimpl : ℕ
rcode_notimpl = 4

abbrev pub rcode_refused : ℕ
rcode_refused = 5

-- DNS_FLAG_QR, DNS_FLAG_RD
abbrev pub flag_qr : ℕ
flag_qr = 0x8000

abbrev pub flag_rd : ℕ
flag_rd = 0x0100

-- A value of a uint16_t.
abbrev pub IsWord : ℕ → Type 0
IsWord x = x < 0x1_0000

-- dns_header_t
pub record Header : Type 0 where
  pub id : ℕ
  pub flags : ℕ
  pub qdcount : ℕ
  pub ancount : ℕ
  pub nscount : ℕ
  pub arcount : ℕ

-- The fields of a header are uint16_t.
pub record IsHeader (h : Header) : Type 0 where
  pub id : IsWord h.id
  pub flags : IsWord h.flags
  pub qdcount : IsWord h.qdcount
  pub ancount : IsWord h.ancount
  pub nscount : IsWord h.nscount
  pub arcount : IsWord h.arcount

-- dns_question_t
pub record Question : Type 0 where
  pub qname : Option Bytes
  pub qtype : ℕ
  pub qclass : ℕ

-- dns_message_t; `raw_len` is the length of `raw_data`
pub record Message : Type 0 where
  pub header : Header
  pub questions : Option (List Question)
  pub raw_data : Option Bytes
