-- ===== src/Response/Fields.antt =====
-- What an error response holds: its header's fields, and the first question of the query.
use personal_test_resolver.Common.{
  ℕ, ◌+◌, ◌*◌, ◌/◌, ◌%◌, ◌≤◌, ◌<◌, ◌≡◌, ◌≢◌, refl, some, Bytes, length, arith, bit_or, bit_and,
  stuck, suc, ok, ◌⊎◌, ap, get_or, inl, zero, inr, Outcome-cases, ◌-◌, drop, Option-cases, ◌++◌,
  take, [], ◌∷◌, append-nil, length-take, length-drop, take-append, sym, ◌∙◌,
}
use personal_test_resolver.Response.{
  skip_name, question_size, fresh, write_response, build_error_response, allocate_response,
  response_header,
}
use personal_test_resolver.Wire.{Message, Header, header_size, IsHeader}
use personal_test_resolver.Header.{build_dns_header, header_bytes, parse_dns_header}
use personal_test_resolver.Common.Memory.{Mem, malloc, Plentiful, malloc-Plentiful}
use personal_test_resolver.Common.Bits.{bit_and-single, bit_or_join}
use personal_test_resolver.Header.RoundTrip.{length-header_bytes, parse-header_bytes}

-- QR, the query's RD bit and the code.
abbrev pub error_flags : ℕ → ℕ → ℕ
error_flags flags rcode = 0x8000 + flags / 0x100 % 2 * 0x100 + rcode

response_flags :
    (flags rcode : ℕ)
    → rcode ≤ 5
    → bit_or (bit_or 0x8000 (bit_and flags 0x100)) rcode ≡ error_flags flags rcode
response_flags flags rcode h = elim (low_or_high (flags / 0x100)) [
  | inl even ↦ rw (bit_and-single 8 flags, even) (bit_or_join 3 4096 rcode (omega arith))
  | inr odd ↦ rw (bit_and-single 8 flags, odd) (bit_or_join 3 4128 rcode (omega arith))
]
  where
    low_or_high : (n : ℕ) → (n % 2 ≡ 0) ⊎ (n % 2 ≡ 1)
    low_or_high n = ground arith

-- The walk over the question's name ends by its own tests.
pub skip_name-ne-stuck :
    (fuel : ℕ) (raw : Bytes) (pos : ℕ) → length raw - pos < fuel → skip_name fuel raw pos ≢ stuck
unfolding skip_name
skip_name-ne-stuck zero raw pos h = ground arith
skip_name-ne-stuck (suc fuel) raw pos h =
    ground (arith, skip_name-ne-stuck fuel raw (pos + (get_or raw pos 0 + 1)))

pub skip_name-past :
    (fuel : ℕ) (raw : Bytes) (pos : ℕ) {end : ℕ} → skip_name fuel raw pos ≡ ok end → pos ≤ end
unfolding skip_name
skip_name-past zero raw pos e = cc
skip_name-past (suc fuel) raw pos {end} e =
    ground (arith, skip_name-past fuel raw (pos + (get_or raw pos 0 + 1)) {end = end})

pub question_size_bounds :
    (raw : Bytes) {size : ℕ}
    → question_size (some raw) ≡ some size
    → (5 ≤ size) × (header_size + size ≤ length raw)
unfolding question_size
question_size_bounds raw {size} e =
    elim (Outcome-cases (skip_name (length raw + 1) raw header_size)) [
      | inl (pos, walked) ↦ ground (arith, skip_name-past (length raw + 1) raw header_size walked)
      | inr fails ↦ ground (arith, fails)
    ]

length-fresh : (n : ℕ) → length (fresh n) ≡ n
length-fresh zero = refl
length-fresh (suc n) = ap suc (length-fresh n)

empty_of_length : (xs : Bytes) → length xs ≡ 0 → xs ≡ []
empty_of_length [] h = refl
empty_of_length (x ∷ xs) h = absurd (omega arith)

pub length-header_bytes_only : (h : Header) → length (header_bytes h) ≡ header_size
length-header_bytes_only h = rw append-nil at (length-header_bytes h [])

-- Both parts of the block are overwritten.
pub write_response_bytes :
    (h : Header) (raw : Bytes) (size : ℕ) (m : Mem)
    → header_size + size ≤ length raw
    → write_response h raw size m ≡ (some (header_bytes h ++ take size (drop header_size raw)), m)
unfolding write_response build_dns_header
write_response_bytes h raw size m fits =
    let header = header_bytes h in
    let space = drop header_size (fresh (header_size + size)) in
    let question = take size (drop header_size raw) in
    let full : length question ≡ size =
      omega (arith, length-take size (drop header_size raw), length-drop header_size raw) in
    let front : take header_size (header ++ space) ≡ header =
      take-append header space header_size (sym (length-header_bytes_only h)) in
    let nothing : drop (header_size + length question) (header ++ space) ≡ [] = empty_of_length _ (
      omega (
        arith,
        length-drop (header_size + length question) (header ++ space),
        length-header_bytes h space,
        length-drop header_size (fresh (header_size + size)),
        length-fresh (header_size + size),
        full,
      )) in
    ground (arith, front, nothing, append-nil question)

-- The parts of a response that was built.
pub record Built (query : Message) (rcode : ℕ) (response : Bytes) : Type 0 where
  pub raw : Bytes
  pub size : ℕ
  pub raw_is : query.raw_data ≡ some raw
  pub size_is : question_size (some raw) ≡ some size
  pub code : rcode ≤ 5
  pub bytes :
      response
      ≡ header_bytes (response_header query.header rcode) ++ take size (drop header_size raw)

pub build_error_response-Built :
    (query : Message) (rcode : ℕ) (m : Mem) {response : Bytes}
    → (build_error_response (some query) rcode m).0 ≡ some response
    → Built query rcode response
unfolding build_error_response allocate_response
build_error_response-Built query rcode m {response} e = elim (Option-cases query.raw_data) [
  | inl null ↦ absurd (ground arith)
  | inr (raw, r) ↦ elim (Option-cases (question_size (some raw))) [
    | inl fails ↦ absurd (ground arith)
    | inr (size, s) ↦
        let written =
          write_response_bytes (response_header query.header rcode) raw size (malloc m).1
            (question_size_bounds raw s).1 in
        record {
          raw = raw;
          size = size;
          raw_is = r;
          size_is = s;
          code = ground arith;
          bytes = ground (arith, written);
        }
  ]
]

pub response_header-IsHeader :
    (h : Header) (rcode : ℕ) → IsHeader h → rcode ≤ 5 → IsHeader (response_header h rcode)
unfolding response_header
response_header-IsHeader h rcode v c = ground (arith, response_flags h.flags rcode c)

abbrev pub error_header : Header → ℕ → Header
error_header query rcode = record {
  id = query.id;
  flags = error_flags query.flags rcode;
  qdcount = query.qdcount;
  ancount = 0;
  nscount = 0;
  arcount = 0;
}

pub response_header-error_header :
    (h : Header) (rcode : ℕ) → rcode ≤ 5 → response_header h rcode ≡ error_header h rcode
unfolding response_header
response_header-error_header h rcode c = ground (arith, response_flags h.flags rcode c)

-- The header of every error response that is built for a query with 16-bit header fields: the query's
-- id and question count, QR set, the query's RD bit, the given code, all other flags and counts 0.
pub parse-build_error_response :
    (query : Message) (rcode : ℕ) (m : Mem) {response : Bytes}
    → IsHeader query.header
    → (build_error_response (some query) rcode m).0 ≡ some response
    → parse_dns_header (some response) ≡ some (error_header query.header rcode)
parse-build_error_response query rcode m v e =
    let b = build_error_response-Built query rcode m e in
    rw b.bytes (
      parse-header_bytes (response_header query.header rcode) (take b.size (drop header_size b.raw))
        (response_header-IsHeader query.header rcode v b.code)
      ∙ ap some (response_header-error_header query.header rcode b.code))

-- The bytes of an error response: its header, and the question as it stands behind the query's.
abbrev pub error_bytes : Header → ℕ → Bytes → ℕ → Bytes
error_bytes query rcode raw size =
    header_bytes (error_header query rcode) ++ take size (drop header_size raw)

-- With memory to spare, an error response with a code up to 5 is built for every query whose raw data
-- hold an uncompressed first question, of `size` bytes: its bytes are the response's header and that
-- question.
pub build_error_response_bytes :
    (query : Message) (rcode : ℕ) (m : Mem) (raw : Bytes) {size : ℕ}
    → Plentiful m
    → rcode ≤ 5
    → query.raw_data ≡ some raw
    → question_size (some raw) ≡ some size
    → (build_error_response (some query) rcode m).0 ≡ some (error_bytes query.header rcode raw size)
unfolding build_error_response allocate_response
build_error_response_bytes query rcode m raw plenty code has takes = ground (
  arith,
  malloc-Plentiful m plenty,
  write_response_bytes (response_header query.header rcode) raw _ (malloc m).1
      (question_size_bounds raw takes).1,
  ap header_bytes (response_header-error_header query.header rcode code),
)
