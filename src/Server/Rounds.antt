-- ===== src/Server/Rounds.antt =====
-- The loop of `run_server` as a relation between its states, one step for a round.
use personal_test_resolver.Common.{
  ◌<◌, ◌≤◌, ◌∙◌, ℕ, ◌+◌, ◌%◌, ◌≡◌, refl, Bool, true, false, ◌&&◌, Option, none, some, List, [], ◌∷◌,
  ◌++◌, Bytes, arith, leb, length, if◌then◌else◌, get_or, ◌==◌, ap, suc, bit_and, ◌*◌, Bool-cases,
  ltb, inl, inr, Option-cases,
}
use personal_test_resolver.Server.{
  Config, Counts, count_response, Server, count_error, count_sent, process_dns_query, serve,
  handle_packet, send_response, Event, interrupted, packet, stopped, timed_out, failed,
}
use personal_test_resolver.Header.{parse_dns_header, header_at}
use personal_test_resolver.Resolver.{World, Network, free_buffer}
use personal_test_resolver.Common.Bits.{bit_and-0xf}

-- A response whose header has the response code `code`: the low half of the fourth byte.
abbrev pub has_code : ℕ → Bytes → Bool
has_code code response = leb 12 (length response) && get_or response 3 0 % 16 == code

-- A query is counted, a response by its code, and an error if it could not be handed over.
pub record CountedFor (response : Bytes) (sent : Option ℕ) (c d : Counts) : Type 0 where
  pub queries : d.query_count ≡ c.query_count + 1
  pub blocked :
      d.blocked_count ≡ (if has_code 3 response then c.blocked_count + 1 else c.blocked_count)
  pub forwarded :
      d.forwarded_count ≡ (if has_code 0 response then c.forwarded_count + 1 else c.forwarded_count)
  pub errors :
      d.error_count ≡ (elim sent [ none ↦ c.error_count + 1 | some sent_len ↦ c.error_count ])

-- One more error, and nothing else.
pub record CountsError (c d : Counts) : Type 0 where
  pub queries : d.query_count ≡ c.query_count
  pub blocked : d.blocked_count ≡ c.blocked_count
  pub forwarded : d.forwarded_count ≡ c.forwarded_count
  pub errors : d.error_count ≡ c.error_count + 1

-- What an event that does not end the loop does to the state. A timeout and a signal that leaves
-- `server_running` set do nothing; a failed call and a packet shorter than a header are errors; any other
-- packet is processed, and either gets no response, or one that is handed to `sendto` and freed.
pub data Round (config : Config) (s : Server) : Event → Server → Type 0 where
  waits : Round config s timed_out s
  resumes : Round config s (interrupted true) s
  fails : {c : Counts} → CountsError s.counts c → Round config s failed (record s { counts = c })
  unreadable :
      {c : Counts} (buffer : Bytes) (net : Network) (sendto : Bytes → Option ℕ)
      → length buffer < 12
      → CountsError s.counts c
      → Round config s (packet buffer net sendto) (record s { counts = c })
  unanswered :
      {c : Counts} {w : World} (buffer : Bytes) (net : Network) (sendto : Bytes → Option ℕ)
      → 12 ≤ length buffer
      → process_dns_query net config buffer s.world ≡ (none, w)
      → c ≡ record (s.counts) {
        query_count = s.counts.query_count + 1;
        error_count = s.counts.error_count + 1;
      }
      → Round config s (packet buffer net sendto) (record s { counts = c; world = w })
  answered :
      {c : Counts} {w : World} (buffer response : Bytes) (net : Network) (sendto : Bytes → Option ℕ)
      → 12 ≤ length buffer
      → process_dns_query net config buffer s.world ≡ (some response, w)
      → CountedFor response (sendto response) s.counts c
      → Round config s
          (packet buffer net sendto)
          (record { counts = c; world = free_buffer w; sent = s.sent ++ response ∷ [] })

-- The rounds of a list of events, one by one, up to its end or to the event that ends the loop: the
-- signal that finds `server_running` unset, or the test at the loop's head.
pub data Rounds (config : Config) : List Event → Server → Server → Type 0 where
  runs : {s : Server} → Rounds config [] s s
  stops : {s : Server} {events : List Event} → Rounds config (stopped ∷ events) s s
  breaks : {s : Server} {events : List Event} → Rounds config (interrupted false ∷ events) s s
  later :
      {s t u : Server} {event : Event} {events : List Event}
      → Round config s event t
      → Rounds config events t u
      → Rounds config (event ∷ events) s u

low_bits : (a b : ℕ) → bit_and (a * 256 + b) 0x0f ≡ b % 16
low_bits a b = omega (arith, bit_and-0xf (a * 256 + b))

count_response_counted :
    (sent : Option ℕ) (response : Bytes) (c : Counts)
    → CountedFor response sent c
        (count_sent sent (count_response response (record c { query_count = c.query_count + 1 })))
unfolding count_response parse_dns_header header_at
count_response_counted none response c = record {
  queries = ground (arith, low_bits (get_or response 2 0) (get_or response 3 0));
  blocked = ground (arith, low_bits (get_or response 2 0) (get_or response 3 0));
  forwarded = ground (arith, low_bits (get_or response 2 0) (get_or response 3 0));
  errors = ground (arith, low_bits (get_or response 2 0) (get_or response 3 0));
}
count_response_counted (some sent_len) response c = record {
  queries = ground (arith, low_bits (get_or response 2 0) (get_or response 3 0));
  blocked = ground (arith, low_bits (get_or response 2 0) (get_or response 3 0));
  forwarded = ground (arith, low_bits (get_or response 2 0) (get_or response 3 0));
  errors = ground (arith, low_bits (get_or response 2 0) (get_or response 3 0));
}

counts_error : (c : Counts) → CountsError c (count_error c)
counts_error c = record { queries = refl; blocked = refl; forwarded = refl; errors = refl }

handle_packet-Round :
    (config : Config) (buffer : Bytes) (net : Network) (sendto : Bytes → Option ℕ) (s : Server)
    → Round config s (packet buffer net sendto) (handle_packet config buffer net sendto s)
unfolding handle_packet send_response
handle_packet-Round config buffer net sendto s = elim (Bool-cases (ltb (length buffer) 12)) [
  | inl short ↦ rw short (unreadable buffer net sendto (ground arith) (counts_error s.counts))
  | inr long ↦ elim (Option-cases (process_dns_query net config buffer s.world).0) [
    | inl silent ↦
        rw (long, silent) (unanswered buffer net sendto (ground arith) (ground arith) refl)
    | inr (response, answers) ↦
        rw (long, answers)
          (answered buffer response net sendto (ground arith) (ground arith)
            (count_response_counted (sendto response) response s.counts))
  ]
]

-- Whatever happens, the loop goes from its state to the one that it ends in by the rounds of its
-- events, in their order: nothing on a timeout or a signal that does not stop it; one error on a failed
-- call or a packet shorter than a header; on any other packet one query, and then either one error and
-- no response, or one response, handed over and counted by its code, with an error if `sendto` fails.
-- No event behind the one that stops the loop does anything.
pub serve-Rounds :
    (config : Config) (events : List Event) (s : Server)
    → Rounds config events s (serve config events s).0
unfolding serve
serve-Rounds config [] s = runs
serve-Rounds config (stopped ∷ events) s = stops
serve-Rounds config (interrupted true ∷ events) s = later resumes (serve-Rounds config events s)
serve-Rounds config (interrupted false ∷ events) s = breaks
serve-Rounds config (timed_out ∷ events) s = later waits (serve-Rounds config events s)
serve-Rounds config (failed ∷ events) s =
    later (fails (counts_error s.counts))
      (serve-Rounds config events (record s { counts = count_error s.counts }))
serve-Rounds config (packet buffer net sendto ∷ events) s =
    later (handle_packet-Round config buffer net sendto s)
      (serve-Rounds config events (handle_packet config buffer net sendto s))

-- How many of the responses have a code.
abbrev pub with_code : ℕ → List Bytes → ℕ
with_code code [] = 0
with_code code (r ∷ rs) = if has_code code r then suc (with_code code rs) else with_code code rs

with_code-append :
    (code : ℕ) (rs ss : List Bytes)
    → with_code code (rs ++ ss) ≡ with_code code rs + with_code code ss
with_code-append code [] ss = omega arith
with_code-append code (r ∷ rs) ss = ground (arith, with_code-append code rs ss)

-- The counters say what was sent.
pub record IsTally (s : Server) : Type 0 where
  pub blocked : s.counts.blocked_count ≡ with_code 3 s.sent
  pub forwarded : s.counts.forwarded_count ≡ with_code 0 s.sent

Round-IsTally :
    {config : Config} {event : Event} {s t : Server}
    → Round config s event t
    → IsTally s
    → IsTally t
Round-IsTally waits v = v
Round-IsTally resumes v = v
Round-IsTally (fails c) v = record {
  blocked = c.blocked ∙ v.blocked;
  forwarded = c.forwarded ∙ v.forwarded;
}
Round-IsTally (unreadable buffer net sendto short c) v = record {
  blocked = c.blocked ∙ v.blocked;
  forwarded = c.forwarded ∙ v.forwarded;
}
Round-IsTally (unanswered buffer net sendto long silent c) v = record {
  blocked = ground (arith, v.blocked, ap (λ (d : Counts). d.blocked_count) c);
  forwarded = ground (arith, v.forwarded, ap (λ (d : Counts). d.forwarded_count) c);
}
Round-IsTally {s} (answered buffer response net sendto long answers c) v = record {
  blocked = ground (arith, v.blocked, c.blocked, with_code-append 3 s.sent (response ∷ []));
  forwarded = ground (arith, v.forwarded, c.forwarded, with_code-append 0 s.sent (response ∷ []));
}

-- In every state that rounds reach from one for which it holds: the counter of blocked queries is the
-- number of responses so far with the code 3 (no such domain), wherever they come from, and that of
-- forwarded ones the number with the code 0.
pub Rounds-IsTally :
    {config : Config} {events : List Event} {s t : Server}
    → Rounds config events s t
    → IsTally s
    → IsTally t
Rounds-IsTally runs v = v
Rounds-IsTally stops v = v
Rounds-IsTally breaks v = v
Rounds-IsTally (later step rest) v = Rounds-IsTally rest (Round-IsTally step v)
