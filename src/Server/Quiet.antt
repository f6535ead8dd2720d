-- ===== src/Server/Quiet.antt =====
-- Without the verbose mode the log is empty.
use personal_test_resolver.Console.{Console, Part, verbose_log}
use personal_test_resolver.Server.Log.{
  log, greeting_log, serve_log, packet_log, query_log, filtered_log, process_log, answer_log,
  question_log, received_log, allowed_log, sent_log, reply_log, Client,
}
use personal_test_resolver.Server.{
  Config, Event, Server, process_dns_query, interrupted, packet, handle_packet, stopped, timed_out,
  failed,
}
use personal_test_resolver.Common.{
  length, ◌==◌, Bool, true, if◌then◌else◌, ◌∙◌, ◌≡◌, refl, false, List, arith, Bytes, Option, ℕ,
  some, none, Option-cases, ◌∷◌, inl, ◌+◌, inr, [],
}
use personal_test_resolver.Filter.{is_domain_blocked}
use personal_test_resolver.Wire.{type_a, Question, Message}
use personal_test_resolver.Resolver.{Network, World}
use personal_test_resolver.Message.{parse_dns_message, first_question}

pub log-quiet :
    (config : Config) (message : List Part) (console : Console)
    → config.verbose ≡ false
    → log config message console ≡ console
unfolding verbose_log
log-quiet config message console quiet = ground arith

pub greeting_log-quiet :
    (config : Config) (console : Console)
    → config.verbose ≡ false
    → greeting_log config console ≡ console
greeting_log-quiet config console quiet =
    rw (log-quiet config _ _ quiet, log-quiet config _ _ quiet) refl

if-same : {x y z : Console} (b : Bool) → x ≡ z → y ≡ z → (if b then x else y) ≡ z
if-same true p q = p
if-same false p q = q

answer_log-quiet :
    (config : Config) (answer : Option Bytes) (console : Console)
    → config.verbose ≡ false
    → answer_log config answer console ≡ console
answer_log-quiet config none console quiet = log-quiet config _ console quiet
answer_log-quiet config (some response) console quiet = log-quiet config _ console quiet

allowed_log-quiet :
    (config : Config) (answer : Option Bytes) (console : Console)
    → config.verbose ≡ false
    → allowed_log config answer console ≡ console
allowed_log-quiet config answer console quiet =
    answer_log-quiet config answer _ quiet ∙ log-quiet config _ console quiet

filtered_log-quiet :
    (net : Network) (config : Config) (query : Message) (question : Question) (w : World)
    (console : Console)
    → config.verbose ≡ false
    → filtered_log net config query question w console ≡ console
unfolding filtered_log
filtered_log-quiet net config query question w console quiet =
    if-same (is_domain_blocked config.filter_root question.qname w.mem).0
      (log-quiet config _ console quiet) (allowed_log-quiet config _ console quiet)

question_log-quiet :
    (config : Config) (question : Question) (console : Console)
    → config.verbose ≡ false
    → question_log config question console ≡ console
unfolding question_log
question_log-quiet config question console quiet =
    log-quiet config _ _ quiet ∙ log-quiet config _ console quiet

received_log-quiet :
    (config : Config) (query : Message) (console : Console)
    → config.verbose ≡ false
    → received_log config query console ≡ console
received_log-quiet config query console quiet =
    log-quiet config _ _ quiet ∙ (log-quiet config _ _ quiet ∙ log-quiet config _ console quiet)

query_log-quiet :
    (net : Network) (config : Config) (query : Message) (w : World) (console : Console)
    → config.verbose ≡ false
    → query_log net config query w console ≡ console
unfolding query_log
query_log-quiet net config query w console quiet =
    let received = received_log-quiet config query console quiet in
    elim (Option-cases (first_question query)) [
      | inl nothing ↦ rw nothing (if-same _ (log-quiet config _ _ quiet ∙ received) received)
      | inr (question, first) ↦
          let asked = question_log-quiet config question _ quiet ∙ received in
          rw first (
            if-same (query.header.qdcount == 0) (log-quiet config _ _ quiet ∙ received) (
              if-same (question.qtype == type_a)
                (filtered_log-quiet net config query question w _ quiet ∙ asked)
                (log-quiet config _ _ quiet ∙ asked)))
    ]

process_log-quiet :
    (net : Network) (config : Config) (buffer : Bytes) (w : World) (console : Console)
    → config.verbose ≡ false
    → process_log net config buffer w console ≡ console
unfolding process_log
process_log-quiet net config buffer w console quiet =
    elim (Option-cases (parse_dns_message (some buffer) w.mem).0) [
      | inl fails ↦ rw (process_log, fails) (log-quiet config _ console quiet)
      | inr (query, parses) ↦
          rw (process_log, parses) (query_log-quiet net config query _ console quiet)
    ]

sent_log-quiet :
    (config : Config) (response : Bytes) (sent : Option ℕ) (console : Console)
    → config.verbose ≡ false
    → sent_log config response sent console ≡ console
sent_log-quiet config response none console quiet = refl
sent_log-quiet config response (some sent_len) console quiet =
    if-same (sent_len == length response) (log-quiet config _ console quiet)
      (log-quiet config _ console quiet)

reply_log-quiet :
    (config : Config) (reply : Option Bytes) (sendto : Bytes → Option ℕ) (console : Console)
    → config.verbose ≡ false
    → reply_log config reply sendto console ≡ console
reply_log-quiet config none sendto console quiet = log-quiet config _ console quiet
reply_log-quiet config (some response) sendto console quiet =
    sent_log-quiet config response (sendto response) console quiet

packet_log-quiet :
    (config : Config) (buffer : Bytes) (net : Network) (sendto : Bytes → Option ℕ) (client : Client)
    (s : Server) (console : Console)
    → config.verbose ≡ false
    → packet_log config buffer net sendto client s console ≡ console
unfolding packet_log
packet_log-quiet config buffer net sendto client s console quiet =
    let counted = log-quiet config _ console quiet in
    let processed = process_log-quiet net config buffer s.world _ quiet in
    let replied =
      reply_log-quiet config (process_dns_query net config buffer s.world).0 sendto _ quiet in
    if-same _ (log-quiet config _ console quiet) (replied ∙ (processed ∙ counted))

pub serve_log-quiet :
    (config : Config) (events : List Event) (client : ℕ → Client) (s : Server) (console : Console)
    → config.verbose ≡ false
    → serve_log config events client s console ≡ console
unfolding serve_log
serve_log-quiet config [] client s console quiet = refl
serve_log-quiet config (stopped ∷ events) client s console quiet = refl
serve_log-quiet config (interrupted running ∷ events) client s console quiet =
    if-same running (serve_log-quiet config events (λ n. client (n + 1)) s console quiet) refl
serve_log-quiet config (timed_out ∷ events) client s console quiet =
    serve_log-quiet config events (λ n. client (n + 1)) s console quiet
serve_log-quiet config (failed ∷ events) client s console quiet =
    serve_log-quiet config events (λ n. client (n + 1)) _ console quiet
serve_log-quiet config (packet buffer net sendto ∷ events) client s console quiet =
    serve_log-quiet config events (λ n. client (n + 1)) (handle_packet config buffer net sendto s) _
      quiet
    ∙ packet_log-quiet config buffer net sendto (client 0) s console quiet
