-- ===== src/Main/Policy.antt =====
-- From the filter file to the responses: what the program answers to the queries that it receives.
use personal_test_resolver.Message.Questions.{QuestionsAt}
use personal_test_resolver.Common.{
  ℕ, ◌≡◌, refl, some, Option, List, [], ◌∷◌, ◌++◌, Bytes, arith, true, false, ◌⊎◌, inl, inr, ◌==◌,
  Bool-cases, sym, append-nil, ◌∙◌, append_assoc, ap, Option-cases,
}
use personal_test_resolver.Server.Served.{IsQuery, AreQueries, IsQuery-Asks, handle_packet_answers}
use personal_test_resolver.Server.{
  Config, Event, interrupted, packet, process_dns_query, stopped, timed_out, failed, serve,
  handle_packet, Server, send_response, count_error,
}
use personal_test_resolver.Server.Policy.{
  Filters, answer_or_servfail, process-other_type, process-covered, process-uncovered,
}
use personal_test_resolver.Resolver.{Network, World, forward_query}
use personal_test_resolver.Response.Fields.{error_bytes}
use personal_test_resolver.Filter.Lists.{any_covers}
use personal_test_resolver.Common.Memory.{Plentiful, Mem}
use personal_test_resolver.Wire.{Question, Message}
use personal_test_resolver.Filter.File.{Load, load_filter_file, read_lines}
use personal_test_resolver.Message.Correct.{HasQuestions}
use personal_test_resolver.Filter.Loading.{entries, load_filter_file-root, created_plenty}
use personal_test_resolver.Message.{first_question, c_string}
use personal_test_resolver.Resolver.Forwarded.{IsForwarded, forward_query-IsForwarded}

-- What comes of forwarding a query to `host`: the answer that comes back, or `failure` if none does.
abbrev pub IsOutcome : Network → Bytes → Bytes → Bytes → Bytes → Type 0
IsOutcome net buffer host failure response =
    IsForwarded net buffer host response
    ⊎ ((answer : Bytes) → ¬ (IsForwarded net buffer host answer)) × (response ≡ failure)

-- The response that a query should get, if the filter file has the entries `ds`: for a type other than
-- A code 4; for a domain that an entry covers code 3; and else what comes of forwarding it, with code 2
-- if that fails.
abbrev pub IsExpected :
    Bytes → List Bytes → Network → {buffer : Bytes} → IsQuery buffer → Bytes → Type 0
IsExpected host ds net {buffer} v response =
    (name : Bytes) × (v.question.qname ≡ some name)
    × (((v.question.qtype == 1) ≡ false) × (response ≡ error_bytes v.query.header 4 buffer v.size)
        ⊎ (((v.question.qtype == 1) ≡ true)
            × (any_covers ds name ≡ true)
            × (response ≡ error_bytes v.query.header 3 buffer v.size))
        ⊎ (((v.question.qtype == 1) ≡ true)
            × (any_covers ds name ≡ false)
            × IsOutcome net buffer host (error_bytes v.query.header 2 buffer v.size) response))

-- The responses to the packets of the events, one by one, until the loop ends.
abbrev pub AreExpected :
    Bytes → List Bytes → (events : List Event) → AreQueries events → List Bytes → Type 0
AreExpected host ds [] q responses = responses ≡ []
AreExpected host ds (stopped ∷ events) q responses = responses ≡ []
AreExpected host ds (interrupted true ∷ events) q responses = AreExpected host ds events q responses
AreExpected host ds (interrupted false ∷ events) q responses = responses ≡ []
AreExpected host ds (timed_out ∷ events) q responses = AreExpected host ds events q responses
AreExpected host ds (failed ∷ events) q responses = AreExpected host ds events q responses
AreExpected host ds (packet buffer net sendto ∷ events) q [] = ⊥
AreExpected host ds (packet buffer net sendto ∷ events) q (response ∷ responses) =
    IsExpected host ds net q.0 response × AreExpected host ds events q.1 responses

first_named :
    {count : ℕ} {question : Question} (buffer : Bytes) (message : Message)
    → HasQuestions buffer count message.questions
    → first_question message ≡ some question
    → (name : Bytes) × (question.qname ≡ some name)
first_named buffer message (inl (no_count, body)) first = absurd (ground (arith, body))
first_named buffer message (inr (some_count, ([], end, body, count, at))) first =
    absurd (ground (arith, body))
first_named buffer message (inr (some_count, (q ∷ qs, end, body, count, QuestionsAt.cons at more)))
      first =
    (c_string at.name, ground (arith, body, at.question))

module _ (config : Config) (host : Bytes) (upstream : config.upstream_server ≡ some host)
    (ds : List Bytes) (filtered : Filters config ds) where
  forwarded-IsOutcome :
      (net : Network) (query : Message) (w : World) (buffer failure : Bytes)
      → Plentiful w.mem
      → query.raw_data ≡ some buffer
      → IsOutcome net buffer host failure
          (answer_or_servfail (forward_query net (some query) config.upstream_server w).0 failure)
  forwarded-IsOutcome net query w buffer failure plenty has =
      elim (Option-cases (forward_query net (some query) (some host) w).0) [
        | inl fails ↦
            rw (upstream, fails)
              (inr (
                λ answer f. absurd (
                    ground (
                      arith,
                      fails,
                      (forward_query-IsForwarded net query host w buffer answer plenty has).1 f,
                    )),
                refl,
              ))
        | inr (r, answers) ↦
            rw (upstream, answers)
              (inl ((forward_query-IsForwarded net query host w buffer r plenty has).0 answers))
      ]

  process_dns_query-IsExpected :
      {buffer : Bytes} (net : Network) (w : World) (v : IsQuery buffer)
      → Plentiful w.mem
      → (response : Bytes) × ((process_dns_query net config buffer w).0 ≡ some response)
        × IsExpected host ds net v response
  process_dns_query-IsExpected {buffer} net w v plenty =
      let a = IsQuery-Asks v w plenty in
      let (name, named) = first_named buffer v.query v.message.questions v.first in
      elim (Bool-cases (v.question.qtype == 1)) [
        | inr other ↦ (
          error_bytes v.query.header 4 buffer v.size,
          process-other_type net config buffer w v.query v.question v.size a other,
          (name, named, inl (other, refl)),
        )
        | inl type_a ↦ elim (Bool-cases (any_covers ds name)) [
          | inl covered ↦ (
            error_bytes v.query.header 3 buffer v.size,
            process-covered net config ds buffer w v.query v.question v.size name a filtered type_a
                named covered,
            (name, named, inr (inl (type_a, covered, refl))),
          )
          | inr free ↦
              let (u, spare, answers) =
                process-uncovered net config ds buffer w v.query v.question v.size name a filtered
                  type_a named free in
              (
                answer_or_servfail (forward_query net (some v.query) config.upstream_server u).0
                    (error_bytes v.query.header 2 buffer v.size),
                answers,
                (
                  name,
                  named,
                  inr (
                      inr (
                        type_a,
                        free,
                        forwarded-IsOutcome net v.query u buffer
                            (error_bytes v.query.header 2 buffer v.size) spare v.message.raw,
                      )),
                ),
              )
        ]
      ]

  handle_packet_sent :
      {buffer response : Bytes} (net : Network) (sendto : Bytes → Option ℕ) (s : Server)
      → IsQuery buffer
      → (process_dns_query net config buffer s.world).0 ≡ some response
      → (handle_packet config buffer net sendto s).sent ≡ s.sent ++ response ∷ []
  unfolding handle_packet send_response
  handle_packet_sent net sendto s v answers = ground (arith, v.message.long)

  serve-AreExpected :
      (events : List Event) (s : Server) (q : AreQueries events)
      → Plentiful s.world.mem
      → (responses : List Bytes) × ((serve config events s).0.sent ≡ s.sent ++ responses)
        × AreExpected host ds events q responses
  unfolding serve
  serve-AreExpected [] s q plenty = ([], sym (append-nil s.sent), refl)
  serve-AreExpected (stopped ∷ events) s q plenty = ([], sym (append-nil s.sent), refl)
  serve-AreExpected (interrupted true ∷ events) s q plenty = serve-AreExpected events s q plenty
  serve-AreExpected (interrupted false ∷ events) s q plenty = ([], sym (append-nil s.sent), refl)
  serve-AreExpected (timed_out ∷ events) s q plenty = serve-AreExpected events s q plenty
  serve-AreExpected (failed ∷ events) s q plenty =
      serve-AreExpected events (record s { counts = count_error s.counts }) q plenty
  serve-AreExpected (packet buffer net sendto ∷ events) s q plenty =
      let (response, answers, expected) = process_dns_query-IsExpected net s.world q.0 plenty in
      let (more, keeps) = handle_packet_answers config buffer net sendto s q.0 plenty in
      let (responses, all, rest) =
        serve-AreExpected events (handle_packet config buffer net sendto s) q.1 keeps in
      (
        response ∷ responses,
        all
            ∙ ap (λ (xs : List Bytes). xs ++ responses)
                (handle_packet_sent net sendto s q.0 answers)
            ∙ append_assoc s.sent (response ∷ []) responses,
        (expected, rest),
      )

-- With memory to spare for loading and serving: a server whose filter is loaded from a file, and of
-- which every packet is a query that can be answered, hands to `sendto`, in the order of the packets
-- that it takes, the responses that are expected by the entries of the file. A question of another
-- type than A gets code 4 (not implemented), a domain that an entry covers code 3 (no such domain),
-- and any other domain the answer of the upstream server, or code 2 (server failure) if there is none.
pub serve-load_filter_file :
    (fopen : Bytes → Option Bytes) (filename text : Bytes) (m : Mem) (loaded : Load) (c : Config)
    (host : Bytes) (events : List Event) (s : Server) (q : AreQueries events)
    → Plentiful m
    → c.upstream_server ≡ some host
    → fopen filename ≡ some text
    → (load_filter_file fopen (some filename) m).0 ≡ some loaded
    → Plentiful s.world.mem
    → (responses : List Bytes) × ((serve
          (record c { filter_root = some loaded.root })
          events
          s).0.sent
        ≡ s.sent ++ responses)
      × AreExpected host (entries (read_lines [] text)) events q responses
serve-load_filter_file fopen filename text m loaded c host events s q plenty upstream opens loads
      spare =
    let (m1, made, root, heap) = load_filter_file-root fopen filename text m opens loads in
    let filtered : Filters (record c { filter_root = some loaded.root })
        (entries (read_lines [] text)) =
      record { start = m1; plenty = created_plenty m m1 plenty made; root = ap some root } in
    serve-AreExpected (record c { filter_root = some loaded.root }) host upstream
      (entries (read_lines [] text)) filtered events s q spare
