-- ===== src/Server/Statistics.antt =====
-- What run_server of dns_server.c prints of its counters, and what these say of the responses.
use personal_test_resolver.Console.{Console, Part, text, natural, quotient, printf}
use personal_test_resolver.Server.Log.{Client, serve_log, greeting_log}
use personal_test_resolver.Server.Quiet.{serve_log-quiet, greeting_log-quiet}
use personal_test_resolver.Common.{
  ℕ, ◌*◌, List, [], ◌∷◌, if◌then◌else◌, ltb, ◌≡◌, arith, Option, some, true, not, none, refl, ap,
}
use personal_test_resolver.Server.{
  Server, Counts, run_server, Config, Setup, Event, init_udp_server, serve, no_counts, err_success,
}
use personal_test_resolver.Server.Rounds.{with_code, Rounds-IsTally, serve-Rounds}
use personal_test_resolver.Resolver.{World}

-- `100.0 * count / query_count`, with one digit, or 0.
abbrev pub percentage : ℕ → ℕ → Part
percentage count query_count =
    if ltb 0 query_count then quotient 1 (100 * count) query_count else quotient 1 0 1

abbrev rule : Part
rule = text "==============================================\n"

-- What `run_server` prints of its counters behind the loop.
unfoldable pub final_statistics : Counts → List Part
final_statistics c =
    text "\n==============================================\n"
    ∷ text "DNS Server Statistics:\n"
    ∷ rule
    ∷ text "  Total queries:     "
    ∷ natural c.query_count
    ∷ text "\n  Blocked (NXDOMAIN): "
    ∷ natural c.blocked_count
    ∷ text " ("
    ∷ percentage c.blocked_count c.query_count
    ∷ text "%)\n  Forwarded:         "
    ∷ natural c.forwarded_count
    ∷ text " ("
    ∷ percentage c.forwarded_count c.query_count
    ∷ text "%)\n  Errors:            "
    ∷ natural c.error_count
    ∷ text "\n"
    ∷ rule
    ∷ []

-- What `run_server` prints on stdout.
unfoldable pub run_server_output :
    Option Config → Setup → List Event → (ℕ → Client) → World → Console → Console
run_server_output none setup events client w console = console
run_server_output (some config) setup events client w console =
    let (made, w1) = init_udp_server setup w in
    let start : Server = record { counts = no_counts; world = w1; sent = [] } in
    let (s, ended) = serve config events start in
    let logged = serve_log config events client start (greeting_log config console) in
    if not made
    then console
    else if ended
    then printf (final_statistics s.counts) logged
    else logged

-- The counters that the responses themselves show.
abbrev pub shown_counts : Server → Counts
shown_counts s = record (s.counts) {
  blocked_count = with_code 3 s.sent;
  forwarded_count = with_code 0 s.sent;
}

same_counts :
    (c d : Counts)
    → c.query_count ≡ d.query_count
    → c.blocked_count ≡ d.blocked_count
    → c.forwarded_count ≡ d.forwarded_count
    → c.error_count ≡ d.error_count
    → c ≡ d
same_counts c d q b f e = ground arith

serve-shown_counts :
    (config : Config) (events : List Event) (w : World)
    → (serve config events (record { counts = no_counts; world = w; sent = [] })).0.counts
      ≡ shown_counts (serve config events (record { counts = no_counts; world = w; sent = [] })).0
serve-shown_counts config events w =
    let start : Server = record { counts = no_counts; world = w; sent = [] } in
    let v =
      Rounds-IsTally (serve-Rounds config events start)
        (record { blocked = refl; forwarded = refl }) in
    same_counts _ _ refl v.blocked v.forwarded refl

pub run_server-prints :
    (config : Config) (setup : Setup) (events : List Event) (client : ℕ → Client) (w : World)
    (console : Console) {s : Server}
    → (init_udp_server setup w).0 ≡ true
    → run_server (some config) setup events w ≡ (some err_success, s)
    → run_server_output (some config) setup events client w console
      ≡ printf (final_statistics (shown_counts s)) (
          if config.verbose
          then serve_log config events client
              (record { counts = no_counts; world = (init_udp_server setup w).1; sent = [] })
              (greeting_log config console)
          else console)
unfolding run_server run_server_output
run_server-prints config setup events client w console made ends = ground (
  arith,
  ap final_statistics (serve-shown_counts config events (init_udp_server setup w).1),
  serve_log-quiet config events client
      (record { counts = no_counts; world = (init_udp_server setup w).1; sent = [] })
      (greeting_log config console),
  greeting_log-quiet config console,
)
