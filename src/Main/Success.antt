-- ===== src/Main/Success.antt =====
-- The program from its start to its end, when nothing is refused.
use personal_test_resolver.Common.{
  ◌+◌, ◌≡◌, refl, some, Option, List, [], ◌∷◌, Bytes, arith, Bool, true, false, if◌then◌else◌,
  Option-cases, ◌∙◌, inl, inr,
}
use personal_test_resolver.Server.{
  Event, serve, Setup, run_server, Config, interrupted, init_udp_server, Server, packet,
  count_error, handle_packet, stopped, err_success, no_counts, timed_out, failed,
}
use personal_test_resolver.Main.{
  main, run_loaded, Parsed, parse_flags, Shell, init_config, Flag, run_accepted, accepted, helped,
  rejected, flag_s, parse_arguments, default_config, flag_p, read_port, flag_f, flag_v, flag_h,
  unknown,
}
use personal_test_resolver.Main.Arguments.{
  accepted_config, asked_config, parse_arguments-asked_config,
}
use personal_test_resolver.Common.Memory.{Mem, Plentiful, malloc_keeps, malloc, malloc-Plentiful}
use personal_test_resolver.Trie.{Node}
use personal_test_resolver.Filter.Loading.{load_filter_file-there}
use personal_test_resolver.Filter.File.{load_filter_file}

-- The loop is told to stop: at its head, or when a signal interrupts it.
abbrev pub stops : List Event → Bool
stops [] = false
stops (stopped ∷ events) = true
stops (interrupted running ∷ events) = let rest = stops events in if running then rest else true
stops (timed_out ∷ events) = stops events
stops (failed ∷ events) = stops events
stops (packet buffer net sendto ∷ events) = stops events

pub serve-stops :
    (config : Config) (events : List Event) (s : Server) → (serve config events s).1 ≡ stops events
unfolding serve
serve-stops config [] s = refl
serve-stops config (stopped ∷ events) s = refl
serve-stops config (interrupted true ∷ events) s = serve-stops config events s
serve-stops config (interrupted false ∷ events) s = refl
serve-stops config (timed_out ∷ events) s = serve-stops config events s
serve-stops config (failed ∷ events) s =
    serve-stops config events (record s { counts = count_error s.counts })
serve-stops config (packet buffer net sendto ∷ events) s =
    serve-stops config events (handle_packet config buffer net sendto s)

pub parse_flags_keeps :
    (sh : Shell) (flags : List Flag) (s f : Bool) (c : Config) (m : Mem)
    → Plentiful m
    → Plentiful (parse_flags sh flags s f c m).1
unfolding parse_flags
parse_flags_keeps sh [] s f c m plenty = plenty
parse_flags_keeps sh (flag_s arg ∷ flags) s f c m plenty = ground (
  arith,
  malloc_keeps m plenty,
  parse_flags_keeps sh flags true f (record c { upstream_server = arg }) (malloc m).1
      (malloc_keeps m plenty),
)
parse_flags_keeps sh (flag_p arg ∷ flags) s f c m plenty = elim (Option-cases (read_port sh arg)) [
  | inl refused ↦ ground (arith, plenty)
  | inr (port, accepts) ↦
      ground (arith, parse_flags_keeps sh flags s f (record c { local_port = port }) m plenty)
]
parse_flags_keeps sh (flag_f arg ∷ flags) s f c m plenty = ground (
  arith,
  malloc_keeps m plenty,
  parse_flags_keeps sh flags s true (record c { filter_file = arg }) (malloc m).1
      (malloc_keeps m plenty),
)
parse_flags_keeps sh (flag_v ∷ flags) s f c m plenty =
    parse_flags_keeps sh flags s f (record c { verbose = true }) m plenty
parse_flags_keeps sh (flag_h ∷ flags) s f c m plenty = plenty
parse_flags_keeps sh (unknown ∷ flags) s f c m plenty = plenty

pub accepted_config-some :
    (r : Parsed × Config) {c : Config} → accepted_config r ≡ some c → r ≡ (accepted, c)
accepted_config-some (accepted, d) e = ground arith
accepted_config-some (helped, d) e = cc
accepted_config-some (rejected, d) e = cc

-- The socket is made and bound.
pub record IsReady (setup : Setup) : Type 0 where
  pub socket_made : setup.socket_made ≡ true
  pub reuse_set : setup.reuse_set ≡ true
  pub timeout_set : setup.timeout_set ≡ true
  pub bound : setup.bound ≡ true

run_loaded-ends :
    (c : Config) (root : Node) (setup : Setup) (events : List Event) (m : Mem)
    → IsReady setup
    → stops events ≡ true
    → (run_loaded c root setup events m).0 ≡ some err_success
unfolding run_loaded run_server init_udp_server
run_loaded-ends c root setup events m ready ends =
    let start : Server = record {
      counts = no_counts;
      world = record { mem = m; sockets = 1; lists = 0 };
      sent = [];
    } in
    ground (
      arith,
      ready.socket_made,
      ready.reuse_set,
      ready.timeout_set,
      ready.bound,
      serve-stops (record c { filter_root = some root }) events start,
      ends,
    )

-- With memory to spare, arguments that ask for a configuration, a filter file that can be opened, a
-- socket that can be set up, and a signal to stop among the events: whatever else happens, `main` ends
-- and returns ERR_SUCCESS.
pub main_succeeds :
    (sh : Shell) (flags : List Flag) (fopen : Bytes → Option Bytes) (setup : Setup)
    (events : List Event) (m : Mem) (c : Config) (filename text : Bytes)
    → Plentiful m
    → asked_config sh flags ≡ some c
    → c.filter_file ≡ some filename
    → fopen filename ≡ some text
    → IsReady setup
    → stops events ≡ true
    → (main sh flags fopen setup events m).0 ≡ some err_success
unfolding main init_config run_accepted
main_succeeds sh flags fopen setup events m c filename text plenty asks names opens ready ends =
    let m1 : Mem = record m { live = m.live + 1 } in
    let parsing = parse_arguments sh flags default_config m1 in
    let fine : parsing.0 ≡ (accepted, c) =
      accepted_config-some parsing.0 (parse_arguments-asked_config sh flags m1 plenty ∙ asks) in
    let keeps : Plentiful parsing.1 =
      unfold parse_arguments in (parse_flags_keeps sh flags false false default_config m1 plenty) in
    let (loaded, loads) = load_filter_file-there fopen filename text parsing.1 keeps opens in
    ground (
      arith,
      malloc-Plentiful m plenty,
      fine,
      names,
      loads,
      run_loaded-ends c loaded.root setup events
          (load_filter_file fopen (some filename) parsing.1).1 ready ends,
    )
