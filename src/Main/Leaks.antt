-- ===== src/Main/Leaks.antt =====
-- What the program gives back before it ends.
use personal_test_resolver.Common.{
  ℕ, ◌+◌, ◌-◌, ◌≡◌, refl, Bool, none, some, List, [], ◌∷◌, Bytes, arith, Option-cases, inl, inr,
  Option, false, true, ◌≢◌,
}
use personal_test_resolver.Common.Memory.{Mem, malloc_live, malloc}
use personal_test_resolver.Main.{
  parse_flags, Shell, Flag, flag_s, flag_p, read_port, flag_f, flag_v, flag_h, free_config,
  run_loaded, free_text, finish_arguments, unknown, helped,
}
use personal_test_resolver.Server.{
  Config, run_server, init_udp_server, Setup, Event, Server, no_counts,
}
use personal_test_resolver.Trie.{Node, filter_node_free}
use personal_test_resolver.Server.Loop.{AreBytes, serve-Holds}
use personal_test_resolver.Resolver.{World}
use personal_test_resolver.Trie.Blocks.{trie_blocks, filter_node_free_live}

abbrev pub text_block : Option Bytes → ℕ
text_block none = 0
text_block (some text) = 1

-- The strings of a configuration.
abbrev pub strings : Config → ℕ
strings c = text_block c.upstream_server + text_block c.filter_file

-- The flags say which strings are there.
abbrev pub Matches : Option Bytes → Bool → Type 0
Matches none seen = seen ≡ false
Matches (some text) seen = seen ≡ true

unseen_block : (text : Option Bytes) → Matches text false → text_block text ≡ 0
unseen_block none h = refl
unseen_block (some text) h = cc

pub parse_flags_live :
    (sh : Shell) (flags : List Flag) (s f : Bool) (c : Config) (m : Mem)
    → Matches c.upstream_server s
    → Matches c.filter_file f
    → (parse_flags sh flags s f c m).1.live + strings c
      ≡ m.live + strings (parse_flags sh flags s f c m).0.1
unfolding parse_flags
parse_flags_live sh [] s f c m a b = refl
parse_flags_live sh (flag_s none ∷ flags) s f c m a b = ground arith
parse_flags_live sh (flag_s (some text) ∷ flags) true f c m a b = refl
parse_flags_live sh (flag_s (some text) ∷ flags) false f c m a b = ground (
  arith,
  malloc_live m,
  unseen_block c.upstream_server a,
  parse_flags_live sh flags true f (record c { upstream_server = some text }) (malloc m).1 refl b,
)
parse_flags_live sh (flag_p arg ∷ flags) s f c m a b = elim (Option-cases (read_port sh arg)) [
  | inl refused ↦ ground arith
  | inr (port, accepts) ↦
      ground (arith, parse_flags_live sh flags s f (record c { local_port = port }) m a b)
]
parse_flags_live sh (flag_f none ∷ flags) s f c m a b = ground arith
parse_flags_live sh (flag_f (some text) ∷ flags) s true c m a b = refl
parse_flags_live sh (flag_f (some text) ∷ flags) s false c m a b = ground (
  arith,
  malloc_live m,
  unseen_block c.filter_file b,
  parse_flags_live sh flags s true (record c { filter_file = some text }) (malloc m).1 a refl,
)
parse_flags_live sh (flag_v ∷ flags) s f c m a b =
    parse_flags_live sh flags s f (record c { verbose = true }) m a b
parse_flags_live sh (flag_h ∷ flags) s f c m a b = refl
parse_flags_live sh (unknown ∷ flags) s f c m a b = refl

free_text_live :
    (text : Option Bytes) (m : Mem) → (free_text text m).live ≡ m.live - text_block text
free_text_live none m = omega arith
free_text_live (some text) m = refl

pub free_config_live : (c : Config) (m : Mem) → (free_config c m).live ≡ m.live - (strings c + 1)
unfolding free_config
free_config_live c m = omega (
  arith,
  free_text_live c.upstream_server m,
  free_text_live c.filter_file (free_text c.upstream_server m),
)

-- The options hold no request for help.
abbrev pub NoHelp : List Flag → Type 0
NoHelp [] = Unit
NoHelp (flag_h ∷ flags) = ⊥
NoHelp (flag ∷ flags) = NoHelp flags

pub parse_flags-ne-helped :
    (sh : Shell) (flags : List Flag) (s f : Bool) (c : Config) (m : Mem)
    → NoHelp flags
    → (parse_flags sh flags s f c m).0.0 ≢ helped
unfolding parse_flags finish_arguments
parse_flags-ne-helped sh [] s f c m h = ground arith
parse_flags-ne-helped sh (flag_s arg ∷ flags) s f c m h = ground (
  arith,
  parse_flags-ne-helped sh flags true f (record c { upstream_server = arg }) (malloc m).1 h,
)
parse_flags-ne-helped sh (flag_p arg ∷ flags) s f c m h = elim (Option-cases (read_port sh arg)) [
  | inl refused ↦ ground arith
  | inr (port, accepts) ↦
      ground (arith, parse_flags-ne-helped sh flags s f (record c { local_port = port }) m h)
]
parse_flags-ne-helped sh (flag_f arg ∷ flags) s f c m h =
    ground
      (arith, parse_flags-ne-helped sh flags s true (record c { filter_file = arg }) (malloc m).1 h)
parse_flags-ne-helped sh (flag_v ∷ flags) s f c m h =
    parse_flags-ne-helped sh flags s f (record c { verbose = true }) m h
parse_flags-ne-helped sh (flag_h ∷ flags) s f c m h = absurd h
parse_flags-ne-helped sh (unknown ∷ flags) s f c m h = ground arith

-- A server that ends has given back what it took.
run_server_live :
    (config : Option Config) (setup : Setup) (events : List Event) (w : World)
    → AreBytes events
    → (run_server config setup events w).1.world.mem.live ≡ w.mem.live
unfolding run_server init_udp_server
run_server_live none setup events w bytes = refl
run_server_live (some config) setup events w bytes =
    let (made, w1) = init_udp_server setup w in
    let start : Server = record { counts = no_counts; world = w1; sent = [] } in
    ground (arith, (serve-Holds config events start bytes).live)

pub run_loaded_live :
    (c : Config) (root : Node) (setup : Setup) (events : List Event) (m : Mem) {code : ℕ}
    → AreBytes events
    → (run_loaded c root setup events m).0 ≡ some code
    → (run_loaded c root setup events m).1.live ≡ m.live - trie_blocks root - (strings c + 1)
unfolding run_loaded
run_loaded_live c root setup events m bytes e =
    let world : World = record { mem = m; sockets = 0; lists = 0 } in
    let run = run_server (some (record c { filter_root = some root })) setup events world in
    elim (Option-cases run.0) [
      | inl goes_on ↦ absurd (ground arith)
      | inr (code, ends) ↦ ground (
        arith,
        run_server_live (some (record c { filter_root = some root })) setup events world bytes,
        filter_node_free_live root run.1.world.mem,
        free_config_live c (filter_node_free root run.1.world.mem),
      )
    ]
