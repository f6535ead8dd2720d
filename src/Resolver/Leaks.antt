-- ===== src/Resolver/Leaks.antt =====
-- What `forward_query` leaves open or allocated.
use personal_test_resolver.Common.{
  ℕ, ◌+◌, ◌≡◌, refl, none, some, Bytes, ◌==◌, arith, Option-cases, Bool-cases, inl, inr, Option,
  length, true, ◌⊎◌, false,
}
use personal_test_resolver.Common.Memory.{malloc_live, malloc}
use personal_test_resolver.Response.Leaks.{block}
use personal_test_resolver.Resolver.{
  with_socket, exchange, forward_query, resolve_upstream_address, World, forward_raw, Network,
  open_socket,
}
use personal_test_resolver.Wire.{Message}

-- From one world to another: sockets and address lists as before, and `n` blocks more.
pub record Holds (w : World) (n : ℕ) (w' : World) : Type 0 where
  pub sockets : w'.sockets ≡ w.sockets
  pub lists : w'.lists ≡ w.lists
  pub live : w'.mem.live ≡ w.mem.live + n

resolve_world :
    (net : Network) (hostname : Bytes) (w : World)
    → (resolve_upstream_address net (some hostname) w).1 ≡ w
unfolding resolve_upstream_address
resolve_world net hostname w = ground arith

exchange-Holds :
    (net : Network) (raw : Bytes) (w v : World)
    → v.sockets ≡ w.sockets + 1
    → v.lists ≡ w.lists
    → v.mem.live ≡ w.mem.live + 1
    → Holds w (block (exchange net raw v).0) (exchange net raw v).1
unfolding exchange
exchange-Holds net raw w v s l h = record {
  sockets = ground arith;
  lists = ground arith;
  live = ground arith;
}

with_socket-Holds :
    (net : Network) (ip raw : Bytes) (w : World)
    → Holds w
        (block (with_socket net ip raw (open_socket w)).0)
        (with_socket net ip raw (open_socket w)).1
unfolding with_socket
with_socket-Holds net ip raw w = elim (Bool-cases (malloc w.mem).0) [
  | inl granted ↦
      let x =
        exchange-Holds net raw w (record (open_socket w) { mem = (malloc w.mem).1 }) refl refl
          (ground (arith, malloc_live w.mem)) in
      record {
        sockets = ground (arith, x.sockets);
        lists = ground (arith, x.lists);
        live = ground (arith, x.live);
      }
  | inr refused ↦ record {
    sockets = ground arith;
    lists = ground arith;
    live = ground (arith, malloc_live w.mem);
  }
]

pub nothing_held : (w : World) → Holds w 0 w
nothing_held w = record { sockets = refl; lists = refl; live = omega arith }

pub forward_raw-unreachable :
    (net : Network) (raw host : Bytes) (w : World)
    → ((resolve_upstream_address net (some host) w).0 ≡ none) ⊎ (net.socket_made ≡ false)
    → forward_raw net raw host w ≡ (none, w)
unfolding forward_raw
forward_raw-unreachable net raw host w (inl fails) = ground (arith, resolve_world net host w)
forward_raw-unreachable net raw host w (inr failed) = ground (arith, resolve_world net host w)

pub forward_raw-with_socket :
    (net : Network) (raw host ip : Bytes) (w : World)
    → (resolve_upstream_address net (some host) w).0 ≡ some ip
    → net.socket_made ≡ true
    → forward_raw net raw host w ≡ with_socket net ip raw (open_socket w)
unfolding forward_raw
forward_raw-with_socket net raw host ip w resolves made = ground (arith, resolve_world net host w)

forward_raw-Holds :
    (net : Network) (raw host : Bytes) (w : World)
    → Holds w (block (forward_raw net raw host w).0) (forward_raw net raw host w).1
forward_raw-Holds net raw host w =
    elim (Option-cases (resolve_upstream_address net (some host) w).0) [
      | inl fails ↦ rw (forward_raw-unreachable net raw host w (inl fails)) (nothing_held w)
      | inr (ip, resolves) ↦ elim (Bool-cases net.socket_made) [
        | inl made ↦
            rw (forward_raw-with_socket net raw host ip w resolves made)
              (with_socket-Holds net ip raw w)
        | inr failed ↦ rw (forward_raw-unreachable net raw host w (inr failed)) (nothing_held w)
      ]
    ]

-- Whatever the network does, `forward_query` closes its socket and releases its address list, and
-- keeps no memory but the block of an answer that it returns.
pub forward_query-Holds :
    (net : Network) (query : Option Message) (upstream : Option Bytes) (w : World)
    → Holds w (block (forward_query net query upstream w).0) (forward_query net query upstream w).1
unfolding forward_query
forward_query-Holds net none upstream w = nothing_held w
forward_query-Holds net (some query) none w = nothing_held w
forward_query-Holds net (some query) (some host) w = elim (Option-cases query.raw_data) [
  | inl null ↦ rw null (nothing_held w)
  | inr (raw, has) ↦ rw has (elim (Bool-cases (length raw == 0)) [
    | inl empty ↦ rw empty (nothing_held w)
    | inr some_bytes ↦ rw some_bytes (forward_raw-Holds net raw host w)
  ])
]
