-- ===== src/App.antt =====
-- qtun/app.go: the routes, and what happens to a packet from the tunnel interface or from a peer.
pub mod Routes
pub mod Forward
pub mod Clean
pub mod Receive
pub mod Tunnel
pub mod Fetch
pub mod Tests
pub mod Whole
pub mod Announce
pub mod Downstream
pub mod Unordered
pub mod Shared
pub mod Startup
pub mod FetchTests
pub mod SharedTests
pub mod AnnounceTests
use qtun.Base.{
  ℕ, zero, suc, ◌%◌, Bool, true, false, Option, none, some, List, ◌∷◌, ◌++◌, map, if◌then◌else◌,
  length, get_elem?, Bytes, ℕ_key, bytes_key, ok, err, panic, Action, pure, [],
}
use qtun.Base.Map.{Map, lookup, insert, delete}
use qtun.Transport.ServerConn.{Wait, enqueue}
use qtun.Transport.Server.{ConnId, Server, update, get_conns_by_addr, delete_dead_conn, set_conns}
use qtun.Iface.{PacketIp, get_source_ip, get_destination_ip}
use qtun.Protocol.{
  MessagePing, envelope_ping, envelope_packet, Envelope, get_ping, get_packet, get_local_addr,
  get_ip, get_payload, Codec,
}

-- `map[string]struct{}`
abbrev pub Addrs : Type 0
Addrs = Map Bytes (Unit {0})

abbrev pub Routes : Type 0
Routes = Map Bytes Addrs

abbrev pub keys : Addrs → List Bytes
keys = map λ e. e.0

pub record App : Type 0 where
  pub routes : Routes
  pub server : Server
  -- What was written to the tunnel interface.
  pub written : List Bytes

unfoldable pub new_app : Server → App
new_app server = record { routes = []; server = server; written = [] }

-- The route that a ping leaves.
unfoldable pub add_route : Bytes → Bytes → Routes → Routes
add_route ip addr routes = elim (lookup ip routes) [
  | some conns ↦ insert ip (insert addr tt conns) routes
  | none ↦ insert ip ((addr, tt) ∷ []) routes
]

-- A packet is logged with its two addresses, which panics if the payload's capacity is too small,
-- and goes to the interface.
unfoldable pub deliver : PacketIp → Action App Wait (Unit {0})
unfolding get_source_ip get_destination_ip
deliver pkt app = elim (get_source_ip pkt) [
  | ok _ ↦ elim (get_destination_ip pkt) [
    | ok _ ↦ (ok tt, record app { written = app.written ++ (pkt.bytes ∷ []) })
    | err _ ↦ (ok tt, app)
    | panic p ↦ (panic p, app)
  ]
  | err _ ↦ (ok tt, app)
  | panic p ↦ (panic p, app)
]

unfoldable pub accept_ping : Option MessagePing → ConnId → Action App Wait (Unit {0})
unfolding get_ip get_local_addr
accept_ping ping conn app =
    let (r, server) = set_conns (get_local_addr ping) (some conn) app.server in
    (
      r,
      record app {
        routes = add_route (get_ip ping) (get_local_addr ping) app.routes;
        server = server;
      },
    )

unfoldable pub server_on_envelope : Envelope → ConnId → Action App Wait (Unit {0})
unfolding accept_ping get_ping get_packet get_payload
server_on_envelope ep conn = elim ep.type [
  | none ↦ pure tt
  | some (envelope_ping _) ↦ accept_ping (get_ping ep) conn
  | some (envelope_packet _) ↦ deliver (get_payload (get_packet ep))
]

unfoldable pub server_on_data : Codec → Bytes → ConnId → Action App Wait (Unit {0})
unfolding server_on_envelope
server_on_data codec buf conn = elim (codec.unmarshal buf) [
  | none ↦ pure tt
  | some ep ↦ server_on_envelope ep conn
]

unfoldable pub client_on_envelope : Envelope → Action App Wait (Unit {0})
unfolding get_packet get_payload
client_on_envelope ep = elim ep.type [
  | none ↦ pure tt
  | some (envelope_ping _) ↦ pure tt
  | some (envelope_packet _) ↦ deliver (get_payload (get_packet ep))
]

unfoldable pub client_on_data : Codec → Bytes → Action App Wait (Unit {0})
unfolding client_on_envelope
client_on_data codec buf = elim (codec.unmarshal buf) [
  | none ↦ pure tt
  | some ep ↦ client_on_envelope ep
]

-- `conn == nil || conn.IsClosed()`, for the connection of an address.
unfoldable pub is_dead : Server → Bytes → Bool
unfolding get_conns_by_addr
is_dead s addr = elim (get_conns_by_addr s addr) [ none ↦ true | some c ↦ (s.heap c).is_closed ]

-- `SendPacket` marshals the packet and hands it to the connection's write process.
unfoldable pub send_packet : Codec → PacketIp → ConnId → Server → Server
send_packet codec pkt c s =
    let payload =
      codec.marshal (record { type = some (envelope_packet (record { payload = pkt })) }) in
    record s { heap = update s.heap c (enqueue payload (s.heap c)) }

pub data Verdict : Type 0 where
  sent : ConnId → Verdict
  dropped : Verdict
  -- No outcome of the code: the fuel of the loop ran out.
  out_of_fuel : Verdict

-- The connection of a key is dead: forget the key, in the route and in the registry.
unfoldable pub forget : Bytes → Addrs → Bytes → App → App
forget dst conns addr app = record app {
  routes = insert dst (delete addr conns) app.routes;
  server = delete_dead_conn app.server addr;
}

-- The server's loop over one packet. `rand` gives the random number of each round, and `Intn(n)` is
-- that number modulo `n`: every outcome of `Intn` is one of some `rand`.
unfoldable pub forward : ℕ → (ℕ → ℕ) → Codec → PacketIp → Bytes → App → Verdict × App
forward zero rand codec pkt dst app = (out_of_fuel, app)
forward (suc fuel) rand codec pkt dst app = elim (lookup dst app.routes) [
  | none ↦ (dropped, app)
  | some conns ↦ elim (get_elem? (keys conns) (rand fuel % length (keys conns))) [
    | none ↦ (dropped, app)
    | some addr ↦ elim (is_dead app.server addr) [
      | true ↦ forward fuel rand codec pkt dst (forget dst conns addr app)
      | false ↦ elim (get_conns_by_addr app.server addr) [
        | none ↦ (dropped, app)
        | some c ↦ (sent c, record app { server = send_packet codec pkt c app.server })
      ]
    ]
  ]
]

-- Each round takes a key off the route, so one round more than the route has keys is enough.
abbrev pub fuel_of : Option Addrs → ℕ
fuel_of none = 1
fuel_of (some conns) = suc (length (keys conns))

unfoldable pub route_fuel : Bytes → App → ℕ
route_fuel dst app = fuel_of (lookup dst app.routes)

-- `CleanRoute`, for the addresses of one route.
unfoldable pub clean_conns : Server → List Bytes → Addrs → Server × Addrs
clean_conns s [] conns = (s, conns)
clean_conns s (c ∷ cs) conns =
    let dead = is_dead s c in
    clean_conns (if dead then delete_dead_conn s c else s) cs
      (if dead then delete c conns else conns)

unfoldable pub clean_routes : Server → Routes → Server × Routes
unfolding clean_conns
clean_routes s [] = (s, [])
clean_routes s ((dst, conns) ∷ more) =
    let (s1, conns') = clean_conns s (keys conns) conns in
    let (s2, more') = clean_routes s1 more in (s2, (dst, conns') ∷ more')

unfoldable pub clean_route : App → App
unfolding clean_routes
clean_route app =
    let (server, routes) = clean_routes app.server app.routes in
    record app { server = server; routes = routes }
