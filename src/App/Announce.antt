-- ===== src/App/Announce.antt =====
-- A client announces itself, and packets for its IP come back to it.
use qtun.Base.{
  ℕ, ◌+◌, ◌^◌, ◌<◌, ◌≡◌, refl, sym, ap, ◌∙◌, false, Option, none, some, List, [], ◌∷◌, ◌++◌, arith,
  bytes_discrete, ℕ_key, bytes_key, Bytes, Result, ok,
}
use mathlib.Core.Path.{subst}
use qtun.Base.Map.{lookup, insert, lookup-insert}
use qtun.Stream.{Stream}
use qtun.Transport.Aead.{Aead}
use qtun.Transport.Frame.{ReadError, io}
use qtun.Transport.Frame.RoundTrip.{Message, frames, IsReady}
use qtun.Transport.ReadLoop.{read_failed, read_process}
use qtun.Transport.ReadLoop.Laws.{read_process-frames}
use qtun.Transport.ServerConn.{Wait}
use qtun.Transport.Server.{ConnId, get_conns_by_addr}
use qtun.Transport.Server.Registry.{IsRegistry, set_conns_new}
use qtun.Transport.Client.{ClientConn, Client, get_conn_port, PingEnv, ping_message, send_ping}
use qtun.Transport.Client.Balance.{IsStarted, send_ping-target}
use qtun.Iface.{PacketIp}
use qtun.Protocol.{MessagePing, Codec}
use qtun.App.{App, add_route, server_on_data, send_packet, sent, forward, route_fuel}
use qtun.App.Forward.{IsSent, forward-IsSent}
use qtun.App.Receive.{ping_envelope, server_on_data_ping, forward-server_on_data}

-- Decoding gives back a ping.
pub record IsPingCodec (codec : Codec) : Type 0 where
  pub pings :
      (p : MessagePing) → codec.unmarshal (codec.marshal (ping_envelope p)) ≡ some (ping_envelope p)

last-eq {ℓ} : {A : Type ℓ} (xs : List A) (x y : A) → xs ++ (x ∷ []) ≡ xs ++ (y ∷ []) → x ≡ y
last-eq [] x y e = cc
last-eq (z ∷ zs) x y e = last-eq zs x y cc

-- The application after the ping.
abbrev pub pinged : Bytes → Bytes → ConnId → App → App
pinged ip addr conn app = record app {
  routes = add_route ip addr app.routes;
  server = record app.server {
    conns = insert addr conn app.server.conns;
    conns_reverse = insert conn addr app.server.conns_reverse;
  };
}

server_on_data-pinged :
    (codec : Codec) (p : MessagePing) (conn : ConnId) (app : App)
    → IsPingCodec codec
    → get_conns_by_addr app.server p.local_addr ≡ none
    → server_on_data codec (codec.marshal (ping_envelope p)) conn app
      ≡ (ok tt, pinged p.ip p.local_addr conn app)
unfolding get_conns_by_addr
server_on_data-pinged codec p conn app v free =
    server_on_data_ping codec (codec.marshal (ping_envelope p)) p conn app (v.pings p)
    ∙ ground (arith, set_conns_new app.server p.local_addr conn free)

-- A packet that was sent to a new route went over its only connection.
IsSent-pinged :
    (codec : Codec) (pkt : PacketIp) (ip addr : Bytes) (conn d : ConnId) (app app'' : App)
    → lookup ip app.routes ≡ none
    → IsSent codec pkt ip (pinged ip addr conn app) app'' d
    → d ≡ conn
unfolding get_conns_by_addr add_route lookup
IsSent-pinged codec pkt ip addr conn d app app'' new v =
    let only : v.conns ≡ (addr, tt) ∷ [] =
      ground (arith, v.route, new, lookup-insert ip ip ((addr, tt) ∷ []) app.routes) in
    let there : lookup v.addr ((addr, tt) ∷ []) ≡ some tt =
      ap (lookup v.addr) (sym only) ∙ v.member in
    elim (bytes_discrete addr v.addr) [
      | yes same ↦ ground (arith, v.target, lookup-insert addr v.addr conn app.server.conns, same)
      | no other ↦ absurd (ground (arith, there, other))
    ]

-- What the ping leaves, and what becomes of a packet for its IP.
abbrev pub Announced :
    Codec
    → Option Aead
    → ReadError
    → ConnId
    → Message
    → Stream
    → App
    → Bytes
    → (ℕ → ℕ)
    → PacketIp
    → Type 0
Announced codec k refused conn m s app ip rand pkt =
    (app' app'' : App) × (read_process k refused (λ buf. server_on_data codec buf conn)
        (record s { input = frames k (m ∷ []) }) app
      ≡ record { exit = read_failed (io s.ending); conn = record s { input = [] }; state = app' })
    × (app'.written ≡ app.written)
    × (forward (route_fuel ip app') rand codec pkt ip app' ≡ (sent conn, app''))
    × (app''.server.heap ≡ (send_packet codec pkt conn app.server).heap)

ping-Announced :
    (codec : Codec) (p : MessagePing) (k : Option Aead) (overhead : ℕ) (refused : ReadError)
    (conn : ConnId) (m : Message) (s : Stream) (app : App) (rand : ℕ → ℕ) (pkt : PacketIp)
    → IsPingCodec codec
    → IsReady k overhead m
    → IsRegistry app.server
    → get_conns_by_addr app.server p.local_addr ≡ none
    → (app.server.heap conn).is_closed ≡ false
    → lookup p.ip app.routes ≡ none
    → m.payload ≡ codec.marshal (ping_envelope p)
    → Announced codec k refused conn m s app p.ip rand pkt
unfolding send_packet
ping-Announced codec p k overhead refused conn m s app rand pkt v ready registry free open_conn new
      same =
    let app' : App = pinged p.ip p.local_addr conn app in
    let handled : server_on_data codec m.payload conn app ≡ (ok tt, app') =
      ap (λ b. server_on_data codec b conn app) same
      ∙ server_on_data-pinged codec p conn app v free in
    let (d, out) =
      forward-server_on_data codec m.payload p conn app rand pkt registry
        (ap codec.unmarshal same ∙ v.pings p) free open_conn in
    let at_app' : (forward (route_fuel p.ip app') rand codec pkt p.ip app').0 ≡ sent d =
      subst
        (λ (r : Result Wait (Unit {0}) × App).
          (forward (route_fuel p.ip r.1) rand codec pkt p.ip r.1).0 ≡ sent d)
        handled out in
    let app'' : App = (forward (route_fuel p.ip app') rand codec pkt p.ip app').1 in
    let over_d : forward (route_fuel p.ip app') rand codec pkt p.ip app' ≡ (sent d, app'') =
      ap (λ w. (w, app'')) at_app' in
    let went = forward-IsSent (route_fuel p.ip app') rand codec pkt p.ip app' app'' d over_d in
    let over : d ≡ conn = IsSent-pinged codec pkt p.ip p.local_addr conn d app app'' new went in
    (
      app',
      app'',
      read_process-frames k refused (λ buf. server_on_data codec buf conn) overhead (m ∷ []) s app
          app' (ready, tt) (ground (arith, handled)),
      refl,
      over_d ∙ ap (λ x. (sent x, app'')) over,
      went.heap ∙ ap (λ x. (send_packet codec pkt x app.server).heap) over,
    )

-- A started client announces one of its connections by `SendPing`, which hands one message to one of
-- them. The frame of this message comes in at a server, over an open connection, from an address that
-- is not registered, for an IP that has no route. Then the read loop writes nothing to the interface,
-- and after it every packet for this IP goes over that connection, to whose queue alone it is added,
-- whatever the random numbers are. The codec decodes pings, the message fits its frame, the ends share
-- their cipher setting, the IP and the local address parse, the serial number stays below 2 ^ 63,
-- each of the client's connections has a `writeProcess` that receives, and the registry is consistent.
pub send_ping-forward :
    (codec : Codec) (env : PingEnv) (client_conn : ClientConn) (ip port : Bytes) (c : Client)
    (j : ℕ) (k : Option Aead) (overhead : ℕ) (refused : ReadError) (conn : ConnId) (m : Message)
    (s : Stream) (app : App) (rand : ℕ → ℕ) (pkt : PacketIp)
    → IsPingCodec codec
    → IsStarted c
    → c.serial + 1 < 2 ^ 63
    → env.parsed_ip ≡ some ip
    → get_conn_port client_conn.local_addr ≡ ok port
    → (send_ping codec env client_conn c).1.handed ≡ c.handed ++ ((j, m.payload) ∷ [])
    → IsReady k overhead m
    → IsRegistry app.server
    → get_conns_by_addr app.server (env.config_ip ++ (b':' ∷ port)) ≡ none
    → (app.server.heap conn).is_closed ≡ false
    → lookup ip app.routes ≡ none
    → Announced codec k refused conn m s app ip rand pkt
unfolding ping_message
send_ping-forward codec env client_conn ip port c j k overhead refused conn m s app rand pkt v
      started small has_ip has_port handed ready registry free open_conn new =
    let ping : MessagePing = ping_message env ip port in
    let told =
      ap (λ r. r.1.handed)
        (send_ping-target codec env client_conn ip port c started small has_ip has_port) in
    let same : m.payload ≡ codec.marshal (ping_envelope ping) =
      ap (λ (t : ℕ × Bytes). t.1) (last-eq c.handed _ _ (sym handed ∙ told)) in
    ping-Announced codec ping k overhead refused conn m s app rand pkt v ready registry free
      open_conn new same
