-- ===== src/App/Receive.antt =====
-- What a message from a peer does to the application.
use qtun.Base.{
  ℕ, ◌≡◌, refl, ◌∙◌, ◌⊎◌, inl, inr, ite, true, false, Option, none, some, [], ◌∷◌, ◌++◌, arith,
  bytes_discrete, ltb, if◌then◌else◌, Option-cases, length, Bytes, ℕ_key, bytes_key,
  index_out_of_range, Result, ok, panic,
}
use qtun.Base.Map.{lookup, insert, lookup-insert}
use qtun.Transport.ServerConn.{Wait}
use qtun.Transport.Server.{ConnId, Server, get_conns_by_addr, set_conns}
use qtun.Transport.Server.Registry.{IsRegistry, set_conns_new, set_conns_taken}
use qtun.Iface.{PacketIp}
use qtun.Protocol.{MessagePing, envelope_ping, envelope_packet, Envelope, Codec}
use qtun.App.{
  Addrs, Routes, keys, App, add_route, deliver, server_on_data, client_on_data, is_dead, sent,
  forward, route_fuel,
}
use mathlib.Core.Path.{subst}
use qtun.App.Routes.{any_live}
use qtun.App.Clean.{in_route}
use qtun.App.Forward.{Answers, addrs_of, forward-Answers}
use qtun.Transport.Server.History.{get_conns_by_addr-set_conns}

pub in_route-add_route :
    (ip addr : Bytes) (routes : Routes) (d a : Bytes)
    → in_route (lookup d (add_route ip addr routes)) a
      ≡ ite
          (bytes_discrete ip d)
          (ite (bytes_discrete addr a) (some tt) (in_route (lookup d routes) a))
          (in_route (lookup d routes) a)
unfolding add_route lookup
in_route-add_route ip addr routes d a = elim (Option-cases (lookup ip routes)) [
  | inl e ↦ ground (arith, lookup-insert ip d ((addr, tt) ∷ []) routes)
  | inr (conns, e) ↦
      ground
        (arith, lookup-insert ip d (insert addr tt conns) routes, lookup-insert addr a tt conns)
]

abbrev pub ping_envelope : MessagePing → Envelope
ping_envelope ping = record { type = some (envelope_ping ping) }

abbrev pub packet_envelope : PacketIp → Envelope
packet_envelope pkt = record { type = some (envelope_packet (record { payload = pkt })) }

pub server_on_data_ping :
    (codec : Codec) (buf : Bytes) (ping : MessagePing) (c : ConnId) (app : App)
    → codec.unmarshal buf ≡ some (ping_envelope ping)
    → server_on_data codec buf c app ≡ (
      (set_conns ping.local_addr (some c) app.server).0,
      record app {
        routes = add_route ping.ip ping.local_addr app.routes;
        server = (set_conns ping.local_addr (some c) app.server).1;
      },
    )
unfolding server_on_data
server_on_data_ping codec buf ping c app e = ground arith

-- A decoded ping adds its address to the route of its IP, and nothing else to any route; it is
-- registered for the connection that it came over, unless the address has one already; nothing is
-- written to the interface.
pub server_on_data-ping :
    (codec : Codec) (buf : Bytes) (ping : MessagePing) (c : ConnId) (app : App) (d a : Bytes)
    → IsRegistry app.server
    → codec.unmarshal buf ≡ some (ping_envelope ping)
    → let app' = (server_on_data codec buf c app).1 in
      (in_route (lookup d app'.routes) a
        ≡ ite
            (bytes_discrete ping.ip d)
            (ite (bytes_discrete ping.local_addr a) (some tt) (in_route (lookup d app.routes) a))
            (in_route (lookup d app.routes) a))
      × (get_conns_by_addr app'.server a ≡ elim (get_conns_by_addr app.server a) [
        | some o ↦ some o
        | none ↦ ite (bytes_discrete ping.local_addr a) (some c) none
      ])
      × (app'.written ≡ app.written)
server_on_data-ping codec buf ping c app d a v e = rw (server_on_data_ping codec buf ping c app e) (
  in_route-add_route ping.ip ping.local_addr app.routes d a,
  get_conns_by_addr-set_conns app.server ping.local_addr a c v,
  refl,
)

-- `deliver` on every input.
deliver_lem :
    (pkt : PacketIp) (app : App)
    → deliver pkt app ≡ (
        if ltb (length (pkt.bytes ++ pkt.spare)) 20
        then (panic index_out_of_range, app)
        else (ok tt, record app { written = app.written ++ (pkt.bytes ∷ []) }))
unfolding deliver
deliver_lem pkt app = ground arith

on_data_packet :
    (codec : Codec) (buf : Bytes) (c : ConnId) (pkt : PacketIp) (app : App)
    → codec.unmarshal buf ≡ some (packet_envelope pkt)
    → (server_on_data codec buf c app ≡ deliver pkt app)
      × (client_on_data codec buf app ≡ deliver pkt app)
unfolding server_on_data client_on_data
on_data_packet codec buf c pkt app e = (ground arith, ground arith)

abbrev pub packet_answer : PacketIp → App → Result Wait (Unit {0}) × App
packet_answer pkt app =
    if ltb (length (pkt.bytes ++ pkt.spare)) 20
    then (panic index_out_of_range, app)
    else (ok tt, record app { written = app.written ++ (pkt.bytes ∷ []) })

-- A packet message is refused exactly if its slice does not reach the two addresses, up to byte 20:
-- then both handlers panic with nothing written. Otherwise both write the payload to the interface
-- as it stands, and change nothing else.
pub on_data-packet :
    (codec : Codec) (buf : Bytes) (c : ConnId) (pkt : PacketIp) (app : App)
    → codec.unmarshal buf ≡ some (packet_envelope pkt)
    → (server_on_data codec buf c app ≡ packet_answer pkt app)
      × (client_on_data codec buf app ≡ packet_answer pkt app)
on_data-packet codec buf c pkt app e =
    let (at_server, at_client) = on_data_packet codec buf c pkt app e in
    (at_server ∙ deliver_lem pkt app, at_client ∙ deliver_lem pkt app)

-- A message that does not decode, or has no content, changes nothing at either end; so does a ping
-- at the client.
pub on_data-ignored :
    (codec : Codec) (buf : Bytes) (c : ConnId) (ping : MessagePing) (app : App)
    → (codec.unmarshal buf ≡ none) ⊎ (codec.unmarshal buf ≡ some (record { type = none }))
    → (server_on_data codec buf c app ≡ (ok tt, app))
      × (client_on_data codec buf app ≡ (ok tt, app))
unfolding server_on_data client_on_data
on_data-ignored codec buf c ping app (inl e) = (ground arith, ground arith)
on_data-ignored codec buf c ping app (inr e) = (ground arith, ground arith)

any_live_member :
    (s : Server) (a : Bytes) (conns : Addrs)
    → lookup a conns ≡ some tt
    → is_dead s a ≡ false
    → any_live s (keys conns) ≡ true
unfolding lookup
any_live_member s a [] h live = absurd (cc)
any_live_member s a ((b, u) ∷ rest) h live = ground (arith, any_live_member s a rest)

pub any_live-in_route :
    (s : Server) (a : Bytes) (o : Option Addrs)
    → in_route o a ≡ some tt
    → is_dead s a ≡ false
    → any_live s (addrs_of o) ≡ true
any_live-in_route s a none h live = absurd (cc)
any_live-in_route s a (some conns) h live = any_live_member s a conns h live

pub heap-set_conns :
    (s : Server) (dst : Bytes) (c : ConnId)
    → IsRegistry s
    → (set_conns dst (some c) s).1.heap ≡ s.heap
heap-set_conns s dst c v = elim (Option-cases (lookup dst s.conns)) [
  | inl e ↦ ground (arith, set_conns_new s dst c e)
  | inr (o, e) ↦ ground (arith, set_conns_taken s dst (some c) o v e)
]

pinged_live :
    (codec : Codec) (buf : Bytes) (ping : MessagePing) (c : ConnId) (app : App)
    → IsRegistry app.server
    → codec.unmarshal buf ≡ some (ping_envelope ping)
    → get_conns_by_addr app.server ping.local_addr ≡ none
    → (app.server.heap c).is_closed ≡ false
    → is_dead (server_on_data codec buf c app).1.server ping.local_addr ≡ false
unfolding is_dead
pinged_live codec buf ping c app v e free open_conn = ground (
  arith,
  (server_on_data-ping codec buf ping c app ping.ip ping.local_addr v e).1,
  server_on_data_ping codec buf ping c app e,
  heap-set_conns app.server ping.local_addr c v,
)

-- After a ping over an open connection, from an address that was free, the server's loop sends a
-- packet for the pinged IP, whatever the random numbers are: it is never dropped.
pub forward-server_on_data :
    (codec : Codec) (buf : Bytes) (ping : MessagePing) (c : ConnId) (app : App) (rand : ℕ → ℕ)
    (pkt : PacketIp)
    → IsRegistry app.server
    → codec.unmarshal buf ≡ some (ping_envelope ping)
    → get_conns_by_addr app.server ping.local_addr ≡ none
    → (app.server.heap c).is_closed ≡ false
    → let app' = (server_on_data codec buf c app).1 in
      (d : ConnId) × ((forward (route_fuel ping.ip app') rand codec pkt ping.ip app').0 ≡ sent d)
forward-server_on_data codec buf ping c app rand pkt v e free open_conn =
    let app' : App = (server_on_data codec buf c app).1 in
    let told = server_on_data-ping codec buf ping c app ping.ip ping.local_addr v e in
    subst (λ b. Answers b (forward (route_fuel ping.ip app') rand codec pkt ping.ip app').0)
      (any_live-in_route app'.server ping.local_addr (lookup ping.ip app'.routes)
        (ground (arith, told.0)) (pinged_live codec buf ping c app v e free open_conn))
      (forward-Answers rand codec pkt ping.ip app')
