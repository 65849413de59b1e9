-- ===== src/App/Shared/Undone.antt =====
-- A ping that comes between a look at the registry and what follows from it.
use qtun.Base.{◌≡◌, ◌≢◌, refl, none, some, List, ◌∷◌, ◌++◌, arith, Bytes, ℕ_key, bytes_key}
use qtun.Base.Map.{lookup, insert, lookup-insert}
use qtun.Transport.Server.{ConnId, Server, get_conns_by_addr, delete_dead_conn}
use qtun.Transport.Server.Registry.{set_conns_new}
use qtun.Iface.{PacketIp}
use qtun.Protocol.{Codec}
use qtun.App.{App, add_route}
use qtun.App.Clean.{in_route}
use qtun.App.Receive.{in_route-add_route}
use qtun.App.Shared.{
  packet, Place, looking, forgetting, Shared, drop_addr, forgets, unregisters, registers, turns,
  others, pings, Reach, here, next,
}
use qtun.App.Shared.Routing.{in_route-drop_addr, get_conns_by_addr-delete_dead}

-- The registry after the ping.
abbrev registered : Server → Bytes → ConnId → Server
registered s addr c = record s {
  conns = insert addr c s.conns;
  conns_reverse = insert c addr s.conns_reverse;
}

-- A worker has found an address dead, and has not taken it off the route yet. A ping that names this
-- address over another connection is handled completely in between: the address is in the route and
-- registered. Then the worker goes on with what it had found, and takes the address of the live
-- connection off the route and off the registry.
pub ping_undone :
    (codec : Codec) (pkt : PacketIp) (dst addr : Bytes) (c : ConnId) (before after : List Place)
    (app : App)
    → get_conns_by_addr app.server addr ≡ none
    → (app.server.heap c).conn ≢ none
    → (t u : Shared) × Reach codec
        (record {
          app = app;
          places = before ++ (forgetting (packet pkt) dst addr ∷ after);
          holder = none;
        })
        t
      × (in_route (lookup dst t.app.routes) addr ≡ some tt)
      × (get_conns_by_addr t.app.server addr ≡ some c)
      × (t.holder ≡ none)
      × Reach codec t u
      × (in_route (lookup dst u.app.routes) addr ≡ none)
      × (get_conns_by_addr u.app.server addr ≡ none)
unfolding get_conns_by_addr
ping_undone codec pkt dst addr c before after app free there =
    let server = registered app.server addr c in
    let app_t : App = record app { routes = add_route dst addr app.routes; server = server } in
    let t : Shared = record {
      app = app_t;
      places = before ++ (forgetting (packet pkt) dst addr ∷ after);
      holder = none;
    } in
    let app_u : App = record app_t {
      routes = drop_addr dst addr app_t.routes;
      server = delete_dead_conn server addr;
    } in
    let u : Shared = record {
      app = app_u;
      places = before ++ (looking pkt dst ∷ after);
      holder = none;
    } in
    (
      t,
      u,
      next (next here (pings dst addr c refl there))
          (others (registers addr c refl (set_conns_new app.server addr c free))),
      ground (arith, in_route-add_route dst addr app.routes dst addr),
      ground (arith, lookup-insert addr addr c app.server.conns),
      refl,
      next (next here (turns before after refl (forgets (packet pkt) dst addr refl)))
          (turns before after refl (unregisters (packet pkt) dst addr)),
      ground (arith, in_route-drop_addr dst addr app_t.routes dst addr),
      get_conns_by_addr-delete_dead server addr,
    )
