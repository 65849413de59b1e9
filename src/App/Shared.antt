-- ===== src/App/Shared.antt =====
-- qtun/app.go in server mode: the workers of `FetchAndProcessTunPkt`, the task of `CleanRoute`, the
-- pings that `ServerOnData` handles and the ends of connections, as they interleave on the routes
-- and on the registry. Each step is one access to what they share.
pub mod Streams
pub mod Consistent
pub mod Undone
pub mod Connections
pub mod Routing
pub mod Settles
pub mod Progress
pub mod Entries
use qtun.Base.{
  ℕ, ◌≡◌, ◌≢◌, ◌⊎◌, true, false, Option, none, some, List, [], ◌∷◌, ◌++◌, get_elem?, replicate,
  length, ◌<◌, Bytes, ℕ_key, bytes_key, ok,
}
use qtun.Base.Map.{lookup, insert, delete}
use qtun.Transport.ServerConn.{ServerConn}
use qtun.Transport.Server.{
  ConnId, Server, update, get_conns_by_addr, delete_dead_conn, set_conns,
  remove_conn_by_conn_pointer,
}
use qtun.Iface.{PacketIp}
use qtun.Protocol.{Codec}
use qtun.App.{Addrs, Routes, keys, App, add_route, send_packet}
use qtun.App.Fetch.{destination}

-- What an address is looked at for.
pub data Job : Type 0 where
  packet : PacketIp → Job
  cleaning : Job

-- Where a worker, or the cleaning task, stands.
pub data Place : Type 0 where
  -- At `Read` of the interface; between two addresses of the cleaning.
  fetching resting : Place
  -- At the top of the loop over one packet, with its destination.
  looking : PacketIp → Bytes → Place
  -- An address of the destination was picked, and the registry's connection for it was read.
  picked : Job → Bytes → Bytes → Place
  holding : Job → Bytes → Bytes → ConnId → Place
  -- The connection was not closed.
  sending : PacketIp → ConnId → Place
  -- The address is dead: it is about to be taken off the route, and then off the registry.
  forgetting unregistering : Job → Bytes → Bytes → Place

pub record Shared : Type 0 where
  pub app : App
  pub places : List Place
  -- `mutex` is held by the handler of a ping, which is about to register this address for this
  -- connection. Everyone else takes and releases it within one step.
  pub holder : Option (Bytes × ConnId)

-- Ten workers, an eleventh, and the cleaning task.
abbrev pub start : App → Shared
start app = record { app = app; places = resting ∷ replicate 11 fetching; holder = none }

-- `delete(this.routes[dst], addr)`
unfoldable pub drop_addr : Bytes → Bytes → Routes → Routes
drop_addr dst addr routes = elim (lookup dst routes) [
  | none ↦ routes
  | some conns ↦ insert dst (delete addr conns) routes
]

-- The workers lock `mutex` for the routes, the cleaning task does not.
abbrev pub MayLock : Job → Shared → Type 0
MayLock (packet pkt) s = s.holder ≡ none
MayLock cleaning s = Unit {0}

-- Where it goes on after an open connection, and after a dead one.
abbrev pub at_open : Job → ConnId → Place
at_open (packet pkt) c = sending pkt c
at_open cleaning c = resting

abbrev pub at_dead : Job → Bytes → Place
at_dead (packet pkt) dst = looking pkt dst
at_dead cleaning dst = resting

abbrev pub with_server : Server → App → App
with_server server app = record app { server = server }

abbrev pub with_routes : Routes → App → App
with_routes routes app = record app { routes = routes }

-- A send on `chanWrite` waits while its two places are taken, unless the channel is closed, where it
-- panics at once.
abbrev pub HasRoom : ServerConn → Type 0
HasRoom c = (length c.chan_write < 2) ⊎ (c.write_closed ≡ true)

-- A step of the one at that place, from there to the next place.
pub data Turn (codec : Codec) (s : Shared) : Place → Place → App → Type 0 where
  no_route :
      (pkt : PacketIp) (dst : Bytes)
      → s.holder ≡ none
      → (lookup dst s.app.routes ≡ none) ⊎ (lookup dst s.app.routes ≡ some [])
      → Turn codec s (looking pkt dst) fetching s.app
  picks :
      (pkt : PacketIp) (dst addr : Bytes) (conns : Addrs) (i : ℕ)
      → s.holder ≡ none
      → lookup dst s.app.routes ≡ some conns
      → get_elem? (keys conns) i ≡ some addr
      → Turn codec s (looking pkt dst) (picked (packet pkt) dst addr) s.app
  finds_none :
      (job : Job) (dst addr : Bytes)
      → get_conns_by_addr s.app.server addr ≡ none
      → Turn codec s (picked job dst addr) (forgetting job dst addr) s.app
  finds :
      (job : Job) (dst addr : Bytes) (c : ConnId)
      → get_conns_by_addr s.app.server addr ≡ some c
      → Turn codec s (picked job dst addr) (holding job dst addr c) s.app
  is_shut :
      (job : Job) (dst addr : Bytes) (c : ConnId)
      → (s.app.server.heap c).is_closed ≡ true
      → Turn codec s (holding job dst addr c) (forgetting job dst addr) s.app
  is_open :
      (job : Job) (dst addr : Bytes) (c : ConnId)
      → (s.app.server.heap c).is_closed ≡ false
      → Turn codec s (holding job dst addr c) (at_open job c) s.app
  sends :
      (pkt : PacketIp) (c : ConnId)
      → HasRoom (s.app.server.heap c)
      → Turn codec s
          (sending pkt c)
          fetching
          (with_server (send_packet codec pkt c s.app.server) s.app)
  forgets :
      (job : Job) (dst addr : Bytes)
      → MayLock job s
      → Turn codec s
          (forgetting job dst addr)
          (unregistering job dst addr)
          (with_routes (drop_addr dst addr s.app.routes) s.app)
  unregisters :
      (job : Job) (dst addr : Bytes)
      → Turn codec s
          (unregistering job dst addr)
          (at_dead job dst)
          (with_server (delete_dead_conn s.app.server addr) s.app)

-- Something new: a packet that was read, an address that the cleaning comes to.
pub data Begins (s : Shared) : Place → Place → Type 0 where
  reads :
      (pkt : PacketIp) (dst : Bytes)
      → destination pkt ≡ ok dst
      → Begins s fetching (looking pkt dst)
  comes_to :
      (dst addr : Bytes) (conns : Addrs)
      → lookup dst s.app.routes ≡ some conns
      → lookup addr conns ≡ some tt
      → Begins s resting (picked cleaning dst addr)

-- What the others do: the handler of a ping is done with the registry; a connection's read loop ends;
-- and the connection's own goroutines and senders change its object, which does not lose its stream
-- and is not opened again.
pub data Other (s : Shared) : Shared → Type 0 where
  registers :
      (addr : Bytes) (c : ConnId) {server : Server}
      → s.holder ≡ some (addr, c)
      → set_conns addr (some c) s.app.server ≡ (ok tt, server)
      → Other s (record s { app = with_server server s.app; holder = none })
  exits :
      (c : ConnId)
      → Other s (record s { app = with_server (remove_conn_by_conn_pointer s.app.server c) s.app })
  moves :
      (c : ConnId) (object : ServerConn)
      → object.conn ≢ none
      → (object.is_closed ≡ true) ⊎ (object.is_closed ≡ (s.app.server.heap c).is_closed)
      → Other s (record s {
        app = with_server (record s.app.server { heap = update s.app.server.heap c object }) s.app;
      })

pub data Step (codec : Codec) (s : Shared) : Shared → Type 0 where
  turns :
      (before after : List Place) {p q : Place} {app : App}
      → s.places ≡ before ++ (p ∷ after)
      → Turn codec s p q app
      → Step codec s (record s { app = app; places = before ++ (q ∷ after) })
  begins :
      (before after : List Place) {p q : Place}
      → s.places ≡ before ++ (p ∷ after)
      → Begins s p q
      → Step codec s (record s { places = before ++ (q ∷ after) })
  others : {t : Shared} → Other s t → Step codec s t
  -- A ping over a connection that has its stream: the route is there at once.
  pings :
      (ip addr : Bytes) (c : ConnId)
      → s.holder ≡ none
      → (s.app.server.heap c).conn ≢ none
      → Step codec s (record s {
        app = with_routes (add_route ip addr s.app.routes) s.app;
        holder = some (addr, c);
      })

pub data Reach (codec : Codec) (s : Shared) : Shared → Type 0 where
  here : Reach codec s s
  next : {t u : Shared} → Reach codec s t → Step codec t u → Reach codec s u
