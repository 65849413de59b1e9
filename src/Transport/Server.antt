-- ===== src/Transport/Server.antt =====
-- transport/server.go: the registry of connections, by the address that their client announces and
-- back. A `*ServerConn` is the number of its object in `heap`.
pub mod Registry
pub mod History
pub mod Listen
use qtun.Base.{
  ℕ, ite, Option, none, some, ℕ_discrete, Bytes, ℕ_key, bytes_key, Result, ok, err, panic, Action,
  [],
}
use qtun.Base.Map.{Map, lookup, insert, delete}
use qtun.Transport.ServerConn.{ServerConn, Wait, stop}

abbrev pub ConnId : Type 0
ConnId = ℕ

pub record Server : Type 0 where
  pub public_addr : Bytes
  pub key : Bytes
  pub conns : Map Bytes ConnId
  pub conns_reverse : Map ConnId Bytes
  pub heap : ConnId → ServerConn

unfoldable pub new_server : Bytes → Bytes → (ConnId → ServerConn) → Server
new_server public_addr key heap = record {
  public_addr = public_addr;
  key = key;
  conns = [];
  conns_reverse = [];
  heap = heap;
}

-- Assigning an object.
abbrev pub update : (ConnId → ServerConn) → ConnId → ServerConn → ConnId → ServerConn
update heap p c q = ite (ℕ_discrete p q) c (heap q)

unfoldable pub get_conns_by_addr : Server → Bytes → Option ConnId
get_conns_by_addr s dst = lookup dst s.conns

unfoldable pub delete_dead_conn : Server → Bytes → Server
delete_dead_conn s dst = elim (lookup dst s.conns) [
  | none ↦ s
  | some c ↦ record s { conns = delete dst s.conns; conns_reverse = delete c s.conns_reverse }
]

-- `SetConns` where the address is not registered.
unfoldable pub register : Bytes → Option ConnId → Action Server Wait (Unit {0})
register dst none s = (ok tt, s)
register dst (some c) s =
    (ok tt, record s { conns = insert dst c s.conns; conns_reverse = insert c dst s.conns_reverse })

-- What `v.Stop()` comes to for the object `v`, and the `delete` behind it.
unfoldable pub evict :
    Bytes → ConnId → Result Wait (Unit {0}) × ServerConn → Action Server Wait (Unit {0})
evict dst v (ok _, o) s = (ok tt, record s { heap = update s.heap v o; conns = delete dst s.conns })
evict dst v (err w, o) s = (err w, record s { heap = update s.heap v o })
evict dst v (panic p, o) s = (panic p, record s { heap = update s.heap v o })

-- `SetConns`
unfoldable pub set_conns : Bytes → Option ConnId → Action Server Wait (Unit {0})
unfolding register evict
set_conns dst server_conn s = elim (lookup dst s.conns) [
  | none ↦ register dst server_conn s
  | some v ↦ elim (s.heap v).conn [ none ↦ evict dst v (stop (s.heap v)) s | some _ ↦ (ok tt, s) ]
]

unfoldable pub remove_conn_by_conn_pointer : Server → ConnId → Server
remove_conn_by_conn_pointer s c = elim (lookup c s.conns_reverse) [
  | none ↦ record s { conns_reverse = delete c s.conns_reverse }
  | some dst ↦ record s { conns = delete dst s.conns; conns_reverse = delete c s.conns_reverse }
]
