-- ===== src/App/Shared/Routing.antt =====
-- What taking an address off a route does to the routes.
use qtun.Base.{
  ◌≡◌, inl, inr, ite, none, arith, bytes_discrete, Option-cases, Bytes, ℕ_key, bytes_key,
}
use qtun.Base.Map.{lookup, delete, lookup-delete, lookup-insert}
use qtun.Transport.Server.{Server, get_conns_by_addr, delete_dead_conn}
use qtun.Transport.Server.Registry.{delete_dead_conn_absent, delete_dead_conn_present}
use qtun.App.{Routes}
use qtun.App.Clean.{in_route}
use qtun.App.Shared.{drop_addr}

pub in_route-drop_addr :
    (dst addr : Bytes) (routes : Routes) (d a : Bytes)
    → in_route (lookup d (drop_addr dst addr routes)) a
      ≡ ite
          (bytes_discrete dst d)
          (ite (bytes_discrete addr a) none (in_route (lookup d routes) a))
          (in_route (lookup d routes) a)
unfolding drop_addr
in_route-drop_addr dst addr routes d a = elim (Option-cases (lookup dst routes)) [
  | inl e ↦ ground arith
  | inr (conns, e) ↦
      ground (arith, lookup-insert dst d (delete addr conns) routes, lookup-delete addr a conns)
]

pub get_conns_by_addr-delete_dead :
    (s : Server) (addr : Bytes) → get_conns_by_addr (delete_dead_conn s addr) addr ≡ none
unfolding get_conns_by_addr
get_conns_by_addr-delete_dead s addr = elim (Option-cases (lookup addr s.conns)) [
  | inl e ↦ rw (delete_dead_conn_absent s addr e) e
  | inr (c, e) ↦
      rw (delete_dead_conn_present s addr c e) (ground (arith, lookup-delete addr addr s.conns))
]
