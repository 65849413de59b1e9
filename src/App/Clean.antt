-- ===== src/App/Clean.antt =====
-- The periodic cleaning of the routes.
use qtun.Base.{
  ◌≡◌, refl, ◌∙◌, inl, inr, ite, Bool, true, false, ◌&&◌, Option, none, some, List, [], ◌∷◌, arith,
  bytes_discrete, if◌then◌else◌, Bool-cases, Bytes, ℕ_key, bytes_key,
}
use qtun.Base.Map.{lookup, delete, lookup-delete}
use qtun.Transport.Server.{Server, delete_dead_conn}
use qtun.Transport.Server.Registry.{IsRegistry}
use qtun.App.{Addrs, Routes, keys, App, is_dead, clean_conns, clean_routes, clean_route}
use qtun.Transport.Server.Registry.{delete_dead_conn-IsRegistry}
use qtun.App.Routes.{is_dead-delete_dead_conn}

-- The registry after one address was looked at.
abbrev checked : Server → Bytes → Server
checked s a = if is_dead s a then delete_dead_conn s a else s

is_dead-checked : (s : Server) (a b : Bytes) → is_dead (checked s a) b ≡ is_dead s b
is_dead-checked s a b = elim (Bool-cases (is_dead s a)) [
  | inl dead ↦ rw dead (is_dead-delete_dead_conn s a b dead)
  | inr live ↦ rw live refl
]

checked-IsRegistry : (s : Server) (a : Bytes) → IsRegistry s → IsRegistry (checked s a)
checked-IsRegistry s a v = elim (Bool-cases (is_dead s a)) [
  | inl dead ↦ rw dead (delete_dead_conn-IsRegistry s a v)
  | inr live ↦ rw live v
]

is_dead-clean_conns :
    (s : Server) (cs : List Bytes) (conns : Addrs) (b : Bytes)
    → is_dead (clean_conns s cs conns).0 b ≡ is_dead s b
unfolding clean_conns
is_dead-clean_conns s [] conns b = refl
is_dead-clean_conns s (c ∷ cs) conns b =
    is_dead-clean_conns (checked s c) cs (if is_dead s c then delete c conns else conns) b
    ∙ is_dead-checked s c b

clean_conns-IsRegistry :
    (s : Server) (cs : List Bytes) (conns : Addrs)
    → IsRegistry s
    → IsRegistry (clean_conns s cs conns).0
unfolding clean_conns
clean_conns-IsRegistry s [] conns v = v
clean_conns-IsRegistry s (c ∷ cs) conns v =
    clean_conns-IsRegistry (checked s c) cs (if is_dead s c then delete c conns else conns)
      (checked-IsRegistry s c v)

abbrev contains : List Bytes → Bytes → Bool
contains [] a = false
contains (c ∷ cs) a = ite (bytes_discrete c a) true (contains cs a)

-- An address that is looked at stays exactly if it is not dead.
lookup-clean_conns :
    (s : Server) (cs : List Bytes) (conns : Addrs) (a : Bytes)
    → lookup a (clean_conns s cs conns).1
      ≡ (if contains cs a && is_dead s a then none else lookup a conns)
unfolding clean_conns
lookup-clean_conns s [] conns a = refl
lookup-clean_conns s (c ∷ cs) conns a = ground (
  arith,
  lookup-clean_conns (checked s c) cs (if is_dead s c then delete c conns else conns) a,
  is_dead-checked s c a,
  lookup-delete c a conns,
)

contains-keys :
    (conns : Addrs) (a : Bytes) → contains (keys conns) a ≡ false → lookup a conns ≡ none
unfolding lookup
contains-keys [] a h = refl
contains-keys ((c, u) ∷ rest) a h = ground (arith, contains-keys rest a)

lookup-clean_conns-keys :
    (s : Server) (conns : Addrs) (a : Bytes)
    → lookup a (clean_conns s (keys conns) conns).1 ≡ (if is_dead s a then none else lookup a conns)
lookup-clean_conns-keys s conns a =
    ground (arith, lookup-clean_conns s (keys conns) conns a, contains-keys conns a)

-- Whether the routes have an address for a destination.
abbrev pub in_route : Option Addrs → Bytes → Option (Unit {0})
in_route none a = none
in_route (some conns) a = lookup a conns

is_dead-clean_routes :
    (s : Server) (routes : Routes) (b : Bytes) → is_dead (clean_routes s routes).0 b ≡ is_dead s b
unfolding clean_routes
is_dead-clean_routes s [] b = refl
is_dead-clean_routes s ((dst, conns) ∷ more) b =
    is_dead-clean_routes (clean_conns s (keys conns) conns).0 more b
    ∙ is_dead-clean_conns s (keys conns) conns b

clean_routes-IsRegistry :
    (s : Server) (routes : Routes) → IsRegistry s → IsRegistry (clean_routes s routes).0
unfolding clean_routes
clean_routes-IsRegistry s [] v = v
clean_routes-IsRegistry s ((dst, conns) ∷ more) v =
    clean_routes-IsRegistry (clean_conns s (keys conns) conns).0 more
      (clean_conns-IsRegistry s (keys conns) conns v)

in_route-clean_routes :
    (s : Server) (routes : Routes) (dst a : Bytes)
    → in_route (lookup dst (clean_routes s routes).1) a
      ≡ (if is_dead s a then none else in_route (lookup dst routes) a)
unfolding clean_routes lookup
in_route-clean_routes s [] dst a = ground arith
in_route-clean_routes s ((d, conns) ∷ more) dst a = ground (
  arith,
  lookup-clean_conns-keys s conns a,
  in_route-clean_routes (clean_conns s (keys conns) conns).0 more dst a,
  is_dead-clean_conns s (keys conns) conns a,
)

-- One run of the cleaning task takes exactly the dead addresses off every route: an address of a
-- route stays if and only if the registry has an open connection for it. The registry's invariant
-- is kept, and which addresses are dead does not change.
pub clean_route_lem :
    (app : App) (dst a : Bytes)
    → IsRegistry app.server
    → (in_route (lookup dst (clean_route app).routes) a
        ≡ (if is_dead app.server a then none else in_route (lookup dst app.routes) a))
      × (is_dead (clean_route app).server a ≡ is_dead app.server a)
      × IsRegistry (clean_route app).server
unfolding clean_route
clean_route_lem app dst a v = (
  in_route-clean_routes app.server app.routes dst a,
  is_dead-clean_routes app.server app.routes a,
  clean_routes-IsRegistry app.server app.routes v,
)
