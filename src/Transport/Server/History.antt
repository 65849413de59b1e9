-- ===== src/Transport/Server/History.antt =====
-- Runs of the registry's operations, and what becomes of a connection that is taken off.
use qtun.Base.{
  ◌≡◌, ◌≢◌, inl, inr, ite, none, some, List, [], ◌∷◌, arith, ℕ_discrete, bytes_discrete,
  Option-cases, All, Bytes, ℕ_key, bytes_key,
}
use qtun.Base.Map.{lookup, insert, delete, lookup-delete, lookup-insert}
use qtun.Transport.ServerConn.{ServerConn}
use qtun.Transport.Server.{
  ConnId, Server, new_server, get_conns_by_addr, delete_dead_conn, set_conns,
  remove_conn_by_conn_pointer,
}
use qtun.Transport.Server.Registry.{
  IsRegistry, new_server-IsRegistry, delete_dead_conn_absent, delete_dead_conn_present,
  remove_conn_by_conn_pointer_absent, remove_conn_by_conn_pointer_present, set_conns_new,
  set_conns_taken, delete_dead_conn-IsRegistry, remove_conn_by_conn_pointer-IsRegistry,
  set_conns-IsRegistry,
}

-- Who calls the registry: a ping (`ServerOnData`), the routes that find a dead connection, and the
-- end of a connection's read loop.
pub data Call : Type 0 where
  pings : Bytes → ConnId → Call
  finds_dead : Bytes → Call
  exits : ConnId → Call

unfoldable pub step : Server → Call → Server
step s (pings dst c) = (set_conns dst (some c) s).1
step s (finds_dead dst) = delete_dead_conn s dst
step s (exits c) = remove_conn_by_conn_pointer s c

unfoldable pub run : Server → List Call → Server
run s [] = s
run s (c ∷ cs) = run (step s c) cs

-- Pings come over connections that were accepted, with their stream.
abbrev pub IsAccepted : (ConnId → ServerConn) → Call → Type 0
IsAccepted heap (pings dst c) = (heap c).conn ≢ none
IsAccepted heap (finds_dead dst) = Unit {0}
IsAccepted heap (exits c) = Unit {0}

-- No operation touches the objects while the registry keeps its invariant.
step-heap : (s : Server) (c : Call) → IsRegistry s → (step s c).heap ≡ s.heap
unfolding step
step-heap s (pings dst c) v = elim (Option-cases (lookup dst s.conns)) [
  | inl e ↦ ground (arith, set_conns_new s dst c e)
  | inr (o, e) ↦ ground (arith, set_conns_taken s dst (some c) o v e)
]
step-heap s (finds_dead dst) v = elim (Option-cases (lookup dst s.conns)) [
  | inl e ↦ ground (arith, delete_dead_conn_absent s dst e)
  | inr (o, e) ↦ ground (arith, delete_dead_conn_present s dst o e)
]
step-heap s (exits c) v = elim (Option-cases (lookup c s.conns_reverse)) [
  | inl e ↦ ground (arith, remove_conn_by_conn_pointer_absent s c e)
  | inr (dst, e) ↦ ground (arith, remove_conn_by_conn_pointer_present s c dst e)
]

step-IsRegistry :
    (s : Server) (c : Call) → IsRegistry s → IsAccepted s.heap c → IsRegistry (step s c)
unfolding step
step-IsRegistry s (pings dst c) v h = set_conns-IsRegistry s dst c v h
step-IsRegistry s (finds_dead dst) v h = delete_dead_conn-IsRegistry s dst v
step-IsRegistry s (exits c) v h = remove_conn_by_conn_pointer-IsRegistry s c v

run-IsRegistry_from :
    (s : Server) (cs : List Call)
    → IsRegistry s
    → All (IsAccepted s.heap) cs
    → IsRegistry (run s cs)
unfolding run
run-IsRegistry_from s [] v h = v
run-IsRegistry_from s (c ∷ cs) v (h, hs) =
    run-IsRegistry_from (step s c) cs (step-IsRegistry s c v h) (rw (step-heap s c v) hs)

-- From the empty registry, any sequence of pings, dead-connection reports and exits, the pings over
-- accepted connections, keeps the invariant: what a connection is filed under in `conns_reverse`
-- leads back to it in `conns`, and every registered connection has its stream.
pub run-IsRegistry :
    (public_addr key : Bytes) (heap : ConnId → ServerConn) (cs : List Call)
    → All (IsAccepted heap) cs
    → IsRegistry (run (new_server public_addr key heap) cs)
unfolding new_server
run-IsRegistry public_addr key heap cs h =
    run-IsRegistry_from (new_server public_addr key heap) cs
      (new_server-IsRegistry public_addr key heap) h

-- A ping registers its address for its connection if the address is free; a taken address keeps
-- the connection that it has. No other address is affected.
pub get_conns_by_addr-set_conns :
    (s : Server) (dst other : Bytes) (c : ConnId)
    → IsRegistry s
    → get_conns_by_addr (set_conns dst (some c) s).1 other ≡ elim (get_conns_by_addr s other) [
      | some o ↦ some o
      | none ↦ ite (bytes_discrete dst other) (some c) none
    ]
unfolding get_conns_by_addr
get_conns_by_addr-set_conns s dst other c v = elim (Option-cases (lookup dst s.conns)) [
  | inl e ↦ rw (set_conns_new s dst c e) (ground (arith, lookup-insert dst other c s.conns))
  | inr (o, e) ↦ rw (set_conns_taken s dst (some c) o v e) (ground arith)
]

-- The connection is registered under one address at most.
abbrev pub HasOneAddress : Server → ConnId → Type 0
HasOneAddress s c = (d : Bytes) → lookup d s.conns ≡ some c → lookup c s.conns_reverse ≡ some d

-- When the read loop of a connection with one address at most ends, no address leads to it any
-- more, and the addresses of all other connections still do.
pub remove_conn_by_conn_pointer-gone :
    (s : Server) (c : ConnId) (d : Bytes)
    → IsRegistry s
    → HasOneAddress s c
    → get_conns_by_addr (remove_conn_by_conn_pointer s c) d
      ≡ elim (get_conns_by_addr s d) [ none ↦ none | some o ↦ ite (ℕ_discrete o c) none (some o) ]
unfolding get_conns_by_addr
remove_conn_by_conn_pointer-gone s c d v one = elim (Option-cases (lookup c s.conns_reverse)) [
  | inl e ↦ rw (remove_conn_by_conn_pointer_absent s c e) (ground (arith, one d))
  | inr (dst, e) ↦
      rw (remove_conn_by_conn_pointer_present s c dst e)
        (ground (arith, one d, v.inverse c dst e, lookup-delete dst d s.conns))
]

abbrev filed : Server → Bytes → ConnId → Server
filed s dst c = record s {
  conns = insert dst c s.conns;
  conns_reverse = insert c dst s.conns_reverse;
}

-- Both addresses are filed; the exit takes the second off.
run_two_addresses :
    (s : Server) (a b : Bytes) (c : ConnId)
    → a ≢ b
    → lookup a s.conns ≡ none
    → lookup b s.conns ≡ none
    → let s2 = filed (filed s a c) b c in
      run s (pings a c ∷ pings b c ∷ exits c ∷ [])
      ≡ record s2 { conns = delete b s2.conns; conns_reverse = delete c s2.conns_reverse }
unfolding run step
run_two_addresses s a b c ne fa fb = ground (
  arith,
  lookup-insert a b c s.conns,
  set_conns_new s a c fa,
  set_conns_new (filed s a c) b c,
  lookup-insert c c b (filed s a c).conns_reverse,
  remove_conn_by_conn_pointer_present (filed (filed s a c) b c) c b,
)

-- A connection that pinged under two addresses leaves the first one behind: after its read loop has
-- ended, the address still leads to it, and nothing in `conns_reverse` leads back.
pub remove_conn_by_conn_pointer-leaves :
    (s : Server) (a b : Bytes) (c : ConnId)
    → a ≢ b
    → get_conns_by_addr s a ≡ none
    → get_conns_by_addr s b ≡ none
    → let s' = run s (pings a c ∷ pings b c ∷ exits c ∷ []) in
      (get_conns_by_addr s' a ≡ some c) × (lookup c s'.conns_reverse ≡ none)
unfolding get_conns_by_addr
remove_conn_by_conn_pointer-leaves s a b c ne fa fb =
    let s1 : Server = filed s a c in
    let s2 : Server = filed s1 b c in
    rw (run_two_addresses s a b c ne fa fb) (
      ground (
        arith,
        lookup-delete b a s2.conns,
        lookup-insert b a c s1.conns,
        lookup-insert a a c s.conns,
      ),
      ground (arith, lookup-delete c c s2.conns_reverse),
    )
