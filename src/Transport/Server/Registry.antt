-- ===== src/Transport/Server/Registry.antt =====
-- The two maps of the registry against one another.
use qtun.Base.{
  ◌≡◌, ◌≢◌, inl, inr, Option, none, some, arith, bytes_discrete, Option-cases, Bytes, ℕ_key,
  bytes_key, ok,
}
use qtun.Base.Map.{lookup, insert, delete, lookup-delete, lookup-insert}
use qtun.Transport.ServerConn.{ServerConn}
use qtun.Transport.Server.{
  ConnId, Server, new_server, delete_dead_conn, set_conns, remove_conn_by_conn_pointer,
}

pub record IsRegistry (s : Server) : Type 0 where
  -- What a connection is filed under in `conns_reverse` leads back to it in `conns`.
  pub inverse :
      (c : ConnId) (dst : Bytes) → lookup c s.conns_reverse ≡ some dst → lookup dst s.conns ≡ some c
  -- A registered object has its stream.
  pub streams : (dst : Bytes) (c : ConnId) → lookup dst s.conns ≡ some c → (s.heap c).conn ≢ none

pub new_server-IsRegistry :
    (public_addr key : Bytes) (heap : ConnId → ServerConn)
    → IsRegistry (new_server public_addr key heap)
unfolding new_server lookup
new_server-IsRegistry public_addr key heap = record {
  inverse = λ c dst h. cc;
  streams = λ dst c h. absurd (cc);
}

-- The operations, case by case.
pub delete_dead_conn_absent :
    (s : Server) (dst : Bytes) → lookup dst s.conns ≡ none → delete_dead_conn s dst ≡ s
unfolding delete_dead_conn
delete_dead_conn_absent s dst e = ground arith

pub delete_dead_conn_present :
    (s : Server) (dst : Bytes) (c : ConnId)
    → lookup dst s.conns ≡ some c
    → delete_dead_conn s dst
      ≡ record s { conns = delete dst s.conns; conns_reverse = delete c s.conns_reverse }
unfolding delete_dead_conn
delete_dead_conn_present s dst c e = ground arith

pub remove_conn_by_conn_pointer_absent :
    (s : Server) (c : ConnId)
    → lookup c s.conns_reverse ≡ none
    → remove_conn_by_conn_pointer s c ≡ record s { conns_reverse = delete c s.conns_reverse }
unfolding remove_conn_by_conn_pointer
remove_conn_by_conn_pointer_absent s c e = ground arith

pub remove_conn_by_conn_pointer_present :
    (s : Server) (c : ConnId) (dst : Bytes)
    → lookup c s.conns_reverse ≡ some dst
    → remove_conn_by_conn_pointer s c
      ≡ record s { conns = delete dst s.conns; conns_reverse = delete c s.conns_reverse }
unfolding remove_conn_by_conn_pointer
remove_conn_by_conn_pointer_present s c dst e = ground arith

-- `SetConns` on a new address files the connection under it, both ways.
pub set_conns_new :
    (s : Server) (dst : Bytes) (c : ConnId)
    → lookup dst s.conns ≡ none
    → set_conns dst (some c) s ≡ (
      ok tt,
      record s { conns = insert dst c s.conns; conns_reverse = insert c dst s.conns_reverse },
    )
unfolding set_conns
set_conns_new s dst c e = ground arith

-- On an address that is taken it changes nothing.
pub set_conns_taken :
    (s : Server) (dst : Bytes) (new : Option ConnId) (c : ConnId)
    → IsRegistry s
    → lookup dst s.conns ≡ some c
    → set_conns dst new s ≡ (ok tt, s)
unfolding set_conns
set_conns_taken s dst new c v e = ground (arith, v.streams dst c e)

-- Deleting an address and the entry of the connection that is filed under it keeps the rest.
delete_both-IsRegistry :
    (s : Server) (dst : Bytes) (c : ConnId)
    → IsRegistry s
    → lookup dst s.conns ≡ some c
    → IsRegistry (record s { conns = delete dst s.conns; conns_reverse = delete c s.conns_reverse })
delete_both-IsRegistry s dst c v e = record {
  inverse = λ p d h.
      ground (arith, v.inverse p d, lookup-delete c p s.conns_reverse, lookup-delete dst d s.conns);
  streams = λ d p h. v.streams d p (ground (arith, lookup-delete dst d s.conns));
}

pub delete_dead_conn-IsRegistry :
    (s : Server) (dst : Bytes) → IsRegistry s → IsRegistry (delete_dead_conn s dst)
delete_dead_conn-IsRegistry s dst v = elim (Option-cases (lookup dst s.conns)) [
  | inl e ↦ rw (delete_dead_conn_absent s dst e) v
  | inr (c, e) ↦ rw (delete_dead_conn_present s dst c e) (delete_both-IsRegistry s dst c v e)
]

pub remove_conn_by_conn_pointer-IsRegistry :
    (s : Server) (c : ConnId) → IsRegistry s → IsRegistry (remove_conn_by_conn_pointer s c)
remove_conn_by_conn_pointer-IsRegistry s c v = elim (Option-cases (lookup c s.conns_reverse)) [
  | inl e ↦ rw (remove_conn_by_conn_pointer_absent s c e) (record {
    inverse = λ p d h. ground (arith, v.inverse p d, lookup-delete c p s.conns_reverse);
    streams = v.streams;
  })
  | inr (dst, e) ↦
      rw (remove_conn_by_conn_pointer_present s c dst e)
        (delete_both-IsRegistry s dst c v (v.inverse c dst e))
]

pub set_conns-IsRegistry :
    (s : Server) (dst : Bytes) (c : ConnId)
    → IsRegistry s
    → (s.heap c).conn ≢ none
    → IsRegistry (set_conns dst (some c) s).1
set_conns-IsRegistry s dst c v has_stream = elim (Option-cases (lookup dst s.conns)) [
  | inr (o, e) ↦ rw (set_conns_taken s dst (some c) o v e) v
  | inl e ↦ rw (set_conns_new s dst c e) (record {
    inverse = λ p d h. ground (
      arith,
      v.inverse p d,
      lookup-insert c p dst s.conns_reverse,
      lookup-insert dst d c s.conns,
    );
    streams = λ d p h. elim (bytes_discrete dst d) [
      | yes same ↦ rw (← registered dst d c p s same h) has_stream
      | no other ↦ v.streams d p (ground (arith, lookup-insert dst d c s.conns))
    ];
  })
]
  where
    registered :
        (dst d : Bytes) (c p : ConnId) (s : Server)
        → dst ≡ d
        → lookup d (insert dst c s.conns) ≡ some p
        → c ≡ p
    registered dst d c p s same h = ground (arith, lookup-insert dst d c s.conns)
