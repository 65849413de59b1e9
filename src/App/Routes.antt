-- ===== src/App/Routes.antt =====
-- Dead connections in a route: what forgetting one changes.
use qtun.Base.{
  ℕ, zero, suc, ◌≤◌, ◌<◌, ◌≡◌, refl, ◌∙◌, inl, inr, Bool, true, false, not, ◌||◌, some, List, [],
  ◌∷◌, arith, Option-cases, length, get_elem?, Bytes, ℕ_key, bytes_key,
}
use qtun.Base.Map.{lookup, delete, lookup-delete}
use qtun.Transport.Server.{ConnId, Server, get_conns_by_addr, delete_dead_conn}
use qtun.Transport.Server.Registry.{delete_dead_conn_absent, delete_dead_conn_present}
use qtun.App.{Addrs, keys, is_dead}

-- Some address of the list leads to a connection that is not closed.
abbrev pub any_live : Server → List Bytes → Bool
any_live s [] = false
any_live s (a ∷ rest) = not (is_dead s a) || any_live s rest

-- A dead address that is taken off the registry leaves every address as dead or live as it was.
pub is_dead-delete_dead_conn :
    (s : Server) (a b : Bytes) → is_dead s a ≡ true → is_dead (delete_dead_conn s a) b ≡ is_dead s b
unfolding is_dead
is_dead-delete_dead_conn s a b h = elim (Option-cases (lookup a s.conns)) [
  | inl e ↦ rw (delete_dead_conn_absent s a e)
  | inr (c, e) ↦ rw (delete_dead_conn_present s a c e) (ground (arith, lookup-delete a b s.conns))
]

pub get_conns_by_addr-delete_dead_conn :
    (s : Server) (a b : Bytes) (c : ConnId)
    → get_conns_by_addr (delete_dead_conn s a) b ≡ some c
    → get_conns_by_addr s b ≡ some c
unfolding get_conns_by_addr delete_dead_conn
get_conns_by_addr-delete_dead_conn s a b c h = ground (arith, lookup-delete a b s.conns)

pub heap-delete_dead_conn : (s : Server) (a : Bytes) → (delete_dead_conn s a).heap ≡ s.heap
unfolding delete_dead_conn
heap-delete_dead_conn s a = ground arith

any_live-delete_dead_conn :
    (s : Server) (a : Bytes) (addrs : List Bytes)
    → is_dead s a ≡ true
    → any_live (delete_dead_conn s a) addrs ≡ any_live s addrs
any_live-delete_dead_conn s a [] h = refl
any_live-delete_dead_conn s a (b ∷ rest) h =
    ground (arith, is_dead-delete_dead_conn s a b h, any_live-delete_dead_conn s a rest h)

any_live-delete :
    (s : Server) (a : Bytes) (conns : Addrs)
    → is_dead s a ≡ true
    → any_live s (keys (delete a conns)) ≡ any_live s (keys conns)
unfolding delete
any_live-delete s a [] h = refl
any_live-delete s a ((b, u) ∷ rest) h = ground (arith, any_live-delete s a rest h)

-- So forgetting a dead address does not change whether the route has a live one.
pub any_live-forget :
    (s : Server) (a : Bytes) (conns : Addrs)
    → is_dead s a ≡ true
    → any_live (delete_dead_conn s a) (keys (delete a conns)) ≡ any_live s (keys conns)
any_live-forget s a conns h =
    any_live-delete_dead_conn s a (keys (delete a conns)) h ∙ any_live-delete s a conns h

pub length-keys-delete_le :
    (a : Bytes) (conns : Addrs) → length (keys (delete a conns)) ≤ length (keys conns)
unfolding delete
length-keys-delete_le a [] = omega arith
length-keys-delete_le a ((b, u) ∷ rest) = ground (arith, length-keys-delete_le a rest)

-- An address of the route makes the route shorter when it is deleted, and is found in it.
pub length-keys-delete :
    (a : Bytes) (conns : Addrs) (i : ℕ)
    → get_elem? (keys conns) i ≡ some a
    → length (keys (delete a conns)) < length (keys conns)
unfolding delete
length-keys-delete a [] i e = cc
length-keys-delete a ((b, u) ∷ rest) zero e = ground (arith, length-keys-delete_le a rest)
length-keys-delete a ((b, u) ∷ rest) (suc i) e =
    ground (arith, length-keys-delete a rest i e, length-keys-delete_le a rest)

pub lookup-get_elem? :
    (a : Bytes) (conns : Addrs) (i : ℕ)
    → get_elem? (keys conns) i ≡ some a
    → lookup a conns ≡ some tt
unfolding lookup
lookup-get_elem? a [] i e = cc
lookup-get_elem? a ((b, u) ∷ rest) zero e = ground arith
lookup-get_elem? a ((b, u) ∷ rest) (suc i) e = ground (arith, lookup-get_elem? a rest i e)

pub any_live-get_elem? :
    (s : Server) (a : Bytes) (addrs : List Bytes) (i : ℕ)
    → get_elem? addrs i ≡ some a
    → is_dead s a ≡ false
    → any_live s addrs ≡ true
any_live-get_elem? s a [] i e h = cc
any_live-get_elem? s a (b ∷ rest) zero e h = ground arith
any_live-get_elem? s a (b ∷ rest) (suc i) e h = ground (arith, any_live-get_elem? s a rest i e h)

pub get_elem?-lt {ℓ} :
    {A : Type ℓ} (xs : List A) (i : ℕ) → i < length xs → (x : A) × (get_elem? xs i ≡ some x)
get_elem?-lt [] i h = absurd (omega arith)
get_elem?-lt (x ∷ xs) zero h = (x, refl)
get_elem?-lt (x ∷ xs) (suc i) h = get_elem?-lt xs i (omega arith)

pub lookup-delete-some :
    (a b : Bytes) (conns : Addrs) → lookup a (delete b conns) ≡ some tt → lookup a conns ≡ some tt
lookup-delete-some a b conns h = ground (arith, lookup-delete b a conns)
