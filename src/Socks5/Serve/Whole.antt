-- ===== src/Socks5/Serve/Whole.antt =====
-- `ServeConn` as a whole, for the server that `StartSocks5` runs: no credentials, no authenticators
-- of its own.
use qtun.Base.{
  ℕ, ◌^◌, ◌<◌, ◌≡◌, refl, ◌≢◌, ite, true, none, some, [], ◌∷◌, ◌++◌, arith, ℕ_discrete, length, All,
  Bytes, ℕ_key, bytes_key, ok, wrapped,
}
use qtun.Stream.{Stream, eof, read_byte}
use qtun.Socks5.Wire.{ip_port, address, Request, handle_failed}
use qtun.Socks5.Auth.{
  no_auth_authenticator, authenticate_none, run_authenticator, AuthMethods, authenticate,
  new_auth_methods,
}
use qtun.Socks5.Serve.{
  Target, Env, dialed, relayed, Session, dial_target, resolve_dest, rewritten, dispatch,
  handle_request, serve_request, serve_authenticated, serve_version, serve_conn,
}
use qtun.Socks5.Address.Read.{Host, v4, encode, spec, encode_request, request, new_request-encode}
use qtun.Socks5.Auth.Laws.{authenticate-first}
use qtun.Base.Map.{lookup, lookup-insert}
use qtun.Socks5.Serve.Relay.{ends, IsLocal, dial_target-relays, write-fine}

-- `New(&Config{})`
abbrev pub open_methods : AuthMethods
open_methods = new_auth_methods [] none

lookup-open_methods :
    (m : ℕ) → lookup m open_methods ≡ ite (ℕ_discrete 0 m) (some no_auth_authenticator) none
unfolding new_auth_methods lookup
lookup-open_methods m = ground (arith, lookup-insert 0 m no_auth_authenticator [])

authenticate-open :
    (before after rest : Bytes) (s : Stream)
    → All (λ m. m ≢ 0) before
    → s.faults ≡ []
    → let methods = before ++ (0 ∷ after) in
      s.input ≡ length methods ∷ (methods ++ rest)
      → authenticate open_methods s ≡ (
        ok (record { method = 0; username = none }),
        record s { input = rest; output = s.output ++ (5 ∷ 0 ∷ []) },
      )
unfolding run_authenticator authenticate_none
authenticate-open before after rest s others fine e = ground (
  arith,
  authenticate-first open_methods before after rest 0 no_auth_authenticator s
      (unknown before others) (ground (arith, lookup-open_methods 0)) e,
  write-fine (5 ∷ 0 ∷ []) (record s { input = rest }) fine,
)
  where
    unknown : (ms : Bytes) → All (λ m. m ≢ 0) ms → All (λ m. lookup m open_methods ≡ none) ms
    unknown [] h = tt
    unknown (m ∷ ms) (h, hs) = (ground (arith, lookup-open_methods m), unknown ms hs)

-- A connect to an IP that the rules allow, with no rewriter, dials that IP and port.
handle_request-connect :
    (env : Env) (a b c d : ℕ) (port : ℕ) (req : Request) (s : Session)
    → env.rewrite ≡ none
    → env.allow (rewritten env req) ≡ true
    → req.command ≡ 1
    → req.dest_addr ≡ spec (v4 (a ∷ b ∷ c ∷ d ∷ [])) port
    → handle_request env req s
      ≡ dial_target env (rewritten env req) (ip_port (a ∷ b ∷ c ∷ d ∷ []) port) s
unfolding handle_request resolve_dest dispatch address
handle_request-connect env a b c d port req s plain allowed one dest = ground arith

-- What the client of `whole` sends: the version, its methods, and a connect to an IPv4 address.
abbrev pub client_bytes : Bytes → Bytes → ℕ → Host → ℕ → Bytes → Bytes
client_bytes before after reserved h port payload =
    let methods = before ++ (0 ∷ after) in
    5 ∷ length methods ∷ (methods ++ (encode_request 1 reserved h port ++ payload))

-- The request that the rules see.
abbrev pub seen : Env → Host → ℕ → Request
seen env h port = rewritten env (record (request 1 h port) {
  auth_context = some (record { method = 0; username = none });
  remote_addr = env.remote_addr;
})

serve_authenticated-connect :
    (env : Env) (reserved a b c d port : ℕ) (payload : Bytes) (s : Session)
    → port < 2 ^ 16
    → env.rewrite ≡ none
    → env.allow (seen env (v4 (a ∷ b ∷ c ∷ d ∷ [])) port) ≡ true
    → s.conn.input ≡ encode_request 1 reserved (v4 (a ∷ b ∷ c ∷ d ∷ [])) port ++ payload
    → serve_authenticated env (record { method = 0; username = none }) s
      ≡ wrapped handle_failed (
          dial_target env
            (seen env (v4 (a ∷ b ∷ c ∷ d ∷ [])) port)
            (ip_port (a ∷ b ∷ c ∷ d ∷ []) port)
            (record s { conn = record s.conn { input = payload } }))
unfolding serve_authenticated serve_request
serve_authenticated-connect env reserved a b c d port payload s small plain allowed e =
    let h : Host = v4 (a ∷ b ∷ c ∷ d ∷ []) in
    let req : Request = record (request 1 h port) {
      auth_context = some (record { method = 0; username = none });
      remote_addr = env.remote_addr;
    } in
    ground (
      arith,
      new_request-encode 1 reserved h port payload s.conn refl small e,
      handle_request-connect env a b c d port req
          (record s { conn = record s.conn { input = payload } }) plain allowed refl refl,
    )

-- A whole session with the server that `StartSocks5` runs. A client that offers method 0 anywhere
-- in its list, and asks for a connect to an IPv4 address that the rules allow, is told 5, 0, then
-- 5, 0, 0 with the local address of the connection that was dialed, then all that the target says;
-- the target is sent all that the client said behind its request, and the dialed address is the one
-- that was asked for. Each side is told by `CloseWrite` that no more comes, in the order in which
-- the copies end. The dial succeeds, no write fails, and both sides end with EOF.
pub serve_conn-connect :
    (env : Env) (before after payload : Bytes) (reserved a b c d port : ℕ) (t : Target)
    (local : Host) (local_port : ℕ) (s : Session)
    → All (λ m. m ≢ 0) before
    → port < 2 ^ 16
    → env.rewrite ≡ none
    → env.allow (seen env (v4 (a ∷ b ∷ c ∷ d ∷ [])) port) ≡ true
    → env.dial (ip_port (a ∷ b ∷ c ∷ d ∷ []) port) ≡ ok t
    → IsLocal local local_port t
    → s.conn.faults ≡ []
    → t.stream.faults ≡ []
    → s.conn.ending ≡ eof
    → t.stream.ending ≡ eof
    → s.conn.input ≡ client_bytes before after reserved (v4 (a ∷ b ∷ c ∷ d ∷ [])) port payload
    → serve_conn env open_methods s ≡ (
      ok tt,
      record s {
        conn = record s.conn {
          input = [];
          output =
              (s.conn.output ++ (5 ∷ 0 ∷ []))
              ++ (5 ∷ 0 ∷ 0 ∷ encode local local_port)
              ++ t.stream.input;
        };
        events =
            s.events
            ++ (dialed (ip_port (a ∷ b ∷ c ∷ d ∷ []) port) ∷ [])
            ++ ends env.up_first
            ++ (relayed (record t.stream { input = []; output = t.stream.output ++ payload }) ∷ []);
      },
    )
unfolding serve_conn serve_version read_byte
serve_conn-connect env before after payload reserved a b c d port t local local_port s others small
      plain allowed dials at_local fine tfine end tend e =
    let h : Host = v4 (a ∷ b ∷ c ∷ d ∷ []) in
    let methods : Bytes = before ++ (0 ∷ after) in
    let behind : Bytes = encode_request 1 reserved h port ++ payload in
    let c1 : Stream = record s.conn { input = length methods ∷ (methods ++ behind) } in
    let c2 : Stream = record c1 { input = behind; output = s.conn.output ++ (5 ∷ 0 ∷ []) } in
    ground (
      arith,
      authenticate-open before after behind c1 others fine refl,
      serve_authenticated-connect env reserved a b c d port payload (record s { conn = c2 }) small
          plain allowed refl,
      dial_target-relays env (seen env h port) (ip_port (a ∷ b ∷ c ∷ d ∷ []) port) t local
          local_port (record s { conn = record c2 { input = payload } }) dials at_local fine tfine
          end tend,
    )
