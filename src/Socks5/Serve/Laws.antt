-- ===== src/Socks5/Serve/Laws.antt =====
-- Who is contacted on whose behalf, and what the client is told.
use qtun.Base.{
  ℕ, ◌≡◌, refl, ap, ◌∙◌, ◌≢◌, ◌⊎◌, inl, inr, true, false, not, ◌&&◌, none, [], ◌∷◌, ◌++◌, arith,
  leb, ◌==◌, if◌then◌else◌, ==_iff, Bool-cases, Bytes, ℕ_key, bytes_key, Result, ok, err, panic,
}
use qtun.Stream.{Stream, IoError, read_byte, write}
use qtun.Stream.Laws.{read_byte-eq-ok}
use qtun.Socks5.Wire.{
  socks5_version, connect_command, rule_failure, command_not_supported, DialAddress, AuthContext,
  Request, SocksError, connect_failed,
}
use qtun.Socks5.Address.{send_reply}
use qtun.Socks5.Auth.{CredentialStore, AuthMethods, authenticate}
use qtun.Socks5.Serve.{
  Env, dialed, Session, log, reply, dial_failure, dial_target, dispatch, serve_version, serve_conn,
}
use qtun.Socks5.Auth.Guarded.{guarded, opening, authenticate-guarded}

-- A session in which nobody has been contacted yet, or one that went through `authenticate`.
serve_version-events :
    (env : Env) (methods : AuthMethods) (version : ℕ) (s : Session)
    → ((serve_version env methods version s).1.events ≡ s.events)
      ⊎ ((version ≡ socks5_version)
          × (ctx : AuthContext) × (s2 : Stream) × (authenticate methods s.conn ≡ (ok ctx, s2)))
unfolding serve_version
serve_version-events env methods version s = elim (Bool-cases (version == socks5_version)) [
  | inr other ↦ inl (ground arith)
  | inl same ↦ by_auth (authenticate methods s.conn) refl ((==_iff version socks5_version).0 same)
]
  where
    by_auth :
        (out : Result SocksError AuthContext × Stream)
        → authenticate methods s.conn ≡ out
        → version ≡ socks5_version
        → ((serve_version env methods version s).1.events ≡ s.events)
          ⊎ ((version ≡ socks5_version)
              × (ctx : AuthContext) × (s2 : Stream) × (authenticate methods s.conn ≡ (ok ctx, s2)))
    by_auth (ok ctx, s2) e five = inr (five, ctx, s2, e)
    by_auth (err x, s2) e five = inl (ground arith)
    by_auth (panic p, s2) e five = inl (ground arith)

-- Whatever the client sends, and whichever reads and writes fail: `ServeConn` resolves no name,
-- dials nobody and relays nothing, unless the client's first byte is the version and `authenticate`
-- has let it through on what follows.
pub serve_conn-events :
    (env : Env) (methods : AuthMethods) (s : Session)
    → ((serve_conn env methods s).1.events ≡ s.events)
      ⊎ ((ctx : AuthContext) × (s1 s2 : Stream) × (s.conn.input ≡ socks5_version ∷ s1.input)
          × (authenticate methods s1 ≡ (ok ctx, s2)))
unfolding serve_conn
serve_conn-events env methods s = by_version (read_byte s.conn) refl
  where
    by_version :
        (out : Result IoError ℕ × Stream)
        → read_byte s.conn ≡ out
        → ((serve_conn env methods s).1.events ≡ s.events)
          ⊎ ((ctx : AuthContext) × (s1 s2 : Stream) × (s.conn.input ≡ socks5_version ∷ s1.input)
              × (authenticate methods s1 ≡ (ok ctx, s2)))
    by_version (ok version, t) e =
        elim (serve_version-events env methods version (record s { conn = t })) [
          | inl same ↦ inl (ground arith)
          | inr (five, ctx, s2, passed) ↦
              inr (ctx, t, s2, read_byte-eq-ok s.conn e ∙ ap (λ v. v ∷ t.input) five, passed)
        ]
    by_version (err x, t) e = inl (ground arith)
    by_version (panic p, t) e = inl (ground arith)

-- A server made by `New` with a store of credentials, and no authenticators of its own, contacts
-- nobody (resolves no name, dials nobody, relays nothing) for a client, unless what the client sent
-- begins with the version, a list of methods and a pair that the store accepts: whatever else it
-- sends, and whichever reads and writes fail.
pub serve_conn-guarded :
    (env : Env) (valid : CredentialStore) (s : Session)
    → ((serve_conn env (guarded valid) s).1.events ≡ s.events)
      ⊎ ((methods user pass rest : Bytes) × (valid user pass ≡ true)
          × (s.conn.input ≡ socks5_version ∷ (opening methods user pass ++ rest)))
serve_conn-guarded env valid s = elim (serve_conn-events env (guarded valid) s) [
  | inl same ↦ inl same
  | inr (ctx, s1, s2, first, passed) ↦
      let (methods, user, pass, let_in, sent) = authenticate-guarded valid s1 s2 ctx passed in
      inr (methods, user, pass, s2.input, let_in.0, first ∙ ap (◌∷◌ socks5_version) sent)
]

-- The bytes of a reply that names no address.
abbrev pub short_reply : ℕ → Bytes
short_reply code = 5 ∷ code ∷ 0 ∷ 1 ∷ 0 ∷ 0 ∷ 0 ∷ 0 ∷ 0 ∷ 0 ∷ []

-- A session after a write.
abbrev pub told : Session → Bytes → Session
told s bytes = record s { conn = record s.conn { output = s.conn.output ++ bytes } }

reply-none :
    (code : ℕ) (s : Session)
    → s.conn.faults ≡ []
    → reply code none s ≡ (ok tt, told s (short_reply code))
unfolding send_reply write
reply-none code s fine = ground arith

-- Requests that are not carried out, on a connection whose writes succeed: a request that the rules
-- refuse is answered 2, one for an unknown command 7, and an allowed bind or associate 7 as well;
-- nobody is contacted.
pub dispatch-refused :
    (env : Env) (req : Request) (s : Session)
    → s.conn.faults ≡ []
    → (env.allow req ≡ false) ⊎ (req.command ≢ connect_command)
    → let known = leb 1 req.command && leb req.command 3 in
      (dispatch env req s).1 ≡ told s (short_reply (if known && not (env.allow req) then 2 else 7))
unfolding dispatch
dispatch-refused env req s fine (inl no_rule) =
    ground (arith, reply-none rule_failure s fine, reply-none command_not_supported s fine)
dispatch-refused env req s fine (inr other) =
    ground (arith, reply-none rule_failure s fine, reply-none command_not_supported s fine)

-- A dial that fails is answered by the code for its error, and the target address is the only one
-- that was contacted.
pub dial_target-failed :
    (env : Env) (req : Request) (addr : DialAddress) (msg : Bytes) (s : Session)
    → s.conn.faults ≡ []
    → env.dial addr ≡ err msg
    → dial_target env req addr s ≡ (
      err (connect_failed req.dest_addr msg),
      told (log (dialed addr) s) (short_reply (dial_failure msg)),
    )
unfolding dial_target
dial_target-failed env req addr msg s fine e =
    ground (arith, reply-none (dial_failure msg) (log (dialed addr) s) fine)
