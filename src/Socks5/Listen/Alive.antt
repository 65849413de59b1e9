-- ===== src/Socks5/Listen/Alive.antt =====
-- No session panics, so none ends the program.
use qtun.Base.{
  ◌≡◌, refl, sym, ap, ◌∙◌, ◌⊎◌, inl, inr, none, some, List, [], ◌∷◌, ◌++◌, map, ◌==◌, arith, All,
  Bytes, ℕ, Result, ok, err, panic, fail, ◌>>◌, List-cases, ℕ_key, bytes_key,
}
use mathlib.Core.Path.{subst}
use qtun.Socks5.Wire.{
  AddrSpec, DialAddress, AuthContext, Request, SocksError, io, unrecognized_addr_type, address,
  destination_unread, blocked_by_rules, connect_failed, resolve_failed, unsupported_command,
}
use qtun.Socks5.Auth.{AuthMethods, new_auth_methods}
use qtun.Socks5.Serve.{
  Env, Session, log, dialed, resolved, dial_failure, reply, relay, dial_target, handle_connect,
  handle_bind, handle_associate, resolve_dest, rewritten, dispatch, handle_request, serve_request,
  serve_authenticated, serve_version, serve_conn,
}
use qtun.Socks5.Listen.{
  Incoming, of_call, resolve, new_env, Served, serve_one, serve, Round, no_listener, accepts,
  listen_and_serve, restart, start_socks5,
}
use qtun.Socks5.Listen.Returns.{
  IsReturn, and_then-IsReturn, wrapped-IsReturn, if-IsReturn, read_byte-wrapped,
  authenticate-IsReturn,
}
use qtun.Socks5.Listen.Requests.{
  Answering, new_request-IsReturn, reply-IsReturn, reply-then, relay-IsReturn, IsReturn-cases,
  rewritten_dest,
}

module _ (env : Env) (v : Answering env) where
  dial_target-IsReturn :
      (req : Request) (a : DialAddress) (s : Session) → IsReturn (dial_target env req a s).0
  unfolding dial_target
  dial_target-IsReturn req a s = elim (IsReturn-cases (env.dial a) (v.dials a)) [
    | inl (target, e) ↦
        let bound : AddrSpec = record {
          fqdn = [];
          ip = target.local_ip;
          port = target.local_port;
        } in
        ground (
          arith,
          reply-then 0 (some bound) (relay env target.stream) (log (dialed a) s)
              (λ t. relay-IsReturn env target.stream t),
        )
    | inr (msg, e) ↦ ground (
      arith,
      reply-then (dial_failure msg) none (fail {A = Unit {0}} (connect_failed req.dest_addr msg))
          (log (dialed a) s) (λ t. tt),
    )
  ]

  refused-IsReturn :
      (code : ℕ) (e : SocksError) (s : Session)
      → IsReturn ((reply code none >> fail {A = Unit {0}} e) s).0
  refused-IsReturn code e s = reply-then code none (fail e) s (λ t. tt)

  dispatch-IsReturn :
      (req : Request) (a : AddrSpec) (s : Session)
      → req.real_dest_addr ≡ some a
      → IsReturn (dispatch env req s).0
  unfolding dispatch handle_connect handle_bind handle_associate
  dispatch-IsReturn req a s e =
      if-IsReturn (req.command == 1) _ _ s
        (if-IsReturn (env.allow req) _ _ s (ground (arith, dial_target-IsReturn req (address a) s))
          (refused-IsReturn 2 (blocked_by_rules 1 req.dest_addr) s))
        (if-IsReturn (req.command == 2) _ _ s
          (if-IsReturn (env.allow req) _ _ s (reply-IsReturn 7 none s)
            (refused-IsReturn 2 (blocked_by_rules 2 req.dest_addr) s))
          (if-IsReturn (req.command == 3) _ _ s
            (if-IsReturn (env.allow req) _ _ s (reply-IsReturn 7 none s)
              (refused-IsReturn 2 (blocked_by_rules 3 req.dest_addr) s))
            (refused-IsReturn 7 (unsupported_command req.command) s)))

  resolve_dest-IsReturn : (req : Request) (s : Session) → IsReturn (resolve_dest env req s).0
  unfolding resolve_dest
  resolve_dest-IsReturn req s = elim (List-cases req.dest_addr.fqdn) [
    | inl e ↦ ground arith
    | inr (b, bs, e) ↦ elim (IsReturn-cases (env.resolve (b ∷ bs)) (v.resolves (b ∷ bs))) [
      | inl (ip, f) ↦ ground arith
      | inr (msg, f) ↦ ground (
        arith,
        reply-then 4 none (fail {A = Request} (resolve_failed (b ∷ bs) msg))
            (log (resolved (b ∷ bs)) s) (λ t. tt),
      )
    ]
  ]

  handle_request-IsReturn : (req : Request) (s : Session) → IsReturn (handle_request env req s).0
  unfolding handle_request
  handle_request-IsReturn req s = and_then-IsReturn _ _ (resolve_dest-IsReturn req s) (λ req' t.
      let (a, e) = rewritten_dest env req' in dispatch-IsReturn (rewritten env req') a t e)

  serve_request-IsReturn :
      (ctx : AuthContext) (r : Result SocksError Request × Session)
      → IsReturn r.0
      → IsReturn (serve_request env ctx r).0
  unfolding serve_request
  serve_request-IsReturn ctx (ok req, s) h =
      wrapped-IsReturn _ (handle_request env _ s) (handle_request-IsReturn _ s)
  serve_request-IsReturn ctx (err unrecognized_addr_type, s) h =
      refused-IsReturn 8 (destination_unread unrecognized_addr_type) s
  serve_request-IsReturn ctx (err e, s) h = tt
  serve_request-IsReturn ctx (panic p, s) h = h

  serve_conn-IsReturn :
      (methods : AuthMethods) (s : Session) → IsReturn (serve_conn env methods s).0
  unfolding serve_conn serve_version serve_authenticated
  serve_conn-IsReturn methods s = and_then-IsReturn _ _ (read_byte-wrapped io s.conn) (λ version t.
      if-IsReturn (version == 5) _ _ t
        (and_then-IsReturn _ _ (wrapped-IsReturn _ _ (authenticate-IsReturn methods t.conn))
          (λ ctx u. serve_request-IsReturn ctx _ (new_request-IsReturn u.conn)))
        tt)

new_env-Answering : (i : Incoming) → Answering (new_env i)
unfolding new_env resolve
new_env-Answering i = record {
  resolves = λ name. of_call-IsReturn (i.resolve_ip_addr name);
  dials = λ a. of_call-IsReturn (i.dial a);
}
  where
    of_call-IsReturn : {A : Type 0} (r : Bytes ⊎ A) → IsReturn (of_call r)
    of_call-IsReturn (inl e) = tt
    of_call-IsReturn (inr a) = tt

-- The connections that were accepted, over all rounds.
abbrev pub accepted : List Round → List Incoming
accepted [] = []
accepted (no_listener ∷ more) = accepted more
accepted (accepts incoming ∷ more) = incoming ++ accepted more

serve-append :
    (methods : AuthMethods) (is js : List Incoming)
    → serve methods is ++ map (serve_one methods) js ≡ map (serve_one methods) (is ++ js)
unfolding serve
serve-append methods [] js = refl
serve-append methods (i ∷ is) js = ap (◌∷◌ (serve_one methods i)) (serve-append methods is js)

restart-map :
    (methods : AuthMethods) (rounds : List Round)
    → restart methods rounds ≡ map (serve_one methods) (accepted rounds)
unfolding restart listen_and_serve
restart-map methods [] = refl
restart-map methods (no_listener ∷ more) = restart-map methods more
restart-map methods (accepts is ∷ more) =
    ap (λ (l : List Served). serve methods is ++ l) (restart-map methods more)
    ∙ serve-append methods is (accepted more)

serve_one-All :
    (methods : AuthMethods) (is : List Incoming)
    → All (λ r. IsReturn r.0) (map (serve_one methods) is)
serve_one-All methods [] = tt
serve_one-All methods (i ∷ is) = (
  serve_conn-IsReturn (new_env i) (new_env-Answering i) methods
      (record { conn = i.conn; events = [] }),
  serve_one-All methods is,
)

-- However often the listener cannot be opened or breaks, and whatever the clients send, whichever of
-- their reads and writes fail, and whatever resolving and dialing give: `StartSocks5` serves each
-- connection that was accepted, once and with the settings of `New`, and none of these sessions
-- panics, which would end the program.
pub start_socks5-All :
    (rounds : List Round)
    → (start_socks5 rounds ≡ map (serve_one (new_auth_methods [] none)) (accepted rounds))
      × All (λ r. IsReturn r.0) (start_socks5 rounds)
unfolding start_socks5
start_socks5-All rounds =
    let same = restart-map (new_auth_methods [] none) rounds in
    (
      same,
      subst (All (λ r. IsReturn r.0)) (sym same)
          (serve_one-All (new_auth_methods [] none) (accepted rounds)),
    )
