-- ===== src/Socks5/Listen.antt =====
-- socks5/init.go, socks5/resolver.go, and `New`, `ListenAndServe` and `Serve` of socks5/socks5.go:
-- which connections are served, and with which settings.
pub mod Returns
pub mod Requests
pub mod Alive
use qtun.Base.{ℕ, ◌⊎◌, inl, inr, Bool, Option, none, List, [], ◌∷◌, ◌++◌, Bytes, Result, ok, err}
use qtun.Stream.{Stream}
use qtun.Socks5.Wire.{AddrSpec, DialAddress, SocksError}
use qtun.Socks5.Auth.{AuthMethods, new_auth_methods}
use qtun.Socks5.Rules.{permit_all, allow}
use qtun.Socks5.Serve.{Target, Env, Session, serve_conn}

-- A connection that `Accept` gives, and what Go's `net` does for it: `ResolveIPAddr` and `Dial`, an
-- error being its text.
pub record Incoming : Type 0 where
  pub conn : Stream
  pub remote_addr : Option AddrSpec
  pub resolve_ip_addr : Bytes → Bytes ⊎ Bytes
  pub dial : DialAddress → Bytes ⊎ Target
  pub up_first : Bool
  pub cut_at : ℕ

abbrev pub of_call {ℓ} : {A : Type ℓ} → Bytes ⊎ A → Result Bytes A
of_call (inl e) = err e
of_call (inr a) = ok a

-- `Resolve` of `DNSResolver`
unfoldable pub resolve : (Bytes → Bytes ⊎ Bytes) → Bytes → Result Bytes Bytes
resolve resolve_ip_addr name = of_call (resolve_ip_addr name)

-- What `New(&Config{})` fills in: the resolver of the system, rules that permit everything, no
-- rewriter; and `net.Dial` where the configuration has no `Dial`.
unfoldable pub new_env : Incoming → Env
unfolding resolve
new_env i = record {
  resolve = resolve i.resolve_ip_addr;
  allow = allow permit_all;
  rewrite = none;
  dial = λ a. of_call (i.dial a);
  remote_addr = i.remote_addr;
  up_first = i.up_first;
  cut_at = i.cut_at;
}

abbrev pub Served : Type 0
Served = Result SocksError (Unit {0}) × Session

-- `go s.ServeConn(conn)`
abbrev pub serve_one : AuthMethods → Incoming → Served
serve_one methods i = serve_conn (new_env i) methods (record { conn = i.conn; events = [] })

-- `Serve`, until `Accept` fails: the outcomes of the goroutines that it starts.
unfoldable pub serve : AuthMethods → List Incoming → List Served
serve methods [] = []
serve methods (i ∷ more) = serve_one methods i ∷ serve methods more

-- One call of `ListenAndServe`: `net.Listen` fails, or connections come until `Accept` fails.
pub data Round : Type 0 where
  no_listener : Round
  accepts : List Incoming → Round

unfoldable pub listen_and_serve : AuthMethods → Round → List Served
unfolding serve
listen_and_serve methods no_listener = []
listen_and_serve methods (accepts incoming) = serve methods incoming

-- The loop of `StartSocks5`.
unfoldable pub restart : AuthMethods → List Round → List Served
unfolding listen_and_serve
restart methods [] = []
restart methods (round ∷ more) = listen_and_serve methods round ++ restart methods more

-- `StartSocks5`, for which `New` never fails.
unfoldable pub start_socks5 : List Round → List Served
unfolding restart
start_socks5 rounds = restart (new_auth_methods [] none) rounds
