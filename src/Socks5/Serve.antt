-- ===== src/Socks5/Serve.antt =====
-- socks5/socks5.go `ServeConn` and socks5/request.go `handleRequest` with its handlers. Name
-- resolution, dialing, the rules and the rewriter are the environment's.
pub mod Laws
pub mod Relay
pub mod Whole
use qtun.Base.{
  take, drop, ℕ, Bool, true, false, ◌&&◌, ◌||◌, Option, none, some, List, ◌∷◌, ◌++◌, ◌==◌,
  if◌then◌else◌, Bytes, text, nil_dereference, Result, ok, err, panic, Action, ◌>>◌, fail, wrap, [],
  ◌>>=◌,
}
use qtun.Stream.{Stream, IoError, eof, unexpected_eof, failed, read_byte, write}
use qtun.Socks5.Wire.{
  socks5_version, connect_command, bind_command, associate_command, success_reply, rule_failure,
  network_unreachable, host_unreachable, connection_refused, command_not_supported,
  addr_type_not_supported, AddrSpec, DialAddress, address, AuthContext, Request, SocksError, io,
  unrecognized_addr_type, send_reply_failed, resolve_failed, unsupported_command, blocked_by_rules,
  connect_failed, unsupported_socks_version, authenticate_failed, destination_unread, handle_failed,
}
use qtun.Socks5.Address.{new_request, send_reply}
use qtun.Socks5.Auth.{AuthMethods, authenticate}

-- What a successful dial gives: the local address, and the connection.
pub record Target : Type 0 where
  pub local_ip : Bytes
  pub local_port : ℕ
  pub stream : Stream

pub record Env : Type 0 where
  -- `Resolver.Resolve`; an error is its text.
  pub resolve : Bytes → Result Bytes Bytes
  -- `Rules.Allow`
  pub allow : Request → Bool
  -- `Rewriter.Rewrite`, if there is a rewriter.
  pub rewrite : Option (Request → AddrSpec)
  -- `Dial`; an error is its text.
  pub dial : DialAddress → Result Bytes Target
  -- `conn.RemoteAddr()`, if it is a TCP address.
  pub remote_addr : Option AddrSpec
  -- Which of the two copies of a session ends first.
  pub up_first : Bool
  -- How many bytes the other copy gets across, if the one that ends first reports an error.
  pub cut_at : ℕ

-- The two sides of a connect.
pub data Side : Type 0 where
  client_side target_side : Side

-- What the server does to others than the client, and how the copies end.
pub data Event : Type 0 where
  resolved : Bytes → Event
  dialed : DialAddress → Event
  -- `CloseWrite` behind a copy to that side.
  closed_write : Side → Event
  -- The target's connection after the copies.
  relayed : Stream → Event

pub record Session : Type 0 where
  pub conn : Stream
  pub events : List Event

abbrev pub Serving : Type 0 → Type 0
Serving A = Action Session SocksError A

abbrev pub on_conn : {A : Type 0} → Action Stream SocksError A → Serving A
on_conn m s = let out = m s.conn in (out.0, record s { conn = out.1 })

abbrev pub log : Event → Session → Session
log e s = record s { events = s.events ++ (e ∷ []) }

-- `if err := sendReply(…); err != nil { return fmt.Errorf("Failed to send reply: %v", err) }`
abbrev pub reply : ℕ → Option AddrSpec → Serving (Unit {0})
reply code addr = on_conn (wrap send_reply_failed (send_reply code addr))

abbrev pub is_prefix : Bytes → Bytes → Bool
is_prefix [] ys = true
is_prefix (x ∷ xs) [] = false
is_prefix (x ∷ xs) (y ∷ ys) = (x == y) && is_prefix xs ys

-- `strings.Contains(s, substr)`
unfoldable pub contains : Bytes → Bytes → Bool
contains [] sub = is_prefix sub []
contains (x ∷ xs) sub = is_prefix sub (x ∷ xs) || contains xs sub

-- The reply code for a failed dial.
unfoldable pub dial_failure : Bytes → ℕ
dial_failure msg =
    if contains msg (text "refused")
    then connection_refused
    else if contains msg (text "network is unreachable")
    then network_unreachable
    else host_unreachable

-- What `io.Copy` reports where the writes succeed: the end of the source is no error.
abbrev pub copied : IoError → Result IoError (Unit {0})
copied eof = ok tt
copied unexpected_eof = err unexpected_eof
copied (failed m) = err (failed m)

abbrev pub pass_on : Result IoError (Unit {0}) → IoError → Result IoError (Unit {0})
pass_on (ok _) ending = copied ending
pass_on (err e) ending = err e
pass_on (panic p) ending = panic p

-- `io.Copy(dst, src)` of `proxy`: the outcome, the destination, and the source.
unfoldable pub copy : Stream → Stream → Result IoError (Unit {0}) × Stream × Stream
copy dst src = elim src.input [
  | [] ↦ (copied src.ending, dst, src)
  | b ∷ bs ↦
      let out = write (b ∷ bs) dst in (pass_on out.0 src.ending, out.1, record src { input = [] })
]

-- The same, cut off after some of the bytes: the streams are closed under it.
unfoldable pub cut_copy : ℕ → Stream → Stream → Stream × Stream
cut_copy n dst src = elim (take n src.input) [
  | [] ↦ (dst, src)
  | b ∷ bs ↦ ((write (b ∷ bs) dst).1, record src { input = drop n src.input })
]

abbrev pub as_io : Result IoError (Unit {0}) → Result SocksError (Unit {0})
as_io (ok _) = ok tt
as_io (err e) = err (io e)
as_io (panic p) = panic p

-- The wait for the two copies. The first error ends it, and with it both connections, and so the other
-- copy.
unfoldable pub relay : Env → Stream → Serving (Unit {0})
unfolding copy cut_copy
relay env target s =
    if env.up_first
    then (let (ended, target', conn') = copy target s.conn in
        let (later, conn'', target'') = copy conn' target' in
        let (conn_cut, target_cut) = cut_copy env.cut_at conn' target' in
        let t : Session = log (closed_write target_side) s in
        elim ended [
          | ok _ ↦ (
            as_io later,
            log (relayed target'') (log (closed_write client_side) (record t { conn = conn'' })),
          )
          | err e ↦ (err (io e), log (relayed target_cut) (record t { conn = conn_cut }))
          | panic p ↦ (panic p, log (relayed target_cut) (record t { conn = conn_cut }))
        ])
    else (let (ended, conn', target') = copy s.conn target in
        let (later, target'', conn'') = copy target' conn' in
        let (target_cut, conn_cut) = cut_copy env.cut_at target' conn' in
        let t : Session = log (closed_write client_side) s in
        elim ended [
          | ok _ ↦ (
            as_io later,
            log (relayed target'') (log (closed_write target_side) (record t { conn = conn'' })),
          )
          | err e ↦ (err (io e), log (relayed target_cut) (record t { conn = conn_cut }))
          | panic p ↦ (panic p, log (relayed target_cut) (record t { conn = conn_cut }))
        ])

unfoldable pub dial_target : Env → Request → DialAddress → Serving (Unit {0})
unfolding relay dial_failure
dial_target env req addr s = elim (env.dial addr) [
  | ok target ↦
      (reply success_reply
            (some (record { fqdn = []; ip = target.local_ip; port = target.local_port }))
          >> relay env target.stream)
        (log (dialed addr) s)
  | err msg ↦
      (reply (dial_failure msg) none >> fail (connect_failed req.dest_addr msg))
        (log (dialed addr) s)
  | panic p ↦ (panic p, log (dialed addr) s)
]

-- `handleConnect`
unfoldable pub handle_connect : Env → Request → Serving (Unit {0})
handle_connect env req =
    if env.allow req
    then elim req.real_dest_addr [
      | none ↦ λ s. (panic nil_dereference, s)
      | some a ↦ dial_target env req (address a)
    ]
    else reply rule_failure none >> fail (blocked_by_rules connect_command req.dest_addr)

-- `handleBind`
unfoldable pub handle_bind : Env → Request → Serving (Unit {0})
handle_bind env req =
    if env.allow req
    then reply command_not_supported none
    else reply rule_failure none >> fail (blocked_by_rules bind_command req.dest_addr)

-- `handleAssociate`
unfoldable pub handle_associate : Env → Request → Serving (Unit {0})
handle_associate env req =
    if env.allow req
    then reply command_not_supported none
    else reply rule_failure none >> fail (blocked_by_rules associate_command req.dest_addr)

-- The address of a name is filled in.
unfoldable pub resolve_dest : Env → Request → Serving Request
resolve_dest env req s = elim req.dest_addr.fqdn [
  | [] ↦ (ok req, s)
  | b ∷ bs ↦ elim (env.resolve (b ∷ bs)) [
    | ok ip ↦ (
      ok (record req { dest_addr = record req.dest_addr { ip = ip } }),
      log (resolved (b ∷ bs)) s,
    )
    | err msg ↦
        (reply host_unreachable none >> fail (resolve_failed (b ∷ bs) msg))
          (log (resolved (b ∷ bs)) s)
    | panic p ↦ (panic p, log (resolved (b ∷ bs)) s)
  ]
]

abbrev pub rewritten : Env → Request → Request
rewritten env req =
    let plain : Request = record req { real_dest_addr = some req.dest_addr } in
    elim env.rewrite [ none ↦ plain | some f ↦ record req { real_dest_addr = some (f plain) } ]

unfoldable pub dispatch : Env → Request → Serving (Unit {0})
unfolding handle_connect handle_bind handle_associate
dispatch env req =
    if req.command == connect_command
    then handle_connect env req
    else if req.command == bind_command
    then handle_bind env req
    else if req.command == associate_command
    then handle_associate env req
    else reply command_not_supported none >> fail (unsupported_command req.command)

-- `handleRequest`
unfoldable pub handle_request : Env → Request → Serving (Unit {0})
handle_request env req = do req' ← resolve_dest env req; dispatch env (rewritten env req')

-- What `ServeConn` does with the outcome of `NewRequest`.
unfoldable pub serve_request :
    Env → AuthContext → Result SocksError Request × Session → Result SocksError (Unit {0}) × Session
serve_request env ctx (ok req, s) =
    wrap handle_failed
      (handle_request env (record req { auth_context = some ctx; remote_addr = env.remote_addr })) s
serve_request env ctx (err unrecognized_addr_type, s) =
    (reply addr_type_not_supported none >> fail (destination_unread unrecognized_addr_type)) s
serve_request env ctx (err e, s) = (err (destination_unread e), s)
serve_request env ctx (panic p, s) = (panic p, s)

unfoldable pub serve_authenticated : Env → AuthContext → Serving (Unit {0})
serve_authenticated env ctx s = serve_request env ctx (on_conn new_request s)

unfoldable pub serve_version : Env → AuthMethods → ℕ → Serving (Unit {0})
serve_version env methods version =
    if version == socks5_version
    then (do
      ctx ← on_conn (wrap authenticate_failed (authenticate methods))
      serve_authenticated env ctx)
    else fail (unsupported_socks_version version)

-- `ServeConn`; the logging and the deferred `Close` are left out.
unfoldable pub serve_conn : Env → AuthMethods → Serving (Unit {0})
serve_conn env methods = do version ← on_conn (wrap io read_byte); serve_version env methods version
