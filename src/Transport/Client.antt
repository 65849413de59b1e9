-- ===== src/Transport/Client.antt =====
-- transport/client.go: which connection a message goes over, and the pings. `GetConnPort` of
-- transport/client_conn.go.
pub mod Balance
pub mod Start
pub mod Pings
use qtun.Base.{
  Bool, ℕ, ◌+◌, ◌-◌, ◌%◌, ◌^◌, Option, none, some, List, ◌∷◌, ◌++◌, ltb, ◌==◌, if◌then◌else◌,
  length, get_elem?, Bytes, text, index_out_of_range, divide_by_zero, raised, Result, ok, err,
  panic, Action, ◌>>◌, pure, [],
}
use qtun.Protocol.{MessagePing, envelope_ping, Codec}

-- What the client uses of a `ClientConn`: the text of its session's local address, and what becomes
-- of a send on its `chanWrite`, a channel without a place.
pub record ClientConn : Type 0 where
  pub local_addr : Bytes
  -- A `writeProcess` comes to receive what is sent. If not, the sender waits for ever.
  pub receives : Bool

pub record Client : Type 0 where
  pub threads : ℕ
  -- A connection that could not be set up stays nil.
  pub conns : List (Option ClientConn)
  -- An int64, as its bit pattern.
  pub serial : ℕ
  -- What was handed to the write process of which connection, in order.
  pub handed : List (ℕ × Bytes)

abbrev pub ClientCall : Type 0 → Type 0
ClientCall A = Action Client (Unit {0}) A

-- `atomic.AddInt64(&c.serial, 1)`
abbrev pub next_serial : ℕ → ℕ
next_serial serial = (serial + 1) % 2 ^ 64

-- `int(serial) % c.threads` as an index: Go's remainder has the sign of the dividend, and a negative
-- index panics.
unfoldable pub next_index : ℕ → ℕ → Result (Unit {0}) ℕ
next_index serial threads =
    if threads == 0
    then panic divide_by_zero
    else if ltb serial (2 ^ 63)
    then ok (serial % threads)
    else if (2 ^ 64 - serial) % threads == 0
    then ok 0
    else panic index_out_of_range

-- `conn.Write(data)` for the connection at that index; a nil connection only logs a warning. The
-- error stands for a send that waits for ever, and so it does wherever it is passed on.
unfoldable pub write_at : ℕ → Bytes → ClientCall (Unit {0})
write_at next bytes c = elim (get_elem? c.conns next) [
  | none ↦ (panic index_out_of_range, c)
  | some none ↦ (ok tt, c)
  | some (some conn) ↦
      if conn.receives
      then (ok tt, record c { handed = c.handed ++ ((next, bytes) ∷ []) })
      else (err tt, c)
]

-- `Write`
unfoldable pub write : Bytes → ClientCall (Unit {0})
unfolding next_index
write bytes c =
    let c' : Client = record c { serial = next_serial c.serial } in
    elim (next_index c'.serial c.threads) [
      | ok next ↦ write_at next bytes c'
      | err e ↦ (err e, c')
      | panic p ↦ (panic p, c')
    ]

-- `WriteNow`
unfoldable pub write_now : Bytes → ClientCall (Unit {0})
write_now bytes c = if c.threads == 1 then write_at 0 bytes c else write bytes c

-- `strings.Split` at one byte.
unfoldable pub split_from : ℕ → Bytes → Bytes → List Bytes
split_from sep part [] = part ∷ []
split_from sep part (b ∷ bs) =
    let apart = split_from sep [] bs in
    let together = split_from sep (part ++ (b ∷ [])) bs in
    if b == sep then part ∷ apart else together

unfoldable pub split : ℕ → Bytes → List Bytes
unfolding split_from
split sep s = split_from sep [] s

unfoldable pub port_from : List Bytes → Result (Unit {0}) Bytes
port_from addr_pair =
    if ltb (length addr_pair) 3
    then panic raised
    else elim (get_elem? addr_pair 3) [ none ↦ panic index_out_of_range | some port ↦ ok port ]

-- `GetConnPort`, from the local address on.
unfoldable pub get_conn_port : Bytes → Result (Unit {0}) Bytes
unfolding port_from split
get_conn_port full_with_port = port_from (split b':' full_with_port)

-- What a ping is made of besides the connection: `config.Ip`, the outcome of `net.ParseCIDR` on it as
-- the text of the IP (`none` where it fails, which `POE` turns into a panic), and the time.
pub record PingEnv : Type 0 where
  pub config_ip : Bytes
  pub parsed_ip : Option Bytes
  pub now : ℕ

-- The message of `SendPing`.
unfoldable pub ping_message : PingEnv → Bytes → Bytes → MessagePing
ping_message env ip port = record {
  timestamp = env.now;
  local_addr = env.config_ip ++ (b':' ∷ port);
  local_private_addr = text "not_use";
  ip = ip;
  dc = text "client";
}

-- `SendPing`
unfoldable pub send_ping : Codec → PingEnv → ClientConn → ClientCall (Unit {0})
send_ping codec env conn c = elim env.parsed_ip [
  | none ↦ (panic raised, c)
  | some ip ↦ elim (get_conn_port conn.local_addr) [
    | ok port ↦
        write (codec.marshal (record { type = some (envelope_ping (ping_message env ip port)) })) c
    | err e ↦ (err e, c)
    | panic p ↦ (panic p, c)
  ]
]

unfoldable pub ping_each : Codec → PingEnv → List (Option ClientConn) → ClientCall (Unit {0})
ping_each codec env [] = pure tt
ping_each codec env (none ∷ more) = ping_each codec env more
ping_each codec env (some conn ∷ more) = send_ping codec env conn >> ping_each codec env more

-- `SendAllPing`
unfoldable pub send_all_ping : Codec → PingEnv → ClientCall (Unit {0})
unfolding ping_each
send_all_ping codec env c = ping_each codec env c.conns c
