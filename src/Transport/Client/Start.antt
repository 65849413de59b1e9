-- ===== src/Transport/Client/Start.antt =====
-- transport/client.go: `NewClient`, `Start`, `Stop`, `ConnectWait` and `SendPacket`, with
-- `tryConnect` and `InitConn` of transport/client_conn.go for a new connection. The ping goroutine
-- that `Start` leaves behind is `send_all_ping` again and again.
pub mod Slots
use qtun.Base.{
  ℕ, zero, suc, ◌+◌, ◌-◌, Bool, true, false, Option, none, some, List, [], ◌∷◌, ◌==◌, if◌then◌else◌,
  Bytes, ℕ_key, raised, nil_dereference, Result, ok, err, panic, Action, ◌>>◌, pure,
}
use qtun.Protocol.{envelope_packet, Codec}
use qtun.Iface.{PacketIp}
use qtun.Transport.Crypto.{Crypto, crypto}
use qtun.Transport.Client.{ClientConn, Client, ClientCall, write}

-- The QUIC library, for the connection of each index: the session of `DialAddr` as the text of its
-- local address, and whether `OpenStreamSync` opens a stream on it.
pub record Network : Type 0 where
  pub dial_addr : ℕ → Result (Unit {0}) Bytes
  pub opens_stream : ℕ → Bool
  -- And whether the stream and the session last, so that the `writeProcess` of the connection goes on
  -- receiving.
  pub lasts : ℕ → Bool

-- A `ClientConn` while it is set up. The address is empty until there is a session.
pub record NewConn : Type 0 where
  pub local_addr : Bytes
  pub has_stream : Bool
  pub connected : Bool

-- `NewClientConn`
abbrev pub new_client_conn : NewConn
new_client_conn = record { local_addr = []; has_stream = false; connected = false }

-- `NewClient`
unfoldable pub new_client : ℕ → Client
new_client threads = record { threads = threads; conns = []; serial = 0; handed = [] }

-- `SendPacket` of the client.
unfoldable pub send_packet : Codec → PacketIp → ClientCall (Unit {0})
send_packet codec pkt c =
    write (codec.marshal (record { type = some (envelope_packet (record { payload = pkt })) })) c

module _ (lib : Crypto) (net : Network) (key : Bytes) where
  -- `tryConnect`
  unfoldable pub try_connect : ℕ → Action NewConn (Unit {0}) (Unit {0})
  try_connect index conn = if conn.connected then (ok tt, conn) else elim (net.dial_addr index) [
    | err e ↦ (err e, conn)
    | panic p ↦ (panic p, conn)
    | ok addr ↦
        if net.opens_stream index
        then (ok tt, record conn { local_addr = addr; has_stream = true })
        else (err tt, record conn { local_addr = addr; has_stream = false })
  ]

  -- `InitConn`; it recovers from a panic, and returns nil then.
  unfoldable pub init_conn : ℕ → Action NewConn (Unit {0}) (Unit {0})
  init_conn index conn = elim (crypto lib key none) [
    | err e ↦ (ok tt, conn)
    | panic p ↦ (ok tt, conn)
    | ok aesgcm ↦
        let (outcome, conn') = try_connect index conn in
        elim outcome [
          | err e ↦ (err e, conn')
          | panic p ↦ (ok tt, conn')
          | ok u ↦ (ok tt, record conn' { connected = true })
        ]
  ]

  -- The wait of `Start` for a connection to come up. Nothing else knows of the connection yet, so
  -- each look at it finds the same.
  unfoldable pub wait_connected : ℕ → NewConn → Bool
  wait_connected zero conn = false
  wait_connected (suc tries) conn =
      let later = wait_connected tries conn in if conn.connected then true else later

  -- One turn of the loop of `Start`: the slot in `conns`.
  unfoldable pub set_up : ℕ → Option ClientConn
  set_up index =
      let (outcome, conn) = init_conn index new_client_conn in
      if wait_connected 10 conn
      then some (record { local_addr = conn.local_addr; receives = net.lasts index })
      else none

  -- The loop of `Start` from an index on, with the counter of `wg`.
  unfoldable pub connect_all : ℕ → ℕ → ℕ → List (Option ClientConn) × ℕ
  connect_all index zero wg = ([], wg)
  connect_all index (suc left) wg =
      let slot : Option ClientConn = set_up index in
      let added : ℕ = wg + 1 in
      let (conns, wg') =
        connect_all (index + 1) left (elim slot [ none ↦ added - 1 | some _ ↦ added ]) in
      (slot ∷ conns, wg')

  -- `Start`
  unfoldable pub start : Client → Client × ℕ
  start c = let (conns, wg) = connect_all 0 c.threads 0 in (record c { conns = conns }, wg)

-- `wg.Done()`
unfoldable pub done : Action ℕ (Unit {0}) (Unit {0})
done wg = if wg == 0 then (panic raised, wg) else (ok tt, wg - 1)

-- `Close` of every connection. A `Close` may wait for ever (an error): for a receiver of its signal,
-- or, where a `writeProcess` has taken the signal, for the end of `run`.
unfoldable pub close_all :
    (ClientConn → Bool) → List (Option ClientConn) → Action ℕ (Unit {0}) (Unit {0})
close_all returns [] = pure tt
close_all returns (none ∷ more) = λ wg. (panic nil_dereference, wg)
close_all returns (some conn ∷ more) =
    let later = done >> close_all returns more in
    if returns conn then later else (λ wg. (err tt, wg))

-- `wg.Wait()`
unfoldable pub wait_all : Action ℕ (Unit {0}) (Unit {0})
wait_all wg = if wg == 0 then (ok tt, wg) else (err tt, wg)

-- `Stop`, with what is known of each `Close`.
unfoldable pub stop : (ClientConn → Bool) → Client → Action ℕ (Unit {0}) (Unit {0})
stop returns c = close_all returns c.conns >> wait_all

-- How many connections are up, as one pass of `ConnectWait` counts them.
unfoldable pub count_connected :
    (ClientConn → Bool) → List (Option ClientConn) → Result (Unit {0}) ℕ
count_connected is_up [] = ok 0
count_connected is_up (none ∷ more) = panic nil_dereference
count_connected is_up (some conn ∷ more) =
    let here : ℕ = if is_up conn then 1 else 0 in
    elim (count_connected is_up more) [ ok n ↦ ok (here + n) | err e ↦ err e | panic p ↦ panic p ]

-- One pass of `ConnectWait`: whether it returns.
unfoldable pub connect_wait : (ClientConn → Bool) → Client → Result (Unit {0}) Bool
connect_wait is_up c = elim (count_connected is_up c.conns) [
  | ok n ↦ ok (n == c.threads)
  | err e ↦ err e
  | panic p ↦ panic p
]
