-- ===== src/Transport/Client/Pings/Rounds.antt =====
-- What the pings hand over, turn after turn.
use qtun.Base.{ℕ, ◌+◌, ◌≡◌, Option, none, some, List, [], ◌∷◌, ◌++◌, Bytes, ok, err, panic}
use qtun.Protocol.{envelope_ping, Codec}
use qtun.Transport.Client.{ClientConn, Client, get_conn_port, PingEnv, ping_message}
use qtun.Transport.Client.Balance.{targets}

-- The message of a connection.
abbrev pub announce : Codec → PingEnv → ClientConn → List Bytes
announce codec env conn = elim env.parsed_ip [
  | none ↦ []
  | some ip ↦ elim (get_conn_port conn.local_addr) [
    | ok port ↦
        codec.marshal (record { type = some (envelope_ping (ping_message env ip port)) }) ∷ []
    | err e ↦ []
    | panic p ↦ []
  ]
]

-- The messages of one turn, and of all.
abbrev pub announces : Codec → PingEnv → List (Option ClientConn) → List Bytes
announces codec env [] = []
announces codec env (none ∷ more) = announces codec env more
announces codec env (some conn ∷ more) = announce codec env conn ++ announces codec env more

abbrev pub all_announces : Codec → List PingEnv → List (Option ClientConn) → List Bytes
all_announces codec [] conns = []
all_announces codec (env ∷ more) conns = announces codec env conns ++ all_announces codec more conns

-- A connection that was set up, with a local address that has a port.
abbrev pub HasPort : Option ClientConn → Type 0
HasPort o =
    (conn : ClientConn) × (port : Bytes) × (o ≡ some conn)
    × (get_conn_port conn.local_addr ≡ ok port)

-- The configured IP parses.
abbrev pub HasIp : PingEnv → Type 0
HasIp env = (ip : Bytes) × (env.parsed_ip ≡ some ip)

-- What all turns hand over.
abbrev turns : Codec → List PingEnv → ℕ → ℕ → List (Option ClientConn) → List (ℕ × Bytes)
turns codec [] threads serial conns = []
turns codec (env ∷ more) threads serial conns =
    targets threads serial (announces codec env conns)
    ++ turns codec more threads (serial + threads) conns
